-- ===== src/Prop/Settings.antt =====
-- What a setting is after it has been made, and when a setting is missing (src/prop.c).
use audited_objects.Prelude.{
  ℕ, zero, suc, ◌<◌, ◌≡◌, ◌≢◌, ◌↔◌, ◌⊎◌, inl, inr, refl, sym, ap, ◌∙◌, Bool, true, false,
  if◌then◌else◌, List, [], ◌∷◌, Option, none, some, Bytes, Lacks, length, get_elem?,
  get_elem?-set_self, get_elem?-set_ne, set, str_eq, str_eq_refl, str_eq_iff, arith, Outcome, ok,
  abort, ◌>>=◌, Bool-cases,
}
use audited_objects.Prop.{PropE, PropRow, number, prop_null, prop_flag_export}
use audited_objects.Prop.Table.{
  has_flag, prop_to_name, prop_get_value, value_or_default, is_missing, prop_get_str, prop_assert,
}
use audited_objects.Prop.Environment.{
  same_value, Environ, Props, prop_to_ev, padded, put_value, is_exported, export_as, public_name,
  prop_export, export_if, assign, put_str, prop_put_str, prop_unset, prop_override_str,
}
use audited_objects.Prop.Names.{IsProptab, row_of, row_at_ok, get_value_of, map-set}

-- The value of a row as prop_get_str finds it.
pub get_str_of :
    (t : List PropRow) (p : PropE) (r : PropRow)
    → IsProptab t
    → get_elem? t (number p) ≡ some r
    → r.pr_index ≡ p
    → prop_get_str t (number p) ≡ (
        if is_missing (value_or_default r.pr_value r.pr_dflt) r.pr_dflt
        then abort
        else ok (value_or_default r.pr_value r.pr_dflt))
unfolding prop_get_str
get_str_of t p r h at i = rw (get_value_of t p r h at i) (rw (row_at_ok t (number p) r at) refl)

-- A row at the number of a property is that property's.
pub index_of :
    {t : List PropRow} (p : PropE) (r : PropRow)
    → IsProptab t
    → get_elem? t (number p) ≡ some r
    → r.pr_index ≡ p
index_of p r h at = let (r', at', i) = row_of p h in let e : some r' ≡ some r = sym at' ∙ at in cc

-- What prop_assert makes of what prop_get_str found.
abbrev verdict : Option Bytes → Option Bytes → Outcome (Unit {0})
verdict v d = do
  w ← (if is_missing (value_or_default v d) d then abort else ok (value_or_default v d))
  elim w [ none ↦ abort | some s ↦ ok tt ]

verdict-abort :
    (v d : Option Bytes)
    → (verdict v d ≡ abort) ↔ ((v ≡ some prop_null) ⊎ ((v ≡ none) × (d ≡ none)))
unfolding value_or_default is_missing
verdict-abort none none = (λ _. inr (refl, refl), λ _. refl)
verdict-abort none (some d) = (λ e. cc, λ e. elim e [ inl a ↦ cc | inr b ↦ cc ])
verdict-abort (some v) none = ground (arith, str_eq_iff v prop_null)
verdict-abort (some v) (some d) = ground (arith, str_eq_iff v prop_null)

-- prop_assert ends the process exactly if the value is "<NULL>", or if there is neither a value nor a
-- default. A required property that was never set passes, with the default "<REQUIRED>" for its value.
pub prop_assert-abort :
    (t : List PropRow) (p : PropE) (r : PropRow)
    → IsProptab t
    → get_elem? t (number p) ≡ some r
    → (prop_assert t (number p) ≡ abort)
      ↔ ((r.pr_value ≡ some prop_null) ⊎ ((r.pr_value ≡ none) × (r.pr_dflt ≡ none)))
unfolding prop_assert
prop_assert-abort t p r h at =
    rw (get_str_of t p r h at (index_of p r h at)) (verdict-abort r.pr_value r.pr_dflt)

-- The new table, when a value has been put.
put_value_of :
    (t : List PropRow) (k : ℕ) (r : PropRow) (v : Option Bytes)
    → get_elem? t k ≡ some r
    → put_value t k v ≡ ok (set t k (record r { pr_value = v }))
unfolding put_value
put_value_of t k r v at = rw (row_at_ok t k r at) refl

pub set-IsProptab :
    (t : List PropRow) (k : ℕ) (r : PropRow) (v : Option Bytes)
    → get_elem? t k ≡ some r
    → IsProptab t
    → IsProptab (set t k (record r { pr_value = v }))
set-IsProptab t k r v at h = record {
  names = map-set (λ (x : PropRow). x.pr_name) t k r (record r { pr_value = v }) at refl ∙ h.names;
  indices =
      map-set (λ (x : PropRow). x.pr_index) t k r (record r { pr_value = v }) at refl ∙ h.indices;
}

-- The rows that `t'` and `t` have in common: all but that of `k`.
abbrev pub SameBut : ℕ → List PropRow → List PropRow → Type 0
SameBut k t t' = (j : ℕ) → j ≢ k → get_elem? t' j ≡ get_elem? t j

pub same_value-eq : (o : Option Bytes) (val : Bytes) → same_value o val ≡ true → o ≡ some val
unfolding same_value
same_value-eq none val h = cc
same_value-eq (some str) val h = ap some ((str_eq_iff str val).0 h)

get_elem?-lt : {A : Type 0} (xs : List A) (k : ℕ) (x : A) → get_elem? xs k ≡ some x → k < length xs
get_elem?-lt [] k x h = cc
get_elem?-lt (a ∷ xs) zero x h = omega arith
get_elem?-lt (a ∷ xs) (suc k) x h = omega (arith, get_elem?-lt xs k x h)

-- A value that is set and is not "<NULL>" is the one that is found.
set_value_found :
    (w : Bytes) (d : Option Bytes)
    → w ≢ prop_null
    → (if is_missing (value_or_default (some w) d) d
        then abort
        else ok (value_or_default (some w) d))
      ≡ ok (some w)
unfolding value_or_default is_missing
set_value_found w d h = elim (Bool-cases (str_eq w prop_null)) [
  | inl e ↦ absurd (h ((str_eq_iff w prop_null).0 e))
  | inr e ↦ rw e refl
]

module _ (env : Environ) where
  open env use {Block, getenv, putenv, unsetenv, getenv-putenv, getenv-unsetenv}

  -- The environment variable of a property.
  unfoldable pub variable : PropE → PropRow → Props env → Bytes
  variable p r s = public_name env (number p) (prop_to_ev s.prefix r.pr_name)

  -- What holds of the state `s'` after the property `p` of the row `r` got the value `w` in the state `s`.
  pub record Holds (p : PropE) (r : PropRow) (w : Bytes) (s s' : Props env) : Type 0 where
    pub keeps : IsProptab s'.proptab
    pub others : SameBut (number p) s.proptab s'.proptab
    pub prefix : s'.prefix ≡ s.prefix
    pub found : prop_get_str s'.proptab (number p) ≡ ok (some w)
    pub exported :
        has_flag prop_flag_export r.pr_flags ≡ true → getenv s'.environ (variable p r s) ≡ some w
    pub elsewhere : (j : Bytes) → variable p r s ≢ j → getenv s'.environ j ≡ getenv s.environ j
    pub kept_private : has_flag prop_flag_export r.pr_flags ≡ false → s'.environ ≡ s.environ

  -- A value is exported: the environment has it.
  getenv-export_as :
      (name val : Bytes) (s : Props env)
      → Lacks b'=' name
      → getenv (export_as env name val s).environ name ≡ some val
  unfolding export_as
  getenv-export_as name val s l = elim (Bool-cases (is_exported env name val s.environ)) [
    | inl done ↦ rw done (same_value-eq (getenv s.environ name) val (unfold is_exported in done))
    | inr more ↦ rw more (rw (getenv-putenv s.environ name val name l) (rw (str_eq_refl name) refl))
  ]

  getenv-export_as_other :
      (name val : Bytes) (s : Props env) (j : Bytes)
      → Lacks b'=' name
      → name ≢ j
      → getenv (export_as env name val s).environ j ≡ getenv s.environ j
  unfolding export_as
  getenv-export_as_other name val s j l ne =
      let other : str_eq name j ≡ false = ground (arith, str_eq_iff name j, ne) in
      elim (Bool-cases (is_exported env name val s.environ)) [
        | inl done ↦ rw done refl
        | inr more ↦ rw more (rw (getenv-putenv s.environ name val j l) (rw other refl))
      ]

  export_as-proptab :
      (name val : Bytes) (s : Props env)
      → ((export_as env name val s).proptab ≡ s.proptab)
        × ((export_as env name val s).prefix ≡ s.prefix)
  unfolding export_as
  export_as-proptab name val s = ground arith

  -- The state in which a value has been stored, and after its export.
  stored : PropE → PropRow → Bytes → Props env → Props env
  stored p r w s = record s { proptab = set s.proptab (number p) (record r { pr_value = some w }) }

  settled : PropE → PropRow → Bytes → Props env → Props env
  unfolding stored
  settled p r w s =
      if has_flag prop_flag_export r.pr_flags
      then export_as env (variable p r s) w (stored p r w s)
      else stored p r w s

  module _ (s : Props env) (p : PropE) (r : PropRow) (w : Bytes) (h : IsProptab s.proptab)
      (at : get_elem? s.proptab (number p) ≡ some r) (proper : w ≢ prop_null) where
    stored_row :
        get_elem? (stored p r w s).proptab (number p) ≡ some (record r { pr_value = some w })
    unfolding stored
    stored_row = get_elem?-set_self s.proptab (number p) _ (get_elem?-lt s.proptab (number p) r at)

    stored-IsProptab : IsProptab (stored p r w s).proptab
    unfolding stored
    stored-IsProptab = set-IsProptab s.proptab (number p) r (some w) at h

    stored_value : prop_get_str (stored p r w s).proptab (number p) ≡ ok (some w)
    stored_value =
        let r' : PropRow = record r { pr_value = some w } in
        rw
          (get_str_of (stored p r w s).proptab p r' stored-IsProptab stored_row
            (index_of p r' stored-IsProptab stored_row))
          (set_value_found w r.pr_dflt proper)

    export-stored :
        prop_export env (number p) (stored p r w s)
        ≡ ok (export_as env (variable p r s) w (stored p r w s))
    unfolding prop_export variable prop_to_name
    export-stored = rw stored_value (
        rw
          (row_at_ok (stored p r w s).proptab (number p) (record r { pr_value = some w })
            stored_row)
          (unfold stored in refl))

    assign-settled : assign env (number p) w s ≡ ok (settled p r w s)
    unfolding assign
    assign-settled = rw (put_value_of s.proptab (number p) r (some w) at) (
        rw
          (row_at_ok (set s.proptab (number p) (record r { pr_value = some w })) (number p)
            (record r { pr_value = some w }) (unfold stored in stored_row))
          (by_flag (has_flag prop_flag_export r.pr_flags) refl))
      where
        by_flag :
            (b : Bool)
            → has_flag prop_flag_export r.pr_flags ≡ b
            → export_if env
                (has_flag prop_flag_export r.pr_flags)
                (number p)
                (record s { proptab = set s.proptab (number p) (record r { pr_value = some w }) })
              ≡ ok (settled p r w s)
        by_flag true e = unfold settled export_if in (rw e (unfold stored in export-stored))
        by_flag false e = unfold settled stored export_if in (rw e refl)

    -- A value that was not there is stored, and exported if it is to be.
    put_str-settled : r.pr_value ≡ none → put_str env (number p) w s ≡ ok (settled p r w s)
    unfolding put_str
    put_str-settled fresh =
        let none_yet : prop_get_value s.proptab (number p) ≡ ok none =
          get_value_of s.proptab p r h at (index_of p r h at) ∙ ap ok fresh in
        rw none_yet assign-settled

    settled_table :
        ((settled p r w s).proptab ≡ (stored p r w s).proptab)
        × ((settled p r w s).prefix ≡ s.prefix)
    unfolding settled
    settled_table = elim (Bool-cases (has_flag prop_flag_export r.pr_flags)) [
      | inl e ↦
          let (t, x) = export_as-proptab (variable p r s) w (stored p r w s) in
          rw e (t, x ∙ unfold stored in refl)
      | inr e ↦ rw e (refl, unfold stored in refl)
    ]

    settled-Holds : Lacks b'=' (variable p r s) → Holds p r w s (settled p r w s)
    settled-Holds lacks =
        let (t, x) = settled_table in
        record {
          keeps = rw t stored-IsProptab;
          others = λ j ne. rw t (unfold stored in get_elem?-set_ne s.proptab _ (λ e. ne (sym e)));
          prefix = x;
          found = rw t stored_value;
          exported = λ e.
              unfold settled in (rw e (getenv-export_as (variable p r s) w (stored p r w s) lacks));
          elsewhere = λ j ne. elim (Bool-cases (has_flag prop_flag_export r.pr_flags)) [
            | inl e ↦
                unfold settled in
                (rw e (
                  getenv-export_as_other (variable p r s) w (stored p r w s) j lacks ne
                  ∙ unfold stored in refl))
            | inr e ↦ unfold settled stored in (rw e refl)
          ];
          kept_private = λ e. unfold settled stored in (rw e refl);
        }

  -- A property without a value gets it.
  prop_put_str-settled :
      (s : Props env) (p : PropE) (r : PropRow) (val : Bytes)
      → IsProptab s.proptab
      → get_elem? s.proptab (number p) ≡ some r
      → padded r.pr_pad val ≢ prop_null
      → r.pr_value ≡ none
      → prop_put_str env (number p) val s ≡ ok (settled p r (padded r.pr_pad val) s)
  unfolding prop_put_str
  prop_put_str-settled s p r val h at proper fresh =
      ap (λ m. m >>= λ (r' : PropRow). put_str env (number p) (padded r'.pr_pad val) s)
        (row_at_ok s.proptab (number p) r at)
      ∙ put_str-settled s p r (padded r.pr_pad val) h at proper fresh

  -- prop_put_str of a property without a value.
  pub prop_put_str-Holds :
      (s : Props env) (p : PropE) (r : PropRow) (val : Bytes)
      → IsProptab s.proptab
      → get_elem? s.proptab (number p) ≡ some r
      → padded r.pr_pad val ≢ prop_null
      → Lacks b'=' (variable p r s)
      → r.pr_value ≡ none
      → (s' : Props env) × (prop_put_str env (number p) val s ≡ ok s')
        × Holds p r (padded r.pr_pad val) s s'
  prop_put_str-Holds s p r val h at proper lacks fresh = (
    settled p r (padded r.pr_pad val) s,
    prop_put_str-settled s p r val h at proper fresh,
    settled-Holds s p r (padded r.pr_pad val) h at proper lacks,
  )

  put_str-some :
      (s : Props env) (p : PropE) (r : PropRow) (val old : Bytes)
      → IsProptab s.proptab
      → get_elem? s.proptab (number p) ≡ some r
      → r.pr_value ≡ some old
      → put_str env (number p) val s ≡ ok s
  unfolding put_str
  put_str-some s p r val old h at e =
      let found : prop_get_value s.proptab (number p) ≡ ok (some old) =
        get_value_of s.proptab p r h at (index_of p r h at) ∙ ap ok e in
      rw found refl

  -- prop_put_str of a property that has a value changes nothing.
  pub prop_put_str-some :
      (s : Props env) (p : PropE) (r : PropRow) (val old : Bytes)
      → IsProptab s.proptab
      → get_elem? s.proptab (number p) ≡ some r
      → r.pr_value ≡ some old
      → prop_put_str env (number p) val s ≡ ok s
  unfolding prop_put_str
  prop_put_str-some s p r val old h at e =
      ap (λ m. m >>= λ (r' : PropRow). put_str env (number p) (padded r'.pr_pad val) s)
        (row_at_ok s.proptab (number p) r at)
      ∙ put_str-some s p r (padded r.pr_pad val) old h at e

  unset_none :
      (s : Props env) (k : ℕ) (r : PropRow)
      → get_elem? s.proptab k ≡ some r
      → r.pr_value ≡ none
      → prop_unset env k false s ≡ ok s
  unfolding prop_unset
  unset_none s k r at e = rw (row_at_ok s.proptab k r at) (rw e refl)

  unset_some :
      (s : Props env) (k : ℕ) (r : PropRow) (old : Bytes)
      → get_elem? s.proptab k ≡ some r
      → r.pr_value ≡ some old
      → prop_unset env k false s
        ≡ ok (record s { proptab = set s.proptab k (record r { pr_value = none }) })
  unfolding prop_unset
  unset_some s k r old at e =
      rw (row_at_ok s.proptab k r at) (rw e (rw (put_value_of s.proptab k r none at) refl))

  -- prop_override_str returns, the property has the value then, padded to its width, and if it is
  -- exported so does its variable in the environment. Every other variable has the value that it had,
  -- or has none as before, and if the property is not exported the environment is what it was. No
  -- other property changes. The value is not "<NULL>", and the name of the variable has no '='.
  pub prop_override_str-Holds :
      (s : Props env) (p : PropE) (r : PropRow) (val : Bytes)
      → IsProptab s.proptab
      → get_elem? s.proptab (number p) ≡ some r
      → padded r.pr_pad val ≢ prop_null
      → Lacks b'=' (variable p r s)
      → (s' : Props env) × (prop_override_str env (number p) val s ≡ ok s')
        × Holds p r (padded r.pr_pad val) s s'
  unfolding prop_override_str prop_unset prop_put_str
  prop_override_str-Holds s p r val h at proper lacks = by_value r.pr_value refl
    where
      w : Bytes
      w = padded r.pr_pad val

      by_value :
          (o : Option Bytes)
          → r.pr_value ≡ o
          → (s' : Props env) × (prop_override_str env (number p) val s ≡ ok s') × Holds p r w s s'
      by_value none e = (
        settled p r w s,
        ap (λ m. m >>= prop_put_str env (number p) val) (unset_none s (number p) r at e)
            ∙ prop_put_str-settled s p r val h at proper e,
        settled-Holds s p r w h at proper lacks,
      )
      by_value (some old) e =
          let r₀ : PropRow = record r { pr_value = none } in
          let s₀ : Props env = record s { proptab = set s.proptab (number p) r₀ } in
          let at₀ : get_elem? s₀.proptab (number p) ≡ some r₀ =
            get_elem?-set_self s.proptab (number p) r₀ (get_elem?-lt s.proptab (number p) r at) in
          let h₀ : IsProptab s₀.proptab = set-IsProptab s.proptab (number p) r none at h in
          let done : Holds p r₀ w s₀ (settled p r₀ w s₀) =
            settled-Holds s₀ p r₀ w h₀ at₀ proper (unfold variable in lacks) in
          (
            settled p r₀ w s₀,
            ap (λ m. m >>= prop_put_str env (number p) val) (unset_some s (number p) r old at e)
                ∙ prop_put_str-settled s₀ p r₀ val h₀ at₀ proper refl,
            record {
              keeps = done.keeps;
              others = λ j ne. done.others j ne ∙ get_elem?-set_ne s.proptab r₀ (λ x. ne (sym x));
              prefix = done.prefix;
              found = done.found;
              exported = λ x. unfold variable in (done.exported x);
              elsewhere = λ j ne. done.elsewhere j (unfold variable in ne);
              kept_private = λ x. done.kept_private x;
            },
          )
