-- ===== src/Shop/Current.antt =====
-- What CurrentPS is in the comparison of a path state, and when a state agrees with it.
use audited_objects.Prelude.{
  Bool-cases, ◌≢◌, str_eq_iff, ap, str_eq, ◌∙◌, ◌⊎◌, ◌≡◌, Bool, Option, Bytes, none, some, refl,
  inl, inr, true, false, ok, Post, Post-then, Post_self,
}
use audited_objects.Ps.{Ps, ps_get_abs, ps_has_dcode, ps_new_from_path}
use audited_objects.Ps.Csv.{ps_new_from_csv_string}
use audited_objects.Ps.Diff.{ps_diff}
use audited_objects.Shop.{is_some}
use audited_objects.Shop.Prereqs.{
  Env, first_record, new_state, kept_or_new, current_state, mismatch,
}

-- `P`, where `b` is true.
abbrev pub When : Bool → Type 0 → Type 0
When true P = P
When false P = Unit

pub when_true : (b : Bool) (P : Type 0) → (b ≡ true → P) → When b P
when_true true P f = f refl
when_true false P f = tt

module _ (env : Env) where
  -- The state at hand is not that of the path.
  abbrev pub Elsewhere : Bytes → Option Ps → Type 0
  Elsewhere path none = Unit
  Elsewhere path (some ps) = (abs : Bytes) × (ps_get_abs ps ≡ ok abs) × (abs ≢ path)

  -- The state of a path that is compared, by the one at hand before: the one at hand, if it has this
  -- path, and otherwise what ps_stat makes now of a new state of the path, and whether it failed.
  abbrev pub CurrentOf : Bytes → Bool → Option Ps → Bool × Ps → Type 0
  CurrentOf path want_dcode before r =
      (Elsewhere path before
        × ((ps : Ps) × (ps_new_from_path env.base env.cwd path ≡ ok ps)
            × (env.ps_stat ps want_dcode ≡ r)))
      ⊎ ((before ≡ some r.1) × (ps_get_abs r.1 ≡ ok path) × (r.0 ≡ false))

  -- The path is ignored, or ps_stat did not fail now and ps_diff finds no difference.
  abbrev pub Confirmed : Bytes → Ps → Bool × Ps → Type 0
  Confirmed path shopped r =
      (env.re_match path ≡ true) ⊎ ((r.0 ≡ false) × (ps_diff env.roundoff shopped r.1 ≡ ok none))

  -- The comparison of the roadmap's state with this key, from one state at hand to the next. If the
  -- build is one of those that are `named`, the state is confirmed.
  abbrev pub Agrees : Bool → Bytes → Option Ps → Option Ps → Type 0
  Agrees named key before after =
      (csv : Bytes) × (shopped : Ps) × (path : Bytes) × (r : Bool × Ps) × (first_record
          (env.records key)
        ≡ ok csv)
      × (ps_new_from_csv_string env.base env.cwd (some csv) ≡ ok shopped)
      × (ps_get_abs shopped ≡ ok path)
      × CurrentOf path (ps_has_dcode shopped) before r
      × (after ≡ some r.1)
      × When named (Confirmed path shopped r)

  new_state-CurrentOf :
      (path : Bytes) (want : Bool) (before : Option Ps)
      → Elsewhere path before
      → Post (new_state env path want) (CurrentOf path want before)
  unfolding new_state
  new_state-CurrentOf path want before other =
      let m = ps_new_from_path env.base env.cwd path in
      Post-then _ (λ ps. m ≡ ok ps) m _ (Post_self m) (λ ps e. inl (other, (ps, e, refl)))

  kept_or_new-CurrentOf :
      (path abs : Bytes) (want : Bool) (ps : Ps)
      → ps_get_abs ps ≡ ok abs
      → Post (kept_or_new env path want ps (str_eq abs path)) (CurrentOf path want (some ps))
  unfolding kept_or_new
  kept_or_new-CurrentOf path abs want ps e = elim (Bool-cases (str_eq abs path)) [
    | inl same ↦ rw same (inr (refl, e ∙ ap ok ((str_eq_iff abs path).0 same), refl))
    | inr other ↦ rw other (
        new_state-CurrentOf path want (some ps)
          (abs, e, λ eq. absurd (cc ((str_eq_iff abs path).1 eq, other))))
  ]

  pub current_state-CurrentOf :
      (path : Bytes) (want : Bool) (before : Option Ps)
      → Post (current_state env path want before) (CurrentOf path want before)
  unfolding current_state
  current_state-CurrentOf path want none = new_state-CurrentOf path want none tt
  current_state-CurrentOf path want (some ps) =
      Post-then _ (λ abs. ps_get_abs ps ≡ ok abs) (ps_get_abs ps) _ (Post_self (ps_get_abs ps))
        (λ abs e. kept_or_new-CurrentOf path abs want ps e)

  is_some-none : (o : Option Bytes) → is_some o ≡ false → o ≡ none
  unfolding is_some
  is_some-none none h = refl
  is_some-none (some r) h = absurd (cc h)

  pub mismatch-none :
      (failed : Bool) (shopped current : Ps)
      → Post (mismatch env failed shopped current) (λ differs.
        differs ≡ false → (failed ≡ false) × (ps_diff env.roundoff shopped current ≡ ok none))
  unfolding mismatch
  mismatch-none true shopped current = λ e. absurd (cc e)
  mismatch-none false shopped current =
      let diff = ps_diff env.roundoff shopped current in
      Post-then _ (λ r. diff ≡ ok r) diff _ (Post_self diff)
        (λ r e same. (refl, e ∙ ap ok (is_some-none r same)))
