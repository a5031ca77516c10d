-- ===== src/Vb/Bits.antt =====
-- A verbosity bit that is added to the settings is one that is matched (src/vb.c).
use audited_objects.Prelude.{
  ℕ, zero, suc, ◌+◌, ◌≤◌, ◌<◌, ◌≡◌, ◌≢◌, refl, sym, ap, ◌∙◌, Bool, true, false, not, ◌&&◌, ◌||◌,
  ◌==◌, leb, ltb, if◌then◌else◌, List, [], ◌∷◌, ◌++◌, none, some, Bytes, Lacks, length,
  length-append, take_all, get_elem?, contains, contains-Lacks, str_eq, str_eq_iff, arith, ok,
  subst,
}
use audited_objects.Prelude.Int.{pos}
use audited_objects.Prop.{PropRow, number, prop_null, p_verbosity}
use audited_objects.Prop.Table.{prop_get_str}
use audited_objects.Prop.Environment.{Environ, Props, padded, same_value, prop_override_str}
use audited_objects.Prop.Names.{IsProptab}
use audited_objects.Prop.Settings.{same_value-eq, variable, prop_override_str-Holds}
use audited_objects.Vb.{VbRow, vbtab}
use audited_objects.Vb.Mask.{
  Mask, with_bit, VbTerm, term_off, term_on, term_all, term_bit, term_unknown, vb_term, vb_apply,
  put_char, pieces, vb_terms, vb_name2mask,
}
use audited_objects.Vb.State.{
  vbmask_unset, same_bits, vb_argument, Vb, append_terms, add_terms, vb_addstr, add_row, vb_addbit,
  known_mask, vb_mask, vb_bitmatch,
}

put_char-cons :
    (c : ℕ) (ts : List Bytes) → (u : Bytes) × (us : List Bytes) × (put_char c ts ≡ u ∷ us)
unfolding put_char
put_char-cons c [] = (c ∷ [], [], refl)
put_char-cons c (t ∷ ts) = (c ∷ t, ts, refl)

pieces-cons : (s : Bytes) → (u : Bytes) × (us : List Bytes) × (pieces s ≡ u ∷ us)
unfolding pieces
pieces-cons [] = ([], [], refl)
pieces-cons (c ∷ s) = by_comma (c == b',')
  where
    by_comma :
        (b : Bool)
        → (u : Bytes) × (us : List Bytes) × ((if b then [] ∷ pieces s else put_char c (pieces s))
            ≡ u ∷ us)
    by_comma true = ([], pieces s, refl)
    by_comma false = put_char-cons c (pieces s)

put_char-append :
    (c : ℕ) (ts us : List Bytes) (u : Bytes) (vs : List Bytes)
    → ts ≡ u ∷ vs
    → put_char c (ts ++ us) ≡ put_char c ts ++ us
unfolding put_char
put_char-append c [] us u vs = λ e. cc
put_char-append c (t ∷ ts) us u vs = λ e. refl

-- The pieces of two lists with a comma between them.
pieces-append : (a b : Bytes) → pieces (a ++ (b',' ∷ b)) ≡ pieces a ++ pieces b
unfolding pieces
pieces-append [] b = refl
pieces-append (c ∷ a) b = rw (pieces-append a b) (by_comma (c == b','))
  where
    by_comma :
        (x : Bool)
        → (if x then [] ∷ (pieces a ++ pieces b) else put_char c (pieces a ++ pieces b))
          ≡ (if x then [] ∷ pieces a else put_char c (pieces a)) ++ pieces b
    by_comma true = refl
    by_comma false =
        let (u, us, e) = pieces-cons a in put_char-append c (pieces a) (pieces b) u us e

pieces-Lacks : (s : Bytes) → Lacks b',' s → pieces s ≡ s ∷ []
unfolding pieces put_char
pieces-Lacks [] l = refl
pieces-Lacks (c ∷ s) l =
    let other : (c == b',') ≡ false = ground (arith, l.0) in
    rw other (ap (put_char c) (pieces-Lacks s l.1))

vb_terms-append :
    (ts us : List Bytes) (m : Mask) → vb_terms (ts ++ us) m ≡ vb_terms us (vb_terms ts m)
unfolding vb_terms
vb_terms-append [] us m = refl
vb_terms-append ([] ∷ ts) us m = vb_terms-append ts us m
vb_terms-append ((c ∷ t) ∷ ts) us m = vb_terms-append ts us (vb_apply (vb_term (c ∷ t)) m)

-- The name of a row, which is to stand for its own bit and for nothing else.
record IsName (n : Bytes) (i : ℕ) : Type 0 where
  one_piece : Lacks b',' n
  own_bit : vb_term n ≡ term_bit i
  plain : vb_argument (some n) ≡ some n
  short : length n ≤ 4
  proper : n ≢ prop_null

is_bit : VbTerm → ℕ → Bool
is_bit term_off i = false
is_bit term_on i = false
is_bit term_all i = false
is_bit (term_bit j) i = j == i
is_bit term_unknown i = false

is_bit-eq : (t : VbTerm) (i : ℕ) → is_bit t i ≡ true → t ≡ term_bit i
unfolding is_bit
is_bit-eq term_off i h = cc
is_bit-eq term_on i h = cc
is_bit-eq term_all i h = cc
is_bit-eq (term_bit j) i h = ap term_bit (ground arith)
is_bit-eq term_unknown i h = cc

is_name : Bytes → ℕ → Bool
is_name n i =
    not (contains n b',')
    && (is_bit (vb_term n) i
        && (same_value (vb_argument (some n)) n && (leb (length n) 4 && not (str_eq n prop_null))))

is_name-IsName : (n : Bytes) (i : ℕ) → is_name n i ≡ true → IsName n i
unfolding is_name
is_name-IsName n i h = record {
  one_piece = contains-Lacks b',' n (ground arith);
  own_bit = is_bit-eq (vb_term n) i (ground arith);
  plain = same_value-eq (vb_argument (some n)) n (ground arith);
  short = ground arith;
  proper = λ e. ground (arith, (str_eq_iff n prop_null).1 e);
}

all_names : List VbRow → ℕ → Bool
all_names [] i = true
all_names (r ∷ rs) i = is_name r.vb_name i && all_names rs (i + 1)

all_names-at :
    (rs : List VbRow) (i k : ℕ) (r : VbRow)
    → all_names rs i ≡ true
    → get_elem? rs k ≡ some r
    → IsName r.vb_name (i + k)
unfolding all_names
all_names-at [] i k r h = λ at. cc
all_names-at (x ∷ rs) i zero r h = λ at.
    let e : some x ≡ some r = at in
    let same : x ≡ r = cc in
    subst (λ (y : VbRow). IsName y.vb_name (i + 0)) same
      (subst (IsName x.vb_name) (omega arith) (is_name-IsName x.vb_name i (ground arith)))
all_names-at (x ∷ rs) i (suc k) r h =
    λ at. subst (IsName r.vb_name) (omega arith) (all_names-at rs (i + 1) k r (ground arith) at)

vbtab_names : all_names vbtab 0 ≡ true
unfolding all_names is_name is_bit vbtab vb_term vb_argument same_value contains
vbtab_names = refl

-- A name behind the terms that were there adds its bit.
one_term : (n : Bytes) (i : ℕ) (m : Mask) → IsName n i → vb_terms (pieces n) m ≡ with_bit i m
unfolding vb_terms vb_apply vb_argument
one_term [] i m h = let e : none ≡ some [] = h.plain in cc
one_term (c ∷ n) i m h = rw (pieces-Lacks (c ∷ n) h.one_piece) (rw h.own_bit refl)

added_term :
    (cur n : Bytes) (i : ℕ)
    → IsName n i
    → length cur + 5 < 1024
    → vb_name2mask (cur ++ (b',' ∷ n)) ≡ with_bit i (vb_name2mask cur)
unfolding vb_name2mask
added_term cur n i h room =
    rw (take_all 1023 (cur ++ (b',' ∷ n)) (omega (arith, length-append cur (b',' ∷ n), h.short))) (
      rw (take_all 1023 cur (omega arith)) (
        rw (pieces-append cur n) (
          vb_terms-append (pieces cur) (pieces n) (with_bit 0 (λ j. false))
          ∙ one_term n i (vb_terms (pieces cur) (with_bit 0 (λ j. false))) h)))

first_term : (n : Bytes) (i : ℕ) → IsName n i → vb_name2mask n ≡ with_bit i (vb_name2mask [])
unfolding vb_name2mask vb_terms pieces
first_term n i h =
    rw (take_all 1023 n (omega (arith, h.short))) (one_term n i (with_bit 0 (λ j. false)) h)

comma_inside : (a b : Bytes) → contains (a ++ (b',' ∷ b)) b',' ≡ true
unfolding contains
comma_inside [] b = refl
comma_inside (c ∷ a) b = ground (arith, comma_inside a b)

comma-proper : (a b : Bytes) → a ++ (b',' ∷ b) ≢ prop_null
unfolding contains
comma-proper a b e =
    let no : contains prop_null b',' ≡ false = refl in
    let yes : contains (a ++ (b',' ∷ b)) b',' ≡ true = comma_inside a b in
    let same : contains (a ++ (b',' ∷ b)) b',' ≡ contains prop_null b',' =
      ap (λ s. contains s b',') e in
    let wrong : true ≡ false = sym yes ∙ (same ∙ no) in cc

module _ (env : Environ) where
  -- What is left of the state when a list of terms has become the value of the property.
  Listed : Bytes → Vb env → Type 0
  Listed list v =
      (v.mask ≡ vbmask_unset) × (prop_get_str v.props.proptab (number p_verbosity) ≡ ok (some list))

  vb_bitmatch-Listed :
      (list : Bytes) (v : Vb env) (j : ℕ)
      → Listed list v
      → j < 31
      → (v' : Vb env) × (vb_bitmatch env (pos j) v ≡ ok (vb_name2mask list j, v'))
  unfolding Listed vb_bitmatch vb_mask known_mask same_bits vbmask_unset
  vb_bitmatch-Listed list v j h small = (
    record { mask = vb_name2mask list; props = v.props },
    (let low : ltb j 31 ≡ true = ground arith in rw low (rw h.0 (rw h.1 refl))),
  )

  module _ (v : Vb env) (r : PropRow) (table : IsProptab v.props.proptab)
      (at : get_elem? v.props.proptab (number p_verbosity) ≡ some r) (unpadded : r.pr_pad ≡ 0)
      (lacks : Lacks b'=' (variable env p_verbosity r v.props)) where
    overridden :
        (w : Bytes)
        → w ≢ prop_null
        → (p : Props env) × (prop_override_str env (number p_verbosity) w v.props ≡ ok p)
          × (prop_get_str p.proptab (number p_verbosity) ≡ ok (some w))
    unfolding padded
    overridden w proper =
        let same : padded r.pr_pad w ≡ w = rw unpadded refl in
        let (p, done, holds) =
          prop_override_str-Holds env v.props p_verbosity r w table at (rw same proper) lacks in
        (p, done, holds.found ∙ ap (λ x. ok (some x)) same)

    -- The new value of the property gives the mask one bit more.
    appended :
        (cur n : Bytes) (i : ℕ)
        → IsName n i
        → length cur + 5 < 1024
        → (p : Props env) × (list : Bytes) × (append_terms env (some cur) n v.props ≡ ok p)
          × (prop_get_str p.proptab (number p_verbosity) ≡ ok (some list))
          × (vb_name2mask list ≡ with_bit i (vb_name2mask cur))
    unfolding append_terms
    appended [] n i h room =
        let (p, done, found) = overridden n h.proper in (p, n, done, found, first_term n i h)
    appended (c ∷ s) n i h room =
        let (p, done, found) = overridden ((c ∷ s) ++ (b',' ∷ n)) (comma-proper (c ∷ s) n) in
        (p, (c ∷ s) ++ (b',' ∷ n), done, found, added_term (c ∷ s) n i h room)

  -- vb_addbit of a bit of the table returns, and afterwards vb_bitmatch of a bit below 31 returns
  -- whether that is the added one or one of the terms that the property had before; nothing else is
  -- switched on or off. The property has no width and a value, which leaves room in the buffer of
  -- 1024 bytes, and the name of its variable has no '='.
  pub vb_bitmatch-vb_addbit :
      (v : Vb env) (r : PropRow) (t : VbRow) (bit : ℕ) (cur : Bytes)
      → IsProptab v.props.proptab
      → get_elem? v.props.proptab (number p_verbosity) ≡ some r
      → r.pr_pad ≡ 0
      → Lacks b'=' (variable env p_verbosity r v.props)
      → prop_get_str v.props.proptab (number p_verbosity) ≡ ok (some cur)
      → length cur + 5 < 1024
      → get_elem? vbtab bit ≡ some t
      → (v' : Vb env) × (vb_addbit env bit v ≡ ok v')
        × ((j : ℕ)
            → j < 31
            → (v'' : Vb env) × (vb_bitmatch env (pos j) v'
                ≡ ok (j == bit || vb_name2mask cur j, v'')))
  unfolding vb_addbit add_row vb_addstr add_terms with_bit Listed
  vb_bitmatch-vb_addbit v r t bit cur table at unpadded lacks value room known =
      let h : IsName t.vb_name bit =
        subst (IsName t.vb_name) (omega arith) (all_names-at vbtab 0 bit t vbtab_names known) in
      let (p, list, done, found, mask) =
        appended v r table at unpadded lacks cur t.vb_name bit h room in
      let v' : Vb env = record { mask = vbmask_unset; props = p } in
      (
        v',
        rw known (rw h.plain (rw value (rw done refl))),
        λ j small.
            let (v'', matched) = vb_bitmatch-Listed list v' j (refl, found) small in
            (v'', matched ∙ ap (λ (m : Mask). ok (m j, v'')) mask),
      )
