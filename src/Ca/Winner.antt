-- ===== src/Ca/Winner.antt =====
-- Which of the actions on a path wins.
use audited_objects.Prelude.{
  ◌⊎◌, ℕ, ◌≡◌, refl, sym, ap, ◌∙◌, Bool, true, false, not, ◌&&◌, ◌||◌, Option, none, some, List, [],
  ◌∷◌, if◌then◌else◌, Bytes, str_eq, Outcome, ok, null, abort, ◌>>=◌, All, arith, Bool-cases, inl,
  inr,
}
use audited_objects.Pa.{Pa, pa_is_read}
use audited_objects.Ca.Coalesce.{Dict, keep_cooked, ca_coalesce}
use audited_objects.Ca.Cooked.{
  winner, winner-keep_cooked, winner_of, IsRaw, actions, ca_coalesce-winner_of,
}

-- Is one of the actions on the path `k` not a read?
unfoldable pub has_write : Bytes → List (Bytes × Pa) → Bool
has_write k [] = false
has_write k ((rel, raw) ∷ raws) = (str_eq rel k && not (pa_is_read raw)) || has_write k raws

-- Is the best so far not a read?
unfoldable pub is_write : Option Pa → Bool
is_write none = false
is_write (some pa) = not (pa_is_read pa)

kinds :
    (b r c : Bool) → (not r && not c ≡ true) ⊎ (b ≡ r) → not (if b then c else r) ≡ (not c || not r)
kinds true true c h = grind (arith, h)
kinds true false c h = grind (arith, h)
kinds false true c h = grind (arith, h)
kinds false false c h = grind (arith, h)

pa_is_read-if :
    (b : Bool) (raw ckd : Pa)
    → pa_is_read (if b then ckd else raw) ≡ (if b then pa_is_read ckd else pa_is_read raw)
pa_is_read-if true raw ckd = refl
pa_is_read-if false raw ckd = refl

-- A write is kept against a read and a read gives way to a write; of two of a kind either is of that
-- kind.
keep_kind :
    (roundoff : ℕ) (raw ckd : Pa) (b : Bool)
    → keep_cooked roundoff raw ckd ≡ ok b
    → not (pa_is_read (if b then ckd else raw)) ≡ (not (pa_is_read ckd) || not (pa_is_read raw))
keep_kind roundoff raw ckd b e = rw (pa_is_read-if b raw ckd) (
    kinds b (pa_is_read raw) (pa_is_read ckd)
      (elim (Bool-cases (not (pa_is_read raw) && not (pa_is_read ckd))) [
        | inl writes ↦ inl writes
        | inr reads ↦
            let kept : keep_cooked roundoff raw ckd ≡ ok (pa_is_read raw) =
              unfold keep_cooked in rw reads in
            inr (cc (e, kept))
      ]))

or_false : (a : Bool) → a ≡ (a || false)
or_false true = refl
or_false false = refl

some_or : (a b c : Bool) → a || (b || c) ≡ ((a || b) || c)
some_or true b c = refl
some_or false b c = refl

winner_kind :
    (roundoff : ℕ) (raw : Pa) (best out : Option Pa)
    → winner roundoff raw best ≡ ok out
    → is_write out ≡ (is_write best || not (pa_is_read raw))
unfolding winner is_write
winner_kind roundoff raw none out e = let taken : some raw ≡ out = cc e in rw (← taken) refl
winner_kind roundoff raw (some ckd) out e =
    from_keep (keep_cooked roundoff raw ckd) refl (sym (winner-keep_cooked roundoff raw ckd) ∙ e)
  where
    from_keep :
        (m : Outcome Bool)
        → keep_cooked roundoff raw ckd ≡ m
        → (m >>= λ keep. ok (some (if keep then ckd else raw))) ≡ ok out
        → is_write out ≡ (is_write (some ckd) || not (pa_is_read raw))
    from_keep (ok b) kept e =
        let taken : some (if b then ckd else raw) ≡ out = cc e in
        rw (← taken) (keep_kind roundoff raw ckd b kept)
    from_keep null kept e = absurd (cc e)
    from_keep abort kept e = absurd (cc e)

-- The winner on a path is not a read exactly if one of the actions on that path is not: writes beat
-- reads, in whatever order they come.
winner_of_kind :
    (roundoff : ℕ) (k : Bytes) (raws : List (Bytes × Pa)) (best out : Option Pa)
    → winner_of roundoff k raws best ≡ ok out
    → is_write out ≡ (is_write best || has_write k raws)
unfolding winner_of has_write
winner_of_kind roundoff k [] best out e =
    let taken : best ≡ out = cc e in rw (← taken) (or_false (is_write best))
winner_of_kind roundoff k ((rel, raw) ∷ raws) best out e = elim (Bool-cases (str_eq rel k)) [
  | inl same ↦ rw same (
      from_winner (λ b. winner_of_kind roundoff k raws b out) (winner roundoff raw best) refl
        (rw same at e)
      ∙ sym (some_or (is_write best) (not (pa_is_read raw)) (has_write k raws)))
  | inr other ↦ rw other (winner_of_kind roundoff k raws best out (rw other at e))
]
  where
    from_winner :
        ((b : Option Pa)
          → winner_of roundoff k raws b ≡ ok out
          → is_write out ≡ (is_write b || has_write k raws))
        → (m : Outcome (Option Pa)) → winner roundoff raw best ≡ m
        → (m >>= λ best'. winner_of roundoff k raws best') ≡ ok out
        → is_write out ≡ ((is_write best || not (pa_is_read raw)) || has_write k raws)
    from_winner more (ok b) won e =
        more b e ∙ ap (λ w. w || has_write k raws) (winner_kind roundoff raw best b won)
    from_winner more null won e = absurd (cc e)
    from_winner more abort won e = absurd (cc e)

module _ (dict : Dict) (roundoff : ℕ) (base : Bytes) (cwd : Option Bytes) where
  -- After ca_coalesce of raw actions that have a state and a path, and that pa_copy copies, the cooked
  -- action of a path is other than a read exactly if a raw action on that path is: no write, removal or
  -- link is lost to a read, in whatever order they come.
  pub ca_coalesce-has_write :
      (raws : List (Bytes × Pa))
      → All (IsRaw base cwd) raws
      → (d : dict.Carrier) × (ca_coalesce dict roundoff base cwd
            (actions dict roundoff base cwd raws)
            dict.empty
          ≡ ok d)
        × ((k : Bytes) → is_write (dict.lookup d k) ≡ has_write k raws)
  unfolding has_write is_write
  ca_coalesce-has_write raws r =
      let (d, done, w) = ca_coalesce-winner_of dict roundoff base cwd raws r in
      (d, done, λ k. winner_of_kind roundoff k raws none (dict.lookup d k) (w k))
