-- ===== src/Ca/Foreach.antt =====
-- ca_foreach_raw_pa and ca_foreach_cooked_pa: a callback on every path action, in the order of the
-- dictionary. `S` is what the callback's data pointer leads to.
use audited_objects.Prelude.{
  ℕ, ◌+◌, Bool, true, false, not, List, [], ◌∷◌, if◌then◌else◌, Outcome, ok, abort, ◌>>=◌,
}
use audited_objects.Prelude.Int.{ℤ, pos, negsuc, ◌+ℤ◌}
use audited_objects.Pa.{Pa, pa_is_read}

module _ {S : Type 0} (process : Pa → S → S × ℤ) where
  -- One call of the callback: a negative return code is an internal error.
  unfoldable pub visit : Pa → S × ℤ → Outcome (S × ℤ)
  visit pa (s, rc) =
      let (s', pret) = process pa s in elim pret [ pos n ↦ ok (s', rc +ℤ pos n) | negsuc n ↦ abort ]

  -- The loop of ca_foreach_raw_pa.
  unfoldable pub foreach : List Pa → S × ℤ → Outcome (S × ℤ)
  unfolding visit
  foreach [] acc = ok acc
  foreach (pa ∷ pas) acc = do acc' ← visit pa acc; foreach pas acc'

  -- The loops of ca_foreach_cooked_pa, on the actions for which `pa_is_read` is `reads`.
  unfoldable pub foreach_if : Bool → List Pa → S × ℤ → Outcome (S × ℤ)
  unfolding visit
  foreach_if reads [] acc = ok acc
  foreach_if reads (pa ∷ pas) acc =
      (if (if reads then pa_is_read pa else not (pa_is_read pa)) then visit pa acc else ok acc)
      >>= λ acc'. foreach_if reads pas acc'

  -- `ca_foreach_raw_pa`
  unfoldable pub ca_foreach_raw_pa : List Pa → S → Outcome (S × ℤ)
  unfolding foreach
  ca_foreach_raw_pa pas s = foreach pas (s, pos 0)

  -- `ca_foreach_cooked_pa`, on a dictionary of cooked actions that there is.
  unfoldable pub ca_foreach_cooked_pa : List Pa → S → Outcome (S × ℤ)
  unfolding foreach_if
  ca_foreach_cooked_pa pas s = do acc ← foreach_if true pas (s, pos 0); foreach_if false pas acc

-- The actions that are reads, or those that are not, in their order.
unfoldable pub only : Bool → List Pa → List Pa
only reads [] = []
only reads (pa ∷ pas) =
    let rest = only reads pas in
    if (if reads then pa_is_read pa else not (pa_is_read pa)) then pa ∷ rest else rest

module _ {S : Type 0} (process : Pa → S → S × ℤ) where
  -- The callback on every action in turn: the state that the last one leaves, and all return codes.
  abbrev pub run_all : List Pa → S → S × List ℤ
  run_all [] s = (s, [])
  run_all (pa ∷ pas) s =
      let (s', pret) = process pa s in let (end_, prets) = run_all pas s' in (end_, pret ∷ prets)

  -- The sum of return codes, of which none may be negative.
  abbrev pub sum_codes : List ℤ → Outcome ℕ
  sum_codes [] = ok 0
  sum_codes (pos n ∷ prets) = do m ← sum_codes prets; ok (n + m)
  sum_codes (negsuc n ∷ prets) = abort

  -- The loops make every call, unless they stop at a negative code.
  abbrev of_sum : S → ℕ → Outcome (S × ℤ)
  of_sum s n = ok (s, pos n)

  abbrev summed : ℕ → S × List ℤ → Outcome (S × ℤ)
  summed rc r = sum_codes r.1 >>= λ m. of_sum r.0 (rc + m)
