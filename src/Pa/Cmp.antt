-- ===== src/Pa/Cmp.antt =====
-- pa_cmp, by which the actions of an audit group are kept in order.
use audited_objects.Prelude.{ℕ, Bool, [], ◌∷◌, ltb, ◌==◌, if◌then◌else◌, Bytes, Outcome, ok, ◌>>=◌}
use audited_objects.Prelude.Int.{ℤ, pos, negsuc}
use audited_objects.Moment.{moment_cmp}
use audited_objects.Ps.Diff.{eq_ℤ}
use audited_objects.Pa.{Pa, pa_get_rel, pa_is_read, pa_is_unlink}

-- `util_pathcmp`, on Unix: strcmp, of whose result only the sign counts.
unfoldable pub pathcmp : Bytes → Bytes → ℤ
pathcmp [] [] = pos 0
pathcmp [] (y ∷ b) = negsuc 0
pathcmp (x ∷ a) [] = pos 1
pathcmp (x ∷ a) (y ∷ b) =
    let rest = pathcmp a b in if ltb x y then negsuc 0 else if ltb y x then pos 1 else rest

-- The branch for two operations that are not reads: `rc` is what moment_cmp returns.
unfoldable pub write_order : ℤ → Bool → Bool → ℤ
unfolding eq_ℤ
write_order rc unlink1 unlink2 =
    if eq_ℤ rc (pos 0) then (if unlink1 then pos 1 else if unlink2 then negsuc 0 else rc) else rc

-- "As a last resort, compare the pointers."
unfoldable pub last_resort : ℕ → ℕ → ℤ → ℤ
unfolding eq_ℤ
last_resort p1 p2 rc = if eq_ℤ rc (pos 0) then (if ltb p2 p1 then pos 1 else negsuc 0) else rc

unfoldable pub pa_order : ℕ → Pa → Pa → Outcome ℤ
unfolding write_order pathcmp
pa_order roundoff pa1 pa2 =
    if pa_is_read pa1
    then (if pa_is_read pa2
        then (pa_get_rel pa1 >>= λ rel1. pa_get_rel pa2 >>= λ rel2. ok (pathcmp rel1 rel2))
        else ok (pos 1))
    else if pa_is_read pa2
    then ok (negsuc 0)
    else ok (
        write_order (moment_cmp roundoff pa1.pa_timestamp pa2.pa_timestamp) (pa_is_unlink pa1)
          (pa_is_unlink pa2))

-- `pa_cmp`, on two objects and their addresses.
unfoldable pub pa_cmp : ℕ → ℕ → Pa → ℕ → Pa → Outcome ℤ
unfolding pa_order last_resort
pa_cmp roundoff p1 pa1 p2 pa2 =
    if p1 == p2 then ok (pos 0) else (pa_order roundoff pa1 pa2 >>= λ rc. ok (last_resort p1 p2 rc))
