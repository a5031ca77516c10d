-- ===== src/Pa/Order.antt =====
-- The order that pa_cmp keeps.
use audited_objects.Prelude.{
  ℕ, suc, ◌/◌, ◌<◌, ◌≡◌, ◌≢◌, ◌↔◌, refl, sym, ◌∙◌, ap, Bool, true, false, ◌&&◌, [], ◌∷◌, ltb, ◌==◌,
  if◌then◌else◌, Bytes, ok, arith, Bool-cases, inl, inr,
}
use audited_objects.Prelude.Int.{ℤ, pos, negsuc}
use audited_objects.Prelude.Word.{neg}
use audited_objects.Moment.{Moment, moment_cmp}
use audited_objects.Moment.Order.{
  moment_cmp_lem, IsRecent, since_epoch, IsRecent, since_epoch, compare_ℤ, moment_cmp_lem,
}
use audited_objects.Ps.Diff.{eq_ℤ}
use audited_objects.Pa.Cmp.{pathcmp, write_order, last_resort, pa_order, pa_cmp}
use audited_objects.Pa.{Pa, pa_get_rel, pa_is_read, pa_is_unlink}

-- The opposite of a number.
unfoldable pub opposite : ℤ → ℤ
unfolding neg
opposite (pos n) = neg n
opposite (negsuc n) = pos (suc n)

pathcmp-opposite : (a b : Bytes) → pathcmp b a ≡ opposite (pathcmp a b)
unfolding pathcmp opposite
pathcmp-opposite [] [] = refl
pathcmp-opposite [] (y ∷ b) = refl
pathcmp-opposite (x ∷ a) [] = refl
pathcmp-opposite (x ∷ a) (y ∷ b) = ground (arith, pathcmp-opposite a b)

compare_ℤ-opposite : (l r : ℕ) → compare_ℤ r l ≡ opposite (compare_ℤ l r)
unfolding compare_ℤ opposite
compare_ℤ-opposite l r = ground arith

opposite_zero : (rc : ℤ) → eq_ℤ (opposite rc) (pos 0) ≡ eq_ℤ rc (pos 0)
unfolding eq_ℤ opposite neg
opposite_zero (pos n) = ground arith
opposite_zero (negsuc n) = ground arith

last_resort-opposite :
    (p1 p2 : ℕ) (rc : ℤ)
    → p1 ≢ p2
    → last_resort p2 p1 (opposite rc) ≡ opposite (last_resort p1 p2 rc)
unfolding last_resort
last_resort-opposite p1 p2 rc ne = rw (opposite_zero rc) (pick (eq_ℤ rc (pos 0)))
  where
    pick :
        (z : Bool)
        → (if z then (if ltb p1 p2 then pos 1 else negsuc 0) else opposite rc)
          ≡ opposite (if z then (if ltb p2 p1 then pos 1 else negsuc 0) else rc)
    pick true = unfold opposite neg in ground (arith, ne)
    pick false = refl

write_order-opposite :
    (rc : ℤ) (u1 u2 : Bool)
    → u1 && u2 ≡ false
    → write_order (opposite rc) u2 u1 ≡ opposite (write_order rc u1 u2)
unfolding write_order
write_order-opposite rc u1 u2 h = rw (opposite_zero rc) (pick (eq_ℤ rc (pos 0)) u1 u2 h)
  where
    pick :
        (z u1 u2 : Bool)
        → u1 && u2 ≡ false
        → (if z then (if u2 then pos 1 else if u1 then negsuc 0 else opposite rc) else opposite rc)
          ≡ opposite (if z then (if u1 then pos 1 else if u2 then negsuc 0 else rc) else rc)
    pick false u1 u2 h = refl
    pick true true true h = ground (arith, h)
    pick true true false h = unfold opposite neg in refl
    pick true false true h = unfold opposite neg in refl
    pick true false false h = refl

-- The order of two different objects.
pa_cmp_other :
    (roundoff p1 p2 : ℕ) (pa1 pa2 : Pa) (rc : ℤ)
    → p1 ≢ p2
    → pa_order roundoff pa1 pa2 ≡ ok rc
    → pa_cmp roundoff p1 pa1 p2 pa2 ≡ ok (last_resort p1 p2 rc)
unfolding pa_cmp
pa_cmp_other roundoff p1 p2 pa1 pa2 rc ne e =
    let other : (p1 == p2) ≡ false = ground (arith, ne) in rw (other) (rw e)

-- The name of a read is compared, so it must have one.
abbrev pub IsNamed : Pa → Type 0
IsNamed pa = (rel : Bytes) × (pa_get_rel pa ≡ ok rel)

pa_order_reads :
    (roundoff : ℕ) (pa1 pa2 : Pa) (rel1 rel2 : Bytes)
    → pa_get_rel pa1 ≡ ok rel1
    → pa_get_rel pa2 ≡ ok rel2
    → pa_order roundoff pa1 pa2
      ≡ ok (
          if pa_is_read pa1
          then (if pa_is_read pa2 then pathcmp rel1 rel2 else pos 1)
          else if pa_is_read pa2
          then negsuc 0
          else write_order
              (moment_cmp roundoff pa1.pa_timestamp pa2.pa_timestamp)
              (pa_is_unlink pa1)
              (pa_is_unlink pa2))
unfolding pa_order
pa_order_reads roundoff pa1 pa2 rel1 rel2 e1 e2 =
    rw (e1) (rw e2 (pick (pa_is_read pa1) (pa_is_read pa2) _ _ _ _))
  where
    pick :
        (r1 r2 : Bool) (a b c d : ℤ)
        → (if r1 then (if r2 then ok a else ok b) else if r2 then ok c else ok d)
          ≡ ok (if r1 then (if r2 then a else b) else if r2 then c else d)
    pick true true a b c d = refl
    pick true false a b c d = refl
    pick false true a b c d = refl
    pick false false a b c d = refl

last_resort_ne : (p1 p2 : ℕ) (rc : ℤ) → last_resort p1 p2 rc ≢ pos 0
unfolding last_resort eq_ℤ
last_resort_ne p1 p2 (pos n) = ground arith
last_resort_ne p1 p2 (negsuc n) = ground arith

ok_inj : {x y : ℤ} → ok x ≡ ok y → x ≡ y
ok_inj e = cc e

-- Of two actions on named files pa_cmp returns 0 exactly if they are the same object: no two of an
-- audit group collide.
pub pa_cmp_zero :
    (roundoff p1 p2 : ℕ) (pa1 pa2 : Pa)
    → IsNamed pa1
    → IsNamed pa2
    → (pa_cmp roundoff p1 pa1 p2 pa2 ≡ ok (pos 0)) ↔ (p1 ≡ p2)
pa_cmp_zero roundoff p1 p2 pa1 pa2 (rel1, e1) (rel2, e2) = (
  λ zero. elim (Bool-cases (p1 == p2)) [
    | inl same ↦ ground (arith, same)
    | inr other ↦
        let ne : p1 ≢ p2 = ground (arith, other) in
        absurd (
          last_resort_ne p1 p2 _ (
            ok_inj (
              sym (
                pa_cmp_other roundoff p1 p2 pa1 pa2 _ ne
                  (pa_order_reads roundoff pa1 pa2 rel1 rel2 e1 e2))
              ∙ zero)))
  ],
  λ same. unfold pa_cmp in ground (arith, same),
)

-- The value that pa_order returns for named actions.
unfoldable order_value : Bool → Bool → ℤ → ℤ → ℤ
order_value true true by_path by_time = by_path
order_value true false by_path by_time = pos 1
order_value false true by_path by_time = negsuc 0
order_value false false by_path by_time = by_time

order_value-opposite :
    (r1 r2 : Bool) (path time path' time' : ℤ)
    → path' ≡ opposite path
    → (r1 ≡ false → r2 ≡ false → time' ≡ opposite time)
    → order_value r2 r1 path' time' ≡ opposite (order_value r1 r2 path time)
unfolding order_value
order_value-opposite true true path time path' time' e f = e
order_value-opposite true false path time path' time' e f = unfold opposite neg in refl
order_value-opposite false true path time path' time' e f = unfold opposite in refl
order_value-opposite false false path time path' time' e f = f refl refl

by_value :
    (r1 r2 : Bool) (path time : ℤ)
    → (if r1 then (if r2 then path else pos 1) else if r2 then negsuc 0 else time)
      ≡ order_value r1 r2 path time
unfolding order_value
by_value true true path time = refl
by_value true false path time = refl
by_value false true path time = refl
by_value false false path time = refl

-- pa_cmp of two different named objects.
pa_cmp_value :
    (roundoff p1 p2 : ℕ) (pa1 pa2 : Pa) (n1 : IsNamed pa1) (n2 : IsNamed pa2)
    → p1 ≢ p2
    → pa_cmp roundoff p1 pa1 p2 pa2
      ≡ ok (
          last_resort p1 p2 (
            order_value (pa_is_read pa1) (pa_is_read pa2) (pathcmp (n1.0) (n2.0)) (
              write_order
                (moment_cmp roundoff pa1.pa_timestamp pa2.pa_timestamp)
                (pa_is_unlink pa1)
                (pa_is_unlink pa2))))
pa_cmp_value roundoff p1 p2 pa1 pa2 (rel1, e1) (rel2, e2) ne =
    pa_cmp_other roundoff p1 p2 pa1 pa2 _ ne (
      pa_order_reads roundoff pa1 pa2 rel1 rel2 e1 e2
      ∙ ap ok (by_value (pa_is_read pa1) (pa_is_read pa2) _ _))

moment_cmp-opposite :
    (roundoff : ℕ) {left right : Moment} (v : IsRecent left) (w : IsRecent right)
    → 1 < roundoff
    → moment_cmp roundoff right left ≡ opposite (moment_cmp roundoff left right)
moment_cmp-opposite roundoff v w coarse = rw (moment_cmp_lem roundoff v w coarse) (
    moment_cmp_lem roundoff w v coarse
    ∙ compare_ℤ-opposite (since_epoch v / roundoff) (since_epoch w / roundoff))

-- pa_cmp is antisymmetric: of two different actions on named files, with timestamps and a roundoff
-- of more than a nanosecond, one comes first whichever is asked first, unless both are removals.
pub pa_cmp-opposite :
    (roundoff p1 p2 : ℕ) (pa1 pa2 : Pa)
    → IsNamed pa1
    → IsNamed pa2
    → IsRecent pa1.pa_timestamp
    → IsRecent pa2.pa_timestamp
    → 1 < roundoff
    → p1 ≢ p2
    → pa_is_unlink pa1 && pa_is_unlink pa2 ≡ false
    → (rc : ℤ) × (pa_cmp roundoff p1 pa1 p2 pa2 ≡ ok rc)
      × (pa_cmp roundoff p2 pa2 p1 pa1 ≡ ok (opposite rc))
pa_cmp-opposite roundoff p1 p2 pa1 pa2 n1 n2 v w coarse ne one =
    let u1 = pa_is_unlink pa1 in
    let u2 = pa_is_unlink pa2 in
    let time = write_order (moment_cmp roundoff pa1.pa_timestamp pa2.pa_timestamp) u1 u2 in
    let time' = write_order (moment_cmp roundoff pa2.pa_timestamp pa1.pa_timestamp) u2 u1 in
    let swap : time' ≡ opposite time =
      ap (λ c. write_order c u2 u1) (moment_cmp-opposite roundoff v w coarse)
      ∙ write_order-opposite (moment_cmp roundoff pa1.pa_timestamp pa2.pa_timestamp) u1 u2 one in
    let value = order_value (pa_is_read pa1) (pa_is_read pa2) (pathcmp (n1.0) (n2.0)) time in
    let flip =
      order_value-opposite (pa_is_read pa1) (pa_is_read pa2) (pathcmp (n1.0) (n2.0)) time _ time'
        (pathcmp-opposite (n1.0) (n2.0)) (λ a b. swap) in
    (
      last_resort p1 p2 value,
      pa_cmp_value roundoff p1 p2 pa1 pa2 n1 n2 ne,
      pa_cmp_value roundoff p2 p1 pa2 pa1 n2 n1 (λ e. ne (sym e))
          ∙ ap ok (ap (last_resort p2 p1) flip ∙ last_resort-opposite p1 p2 value ne),
    )

not_read : (pa : Pa) → pa_is_unlink pa ≡ true → pa_is_read pa ≡ false
unfolding pa_is_unlink pa_is_read
not_read pa h = ground (arith, h)

-- Two different actions on named files that are not reads are in the order of their timestamps, in
-- whole units of the roundoff, where these differ. The roundoff is more than a nanosecond; the
-- timestamps are not negative, and their nanoseconds since the epoch are below 2^63.
pub pa_cmp_writes :
    (roundoff p1 p2 : ℕ) (pa1 pa2 : Pa)
    → (n1 : IsNamed pa1) (n2 : IsNamed pa2)
    → (v : IsRecent pa1.pa_timestamp) (w : IsRecent pa2.pa_timestamp) → 1 < roundoff
    → p1 ≢ p2
    → pa_is_read pa1 ≡ false
    → pa_is_read pa2 ≡ false
    → since_epoch v / roundoff ≢ since_epoch w / roundoff
    → pa_cmp roundoff p1 pa1 p2 pa2
      ≡ ok (compare_ℤ (since_epoch v / roundoff) (since_epoch w / roundoff))
pa_cmp_writes roundoff p1 p2 pa1 pa2 n1 n2 v w coarse ne r1 r2 apart =
    pa_cmp_value roundoff p1 p2 pa1 pa2 n1 n2 ne
    ∙ ap ok (
        rw (r1, r2)
          (unfold order_value in
            rw (moment_cmp_lem roundoff v w coarse) (
              decided p1 p2 (since_epoch v / roundoff) (since_epoch w / roundoff) (pa_is_unlink pa1)
                (pa_is_unlink pa2) apart)))
  where
    decided :
        (p1 p2 l r : ℕ) (u1 u2 : Bool)
        → l ≢ r
        → last_resort p1 p2 (write_order (compare_ℤ l r) u1 u2) ≡ compare_ℤ l r
    decided p1 p2 l r u1 u2 ne = unfold last_resort write_order eq_ℤ compare_ℤ in ground (arith, ne)

-- A read counts as greater than any other operation, so that reads come last.
pub pa_cmp_read_last :
    (roundoff p1 p2 : ℕ) (pa1 pa2 : Pa)
    → IsNamed pa1
    → IsNamed pa2
    → p1 ≢ p2
    → pa_is_read pa1 ≡ true
    → pa_is_read pa2 ≡ false
    → (pa_cmp roundoff p1 pa1 p2 pa2 ≡ ok (pos 1)) × (pa_cmp roundoff p2 pa2 p1 pa1 ≡ ok (negsuc 0))
pa_cmp_read_last roundoff p1 p2 pa1 pa2 n1 n2 ne r1 r2 = (
  pa_cmp_value roundoff p1 p2 pa1 pa2 n1 n2 ne
      ∙ ap ok (rw (r1, r2) (unfold order_value last_resort eq_ℤ in refl)),
  pa_cmp_value roundoff p2 p1 pa2 pa1 n2 n1 (λ e. ne (sym e))
      ∙ ap ok (rw (r1, r2) (unfold order_value last_resort eq_ℤ in refl)),
)

-- A removal counts as greater than another operation that is not a read at the same time, in whole
-- units of the roundoff; so of two removals each counts as greater than the other.
pub pa_cmp_unlink :
    (roundoff p1 p2 : ℕ) (pa1 pa2 : Pa)
    → IsNamed pa1
    → IsNamed pa2
    → (v : IsRecent pa1.pa_timestamp) (w : IsRecent pa2.pa_timestamp) → 1 < roundoff
    → p1 ≢ p2
    → pa_is_unlink pa1 ≡ true
    → pa_is_read pa2 ≡ false
    → since_epoch v / roundoff ≡ since_epoch w / roundoff
    → pa_cmp roundoff p1 pa1 p2 pa2 ≡ ok (pos 1)
pa_cmp_unlink roundoff p1 p2 pa1 pa2 n1 n2 v w coarse ne u1 r2 same =
    pa_cmp_value roundoff p1 p2 pa1 pa2 n1 n2 ne
    ∙ ap ok (
        rw (not_read pa1 u1, r2, u1)
          (unfold order_value in
            rw (moment_cmp_lem roundoff v w coarse)
              (rw same (unfold last_resort write_order eq_ℤ compare_ℤ in ground arith))))
