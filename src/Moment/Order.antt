-- ===== src/Moment/Order.antt =====
-- moment_cmp and moment_duration on moments of the epoch.
use audited_objects.Prelude.{
  ℕ, suc, ◌+◌, ◌-◌, ◌*◌, ◌/◌, ◌^◌, ◌≤◌, ◌<◌, ◌≡◌, ◌≢◌, ◌∙◌, ltb, ◌==◌, if◌then◌else◌, arith,
}
use native.Mathlib.Nat.{mod-eq_of_lt, div-mul-le_self}
use native.Mathlib.Decide.{dec_lt}
use audited_objects.Prelude.Int.{ℤ, pos, negsuc, *ℤ_pos, +ℤ_pos}
use audited_objects.Prelude.Word.{to_u64, to_i64, quot, rem}
use audited_objects.Moment.{
  Moment, nanos, minus64, sign_of, moment_cmp, moment_delta, moment_duration, nanos_per_second,
  nanos_per_milli,
}

-- A moment of the epoch whose nanoseconds since then fit an int64_t: until the year 2262.
pub record IsRecent (m : Moment) : Type 0 where
  pub sec : ℕ
  pub nsec : ℕ
  pub is_sec : m.ntv_sec ≡ pos sec
  pub is_nsec : m.ntv_nsec ≡ pos nsec
  pub fits : sec * 1000000000 + nsec < 2 ^ 63

-- The nanoseconds since the epoch.
abbrev pub since_epoch : {m : Moment} → IsRecent m → ℕ
since_epoch v = v.sec * 1000000000 + v.nsec

nanos-since_epoch : {m : Moment} (v : IsRecent m) → nanos m ≡ since_epoch v
unfolding nanos to_u64
nanos-since_epoch v =
    rw (v.is_sec, v.is_nsec)
      (rw (*ℤ_pos v.sec nanos_per_second) (rw +ℤ_pos (mod-eq_of_lt (omega (arith, v.fits)))))

minus64_ge : (l r : ℕ) → l < 2 ^ 63 → r ≤ l → minus64 l r ≡ pos (l - r)
unfolding minus64 to_i64
minus64_ge l r h k = ground arith

minus64_lt : (l r : ℕ) → r < 2 ^ 63 → l < r → minus64 l r ≡ negsuc (r - l - 1)
unfolding minus64 to_i64
minus64_lt l r h k = ground arith

-- The sign of `l - r`.
unfoldable pub compare_ℤ : ℕ → ℕ → ℤ
compare_ℤ l r = if ltb l r then negsuc 0 else if l == r then pos 0 else pos 1

sign_of-minus64 :
    (l r : ℕ) → l < 2 ^ 63 → r < 2 ^ 63 → l ≢ r + 1 → sign_of (minus64 l r) ≡ compare_ℤ l r
unfolding compare_ℤ sign_of
sign_of-minus64 l r h k apart = elim (dec_lt l r) [
  | yes below ↦ rw (minus64_lt l r k below) (ground arith)
  | no above ↦ rw (minus64_ge l r h (omega arith)) (ground arith)
]

-- Multiples of the roundoff compare as their quotients do, and are never apart by one.
multiples_apart : (roundoff a b : ℕ) → 1 < roundoff → a < b → a * roundoff + 1 < b * roundoff
multiples_apart roundoff a b coarse below =
    let step : suc a * roundoff ≤ b * roundoff = grind arith in omega (arith, step)

compare_ℤ_multiples :
    (roundoff a b : ℕ)
    → 1 < roundoff
    → (a * roundoff ≢ b * roundoff + 1) × (compare_ℤ (a * roundoff) (b * roundoff) ≡ compare_ℤ a b)
unfolding compare_ℤ
compare_ℤ_multiples roundoff a b coarse = elim (dec_lt a b) [
  | yes below ↦ ground (arith, multiples_apart roundoff a b coarse below)
  | no above ↦ elim (dec_lt b a) [
    | yes over ↦ ground (arith, multiples_apart roundoff b a coarse over)
    | no not_over ↦ let e : a ≡ b = omega arith in rw e (ground arith)
  ]
]

-- At a precision below nanoseconds, moment_cmp is the order of the two times in whole units of the
-- roundoff: 1, 0 or -1.
pub moment_cmp_lem :
    (roundoff : ℕ) {left right : Moment} (v : IsRecent left) (w : IsRecent right)
    → 1 < roundoff
    → moment_cmp roundoff left right
      ≡ compare_ℤ (since_epoch v / roundoff) (since_epoch w / roundoff)
unfolding moment_cmp
moment_cmp_lem roundoff v w coarse =
    let l = since_epoch v / roundoff in
    let r = since_epoch w / roundoff in
    let (apart, same) = compare_ℤ_multiples roundoff l r coarse in
    let small : l * roundoff < 2 ^ 63 =
      omega (arith, div-mul-le_self (since_epoch v) roundoff, v.fits) in
    let small' : r * roundoff < 2 ^ 63 =
      omega (arith, div-mul-le_self (since_epoch w) roundoff, w.fits) in
    rw (nanos-since_epoch v) (
      rw (nanos-since_epoch w)
        (sign_of-minus64 (l * roundoff) (r * roundoff) small small' apart ∙ same))

-- With a roundoff of one nanosecond, a moment that is later by one nanosecond is reported as
-- earlier, whichever of the two comes first.
pub moment_cmp_next_nano :
    {left right : Moment} (v : IsRecent left) (w : IsRecent right)
    → since_epoch v ≡ since_epoch w + 1
    → (moment_cmp 1 left right ≡ negsuc 0) × (moment_cmp 1 right left ≡ negsuc 0)
unfolding moment_cmp
moment_cmp_next_nano v w next =
    let one : since_epoch v / 1 * 1 ≡ since_epoch v = omega arith in
    let one' : since_epoch w / 1 * 1 ≡ since_epoch w = omega arith in
    let after = minus64_ge (since_epoch v) (since_epoch w) v.fits (omega arith) in
    let before = minus64_lt (since_epoch w) (since_epoch v) v.fits (omega arith) in
    rw (nanos-since_epoch v) (
      rw (nanos-since_epoch w)
        (rw (one, one') (rw (after, before) (unfold sign_of in ground arith))))

-- moment_duration of an event is its length in whole milliseconds, whatever the roundoff.
pub moment_duration_lem :
    {ended started : Moment} (v : IsRecent ended) (w : IsRecent started)
    → since_epoch w ≤ since_epoch v
    → moment_duration ended started ≡ (since_epoch v - since_epoch w) / nanos_per_milli
unfolding moment_duration moment_delta
moment_duration_lem v w later = rw (nanos-since_epoch v) (
    rw (nanos-since_epoch w) (
      rw (minus64_ge (since_epoch v) (since_epoch w) v.fits later)
        (unfold quot rem to_u64 in omega (arith, v.fits))))
