-- ===== src/Moment.antt =====
-- src/moment.c: points in time, in seconds and nanoseconds.
pub mod Order
pub mod RoundTrip
mod Tests
use audited_objects.Prelude.{
  ℕ, ◌+◌, ◌-◌, ◌*◌, ◌/◌, ◌%◌, ◌^◌, Bool, true, false, ◌&&◌, Option, none, some, List, [], ◌∷◌, ◌++◌,
  ltb, leb, ◌==◌, if◌then◌else◌, Bytes, take, length, Outcome, ok, null, abort, ◌>>=◌,
}
use audited_objects.Prelude.Int.{ℤ, pos, negsuc, ◌+ℤ◌, ◌*ℤ◌, ltb_ℤ}
use audited_objects.Prelude.Word.{to_u64, to_i64, quot, rem}
use audited_objects.Radix.{format_to_radix}
use audited_objects.Radix.Scan.{strtoll}

-- `moment_s`
pub record Moment : Type 0 where
  pub ntv_sec : ℤ
  pub ntv_nsec : ℤ

-- MILLIS_PER_SECOND, NANOS_PER_MILLI, NANOS_PER_SECOND, MOMENT_BUFMAX and CSV_RADIX
abbrev pub millis_per_second : ℕ
millis_per_second = 1000

abbrev pub nanos_per_milli : ℕ
nanos_per_milli = 1000000

abbrev pub nanos_per_second : ℕ
nanos_per_second = 1000000000

abbrev pub moment_bufmax : ℕ
moment_bufmax = 32

abbrev pub csv_radix : ℕ
csv_radix = 36

unfoldable pub moment_is_set : Moment → Bool
unfolding quot ◌+ℤ◌
moment_is_set m = ltb_ℤ (pos 0) (m.ntv_sec +ℤ quot m.ntv_nsec nanos_per_second)

-- `left.ntv_sec * NANOS_PER_SECOND + left.ntv_nsec`, as a uint64_t
unfoldable pub nanos : Moment → ℕ
nanos m = to_u64 (m.ntv_sec *ℤ pos nanos_per_second +ℤ m.ntv_nsec)

-- `d = l - r` of uint64_t, read as an int64_t
unfoldable pub minus64 : ℕ → ℕ → ℤ
minus64 l r = to_i64 ((l + 2 ^ 64 - r) % 2 ^ 64)

-- The roundoff in nanoseconds at a precision of that many decimals: `(long)pow(10, 9 - precision)`.
abbrev pub roundoff_of : ℕ → ℕ
roundoff_of precision = if leb precision 9 then 10 ^ (9 - precision) else 0

-- The delta of `moment_cmp`, which is taken before any roundoff.
unfoldable pub moment_delta : Moment → Moment → Moment
moment_delta left right =
    let d = minus64 (nanos left) (nanos right) in
    record { ntv_sec = quot d nanos_per_second; ntv_nsec = rem d nanos_per_second }

-- The last tests of `moment_cmp`: `d == 0`, `d > 1` and the rest.
unfoldable pub sign_of : ℤ → ℤ
sign_of (pos n) = if n == 0 then pos 0 else if ltb 1 n then pos 1 else negsuc 0
sign_of (negsuc n) = negsuc 0

-- What `moment_cmp` returns; `roundoff` is its static variable, which is not 0.
unfoldable pub moment_cmp : ℕ → Moment → Moment → ℤ
moment_cmp roundoff left right =
    let l = nanos left / roundoff * roundoff in
    let r = nanos right / roundoff * roundoff in sign_of (minus64 l r)

-- `moment_duration`, in milliseconds
unfoldable pub moment_duration : Moment → Moment → ℕ
moment_duration ended started =
    let delta = moment_delta ended started in
    (to_u64 delta.ntv_sec * millis_per_second + to_u64 (quot delta.ntv_nsec nanos_per_milli))
    % 2 ^ 64

-- `strchr(s, c)`, and the string cut there.
unfoldable pub cut_at : ℕ → Bytes → Option (Bytes × Bytes)
cut_at c [] = none
cut_at c (x ∷ s) =
    let more = cut_at c s in
    if x == c then some ([], s) else elim more [ none ↦ none | some (a, b) ↦ some (x ∷ a, b) ]

-- `moment_parse`: the return code and the moment. The copy into `mbuf` overruns it if the text is
-- too long.
unfoldable pub moment_parse : Bytes → Outcome (ℕ × Moment)
unfolding cut_at
moment_parse str = if leb moment_bufmax (length str) then abort else (elim (cut_at b'.' str) [
  | none ↦ ok (1, record { ntv_sec = pos 0; ntv_nsec = pos 0 })
  | some (sec, nsec) ↦
      ok (0, record { ntv_sec = strtoll csv_radix sec; ntv_nsec = strtoll csv_radix nsec })
])

-- util_format_to_radix into a buffer of that many bytes; a failed assertion ends the process.
unfoldable pub format_csv : ℕ → ℤ → Outcome Bytes
format_csv len val = elim (format_to_radix csv_radix len (to_u64 val)) [
  | none ↦ abort
  | some text ↦ ok text
]

-- `moment_format`, into a buffer of `bufmax` bytes
unfoldable pub moment_format : Moment → ℕ → Outcome Bytes
unfolding format_csv
moment_format m bufmax = do
  secbuf ← format_csv moment_bufmax m.ntv_sec
  nsecbuf ← format_csv moment_bufmax m.ntv_nsec
  ok (take (bufmax - 1) (secbuf ++ (b'.' ∷ nsecbuf)))
