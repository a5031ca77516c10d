-- ===== src/Radix.antt =====
-- Numbers as text. `format_to_radix` is util_format_to_radix of src/util.c; the rest is what the
-- program uses of the C library: strtoul, strtoll and the "%lu" of printf, with 64-bit longs.
pub mod Scan
pub mod RoundTrip
mod Tests
use audited_objects.Prelude.{
  ℕ, zero, suc, ◌+◌, ◌-◌, ◌*◌, ◌/◌, ◌%◌, ◌^◌, Bool, true, false, ◌&&◌, Option, none, some, List, [],
  ◌∷◌, ltb, leb, ◌==◌, if◌then◌else◌, Bytes, codes, get_or, is_space,
}
use audited_objects.Prelude.Int.{ℤ, pos, negsuc}

-- CHRS
abbrev pub chrs : Bytes
chrs = codes "0123456789abcdefghijklmnopqrstuvwxyzABCDEFGHIJKLMNOPQRSTUVWXYZ"

-- The do-while loop, with `room` the bytes between the start of the buffer and `p`, and the text
-- written so far. With no room left the loop writes in front of the buffer: `none`.
unfoldable pub radix_loop : ℕ → ℕ → ℕ → Bytes → Option Bytes
radix_loop radix zero val out = none
radix_loop radix (suc room) val out =
    let out' = get_or chrs (val % radix) 0 ∷ out in
    let rest = radix_loop radix room (val / radix) out' in
    if val / radix == 0 then some out' else rest

-- `len` is the size of the buffer, whose last byte stays NUL. The first assertion is `radix < 63`,
-- and a radix of 0 divides by zero.
unfoldable pub format_to_radix : ℕ → ℕ → ℕ → Option Bytes
unfolding radix_loop
format_to_radix radix len val =
    if ltb 0 radix && ltb radix 63 then radix_loop radix (len - 1) val [] else none
