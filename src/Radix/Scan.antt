-- ===== src/Radix/Scan.antt =====
-- strtoul and strtoll of the C library, as the program calls them (the end pointer is NULL).
use audited_objects.Prelude.{
  ℕ, ◌+◌, ◌-◌, ◌*◌, ◌%◌, ◌^◌, Bool, true, false, ◌&&◌, [], ◌∷◌, ltb, leb, ◌==◌, if◌then◌else◌,
  Bytes, is_space,
}
use audited_objects.Prelude.Int.{ℤ, pos, negsuc}

-- The value of a digit, whatever the radix.
unfoldable pub digit_val : ℕ → ℕ
digit_val c =
    if leb b'0' c && leb c b'9'
    then c - b'0'
    else if leb b'a' c && leb c b'z'
    then c - b'a' + 10
    else if leb b'A' c && leb c b'Z'
    then c - b'A' + 10
    else 99

-- The digits from here on, in front of which `acc` was read.
unfoldable pub scan : ℕ → ℕ → Bytes → ℕ
scan radix acc [] = acc
scan radix acc (c ∷ s) =
    let more = scan radix (acc * radix + digit_val c) s in
    if ltb (digit_val c) radix then more else acc

unfoldable pub skip_space : Bytes → Bytes
skip_space [] = []
skip_space (c ∷ s) = if is_space c then skip_space s else c ∷ s

-- An optional sign: is it a minus, and what follows.
unfoldable pub sign : Bytes → Bool × Bytes
sign [] = (false, [])
sign (c ∷ s) = if c == b'-' then (true, s) else if c == b'+' then (false, s) else (false, c ∷ s)

-- `strtoul(s, NULL, radix)`: out of range gives ULONG_MAX, and a minus negates modulo 2^64.
unfoldable pub strtoul : ℕ → Bytes → ℕ
unfolding scan skip_space sign digit_val is_space
strtoul radix s =
    let (minus, t) = sign (skip_space s) in
    let m = scan radix 0 t in
    if leb (2 ^ 64) m then 2 ^ 64 - 1 else if minus then (2 ^ 64 - m) % 2 ^ 64 else m

-- `strtoll(s, NULL, radix)`, and `strtol`, since a long has 64 bits: out of range gives the bound.
unfoldable pub strtoll : ℕ → Bytes → ℤ
unfolding scan skip_space sign digit_val is_space
strtoll radix s =
    let (minus, t) = sign (skip_space s) in
    let m = scan radix 0 t in
    if minus
    then (if m == 0 then pos 0 else if leb m (2 ^ 63) then negsuc (m - 1) else negsuc (2 ^ 63 - 1))
    else (if ltb m (2 ^ 63) then pos m else pos (2 ^ 63 - 1))
