-- ===== src/Encode.antt =====
-- util_encode_minimal and util_unescape of src/util.c.
pub mod RoundTrip
mod Tests
use audited_objects.Prelude.{
  ℕ, ◌+◌, ◌-◌, ◌*◌, ◌/◌, ◌%◌, Bool, true, false, ◌&&◌, ◌||◌, List, [], ◌∷◌, ltb, ◌==◌,
  if◌then◌else◌, Bytes, codes, get_or, length,
}
use audited_objects.Radix.Scan.{digit_val}

-- "%02X" of a byte
abbrev pub hex_upper : ℕ → ℕ
hex_upper d = get_or (codes "0123456789ABCDEF") d 0

unfoldable pub is_special : ℕ → Bool
is_special c = c == b'%' || c == b',' || c == b'\n'

unfoldable pub encode_minimal : Bytes → Bytes
unfolding is_special
encode_minimal [] = []
encode_minimal (c ∷ s) =
    let rest = encode_minimal s in
    if is_special c then b'%' ∷ hex_upper (c / 16) ∷ hex_upper (c % 16) ∷ rest else c ∷ rest

-- ISXDIGIT
unfoldable pub is_xdigit : ℕ → Bool
unfolding digit_val
is_xdigit c = ltb (digit_val c) 16

-- The loop, with `left` the value of `alloc` after its decrement: it stops at 0 or below.
unfoldable pub unescape_loop : ℕ → Bytes → Bytes
unfolding is_xdigit
unescape_loop left [] = []
unescape_loop left (c ∷ []) = if left == 0 then [] else c ∷ []
unescape_loop left (c ∷ a ∷ []) =
    let rest = unescape_loop (left - 1) (a ∷ []) in if left == 0 then [] else c ∷ rest
unescape_loop left (c ∷ a ∷ b ∷ s) =
    let plain = unescape_loop (left - 1) (a ∷ b ∷ s) in
    let after = unescape_loop (left - 3) s in
    if left == 0
    then []
    else if c == b'%' && (is_xdigit a && is_xdigit b)
    then (digit_val a * 16 + digit_val b) ∷ after
    else c ∷ plain

-- `util_unescape(string, length, NULL)`, for a `length` within the string; 0 stands for all of it.
unfoldable pub unescape : Bytes → ℕ → Bytes
unfolding unescape_loop
unescape s len = unescape_loop (if len == 0 then length s else len) s
