-- ===== src/Encode/RoundTrip.antt =====
-- Decoding undoes encoding, and an encoded text can be a CSV field.
use audited_objects.Prelude.{
  ℕ, suc, ◌/◌, ◌%◌, ◌+◌, ◌-◌, ◌*◌, ◌≤◌, ◌<◌, ◌≡◌, ◌≢◌, refl, ap, ◌∙◌, true, [], ◌∷◌, Bytes, length,
  All, arith, Bool-cases, inl, inr, ◌⊎◌, ◌&&◌,
}
use audited_objects.Radix.Scan.{digit_val}
use audited_objects.Encode.{
  is_special, hex_upper, encode_minimal, is_xdigit, unescape_loop, unescape,
}

unescape_loop_plain :
    (left c : ℕ) (s : Bytes)
    → 0 < left
    → c ≢ b'%'
    → unescape_loop left (c ∷ s) ≡ c ∷ unescape_loop (left - 1) s
unfolding unescape_loop
unescape_loop_plain left c [] pos h = ground arith
unescape_loop_plain left c (a ∷ []) pos h = ground arith
unescape_loop_plain left c (a ∷ b ∷ s) pos h = ground arith

is_special-cases : (c : ℕ) → is_special c ≡ true → (c ≡ b'%') ⊎ ((c ≡ b',') ⊎ (c ≡ b'\n'))
unfolding is_special
is_special-cases c h = ground arith

-- An escape is read back as the byte that it stands for.
unescape_loop_escape :
    (left c hi lo : ℕ) (s : Bytes)
    → 0 < left
    → is_xdigit hi && is_xdigit lo ≡ true
    → digit_val hi * 16 + digit_val lo ≡ c
    → unescape_loop left (b'%' ∷ hi ∷ lo ∷ s) ≡ c ∷ unescape_loop (left - 3) s
unfolding unescape_loop
unescape_loop_escape left c hi lo s pos x v = ground arith

-- The escape of a byte that needs one is two digits that stand for it.
escape_digits :
    (c : ℕ)
    → is_special c ≡ true
    → (is_xdigit (hex_upper (c / 16)) && is_xdigit (hex_upper (c % 16)) ≡ true)
      × (digit_val (hex_upper (c / 16)) * 16 + digit_val (hex_upper (c % 16)) ≡ c)
unfolding digit_val is_xdigit
escape_digits c h = elim (is_special-cases c h) [
  | inl e ↦ rw e (refl, refl)
  | inr (inl e) ↦ rw e (refl, refl)
  | inr (inr e) ↦ rw e (refl, refl)
]

unescape_loop-encode_minimal :
    (s : Bytes) (left : ℕ)
    → length (encode_minimal s) ≤ left
    → unescape_loop left (encode_minimal s) ≡ s
unfolding encode_minimal
unescape_loop-encode_minimal [] left h = unfold unescape_loop in refl
unescape_loop-encode_minimal (c ∷ s) left h = elim (Bool-cases (is_special c)) [
  | inl special ↦
      let fits : suc (suc (suc (length (encode_minimal s)))) ≤ left = ground (arith, h, special) in
      let (x, v) = escape_digits c special in
      rw special (
        unescape_loop_escape left c _ _ (encode_minimal s) (omega arith) x v
        ∙ ap (λ t. c ∷ t) (unescape_loop-encode_minimal s (left - 3) (omega arith)))
  | inr plain ↦
      let fits : suc (length (encode_minimal s)) ≤ left = ground (arith, h, plain) in
      let other : c ≢ b'%' = unfold is_special in ground arith in
      rw plain (
        unescape_loop_plain left c (encode_minimal s) (omega arith) other
        ∙ ap (λ t. c ∷ t) (unescape_loop-encode_minimal s (left - 1) (omega arith)))
]

-- util_unescape, on the whole of a text that util_encode_minimal wrote, gives back the string.
pub unescape-encode_minimal : (s : Bytes) → unescape (encode_minimal s) 0 ≡ s
unfolding unescape
unescape-encode_minimal s = unescape_loop-encode_minimal s (length (encode_minimal s)) (omega arith)

hex_upper-IsDigit :
    (c : ℕ) → is_special c ≡ true → (b'0' ≤ hex_upper (c / 16)) × (b'0' ≤ hex_upper (c % 16))
hex_upper-IsDigit c h = elim (is_special-cases c h) [
  | inl e ↦ rw e (omega arith, omega arith)
  | inr (inl e) ↦ rw e (omega arith, omega arith)
  | inr (inr e) ↦ rw e (omega arith, omega arith)
]

-- What util_encode_minimal writes holds no comma and no newline.
pub encode_minimal-Lacks : (s : Bytes) → All (λ c. (c ≢ b',') × (c ≢ b'\n')) (encode_minimal s)
unfolding encode_minimal
encode_minimal-Lacks [] = tt
encode_minimal-Lacks (c ∷ s) = elim (Bool-cases (is_special c)) [
  | inl special ↦
      let (hi, lo) = hex_upper-IsDigit c special in
      rw special (
        (omega arith, omega arith),
        ((omega arith, omega arith), ((omega arith, omega arith), encode_minimal-Lacks s)),
      )
  | inr plain ↦
      let other : (c ≢ b',') × (c ≢ b'\n') = unfold is_special in ground arith in
      rw plain (other, encode_minimal-Lacks s)
]
