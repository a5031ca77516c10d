-- ===== src/Prop/Numbers.antt =====
-- Numbers as settings of src/prop.c: a number that was stored is read back, padded or not.
use audited_objects.Prelude.{
  ℕ, zero, suc, ◌+◌, ◌-◌, ◌≤◌, ◌<◌, ◌^◌, ◌≡◌, ◌≢◌, ◌⊎◌, inl, inr, refl, ap, ◌∙◌, false, ◌==◌, List,
  [], ◌∷◌, ◌++◌, none, some, Bytes, All, Lacks, length, length-append, length-replicate, take_all,
  get_or, replicate, get_elem?, to_lower, is_upper, is_space, arith, ok, ◌>>=◌,
}
use audited_objects.Radix.Scan.{digit_val, strtoul, skip_space}
use audited_objects.Radix.RoundTrip.{IsDigit, IsNumeral, strtoul-IsNumeral}
use audited_objects.Ps.Csv.{format_lu}
use audited_objects.Ps.Parts.{format_lu-IsNumeral}
use audited_objects.Prop.{PropE, PropRow, number, prop_null}
use audited_objects.Prop.Table.{
  is_yes, after_0x, ulong_of, ulong_value, prop_get_str, prop_get_ulong,
}
use audited_objects.Prop.Environment.{
  Environ, Props, pad_left, padded, prop_put_ulong, prop_override_str, prop_override_ulong,
}
use audited_objects.Prop.Names.{IsProptab}
use audited_objects.Prop.Settings.{variable, prop_override_str-Holds}

-- Where it fits, the padded text is the text behind spaces.
padded-fits :
    (pad : ℕ) (text : Bytes)
    → (pad ≡ 0) ⊎ (length text ≤ pad)
    → (k : ℕ) × (padded pad text ≡ replicate k 32 ++ text)
unfolding padded pad_left
padded-fits zero text h = (0, refl)
padded-fits (suc pad) text (inl e) = absurd (omega arith)
padded-fits (suc pad) text (inr h) = (
  suc pad - length text,
  (let more : (suc pad == 0) ≡ false = ground arith in
      rw more (
        take_all (suc pad + 1 - 1) (replicate (suc pad - length text) 32 ++ text) (
          omega (
            arith,
            length-append (replicate (suc pad - length text) 32) text,
            length-replicate {A = ℕ} (suc pad - length text) 32,
          )))),
)

digit_low : (c : ℕ) → IsDigit 10 c → c < 58
unfolding digit_val
digit_low c h = ground arith

-- Spaces and digits stand before the letters and '<'.
is_yes-low : (c : ℕ) (s : Bytes) → c < 58 → is_yes (c ∷ s) ≡ false
unfolding is_yes to_lower is_upper
is_yes-low c s h = ground arith

after_0x-digits : (text : Bytes) → All (IsDigit 10) text → after_0x text ≡ none
unfolding after_0x
after_0x-digits [] h = refl
after_0x-digits (c ∷ []) h = refl
after_0x-digits (c ∷ x ∷ s) h = ground (arith, digit_low x h.1.0)

after_0x-space : (s : Bytes) → after_0x (32 ∷ s) ≡ none
unfolding after_0x
after_0x-space [] = refl
after_0x-space (c ∷ s) = refl

strtoul-spaces :
    (radix k : ℕ) (text : Bytes) → strtoul radix (replicate k 32 ++ text) ≡ strtoul radix text
unfolding strtoul skip_space is_space
strtoul-spaces radix zero text = refl
strtoul-spaces radix (suc k) text = strtoul-spaces radix k text

ulong_value_decimal :
    (s : Bytes) → is_yes s ≡ false → after_0x s ≡ none → ulong_value (some s) ≡ strtoul 10 s
unfolding ulong_value ulong_of
ulong_value_decimal s y x = rw y (rw (x, ulong_of) refl)

-- A numeral behind spaces has its value.
ulong_value-numeral :
    (k n : ℕ) (text : Bytes)
    → n < 2 ^ 64
    → IsNumeral 10 n text
    → ulong_value (some (replicate k 32 ++ text)) ≡ n
ulong_value-numeral zero n [] small num = absurd (num.nonempty refl)
ulong_value-numeral zero n (c ∷ s) small num =
    ulong_value_decimal (c ∷ s) (is_yes-low c s (digit_low c num.digits.0))
      (after_0x-digits (c ∷ s) num.digits)
    ∙ strtoul-IsNumeral 10 n (c ∷ s) small num
ulong_value-numeral (suc k) n text small num =
    ulong_value_decimal (32 ∷ replicate k 32 ++ text)
      (is_yes-low 32 (replicate k 32 ++ text) (omega arith))
      (after_0x-space (replicate k 32 ++ text))
    ∙ (strtoul-spaces 10 (suc k) text ∙ strtoul-IsNumeral 10 n text small num)

low-ne-null : (c : ℕ) (s : Bytes) → c < 58 → c ∷ s ≢ prop_null
low-ne-null c s low e = omega (arith, ap (λ l. get_or l 0 0) e)

proper-numeral : (k n : ℕ) (text : Bytes) → IsNumeral 10 n text → replicate k 32 ++ text ≢ prop_null
proper-numeral zero n [] num = absurd (num.nonempty refl)
proper-numeral zero n (c ∷ s) num = low-ne-null c s (digit_low c num.digits.0)
proper-numeral (suc k) n text num = low-ne-null 32 (replicate k 32 ++ text) (omega arith)

read_number :
    (t : List PropRow) (k n : ℕ) (w : Bytes)
    → prop_get_str t k ≡ ok (some w)
    → ulong_value (some w) ≡ n
    → prop_get_ulong t k ≡ ok n
unfolding prop_get_ulong
read_number t k n w found v = ap (λ m. m >>= λ x. ok (ulong_value x)) found ∙ ap ok v

module _ (env : Environ) where
  -- prop_override_ulong returns, and prop_get_ulong reads the same number back, if the property has no
  -- width or the number has at most as many digits: the spaces in front of it are skipped.
  pub prop_get_ulong-prop_override_ulong :
      (s : Props env) (p : PropE) (r : PropRow) (n : ℕ)
      → IsProptab s.proptab
      → get_elem? s.proptab (number p) ≡ some r
      → n < 2 ^ 64
      → (r.pr_pad ≡ 0) ⊎ (length (format_lu n) ≤ r.pr_pad)
      → Lacks b'=' (variable env p r s)
      → (s' : Props env) × (prop_override_ulong env (number p) n s ≡ ok s')
        × (prop_get_ulong s'.proptab (number p) ≡ ok n)
        × IsProptab s'.proptab
  unfolding prop_override_ulong prop_override_str prop_put_ulong
  prop_get_ulong-prop_override_ulong s p r n h at small fits lacks =
      let num = format_lu-IsNumeral n small in
      let (k, e) = padded-fits r.pr_pad (format_lu n) fits in
      let (s', done, holds) =
        prop_override_str-Holds env s p r (format_lu n) h at
          (rw e (proper-numeral k n (format_lu n) num)) lacks in
      (
        s',
        done,
        read_number s'.proptab (number p) n (padded r.pr_pad (format_lu n)) holds.found
            (rw e (ulong_value-numeral k n (format_lu n) small num)),
        holds.keeps,
      )
