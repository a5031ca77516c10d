-- ===== src/Radix/RoundTrip.antt =====
-- util_format_to_radix against strtoul and strtoll.
use native.Mathlib.Nat.{
  div-add-mod', mod-lt, div-lt_iff_lt-mul, div-eq_of_lt, pow-suc, pow-zero, one-mul,
}
use audited_objects.Prelude.{
  ltb, if◌then◌else◌, length, ℕ, zero, suc, ◌+◌, ◌-◌, ◌*◌, ◌/◌, ◌%◌, ◌^◌, ◌≤◌, ◌<◌, ◌≡◌, ◌≢◌, refl,
  ap, Bool, true, false, ◌&&◌, some, [], ◌∷◌, leb, ◌==◌, Bytes, get_or, is_space, arith, Bool-cases,
  inl, inr, All, All-imp, Lacks,
}
use audited_objects.Prelude.Int.{pos}
use audited_objects.Radix.{chrs, radix_loop, format_to_radix}
use audited_objects.Radix.Scan.{digit_val, scan, skip_space, sign, strtoul, strtoll}

-- A digit as the loop writes it: no space, no sign, no separator.
abbrev pub IsDigit : ℕ → ℕ → Type 0
IsDigit radix c = (digit_val c < radix) × (b'0' ≤ c) × (c ≤ b'z')

digit_test : ℕ → Bool
digit_test d = let c = get_or chrs d 0 in digit_val c == d && (leb b'0' c && leb c b'z')

-- Every digit below `n` passes the test.
digits_agree : ℕ → Bool
digits_agree zero = true
digits_agree (suc n) = digits_agree n && digit_test n

agreed : {n d : ℕ} → d < n → digits_agree n ≡ true → digit_test d ≡ true
unfolding digits_agree
agreed {n = zero} {d} lt all = absurd (omega arith)
agreed {n = suc n} {d} lt all = elim (Bool-cases (d == n)) [
  | inl last ↦ let e : d ≡ n = ground (arith, last) in rw e (ground (arith, all))
  | inr other ↦ agreed {n = n} (ground (arith, other, lt)) (ground (arith, all))
]

digit_table : digits_agree 36 ≡ true
unfolding digits_agree digit_test digit_val
digit_table = refl

-- `strtoul` reads each of the first 36 digits as the number that it stands for.
digit_val-chrs :
    (d : ℕ)
    → d < 36
    → (digit_val (get_or chrs d 0) ≡ d) × (b'0' ≤ get_or chrs d 0) × (get_or chrs d 0 ≤ b'z')
unfolding digit_test
digit_val-chrs d h = read (get_or chrs d 0) (agreed h digit_table)
  where
    read :
        (c : ℕ)
        → (digit_val c == d && (leb b'0' c && leb c b'z')) ≡ true
        → (digit_val c ≡ d) × (b'0' ≤ c) × (c ≤ b'z')
    read c e = ground arith

pow_one : (n : ℕ) → n ^ suc zero ≡ n
pow_one n = rw (pow-suc, pow-zero, one-mul)

module _ (radix : ℕ) (two : 2 ≤ radix) (max : radix ≤ 36) where
  chr_IsDigit : (val : ℕ) → IsDigit radix (get_or chrs (val % radix) 0)
  chr_IsDigit val =
      let below : val % radix < radix = mod-lt val (omega arith) in
      let (v, lo, hi) = digit_val-chrs (val % radix) (omega arith) in (omega arith, lo, hi)

  scan_digit :
      (val : ℕ) (out : Bytes)
      → scan radix (val / radix) (get_or chrs (val % radix) 0 ∷ out) ≡ scan radix val out
  scan_digit val out =
      let below : val % radix < radix = mod-lt val (omega arith) in
      let (v, lo, hi) = digit_val-chrs (val % radix) (omega arith) in
      step (get_or chrs (val % radix) 0) (val % radix) v below (div-add-mod' val radix)
    where
      step :
          (c d : ℕ)
          → digit_val c ≡ d
          → d < radix
          → val / radix * radix + d ≡ val
          → scan radix (val / radix) (c ∷ out) ≡ scan radix val out
      step c d e lt whole = unfold scan in ground (arith, ap (λ n. scan radix n out) whole)

  -- What the loop has written reads back as the number, in front of any text.
  scan-radix_loop :
      (room val : ℕ) (out text : Bytes)
      → radix_loop radix room val out ≡ some text
      → scan radix 0 text ≡ scan radix val out
  unfolding radix_loop
  scan-radix_loop zero val out text h = cc
  scan-radix_loop (suc room) val out text h = ground (
    arith,
    ap (λ n. scan radix n (get_or chrs (val % radix) 0 ∷ out)) {x = val / radix} {y = 0},
    scan_digit val out,
    scan-radix_loop room (val / radix) (get_or chrs (val % radix) 0 ∷ out) text,
  )

  -- The text begins with a digit, so that no space or sign is read.
  radix_loop_digits :
      (room val : ℕ) (out text : Bytes)
      → All (IsDigit radix) out
      → radix_loop radix room val out ≡ some text
      → All (IsDigit radix) text × (text ≢ [])
  unfolding radix_loop
  radix_loop_digits zero val out text ds h = cc
  radix_loop_digits (suc room) val out text ds h = elim (Bool-cases (val / radix == 0)) [
    | inl done ↦
        let e : get_or chrs (val % radix) 0 ∷ out ≡ text = ground (arith, done, h) in
        rw (← e) ((chr_IsDigit val, ds), ground arith)
    | inr more ↦
        radix_loop_digits room (val / radix) (get_or chrs (val % radix) 0 ∷ out) text
          (chr_IsDigit val, ds) (ground (arith, more, h))
  ]

  -- Enough room: as many digits as the number has, and one for 0.
  pub radix_loop_total :
      (room val : ℕ) (out : Bytes)
      → val < radix ^ suc room
      → (text : Bytes) × (radix_loop radix (suc room) val out ≡ some text)
  unfolding radix_loop
  radix_loop_total zero val out h =
      let small : val / radix ≡ 0 = div-eq_of_lt (rw (pow_one radix) at h) in
      (get_or chrs (val % radix) 0 ∷ out, ground (arith, small))
  radix_loop_total (suc room) val out h = elim (Bool-cases (val / radix == 0)) [
    | inl done ↦ (get_or chrs (val % radix) 0 ∷ out, rw done)
    | inr more ↦
        let fits : val / radix < radix ^ suc room =
          (div-lt_iff_lt-mul {k = radix} (omega arith)).1 (rw (← pow-suc) h) in
        let (text, e) =
          radix_loop_total room (val / radix) (get_or chrs (val % radix) 0 ∷ out) fits in
        (text, rw more e)
  ]

-- What stands at the head of a formatted number is no space and no sign.
skip_digit :
    {radix c : ℕ} (s : Bytes) → IsDigit radix c → sign (skip_space (c ∷ s)) ≡ (false, c ∷ s)
unfolding sign skip_space is_space
skip_digit s d = ground arith

sign_digits :
    (radix : ℕ) (text : Bytes)
    → All (IsDigit radix) text
    → text ≢ []
    → sign (skip_space text) ≡ (false, text)
sign_digits radix [] ds ne = absurd (ne refl)
sign_digits radix (c ∷ s) ds ne = skip_digit {radix = radix} s ds.0

abbrev pub IsRadix : ℕ → Type 0
IsRadix radix = (2 ≤ radix) × (radix ≤ 36)

-- What util_format_to_radix leaves in the buffer: digits, at least one, whose value is the number.
pub record IsNumeral (radix val : ℕ) (text : Bytes) : Type 0 where
  pub digits : All (IsDigit radix) text
  pub nonempty : text ≢ []
  pub value : scan radix 0 text ≡ val

pub radix_loop-IsNumeral :
    (radix room val : ℕ) (text : Bytes)
    → IsRadix radix
    → radix_loop radix room val [] ≡ some text
    → IsNumeral radix val text
unfolding scan
radix_loop-IsNumeral radix room val text r e =
    let (ds, ne) = radix_loop_digits radix r.0 r.1 room val [] text tt e in
    record { digits = ds; nonempty = ne; value = scan-radix_loop radix r.0 r.1 room val [] text e }

pub format_to_radix-IsNumeral :
    (radix len val : ℕ) (text : Bytes)
    → IsRadix radix
    → format_to_radix radix len val ≡ some text
    → IsNumeral radix val text
unfolding format_to_radix
format_to_radix-IsNumeral radix len val text r e =
    radix_loop-IsNumeral radix (len - 1) val text r (ground (arith, r.0, r.1))

-- In a radix from 2 to 36, if the number has at most `len - 1` digits, and `len` is 2 or more,
-- util_format_to_radix stays inside the buffer of `len` bytes and leaves there a numeral of the
-- number, in digits of that radix.
pub format_to_radix_total :
    (radix len val : ℕ)
    → IsRadix radix
    → 2 ≤ len
    → val < radix ^ (len - 1)
    → (text : Bytes) × (format_to_radix radix len val ≡ some text) × IsNumeral radix val text
format_to_radix_total radix (suc (suc room)) val r big fits =
    let less : suc (suc room) - 1 ≡ suc room = omega arith in
    let (text, e) = radix_loop_total radix r.0 r.1 room val [] (rw less at fits) in
    let whole : format_to_radix radix (suc (suc room)) val ≡ some text =
      unfold format_to_radix in rw less (ground (arith, e, r.0, r.1)) in
    (text, whole, format_to_radix-IsNumeral radix (suc (suc room)) val text r whole)
format_to_radix_total radix (suc zero) val r big fits = absurd (omega arith)
format_to_radix_total radix zero val r big fits = absurd (omega arith)

pub strtoul-IsNumeral :
    (radix val : ℕ) (text : Bytes)
    → val < 2 ^ 64
    → IsNumeral radix val text
    → strtoul radix text ≡ val
unfolding strtoul
strtoul-IsNumeral radix val text small n =
    rw (sign_digits radix text n.digits n.nonempty) (rw n.value (ground arith))

-- Out of the range of a long, strtoll gives LLONG_MAX.
pub strtoll-IsNumeral :
    (radix val : ℕ) (text : Bytes)
    → IsNumeral radix val text
    → strtoll radix text ≡ (if ltb val (2 ^ 63) then pos val else pos (2 ^ 63 - 1))
unfolding strtoll
strtoll-IsNumeral radix val text n = rw (sign_digits radix text n.digits n.nonempty) (rw n.value)

-- strtoul reads back every 64-bit number that util_format_to_radix writes, in radix 2 to 36.
pub strtoul-format_to_radix :
    (radix len val : ℕ) (text : Bytes)
    → IsRadix radix
    → val < 2 ^ 64
    → format_to_radix radix len val ≡ some text
    → strtoul radix text ≡ val
strtoul-format_to_radix radix len val text r small e =
    strtoul-IsNumeral radix val text small (format_to_radix-IsNumeral radix len val text r e)

-- A numeral holds none of the separators: they are not between '0' and 'z'.
pub IsNumeral-Lacks :
    {radix val : ℕ} {text : Bytes} (c : ℕ) → c < b'0' → IsNumeral radix val text → Lacks c text
IsNumeral-Lacks {radix} {text = text} c low n =
    All-imp (IsDigit radix) (λ x. x ≢ c) (λ x d. omega arith) text n.digits

-- A number below `radix ^ k` has at most `k` digits.
length-radix_loop :
    (radix room k val : ℕ) (out text : Bytes)
    → 2 ≤ radix
    → val < radix ^ suc k
    → radix_loop radix room val out ≡ some text
    → length text ≤ suc k + length out
unfolding radix_loop
length-radix_loop radix zero k val out text two fits e = cc
length-radix_loop radix (suc room) zero val out text two fits e =
    let small : val / radix ≡ 0 = div-eq_of_lt (rw (pow_one radix) at fits) in
    let t : get_or chrs (val % radix) 0 ∷ out ≡ text = ground (arith, small, e) in
    rw (← t) (omega arith)
length-radix_loop radix (suc room) (suc k) val out text two fits e =
    elim (Bool-cases (val / radix == 0)) [
      | inl done ↦
          let t : get_or chrs (val % radix) 0 ∷ out ≡ text = ground (arith, done, e) in
          rw (← t) (omega arith)
      | inr more ↦
          let less : val / radix < radix ^ suc k =
            (div-lt_iff_lt-mul {k = radix} (omega arith)).1 (rw (← pow-suc) fits) in
          omega (
            arith,
            length-radix_loop radix room k (val / radix) (get_or chrs (val % radix) 0 ∷ out) text
                two less (ground (arith, more, e)),
          )
    ]

pub length-format_to_radix :
    (radix len k val : ℕ) (text : Bytes)
    → IsRadix radix
    → val < radix ^ suc k
    → format_to_radix radix len val ≡ some text
    → length text ≤ suc k
unfolding format_to_radix
length-format_to_radix radix len k val text r fits e =
    omega
      (arith, length-radix_loop radix (len - 1) k val [] text r.0 fits (ground (arith, r.0, r.1)))
