-- ===== src/Moment/RoundTrip.antt =====
-- moment_format and moment_parse.
use audited_objects.Prelude.{
  ◌≢◌, zero, if◌then◌else◌, suc, ℕ, ◌-◌, ◌≤◌, ◌<◌, ◌≡◌, ◌^◌, refl, ◌∙◌, ap, ap₂, subst, All-append,
  some, Bytes, List, [], ◌∷◌, ◌++◌, take, length, length-append, Lacks, ok, arith,
}
use audited_objects.Prelude.Int.{ℤ, pos, negsuc}
use audited_objects.Prelude.Word.{to_u64, to_u64-lt}
use audited_objects.Radix.RoundTrip.{
  IsNumeral, IsNumeral-Lacks, strtoll-IsNumeral, format_to_radix_total, length-format_to_radix,
}
use audited_objects.Moment.{
  false, ltb, leb, Moment, csv_radix, moment_bufmax, cut_at, moment_parse, format_csv,
  moment_format,
}

-- A field of the canonical format: the numeral that it is, of at most 13 digits.
record IsField (val : ℤ) (text : Bytes) : Type 0 where
  numeral : IsNumeral csv_radix (to_u64 val) text
  short : length text ≤ 13

format_csv_total :
    (val : ℤ) → (text : Bytes) × (format_csv moment_bufmax val ≡ ok text) × IsField val text
unfolding format_csv
format_csv_total val =
    let small : to_u64 val < 2 ^ 64 = to_u64-lt val in
    let (text, e, n) =
      format_to_radix_total csv_radix moment_bufmax (to_u64 val) (omega arith) (omega arith)
        (omega arith) in
    let short : length text ≤ 13 =
      length-format_to_radix csv_radix moment_bufmax 12 (to_u64 val) text (omega arith)
        (omega arith) e in
    (text, rw (e, format_csv), record { numeral = n; short = short })

cut_at-append : (c : ℕ) (a b : Bytes) → Lacks c a → cut_at c (a ++ (c ∷ b)) ≡ some (a, b)
unfolding cut_at
cut_at-append c [] b l = ground arith
cut_at-append c (x ∷ a) b l = ground (arith, cut_at-append c a b l.1)

take_all {ℓ} : {A : Type ℓ} (n : ℕ) (xs : List A) → length xs ≤ n → take n xs ≡ xs
take_all zero [] h = refl
take_all zero (x ∷ xs) h = absurd (omega arith)
take_all (suc n) [] h = refl
take_all (suc n) (x ∷ xs) h = ap (λ t. x ∷ t) (take_all n xs (omega arith))

-- moment_format in a buffer of MOMENT_BUFMAX writes the seconds, a dot and the nanoseconds, of 27
-- characters at most; the whole text, if the buffer takes as many.
moment_format_total :
    (m : Moment)
    → (sec nsec : Bytes) × (moment_format m moment_bufmax ≡ ok (sec ++ (b'.' ∷ nsec)))
      × IsField m.ntv_sec sec
      × IsField m.ntv_nsec nsec
unfolding moment_format
moment_format_total m =
    let (sec, e, f) = format_csv_total m.ntv_sec in
    let (nsec, e', f') = format_csv_total m.ntv_nsec in
    let fits : length (sec ++ (b'.' ∷ nsec)) ≤ 31 =
      omega (arith, length-append sec (b'.' ∷ nsec), f.short, f'.short) in
    (sec, nsec, rw (e, e') (ap ok (take_all 31 _ fits)), f, f')

-- moment_parse of a formatted moment. The seconds and nanoseconds are read by strtoll, so a value
-- that is negative comes back as LLONG_MAX.
abbrev read_back : ℤ → ℤ
read_back val = if ltb (to_u64 val) (2 ^ 63) then pos (to_u64 val) else pos (2 ^ 63 - 1)

moment_parse_fields :
    (m : Moment) (sec nsec : Bytes)
    → IsField m.ntv_sec sec
    → IsField m.ntv_nsec nsec
    → moment_parse (sec ++ (b'.' ∷ nsec))
      ≡ ok (0, record { ntv_sec = read_back m.ntv_sec; ntv_nsec = read_back m.ntv_nsec })
unfolding moment_parse
moment_parse_fields m sec nsec f f' =
    let fits : leb moment_bufmax (length (sec ++ (b'.' ∷ nsec))) ≡ false =
      ground (arith, length-append sec (b'.' ∷ nsec), f.short, f'.short) in
    let s = strtoll-IsNumeral csv_radix (to_u64 m.ntv_sec) sec f.numeral in
    let n = strtoll-IsNumeral csv_radix (to_u64 m.ntv_nsec) nsec f'.numeral in
    let cut = cut_at-append b'.' sec nsec (IsNumeral-Lacks b'.' (omega arith) f.numeral) in
    rw fits (rw cut (rw (s, n)))

-- A moment at or after the epoch, as an int64_t and a long hold it.
pub record IsMoment (m : Moment) : Type 0 where
  pub sec : ℕ
  pub nsec : ℕ
  pub is_sec : m.ntv_sec ≡ pos sec
  pub is_nsec : m.ntv_nsec ≡ pos nsec
  pub small_sec : sec < 2 ^ 63
  pub small_nsec : nsec < 2 ^ 63

read_back_pos : (x : ℤ) (n : ℕ) → x ≡ pos n → n < 2 ^ 63 → read_back x ≡ x
unfolding to_u64
read_back_pos x n e h = rw e (ground arith)

read_back_negsuc : (x : ℤ) (n : ℕ) → x ≡ negsuc n → n < 2 ^ 63 → read_back x ≡ pos (2 ^ 63 - 1)
unfolding to_u64
read_back_negsuc x n e h = rw e (ground arith)

-- moment_format in a buffer of MOMENT_BUFMAX succeeds, and moment_parse of the text succeeds and
-- gives back the moment, if its seconds and nanoseconds are not negative.
pub moment_parse-moment_format :
    (m : Moment)
    → IsMoment m
    → (text : Bytes) × (moment_format m moment_bufmax ≡ ok text) × (moment_parse text ≡ ok (0, m))
moment_parse-moment_format m v =
    let (sec, nsec, e, f, f') = moment_format_total m in
    let back : record { ntv_sec = read_back m.ntv_sec; ntv_nsec = read_back m.ntv_nsec } ≡ m =
      ap₂ (λ a b. record { ntv_sec = a; ntv_nsec = b })
        (read_back_pos m.ntv_sec v.sec v.is_sec v.small_sec)
        (read_back_pos m.ntv_nsec v.nsec v.is_nsec v.small_nsec) in
    (sec ++ (b'.' ∷ nsec), e, moment_parse_fields m sec nsec f f' ∙ ap (λ k. ok (0, k)) back)

-- The seconds of a moment before the epoch do not survive moment_format and moment_parse: they come
-- back as LLONG_MAX, with return code 0.
pub moment_parse_before_epoch :
    (m : Moment) (n : ℕ)
    → m.ntv_sec ≡ negsuc n
    → n < 2 ^ 63
    → (text : Bytes) × (moment_format m moment_bufmax ≡ ok text)
      × (back : Moment) × (moment_parse text ≡ ok (0, back))
      × (back.ntv_sec ≡ pos (2 ^ 63 - 1))
moment_parse_before_epoch m n before small =
    let (sec, nsec, e, f, f') = moment_format_total m in
    (
      sec ++ (b'.' ∷ nsec),
      e,
      record { ntv_sec = read_back m.ntv_sec; ntv_nsec = read_back m.ntv_nsec },
      moment_parse_fields m sec nsec f f',
      read_back_negsuc m.ntv_sec n before small,
    )

-- A formatted moment can be a CSV field.
pub moment_format-Lacks :
    (m : Moment) (c : ℕ) (text : Bytes)
    → c < b'.'
    → moment_format m moment_bufmax ≡ ok text
    → Lacks c text
moment_format-Lacks m c text low h =
    let (sec, nsec, e, f, f') = moment_format_total m in
    let same : sec ++ (b'.' ∷ nsec) ≡ text = cc (e, h) in
    subst (λ t. Lacks c t) same
      (All-append (λ x. x ≢ c) sec (b'.' ∷ nsec) (IsNumeral-Lacks c (omega arith) f.numeral)
        (omega arith, IsNumeral-Lacks c (omega arith) f'.numeral))
