-- ===== src/Ca/Line.antt =====
-- The header line as thirteen texts and a command line: how ca_format_header joins them, and how
-- ca_newFromCSVString takes them apart.
use mathlib.Core.List.{append_assoc}
use audited_objects.Prelude.{
  ℕ, ◌≡◌, refl, sym, ap, ◌∙◌, true, some, [], ◌∷◌, ◌++◌, Bytes, codes, contains, ok, Lacks, All,
  arith,
}
use audited_objects.Ps.Csv.{field}
use audited_objects.Ps.RoundTrip.{next_field-append}
use audited_objects.Ca.Newline.{put_tokens, put_tokens-append}
use audited_objects.Ca.Header.{replace_last, ca_fields}

-- A text without commas and newlines.
abbrev pub IsText : Bytes → Type 0
IsText s = Lacks b',' s × Lacks b'\n' s

put_tokens-field :
    (s rest : Bytes) → IsText s → put_tokens (field s rest) ≡ field s (put_tokens rest)
put_tokens-field s rest h = put_tokens-append s (b',' ∷ rest) h.1 ∙ ap (λ t. s ++ t) comma
  where
    comma : put_tokens (b',' ∷ rest) ≡ b',' ∷ put_tokens rest
    comma = unfold put_tokens in refl

contains-append : (s : Bytes) (c : ℕ) → contains (s ++ (c ∷ [])) c ≡ true
unfolding contains
contains-append [] c = ground arith
contains-append (x ∷ s) c = ground (arith, contains-append s c)

replace_last-append : (c d : ℕ) (s : Bytes) → replace_last c d (s ++ (c ∷ [])) ≡ s ++ (d ∷ [])
unfolding replace_last
replace_last-append c d [] = unfold contains in ground arith
replace_last-append c d (x ∷ s) =
    rw (contains-append s c) (ap (λ t. x ∷ t) (replace_last-append c d s))

put_tokens_end : (s : Bytes) → put_tokens (s ++ codes "@") ≡ put_tokens s ++ codes "@"
unfolding put_tokens
put_tokens_end [] = refl
put_tokens_end (x ∷ s) = ground (arith, put_tokens_end s)

-- Thirteen texts and a line.
abbrev pub join_header :
    Bytes
    → Bytes
    → Bytes
    → Bytes
    → Bytes
    → Bytes
    → Bytes
    → Bytes
    → Bytes
    → Bytes
    → Bytes
    → Bytes
    → Bytes
    → Bytes
    → Bytes
join_header a b c d e f g h i j k l m line = field a (
    field b (
      field c (
        field d (
          field e
            (field f (field g (field h (field i (field j (field k (field l (field m line))))))))))))

module _ (a b c d e f g h i j k l m : Bytes)
    (t : All IsText (a ∷ b ∷ c ∷ d ∷ e ∷ f ∷ g ∷ h ∷ i ∷ j ∷ k ∷ l ∷ m ∷ [])) where
  put_tokens-join_header :
      (line : Bytes)
      → put_tokens (join_header a b c d e f g h i j k l m line)
        ≡ join_header a b c d e f g h i j k l m (put_tokens line)
  put_tokens-join_header line = rw (put_tokens-field a _ t.0) (
      rw (put_tokens-field b _ t.1.0) (
        rw (put_tokens-field c _ t.1.1.0) (
          rw (put_tokens-field d _ t.1.1.1.0) (
            rw (put_tokens-field e _ t.1.1.1.1.0) (
              rw (put_tokens-field f _ t.1.1.1.1.1.0) (
                rw (put_tokens-field g _ t.1.1.1.1.1.1.0) (
                  rw (put_tokens-field h _ t.1.1.1.1.1.1.1.0) (
                    rw (put_tokens-field i _ t.1.1.1.1.1.1.1.1.0) (
                      rw (put_tokens-field j _ t.1.1.1.1.1.1.1.1.1.0) (
                        rw (put_tokens-field k _ t.1.1.1.1.1.1.1.1.1.1.0) (
                          rw (put_tokens-field l _ t.1.1.1.1.1.1.1.1.1.1.1.0)
                            (rw (put_tokens-field m line t.1.1.1.1.1.1.1.1.1.1.1.1.0)))))))))))))

  pub ca_fields_lem :
      (line : Bytes)
      → ca_fields (some (join_header a b c d e f g h i j k l m line))
        ≡ ok (record {
          cmdid = a;
          depth = b;
          pcmdid = c;
          starttime = d;
          duration = e;
          host = f;
          recycled = g;
          freetext = h;
          prog = i;
          rwd = j;
          pccode = k;
          ccode = l;
          pathcode = m;
          linebuf = some line;
        })
  unfolding ca_fields
  ca_fields_lem line = rw (next_field-append a _ t.0.0) (
      rw (next_field-append b _ t.1.0.0) (
        rw (next_field-append c _ t.1.1.0.0) (
          rw (next_field-append d _ t.1.1.1.0.0) (
            rw (next_field-append e _ t.1.1.1.1.0.0) (
              rw (next_field-append f _ t.1.1.1.1.1.0.0) (
                rw (next_field-append g _ t.1.1.1.1.1.1.0.0) (
                  rw (next_field-append h _ t.1.1.1.1.1.1.1.0.0) (
                    rw (next_field-append i _ t.1.1.1.1.1.1.1.1.0.0) (
                      rw (next_field-append j _ t.1.1.1.1.1.1.1.1.1.0.0) (
                        rw (next_field-append k _ t.1.1.1.1.1.1.1.1.1.1.0.0) (
                          rw (next_field-append l _ t.1.1.1.1.1.1.1.1.1.1.1.0.0)
                            (rw (next_field-append m line t.1.1.1.1.1.1.1.1.1.1.1.1.0.0)))))))))))))

  -- The header as it is written: the texts, the line with its newlines as tokens, and a newline.
  pub header_end :
      (line : Bytes)
      → replace_last b'@' b'\n'
          (put_tokens (join_header a b c d e f g h i j k l m (line ++ codes "@")))
        ≡ join_header a b c d e f g h i j k l m (put_tokens line) ++ codes "\n"
  header_end line =
      let out : Bytes = join_header a b c d e f g h i j k l m (put_tokens line) in
      let whole : out ++ codes "@"
          ≡ join_header a b c d e f g h i j k l m (put_tokens line ++ codes "@") =
        simp (append_assoc) in
      ap (replace_last b'@' b'\n') (
        put_tokens-join_header (line ++ codes "@")
        ∙ (ap (join_header a b c d e f g h i j k l m) (put_tokens_end line) ∙ sym whole))
      ∙ replace_last-append b'@' b'\n' out
