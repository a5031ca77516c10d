-- ===== src/Ca/Newline.antt =====
-- Newlines in a header line: ca_format_header writes each as the token "^J", and ca_set_line turns
-- the tokens back.
use audited_objects.Prelude.{
  ℕ, ◌≡◌, refl, ap, ◌∙◌, false, ◌&&◌, [], ◌∷◌, ◌++◌, ◌==◌, if◌then◌else◌, Bytes, codes, Lacks,
  arith, Bool-cases, inl, inr,
}

-- CSV_NEWLINE_TOKEN
abbrev pub csv_newline_token : Bytes
csv_newline_token = codes "^J"

-- The loop of ca_format_header.
unfoldable pub put_tokens : Bytes → Bytes
put_tokens [] = []
put_tokens (c ∷ s) = let rest = put_tokens s in if c == b'\n' then b'^' ∷ b'J' ∷ rest else c ∷ rest

-- The loop of ca_set_line.
unfoldable pub take_tokens : Bytes → Bytes
take_tokens [] = []
take_tokens (c ∷ []) = c ∷ []
take_tokens (c ∷ d ∷ s) =
    let after = take_tokens s in
    let plain = take_tokens (d ∷ s) in if c == b'^' && d == b'J' then b'\n' ∷ after else c ∷ plain

-- The token does not stand in the text.
abbrev pub LacksToken : Bytes → Type 0
LacksToken [] = Unit
LacksToken (c ∷ []) = Unit
LacksToken (c ∷ d ∷ s) = ((c == b'^' && d == b'J') ≡ false) × LacksToken (d ∷ s)

take_tokens_plain :
    (c d : ℕ) (s : Bytes)
    → (c == b'^' && d == b'J') ≡ false
    → take_tokens (c ∷ d ∷ s) ≡ c ∷ take_tokens (d ∷ s)
unfolding take_tokens
take_tokens_plain c d s h = rw h

take_tokens_newline :
    {c : ℕ} {s : Bytes} (t : Bytes)
    → c ≡ b'\n'
    → take_tokens t ≡ s
    → take_tokens (b'^' ∷ b'J' ∷ t) ≡ c ∷ s
unfolding take_tokens
take_tokens_newline t e h = rw (h, e) refl

-- The tokens come back as the newlines that they stand for, in a text without a token of its own.
pub take_tokens-put_tokens : (s : Bytes) → LacksToken s → take_tokens (put_tokens s) ≡ s
unfolding put_tokens
take_tokens-put_tokens [] h = unfold take_tokens in refl
take_tokens-put_tokens (c ∷ []) h = elim (Bool-cases (c == b'\n')) [
  | inl e ↦ rw e (unfold take_tokens in ground (arith, e))
  | inr e ↦ rw e (unfold take_tokens in refl)
]
take_tokens-put_tokens (c ∷ d ∷ s) h =
    let ih : take_tokens (put_tokens (d ∷ s)) ≡ d ∷ s = take_tokens-put_tokens (d ∷ s) h.1 in
    elim (Bool-cases (c == b'\n')) [
      | inl e ↦
          let same : c ≡ b'\n' = ground (arith, e) in
          rw e (take_tokens_newline (put_tokens (d ∷ s)) same ih)
      | inr e ↦ elim (Bool-cases (d == b'\n')) [
        | inl e' ↦
            let apart : (c == b'^' && b'^' == b'J') ≡ false = ground arith in
            let rest : take_tokens (b'^' ∷ b'J' ∷ put_tokens s) ≡ d ∷ s = rw e' at ih in
            rw e
              (rw e' (take_tokens_plain c b'^' (b'J' ∷ put_tokens s) apart ∙ ap (λ t. c ∷ t) rest))
        | inr e' ↦
            let rest : take_tokens (d ∷ put_tokens s) ≡ d ∷ s = rw e' at ih in
            rw e (rw e' (take_tokens_plain c d (put_tokens s) h.0 ∙ ap (λ t. c ∷ t) rest))
      ]
    ]

pub put_tokens-append : (s t : Bytes) → Lacks b'\n' s → put_tokens (s ++ t) ≡ s ++ put_tokens t
unfolding put_tokens
put_tokens-append [] t h = refl
put_tokens-append (c ∷ s) t h = ground (arith, h.0, put_tokens-append s t h.1)
