-- ===== src/Strsep/Fields.antt =====
-- Splitting a line of fields.
use audited_objects.Prelude.{
  abort, length-append, All, zero, ◌==◌, inl, inr, ◌≤◌, Bool-cases, suc, ℕ, length, ◌≡◌, refl, ap,
  Option, none, some, List, [], ◌∷◌, ◌++◌, Bytes, Lacks, Outcome, ok, null, ◌>>=◌, arith, contains,
}
use audited_objects.Strsep.{strsep_scan, strsep}

module _ (sep : ℕ) where
  pub strsep_scan-append :
      (tok rest : Bytes)
      → Lacks sep tok
      → strsep_scan (sep ∷ []) (tok ++ (sep ∷ rest)) ≡ (tok, some rest)
  unfolding strsep_scan contains
  strsep_scan-append [] rest h = ground arith
  strsep_scan-append (c ∷ tok) rest h = ground (arith, strsep_scan-append tok rest h.1)

  strsep_scan_last : (tok : Bytes) → Lacks sep tok → strsep_scan (sep ∷ []) tok ≡ (tok, none)
  unfolding strsep_scan contains
  strsep_scan_last [] h = refl
  strsep_scan_last (c ∷ tok) h = ground (arith, strsep_scan_last tok h.1)

  -- A field that is followed by the separator.
  pub strsep-append :
      (tok rest : Bytes)
      → Lacks sep tok
      → strsep (some (tok ++ (sep ∷ rest))) (sep ∷ []) ≡ ok (tok, some rest)
  unfolding strsep
  strsep-append tok rest h = ap ok (strsep_scan-append tok rest h)

  -- The last field.
  pub strsep_last : (tok : Bytes) → Lacks sep tok → strsep (some tok) (sep ∷ []) ≡ ok (tok, none)
  unfolding strsep
  strsep_last tok h = ap ok (strsep_scan_last tok h)

module _ (sep : ℕ) where
  -- A token and what the split left behind it.
  abbrev pub rejoin : Bytes → Option Bytes → Bytes
  rejoin tok none = tok
  rejoin tok (some rest) = tok ++ (sep ∷ rest)

  -- The tokens with the separator between them. No token at all stands for the NULL string.
  unfoldable pub join : List Bytes → Option Bytes
  join [] = none
  join (t ∷ ts) = some (rejoin t (join ts))

  rejoin-cons : (c : ℕ) (tok : Bytes) (o : Option Bytes) → rejoin (c ∷ tok) o ≡ c ∷ rejoin tok o
  rejoin-cons c tok none = refl
  rejoin-cons c tok (some r) = refl

abbrev left_length : Option Bytes → ℕ
left_length none = 0
left_length (some s) = suc (length s)

module _ (sep : ℕ) where
  rejoin-strsep_scan :
      (s : Bytes) → let (tok, rest) = strsep_scan (sep ∷ []) s in rejoin sep tok rest ≡ s
  unfolding strsep_scan contains
  rejoin-strsep_scan [] = refl
  rejoin-strsep_scan (c ∷ s) =
      let (tok, rest) = strsep_scan (sep ∷ []) s in
      ground (arith, rejoin-strsep_scan s, rejoin-cons sep c tok rest)

  strsep_scan-Lacks : (s : Bytes) → Lacks sep (strsep_scan (sep ∷ []) s).0
  unfolding strsep_scan contains
  strsep_scan-Lacks [] = tt
  strsep_scan-Lacks (c ∷ s) = elim (Bool-cases (sep == c)) [
    | inl here ↦ rw here tt
    | inr other ↦ rw other (ground (arith, other), strsep_scan-Lacks s)
  ]

  strsep_scan_shorter : (s : Bytes) → left_length (strsep_scan (sep ∷ []) s).1 ≤ length s
  unfolding strsep_scan contains
  strsep_scan_shorter [] = omega arith
  strsep_scan_shorter (c ∷ s) = elim (Bool-cases (sep == c)) [
    | inl here ↦ rw here (omega arith)
    | inr other ↦ rw other (omega (arith, strsep_scan_shorter s))
  ]

-- The loop `for (t = util_strsep(&p, sep); t; t = util_strsep(&p, sep))`: the tokens of a string.
-- With too little fuel the result is `null`.
unfoldable pub split : ℕ → ℕ → Option Bytes → Outcome (List Bytes)
unfolding strsep
split sep fuel none = ok []
split sep zero (some s) = null
split sep (suc fuel) (some s) = do
  (tok, rest) ← strsep (some s) (sep ∷ [])
  toks ← split sep fuel rest
  ok (tok ∷ toks)

-- The loop ends, after one round for each character of the string and one more at most; its tokens
-- hold no separator, and joined again they are the string.
pub split-join :
    (sep fuel : ℕ) (p : Option Bytes)
    → left_length p ≤ fuel
    → (toks : List Bytes) × (split sep fuel p ≡ ok toks)
      × (join sep toks ≡ p)
      × All (Lacks sep) toks
unfolding split join
split-join sep fuel none h = ([], refl, refl, tt)
split-join sep zero (some s) h = absurd (omega arith)
split-join sep (suc fuel) (some s) h =
    let (tok, rest) = strsep_scan (sep ∷ []) s in
    let (toks, e, j, l) = split-join sep fuel rest (omega (arith, strsep_scan_shorter sep s)) in
    (tok ∷ toks, rw e, rw j (ap some (rejoin-strsep_scan sep s)), (strsep_scan-Lacks sep s, l))

strsep_scan-rejoin :
    (sep : ℕ) (tok : Bytes) (o : Option Bytes)
    → Lacks sep tok
    → strsep_scan (sep ∷ []) (rejoin sep tok o) ≡ (tok, o)
strsep_scan-rejoin sep tok none l = strsep_scan_last sep tok l
strsep_scan-rejoin sep tok (some r) l = strsep_scan-append sep tok r l

left_length-le :
    (sep : ℕ) (tok : Bytes) (o : Option Bytes) → left_length o ≤ length (rejoin sep tok o)
left_length-le sep tok none = omega arith
left_length-le sep tok (some r) = omega (arith, length-append tok (sep ∷ r))

-- Splitting what was joined gives back the tokens, if none of them holds the separator.
pub split-join_tokens :
    (sep fuel : ℕ) (toks : List Bytes)
    → left_length (join sep toks) ≤ fuel
    → All (Lacks sep) toks
    → split sep fuel (join sep toks) ≡ ok toks
unfolding split join
split-join_tokens sep fuel [] h l = refl
split-join_tokens sep zero (t ∷ ts) h l = absurd (omega arith)
split-join_tokens sep (suc fuel) (t ∷ ts) h l =
    let fits : left_length (join sep ts) ≤ fuel =
      omega (arith, left_length-le sep t (join sep ts)) in
    rw (strsep_scan-rejoin sep t (join sep ts) l.0) (rw (split-join_tokens sep fuel ts fits l.1))

-- The tokens of a string, by a loop with enough fuel (split-join).
unfoldable pub tokens : ℕ → Bytes → List Bytes
unfolding split
tokens sep s = elim (split sep (suc (length s)) (some s)) [ ok ts ↦ ts | null ↦ [] | abort ↦ [] ]
