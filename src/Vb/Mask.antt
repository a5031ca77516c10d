-- ===== src/Vb/Mask.antt =====
-- From a list of verbosity terms to a mask: _vb_name2mask of src/vb.c.
use audited_objects.Prelude.{
  ℕ, ◌+◌, Bool, true, false, ◌||◌, ◌==◌, if◌then◌else◌, List, [], ◌∷◌, Option, none, some, Bytes,
  codes, map, is_prefix, same_text, to_lower,
}
use audited_objects.Prop.Environment.{snprintf}
use audited_objects.Vb.{VbRow, vbtab}

abbrev pub Mask : Type 0
Mask = ℕ → Bool

-- `mask | (1 << i)`
unfoldable pub with_bit : ℕ → Mask → Mask
with_bit i mask j = j == i || mask j

-- `!strnicmp(t, name, strlen(t))`
unfoldable pub abbreviates : Bytes → Bytes → Bool
unfolding is_prefix to_lower
abbreviates t name = is_prefix (map to_lower t) (map to_lower name)

-- The loop over the table, with the index of its first row.
unfoldable pub vb_index : Bytes → List VbRow → ℕ → Option ℕ
unfolding abbreviates
vb_index t [] i = none
vb_index t (r ∷ rs) i =
    let rest = vb_index t rs (i + 1) in if abbreviates t r.vb_name then some i else rest

-- What a term does: clear the mask, set its first bit, set all, set that of a row, or only a warning.
pub data VbTerm : Type 0 where
  term_off : VbTerm
  term_on : VbTerm
  term_all : VbTerm
  term_bit : ℕ → VbTerm
  term_unknown : VbTerm

unfoldable indexed_term : Option ℕ → VbTerm
indexed_term none = term_unknown
indexed_term (some i) = term_bit i

unfoldable starts_with : ℕ → Bytes → Bool
starts_with c [] = false
starts_with c (x ∷ t) = x == c

-- The tests in the loop of `_vb_name2mask`.
unfoldable pub vb_term : Bytes → VbTerm
unfolding starts_with indexed_term vb_index same_text
vb_term t =
    if same_text t (codes "OFF") || starts_with b'-' t
    then term_off
    else if same_text t (codes "ON")
    then term_on
    else if starts_with b'*' t
    then term_all
    else indexed_term (vb_index t vbtab 0)

-- Their effect on the mask; VB_STD is 0.
unfoldable pub vb_apply : VbTerm → Mask → Mask
unfolding with_bit
vb_apply term_off mask j = false
vb_apply term_on mask j = with_bit 0 mask j
vb_apply term_all mask j = true
vb_apply (term_bit i) mask j = with_bit i mask j
vb_apply term_unknown mask j = mask j

-- A character in front of the first token.
unfoldable pub put_char : ℕ → List Bytes → List Bytes
put_char c [] = (c ∷ []) ∷ []
put_char c (t ∷ ts) = (c ∷ t) ∷ ts

-- The texts between the commas, with the empty ones.
unfoldable pub pieces : Bytes → List Bytes
unfolding put_char
pieces [] = [] ∷ []
pieces (c ∷ s) = let rest = pieces s in if c == b',' then [] ∷ rest else put_char c rest

-- The loop over the tokens: strtok skips the empty ones.
unfoldable pub vb_terms : List Bytes → Mask → Mask
unfolding vb_apply vb_term
vb_terms [] mask = mask
vb_terms ([] ∷ ts) mask = vb_terms ts mask
vb_terms ((c ∷ t) ∷ ts) mask = vb_terms ts (vb_apply (vb_term (c ∷ t)) mask)

-- `_vb_name2mask`, with its buffer of 1024 bytes.
unfoldable pub vb_name2mask : Bytes → Mask
unfolding vb_terms pieces with_bit
vb_name2mask list = vb_terms (pieces (snprintf 1024 list)) (with_bit 0 (λ j. false))
