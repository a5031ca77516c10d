-- ===== src/Pn/Canon/Buffer.antt =====
-- The text in the buffer while directories are walked, and how the parent is cut from it.
use mathlib.Core.List.{append-nil, append_assoc}
use audited_objects.Prelude.{
  ℕ, ◌≡◌, refl, sym, ◌∙◌, ap, false, List, [], ◌∷◌, ◌++◌, ◌==◌, Bytes, arith, All,
}
use audited_objects.Pn.Canon.{is_sep, rev_onto, back_up, parent, dst_sep}
use audited_objects.Pn.Canon.Resolve.{outer, dir_text, IsPlain}

-- The buffer, last byte first, in ST_SEPARATOR within these directories.
unfoldable pub render : List Bytes → Bytes
render [] = dst_sep ∷ []
render (n ∷ dirs) = dst_sep ∷ rev_onto n (render dirs)

pub rev_onto-rev_onto : (n d e : Bytes) → rev_onto (rev_onto n d) e ≡ rev_onto d (n ++ e)
unfolding rev_onto
rev_onto-rev_onto [] d e = refl
rev_onto-rev_onto (c ∷ n) d e = rev_onto-rev_onto n (c ∷ d) e

pub rev_onto-append : (d e : Bytes) → rev_onto d e ≡ rev_onto d [] ++ e
unfolding rev_onto
rev_onto-append [] e = refl
rev_onto-append (c ∷ d) e =
    rev_onto-append d (c ∷ e)
    ∙ (sym (append_assoc (rev_onto d []) (c ∷ []) e)
        ∙ ap (λ t. t ++ e) (sym (rev_onto-append d (c ∷ []))))

-- The text of the buffer.
pub text_render : (dirs : List Bytes) → rev_onto (render dirs) [] ≡ dir_text dirs
unfolding render rev_onto dir_text
text_render [] = refl
text_render (n ∷ dirs) =
    rev_onto-rev_onto n (render dirs) (dst_sep ∷ [])
    ∙ (rev_onto-append (render dirs) (n ++ (dst_sep ∷ []))
        ∙ ap (λ t. t ++ (n ++ (dst_sep ∷ []))) (text_render dirs))

pub text_last :
    (n : Bytes) (dirs : List Bytes) → rev_onto (rev_onto n (render dirs)) [] ≡ dir_text dirs ++ n
text_last n dirs =
    rev_onto-rev_onto n (render dirs) []
    ∙ (rev_onto-append (render dirs) (n ++ [])
        ∙ (ap (λ t. rev_onto (render dirs) [] ++ t) (append-nil n)
            ∙ ap (λ t. t ++ n) (text_render dirs)))

-- Going back up stops at the separator behind the names of the outer directories.
pub back_up_plain :
    (x : ℕ) (r d : Bytes) → All IsPlain r → back_up (x ∷ (r ++ (dst_sep ∷ d))) ≡ dst_sep ∷ d
unfolding back_up is_sep
back_up_plain x [] d p = refl
back_up_plain x (y ∷ r) d p =
    let other : (y == dst_sep) ≡ false = ground (arith, p.0) in rw other (back_up_plain y r d p.1)

pub back_up_name :
    (x : ℕ) (n r d : Bytes)
    → All IsPlain n
    → All IsPlain r
    → back_up (x ∷ rev_onto n (r ++ (dst_sep ∷ d))) ≡ dst_sep ∷ d
unfolding rev_onto
back_up_name x [] r d p q = back_up_plain x r d q
back_up_name x (c ∷ n) r d p q = back_up_name x n (c ∷ r) d p.1 (p.0, q)

pub parent-back_up :
    (x : ℕ) (t d : Bytes) → back_up (x ∷ t) ≡ dst_sep ∷ d → parent (x ∷ t) ≡ dst_sep ∷ d
unfolding parent
parent-back_up x [] d e = cc
parent-back_up x (y ∷ t) d e = e

pub parent-render :
    (dirs : List Bytes) → All (All IsPlain) dirs → parent (render dirs) ≡ render (outer dirs)
unfolding render outer rev_onto
parent-render [] p = unfold parent in refl
parent-render (n ∷ []) p = parent-back_up _ _ _ (back_up_name dst_sep n [] [] p.0 tt)
parent-render (n ∷ m ∷ dirs) p = parent-back_up _ _ _ (back_up_name dst_sep n [] _ p.0 tt)
