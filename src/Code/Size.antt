-- ===== src/Code/Size.antt =====
-- What the steps of the clearing of a zip file do to its bytes (src/code.c).
use audited_objects.Prelude.{
  ℕ, zero, suc, ◌+◌, ◌≤◌, ◌≡◌, refl, sym, ap, subst, ◌∙◌, Bool, true, false, ltb, if◌then◌else◌, [],
  ◌∷◌, ◌++◌, Bytes, length, take, drop, replicate, take-append-drop, length-drop, arith, Bool-cases,
  ◌⊎◌, inl, inr,
}
use mathlib.Core.List.{append_assoc}
use audited_objects.Code.Zip.{
  Scan, Run, done, bad, crash, unfinished, M, then_run, ◌>>=◌, return, fail, advance, peek, clear,
}

-- The second text has a 0, or the same byte, wherever the first has a byte.
abbrev pub Blanked : Bytes → Bytes → Type 0
Blanked [] [] = Unit
Blanked [] (y ∷ ys) = ⊥
Blanked (x ∷ xs) [] = ⊥
Blanked (x ∷ xs) (y ∷ ys) = ((y ≡ x) ⊎ (y ≡ 0)) × Blanked xs ys

Blanked-same : (xs : Bytes) → Blanked xs xs
Blanked-same [] = tt
Blanked-same (x ∷ xs) = (inl refl, Blanked-same xs)

Blanked-then : (xs ys zs : Bytes) → Blanked xs ys → Blanked ys zs → Blanked xs zs
Blanked-then [] [] zs h k = k
Blanked-then [] (y ∷ ys) zs h k = absurd h
Blanked-then (x ∷ xs) [] zs h k = absurd h
Blanked-then (x ∷ xs) (y ∷ ys) [] h k = absurd k
Blanked-then (x ∷ xs) (y ∷ ys) (z ∷ zs) h k =
    (ground (arith, h.0, k.0), Blanked-then xs ys zs h.1 k.1)

Blanked-append : (a a' b b' : Bytes) → Blanked a a' → Blanked b b' → Blanked (a ++ b) (a' ++ b')
Blanked-append [] [] b b' h k = k
Blanked-append [] (y ∷ a') b b' h k = absurd h
Blanked-append (x ∷ a) [] b b' h k = absurd h
Blanked-append (x ∷ a) (y ∷ a') b b' h k = (h.0, Blanked-append a a' b b' h.1 k)

Blanked-zeros : (n : ℕ) (s : Bytes) → n ≤ length s → Blanked s (replicate n 0 ++ drop n s)
Blanked-zeros zero s h = Blanked-same s
Blanked-zeros (suc n) [] h = absurd (omega arith)
Blanked-zeros (suc n) (x ∷ s) h = (inr refl, Blanked-zeros n s (omega arith))

Blanked-clear :
    (off n : ℕ) (s : Bytes)
    → off + n ≤ length s
    → Blanked s (take off s ++ (replicate n 0 ++ drop (off + n) s))
Blanked-clear zero n s h =
    let e : n ≡ 0 + n = omega arith in
    subst (λ k. Blanked s (replicate n 0 ++ drop k s)) e (Blanked-zeros n s (omega arith))
Blanked-clear (suc off) n [] h = absurd (omega arith)
Blanked-clear (suc off) n (x ∷ s) h =
    let e : suc (off + n) ≡ suc off + n = omega arith in
    (
      inl refl,
      subst (λ k. Blanked s (take off s ++ (replicate n 0 ++ drop k (x ∷ s)))) e
          (Blanked-clear off n s (omega arith)),
    )

pub length-Blanked : (xs ys : Bytes) → Blanked xs ys → length ys ≡ length xs
length-Blanked [] [] h = refl
length-Blanked [] (y ∷ ys) h = absurd h
length-Blanked (x ∷ xs) [] h = absurd h
length-Blanked (x ∷ xs) (y ∷ ys) h = ap suc (length-Blanked xs ys h.1)

-- All the bytes of the file.
abbrev pub all_bytes : Scan → Bytes
all_bytes s = s.before ++ s.left

-- The function has returned (unless it crashed), and left the bytes as they were, but for zeros; at
-- least `n` of them are no longer left, if it did not fail.
abbrev pub Ends : {A : Type 0} → ℕ → Scan → Run A → Type 0
Ends n s (done a s') = Blanked (all_bytes s) (all_bytes s') × (length s'.left + n ≤ length s.left)
Ends n s (bad s') = Blanked (all_bytes s) (all_bytes s')
Ends n s crash = Unit
Ends n s unfinished = ⊥

abbrev pub Keeps : {A : Type 0} → ℕ → M A → Type 0
Keeps n m = (s : Scan) → Ends n s (m s)

join-Ends :
    {A : Type 0} (k l : ℕ) (s s' : Scan) (r : Run A)
    → Blanked (all_bytes s) (all_bytes s')
    → length s'.left + k ≤ length s.left
    → Ends l s' r
    → Ends (k + l) s r
join-Ends k l s s' (done b t) h le e =
    (Blanked-then (all_bytes s) (all_bytes s') (all_bytes t) h e.0, omega (arith, e.1))
join-Ends k l s s' (bad t) h le e = Blanked-then (all_bytes s) (all_bytes s') (all_bytes t) h e
join-Ends k l s s' crash h le e = tt
join-Ends k l s s' unfinished h le e = absurd e

pub then-Ends :
    {A B : Type 0} (k l : ℕ) (s : Scan) (r : Run A) (f : A → M B)
    → Ends k s r
    → ((a : A) (s' : Scan) → length s'.left + k ≤ length s.left → Ends l s' (f a s'))
    → Ends (k + l) s (then_run r f)
then-Ends k l s (done a s') f h g = join-Ends k l s s' (f a s') h.0 h.1 (g a s' h.1)
then-Ends k l s (bad s') f h g = h
then-Ends k l s crash f h g = tt
then-Ends k l s unfinished f h g = absurd h

pub bind-Keeps :
    {A B : Type 0} (k l : ℕ) (m : M A) (f : A → M B)
    → Keeps k m
    → ((a : A) → Keeps l (f a))
    → Keeps (k + l) (m >>= f)
bind-Keeps k l m f h g s = then-Ends k l s (m s) f (h s) (λ a s' _. g a s')

pub less-Ends : {A : Type 0} (k l : ℕ) (s : Scan) (r : Run A) → l ≤ k → Ends k s r → Ends l s r
less-Ends k l s (done a s') h e = (e.0, omega (arith, e.1))
less-Ends k l s (bad s') h e = e
less-Ends k l s crash h e = tt
less-Ends k l s unfinished h e = e

pub less-Keeps : {A : Type 0} (k l : ℕ) (m : M A) → l ≤ k → Keeps k m → Keeps l m
less-Keeps k l m h e s = less-Ends k l s (m s) h (e s)

pub return-Keeps : {A : Type 0} (a : A) → Keeps 0 (return a)
unfolding return
return-Keeps a s = (Blanked-same (all_bytes s), omega arith)

pub fail-Keeps : (A : Type 0) → Keeps 0 (fail {A = A})
unfolding fail
fail-Keeps A s = Blanked-same (all_bytes s)

pub if-Keeps :
    {A : Type 0} (k : ℕ) (b : Bool) (m n : M A)
    → Keeps k m
    → Keeps k n
    → Keeps k (if b then m else n)
if-Keeps k true m n h g = h
if-Keeps k false m n h g = g

pub test-Keeps :
    {A : Type 0} (k : ℕ) (b : Bool) (m n : M A)
    → (b ≡ true → Keeps k m)
    → (b ≡ false → Keeps k n)
    → Keeps k (if b then m else n)
test-Keeps k true m n h g = h refl
test-Keeps k false m n h g = g refl

pub advance-Keeps : (n : ℕ) → Keeps n (advance n)
unfolding advance
advance-Keeps n s = elim (Bool-cases (ltb (length s.left) n)) [
  | inl short ↦ rw short (Blanked-same (all_bytes s))
  | inr whole ↦
      let e : (s.before ++ take n s.left) ++ drop n s.left ≡ s.before ++ s.left =
        append_assoc s.before (take n s.left) (drop n s.left)
        ∙ ap (λ l. s.before ++ l) (take-append-drop n s.left) in
      rw whole (
        subst (λ l. Blanked (all_bytes s) l) (sym e) (Blanked-same (all_bytes s)),
        ground (arith, length-drop n s.left),
      )
]

pub skip-Keeps : (n : ℕ) → Keeps 0 (advance n)
skip-Keeps n = less-Keeps n 0 (advance n) (omega arith) (advance-Keeps n)

pub peek-Keeps : (off n : ℕ) → Keeps 0 (peek off n)
unfolding peek
peek-Keeps off n s = elim (Bool-cases (ltb (length s.left) (off + n))) [
  | inl short ↦ rw short tt
  | inr whole ↦ rw whole (Blanked-same (all_bytes s), omega arith)
]

pub clear-Keeps : (off n : ℕ) → Keeps 0 (clear off n)
unfolding clear
clear-Keeps off n s = elim (Bool-cases (ltb (length s.left) (off + n))) [
  | inl short ↦ rw short tt
  | inr whole ↦
      let b = Blanked-clear off n s.left (ground (arith, whole)) in
      rw whole (
        Blanked-append s.before s.before s.left _ (Blanked-same s.before) b,
        omega (arith, length-Blanked _ _ b),
      )
]
