-- ===== src/Code/Stop.antt =====
-- The clearing of an archive in src/code.c ends, also where the size of a member is negative and the
-- pointer goes back.
use audited_objects.Prelude.{
  ℕ, zero, suc, ◌+◌, ◌≤◌, ◌<◌, ◌≡◌, ◌≢◌, refl, sym, ap, ◌∙◌, ltb, leb, ◌==◌, if◌then◌else◌, [], ◌∷◌,
  ◌++◌, none, Bytes, length, take, drop, replicate, take-append-drop, arith, Bool-cases, inl, inr,
}
use audited_objects.Prelude.Int.{ℤ, pos, negsuc}
use audited_objects.Radix.Scan.{strtoll}
use audited_objects.Code.{
  armag, blank_header, archive_advance, archive_sized, archive_loop, clear_archive_file,
}

-- The number of the bytes that are not 0.
nonzero : Bytes → ℕ
nonzero [] = 0
nonzero (x ∷ s) = let rest = nonzero s in if x == 0 then rest else rest + 1

nonzero-append : (a b : Bytes) → nonzero (a ++ b) ≡ nonzero a + nonzero b
unfolding nonzero
nonzero-append [] b = omega arith
nonzero-append (x ∷ a) b = ground (arith, nonzero-append a b)

nonzero-zeros : (n : ℕ) → nonzero (replicate n 0) ≡ 0
unfolding nonzero
nonzero-zeros zero = refl
nonzero-zeros (suc n) = nonzero-zeros n

nonzero-le : (s : Bytes) → nonzero s ≤ length s
unfolding nonzero
nonzero-le [] = omega arith
nonzero-le (x ∷ s) = ground (arith, nonzero-le s)

nonzero-drop : (k : ℕ) (s : Bytes) → nonzero (drop k s) ≤ nonzero s
unfolding nonzero
nonzero-drop zero s = omega arith
nonzero-drop (suc k) [] = omega arith
nonzero-drop (suc k) (x ∷ s) = ground (arith, nonzero-drop k s)

drop_nil : (k : ℕ) → drop {A = ℕ} k [] ≡ []
drop_nil zero = refl
drop_nil (suc k) = refl

drop-drop : (a b : ℕ) (s : Bytes) → drop (a + b) s ≡ drop b (drop a s)
drop-drop zero b s = ap (λ k. drop k s) (omega arith)
drop-drop (suc a) b [] = drop_nil (suc a + b) ∙ sym (drop_nil b)
drop-drop (suc a) b (x ∷ s) =
    let e : suc a + b ≡ suc (a + b) = omega arith in ap (λ k. drop k (x ∷ s)) e ∙ drop-drop a b s

-- A text whose number is not 0 begins with another byte than NUL.
strtoll_head : (s : Bytes) → strtoll 10 s ≢ pos 0 → (c : ℕ) × (t : Bytes) × (s ≡ c ∷ t) × (c ≢ 0)
unfolding strtoll
strtoll_head [] h = absurd (h refl)
strtoll_head (zero ∷ s) h = absurd (h refl)
strtoll_head (suc c ∷ s) h = (suc c, s, refl, omega arith)

-- Where a size other than 0 is read, the header loses a byte that is not 0.
nonzero-blank_header :
    (buf : Bytes) (dot : ℕ)
    → strtoll 10 (drop (dot + 48) buf) ≢ pos 0
    → nonzero (blank_header buf dot) < nonzero buf
unfolding blank_header
nonzero-blank_header buf dot h =
    let (c, t, e, ne) = strtoll_head (drop (dot + 48) buf) h in
    omega (
      arith,
      nonzero-append (take (dot + 16) buf) (replicate 44 0 ++ drop (dot + 60) buf),
      nonzero-append (replicate 44 0) (drop (dot + 60) buf),
      nonzero-zeros 44,
      nonzero-append (take (dot + 16) buf) (drop (dot + 16) buf),
      ap nonzero (take-append-drop (dot + 16) buf),
      nonzero-drop 32 (drop (dot + 16) buf),
      ap nonzero (drop_to 16 32),
      ap nonzero e,
      counted c t ne,
      ap nonzero (drop_to 48 12),
      ap (λ s. nonzero (drop 12 s)) e,
      nonzero-drop 11 t,
    )
  where
    drop_to : (a b : ℕ) → drop (dot + (a + b)) buf ≡ drop b (drop (dot + a) buf)
    drop_to a b = ap (λ k. drop k buf) (omega arith) ∙ drop-drop (dot + a) b buf

    counted : (c : ℕ) (t : Bytes) → c ≢ 0 → nonzero (c ∷ t) ≡ nonzero t + 1
    counted c t ne = unfold nonzero in ground (arith, ne)

module _ (f : ℕ)
    (ends : (buf : Bytes) (dot : ℕ) → nonzero buf < f → archive_loop f buf dot ≢ none) where
  advance-ne-none :
      (buf : Bytes) (dot : ℕ) (size : ℤ)
      → nonzero buf < f
      → archive_advance (archive_loop f) buf dot size ≢ none
  unfolding archive_advance
  advance-ne-none buf dot (pos n) h = ends buf _ h
  advance-ne-none buf dot (negsuc n) h = elim (Bool-cases (leb (suc n) (dot + 60))) [
    | inl inside ↦ rw inside (ends buf _ h)
    | inr outside ↦ rw outside (λ e. cc)
  ]

  sized-ne-none :
      (buf : Bytes) (dot : ℕ) (size : ℤ)
      → (size ≢ pos 0 → nonzero (blank_header buf dot) < f)
      → archive_sized (archive_loop f) buf dot size ≢ none
  unfolding archive_sized
  sized-ne-none buf dot (pos zero) h = λ e. cc
  sized-ne-none buf dot (pos (suc n)) h = advance-ne-none (blank_header buf dot) dot _ (h (λ e. cc))
  sized-ne-none buf dot (negsuc n) h = advance-ne-none (blank_header buf dot) dot _ (h (λ e. cc))

archive_loop-ne-none :
    (f : ℕ) (buf : Bytes) (dot : ℕ) → nonzero buf < f → archive_loop f buf dot ≢ none
unfolding archive_loop
archive_loop-ne-none zero buf dot h = absurd (omega arith)
archive_loop-ne-none (suc f) buf dot h = elim (Bool-cases (ltb dot (length buf))) [
  | inl more ↦ rw more (elim (Bool-cases (ltb (length buf) (dot + 60))) [
    | inl short ↦ rw short (λ e. cc)
    | inr whole ↦ rw whole (
        sized-ne-none f (archive_loop-ne-none f) buf dot (strtoll 10 (drop (dot + 48) buf))
          (λ ne. omega (arith, nonzero-blank_header buf dot ne, h)))
  ])
  | inr over ↦ rw over (λ e. cc)
]

-- _code_clear_archive_file ends, within one round more than the file has bytes, whatever the bytes are:
-- each round but the last clears a size that was not 0.
pub clear_archive_file-ne-none : (buf : Bytes) → clear_archive_file (suc (length buf)) buf ≢ none
unfolding clear_archive_file
clear_archive_file-ne-none buf =
    archive_loop-ne-none (suc (length buf)) buf (length armag) (omega (arith, nonzero-le buf))
