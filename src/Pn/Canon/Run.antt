-- ===== src/Pn/Canon/Run.antt =====
-- The rounds of the loop as a relation, and that the fuel and the buffer suffice for them.
use audited_objects.Prelude.{
  ℕ, zero, suc, ◌+◌, ◌*◌, ◌≤◌, ◌<◌, ◌≡◌, [], ◌∷◌, Bytes, length, ltb, arith, ok,
}
use audited_objects.Pn.Canon.{
  true, Mode, start, separator, normal, dot1, dot2, stop, go, is_sep, back, back_up, parent, step,
  canon_loop,
}

-- From this mode, source and buffer the loop returns with the text.
pub data Run : Mode → Bytes → Bytes → Bytes → Type 0 where
  stopped :
      {mode : Mode} {c : ℕ} {src dst text : Bytes}
      → step mode c src dst ≡ stop text
      → Run mode (c ∷ src) dst text
  gone :
      {text : Bytes} (mode : Mode) (c : ℕ) (src dst : Bytes) (mode' : Mode) (src' dst' : Bytes)
      → step mode c src dst ≡ go mode' src' dst'
      → Run mode' src' dst' text
      → Run mode (c ∷ src) dst text

-- Each round takes a byte of the source, or leaves a mode that has read a dot.
abbrev weight : Mode → ℕ
weight dot1 = 1
weight dot2 = 1
weight _ = 0

abbrev pub rounds : Mode → Bytes → ℕ
rounds mode src = 2 * length src + weight mode

length-back_up : (dst : Bytes) → length (back_up dst) ≤ length dst
unfolding back_up
length-back_up [] = omega arith
length-back_up (x ∷ []) = omega arith
length-back_up (x ∷ y ∷ dst) = ground (arith, length-back_up (y ∷ dst))

length-parent : (dst : Bytes) → length (parent dst) ≤ length dst
unfolding parent
length-parent [] = omega arith
length-parent (x ∷ []) = omega arith
length-parent (x ∷ y ∷ dst) = length-back_up (x ∷ y ∷ dst)

length-back : (dst : Bytes) → length (back dst) ≤ length dst
unfolding back
length-back [] = omega arith
length-back (x ∷ dst) = omega arith

-- A round makes progress, and writes no more than it takes from the source.
step_bounds :
    (mode mode' : Mode) (c : ℕ) (src dst src' dst' : Bytes)
    → step mode c src dst ≡ go mode' src' dst'
    → (rounds mode' src' < rounds mode (c ∷ src))
      × (length dst' + length src' ≤ length dst + suc (length src))
unfolding step is_sep
step_bounds start mode' c src dst src' dst' e = ground arith
step_bounds separator mode' c src dst src' dst' e = ground arith
step_bounds normal mode' c src dst src' dst' e = ground arith
step_bounds dot1 mode' c src dst src' dst' e = ground (arith, length-back dst)
step_bounds dot2 mode' c src dst src' dst' e =
    ground (arith, length-back dst, length-back (back dst), length-parent (back (back dst)))

-- With more fuel than rounds, and a buffer for what is written and the rest of the source, the loop
-- returns that text.
pub canon_loop-Run :
    {mode : Mode} {src dst text : Bytes} (fuel size : ℕ)
    → Run mode src dst text
    → rounds mode src < fuel
    → length dst + length src ≤ size
    → canon_loop fuel size mode src dst ≡ ok text
unfolding canon_loop
canon_loop-Run zero size r enough room = absurd (omega arith)
canon_loop-Run {dst = dst} (suc fuel) size (stopped {src = src} e) enough room =
    let fits : ltb (length dst) size ≡ true = ground (arith, room) in rw fits (rw e)
canon_loop-Run (suc fuel) size (gone mode c src dst mode' src' dst' e r) enough room =
    let fits : ltb (length dst) size ≡ true = ground (arith, room) in
    let (fewer, shorter) = step_bounds mode mode' c src dst src' dst' e in
    rw fits (rw e (canon_loop-Run fuel size r (omega arith) (omega arith)))
