-- ===== src/Pn/Canon.antt =====
-- The state machine _pn_path_canon of src/pn.c, as pn_new calls it: both slashes separate in the
-- source, and '/' in the destination.
pub mod Run
pub mod Resolve
pub mod Buffer
pub mod Rounds
pub mod Refine
pub mod Idempotent
use audited_objects.Prelude.{
  ℕ, zero, suc, ◌+◌, ◌*◌, Bool, true, false, ◌&&◌, ◌||◌, List, [], ◌∷◌, ◌++◌, ltb, ◌==◌,
  if◌then◌else◌, Bytes, codes, contains, length, Outcome, ok, null, abort,
}

abbrev pub dst_sep : ℕ
dst_sep = b'/'

-- `strchr(srcsep, c)`, which finds the NUL as well.
unfoldable pub is_sep : ℕ → Bool
is_sep c = c == b'\\' || c == b'/' || c == 0

-- ST_START to ST_DOT2
pub data Mode : Type 0 where
  start separator normal dot1 dot2 : Mode

-- What one round of the loop does: it returns, with that text in the buffer, or goes on in a mode,
-- with what is left of the source and what is written, the last byte first.
pub data Next : Type 0 where
  stop : Bytes → Next
  go : Mode → Bytes → Bytes → Next

-- `xs` reversed, in front of `ys`.
unfoldable pub rev_onto : Bytes → Bytes → Bytes
rev_onto [] ys = ys
rev_onto (x ∷ xs) ys = rev_onto xs (x ∷ ys)

-- `dst--`
unfoldable pub back : Bytes → Bytes
back [] = []
back (x ∷ dst) = dst

-- The do-while loop of ST_DOT2: back to the separator in front of the last directory.
unfoldable pub back_up : Bytes → Bytes
back_up [] = []
back_up (x ∷ []) = []
back_up (x ∷ y ∷ dst) = let more = back_up (y ∷ dst) in if y == dst_sep then y ∷ dst else more

-- ST_DOT2 behind `dst -= 2`: nothing is taken from the start of the buffer, or from its root.
unfoldable pub parent : Bytes → Bytes
unfolding back_up
parent [] = []
parent (x ∷ []) = x ∷ []
parent (x ∷ y ∷ dst) = back_up (x ∷ y ∷ dst)

unfoldable pub step_separator : ℕ → Bytes → Bytes → Next
step_separator c src dst =
    if c == 0
    then stop (rev_onto dst [])
    else if is_sep c
    then go separator src dst
    else if c == b'.'
    then go dot1 src (c ∷ dst)
    else go normal src (c ∷ dst)

-- One round, at the character `c` of the source.
unfoldable pub step : Mode → ℕ → Bytes → Bytes → Next
unfolding step_separator
step start c src dst =
    if is_sep c then go separator src (dst_sep ∷ dst) else step_separator c src dst
step separator c src dst = step_separator c src dst
step normal c src dst =
    if c == 0
    then stop (rev_onto dst [])
    else if is_sep c
    then go separator src (dst_sep ∷ dst)
    else go normal src (c ∷ dst)
step dot1 c src dst =
    if c == 0
    then stop (rev_onto (back dst) [])
    else if is_sep c
    then go separator (c ∷ src) (back dst)
    else if c == b'.'
    then go dot2 src (c ∷ dst)
    else go normal src (c ∷ dst)
step dot2 c src dst =
    if c == 0 || is_sep c
    then go separator (c ∷ src) (parent (back (back dst)))
    else go normal src (c ∷ dst)

-- The loop, while there is source left and room in the buffer of `size` bytes; past it the function
-- returns -1: `null`. The fuel running out is `abort`.
unfoldable pub canon_loop : ℕ → ℕ → Mode → Bytes → Bytes → Outcome Bytes
canon_loop zero size mode src dst = abort
canon_loop (suc fuel) size mode [] dst = null
canon_loop (suc fuel) size mode (c ∷ src) dst =
    let rest : Outcome Bytes = elim (step mode c src dst) [
      | stop text ↦ ok text
      | go mode' src' dst' ↦ canon_loop fuel size mode' src' dst'
    ] in
    if ltb (length dst) size then rest else null

-- `_pn_path_canon(src, slim, dst, dlim, "\\/", '/')` on a source that runs to its NUL, and a
-- buffer of `size` bytes. Two rounds for each byte of the source and one more are enough.
unfoldable pub path_canon : ℕ → Bytes → Outcome Bytes
unfolding canon_loop step is_sep back back_up parent rev_onto
path_canon size src = canon_loop (2 * length src + 3) size start (src ++ (0 ∷ [])) []
