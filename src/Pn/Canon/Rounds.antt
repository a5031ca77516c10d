-- ===== src/Pn/Canon/Rounds.antt =====
-- The rounds of the loop over one component.
use audited_objects.Prelude.{
  ℕ, ◌≡◌, ◌≢◌, refl, true, [], ◌∷◌, ◌++◌, ◌==◌, Bytes, arith, All, Bool-cases, inl, inr,
}
use audited_objects.Pn.Canon.{separator, normal, dot1, dot2, is_sep, rev_onto, back, parent, step}
use audited_objects.Pn.Canon.Run.{Run, gone}
use audited_objects.Pn.Canon.Resolve.{name, kind, IsPlain}

pub plain_ne : {c : ℕ} → IsPlain c → c ≢ 0
unfolding is_sep
plain_ne p = ground (arith, p)

-- The rounds over the bytes of a name.
pub Run-name :
    (n : Bytes) {src dst text : Bytes}
    → All IsPlain n
    → Run normal src (rev_onto n dst) text
    → Run normal (n ++ src) dst text
unfolding rev_onto
Run-name [] p r = r
Run-name (c ∷ n) {src} {dst} p r =
    gone normal c (n ++ src) dst normal (n ++ src) (c ∷ dst)
      (unfold step in ground (arith, p.0, plain_ne p.0)) (Run-name n p.1 r)

pub Run-dot2_name :
    (n : Bytes) {src dst text : Bytes}
    → All IsPlain n
    → n ≢ []
    → Run normal src (rev_onto n dst) text
    → Run dot2 (n ++ src) dst text
unfolding rev_onto
Run-dot2_name [] p ne r = absurd (ne refl)
Run-dot2_name (c ∷ n) {src} {dst} p ne r =
    gone dot2 c (n ++ src) dst normal (n ++ src) (c ∷ dst)
      (unfold step in ground (arith, p.0, plain_ne p.0)) (Run-name n p.1 r)

pub Run-dot1_name :
    (n : Bytes) {src dst text : Bytes}
    → All IsPlain n
    → n ≢ []
    → n ≢ b'.' ∷ []
    → Run normal src (rev_onto n dst) text
    → Run dot1 (n ++ src) dst text
unfolding rev_onto
Run-dot1_name [] p ne nd r = absurd (ne refl)
Run-dot1_name (c ∷ n) {src} {dst} p ne nd r = elim (Bool-cases (c == b'.')) [
  | inl isdot ↦
      gone dot1 c (n ++ src) dst dot2 (n ++ src) (c ∷ dst)
        (unfold step in ground (arith, p.0, plain_ne p.0, isdot))
        (Run-dot2_name n p.1 (λ e. nd (ground (arith, e, isdot))) r)
  | inr other ↦
      gone dot1 c (n ++ src) dst normal (n ++ src) (c ∷ dst)
        (unfold step in ground (arith, p.0, plain_ne p.0, other)) (Run-name n p.1 r)
]

pub kind_tail :
    (c : ℕ) (n : Bytes) → kind (c ∷ n) ≡ name → c == b'.' ≡ true → (n ≢ []) × (n ≢ b'.' ∷ [])
unfolding kind
kind_tail c [] k e = ground arith
kind_tail c (b ∷ []) k e = ground arith
kind_tail c (b ∷ d ∷ s) k e = ground arith

-- A component that is a name is copied.
pub Run-named :
    (n : Bytes) {src dst text : Bytes}
    → kind n ≡ name
    → All IsPlain n
    → Run normal src (rev_onto n dst) text
    → Run separator (n ++ src) dst text
unfolding rev_onto
Run-named [] k p r = unfold kind in cc
Run-named (c ∷ n) {src} {dst} k p r = elim (Bool-cases (c == b'.')) [
  | inl isdot ↦
      gone separator c (n ++ src) dst dot1 (n ++ src) (c ∷ dst)
        (unfold step in ground (arith, p.0, plain_ne p.0, isdot))
        (Run-dot1_name n p.1 (kind_tail c n k isdot).0 (kind_tail c n k isdot).1 r)
  | inr other ↦
      gone separator c (n ++ src) dst normal (n ++ src) (c ∷ dst)
        (unfold step in ground (arith, p.0, plain_ne p.0, other)) (Run-name n p.1 r)
]

-- "." is dropped, and ".." goes back to the parent.
pub Run-dot :
    (z : ℕ) {src dst text : Bytes}
    → is_sep z ≡ true
    → z ≢ 0
    → Run separator (z ∷ src) dst text
    → Run separator (b'.' ∷ z ∷ src) dst text
Run-dot z {src} {dst} h ne r =
    gone separator b'.' (z ∷ src) dst dot1 (z ∷ src) (b'.' ∷ dst) (unfold step is_sep in refl) (
      gone dot1 z src (b'.' ∷ dst) separator (z ∷ src) dst
        (unfold step back in ground (arith, h, ne)) r)

pub Run-dotdot :
    (z : ℕ) {src dst text : Bytes}
    → is_sep z ≡ true
    → Run separator (z ∷ src) (parent dst) text
    → Run separator (b'.' ∷ b'.' ∷ z ∷ src) dst text
Run-dotdot z {src} {dst} h r =
    gone separator b'.' (b'.' ∷ z ∷ src) dst dot1 (b'.' ∷ z ∷ src) (b'.' ∷ dst)
      (unfold step is_sep in refl)
      (gone dot1 b'.' (z ∷ src) (b'.' ∷ dst) dot2 (z ∷ src) (b'.' ∷ b'.' ∷ dst)
        (unfold step is_sep in refl)
        (gone dot2 z src (b'.' ∷ b'.' ∷ dst) separator (z ∷ src) (parent dst)
          (unfold step back in ground (arith, h)) r))
