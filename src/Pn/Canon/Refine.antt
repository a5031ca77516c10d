-- ===== src/Pn/Canon/Refine.antt =====
-- The state machine computes the canonical form of its path.
use audited_objects.Prelude.{
  ℕ, ◌+◌, ◌*◌, ◌≤◌, ◌≡◌, ◌≢◌, refl, ◌∙◌, ap, subst, true, ◌&&◌, List, [], ◌∷◌, ◌++◌, ◌==◌, Bytes,
  length, length-append, arith, ok, Lacks, All, Bool-cases, inl, inr,
}
use audited_objects.Pn.Canon.{
  start, separator, normal, dot1, stop, is_sep, rev_onto, back, step, path_canon, dst_sep,
}
use audited_objects.Pn.Canon.Run.{Run, stopped, gone, canon_loop-Run}
use audited_objects.Pn.Canon.Resolve.{
  IsSplit, Kind, empty, dot, dotdot, name, kind, outer, walk, dir_text, last_text, resolve_from,
  source_text, components, resolve, IsPlain,
}
use audited_objects.Pn.Canon.Buffer.{render, text_render, text_last, parent-render}
use audited_objects.Pn.Canon.Rounds.{Run-named, Run-dot, Run-dotdot}

abbrev HasKind : Kind → Bytes → Type 0
HasKind empty c = c ≡ []
HasKind dot c = c ≡ b'.' ∷ []
HasKind dotdot c = c ≡ b'.' ∷ b'.' ∷ []
HasKind name c = kind c ≡ name

kind-HasKind : (c : Bytes) → HasKind (kind c) c
unfolding kind
kind-HasKind [] = refl
kind-HasKind (a ∷ []) = elim (Bool-cases (a == b'.')) [
  | inl e ↦ rw e (ground (arith, e))
  | inr e ↦ rw e (rw e)
]
kind-HasKind (a ∷ b ∷ []) = elim (Bool-cases (a == b'.' && b == b'.')) [
  | inl e ↦ rw e (ground (arith, e))
  | inr e ↦ rw e (rw e)
]
kind-HasKind (a ∷ b ∷ c ∷ s) = refl

-- The NUL behind a separator, or behind the directories of a resolved component.
Run-end : (dirs : List Bytes) → Run separator (0 ∷ []) (render dirs) (dir_text dirs)
Run-end dirs =
    let e : step separator 0 [] (render dirs) ≡ stop (dir_text dirs) =
      unfold step in ap stop (text_render dirs) in
    stopped e

-- A further separator is passed over.
Run-skip :
    (z : ℕ) {src dst text : Bytes}
    → is_sep z ≡ true
    → z ≢ 0
    → Run separator src dst text
    → Run separator (z ∷ src) dst text
Run-skip z {src} {dst} h ne r =
    gone separator z src dst separator src dst (unfold step in ground (arith, h, ne)) r

-- The last component, by its kind.
Run-last :
    (k : Kind) (c : Bytes) (dirs : List Bytes)
    → HasKind k c
    → All IsPlain c
    → All (All IsPlain) dirs
    → Run separator (c ++ (0 ∷ [])) (render dirs) (last_text k c dirs)
unfolding last_text
Run-last empty c dirs h p ps = rw h (Run-end dirs)
Run-last dot c dirs h p ps =
    let e : step dot1 0 [] (b'.' ∷ render dirs) ≡ stop (dir_text dirs) =
      unfold step back in ap stop (text_render dirs) in
    rw h (
      gone separator b'.' (0 ∷ []) (render dirs) dot1 (0 ∷ []) (b'.' ∷ render dirs)
        (unfold step is_sep in refl) (stopped e))
Run-last dotdot c dirs h p ps = rw h (
    Run-dotdot 0 {src = []} (unfold is_sep in refl)
      (rw (parent-render dirs ps) (Run-end (outer dirs))))
Run-last name c dirs h p ps =
    let e : step normal 0 [] (rev_onto c (render dirs)) ≡ stop (dir_text dirs ++ c) =
      unfold step in ap stop (text_last c dirs) in
    Run-named c h p (stopped e)

-- A component that is followed by a separator, by its kind.
Run-walk :
    (k : Kind) (c : Bytes) (z : ℕ) (dirs : List Bytes) {src text : Bytes}
    → HasKind k c
    → All IsPlain c
    → All (All IsPlain) dirs
    → is_sep z ≡ true
    → z ≢ 0
    → Run separator src (render (walk k c dirs)) text
    → Run separator (c ++ (z ∷ src)) (render dirs) text
unfolding walk
Run-walk empty c z dirs h p ps hz ne r = rw h (Run-skip z hz ne r)
Run-walk dot c z dirs h p ps hz ne r = rw h (Run-dot z hz ne (Run-skip z hz ne r))
Run-walk dotdot c z dirs h p ps hz ne r =
    rw h (Run-dotdot z hz (rw (parent-render dirs ps) (Run-skip z hz ne r)))
Run-walk name c z dirs {src} h p ps hz ne r = Run-named c h p (
    gone normal z src (rev_onto c (render dirs)) separator src (render (c ∷ dirs))
      (unfold step render in ground (arith, hz, ne)) r)

walk-IsPlain :
    (k : Kind) (c : Bytes) (dirs : List Bytes)
    → All IsPlain c
    → All (All IsPlain) dirs
    → All (All IsPlain) (walk k c dirs)
unfolding walk outer
walk-IsPlain empty c dirs p ps = ps
walk-IsPlain dot c dirs p ps = ps
walk-IsPlain dotdot c [] p ps = tt
walk-IsPlain dotdot c (n ∷ dirs) p ps = ps.1
walk-IsPlain name c dirs p ps = (p, ps)

Run-resolve :
    (c : Bytes) (cs : List (ℕ × Bytes)) (dirs : List Bytes)
    → IsSplit c cs
    → All (All IsPlain) dirs
    → Run separator (source_text c cs) (render dirs) (resolve_from dirs c cs)
unfolding resolve_from source_text
Run-resolve c [] dirs p ps = Run-last (kind c) c dirs (kind-HasKind c) p ps
Run-resolve c ((z, d) ∷ cs) dirs p ps =
    Run-walk (kind c) c z dirs (kind-HasKind c) p.0 ps p.1 p.2
      (Run-resolve d cs (walk (kind c) c dirs) p.3 (walk-IsPlain (kind c) c dirs p.0 ps))

source_text-cons :
    (x : ℕ) (c : Bytes) (cs : List (ℕ × Bytes)) → source_text (x ∷ c) cs ≡ x ∷ source_text c cs
unfolding source_text
source_text-cons x c [] = refl
source_text-cons x c ((z, d) ∷ cs) = refl

IsSplit-cons :
    (x : ℕ) (c : Bytes) (cs : List (ℕ × Bytes)) → IsPlain x → IsSplit c cs → IsSplit (x ∷ c) cs
IsSplit-cons x c [] e p = (e, p)
IsSplit-cons x c ((z, d) ∷ cs) e p = ((e, p.0), p.1, p.2, p.3)

source_text-components :
    (s : Bytes) → let (c, cs) = components s in source_text c cs ≡ s ++ (0 ∷ [])
unfolding components source_text
source_text-components [] = refl
source_text-components (x ∷ s) = elim (Bool-cases (is_sep x)) [
  | inl e ↦ rw e (ap (λ t. x ∷ t) (source_text-components s))
  | inr e ↦ rw e (
      source_text-cons x (components s).0 (components s).1
      ∙ ap (λ t. x ∷ t) (source_text-components s))
]

pub components-IsSplit : (s : Bytes) → Lacks 0 s → let (c, cs) = components s in IsSplit c cs
unfolding components
components-IsSplit [] l = tt
components-IsSplit (x ∷ s) l = elim (Bool-cases (is_sep x)) [
  | inl e ↦ rw e (tt, e, l.0, components-IsSplit s l.1)
  | inr e ↦ rw e (IsSplit-cons x (components s).0 (components s).1 e (components-IsSplit s l.1))
]

-- _pn_path_canon of an absolute path: it returns, within the fuel and the buffer, and what it
-- leaves in the buffer is the path with its components resolved: no empty one, no "." and no ".."
-- but those that go above the root, which stay at it.
pub path_canon-resolve :
    (size sep : ℕ) (s : Bytes)
    → is_sep sep ≡ true
    → sep ≢ 0
    → Lacks 0 s
    → length s + 2 ≤ size
    → path_canon size (sep ∷ s) ≡ ok (resolve s)
unfolding path_canon resolve
path_canon-resolve size sep s h ne l room =
    let (c, cs) = components s in
    let r : Run separator (s ++ (0 ∷ [])) (dst_sep ∷ []) (resolve_from [] c cs) =
      subst (λ t. Run separator t (dst_sep ∷ []) (resolve_from [] c cs)) (source_text-components s)
        (unfold render in Run-resolve c cs [] (components-IsSplit s l) tt) in
    let first : Run start (sep ∷ (s ++ (0 ∷ []))) [] (resolve_from [] c cs) =
      gone start sep (s ++ (0 ∷ [])) [] separator (s ++ (0 ∷ [])) (dst_sep ∷ []) (rw h) r in
    canon_loop-Run (2 * length (sep ∷ s) + 3) size first (omega (arith, length-append s (0 ∷ [])))
      (omega (arith, length-append s (0 ∷ [])))
