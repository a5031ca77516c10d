-- ===== src/Pn/Canon/Idempotent.antt =====
-- A canonical path is its own canonical form.
use mathlib.Core.List.{append-nil, append_assoc}
use audited_objects.Prelude.{
  subst, All-append, All-imp, ◌⊎◌, ℕ, ◌≡◌, ◌≢◌, refl, sym, ◌∙◌, ap, true, List, [], ◌∷◌, ◌++◌,
  Bytes, length, arith, ok, Lacks, All, inl, inr, ◌+◌, ◌≤◌,
}
use audited_objects.Pn.Canon.{is_sep, dst_sep, path_canon}
use audited_objects.Pn.Canon.Refine.{components-IsSplit, path_canon-resolve}
use audited_objects.Pn.Canon.Resolve.{
  Kind, empty, dot, dotdot, name, kind, outer, walk, dir_text, last_text, resolve_from, components,
  resolve, IsPlain, IsSplit,
}

-- A component that is kept.
abbrev IsName : Bytes → Type 0
IsName n = (kind n ≡ name) × All IsPlain n

-- `dir_text` behind the slash of the root.
below_root : List Bytes → Bytes
below_root [] = []
below_root (n ∷ dirs) = below_root dirs ++ (n ++ (dst_sep ∷ []))

dir_text-below_root : (dirs : List Bytes) → dir_text dirs ≡ dst_sep ∷ below_root dirs
unfolding dir_text below_root
dir_text-below_root [] = refl
dir_text-below_root (n ∷ dirs) = ap (λ t. t ++ (n ++ (dst_sep ∷ []))) (dir_text-below_root dirs)

components_plain : (c : Bytes) → All IsPlain c → components c ≡ (c, [])
unfolding components
components_plain [] p = refl
components_plain (x ∷ c) p = rw (p.0) (rw (components_plain c p.1))

components_name :
    (n t : Bytes)
    → All IsPlain n
    → components (n ++ (dst_sep ∷ t)) ≡ (n, (dst_sep, (components t).0) ∷ (components t).1)
unfolding components
components_name [] t p = unfold is_sep in refl
components_name (x ∷ n) t p = rw (p.0) (rw (components_name n t p.1))

resolve_into :
    (n : Bytes) (z : ℕ) (dirs : List Bytes) (d : Bytes) (cs : List (ℕ × Bytes))
    → kind n ≡ name
    → resolve_from dirs n ((z, d) ∷ cs) ≡ resolve_from (n ∷ dirs) d cs
unfolding resolve_from walk
resolve_into n z dirs d cs e = ap (λ k. resolve_from (walk k n dirs) d cs) e

-- Resolving the text of directories walks back into them.
resolve_below_root :
    (dirs : List Bytes) (t : Bytes)
    → All IsName dirs
    → (let (c, cs) = components (below_root dirs ++ t) in resolve_from [] c cs)
      ≡ (let (c, cs) = components t in resolve_from dirs c cs)
unfolding below_root
resolve_below_root [] t p = refl
resolve_below_root (n ∷ dirs) t p = rw (append_assoc (below_root dirs) (n ++ (dst_sep ∷ [])) t) (
    rw (append_assoc n (dst_sep ∷ []) t) (
      resolve_below_root dirs (n ++ (dst_sep ∷ t)) p.1
      ∙ rw (components_name n t p.0.1) (resolve_into n dst_sep dirs _ _ p.0.0)))

-- What a resolution comes to: directories, and a last name or none.
record IsShape (text : Bytes) : Type 0 where
  dirs : List Bytes
  last : Bytes
  is_text : text ≡ dir_text dirs ++ last
  names : All IsName dirs
  last_name : (last ≡ []) ⊎ IsName last

IsShape-dir : (dirs : List Bytes) → All IsName dirs → IsShape (dir_text dirs)
IsShape-dir dirs ps = record {
  dirs = dirs;
  last = [];
  is_text = sym (append-nil (dir_text dirs));
  names = ps;
  last_name = inl refl;
}

walk-IsName :
    (k : Kind) (c : Bytes) (dirs : List Bytes)
    → kind c ≡ k
    → All IsPlain c
    → All IsName dirs
    → All IsName (walk k c dirs)
unfolding walk outer
walk-IsName empty c dirs e p ps = ps
walk-IsName dot c dirs e p ps = ps
walk-IsName dotdot c [] e p ps = tt
walk-IsName dotdot c (n ∷ dirs) e p ps = ps.1
walk-IsName name c dirs e p ps = ((e, p), ps)

IsShape-last :
    (k : Kind) (c : Bytes) (dirs : List Bytes)
    → kind c ≡ k
    → All IsPlain c
    → All IsName dirs
    → IsShape (last_text k c dirs)
unfolding last_text
IsShape-last empty c dirs e p ps = IsShape-dir dirs ps
IsShape-last dot c dirs e p ps = IsShape-dir dirs ps
IsShape-last dotdot c dirs e p ps =
    IsShape-dir (outer dirs) (unfold walk in walk-IsName dotdot c dirs e p ps)
IsShape-last name c dirs e p ps = record {
  dirs = dirs;
  last = c;
  is_text = refl;
  names = ps;
  last_name = inr (e, p);
}

resolve-IsShape :
    (c : Bytes) (cs : List (ℕ × Bytes)) (dirs : List Bytes)
    → IsSplit c cs
    → All IsName dirs
    → IsShape (resolve_from dirs c cs)
unfolding resolve_from
resolve-IsShape c [] dirs p ps = IsShape-last (kind c) c dirs refl p ps
resolve-IsShape c ((z, d) ∷ cs) dirs p ps =
    resolve-IsShape d cs (walk (kind c) c dirs) p.3 (walk-IsName (kind c) c dirs refl p.0 ps)

resolve_last :
    (dirs : List Bytes) (l : Bytes)
    → (l ≡ []) ⊎ IsName l
    → (let (c, cs) = components l in resolve_from dirs c cs) ≡ dir_text dirs ++ l
resolve_last dirs l (inl e) =
    rw e (unfold components resolve_from kind last_text in sym (append-nil (dir_text dirs)))
resolve_last dirs l (inr n) = rw (components_plain l n.1) (unfold resolve_from last_text in rw n.0)

-- The text below the root of a canonical path resolves to that path.
resolve_again :
    (text : Bytes) → IsShape text → (s : Bytes) × (text ≡ dst_sep ∷ s) × (resolve s ≡ text)
unfolding resolve
resolve_again text h =
    let s = below_root h.dirs ++ h.last in
    (
      s,
      h.is_text ∙ ap (λ t. t ++ h.last) (dir_text-below_root h.dirs),
      resolve_below_root h.dirs h.last h.names
          ∙ (resolve_last h.dirs h.last h.last_name ∙ sym h.is_text),
    )

plain_Lacks : (c : Bytes) → All IsPlain c → Lacks 0 c
plain_Lacks c p = All-imp IsPlain (λ x. x ≢ 0) (λ x h. unfold is_sep in ground (arith, h)) c p

dir_text-Lacks : (dirs : List Bytes) → All IsName dirs → Lacks 0 (dir_text dirs)
unfolding dir_text
dir_text-Lacks [] p = (omega arith, tt)
dir_text-Lacks (n ∷ dirs) p =
    All-append (λ x. x ≢ 0) (dir_text dirs) (n ++ (dst_sep ∷ [])) (dir_text-Lacks dirs p.1)
      (All-append (λ x. x ≢ 0) n (dst_sep ∷ []) (plain_Lacks n p.0.1) (omega arith, tt))

last-Lacks : (l : Bytes) → (l ≡ []) ⊎ IsName l → Lacks 0 l
last-Lacks l (inl e) = rw e tt
last-Lacks l (inr n) = plain_Lacks l n.1

-- A resolved path is "/" and a text that resolves to it.
pub resolve_idem :
    (s : Bytes)
    → Lacks 0 s
    → (t : Bytes) × (resolve s ≡ dst_sep ∷ t) × Lacks 0 t × (resolve t ≡ resolve s)
resolve_idem s l =
    let (c, cs) = components s in
    let shape : IsShape (resolve s) =
      unfold resolve in resolve-IsShape c cs [] (components-IsSplit s l) tt in
    let (t, text, again) = resolve_again (resolve s) shape in
    let none_nul : Lacks 0 (resolve s) =
      subst (λ u. Lacks 0 u) (sym shape.is_text)
        (All-append (λ x. x ≢ 0) (dir_text shape.dirs) shape.last
          (dir_text-Lacks shape.dirs shape.names) (last-Lacks shape.last shape.last_name)) in
    (t, text, (rw text at none_nul).1, again)

-- _pn_path_canon is idempotent on absolute paths: if the path starts with a separator, has no NUL in
-- it, and the buffer has room for it and for one byte more, then canonicalising what was left in the
-- buffer, in a buffer of just that length and its NUL, changes nothing.
pub path_canon_idem :
    (size sep : ℕ) (s out : Bytes)
    → is_sep sep ≡ true
    → sep ≢ 0
    → Lacks 0 s
    → length s + 2 ≤ size
    → path_canon size (sep ∷ s) ≡ ok out
    → path_canon (length out + 1) out ≡ ok out
path_canon_idem size sep s out h ne l room e =
    let (t, text, none_nul, again) = resolve_idem s l in
    let same : out ≡ resolve s = cc (e, path_canon-resolve size sep s h ne l room) in
    rw same (
      rw text (
        path_canon-resolve (length (dst_sep ∷ t) + 1) dst_sep t (unfold is_sep in refl)
          (omega arith) none_nul (omega arith)
        ∙ ap ok (again ∙ text)))
