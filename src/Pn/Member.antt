-- ===== src/Pn/Member.antt =====
-- Which paths are members of the project, and their relative names.
use audited_objects.Prelude.{
  All-append, ℕ, suc, ◌+◌, ◌≡◌, ◌≢◌, refl, ◌∙◌, ap, Bool, true, false, not, Option, none, some, [],
  ◌∷◌, ◌++◌, ◌==◌, if◌then◌else◌, Bytes, is_prefix, is_prefix-append, length, drop, ok, null, arith,
  Lacks,
}
use audited_objects.Pn.Canon.{path_canon, is_sep}
use audited_objects.Pn.Canon.Resolve.{resolve}
use audited_objects.Pn.Canon.Idempotent.{resolve_idem}
use audited_objects.Pn.Canon.Refine.{path_canon-resolve}
use audited_objects.Pn.{
  Pn, is_absolute, is_slash, leading_slashes, abs_to_project_relative_path, make_project_relative,
  absolute_path, new_from_abs, pn_new, pn_is_member, pn_get_abs, pn_get_rel, dot_if_empty,
}

drop-append : (xs ys : Bytes) → drop (length xs) (xs ++ ys) ≡ ys
drop-append [] ys = refl
drop-append (x ∷ xs) ys = drop-append xs ys

length-ne : (xs : Bytes) → xs ≢ [] → (length xs == 0) ≡ false
length-ne [] ne = absurd (ne refl)
length-ne (x ∷ xs) ne = ground arith

drop-drop : (xs ys : Bytes) (k : ℕ) → drop (length xs + k) (xs ++ ys) ≡ drop k ys
drop-drop [] ys k = ap (λ n. drop n ys) {x = 0 + k} {y = k} (omega arith)
drop-drop (x ∷ xs) ys k =
    ap (λ n. drop n (x ∷ (xs ++ ys))) {x = suc (length xs) + k} {y = suc (length xs + k)}
      (omega arith)
    ∙ drop-drop xs ys k

-- Behind the base directory, all slashes are passed over.
offset-append :
    (base t : Bytes)
    → base ≢ []
    → abs_to_project_relative_path base (base ++ t) ≡ length base + leading_slashes t
unfolding abs_to_project_relative_path
offset-append base t ne =
    rw (length-ne base ne) (
      rw (is_prefix-append base t) (ap (λ u. length base + leading_slashes u) (drop-append base t)))

-- With a base directory, the members are the paths whose text begins with that of the base
-- directory.
pub pn_is_member-is_prefix :
    (base path : Bytes) → base ≢ [] → pn_is_member (new_from_abs base path) ≡ is_prefix base path
unfolding pn_is_member new_from_abs abs_to_project_relative_path
pn_is_member-is_prefix base path ne = rw (length-ne base ne) (
    go (length base) (leading_slashes (drop (length base) path)) (is_prefix base path)
      (length-ne base ne))
  where
    go : (n k : ℕ) (b : Bool) → (n == 0) ≡ false → not ((if b then n + k else 0) == 0) ≡ b
    go n k true h = ground arith
    go n k false h = refl

-- So a file beside the base directory, in a directory whose name continues that of the base
-- directory, counts as a member; its relative name begins inside that directory's name.
pub pn_is_member_sibling :
    (base rest : Bytes) (c : ℕ)
    → base ≢ []
    → is_slash c ≡ false
    → (pn_is_member (new_from_abs base (base ++ (c ∷ rest))) ≡ true)
      × (pn_get_rel (new_from_abs base (base ++ (c ∷ rest))) ≡ c ∷ rest)
unfolding pn_get_rel new_from_abs
pn_is_member_sibling base rest c ne other = (
  pn_is_member-is_prefix base (base ++ (c ∷ rest)) ne ∙ is_prefix-append base (c ∷ rest),
  rw (offset-append base (c ∷ rest) ne) (
      rw (drop-drop base (c ∷ rest) (leading_slashes (c ∷ rest)))
        (unfold leading_slashes dot_if_empty in rw other)),
)

-- A relative path that can be a member's name: not empty, and no slash first.
abbrev pub IsRelative : Bytes → Type 0
IsRelative [] = ⊥
IsRelative (c ∷ rel) = is_slash c ≡ false

leading_slashes_relative : (rel : Bytes) → IsRelative rel → leading_slashes (b'/' ∷ rel) ≡ 1
unfolding leading_slashes
leading_slashes_relative [] r = absurd r
leading_slashes_relative (c ∷ rel) r = rw r

make_project_relative_lem :
    (base rel : Bytes) → IsRelative rel → make_project_relative base rel ≡ base ++ (b'/' ∷ rel)
unfolding make_project_relative
make_project_relative_lem base [] r = absurd r
make_project_relative_lem base (c ∷ rel) r =
    let other : (c == b'/') ≡ false = ground (arith, r) in rw other

dot_if_empty_relative : (rel : Bytes) → IsRelative rel → dot_if_empty rel ≡ rel
unfolding dot_if_empty
dot_if_empty_relative [] r = absurd r
dot_if_empty_relative (c ∷ rel) r = refl

pn_get_rel_member :
    (base rel : Bytes)
    → base ≢ []
    → IsRelative rel
    → pn_get_rel (new_from_abs base (base ++ (b'/' ∷ rel))) ≡ rel
unfolding pn_get_rel new_from_abs
pn_get_rel_member base rel ne r = rw (offset-append base (b'/' ∷ rel) ne) (
    rw (drop-drop base (b'/' ∷ rel) (leading_slashes (b'/' ∷ rel)))
      (rw (leading_slashes_relative rel r) (dot_if_empty_relative rel r)))

pn_new_member :
    (base : Bytes) (cwd : Option Bytes) (rel : Bytes)
    → IsRelative rel
    → pn_new base cwd rel false ≡ ok (new_from_abs base (base ++ (b'/' ∷ rel)))
unfolding pn_new
pn_new_member base cwd rel r =
    ap (λ p. ok (new_from_abs base p)) (make_project_relative_lem base rel r)

-- A relative name of a file in the project: pn_new takes it below the base directory, and the new
-- path name is a member whose relative name is that name.
pub pn_get_rel-pn_new :
    (base : Bytes) (cwd : Option Bytes) (rel : Bytes)
    → base ≢ []
    → IsRelative rel
    → (pn : Pn) × (pn_new base cwd rel false ≡ ok pn)
      × (pn_get_abs pn ≡ base ++ (b'/' ∷ rel))
      × (pn_is_member pn ≡ true)
      × (pn_get_rel pn ≡ rel)
pn_get_rel-pn_new base cwd rel ne r =
    let abs = base ++ (b'/' ∷ rel) in
    (
      new_from_abs base abs,
      pn_new_member base cwd rel r,
      unfold pn_get_abs new_from_abs in refl,
      pn_is_member-is_prefix base abs ne ∙ is_prefix-append base (b'/' ∷ rel),
      pn_get_rel_member base rel ne r,
    )

-- A path name that pn_new, called with its relative name, makes again.
pub data IsStable (base : Bytes) (pn : Pn) : Type 0 where
  member :
      (rel : Bytes)
      → base ≢ []
      → IsRelative rel
      → pn ≡ new_from_abs base (base ++ (b'/' ∷ rel))
      → IsStable base pn
  outside :
      (path : Bytes)
      → is_prefix base (b'/' ∷ path) ≡ false
      → pn ≡ new_from_abs base (b'/' ∷ path)
      → IsStable base pn

pn_get_rel_outside :
    (base path : Bytes)
    → is_prefix base (b'/' ∷ path) ≡ false
    → pn_get_rel (new_from_abs base (b'/' ∷ path)) ≡ b'/' ∷ path
unfolding pn_get_rel new_from_abs
pn_get_rel_outside base path no_prefix =
    let none : abs_to_project_relative_path base (b'/' ∷ path) ≡ 0 =
      unfold abs_to_project_relative_path in ground (arith, no_prefix) in
    rw none (unfold dot_if_empty in refl)

-- Two kinds of path names survive being stored by their relative names, as the server stores them:
-- that of a relative name below a base directory that is not empty, by the name in the project, and
-- that of an absolute path whose text does not start with that of the base directory, by its absolute
-- path. The base directory itself is neither, nor is a sibling whose name goes on from that of the
-- base directory.
pub pn_new-pn_get_rel :
    (base : Bytes) (cwd : Option Bytes) (pn : Pn)
    → IsStable base pn
    → pn_new base cwd (pn_get_rel pn) false ≡ ok pn
pn_new-pn_get_rel base cwd pn (member rel ne r e) =
    rw e (rw (pn_get_rel_member base rel ne r) (pn_new_member base cwd rel r))
pn_new-pn_get_rel base cwd pn (outside path no_prefix e) =
    rw e (rw (pn_get_rel_outside base path no_prefix) (unfold pn_new make_project_relative in refl))

absolute_path_absolute :
    (cwd : Option Bytes) (path : Bytes) → absolute_path cwd (b'/' ∷ path) ≡ ok (b'/' ∷ path)
unfolding absolute_path is_absolute
absolute_path_absolute none path = refl
absolute_path_absolute (some cwd) path = refl

canon_absolute :
    (path : Bytes)
    → Lacks 0 path
    → path_canon (length (b'/' ∷ path) + 1) (b'/' ∷ path) ≡ ok (resolve path)
canon_absolute path l =
    path_canon-resolve (length (b'/' ∷ path) + 1) b'/' path (unfold is_sep in refl) (omega arith) l
      (omega arith)

-- pn_new of an absolute path resolves it, whatever the working directory.
pub pn_new_absolute :
    (base : Bytes) (cwd : Option Bytes) (path : Bytes)
    → Lacks 0 path
    → pn_new base cwd (b'/' ∷ path) true ≡ ok (new_from_abs base (resolve path))
unfolding pn_new
pn_new_absolute base cwd path l = rw (absolute_path_absolute cwd path) (rw (canon_absolute path l))

-- The path of a path name that pn_new has resolved makes the same path name.
pub pn_new_resolved :
    (base : Bytes) (cwd : Option Bytes) (path : Bytes)
    → Lacks 0 path
    → pn_new base cwd (resolve path) true ≡ ok (new_from_abs base (resolve path))
pn_new_resolved base cwd path l =
    let (t, text, none_nul, again) = resolve_idem path l in
    rw text
      (pn_new_absolute base cwd t none_nul ∙ ap (λ p. ok (new_from_abs base p)) (again ∙ text))

-- pn_new of a relative path resolves it within the working directory, and fails if that is unknown.
pub pn_new_relative :
    (base cwd path : Bytes)
    → is_absolute path ≡ false
    → Lacks 0 cwd
    → Lacks 0 path
    → (pn_new base (some (b'/' ∷ cwd)) path true
        ≡ ok (new_from_abs base (resolve (cwd ++ (b'/' ∷ path)))))
      × (pn_new base none path true ≡ null)
unfolding pn_new
pn_new_relative base cwd path rel l l' = (
  rw rel (
      rw (
        canon_absolute (cwd ++ (b'/' ∷ path))
          (All-append (λ x. x ≢ 0) cwd (b'/' ∷ path) l (omega arith, l')))),
  rw rel,
)
