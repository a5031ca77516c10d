-- ===== src/Pn/Tests.antt =====
-- Path names, on examples.
use audited_objects.Prelude.{
  ◌≡◌, ◌+◌, ◌++◌, refl, true, false, none, Bytes, codes, arith, ok, null, contains, contains-Lacks,
  length, ◌∷◌,
}
use audited_objects.Pn.{Pn, pn_new, pn_get_abs, pn_get_rel, pn_is_member, new_from_abs}
use audited_objects.Pn.Canon.{
  path_canon, canon_loop, step, step_separator, back, back_up, parent, rev_onto, is_sep,
}
use audited_objects.Pn.Canon.Resolve.{
  resolve, kind, walk, outer, dir_text, last_text, resolve_from, components,
}
use audited_objects.Pn.Canon.Refine.{path_canon-resolve}
use audited_objects.Pn.Canon.Idempotent.{path_canon_idem}
use audited_objects.Pn.Member.{IsStable, member, pn_get_rel-pn_new, pn_new-pn_get_rel}

abbrev base : Bytes
base = codes "/p"

abbrev dotted : Bytes
dotted = codes "a/../b//."

canonical :
    (path_canon 20 (codes "/a/./b/../..//c") ≡ ok (codes "/c"))
    × (path_canon 20 (codes "/../.x/y/") ≡ ok (codes "/.x/y/"))
    × (path_canon 3 (codes "/abc") ≡ null)
    × (path_canon 11 (b'/' ∷ dotted) ≡ ok (codes "/b/"))
unfolding path_canon canon_loop step step_separator back back_up parent rev_onto is_sep
canonical = (refl, refl, refl, refl)

resolved : resolve (codes "a/./b/../..//c") ≡ codes "/c"
unfolding resolve kind walk outer dir_text last_text resolve_from components is_sep
resolved = refl

path_canon-resolve_example : path_canon 11 (b'/' ∷ dotted) ≡ ok (resolve dotted)
path_canon-resolve_example =
    path_canon-resolve 11 b'/' dotted (unfold is_sep in refl) (omega arith)
      (contains-Lacks 0 dotted (unfold contains in refl)) (omega arith)

path_canon_idem_example : path_canon (length (codes "/b/") + 1) (codes "/b/") ≡ ok (codes "/b/")
path_canon_idem_example =
    path_canon_idem 11 b'/' dotted (codes "/b/") (unfold is_sep in refl) (omega arith)
      (contains-Lacks 0 dotted (unfold contains in refl)) (omega arith) (canonical.3)

pn_get_rel-pn_new_example :
    (pn : Pn) × (pn_new base none (codes "x") false ≡ ok pn)
    × (pn_get_abs pn ≡ base ++ codes "/x")
    × (pn_is_member pn ≡ true)
    × (pn_get_rel pn ≡ codes "x")
pn_get_rel-pn_new_example = pn_get_rel-pn_new base none (codes "x") (ground arith) refl

abbrev file : Pn
file = new_from_abs base (base ++ codes "/x")

file-IsStable : IsStable base file
file-IsStable = member (codes "x") (ground arith) refl refl

pn_new-pn_get_rel_example : pn_new base none (pn_get_rel file) false ≡ ok file
pn_new-pn_get_rel_example = pn_new-pn_get_rel base none file file-IsStable
