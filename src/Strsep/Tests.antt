-- ===== src/Strsep/Tests.antt =====
-- Fields, on examples.
use audited_objects.Prelude.{
  ◌≡◌, refl, some, none, Bytes, codes, arith, All, List, Lacks, [], ok, null, contains,
}
use audited_objects.Strsep.{fs1, strsep, strsep_scan}
use audited_objects.Strsep.Fields.{split, join, split-join}

tokens :
    (strsep (some (codes "a,b,")) fs1 ≡ ok (codes "a", some (codes "b,")))
    × (strsep (some (codes "")) fs1 ≡ ok ([], none))
    × (strsep none fs1 ≡ null)
unfolding strsep strsep_scan contains
tokens = (refl, refl, refl)

split-join_example :
    (toks : List Bytes) × (split b',' 5 (some (codes "a,,b")) ≡ ok toks)
    × (join b',' toks ≡ some (codes "a,,b"))
    × All (Lacks b',') toks
split-join_example = split-join b',' 5 (some (codes "a,,b")) (omega arith)
