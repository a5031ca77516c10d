-- ===== src/Code/Stamps.antt =====
-- The data code of a static library does not depend on its time stamps (src/code.c).
use audited_objects.Prelude.{
  suc, ◌≡◌, ◌≢◌, refl, sym, ap, ap₂, ◌∙◌, List, [], ◌∷◌, ◌++◌, none, some, Bytes, All, length, map,
  arith, ok, null, abort, Bool-cases, inl, inr, replicate,
}
use audited_objects.Code.{armag, Cleared, is_archive_file}
use audited_objects.Code.Zip.{Scan, Run, done, bad, crash, unfinished, is_zip_file}
use audited_objects.Code.Size.{Ends}
use audited_objects.Code.Ends.{clear_zip_file-Ends}
use audited_objects.Code.Stop.{clear_archive_file-ne-none}
use audited_objects.Code.Members.{
  Member, IsMember, print_members, cleared_members, clear_archive_file-cleared,
}
use audited_objects.Code.Buffer.{code_of_archive, code_of_zip, code_from_buffer}

-- What of a member stays.
abbrev pub contents : Member → Bytes × Bytes
contents m = (m.name, m.body)

cleared_members-contents :
    (ms ms' : List Member)
    → map contents ms ≡ map contents ms'
    → cleared_members ms ≡ cleared_members ms'
cleared_members-contents [] [] e = refl
cleared_members-contents [] (m ∷ ms) e = cc
cleared_members-contents (m ∷ ms) [] e = cc
cleared_members-contents (m ∷ ms) (m' ∷ ms') e =
    let n : m.name ≡ m'.name = cc in
    let b : m.body ≡ m'.body = cc in
    ap₂ (λ x y. x ++ y) (ap₂ (λ x y. x ++ (replicate 44 0 ++ y)) n b)
      (cleared_members-contents ms ms' (cc))

-- The code of a well-formed archive.
code_of_members :
    (hash : Bytes → Bytes) (ms : List Member)
    → All IsMember ms
    → code_from_buffer (suc (length ms)) hash (armag ++ print_members ms)
      ≡ some (ok (hash (armag ++ cleared_members ms)))
unfolding code_from_buffer is_archive_file
code_of_members hash ms ws = ap (code_of_archive hash) (clear_archive_file-cleared ms ws)

-- Two archives whose members are well-formed and not empty, and have the same names and contents, in
-- the same order, have the same data code, whatever the dates, owners and modes in their headers: that
-- of the archive with nothing but the names and the contents. (At an empty member the clearing stops,
-- in front of its header.)
pub code_from_buffer-contents :
    (hash : Bytes → Bytes) (ms ms' : List Member)
    → All IsMember ms
    → All IsMember ms'
    → map contents ms ≡ map contents ms'
    → (code_from_buffer (suc (length ms)) hash (armag ++ print_members ms)
        ≡ some (ok (hash (armag ++ cleared_members ms))))
      × (code_from_buffer (suc (length ms')) hash (armag ++ print_members ms')
          ≡ some (ok (hash (armag ++ cleared_members ms))))
code_from_buffer-contents hash ms ms' ws ws' e = (
  code_of_members hash ms ws,
  code_of_members hash ms' ws'
      ∙ ap (λ b. some (ok (hash (armag ++ b)))) (sym (cleared_members-contents ms ms' e)),
)

archive-ne-none : (hash : Bytes → Bytes) (r : Cleared) → r ≢ none → code_of_archive hash r ≢ none
unfolding code_of_archive
archive-ne-none hash none h e = h refl
archive-ne-none hash (some (ok it)) h e = cc
archive-ne-none hash (some null) h e = cc
archive-ne-none hash (some abort) h e = cc

zip-ne-none :
    (hash : Bytes → Bytes) (s : Scan) (r : Run (Unit {0})) → Ends 0 s r → code_of_zip hash r ≢ none
unfolding code_of_zip
zip-ne-none hash s (done a s') h e = cc
zip-ne-none hash s (bad s') h e = cc
zip-ne-none hash s crash h e = cc
zip-ne-none hash s unfinished h e = h

-- code_from_buffer ends for every file, within one round more than the file has bytes.
pub code_from_buffer-ne-none :
    (hash : Bytes → Bytes) (buf : Bytes) → code_from_buffer (suc (length buf)) hash buf ≢ none
unfolding code_from_buffer
code_from_buffer-ne-none hash [] = λ e. cc
code_from_buffer-ne-none hash (b ∷ buf) = elim (Bool-cases (is_archive_file (b ∷ buf))) [
  | inl ar ↦ rw ar (archive-ne-none hash _ (clear_archive_file-ne-none (b ∷ buf)))
  | inr other ↦ rw other (elim (Bool-cases (is_zip_file (b ∷ buf))) [
    | inl zip ↦ rw zip (
        zip-ne-none hash (record { before = []; left = b ∷ buf }) _
          (clear_zip_file-Ends (suc (length (b ∷ buf))) (b ∷ buf) (omega arith)))
    | inr plain ↦ rw plain (λ e. cc)
  ])
]
