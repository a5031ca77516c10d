-- ===== src/Code/Buffer.antt =====
-- code_from_buffer of src/code.c: the stamps of an archive or a zip file are cleared, and what there is
-- then is hashed. The hash (_code_hash2str, by the SHA-1 of sha1.c or the CRC-32 of zlib) is an
-- argument. The timestamps of Windows files are not modelled, and warnings are not either.
use audited_objects.Prelude.{
  ℕ, if◌then◌else◌, [], ◌∷◌, ◌++◌, Option, none, some, Bytes, Outcome, ok, null, abort,
}
use audited_objects.Code.{Cleared, is_archive_file, clear_archive_file}
use audited_objects.Code.Zip.{Run, done, bad, crash, unfinished, clear_zip_file, is_zip_file}

-- The hash of an archive that has been cleared, whatever the return code.
unfoldable pub code_of_archive : (Bytes → Bytes) → Cleared → Option (Outcome Bytes)
code_of_archive hash none = none
code_of_archive hash (some (ok it)) = some (ok (hash it.1))
code_of_archive hash (some null) = some null
code_of_archive hash (some abort) = some abort

unfoldable pub code_of_zip : (Bytes → Bytes) → Run (Unit {0}) → Option (Outcome Bytes)
code_of_zip hash (done a s) = some (ok (hash (s.before ++ s.left)))
code_of_zip hash (bad s) = some (ok (hash (s.before ++ s.left)))
code_of_zip hash crash = some abort
code_of_zip hash unfinished = none

-- `code_from_buffer`
unfoldable pub code_from_buffer : ℕ → (Bytes → Bytes) → Bytes → Option (Outcome Bytes)
unfolding is_archive_file clear_archive_file code_of_archive is_zip_file clear_zip_file code_of_zip
code_from_buffer f hash [] = some (ok (hash []))
code_from_buffer f hash (b ∷ buf) =
    if is_archive_file (b ∷ buf)
    then code_of_archive hash (clear_archive_file f (b ∷ buf))
    else if is_zip_file (b ∷ buf)
    then code_of_zip hash (clear_zip_file f (record { before = []; left = b ∷ buf }))
    else some (ok (hash (b ∷ buf)))
