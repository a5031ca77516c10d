-- ===== src/Code.antt =====
-- src/code.c: the data code of a file is a hash of its contents, from which the time stamps of archives
-- (static libraries) and zip files are cleared first. A file is the list of its bytes, and the position
-- of a pointer into it a number; what is read or written outside ends the process. The loops run on
-- fuel: `none` is that they have not ended yet.
pub mod Members
pub mod Zip
pub mod Size
pub mod Ends
pub mod Stop
pub mod Buffer
pub mod Stamps
mod Tests
use audited_objects.Prelude.{
  ℕ, zero, suc, ◌+◌, ◌-◌, Bool, true, false, ltb, leb, ◌==◌, if◌then◌else◌, List, [], ◌∷◌, ◌++◌,
  Option, none, some, Bytes, codes, length, take, drop, replicate, is_prefix, Outcome, ok, abort,
}
use audited_objects.Prelude.Int.{ℤ, pos, negsuc, ◌+ℤ◌}
use audited_objects.Prelude.Word.{rem, neg}
use audited_objects.Radix.Scan.{strtoll}

-- ARMAG
abbrev pub armag : Bytes
armag = codes "!<arch>\n"

-- The sizes of `struct ar_hdr` of <ar.h>: of its name, of what precedes its size, and of the whole.
abbrev pub ar_name_size : ℕ
ar_name_size = 16

abbrev pub ar_size_offset : ℕ
ar_size_offset = 48

abbrev pub ar_hdr_size : ℕ
ar_hdr_size = 60

-- What a function that clears stamps comes to: its return code and the data.
abbrev pub Cleared : Type 0
Cleared = Option (Outcome (ℤ × Bytes))

-- `_code_is_archive_file`; the bytes behind a file that is shorter than ARMAG are taken to differ.
unfoldable pub is_archive_file : Bytes → Bool
unfolding is_prefix
is_archive_file buf = is_prefix armag buf

-- The memset over a header, but for its name.
unfoldable pub blank_header : Bytes → ℕ → Bytes
blank_header buf dot =
    take (dot + ar_name_size) buf
    ++ (replicate (ar_hdr_size - ar_name_size) 0 ++ drop (dot + ar_hdr_size) buf)

-- `size += size % 2`
unfoldable pub even_size : ℤ → ℤ
unfolding ◌+ℤ◌ rem neg
even_size size = size +ℤ rem size 2

-- `dot += sizeof(*hdr)` and `dot += size`, and the next round.
unfoldable pub archive_advance : (Bytes → ℕ → Cleared) → Bytes → ℕ → ℤ → Cleared
archive_advance next buf dot (pos n) = next buf (dot + ar_hdr_size + n)
archive_advance next buf dot (negsuc n) =
    if leb (suc n) (dot + ar_hdr_size) then next buf (dot + ar_hdr_size - suc n) else some abort

-- A member, by its size: `atol` of 0 is an error.
unfoldable pub archive_sized : (Bytes → ℕ → Cleared) → Bytes → ℕ → ℤ → Cleared
unfolding blank_header even_size archive_advance
archive_sized next buf dot (pos zero) = some (ok (negsuc 0, buf))
archive_sized next buf dot (pos (suc n)) =
    archive_advance next (blank_header buf dot) dot (even_size (pos (suc n)))
archive_sized next buf dot (negsuc n) =
    archive_advance next (blank_header buf dot) dot (even_size (negsuc n))

unfoldable pub archive_loop : ℕ → Bytes → ℕ → Cleared
unfolding archive_sized strtoll
archive_loop zero buf dot = none
archive_loop (suc f) buf dot =
    let member =
      archive_sized (archive_loop f) buf dot (strtoll 10 (drop (dot + ar_size_offset) buf)) in
    if ltb dot (length buf)
    then (if ltb (length buf) (dot + ar_hdr_size) then some abort else member)
    else some (ok (pos 0, buf))

-- `_code_clear_archive_file`
unfoldable pub clear_archive_file : ℕ → Bytes → Cleared
unfolding archive_loop
clear_archive_file f buf = archive_loop f buf (length armag)
