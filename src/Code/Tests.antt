-- ===== src/Code/Tests.antt =====
-- Tests of the model of src/code.c, and instances of its theorems.
use audited_objects.Prelude.{
  ◌≡◌, ◌≢◌, refl, [], ◌∷◌, ◌++◌, none, some, Bytes, codes, arith, replicate, ok,
}
use audited_objects.Prelude.Int.{negsuc}
use audited_objects.Radix.Scan.{strtoll}
use audited_objects.Code.{armag, clear_archive_file}
use audited_objects.Code.Zip.{done, crash, clear_zip_file, file_header_signature, cd_end_signature}
use audited_objects.Code.Size.{Ends}
use audited_objects.Code.Ends.{clear_zip_file-Ends}
use audited_objects.Code.Members.{Member, IsMember, print_members, cleared_members}
use audited_objects.Code.Buffer.{code_from_buffer}
use audited_objects.Code.Stamps.{code_from_buffer-contents, code_from_buffer-ne-none}

abbrev object_of : Bytes → Member
object_of date = record {
  name = codes "foo.o/          ";
  meta = date ++ codes "0     0     100644  ";
  size = codes "4         `\n";
  body = codes "abcd";
}

abbrev monday : Member
monday = object_of (codes "1300000000  ")

abbrev tuesday : Member
tuesday = object_of (codes "1300086400  ")

monday-IsMember : IsMember monday
unfolding strtoll
monday-IsMember = record {
  name_width = refl;
  meta_width = refl;
  size_width = refl;
  count = 3;
  says = λ rest. refl;
  body_width = refl;
}

tuesday-IsMember : IsMember tuesday
unfolding strtoll
tuesday-IsMember = record {
  name_width = refl;
  meta_width = refl;
  size_width = refl;
  count = 3;
  says = λ rest. refl;
  body_width = refl;
}

-- A size of -60 goes back to the header, where the size has been cleared.
backwards : Bytes
backwards = armag ++ (replicate 48 32 ++ codes "-60       `\n")

goes_back :
    clear_archive_file 3 backwards
    ≡ some (ok (negsuc 0, armag ++ (replicate 16 32 ++ replicate 44 0)))
unfolding clear_archive_file backwards
goes_back = refl

-- A zip file of one empty entry without a name, and the end of the directory.
abbrev entry : Bytes → Bytes → Bytes
entry stamp lengths =
    file_header_signature ++ (replicate 6 0 ++ (stamp ++ (replicate 12 0 ++ lengths)))

zip_file : Bytes → Bytes
zip_file stamp = entry stamp (replicate 4 0) ++ (cd_end_signature ++ replicate 18 0)

stamp_cleared :
    clear_zip_file 60 (record { before = []; left = zip_file (1 ∷ 2 ∷ 3 ∷ 4 ∷ []) })
    ≡ done tt (record { before = zip_file (replicate 4 0); left = [] })
unfolding clear_zip_file zip_file
stamp_cleared = refl

-- Extra data with a stamp that is longer than the file.
stamp_beyond :
    clear_zip_file 60 (record {
      before = [];
      left = entry (replicate 4 0) (0 ∷ 0 ∷ 100 ∷ 0 ∷ []) ++ (0x55 ∷ 0x54 ∷ 96 ∷ 0 ∷ 1 ∷ []);
    })
    ≡ crash
unfolding clear_zip_file
stamp_beyond = refl

code_from_buffer-contents_example :
    (code_from_buffer 2 (λ b. b) (armag ++ print_members (monday ∷ []))
      ≡ some (ok (armag ++ cleared_members (monday ∷ []))))
    × (code_from_buffer 2 (λ b. b) (armag ++ print_members (tuesday ∷ []))
        ≡ some (ok (armag ++ cleared_members (monday ∷ []))))
code_from_buffer-contents_example =
    code_from_buffer-contents (λ b. b) (monday ∷ []) (tuesday ∷ []) (monday-IsMember, tt)
      (tuesday-IsMember, tt) refl

code_from_buffer-ne-none_example : code_from_buffer 69 (λ b. b) backwards ≢ none
unfolding backwards
code_from_buffer-ne-none_example = code_from_buffer-ne-none (λ b. b) backwards

clear_zip_file-Ends_example :
    Ends 0
      (record { before = []; left = zip_file (1 ∷ 2 ∷ 3 ∷ 4 ∷ []) })
      (clear_zip_file 60 (record { before = []; left = zip_file (1 ∷ 2 ∷ 3 ∷ 4 ∷ []) }))
unfolding zip_file
clear_zip_file-Ends_example = clear_zip_file-Ends 60 (zip_file (1 ∷ 2 ∷ 3 ∷ 4 ∷ [])) (omega arith)
