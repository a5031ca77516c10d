-- ===== src/Code/Ends.antt =====
-- The clearing of a zip file in src/code.c ends, and blanks bytes only.
use audited_objects.Prelude.{
  ℕ, zero, suc, ◌+◌, ◌-◌, ◌^◌, ◌%◌, ◌<◌, Bool, true, false, not, ◌==◌, leb, ltb, if◌then◌else◌, [],
  Option, none, some, Bytes, length, drop, replicate, arith, Bool-cases, inl, inr, is_prefix,
}
use audited_objects.Code.Zip.{
  Scan, M, then_run, ◌>>=◌, return, fail, advance, peek, clear, starts, get_u16, get_u32, get_u64,
  Sizes, clear_stamps, clear_extra, clear_file_extra, find_descriptor, advance_to,
  skip_to_descriptor, skip_signature, has_descriptor, skip_contents, skip_descriptor,
  clear_one_file, clear_one_cd_file, entries, section, at_end, clear_zip_file,
  file_header_signature, cd_file_signature, archive_extra_data_signature, cd_signature_signature,
  cd_end_zip64_v1_signature, cd_end_locator_zip64_signature, cd_end_signature, eh_id_zip64,
  eh_id_ext_timestamp, file_descriptor_signature,
}
use audited_objects.Code.Size.{
  Ends, Keeps, then-Ends, bind-Keeps, less-Ends, less-Keeps, test-Keeps, return-Keeps, fail-Keeps,
  if-Keeps, advance-Keeps, skip-Keeps, peek-Keeps, clear-Keeps,
}

-- Two steps that may leave as much as there was.
bind_any :
    {A B : Type 0} (m : M A) (f : A → M B)
    → Keeps 0 m
    → ((a : A) → Keeps 0 (f a))
    → Keeps 0 (m >>= f)
bind_any m f h g = bind-Keeps 0 0 m f h g

clear_stamps-Keeps : (len : ℕ) → Keeps 0 (clear_stamps len)
unfolding clear_stamps
clear_stamps-Keeps zero = fail-Keeps (Unit {0})
clear_stamps-Keeps (suc len) =
    bind_any (advance 1) _ (skip-Keeps 1)
      (λ _. bind_any (clear 0 len) _ (clear-Keeps 0 len) (λ _. skip-Keeps len))

clear_extra-Keeps :
    (wanted : Bool) (id : Bytes) (len : ℕ) (z : Sizes) → Keeps 0 (clear_extra wanted id len z)
unfolding clear_extra
clear_extra-Keeps wanted id len z =
    if-Keeps 0 (is_prefix eh_id_zip64 id) _ _
      (bind_any (if wanted then peek 8 8 else return []) _
        (if-Keeps 0 wanted (peek 8 8) (return []) (peek-Keeps 8 8) (return-Keeps {A = Bytes} []))
        (λ size. bind_any (advance len) _ (skip-Keeps len) (λ _. return-Keeps {A = Sizes} (record {
          is_zip64 = true;
          compressed_size = if wanted then get_u64 size else z.compressed_size;
        }))))
      (if-Keeps 0 (is_prefix eh_id_ext_timestamp id) _ _
        (bind_any (clear_stamps len) _ (clear_stamps-Keeps len) (λ _. return-Keeps z))
        (bind_any (advance len) _ (skip-Keeps len) (λ _. return-Keeps z)))

-- One round for every four bytes of the extra data is enough.
clear_file_extra-Keeps :
    (f : ℕ) (wanted : Bool) (extra_len : ℕ) (z : Sizes)
    → extra_len < f
    → Keeps 0 (clear_file_extra f wanted extra_len z)
unfolding clear_file_extra
clear_file_extra-Keeps zero wanted extra_len z h = absurd (omega arith)
clear_file_extra-Keeps (suc f) wanted extra_len z h =
    test-Keeps 0 (leb 4 extra_len) _ _
      (λ more.
        (bind_any (peek 0 4) _ (peek-Keeps 0 4) (λ eh. bind_any (advance 4) _ (skip-Keeps 4) (λ _.
          if-Keeps 0 (ltb extra_len (4 + get_u16 (drop 2 eh))) fail _ (fail-Keeps Sizes) (
            bind_any (clear_extra wanted eh (get_u16 (drop 2 eh)) z) _
              (clear_extra-Keeps wanted eh (get_u16 (drop 2 eh)) z)
              (λ z'.
                clear_file_extra-Keeps f wanted (extra_len - (4 + get_u16 (drop 2 eh))) z'
                  (ground (arith, more))))))))
      (λ _. if-Keeps 0 (extra_len == 0) (return z) fail (return-Keeps z) (fail-Keeps Sizes))

extra_total : (n : ℕ) (wanted : Bool) (z : Sizes) → Keeps 0 (clear_file_extra (n + 1) wanted n z)
extra_total n wanted z = clear_file_extra-Keeps (n + 1) wanted n z (omega arith)

advance_to-Keeps : (o : Option ℕ) → Keeps 0 (advance_to o)
unfolding advance_to
advance_to-Keeps none = return-Keeps tt
advance_to-Keeps (some n) = skip-Keeps n

skip_to_descriptor-Keeps : Keeps 0 skip_to_descriptor
unfolding skip_to_descriptor
skip_to_descriptor-Keeps s = advance_to-Keeps (find_descriptor (length s.left) 0 s.left) s

skip_signature-Keeps : Keeps 0 skip_signature
unfolding skip_signature
skip_signature-Keeps s = elim (Bool-cases (starts 4 file_descriptor_signature s)) [
  | inl there ↦ rw there (skip-Keeps 4 s)
  | inr other ↦ rw other (return-Keeps tt s)
]

skip_contents-Keeps : (descriptor : Bool) (size : ℕ) → Keeps 0 (skip_contents descriptor size)
unfolding skip_contents
skip_contents-Keeps descriptor size =
    if-Keeps 0 (not (size == 0)) (advance size) _ (skip-Keeps size) (
      if-Keeps 0 descriptor skip_to_descriptor (return tt) skip_to_descriptor-Keeps
        (return-Keeps tt))

skip_descriptor-Keeps : (descriptor is_zip64 : Bool) → Keeps 0 (skip_descriptor descriptor is_zip64)
unfolding skip_descriptor
skip_descriptor-Keeps false is_zip64 = return-Keeps tt
skip_descriptor-Keeps true is_zip64 =
    bind_any skip_signature _ skip_signature-Keeps (λ _. skip-Keeps (if is_zip64 then 20 else 12))

-- A file takes its header at least.
clear_one_file-Keeps : Keeps 30 clear_one_file
unfolding clear_one_file
clear_one_file-Keeps = bind-Keeps 0 30 (peek 0 30) _ (peek-Keeps 0 30) (λ h.
    bind-Keeps 0 30 (clear 10 4) _ (clear-Keeps 10 4) (λ _.
      bind-Keeps 30 0 (advance 30) _ (advance-Keeps 30) (λ _.
        bind_any (advance (get_u16 (drop 26 h))) _ (skip-Keeps (get_u16 (drop 26 h))) (λ _.
          bind_any
            (clear_file_extra (get_u16 (drop 28 h) + 1) (is_prefix (replicate 4 0xFF) (drop 22 h))
              (get_u16 (drop 28 h)) _)
            _ (extra_total (get_u16 (drop 28 h)) _ _)
            (λ z.
              bind_any (skip_contents (has_descriptor h) z.compressed_size) _
                (skip_contents-Keeps _ _)
                (λ _. skip_descriptor-Keeps (has_descriptor h) z.is_zip64))))))

clear_one_cd_file-Keeps : Keeps 46 clear_one_cd_file
unfolding clear_one_cd_file
clear_one_cd_file-Keeps = bind-Keeps 0 46 (peek 0 46) _ (peek-Keeps 0 46) (λ h.
    bind-Keeps 0 46 (clear 12 4) _ (clear-Keeps 12 4) (λ _.
      bind-Keeps 46 0 (advance 46) _ (advance-Keeps 46) (λ _.
        bind_any (advance (get_u16 (drop 28 h))) _ (skip-Keeps (get_u16 (drop 28 h))) (λ _.
          bind_any (clear_file_extra (get_u16 (drop 30 h) + 1) false (get_u16 (drop 30 h)) _) _
            (extra_total (get_u16 (drop 30 h)) _ _) (λ z. skip-Keeps (get_u16 (drop 32 h)))))))

-- Every entry takes something, so that the fuel is enough.
entries-Ends :
    (f size : ℕ) (signature : Bytes) (one : M (Unit {0}))
    → Keeps 1 one
    → (s : Scan) → length s.left < f
    → Ends 0 s (entries f size signature one s)
unfolding entries
entries-Ends zero size signature one h s lt = absurd (omega arith)
entries-Ends (suc f) size signature one h s lt = elim (Bool-cases (starts size signature s)) [
  | inl there ↦ rw there (
      less-Ends 1 0 s (then_run (one s) (λ _. entries f size signature one)) (omega arith) (
        then-Ends 1 0 s (one s) _ (h s)
          (λ _ s' le. entries-Ends f size signature one h s' (omega (arith, le)))))
  | inr other ↦ rw other (return-Keeps tt s)
]

section-Keeps :
    (size : ℕ) (signature : Bytes) (off width : ℕ) (length_of : Bytes → ℕ)
    → Keeps 0 (section size signature off width length_of)
unfolding section
section-Keeps size signature off width length_of s = elim (Bool-cases (starts size signature s)) [
  | inl there ↦
      rw there
        (bind_any (peek off width) _ (peek-Keeps off width) (λ b. skip-Keeps (length_of b)) s)
  | inr other ↦ rw other (return-Keeps tt s)
]

at_end-Keeps : Keeps 0 at_end
unfolding at_end
at_end-Keeps s = elim (Bool-cases (length s.left == 0)) [
  | inl none_left ↦ rw none_left (return-Keeps tt s)
  | inr some_left ↦ rw some_left (fail-Keeps (Unit {0}) s)
]

-- _code_clear_zip_file ends within one round more than there are bytes, or crashes by an access out of
-- bounds. Whatever it returns, every byte of the file is what it was, or 0.
pub clear_zip_file-Ends :
    (f : ℕ) (buf : Bytes)
    → length buf < f
    → Ends 0
        (record { before = []; left = buf })
        (clear_zip_file f (record { before = []; left = buf }))
unfolding clear_zip_file
clear_zip_file-Ends f buf h =
    let s : Scan = record { before = []; left = buf } in
    then-Ends 0 0 s (entries f 30 file_header_signature clear_one_file s) _
      (entries-Ends f 30 file_header_signature clear_one_file
        (less-Keeps 30 1 clear_one_file (omega arith) clear_one_file-Keeps) s h)
      (λ _ s' le.
        then-Ends 0 0 s' (section 8 archive_extra_data_signature 4 4 (λ b. 8 + get_u32 b) s') _
          (section-Keeps 8 archive_extra_data_signature 4 4 (λ b. 8 + get_u32 b) s')
          (λ _ s'' le'.
            then-Ends 0 0 s'' (entries f 46 cd_file_signature clear_one_cd_file s'') _
              (entries-Ends f 46 cd_file_signature clear_one_cd_file
                (less-Keeps 46 1 clear_one_cd_file (omega arith) clear_one_cd_file-Keeps) s''
                (omega (arith, le, le', h)))
              (λ _ s₃ _.
                bind_any (section 6 cd_signature_signature 4 2 (λ b. 6 + get_u16 b)) _
                  (section-Keeps 6 cd_signature_signature 4 2 (λ b. 6 + get_u16 b))
                  (λ _.
                    bind_any
                      (section 56 cd_end_zip64_v1_signature 4 8 (λ b. (12 + get_u64 b) % 2 ^ 64)) _
                      (section-Keeps 56 cd_end_zip64_v1_signature 4 8
                        (λ b. (12 + get_u64 b) % 2 ^ 64))
                      (λ _.
                        bind_any (section 20 cd_end_locator_zip64_signature 0 0 (λ b. 20)) _
                          (section-Keeps 20 cd_end_locator_zip64_signature 0 0 (λ b. 20))
                          (λ _.
                            bind_any (section 22 cd_end_signature 20 2 (λ b. 22 + get_u16 b)) _
                              (section-Keeps 22 cd_end_signature 20 2 (λ b. 22 + get_u16 b))
                              (λ _. at_end-Keeps))))
                  s₃)))
