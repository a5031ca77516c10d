-- ===== src/Code/Zip.antt =====
-- The clearing of the time stamps in a zip file (src/code.c, with the layouts of src/Zip/zipfmt.h). The
-- pointer `data` and `size_left` are what is left of the bytes, beside those before it; numbers are
-- little-endian. A comparison with bytes behind the end counts as a difference.
use audited_objects.Prelude.{
  ℕ, zero, suc, ◌+◌, ◌-◌, ◌*◌, ◌/◌, ◌%◌, ◌^◌, Bool, true, false, not, ◌&&◌, ◌==◌, ltb, leb,
  if◌then◌else◌, [], ◌∷◌, ◌++◌, Option, none, some, Bytes, length, take, drop, replicate, get_or,
  is_prefix,
}

-- `data_` up to `data`, and from there on.
pub record Scan : Type 0 where
  pub before : Bytes
  pub left : Bytes

-- What a function over the zip file comes to: a value, a return of -1, an access out of bounds, or that
-- it has not returned yet.
pub data Run (A : Type 0) : Type 0 where
  done : A → Scan → Run A
  bad : Scan → Run A
  crash : Run A
  unfinished : Run A

abbrev pub M : Type 0 → Type 0
M A = Scan → Run A

module _ {A B : Type 0} where
  abbrev pub then_run : Run A → (A → M B) → Run B
  then_run (done a s) f = f a s
  then_run (bad s) f = bad s
  then_run crash f = crash
  then_run unfinished f = unfinished

  infixl 5 ◌>>=◌ ◌>>◌
  abbrev pub ◌>>=◌ : M A → (A → M B) → M B
  ◌>>=◌ m f s = then_run (m s) f

  abbrev pub ◌>>◌ : M A → M B → M B
  m >> n = m >>= λ _. n

unfoldable pub return : {A : Type 0} → A → M A
return a s = done a s

-- `return -1`
unfoldable pub fail : {A : Type 0} → M A
fail s = bad s

-- ADVANCE
unfoldable pub advance : ℕ → M (Unit {0})
advance n s =
    if ltb (length s.left) n
    then bad s
    else done tt (record { before = s.before ++ take n s.left; left = drop n s.left })

-- The bytes at an offset, which are read.
unfoldable pub peek : ℕ → ℕ → M Bytes
peek off n s = if ltb (length s.left) (off + n) then crash else done (take n (drop off s.left)) s

-- memset of bytes at an offset to 0.
unfoldable pub clear : ℕ → ℕ → M (Unit {0})
clear off n s =
    if ltb (length s.left) (off + n)
    then crash
    else done tt (record s { left = take off s.left ++ (replicate n 0 ++ drop (off + n) s.left) })

-- `size_left >= size && SIGNATURE_MATCHES(data, ...)`
unfoldable pub starts : ℕ → Bytes → Scan → Bool
unfolding is_prefix
starts size signature s = leb size (length s.left) && is_prefix signature s.left

-- `_get_u16`, `_get_u32` and `_get_u64`
unfoldable pub get_u16 : Bytes → ℕ
get_u16 b = get_or b 0 0 + 256 * get_or b 1 0

unfoldable pub get_u32 : Bytes → ℕ
unfolding get_u16
get_u32 b = get_u16 b + 65536 * get_u16 (drop 2 b)

unfoldable pub get_u64 : Bytes → ℕ
unfolding get_u32
get_u64 b = get_u32 b + 2 ^ 32 * get_u32 (drop 4 b)

abbrev pub file_header_signature : Bytes
file_header_signature = 0x50 ∷ 0x4B ∷ 3 ∷ 4 ∷ []

abbrev pub file_descriptor_signature : Bytes
file_descriptor_signature = 0x50 ∷ 0x4B ∷ 7 ∷ 8 ∷ []

abbrev pub archive_extra_data_signature : Bytes
archive_extra_data_signature = 0x50 ∷ 0x4B ∷ 6 ∷ 8 ∷ []

abbrev pub cd_file_signature : Bytes
cd_file_signature = 0x50 ∷ 0x4B ∷ 1 ∷ 2 ∷ []

abbrev pub cd_signature_signature : Bytes
cd_signature_signature = 0x50 ∷ 0x4B ∷ 5 ∷ 5 ∷ []

abbrev pub cd_end_zip64_v1_signature : Bytes
cd_end_zip64_v1_signature = 0x50 ∷ 0x4B ∷ 6 ∷ 6 ∷ []

abbrev pub cd_end_locator_zip64_signature : Bytes
cd_end_locator_zip64_signature = 0x50 ∷ 0x4B ∷ 6 ∷ 7 ∷ []

abbrev pub cd_end_signature : Bytes
cd_end_signature = 0x50 ∷ 0x4B ∷ 5 ∷ 6 ∷ []

abbrev pub eh_id_zip64 : Bytes
eh_id_zip64 = 1 ∷ 0 ∷ []

abbrev pub eh_id_ext_timestamp : Bytes
eh_id_ext_timestamp = 0x55 ∷ 0x54 ∷ []

-- `is_zip64` and `compressed_size` of _code_clear_one_file.
pub record Sizes : Type 0 where
  pub is_zip64 : Bool
  pub compressed_size : ℕ

-- The length of a stamp's flags is at least 1.
unfoldable pub clear_stamps : ℕ → M (Unit {0})
unfolding fail advance clear
clear_stamps zero = fail
clear_stamps (suc len) = do advance 1; clear 0 len; advance len

-- One extra record behind its header, by its id. `wanted` is that compressed_size is not NULL.
unfoldable pub clear_extra : Bool → Bytes → ℕ → Sizes → M Sizes
unfolding is_prefix peek get_u64 advance clear_stamps return
clear_extra wanted id len z =
    if is_prefix eh_id_zip64 id
    then (do
      size ← (if wanted then peek 8 8 else return [])
      advance len
      return (record {
        is_zip64 = true;
        compressed_size = if wanted then get_u64 size else z.compressed_size;
      }))
    else if is_prefix eh_id_ext_timestamp id
    then (do clear_stamps len; return z)
    else (do advance len; return z)

-- `_code_clear_file_extra`, with the length of the extra data.
unfoldable pub clear_file_extra : ℕ → Bool → ℕ → Sizes → M Sizes
unfolding peek advance get_u16 fail clear_extra return
clear_file_extra zero wanted extra_len z = λ s. unfinished
clear_file_extra (suc f) wanted extra_len z =
    let more : M Sizes = do
      eh ← peek 0 4
      advance 4
      (let len = get_u16 (drop 2 eh) in
          if ltb extra_len (4 + len) then fail else (do
            z' ← clear_extra wanted eh len z
            clear_file_extra f wanted (extra_len - (4 + len)) z'))
    in if leb 4 extra_len then more else if extra_len == 0 then return z else fail

-- `memchr(s, c, n)`: the distance, and what follows.
unfoldable pub find_byte : ℕ → Bytes → Option (ℕ × Bytes)
find_byte c [] = none
find_byte c (x ∷ s) =
    let rest = find_byte c s in
    if x == c then some (0, x ∷ s) else elim rest [ none ↦ none | some it ↦ some (suc it.0, it.1) ]

-- The search for the descriptor, `off` bytes behind `data`. Where memchr finds nothing, `off` becomes a
-- number beyond the size.
unfoldable pub find_descriptor : ℕ → ℕ → Bytes → Option ℕ
unfolding find_byte is_prefix
find_descriptor zero off s = none
find_descriptor (suc f) off s =
    let found : Option ℕ = elim (find_byte 0x50 s) [
      | none ↦ none
      | some it ↦
          (let next = find_descriptor f (off + it.0 + 1) (drop 1 it.1) in
            if is_prefix file_descriptor_signature it.1 then some (off + it.0) else next)
    ] in
    if ltb 16 (length s) then found else none

unfoldable pub advance_to : Option ℕ → M (Unit {0})
unfolding advance return
advance_to none = return tt
advance_to (some n) = advance n

unfoldable pub skip_to_descriptor : M (Unit {0})
unfolding find_descriptor advance_to
skip_to_descriptor s = advance_to (find_descriptor (length s.left) 0 s.left) s

-- `size_left >= sizeof(file_descriptor_signature) && memcmp(...) == 0`
unfoldable pub skip_signature : M (Unit {0})
unfolding starts advance return
skip_signature s = if starts 4 file_descriptor_signature s then advance 4 s else return tt s

-- `h.flags[0] & FLAGS_0_HAVE_DESCRIPTOR`, by the bytes of the header.
unfoldable pub has_descriptor : Bytes → Bool
has_descriptor h = (get_or h 6 0 / 8) % 2 == 1

-- The contents of a file.
unfoldable pub skip_contents : Bool → ℕ → M (Unit {0})
unfolding advance skip_to_descriptor return
skip_contents descriptor size =
    if not (size == 0) then advance size else if descriptor then skip_to_descriptor else return tt

unfoldable pub skip_descriptor : Bool → Bool → M (Unit {0})
unfolding skip_signature advance return
skip_descriptor false is_zip64 = return tt
skip_descriptor true is_zip64 = do skip_signature; advance (if is_zip64 then 20 else 12)

-- `_code_clear_one_file`
unfoldable pub clear_one_file : M (Unit {0})
unfolding peek clear advance get_u16 get_u32 is_prefix clear_file_extra skip_contents
    skip_descriptor has_descriptor
clear_one_file = do
  h ← peek 0 30
  clear 10 4
  advance 30
  advance (get_u16 (drop 26 h))
  z ←
      clear_file_extra (get_u16 (drop 28 h) + 1) (is_prefix (replicate 4 0xFF) (drop 22 h))
        (get_u16 (drop 28 h)) (record { is_zip64 = false; compressed_size = get_u32 (drop 18 h) })
  skip_contents (has_descriptor h) z.compressed_size
  skip_descriptor (has_descriptor h) z.is_zip64

-- `_code_clear_one_cd_file`
unfoldable pub clear_one_cd_file : M (Unit {0})
unfolding peek clear advance get_u16 clear_file_extra
clear_one_cd_file = do
  h ← peek 0 46
  clear 12 4
  advance 46
  advance (get_u16 (drop 28 h))
  z ←
      clear_file_extra (get_u16 (drop 30 h) + 1) false (get_u16 (drop 30 h))
        (record { is_zip64 = false; compressed_size = 0 })
  advance (get_u16 (drop 32 h))

-- A loop of _code_clear_zip_file over entries with a signature.
unfoldable pub entries : ℕ → ℕ → Bytes → M (Unit {0}) → M (Unit {0})
unfolding starts return
entries zero size signature one s = unfinished
entries (suc f) size signature one s =
    let more : Run (Unit {0}) = then_run (one s) (λ _. entries f size signature one) in
    if starts size signature s then more else return tt s

-- A record with a signature, whose length is read at an offset, by `length_of`.
unfoldable pub section : ℕ → Bytes → ℕ → ℕ → (Bytes → ℕ) → M (Unit {0})
unfolding starts peek advance return
section size signature off width length_of s =
    if starts size signature s
    then (do b ← peek off width; advance (length_of b)) s
    else return tt s

-- `if (size_left != 0) return -1;`
unfoldable pub at_end : M (Unit {0})
unfolding fail return
at_end s = if length s.left == 0 then return tt s else fail s

-- `_code_clear_zip_file`
unfoldable pub clear_zip_file : ℕ → M (Unit {0})
unfolding entries clear_one_file clear_one_cd_file section get_u16 get_u32 get_u64 at_end
clear_zip_file f = do
  entries f 30 file_header_signature clear_one_file
  section 8 archive_extra_data_signature 4 4 (λ b. 8 + get_u32 b)
  entries f 46 cd_file_signature clear_one_cd_file
  section 6 cd_signature_signature 4 2 (λ b. 6 + get_u16 b)
  section 56 cd_end_zip64_v1_signature 4 8 (λ b. (12 + get_u64 b) % 2 ^ 64)
  section 20 cd_end_locator_zip64_signature 0 0 (λ b. 20)
  section 22 cd_end_signature 20 2 (λ b. 22 + get_u16 b)
  at_end

-- `_code_is_zip_file`
unfoldable pub is_zip_file : Bytes → Bool
unfolding is_prefix
is_zip_file buf = leb 52 (length buf) && is_prefix file_header_signature buf
