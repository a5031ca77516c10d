-- ===== src/Ca/Parts.antt =====
-- The texts of a header line, and what ca_newFromCSVString makes of each.
use audited_objects.Prelude.{ℕ, ◌^◌, ◌<◌, ◌≡◌, true, false, Option, none, some, Bytes, ok, arith}
use audited_objects.Radix.Scan.{strtoul}
use audited_objects.Radix.RoundTrip.{
  IsNumeral, IsNumeral-Lacks, strtoul-IsNumeral, format_to_radix_total,
}
use audited_objects.Moment.{csv_radix}
use audited_objects.Ps.{set_str, get_str, csv_field_is_null}
use audited_objects.Ps.Csv.{format_lu}
use audited_objects.Ps.Parts.{format_lu-IsNumeral}
use audited_objects.Ca.Header.{code_from_str, code_identity_hash_max_len}
use audited_objects.Ca.Line.{IsText}

-- A string that a setter stores and that can be a field, or none.
abbrev pub IsStoredText : Option Bytes → Type 0
IsStoredText none = Unit
IsStoredText (some s) = (csv_field_is_null s ≡ false) × IsText s

-- The same, without none.
abbrev pub IsGivenText : Option Bytes → Type 0
IsGivenText none = ⊥
IsGivenText (some s) = (csv_field_is_null s ≡ false) × IsText s

-- A string that is written as a text of its own if it is NULL, and stays NULL if that is read.
module _ (dflt : Bytes) (null_dflt : csv_field_is_null dflt ≡ true) (text_dflt : IsText dflt) where
  pub set_str-get_str : (o : Option Bytes) → IsStoredText o → set_str (some (get_str dflt o)) ≡ o
  unfolding set_str get_str
  set_str-get_str none h = rw null_dflt
  set_str-get_str (some s) h = rw (h.0)

  pub get_str-IsText : (o : Option Bytes) → IsStoredText o → IsText (get_str dflt o)
  unfolding get_str
  get_str-IsText none h = text_dflt
  get_str-IsText (some s) h = h.1

pub set_str_given :
    (dflt : Bytes) (o : Option Bytes) → IsGivenText o → set_str (some (get_str dflt o)) ≡ o
unfolding set_str get_str
set_str_given dflt none h = absurd h
set_str_given dflt (some s) h = rw (h.0)

pub given-IsText : (dflt : Bytes) (o : Option Bytes) → IsGivenText o → IsText (get_str dflt o)
unfolding get_str
given-IsText dflt none h = absurd h
given-IsText dflt (some s) h = h.1

pub lu-IsText : (n : ℕ) → n < 2 ^ 64 → IsText (format_lu n)
lu-IsText n small =
    let num = format_lu-IsNumeral n small in
    (IsNumeral-Lacks b',' (omega arith) num, IsNumeral-Lacks b'\n' (omega arith) num)

pub strtoul-format_lu : (n : ℕ) → n < 2 ^ 64 → strtoul 10 (format_lu n) ≡ n
strtoul-format_lu n small = strtoul-IsNumeral 10 n (format_lu n) small (format_lu-IsNumeral n small)

module _ (crc32 : Bytes → ℕ) where
  -- The command code of a line: crc32 gives 32 bits, so the hash has a text.
  pub code_from_str_total :
      (line : Bytes)
      → crc32 line < 2 ^ 32
      → (code : Bytes) × (code_from_str crc32 line ≡ ok code)
        × IsNumeral csv_radix (crc32 line) code
  unfolding code_from_str
  code_from_str_total line small =
      let (text, e, n) =
        format_to_radix_total csv_radix code_identity_hash_max_len (crc32 line) (omega arith)
          (omega arith) (omega arith) in
      (text, rw (e, code_from_str), n)
