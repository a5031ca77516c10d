-- ===== src/Ca/Header.antt =====
-- ca_format_header, ca_newFromCSVString and ca_set_line. `crc32` is zlib's checksum, the identity hash
-- unless the property P_IDENTITY_HASH names another.
use audited_objects.Prelude.{
  Bool, not, ℕ, Option, none, some, [], ◌∷◌, ◌++◌, ◌==◌, if◌then◌else◌, Bytes, codes, str_eq,
  contains, length, Outcome, ok, abort, ◌>>=◌,
}
use audited_objects.Radix.{format_to_radix}
use audited_objects.Radix.Scan.{strtoul}
use audited_objects.Moment.{moment_bufmax, moment_format, csv_radix}
use audited_objects.Ps.{csv_field_is_null, set_str, get_str}
use audited_objects.Ps.Csv.{format_lu, field, next_field}
use audited_objects.Pa.{csv_null_field}
use audited_objects.Pa.Csv.{null_text, timestamp_of}
use audited_objects.Ca.{Ca}
use audited_objects.Ca.Newline.{put_tokens, take_tokens}

-- CODE_IDENTITY_HASH_MAX_LEN
abbrev pub code_identity_hash_max_len : ℕ
code_identity_hash_max_len = 256

-- `code_from_str`, by the last branch of _code_hash2str.
unfoldable pub code_from_str : (Bytes → ℕ) → Bytes → Outcome Bytes
code_from_str crc32 str = elim (format_to_radix csv_radix code_identity_hash_max_len (crc32 str)) [
  | none ↦ abort
  | some text ↦ ok text
]

-- The command code of a line: the hash, a plus and the length. (The buffer has room for both.)
unfoldable pub ccode_of : Bytes → Bytes → Option Bytes
ccode_of line [] = none
ccode_of line (c ∷ code) = some ((c ∷ code) ++ (b'+' ∷ format_lu (length line)))

-- `strrchr(s, c)`, and that character replaced.
unfoldable pub replace_last : ℕ → ℕ → Bytes → Bytes
replace_last c d [] = []
replace_last c d (x ∷ s) =
    let rest = replace_last c d s in
    if contains s c then x ∷ rest else if x == c then d ∷ s else x ∷ s

-- The text that ca_format_header prints: thirteen fields and the command line.
unfoldable pub header_text : Ca → Bytes → Bytes
header_text ca started = field (format_lu ca.ca_cmdid) (
    field (format_lu ca.ca_depth) (
      field (format_lu ca.ca_pcmdid) (
        field started (
          field (format_lu ca.ca_duration) (
            field (get_str (codes "?") ca.ca_host) (
              field (get_str [] ca.ca_recycled) (
                field (get_str [] ca.ca_freetext) (
                  field (get_str null_text ca.ca_prog) (
                    field (get_str (codes ".") ca.ca_rwd) (
                      field (get_str csv_null_field ca.ca_pccode) (
                        field (get_str csv_null_field ca.ca_ccode) (
                          field (get_str csv_null_field ca.ca_pathcode)
                            (get_str null_text ca.ca_line ++ codes "@")))))))))))))

-- `ca_format_header`
unfoldable pub ca_format_header : Ca → Outcome Bytes
unfolding header_text replace_last
ca_format_header ca = do
  started ← moment_format ca.ca_starttime moment_bufmax
  ok (replace_last b'@' b'\n' (put_tokens (header_text ca started)))

-- `ca_set_line`: the line and the command code.
unfoldable pub ca_set_line : (Bytes → ℕ) → Option Bytes → Ca → Outcome Ca
unfolding code_from_str ccode_of
ca_set_line crc32 none ca = ok (record ca { ca_line = none })
ca_set_line crc32 (some line) ca = do
  code ← code_from_str crc32 (take_tokens line)
  ok (record ca { ca_line = some (take_tokens line); ca_ccode = ccode_of (take_tokens line) code })

-- The fields of a header, in their order, and what follows them.
pub record CaFields : Type 0 where
  pub cmdid : Bytes
  pub depth : Bytes
  pub pcmdid : Bytes
  pub starttime : Bytes
  pub duration : Bytes
  pub host : Bytes
  pub recycled : Bytes
  pub freetext : Bytes
  pub prog : Bytes
  pub rwd : Bytes
  pub pccode : Bytes
  pub ccode : Bytes
  pub pathcode : Bytes
  pub linebuf : Option Bytes

-- The thirteen calls of util_strsep.
unfoldable pub ca_fields : Option Bytes → Outcome CaFields
unfolding next_field
ca_fields csv = do
  (cmdid, l1) ← next_field csv
  (depth, l2) ← next_field l1
  (pcmdid, l3) ← next_field l2
  (starttime, l4) ← next_field l3
  (duration, l5) ← next_field l4
  (host, l6) ← next_field l5
  (recycled, l7) ← next_field l6
  (freetext, l8) ← next_field l7
  (prog, l9) ← next_field l8
  (rwd, l10) ← next_field l9
  (pccode, l11) ← next_field l10
  (ccode, l12) ← next_field l11
  (pathcode, linebuf) ← next_field l12
  ok (record {
    cmdid = cmdid;
    depth = depth;
    pcmdid = pcmdid;
    starttime = starttime;
    duration = duration;
    host = host;
    recycled = recycled;
    freetext = freetext;
    prog = prog;
    rwd = rwd;
    pccode = pccode;
    ccode = ccode;
    pathcode = pathcode;
    linebuf = linebuf;
  })

-- From the `ca_new()` of ca_newFromCSVString on. A command code that is not that of the line is an
-- internal error.
unfoldable pub ca_from_fields : (Bytes → ℕ) → CaFields → Outcome Ca
unfolding ca_set_line set_str timestamp_of str_eq
ca_from_fields crc32 f = do
  starttime ← timestamp_of f.starttime
  ca ← ca_set_line crc32 f.linebuf (record {
    ca_cmdid = strtoul 10 f.cmdid;
    ca_depth = strtoul 10 f.depth;
    ca_pcmdid = strtoul 10 f.pcmdid;
    ca_starttime = starttime;
    ca_duration = strtoul 10 f.duration;
    ca_prog = set_str (some f.prog);
    ca_host = set_str (some f.host);
    ca_recycled = set_str (some f.recycled);
    ca_rwd = set_str (some f.rwd);
    ca_pccode = set_str (some f.pccode);
    ca_ccode = none;
    ca_pathcode = set_str (some f.pathcode);
    ca_line = none;
    ca_freetext = set_str (some f.freetext);
  })
  (if str_eq (get_str csv_null_field ca.ca_ccode) f.ccode then ok ca else abort)

-- `ca_newFromCSVString`
unfoldable pub ca_new_from_csv_string : (Bytes → ℕ) → Option Bytes → Outcome Ca
unfolding ca_fields ca_from_fields
ca_new_from_csv_string crc32 csv = do f ← ca_fields csv; ca_from_fields crc32 f

unfoldable pub ca_has_pathcode : Ca → Bool
unfolding csv_field_is_null get_str
ca_has_pathcode ca = not (csv_field_is_null (get_str csv_null_field ca.ca_pathcode))

unfoldable pub ca_is_top : Ca → Bool
unfolding csv_field_is_null get_str
ca_is_top ca = csv_field_is_null (get_str csv_null_field ca.ca_pccode)

unfoldable pub ca_get_line : Ca → Option Bytes
ca_get_line ca = ca.ca_line
