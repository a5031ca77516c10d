-- ===== src/Ps/Csv.antt =====
-- ps_toCSVString and ps_newFromCSVString.
use audited_objects.Prelude.{
  null, ℕ, ◌%◌, ◌^◌, false, Option, none, some, [], ◌∷◌, ◌++◌, ◌==◌, if◌then◌else◌, Bytes, codes,
  get_or, Outcome, ok, abort, ◌>>=◌,
}
use audited_objects.Prelude.Word.{to_u64, to_i64}
use audited_objects.Radix.{radix_loop, format_to_radix}
use audited_objects.Radix.Scan.{strtoul}
use audited_objects.Strsep.{fs1, strsep}
use audited_objects.Encode.{encode_minimal, unescape}
use audited_objects.Moment.{csv_radix, moment_bufmax, moment_parse, moment_format}
use audited_objects.Pn.{Pn, pn_new}
use audited_objects.Ps.{Ps, ps_new, ps_symlink, set_str, get_str, ps_get_rel, ps_get_rel2}

-- "%lu" and "%" PRIu64 of printf: at most 20 digits.
unfoldable pub format_lu : ℕ → Bytes
format_lu n = elim (radix_loop 10 20 (n % 2 ^ 64) []) [ none ↦ [] | some text ↦ text ]

-- "%c" of printf, in front of the rest of a C string, which a NUL ends.
unfoldable pub print_char : ℕ → Bytes → Bytes
print_char c rest = if c % 256 == 0 then [] else c % 256 ∷ rest

-- "%s%s" with FS1, in front of the rest of the line.
abbrev pub field : Bytes → Bytes → Bytes
field text rest = text ++ (b',' ∷ rest)

-- `(fsname && *fsname) ? fsname : "?"`
unfoldable pub fsname_text : Option Bytes → Bytes
fsname_text none = codes "?"
fsname_text (some []) = codes "?"
fsname_text (some (c ∷ s)) = c ∷ s

-- The link target: ps_get_rel2 if there is a second path name, or else ps_get_target.
unfoldable pub link_text : Option Bytes → Option Bytes → Bytes
link_text (some rel2) target = encode_minimal rel2
link_text none (some target) = encode_minimal target
link_text none none = []

unfoldable pub target_text : Ps → Bytes
unfolding link_text
target_text ps = link_text (ps_get_rel2 ps) ps.ps_target

abbrev pub modebuf_size : ℕ
modebuf_size = 32

unfoldable pub format_mode : ℕ → Outcome Bytes
format_mode mode = elim (format_to_radix csv_radix modebuf_size mode) [
  | none ↦ abort
  | some text ↦ ok text
]

-- `ps_toCSVString`
unfoldable pub ps_to_csv_string : Ps → Outcome Bytes
unfolding format_mode print_char
ps_to_csv_string ps = do
  mtime ← moment_format ps.ps_moment moment_bufmax
  modebuf ← format_mode ps.ps_mode
  rel ← ps_get_rel ps
  ok (
      print_char ps.ps_datatype (
        field [] (
          field (fsname_text ps.ps_fsname) (
            field mtime (
              field (format_lu (to_u64 ps.ps_size))
                (field modebuf (field (get_str [] ps.ps_dcode) (field (target_text ps) rel))))))))

-- The characters of a buffer up to its first NUL: the C string that it holds.
unfoldable pub c_string : Bytes → Bytes
c_string [] = []
c_string (c ∷ s) = if c == 0 then [] else c ∷ c_string s

-- The link target read back: the target of a symbolic link, or the second path name.
unfoldable pub set_link : Bytes → Option Bytes → ℕ → Bytes → Ps → Outcome Ps
unfolding set_str
set_link base cwd letter [] ps = ok ps
set_link base cwd letter (t ∷ target) ps =
    let decoded = c_string (unescape (t ∷ target) 0) in
    if letter == ps_symlink
    then ok (record ps { ps_target = set_str (some decoded) })
    else (do pn2 ← pn_new base cwd decoded false; ok (record ps { ps_pn2 = some pn2 }))

-- What ps_newFromCSVString does with the fields: `fsname && *fsname != '?'`.
unfoldable pub known_fsname : Bytes → Option Bytes
known_fsname [] = some []
known_fsname (c ∷ s) = if c == b'?' then none else some (c ∷ s)

-- pn_new of the rest of the line asserts that there is one.
unfoldable pub pn_of_rest : Bytes → Option Bytes → Option Bytes → Outcome Pn
pn_of_rest base cwd none = abort
pn_of_rest base cwd (some path) = pn_new base cwd path false

-- The fields of a line, in their order, and what follows them.
pub record PsFields : Type 0 where
  pub datatype : Bytes
  pub fsname : Bytes
  pub moment : Bytes
  pub size : Bytes
  pub mode : Bytes
  pub dcode : Bytes
  pub target : Bytes
  pub linebuf : Option Bytes

-- From the `ps_new()` of ps_newFromCSVString on. The return code of moment_parse is not looked at.
unfoldable pub ps_from_fields : Bytes → Option Bytes → PsFields → Outcome Ps
unfolding set_link known_fsname pn_of_rest ps_new set_str
ps_from_fields base cwd f = do
  (rc, mtime) ← moment_parse f.moment
  ps ← set_link base cwd (get_or f.datatype 0 0) f.target (record {
    ps_moment = mtime;
    ps_size = to_i64 (strtoul 10 f.size);
    ps_mode = strtoul csv_radix f.mode % 2 ^ 32;
    ps_dcode = set_str (some f.dcode);
    ps_fsname = set_str (known_fsname f.fsname);
    ps_pn = none;
    ps_pn2 = none;
    ps_target = none;
    ps_datatype = get_or f.datatype 0 0;
  })
  pn ← pn_of_rest base cwd f.linebuf
  ok (record ps { ps_pn = some pn })

-- A missing field is an internal error, for which putil_int ends the process.
unfoldable pub next_field : Option Bytes → Outcome (Bytes × Option Bytes)
next_field linebuf = elim (strsep linebuf fs1) [ ok f ↦ ok f | null ↦ abort | abort ↦ abort ]

-- The seven calls of util_strsep.
unfoldable pub ps_fields : Option Bytes → Outcome PsFields
unfolding next_field
ps_fields csv = do
  (datatype, l1) ← next_field csv
  (fsname, l2) ← next_field l1
  (moment, l3) ← next_field l2
  (size, l4) ← next_field l3
  (mode, l5) ← next_field l4
  (dcode, l6) ← next_field l5
  (target, linebuf) ← next_field l6
  ok (record {
    datatype = datatype;
    fsname = fsname;
    moment = moment;
    size = size;
    mode = mode;
    dcode = dcode;
    target = target;
    linebuf = linebuf;
  })

-- ps_newFromCSVString, on a line. (putil_strdup of a NULL pointer crashes, as next_field does here.)
unfoldable pub ps_new_from_csv_string : Bytes → Option Bytes → Option Bytes → Outcome Ps
unfolding ps_fields ps_from_fields
ps_new_from_csv_string base cwd csv = do f ← ps_fields csv; ps_from_fields base cwd f
