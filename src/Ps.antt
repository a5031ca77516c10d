-- ===== src/Ps.antt =====
-- src/ps.c: the state of a file at a time, with the accessors that src/AO.h generates. `base` and
-- `cwd` are those of src/pn.c.
pub mod Csv
pub mod Parts
pub mod RoundTrip
pub mod Diff
pub mod Copy
mod Tests
use audited_objects.Prelude.{
  ℕ, ◌+◌, ◌-◌, ◌*◌, ◌/◌, ◌%◌, ◌^◌, ◌≡◌, Bool, true, false, not, ◌&&◌, ◌||◌, Option, none, some,
  List, [], ◌∷◌, ◌++◌, ◌==◌, if◌then◌else◌, Bytes, codes, str_eq, get_or, Outcome, ok, null, abort,
  ◌>>=◌,
}
use audited_objects.Prelude.Int.{ℤ, pos, negsuc}
use audited_objects.Radix.Scan.{strtoll}
use audited_objects.Moment.{moment_parse, Moment, moment_parse, moment_cmp}
use audited_objects.Pn.{Pn, pn_new, pn_is_member, pn_get_abs, pn_get_rel}

-- PS_FILE to PS_UNLINK
abbrev pub ps_file : ℕ
ps_file = b'f'

abbrev pub ps_dir : ℕ
ps_dir = b'd'

abbrev pub ps_link : ℕ
ps_link = b'l'

abbrev pub ps_symlink : ℕ
ps_symlink = b's'

abbrev pub ps_unlink : ℕ
ps_unlink = b'u'

-- `struct path_state_s`; a NULL pointer is `none`.
pub record Ps : Type 0 where
  pub ps_moment : Moment
  pub ps_size : ℤ
  pub ps_mode : ℕ
  pub ps_dcode : Option Bytes
  pub ps_fsname : Option Bytes
  pub ps_pn : Option Pn
  pub ps_pn2 : Option Pn
  pub ps_target : Option Bytes
  pub ps_datatype : ℕ

-- CSV_FIELD_IS_NULL
unfoldable pub csv_field_is_null : Bytes → Bool
unfolding str_eq
csv_field_is_null [] = true
csv_field_is_null (c ∷ s) = str_eq (c ∷ s) (codes "-")

-- What a setter of GEN_SETTER_DEFN_STR stores.
unfoldable pub set_str : Option Bytes → Option Bytes
unfolding csv_field_is_null
set_str none = none
set_str (some val) = if csv_field_is_null val then none else some val

-- What a getter of GEN_GETTER_DEFN_STR returns, if its default is not NULL.
unfoldable pub get_str : Bytes → Option Bytes → Bytes
get_str dflt none = dflt
get_str dflt (some s) = s

unfoldable pub ps_new : Ps
ps_new = record {
  ps_moment = record { ntv_sec = pos 0; ntv_nsec = pos 0 };
  ps_size = pos 0;
  ps_mode = 0;
  ps_dcode = none;
  ps_fsname = none;
  ps_pn = none;
  ps_pn2 = none;
  ps_target = none;
  ps_datatype = ps_file;
}

-- A pn_new that returns NULL leaves the member NULL.
unfoldable pub or_null : Outcome Pn → Outcome (Option Pn)
or_null (ok pn) = ok (some pn)
or_null null = ok none
or_null abort = abort

unfoldable pub ps_new_from_path : Bytes → Option Bytes → Bytes → Outcome Ps
unfolding or_null ps_new
ps_new_from_path base cwd path = do
  pn ← or_null (pn_new base cwd path true)
  ok (record ps_new { ps_pn = pn })

-- The path name behind a pointer that is read.
abbrev pub the_pn : Option Pn → Outcome Pn
the_pn none = abort
the_pn (some pn) = ok pn

unfoldable pub ps_get_abs : Ps → Outcome Bytes
ps_get_abs ps = do pn ← the_pn ps.ps_pn; ok (pn_get_abs pn)

unfoldable pub ps_get_rel : Ps → Outcome Bytes
ps_get_rel ps = do pn ← the_pn ps.ps_pn; ok (pn_get_rel pn)

unfoldable pub ps_get_abs2 : Ps → Option Bytes
ps_get_abs2 ps = elim (ps.ps_pn2) [ none ↦ none | some pn ↦ some (pn_get_abs pn) ]

unfoldable pub ps_get_rel2 : Ps → Option Bytes
ps_get_rel2 ps = elim (ps.ps_pn2) [ none ↦ none | some pn ↦ some (pn_get_rel pn) ]

unfoldable pub ps_is_member : Ps → Outcome Bool
ps_is_member ps = do pn ← the_pn ps.ps_pn; ok (pn_is_member pn)

-- The file type of a mode, in units of 0010000: S_IFREG and the others.
unfoldable pub file_type : Ps → ℕ
file_type ps = ps.ps_mode / 4096 % 16

unfoldable pub ps_is_file : Ps → Bool
unfolding file_type
ps_is_file ps = file_type ps == 8

unfoldable pub ps_is_dir : Ps → Bool
unfolding file_type
ps_is_dir ps = file_type ps == 4

-- S_ISBLK, S_ISCHR, S_ISFIFO and S_ISSOCK
unfoldable pub ps_is_special : Ps → Bool
unfolding file_type
ps_is_special ps = let t = file_type ps in t == 6 || t == 2 || t == 1 || t == 12

unfoldable pub ps_is_link : Ps → Bool
ps_is_link ps = ps.ps_datatype == ps_link

unfoldable pub ps_is_symlink : Ps → Bool
ps_is_symlink ps = ps.ps_datatype == ps_symlink

unfoldable pub ps_is_unlink : Ps → Bool
ps_is_unlink ps = ps.ps_datatype == ps_unlink

unfoldable pub ps_has_dcode : Ps → Bool
ps_has_dcode ps = elim (ps.ps_dcode) [ none ↦ false | some d ↦ true ]

unfoldable pub ps_set_datatype : Ps → ℕ → Ps
ps_set_datatype ps datatype = record ps { ps_datatype = datatype }

unfoldable pub ps_get_datatype : Ps → ℕ
ps_get_datatype ps = ps.ps_datatype

unfoldable pub ps_set_unlinked : Ps → Ps
unfolding ps_set_datatype
ps_set_unlinked ps = ps_set_datatype ps ps_unlink

unfoldable pub ps_set_symlinked : Ps → Ps
unfolding ps_set_datatype
ps_set_symlinked ps = ps_set_datatype ps ps_symlink

unfoldable pub ps_set_linked : Ps → Ps
unfolding ps_set_datatype
ps_set_linked ps = ps_set_datatype ps ps_link

unfoldable pub ps_set_dir : Ps → Ps
unfolding ps_set_datatype
ps_set_dir ps = ps_set_datatype ps ps_dir

-- `ps_set_moment_str`: the return code of moment_parse, and the state.
unfoldable pub ps_set_moment_str : Ps → Bytes → Outcome (ℕ × Ps)
ps_set_moment_str ps str = do
  (rc, moment) ← moment_parse str
  ok (rc, record ps { ps_moment = moment })

unfoldable pub ps_set_size_str : Ps → Bytes → Ps
ps_set_size_str ps str = record ps { ps_size = strtoll 10 str }
