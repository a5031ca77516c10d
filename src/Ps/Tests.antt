-- ===== src/Ps/Tests.antt =====
-- States of files, on examples.
use audited_objects.Prelude.{
  ◌≡◌, ◌++◌, ◌↔◌, refl, some, none, Bytes, codes, is_prefix, arith, ok, contains, contains-Lacks,
  str_eq,
}
use audited_objects.Prelude.Int.{pos}
use audited_objects.Pn.{Pn, new_from_abs, pn_get_abs, pn_get_rel}
use audited_objects.Pn.Canon.Resolve.{resolve}
use audited_objects.Pn.Member.{member, outside}
use audited_objects.Ps.{Ps, ps_get_abs, csv_field_is_null}
use audited_objects.Ps.Csv.{ps_to_csv_string, ps_new_from_csv_string}
use audited_objects.Ps.Diff.{ps_diff, SameContent, ps_diff-none}
use audited_objects.Ps.Parts.{second_of}
use audited_objects.Ps.RoundTrip.{IsStorable, ps_new_from_csv_string-ps_to_csv_string}

abbrev base : Bytes
base = codes "/p"

abbrev file_pn : Pn
file_pn = new_from_abs base (base ++ codes "/x")

abbrev link_pn : Pn
link_pn = new_from_abs base (codes "/usr/y,z")

-- A hard link from a file outside the project.
abbrev linked : Ps
linked = record {
  ps_moment = record { ntv_sec = pos 1000; ntv_nsec = pos 5 };
  ps_size = pos 42;
  ps_mode = 33188;
  ps_dcode = some (codes "ab12");
  ps_fsname = none;
  ps_pn = some file_pn;
  ps_pn2 = some link_pn;
  ps_target = none;
  ps_datatype = b'l';
}

linked-IsStorable : IsStorable base none linked
unfolding new_from_abs
linked-IsStorable = record {
  letter = omega arith;
  dcode = (
    unfold csv_field_is_null str_eq in refl,
    contains-Lacks b',' (codes "ab12") (unfold contains in refl),
  );
  fsname = tt;
  known = tt;
  moment = record {
    sec = 1000;
    nsec = 5;
    is_sec = refl;
    is_nsec = refl;
    small_sec = omega arith;
    small_nsec = omega arith;
  };
  size = omega arith;
  mode = omega arith;
  link = second_of (omega arith) refl (
    outside (codes "usr/y,z") (unfold is_prefix in refl) refl,
    contains-Lacks 0 _ (unfold contains pn_get_rel in refl),
  );
  pn = file_pn;
  has_pn = refl;
  stable = member (codes "x") (ground arith) refl refl;
}

ps_new_from_csv_string-ps_to_csv_string_example :
    (csv : Bytes) × (ps_to_csv_string linked ≡ ok csv)
    × (ps_new_from_csv_string base none (some csv) ≡ ok linked)
ps_new_from_csv_string-ps_to_csv_string_example =
    ps_new_from_csv_string-ps_to_csv_string base none linked linked-IsStorable

linked_abs : ps_get_abs linked ≡ ok (base ++ codes "/x")
unfolding ps_get_abs pn_get_abs new_from_abs
linked_abs = refl

abbrev resolved : Ps
resolved = record linked { ps_pn = some (new_from_abs base (resolve (codes "p/./x"))) }

-- The same file, touched.
abbrev touched : Ps
touched = record linked { ps_moment = record { ntv_sec = pos 2000; ntv_nsec = pos 0 } }

ps_diff-none_example : (ps_diff 1000 linked touched ≡ ok none) ↔ (
    (linked.ps_datatype ≡ touched.ps_datatype)
    × (linked.ps_size ≡ touched.ps_size)
    × (base ++ codes "/x" ≡ base ++ codes "/x")
    × SameContent 1000 linked touched linked.ps_dcode touched.ps_dcode)
unfolding ps_get_abs
ps_diff-none_example =
    ps_diff-none 1000 linked touched (base ++ codes "/x") (base ++ codes "/x") linked_abs linked_abs
