-- ===== src/Pa/Tests.antt =====
-- Actions on files, on examples.
use audited_objects.Pn.Canon.Resolve.{resolve}
use audited_objects.Prelude.{
  ℕ, ◌≡◌, ◌/◌, ◌++◌, ◌↔◌, refl, some, none, Bytes, codes, arith, ok, contains, contains-Lacks,
  str_eq,
}
use audited_objects.Prelude.Int.{ℤ, pos}
use audited_objects.Moment.{Moment}
use audited_objects.Moment.Order.{IsRecent, since_epoch, compare_ℤ}
use audited_objects.Pn.{Pn, new_from_abs, pn_get_rel, dot_if_empty}
use audited_objects.Pn.Member.{member}
use audited_objects.Ps.{Ps, csv_field_is_null, ps_get_rel}
use audited_objects.Ps.Parts.{second_of}
use audited_objects.Ps.RoundTrip.{IsStorable}
use audited_objects.Pa.{Pa, pa_get_rel, pa_is_read, pa_is_unlink}
use audited_objects.Pa.Cmp.{pa_cmp}
use audited_objects.Pa.Csv.{pa_to_csv_string, pa_new_from_csv_string}
use audited_objects.Pa.RoundTrip.{IsReportable, pa_new_from_csv_string-pa_to_csv_string}
use audited_objects.Pa.Order.{IsNamed, opposite, pa_cmp_zero, pa_cmp-opposite, pa_cmp_writes}

abbrev base : Bytes
base = codes "/p"

abbrev file_pn : Pn
file_pn = new_from_abs base (base ++ codes "/x")

abbrev noon : Moment
noon = record { ntv_sec = pos 1000; ntv_nsec = pos 500000000 }

abbrev later : Moment
later = record { ntv_sec = pos 1002; ntv_nsec = pos 250000000 }

abbrev state : Ps
state = record {
  ps_moment = noon;
  ps_size = pos 42;
  ps_mode = 33188;
  ps_dcode = none;
  ps_fsname = none;
  ps_pn = some file_pn;
  ps_pn2 = none;
  ps_target = none;
  ps_datatype = b'f';
}

abbrev created : Pa
created = record {
  pa_op = b'C';
  pa_call = some (codes "open");
  pa_timestamp = noon;
  pa_pid = 12;
  pa_ppid = 11;
  pa_tid = 1;
  pa_depth = 3;
  pa_pccode = none;
  pa_ccode = some (codes "ab12");
  pa_fd = pos 4;
  pa_uploadable = pos 1;
  pa_ps = some state;
}

abbrev removed : Pa
removed = record created { pa_op = b'U' }

abbrev appended : Pa
appended = record created { pa_op = b'A'; pa_timestamp = later }

abbrev opened : Pa
opened = record created { pa_op = b'R' }

state-IsStorable : IsStorable base none state
state-IsStorable = record {
  letter = omega arith;
  dcode = tt;
  fsname = tt;
  known = tt;
  moment = record {
    sec = 1000;
    nsec = 500000000;
    is_sec = refl;
    is_nsec = refl;
    small_sec = omega arith;
    small_nsec = omega arith;
  };
  size = omega arith;
  mode = omega arith;
  link = second_of (omega arith) refl tt;
  pn = file_pn;
  has_pn = refl;
  stable = member (codes "x") (ground arith) refl refl;
}

created-IsReportable : IsReportable base none created
created-IsReportable = record {
  letter = omega arith;
  name = codes "open";
  has_call = refl;
  call = (
    unfold csv_field_is_null str_eq in refl,
    contains-Lacks b',' (codes "open") (unfold contains in refl),
  );
  timestamp = record {
    sec = 1000;
    nsec = 500000000;
    is_sec = refl;
    is_nsec = refl;
    small_sec = omega arith;
    small_nsec = omega arith;
  };
  pid = omega arith;
  depth = omega arith;
  ppid = omega arith;
  tid = omega arith;
  pccode = tt;
  ccode = (
    unfold csv_field_is_null str_eq in refl,
    contains-Lacks b',' (codes "ab12") (unfold contains in refl),
  );
  ps = state;
  has_ps = refl;
  state = state-IsStorable;
}

pa_new_from_csv_string-pa_to_csv_string_example :
    (csv : Bytes) × (pa_to_csv_string created ≡ ok (csv ++ codes "\n"))
    × (pa_new_from_csv_string base none (some csv)
        ≡ ok (record created { pa_fd = pos 0; pa_uploadable = pos 0 }))
pa_new_from_csv_string-pa_to_csv_string_example =
    pa_new_from_csv_string-pa_to_csv_string base none created created-IsReportable

-- Every one of them is an action on the same file.
abbrev named : (op : ℕ) → (m : Moment) → IsNamed (record created { pa_op = op; pa_timestamp = m })
unfolding pa_get_rel ps_get_rel pn_get_rel dot_if_empty new_from_abs
named op m = (codes "x", refl)

abbrev noon-IsRecent : IsRecent noon
noon-IsRecent = record {
  sec = 1000;
  nsec = 500000000;
  is_sec = refl;
  is_nsec = refl;
  fits = omega arith;
}

abbrev later-IsRecent : IsRecent later
later-IsRecent = record {
  sec = 1002;
  nsec = 250000000;
  is_sec = refl;
  is_nsec = refl;
  fits = omega arith;
}

pa_cmp_zero_example : (pa_cmp 1000 16 created 32 opened ≡ ok (pos 0)) ↔ (◌≡◌ {A = ℕ} 16 32)
pa_cmp_zero_example = pa_cmp_zero 1000 16 32 created opened (named b'C' noon) (named b'R' noon)

pa_cmp-opposite_example :
    (rc : ℤ) × (pa_cmp 1000 16 removed 32 created ≡ ok rc)
    × (pa_cmp 1000 32 created 16 removed ≡ ok (opposite rc))
pa_cmp-opposite_example =
    pa_cmp-opposite 1000 16 32 removed created (named b'U' noon) (named b'C' noon) noon-IsRecent
      noon-IsRecent (omega arith) (omega arith) (unfold pa_is_unlink in refl)

pa_cmp_writes_example :
    pa_cmp 1000 16 removed 32 appended
    ≡ ok (compare_ℤ (since_epoch noon-IsRecent / 1000) (since_epoch later-IsRecent / 1000))
pa_cmp_writes_example =
    pa_cmp_writes 1000 16 32 removed appended (named b'U' noon) (named b'A' later) noon-IsRecent
      later-IsRecent (omega arith) (omega arith) (unfold pa_is_read in refl)
      (unfold pa_is_read in refl) (omega arith)

-- The same, with the path name that pn_new makes of "/p/./x".
abbrev resolved : Pa
resolved = record created {
  pa_ps = some (record state { ps_pn = some (new_from_abs base (resolve (codes "p/./x"))) });
}
