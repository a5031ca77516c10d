-- ===== src/Ca/GroupTests.antt =====
-- Groups of commands, on examples.
use audited_objects.Prelude.{
  arith, ◌==◌, ◌≡◌, Outcome, if◌then◌else◌, Bool, [], ◌∷◌, some, none, ok, null, abort, true, false,
  refl,
}
use audited_objects.Prelude.Int.{pos}
use audited_objects.Strsep.{strsep}
use audited_objects.Prelude.Word.{to_u64, to_i64}
use audited_objects.Prelude.Int.{◌*ℤ◌}
use audited_objects.Radix.{format_to_radix}
use audited_objects.Ca.Header.{ca_format_header}
use audited_objects.Moment.{
  moment_format, moment_is_set, moment_cmp, sign_of, minus64, nanos, moment_parse,
}
use audited_objects.Pn.{pn_new, pn_get_rel, pn_get_abs}
use audited_objects.Pn.Canon.{path_canon}
use audited_objects.Ps.{Ps, ps_new_from_path, ps_get_rel, ps_get_abs}
use audited_objects.Ps.Copy.{ps_copy}
use audited_objects.Pa.{Pa, pa_copy, pa_get_rel, pa_has_timestamp, pa_is_read}
use audited_objects.Ca.{length, List, Bytes, ℕ, codes, Ca}
use audited_objects.Ca.Key.{Ck}
use audited_objects.Ca.Dictionary.{by_path}
use audited_objects.Ca.Group.{Cmd, Heap}
use audited_objects.Ca.Publish.{Outlet, World, ca_publish, ca_disband}
use audited_objects.Ca.Gather.{Outside, Distinct}
use audited_objects.Ca.Merge.{Published, ca_publish-Published}
use audited_objects.Ca.Disband.{Disbanded, ca_disband-Disbanded}

abbrev header : Ca
header = record {
  ca_cmdid = 12;
  ca_depth = 1;
  ca_pcmdid = 11;
  ca_starttime = record { ntv_sec = pos 0; ntv_nsec = pos 0 };
  ca_duration = 0;
  ca_prog = some (codes "cc");
  ca_host = none;
  ca_recycled = none;
  ca_rwd = none;
  ca_pccode = none;
  ca_ccode = none;
  ca_pathcode = none;
  ca_line = some (codes "cc a");
  ca_freetext = none;
}

abbrev key : ℕ → Ck
key cmdid = record { ck_ccode = codes "5+5"; ck_depth = 1; ck_cmdid = cmdid }

abbrev base : Bytes
base = codes "/p"

abbrev file : Ps
file = record {
  ps_moment = record { ntv_sec = pos 0; ntv_nsec = pos 0 };
  ps_size = pos 5;
  ps_mode = 0;
  ps_dcode = none;
  ps_fsname = none;
  ps_pn = some (record { pn_abs = codes "/p/a"; pn_rel = 3 });
  ps_pn2 = none;
  ps_target = none;
  ps_datatype = b'f';
}

abbrev action : ℕ → Pa
action op = record {
  pa_op = op;
  pa_call = none;
  pa_timestamp = record { ntv_sec = pos 0; ntv_nsec = pos 0 };
  pa_pid = 12;
  pa_ppid = 11;
  pa_tid = 0;
  pa_depth = 1;
  pa_pccode = none;
  pa_ccode = none;
  pa_fd = pos 3;
  pa_uploadable = pos 0;
  pa_ps = some file;
}

-- A group: the leader at 0, which is closed, and the members at 1, closed, and at 2, still running.
abbrev single : Bool → Pa → Cmd by_path.Carrier
single done pa = record {
  header = header;
  raw_pa = some (pa ∷ []);
  cooked_pa = none;
  group = none;
  leader = some 0;
  strong = false;
  started = true;
  closed = done;
  processed = false;
  subs = none;
}

abbrev group_of_two : List (Ck × ℕ)
group_of_two = (key 12, 1) ∷ (key 13, 2) ∷ []

abbrev heap : Heap by_path.Carrier
heap r =
    if r == 0
    then record (single true (action b'R')) { group = some group_of_two }
    else if r == 1
    then single true (action b'C')
    else single false (action b'U')

-- What is delivered is noted.
abbrev outlet : Outlet by_path (List ℕ)
outlet = record {
  base = base;
  cwd = none;
  roundoff = 1000;
  crc32 = length;
  raw_order = λ pas. pas;
  cooked_order = λ d. [];
  hash_scan = λ g. g;
  deliver = λ r c w. r ∷ w;
}

abbrev result : Outcome (World outlet) → World outlet
result (ok hw) = hw
result null = (heap, [])
result abort = (heap, [])

different_0 : Outside 0 group_of_two
different_0 = ((λ e. absurd (omega arith)), ((λ e. absurd (omega arith)), tt))

different : Distinct group_of_two
different = (((λ e. absurd (omega arith)), tt), (tt, tt))

disbanded : ca_disband outlet 0 (heap, []) ≡ ok (result (ca_disband outlet 0 (heap, [])))
unfolding ca_disband strsep moment_parse pn_new path_canon ps_new_from_path ps_copy pa_copy
    pa_get_rel ps_get_rel ps_get_abs pn_get_abs
disbanded = refl

ca_disband-Disbanded_example :
    Disbanded outlet 0 group_of_two heap [] (result (ca_disband outlet 0 (heap, [])))
ca_disband-Disbanded_example =
    ca_disband-Disbanded outlet 0 group_of_two heap [] (result (ca_disband outlet 0 (heap, [])))
      refl different_0 different disbanded

published : ca_publish outlet 0 (heap, []) ≡ ok (result (ca_publish outlet 0 (heap, [])))
unfolding ca_publish strsep moment_parse pn_new path_canon ps_new_from_path ps_copy pa_copy
    pa_get_rel ps_get_rel ps_get_abs pn_get_abs ca_format_header moment_format format_to_radix
    to_u64 pn_get_rel pa_is_read pa_has_timestamp moment_is_set moment_cmp sign_of minus64 to_i64
    nanos ◌*ℤ◌
published = refl

ca_publish-Published_example :
    Published outlet 0
      (action b'R' ∷ [])
      group_of_two
      heap
      []
      (result (ca_publish outlet 0 (heap, [])))
ca_publish-Published_example =
    ca_publish-Published outlet 0 (action b'R' ∷ []) group_of_two heap []
      (result (ca_publish outlet 0 (heap, []))) refl refl different_0 different published
