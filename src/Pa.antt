-- ===== src/Pa.antt =====
-- src/pa.c: an action on a file, as one audited process performed it, and the state of the file then.
pub mod Cmp
pub mod Copy
pub mod Order
pub mod Csv
pub mod RoundTrip
mod Tests
use audited_objects.Prelude.{
  ℕ, Bool, ◌||◌, Option, none, some, ◌==◌, Bytes, codes, Outcome, ok, null, abort, ◌>>=◌,
}
use audited_objects.Prelude.Int.{ℤ, pos}
use audited_objects.Moment.{Moment, moment_is_set}
use audited_objects.Ps.{
  Ps, set_str, get_str, ps_get_rel, ps_get_abs, ps_is_member, ps_has_dcode, ps_is_dir,
}
use audited_objects.Ps.Diff.{ps_diff}
use audited_objects.Ps.Copy.{ps_copy}

-- OP_READ to OP_MKDIR
abbrev pub op_read : ℕ
op_read = b'R'

abbrev pub op_exec : ℕ
op_exec = b'X'

abbrev pub op_append : ℕ
op_append = b'A'

abbrev pub op_creat : ℕ
op_creat = b'C'

abbrev pub op_link : ℕ
op_link = b'L'

abbrev pub op_symlink : ℕ
op_symlink = b'S'

abbrev pub op_unlink : ℕ
op_unlink = b'U'

-- CSV_NULL_FIELD
abbrev pub csv_null_field : Bytes
csv_null_field = codes "-"

-- `struct path_action_s`
pub record Pa : Type 0 where
  pub pa_op : ℕ
  pub pa_call : Option Bytes
  pub pa_timestamp : Moment
  pub pa_pid : ℕ
  pub pa_ppid : ℕ
  pub pa_tid : ℕ
  pub pa_depth : ℕ
  pub pa_pccode : Option Bytes
  pub pa_ccode : Option Bytes
  pub pa_fd : ℤ
  pub pa_uploadable : ℤ
  pub pa_ps : Option Ps

-- The state behind a pointer that is read.
abbrev pub the_ps : Option Ps → Outcome Ps
the_ps none = abort
the_ps (some ps) = ok ps

unfoldable pub pa_new : Pa
pa_new = record {
  pa_op = 0;
  pa_call = none;
  pa_timestamp = record { ntv_sec = pos 0; ntv_nsec = pos 0 };
  pa_pid = 0;
  pa_ppid = 0;
  pa_tid = 0;
  pa_depth = 0;
  pa_pccode = none;
  pa_ccode = none;
  pa_fd = pos 0;
  pa_uploadable = pos 0;
  pa_ps = none;
}

unfoldable pub pa_get_rel : Pa → Outcome Bytes
pa_get_rel pa = do ps ← the_ps pa.pa_ps; ps_get_rel ps

unfoldable pub pa_get_abs : Pa → Outcome Bytes
pa_get_abs pa = do ps ← the_ps pa.pa_ps; ps_get_abs ps

unfoldable pub pa_is_member : Pa → Outcome Bool
pa_is_member pa = do ps ← the_ps pa.pa_ps; ps_is_member ps

unfoldable pub pa_has_dcode : Pa → Outcome Bool
pa_has_dcode pa = do ps ← the_ps pa.pa_ps; ok (ps_has_dcode ps)

unfoldable pub pa_is_read : Pa → Bool
pa_is_read pa = pa.pa_op == op_exec || pa.pa_op == op_read

unfoldable pub pa_is_write : Pa → Bool
pa_is_write pa = pa.pa_op == op_creat || pa.pa_op == op_append

unfoldable pub pa_is_link : Pa → Bool
pa_is_link pa = pa.pa_op == op_link

unfoldable pub pa_is_symlink : Pa → Bool
pa_is_symlink pa = pa.pa_op == op_symlink

unfoldable pub pa_is_unlink : Pa → Bool
pa_is_unlink pa = pa.pa_op == op_unlink

unfoldable pub pa_has_timestamp : Pa → Bool
pa_has_timestamp pa = moment_is_set pa.pa_timestamp

-- `pa_diff`
unfoldable pub pa_diff : ℕ → Pa → Pa → Outcome (Option Bytes)
pa_diff roundoff pa1 pa2 = do
  ps1 ← the_ps pa1.pa_ps
  ps2 ← the_ps pa2.pa_ps
  ps_diff roundoff ps1 ps2

-- `pa_copy`, by its setters.
unfoldable pub pa_copy : Bytes → Option Bytes → Pa → Outcome Pa
unfolding set_str get_str
pa_copy base cwd cpa = do
  ps ← the_ps cpa.pa_ps
  nps ← ps_copy base cwd ps
  ok (record {
    pa_op = cpa.pa_op;
    pa_call = set_str cpa.pa_call;
    pa_timestamp = cpa.pa_timestamp;
    pa_pid = cpa.pa_pid;
    pa_ppid = cpa.pa_ppid;
    pa_tid = cpa.pa_tid;
    pa_depth = cpa.pa_depth;
    pa_pccode = set_str (some (get_str csv_null_field cpa.pa_pccode));
    pa_ccode = set_str (some (get_str csv_null_field cpa.pa_ccode));
    pa_fd = cpa.pa_fd;
    pa_uploadable = cpa.pa_uploadable;
    pa_ps = some nps;
  })
