-- ===== src/Pa/Csv.antt =====
-- pa_toCSVString and pa_newFromCSVString.
use audited_objects.Prelude.{
  Option, some, [], ◌++◌, ◌==◌, if◌then◌else◌, Bytes, codes, get_or, Outcome, ok, abort, ◌>>=◌,
}
use audited_objects.Radix.Scan.{strtoul}
use audited_objects.Moment.{Moment, moment_bufmax, moment_parse, moment_format}
use audited_objects.Ps.{set_str, get_str}
use audited_objects.Ps.Csv.{
  format_lu, print_char, field, next_field, ps_to_csv_string, ps_new_from_csv_string,
}
use audited_objects.Pa.{ℕ, Pa, pa_new, the_ps, csv_null_field}

-- What "%s" of printf makes of a NULL pointer.
abbrev pub null_text : Bytes
null_text = codes "(null)"

-- The fields of `pabuf`, each with FS1 behind it.
unfoldable pub pabuf : Pa → Bytes → Bytes
unfolding print_char
pabuf pa timestamp = print_char pa.pa_op (
    field [] (
      field (get_str null_text pa.pa_call) (
        field timestamp (
          field (format_lu pa.pa_pid) (
            field (format_lu pa.pa_depth) (
              field (format_lu pa.pa_ppid) (
                field (format_lu pa.pa_tid) (
                  field (get_str csv_null_field pa.pa_pccode)
                    (field (get_str csv_null_field pa.pa_ccode) [])))))))))

-- `pa_toCSVString`
unfoldable pub pa_to_csv_string : Pa → Outcome Bytes
unfolding pabuf
pa_to_csv_string pa = do
  timestamp ← moment_format pa.pa_timestamp moment_bufmax
  ps ← the_ps pa.pa_ps
  psbuf ← ps_to_csv_string ps
  ok (pabuf pa timestamp ++ (psbuf ++ codes "\n"))

-- The fields of a line, in their order, and what follows them.
pub record PaFields : Type 0 where
  pub op : Bytes
  pub call : Bytes
  pub timestamp : Bytes
  pub pid : Bytes
  pub depth : Bytes
  pub ppid : Bytes
  pub tid : Bytes
  pub pccode : Bytes
  pub ccode : Bytes
  pub linebuf : Option Bytes

-- The nine calls of util_strsep.
unfoldable pub pa_fields : Option Bytes → Outcome PaFields
unfolding next_field
pa_fields csv = do
  (op, l1) ← next_field csv
  (call, l2) ← next_field l1
  (timestamp, l3) ← next_field l2
  (pid, l4) ← next_field l3
  (depth, l5) ← next_field l4
  (ppid, l6) ← next_field l5
  (tid, l7) ← next_field l6
  (pccode, l8) ← next_field l7
  (ccode, linebuf) ← next_field l8
  ok (record {
    op = op;
    call = call;
    timestamp = timestamp;
    pid = pid;
    depth = depth;
    ppid = ppid;
    tid = tid;
    pccode = pccode;
    ccode = ccode;
    linebuf = linebuf;
  })

-- A timestamp that is parsed; a failure is an internal error.
unfoldable pub timestamp_of : Bytes → Outcome Moment
timestamp_of text = do (rc, timestamp) ← moment_parse text; if rc == 0 then ok timestamp else abort

-- From the `pa_new()` of pa_newFromCSVString on.
unfoldable pub pa_from_fields : Bytes → Option Bytes → PaFields → Outcome Pa
unfolding timestamp_of set_str pa_new
pa_from_fields base cwd f = do
  timestamp ← timestamp_of f.timestamp
  ps ← ps_new_from_csv_string base cwd f.linebuf
  ok (record pa_new {
    pa_op = get_or f.op 0 0;
    pa_call = set_str (some f.call);
    pa_timestamp = timestamp;
    pa_pid = strtoul 10 f.pid;
    pa_ppid = strtoul 10 f.ppid;
    pa_tid = strtoul 10 f.tid;
    pa_depth = strtoul 10 f.depth;
    pa_pccode = set_str (some f.pccode);
    pa_ccode = set_str (some f.ccode);
    pa_ps = some ps;
  })

-- `pa_newFromCSVString`
unfoldable pub pa_new_from_csv_string : Bytes → Option Bytes → Option Bytes → Outcome Pa
unfolding pa_fields pa_from_fields
pa_new_from_csv_string base cwd csv = do f ← pa_fields csv; pa_from_fields base cwd f

-- `pa_set_timestamp_str`: the return code of moment_parse, and the action.
unfoldable pub pa_set_timestamp_str : Pa → Bytes → Outcome (ℕ × Pa)
pa_set_timestamp_str pa str = do
  (rc, timestamp) ← moment_parse str
  ok (rc, record pa { pa_timestamp = timestamp })
