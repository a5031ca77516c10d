-- ===== src/Pa/RoundTrip.antt =====
-- An action survives being written as a line and read back.
use mathlib.Core.List.{append_assoc}
use audited_objects.Prelude.{
  str_eq, ℕ, ◌^◌, ◌<◌, ◌≡◌, ◌≢◌, refl, sym, ap₂, ok, Lacks, All, Bytes, some, none, [], ◌∷◌, ◌++◌,
  Option, arith, ◌∙◌, ap, codes,
}
use audited_objects.Prelude.Int.{pos}
use audited_objects.Radix.Scan.{strtoul}
use audited_objects.Radix.RoundTrip.{IsNumeral-Lacks, strtoul-IsNumeral}
use audited_objects.Moment.{moment_bufmax, moment_format, moment_parse}
use audited_objects.Moment.RoundTrip.{IsMoment, moment_parse-moment_format, moment_format-Lacks}
use audited_objects.Ps.{Ps, set_str, get_str, csv_field_is_null}
use audited_objects.Ps.Csv.{format_lu, field, ps_new_from_csv_string}
use audited_objects.Ps.Parts.{format_lu-IsNumeral, IsField}
use audited_objects.Ps.RoundTrip.{
  IsStorable, next_field-append, print_char_lem, ps_new_from_csv_string-ps_to_csv_string,
}
use audited_objects.Pa.{Pa, pa_new, csv_null_field}
use audited_objects.Pa.Csv.{
  pabuf, pa_to_csv_string, PaFields, pa_fields, pa_from_fields, timestamp_of,
  pa_new_from_csv_string,
}

-- Nine fields without commas, and what follows them.
pa_fields_lem :
    (a b c d e f g h i rest : Bytes)
    → All (Lacks b',') (a ∷ b ∷ c ∷ d ∷ e ∷ f ∷ g ∷ h ∷ i ∷ [])
    → pa_fields (
        some (
          field a
            (field b (field c (field d (field e (field f (field g (field h (field i rest))))))))))
      ≡ ok (record {
        op = a;
        call = b;
        timestamp = c;
        pid = d;
        depth = e;
        ppid = f;
        tid = g;
        pccode = h;
        ccode = i;
        linebuf = some rest;
      })
unfolding pa_fields
pa_fields_lem a b c d e f g h i rest l = rw (next_field-append a _ l.0) (
    rw (next_field-append b _ l.1.0) (
      rw (next_field-append c _ l.1.1.0) (
        rw (next_field-append d _ l.1.1.1.0) (
          rw (next_field-append e _ l.1.1.1.1.0) (
            rw (next_field-append f _ l.1.1.1.1.1.0) (
              rw (next_field-append g _ l.1.1.1.1.1.1.0) (
                rw (next_field-append h _ l.1.1.1.1.1.1.1.0)
                  (rw (next_field-append i rest l.1.1.1.1.1.1.1.1.0)))))))))

-- A code that a setter stores, or none, which is written as "-".
set_str-code : (o : Option Bytes) → IsField o → set_str (some (get_str csv_null_field o)) ≡ o
unfolding get_str set_str csv_field_is_null str_eq
set_str-code none h = refl
set_str-code (some s) h = rw (h.0)

code-Lacks : (o : Option Bytes) → IsField o → Lacks b',' (get_str csv_null_field o)
unfolding get_str
code-Lacks none h = (omega arith, tt)
code-Lacks (some s) h = h.1

module _ (base : Bytes) (cwd : Option Bytes) where
  -- An action that the lines can carry: a letter, a call with a name, strings without commas, a
  -- timestamp, 64-bit numbers and a state that the lines can carry.
  pub record IsReportable (pa : Pa) : Type 0 where
    pub letter : (0 < pa.pa_op) × (pa.pa_op < 256) × (pa.pa_op ≢ b',')
    pub name : Bytes
    pub has_call : pa.pa_call ≡ some name
    pub call : IsField (some name)
    pub timestamp : IsMoment pa.pa_timestamp
    pub pid : pa.pa_pid < 2 ^ 64
    pub depth : pa.pa_depth < 2 ^ 64
    pub ppid : pa.pa_ppid < 2 ^ 64
    pub tid : pa.pa_tid < 2 ^ 64
    pub pccode : IsField pa.pa_pccode
    pub ccode : IsField pa.pa_ccode
    pub ps : Ps
    pub has_ps : pa.pa_ps ≡ some ps
    pub state : IsStorable base cwd ps

  module _ (pa : Pa) (s : IsReportable pa) (timestamp psbuf : Bytes) where
    abbrev fields : PaFields
    fields = record {
      op = pa.pa_op ∷ [];
      call = s.name;
      timestamp = timestamp;
      pid = format_lu pa.pa_pid;
      depth = format_lu pa.pa_depth;
      ppid = format_lu pa.pa_ppid;
      tid = format_lu pa.pa_tid;
      pccode = get_str csv_null_field pa.pa_pccode;
      ccode = get_str csv_null_field pa.pa_ccode;
      linebuf = some psbuf;
    }

    -- The line, with a text behind `pabuf`.
    abbrev line : Bytes → Bytes
    line more = field (pa.pa_op ∷ []) (
        field s.name (
          field timestamp (
            field (format_lu pa.pa_pid) (
              field (format_lu pa.pa_depth) (
                field (format_lu pa.pa_ppid) (
                  field (format_lu pa.pa_tid) (
                    field (get_str csv_null_field pa.pa_pccode)
                      (field (get_str csv_null_field pa.pa_ccode) more))))))))

    pabuf-append : (more : Bytes) → pabuf pa timestamp ++ more ≡ line more
    unfolding pabuf get_str
    pabuf-append more =
        rw (s.has_call)
          (rw (print_char_lem base cwd pa.pa_op _ (s.letter.0, s.letter.1)) (simp (append_assoc)))

    pa_fields-line :
        moment_format pa.pa_timestamp moment_bufmax ≡ ok timestamp
        → pa_fields (some (line psbuf)) ≡ ok fields
    pa_fields-line e =
        pa_fields_lem (pa.pa_op ∷ []) s.name timestamp (format_lu pa.pa_pid) (format_lu pa.pa_depth)
          (format_lu pa.pa_ppid) (format_lu pa.pa_tid) (get_str csv_null_field pa.pa_pccode)
          (get_str csv_null_field pa.pa_ccode) psbuf
          (
            (s.letter.2, tt),
            (
              s.call.1,
              (
                moment_format-Lacks pa.pa_timestamp b',' timestamp (omega arith) e,
                (
                  lu s.pid,
                  (
                    lu s.depth,
                    (
                      lu s.ppid,
                      (
                        lu s.tid,
                        (code-Lacks pa.pa_pccode s.pccode, (code-Lacks pa.pa_ccode s.ccode, tt)),
                      ),
                    ),
                  ),
                ),
              ),
            ),
          )
      where
        lu : {n : ℕ} → n < 2 ^ 64 → Lacks b',' (format_lu n)
        lu {n} small = IsNumeral-Lacks b',' (omega arith) (format_lu-IsNumeral n small)

    strtoul-format_lu : (n : ℕ) → n < 2 ^ 64 → strtoul 10 (format_lu n) ≡ n
    strtoul-format_lu n small =
        strtoul-IsNumeral 10 n (format_lu n) small (format_lu-IsNumeral n small)

    pa_from_fields_lem :
        moment_parse timestamp ≡ ok (0, pa.pa_timestamp)
        → ps_new_from_csv_string base cwd (some psbuf) ≡ ok s.ps
        → pa_from_fields base cwd fields ≡ ok (record pa { pa_fd = pos 0; pa_uploadable = pos 0 })
    unfolding pa_from_fields timestamp_of pa_new
    pa_from_fields_lem pm back =
        let call : set_str (some s.name) ≡ some s.name = unfold set_str in rw (s.call.0) in
        rw pm (
          rw back (
            rw (strtoul-format_lu pa.pa_pid s.pid, strtoul-format_lu pa.pa_ppid s.ppid)
              (rw (strtoul-format_lu pa.pa_tid s.tid, strtoul-format_lu pa.pa_depth s.depth)
                (rw (call, set_str-code pa.pa_pccode s.pccode, set_str-code pa.pa_ccode s.ccode)
                  (ap₂
                    (λ c p.
                      ok (record pa {
                        pa_call = c;
                        pa_ps = p;
                        pa_fd = pos 0;
                        pa_uploadable = pos 0;
                      }))
                    (sym s.has_call) (sym s.has_ps))))))

  -- pa_toCSVString of an action that can be reported succeeds and ends in a newline, and
  -- pa_newFromCSVString makes of the line, without the newline, the same action: every member of the
  -- structure and of the state in it, but for the file descriptor and the upload flag, which are 0.
  pub pa_new_from_csv_string-pa_to_csv_string :
      (pa : Pa)
      → IsReportable pa
      → (csv : Bytes) × (pa_to_csv_string pa ≡ ok (csv ++ codes "\n"))
        × (pa_new_from_csv_string base cwd (some csv)
            ≡ ok (record pa { pa_fd = pos 0; pa_uploadable = pos 0 }))
  unfolding pa_new_from_csv_string pa_to_csv_string
  pa_new_from_csv_string-pa_to_csv_string pa s =
      let (timestamp, et, pt) = moment_parse-moment_format pa.pa_timestamp s.timestamp in
      let (psbuf, es, back) = ps_new_from_csv_string-ps_to_csv_string base cwd s.ps s.state in
      let text : pabuf pa timestamp ++ (psbuf ++ codes "\n")
          ≡ line pa s timestamp psbuf psbuf ++ codes "\n" =
        sym (append_assoc (pabuf pa timestamp) psbuf (codes "\n"))
        ∙ ap (λ t. t ++ codes "\n") (pabuf-append pa s timestamp psbuf psbuf) in
      (
        line pa s timestamp psbuf psbuf,
        rw et (rw (s.has_ps) (rw es (ap ok text))),
        rw (pa_fields-line pa s timestamp psbuf et)
            (pa_from_fields_lem pa s timestamp psbuf pt back),
      )
