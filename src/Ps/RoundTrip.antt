-- ===== src/Ps/RoundTrip.antt =====
-- A state survives being written as a line and read back.
use audited_objects.Prelude.{
  ℕ, ◌^◌, ◌<◌, ◌≡◌, ◌≢◌, sym, ok, Lacks, All, Bytes, some, none, [], ◌∷◌, Option, arith, ◌∙◌, ap,
  ◌%◌,
}
use native.Mathlib.Nat.{mod-eq_of_lt}
use audited_objects.Prelude.Word.{to_u64, to_i64, to_u64-lt}
use audited_objects.Radix.Scan.{strtoul}
use audited_objects.Radix.RoundTrip.{IsNumeral, IsNumeral-Lacks, strtoul-IsNumeral}
use audited_objects.Strsep.{strsep}
use audited_objects.Strsep.Fields.{strsep_scan-append}
use audited_objects.Moment.{moment_bufmax, moment_format, moment_parse, csv_radix}
use audited_objects.Moment.RoundTrip.{IsMoment, moment_parse-moment_format, moment_format-Lacks}
use audited_objects.Pn.{Pn, pn_get_rel}
use audited_objects.Pn.Member.{IsStable, pn_new-pn_get_rel}
use audited_objects.Ps.{Ps, get_str, ps_get_rel, ps_get_rel2}
use audited_objects.Ps.Csv.{
  format_lu, print_char, field, fsname_text, target_text, format_mode, ps_to_csv_string, pn_of_rest,
  PsFields, ps_from_fields, next_field, ps_fields, ps_new_from_csv_string,
}
use audited_objects.Ps.Parts.{
  IsInt64, to_i64-to_u64, format_lu-IsNumeral, format_mode_total, IsField, set_str-get_str,
  get_str-Lacks, IsKnown, set_str-fsname, fsname_text-Lacks, IsLink, set_link-target_text,
  link_text-Lacks,
}

pub next_field-append :
    (tok rest : Bytes) → Lacks b',' tok → next_field (some (field tok rest)) ≡ ok (tok, some rest)
unfolding next_field strsep
next_field-append tok rest l = rw (strsep_scan-append b',' tok rest l)

-- Seven fields without commas, and what follows them.
ps_fields_lem :
    (a b c d e f g rest : Bytes)
    → All (Lacks b',') (a ∷ b ∷ c ∷ d ∷ e ∷ f ∷ g ∷ [])
    → ps_fields (some (field a (field b (field c (field d (field e (field f (field g rest))))))))
      ≡ ok (record {
        datatype = a;
        fsname = b;
        moment = c;
        size = d;
        mode = e;
        dcode = f;
        target = g;
        linebuf = some rest;
      })
unfolding ps_fields
ps_fields_lem a b c d e f g rest l =
    rw (next_field-append a (field b (field c (field d (field e (field f (field g rest)))))) l.0) (
      rw (next_field-append b (field c (field d (field e (field f (field g rest))))) l.1.0) (
        rw (next_field-append c (field d (field e (field f (field g rest)))) l.1.1.0) (
          rw (next_field-append d (field e (field f (field g rest))) l.1.1.1.0) (
            rw (next_field-append e (field f (field g rest)) l.1.1.1.1.0) (
              rw (next_field-append f (field g rest) l.1.1.1.1.1.0)
                (rw (next_field-append g rest l.1.1.1.1.1.1.0)))))))

module _ (base : Bytes) (cwd : Option Bytes) where
  -- A state that the lines can carry: a letter, strings without commas, a moment and numbers in their
  -- ranges, and path names that are stable.
  pub record IsStorable (ps : Ps) : Type 0 where
    pub letter : (0 < ps.ps_datatype) × (ps.ps_datatype < 256) × (ps.ps_datatype ≢ b',')
    pub dcode : IsField ps.ps_dcode
    pub fsname : IsField ps.ps_fsname
    pub known : IsKnown ps.ps_fsname
    pub moment : IsMoment ps.ps_moment
    pub size : IsInt64 ps.ps_size
    pub mode : ps.ps_mode < 2 ^ 32
    pub link : IsLink base cwd ps
    pub pn : Pn
    pub has_pn : ps.ps_pn ≡ some pn
    pub stable : IsStable base pn

  pub print_char_lem : (c : ℕ) (rest : Bytes) → (0 < c) × (c < 256) → print_char c rest ≡ c ∷ rest
  unfolding print_char
  print_char_lem c rest h = let e : c % 256 ≡ c = mod-eq_of_lt h.1 in rw e (ground (arith, h.0))

  module _ (ps : Ps) (s : IsStorable ps) (mtime modebuf : Bytes) where
    -- The fields of the line.
    abbrev fields : PsFields
    fields = record {
      datatype = ps.ps_datatype ∷ [];
      fsname = fsname_text ps.ps_fsname;
      moment = mtime;
      size = format_lu (to_u64 ps.ps_size);
      mode = modebuf;
      dcode = get_str [] ps.ps_dcode;
      target = target_text ps;
      linebuf = some (pn_get_rel s.pn);
    }

    abbrev line : Bytes
    line = field (ps.ps_datatype ∷ []) (
        field (fsname_text ps.ps_fsname) (
          field mtime (
            field (format_lu (to_u64 ps.ps_size)) (
              field modebuf
                (field (get_str [] ps.ps_dcode) (field (target_text ps) (pn_get_rel s.pn)))))))

    ps_to_csv_string-line :
        moment_format ps.ps_moment moment_bufmax ≡ ok mtime
        → format_mode ps.ps_mode ≡ ok modebuf
        → ps_to_csv_string ps ≡ ok line
    unfolding ps_to_csv_string ps_get_rel
    ps_to_csv_string-line em eb =
        rw em (
          rw (eb)
            (rw (s.has_pn) (ap ok (print_char_lem ps.ps_datatype _ (s.letter.0, s.letter.1)))))

    ps_from_fields_lem :
        moment_parse mtime ≡ ok (0, ps.ps_moment)
        → IsNumeral csv_radix ps.ps_mode modebuf
        → ps_from_fields base cwd fields ≡ ok ps
    unfolding ps_from_fields pn_of_rest
    ps_from_fields_lem pm nb =
        let small : to_u64 ps.ps_size < 2 ^ 64 = to_u64-lt ps.ps_size in
        let size : to_i64 (strtoul 10 (format_lu (to_u64 ps.ps_size))) ≡ ps.ps_size =
          ap to_i64 (
            strtoul-IsNumeral 10 (to_u64 ps.ps_size) _ small
              (format_lu-IsNumeral (to_u64 ps.ps_size) small))
          ∙ to_i64-to_u64 ps.ps_size s.size in
        let mode : strtoul csv_radix modebuf % 2 ^ 32 ≡ ps.ps_mode =
          ap (λ n. n % 2 ^ 32)
            (strtoul-IsNumeral csv_radix ps.ps_mode modebuf (omega (arith, s.mode)) nb)
          ∙ mod-eq_of_lt s.mode in
        let link = set_link-target_text base cwd ps (record ps { ps_pn = none }) s.link in
        rw pm (
          rw (size, mode)
            (rw (set_str-get_str ps.ps_dcode s.dcode, set_str-fsname ps.ps_fsname s.fsname s.known)
              (rw link (
                rw (pn_new-pn_get_rel base cwd s.pn s.stable)
                  (ap (λ o. ok (record ps { ps_pn = o })) (sym s.has_pn))))))

    ps_fields-line :
        moment_format ps.ps_moment moment_bufmax ≡ ok mtime
        → IsNumeral csv_radix ps.ps_mode modebuf
        → ps_fields (some line) ≡ ok fields
    ps_fields-line em nb =
        let n = format_lu-IsNumeral (to_u64 ps.ps_size) (to_u64-lt ps.ps_size) in
        ps_fields_lem (ps.ps_datatype ∷ []) (fsname_text ps.ps_fsname) mtime
          (format_lu (to_u64 ps.ps_size)) modebuf (get_str [] ps.ps_dcode) (target_text ps)
          (pn_get_rel s.pn)
          (
            (s.letter.2, tt),
            (
              fsname_text-Lacks ps.ps_fsname s.fsname,
              (
                moment_format-Lacks ps.ps_moment b',' mtime (omega arith) em,
                (
                  IsNumeral-Lacks b',' (omega arith) n,
                  (
                    IsNumeral-Lacks b',' (omega arith) nb,
                    (
                      get_str-Lacks ps.ps_dcode s.dcode,
                      ((unfold target_text in link_text-Lacks (ps_get_rel2 ps) ps.ps_target), tt),
                    ),
                  ),
                ),
              ),
            ),
          )

  -- ps_toCSVString of a state that can be stored succeeds, and ps_newFromCSVString makes the same
  -- state of that line: every member of the structure, both path names included.
  pub ps_new_from_csv_string-ps_to_csv_string :
      (ps : Ps)
      → IsStorable ps
      → (csv : Bytes) × (ps_to_csv_string ps ≡ ok csv)
        × (ps_new_from_csv_string base cwd (some csv) ≡ ok ps)
  unfolding ps_new_from_csv_string
  ps_new_from_csv_string-ps_to_csv_string ps s =
      let (mtime, em, pm) = moment_parse-moment_format ps.ps_moment s.moment in
      let (modebuf, eb, nb) = format_mode_total ps.ps_mode s.mode in
      (
        line ps s mtime modebuf,
        ps_to_csv_string-line ps s mtime modebuf em eb,
        rw (ps_fields-line ps s mtime modebuf em nb) (ps_from_fields_lem ps s mtime modebuf pm nb),
      )
