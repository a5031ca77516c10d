-- ===== src/Ca/RoundTrip.antt =====
-- A command's header line survives being written and read back.
use audited_objects.Prelude.{
  ℕ, ◌^◌, ◌<◌, ◌≡◌, ◌≢◌, refl, sym, subst, ap, true, some, [], ◌∷◌, ◌++◌, Bytes, codes, str_eq,
  str_eq_refl, length, ok, All, All-append, arith,
}
use audited_objects.Radix.RoundTrip.{IsNumeral, IsNumeral-Lacks}
use audited_objects.Moment.{moment_bufmax, moment_parse, moment_format, csv_radix}
use audited_objects.Moment.RoundTrip.{IsMoment, moment_parse-moment_format, moment_format-Lacks}
use audited_objects.Ps.{set_str, get_str, csv_field_is_null}
use audited_objects.Ps.Csv.{format_lu}
use audited_objects.Pa.{csv_null_field}
use audited_objects.Pa.Csv.{null_text, timestamp_of}
use audited_objects.Ca.{Ca}
use audited_objects.Ca.Newline.{put_tokens, LacksToken, take_tokens-put_tokens}
use audited_objects.Ca.Header.{
  code_from_str, ccode_of, header_text, ca_format_header, ca_set_line, CaFields, ca_from_fields,
  ca_new_from_csv_string,
}
use audited_objects.Ca.Parts.{
  IsStoredText, IsGivenText, set_str-get_str, get_str-IsText, set_str_given, given-IsText,
  lu-IsText, strtoul-format_lu, code_from_str_total,
}
use audited_objects.Ca.Line.{IsText, join_header, ca_fields_lem, header_end}

null_code_null : csv_field_is_null csv_null_field ≡ true
unfolding csv_field_is_null str_eq
null_code_null = refl

module _ (crc32 : Bytes → ℕ) where
  -- A command whose header can carry it: strings without commas and newlines, a program, a host and a
  -- directory, 64-bit numbers, a line without a newline token, and the command code of that line.
  pub record IsAnnounced (ca : Ca) : Type 0 where
    pub cmdid : ca.ca_cmdid < 2 ^ 64
    pub depth : ca.ca_depth < 2 ^ 64
    pub pcmdid : ca.ca_pcmdid < 2 ^ 64
    pub starttime : IsMoment ca.ca_starttime
    pub duration : ca.ca_duration < 2 ^ 64
    pub host : IsGivenText ca.ca_host
    pub recycled : IsStoredText ca.ca_recycled
    pub freetext : IsStoredText ca.ca_freetext
    pub prog : IsGivenText ca.ca_prog
    pub rwd : IsGivenText ca.ca_rwd
    pub pccode : IsStoredText ca.ca_pccode
    pub pathcode : IsStoredText ca.ca_pathcode
    pub line : Bytes
    pub has_line : ca.ca_line ≡ some line
    pub no_token : LacksToken line
    pub short : length line < 2 ^ 64
    pub hashed : crc32 line < 2 ^ 32
    pub code : Bytes
    pub is_code : code_from_str crc32 line ≡ ok code
    pub has_ccode : ca.ca_ccode ≡ ccode_of line code

  -- The command code is one text: digits, a plus and digits.
  ccode-IsText :
      (line code : Bytes)
      → length line < 2 ^ 64
      → IsNumeral csv_radix (crc32 line) code
      → IsText (get_str csv_null_field (ccode_of line code))
  unfolding ccode_of get_str
  ccode-IsText line [] small n = absurd (n.nonempty refl)
  ccode-IsText line (c ∷ code) small n =
      let (comma, newline) = lu-IsText (length line) small in
      (
        All-append (λ x. x ≢ b',') (c ∷ code) (b'+' ∷ format_lu (length line))
            (IsNumeral-Lacks b',' (omega arith) n) (omega arith, comma),
        All-append (λ x. x ≢ b'\n') (c ∷ code) (b'+' ∷ format_lu (length line))
            (IsNumeral-Lacks b'\n' (omega arith) n) (omega arith, newline),
      )

  module _ (ca : Ca) (s : IsAnnounced ca) (started : Bytes) where
    abbrev fields : CaFields
    fields = record {
      cmdid = format_lu ca.ca_cmdid;
      depth = format_lu ca.ca_depth;
      pcmdid = format_lu ca.ca_pcmdid;
      starttime = started;
      duration = format_lu ca.ca_duration;
      host = get_str (codes "?") ca.ca_host;
      recycled = get_str [] ca.ca_recycled;
      freetext = get_str [] ca.ca_freetext;
      prog = get_str null_text ca.ca_prog;
      rwd = get_str (codes ".") ca.ca_rwd;
      pccode = get_str csv_null_field ca.ca_pccode;
      ccode = get_str csv_null_field ca.ca_ccode;
      pathcode = get_str csv_null_field ca.ca_pathcode;
      linebuf = some (put_tokens s.line);
    }

    numeral : IsNumeral csv_radix (crc32 s.line) s.code
    numeral =
        let (text, e, n) = code_from_str_total crc32 s.line s.hashed in
        let same : text ≡ s.code = cc (e, s.is_code) in
        subst (λ t. IsNumeral csv_radix (crc32 s.line) t) same n

    own_ccode-IsText : IsText (get_str csv_null_field ca.ca_ccode)
    own_ccode-IsText = rw (s.has_ccode) (ccode-IsText s.line s.code s.short numeral)

    texts :
        moment_format ca.ca_starttime moment_bufmax ≡ ok started
        → All IsText (
            fields.cmdid ∷ fields.depth ∷ fields.pcmdid ∷ fields.starttime ∷ fields.duration
            ∷ fields.host ∷ fields.recycled ∷ fields.freetext ∷ fields.prog ∷ fields.rwd
            ∷ fields.pccode ∷ fields.ccode ∷ fields.pathcode ∷ [])
    texts e =
        let null_code : IsText csv_null_field = ((omega arith, tt), (omega arith, tt)) in
        (
          lu-IsText ca.ca_cmdid s.cmdid,
          (
            lu-IsText ca.ca_depth s.depth,
            (
              lu-IsText ca.ca_pcmdid s.pcmdid,
              (
                (
                  moment_format-Lacks ca.ca_starttime b',' started (omega arith) e,
                  moment_format-Lacks ca.ca_starttime b'\n' started (omega arith) e,
                ),
                (
                  lu-IsText ca.ca_duration s.duration,
                  (
                    given-IsText (codes "?") ca.ca_host s.host,
                    (
                      get_str-IsText [] (unfold csv_field_is_null in refl) (tt, tt) ca.ca_recycled
                          s.recycled,
                      (
                        get_str-IsText [] (unfold csv_field_is_null in refl) (tt, tt) ca.ca_freetext
                            s.freetext,
                        (
                          given-IsText null_text ca.ca_prog s.prog,
                          (
                            given-IsText (codes ".") ca.ca_rwd s.rwd,
                            (
                              get_str-IsText csv_null_field null_code_null null_code ca.ca_pccode
                                  s.pccode,
                              (
                                own_ccode-IsText,
                                (
                                  get_str-IsText csv_null_field null_code_null null_code
                                      ca.ca_pathcode s.pathcode,
                                  tt,
                                ),
                              ),
                            ),
                          ),
                        ),
                      ),
                    ),
                  ),
                ),
              ),
            ),
          ),
        )

    written :
        moment_format ca.ca_starttime moment_bufmax ≡ ok started
        → ca_format_header ca
          ≡ ok (
              join_header fields.cmdid fields.depth fields.pcmdid started fields.duration
                fields.host fields.recycled fields.freetext fields.prog fields.rwd fields.pccode
                fields.ccode fields.pathcode
                (put_tokens s.line)
              ++ codes "\n")
    unfolding ca_format_header header_text
    written e =
        let given : get_str null_text ca.ca_line ≡ s.line =
          rw (s.has_line) (unfold get_str in refl) in
        rw e (
          rw given (
            ap ok (
              header_end fields.cmdid fields.depth fields.pcmdid started fields.duration fields.host
                fields.recycled fields.freetext fields.prog fields.rwd fields.pccode fields.ccode
                fields.pathcode (texts e) s.line)))

    read_back : moment_parse started ≡ ok (0, ca.ca_starttime) → ca_from_fields crc32 fields ≡ ok ca
    unfolding ca_from_fields timestamp_of ca_set_line
    read_back pm =
        let pccode : set_str (some fields.pccode) ≡ ca.ca_pccode =
          set_str-get_str csv_null_field null_code_null ((omega arith, tt), (omega arith, tt))
            ca.ca_pccode s.pccode in
        let pathcode : set_str (some fields.pathcode) ≡ ca.ca_pathcode =
          set_str-get_str csv_null_field null_code_null ((omega arith, tt), (omega arith, tt))
            ca.ca_pathcode s.pathcode in
        let recycled : set_str (some fields.recycled) ≡ ca.ca_recycled =
          set_str-get_str [] (unfold csv_field_is_null in refl) (tt, tt) ca.ca_recycled
            s.recycled in
        let freetext : set_str (some fields.freetext) ≡ ca.ca_freetext =
          set_str-get_str [] (unfold csv_field_is_null in refl) (tt, tt) ca.ca_freetext
            s.freetext in
        rw pm (
          rw (take_tokens-put_tokens s.line s.no_token) (
            rw (s.is_code) (
              rw (← s.has_ccode) (
                rw (str_eq_refl fields.ccode) (
                  rw (strtoul-format_lu ca.ca_cmdid s.cmdid, strtoul-format_lu ca.ca_depth s.depth)
                    (rw
                      (
                        strtoul-format_lu ca.ca_pcmdid s.pcmdid,
                        strtoul-format_lu ca.ca_duration s.duration,
                      )
                      (rw (pccode, pathcode, recycled, freetext)
                        (rw
                          (
                            set_str_given (codes "?") ca.ca_host s.host,
                            set_str_given null_text ca.ca_prog s.prog,
                            set_str_given (codes ".") ca.ca_rwd s.rwd,
                          )
                          (ap (λ l. ok (record ca { ca_line = l })) (sym s.has_line))))))))))

  -- ca_format_header of a command that the header can carry succeeds and ends in a newline, and
  -- ca_newFromCSVString makes of the line, without the newline, the same command: no member is lost,
  -- the command line keeps its newlines, and the command code agrees with the line.
  pub ca_new_from_csv_string-ca_format_header :
      (ca : Ca)
      → IsAnnounced ca
      → (csv : Bytes) × (ca_format_header ca ≡ ok (csv ++ codes "\n"))
        × (ca_new_from_csv_string crc32 (some csv) ≡ ok ca)
  unfolding ca_new_from_csv_string
  ca_new_from_csv_string-ca_format_header ca s =
      let (started, em, pm) = moment_parse-moment_format ca.ca_starttime s.starttime in
      let f = fields ca s started in
      (
        _,
        written ca s started em,
        rw
            (ca_fields_lem f.cmdid f.depth f.pcmdid started f.duration f.host f.recycled f.freetext
              f.prog f.rwd f.pccode f.ccode f.pathcode (texts ca s started em) (put_tokens s.line))
            (read_back ca s started pm),
      )
