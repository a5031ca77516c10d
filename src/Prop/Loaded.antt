-- ===== src/Prop/Loaded.antt =====
-- What a line of a *.properties file does to the settings (src/prop.c).
use audited_objects.Prelude.{
  ℕ, ◌≤◌, ◌≡◌, ◌≢◌, refl, ap, ◌∙◌, Bool, true, false, same_text, List, ◌∷◌, ◌++◌, Option, none,
  some, Bytes, All, Lacks, length, get_elem?, ok, ◌>>=◌,
}
use audited_objects.Radix.Scan.{skip_space}
use audited_objects.Prop.{PropE, PropRow, number, prop_null}
use audited_objects.Prop.Table.{prop_to_name}
use audited_objects.Prop.Environment.{Environ, Props, padded, prop_override_str}
use audited_objects.Prop.Line.{strip_right, load_value, prop_process_line}
use audited_objects.Prop.Names.{IsProptab, row_at_ok}
use audited_objects.Prop.Settings.{
  variable, Holds, prop_override_str-Holds, prop_put_str-Holds, prop_put_str-some,
}
use audited_objects.Prop.Lines.{IsBlank, IsPlain, IsDelimiter, prop_process_line-load_value}

module _ (env : Environ) where
  -- The state `s'` after the loading: the value is set if it wins over an earlier one, or if there is
  -- no earlier one, otherwise nothing has changed.
  abbrev pub Loaded : Bool → Option Bytes → PropE → PropRow → Bytes → Props env → Props env → Type 0
  Loaded true earlier p r val s s' = Holds env p r (padded r.pr_pad val) s s'
  Loaded false none p r val s s' = Holds env p r (padded r.pr_pad val) s s'
  Loaded false (some old) p r val s s' = s' ≡ s

  load_value-Loaded :
      (win : Bool) (earlier : Option Bytes) (s : Props env) (p : PropE) (r : PropRow) (val : Bytes)
      → r.pr_value ≡ earlier
      → IsProptab s.proptab
      → get_elem? s.proptab (number p) ≡ some r
      → padded r.pr_pad val ≢ prop_null
      → Lacks b'=' (variable env p r s)
      → (s' : Props env) × (load_value env win (number p) val s ≡ ok s')
        × Loaded win earlier p r val s s'
  unfolding load_value prop_override_str
  load_value-Loaded true earlier s p r val e h at proper lacks =
      prop_override_str-Holds env s p r val h at proper lacks
  load_value-Loaded false none s p r val e h at proper lacks =
      prop_put_str-Holds env s p r val h at proper lacks e
  load_value-Loaded false (some old) s p r val e h at proper lacks =
      (s, prop_put_str-some env s p r val old h at e, refl)

  named_row :
      (t : List PropRow) (k : ℕ) (r : PropRow)
      → get_elem? t k ≡ some r
      → prop_to_name t k ≡ ok r.pr_name
  unfolding prop_to_name
  named_row t k r at = rw (row_at_ok t k r at) refl

  -- A line of a key, a delimiter and a value, with white space around them, is processed with the
  -- return code 0. The property that the table has by the name of the key, in whatever case, has that
  -- value then, padded to its width, and is exported if it is to be, and nothing else changes, if the
  -- line is to win over an earlier value or there is none. If it is not to win and there is one,
  -- nothing changes. The line has less than 1024 characters; the key is not empty, has no white space,
  -- delimiter or backslash and starts neither with '#' nor with '!'; the value is not empty, neither
  -- starts nor ends with white space, and is not "<NULL>" when it is padded; and the name of the
  -- property's variable has no '='.
  pub prop_process_line-Loaded :
      (s : Props env) (p : PropE) (r : PropRow) (win : Bool) (k : ℕ)
      (key before sp sp' val after line : Bytes) (eq : ℕ)
      → IsProptab s.proptab
      → get_elem? s.proptab (number p) ≡ some r
      → same_text (k ∷ key) r.pr_name ≡ true
      → All IsPlain (k ∷ key)
      → k ≢ b'#'
      → k ≢ b'!'
      → IsBlank before × IsBlank sp × IsBlank sp' × IsBlank after
      → IsDelimiter eq
      → skip_space val ≡ val
      → strip_right val ≡ some val
      → line ≡ before ++ (((k ∷ key) ++ (sp ++ (eq ∷ sp' ++ val))) ++ after)
      → length line ≤ 1023
      → padded r.pr_pad val ≢ prop_null
      → Lacks b'=' (variable env p r s)
      → (s' : Props env) × (prop_process_line env line win s ≡ ok (0, s'))
        × Loaded win r.pr_value p r val s s'
  prop_process_line-Loaded s p r win k key before sp sp' val after line eq h at same plain hash bang
        blank q v w e fits proper lacks =
      let (s', done, loaded) = load_value-Loaded win r.pr_value s p r val refl h at proper lacks in
      (
        s',
        prop_process_line-load_value env s p win r.pr_name k key before sp sp' val after line eq h
              (named_row s.proptab (number p) r at) same plain hash bang blank q v w e fits
            ∙ ap (λ m. m >>= λ t. ok (0, t)) done,
        loaded,
      )
