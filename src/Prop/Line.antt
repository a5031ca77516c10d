-- ===== src/Prop/Line.antt =====
-- One line of a *.properties file, and one variable of the environment, as src/prop.c reads them.
use audited_objects.Prelude.{
  ℕ, ◌-◌, Bool, false, ◌||◌, ◌==◌, if◌then◌else◌, [], ◌∷◌, Option, none, some, Bytes, length, drop,
  is_space, is_prefix, cut_string, Outcome, ok, abort, ◌>>=◌,
}
use audited_objects.Radix.Scan.{skip_space}
use audited_objects.Prop.{prop_flag_export}
use audited_objects.Prop.Table.{has_flag, row_at, prop_from_name}
use audited_objects.Prop.Environment.{
  Environ, Props, snprintf, prop_replace_char, prop_unset, prop_put_str, prop_unexport,
}

-- The text without the white space at its end: `none` if it has nothing else, where the loop runs out
-- of the buffer, in front of it.
unfoldable pub strip_right : Bytes → Option Bytes
unfolding is_space
strip_right [] = none
strip_right (c ∷ s) = elim (strip_right s) [
  | some t ↦ some (c ∷ t)
  | none ↦ if is_space c then none else some (c ∷ [])
]

-- The characters that end a key.
unfoldable pub ends_key : ℕ → Bool
unfolding is_space
ends_key c = is_space c || c == b'=' || c == b':'

-- The loop over the key, which drops backslashes: the key, and what follows it.
unfoldable pub scan_key : Bytes → Bytes × Bytes
unfolding ends_key
scan_key [] = ([], [])
scan_key (c ∷ []) =
    if ends_key c then ([], c ∷ []) else if c == b'\\' then ([], []) else (c ∷ [], [])
scan_key (c ∷ d ∷ s) =
    let plain = scan_key (d ∷ s) in
    let escaped = scan_key s in
    if ends_key c
    then ([], c ∷ d ∷ s)
    else if c == b'\\'
    then (d ∷ escaped.0, escaped.1)
    else (c ∷ plain.0, plain.1)

-- One delimiter, if there is one.
unfoldable pub skip_delimiter : Bytes → Bytes
skip_delimiter [] = []
skip_delimiter (c ∷ s) = if c == b'=' || c == b':' then s else c ∷ s

-- The value behind the key.
unfoldable pub value_after : ℕ → Bytes → Bytes
unfolding skip_space skip_delimiter is_space
value_after c s = skip_space (if is_space c then skip_delimiter (skip_space s) else s)

module _ (env : Environ) where
  -- The setting of a property from a file, which may win over an earlier one.
  unfoldable pub load_value : Bool → ℕ → Bytes → Props env → Outcome (Props env)
  unfolding prop_unset prop_put_str
  load_value win prop val s = do
    s' ← (if win then prop_unset env prop false s else ok s)
    prop_put_str env prop val s'

  -- An unrecognized property is only warned of.
  unfoldable pub load_found : Bool → Option ℕ → Bytes → Props env → Outcome (ℕ × Props env)
  unfolding load_value
  load_found win none val s = ok (0, s)
  load_found win (some prop) val s = do s' ← load_value win prop val s; ok (0, s')

  unfoldable pub load_named : Bool → Bytes → Bytes → Props env → Outcome (ℕ × Props env)
  unfolding prop_from_name load_found
  load_named win name val s = load_found win (prop_from_name name s.proptab 0) val s

  -- The key and what follows it; 1 is the return code of a malformed line.
  unfoldable pub load_pair : Bool → Bytes × Bytes → Props env → Outcome (ℕ × Props env)
  unfolding load_named value_after
  load_pair win (name, []) s = ok (1, s)
  load_pair win (name, c ∷ rest) s = load_named win name (value_after c rest) s

  -- A line without its white space at both ends: a comment, or a key with a value.
  unfoldable pub load_text : Bool → Bytes → Props env → Outcome (ℕ × Props env)
  unfolding load_pair scan_key
  load_text win [] s = ok (0, s)
  load_text win (c ∷ t) s =
      if c == b'#' || c == b'!' then ok (0, s) else load_pair win (scan_key (c ∷ t)) s

  unfoldable pub load_stripped : Bool → Option Bytes → Props env → Outcome (ℕ × Props env)
  unfolding skip_space load_text
  load_stripped win none s = abort
  load_stripped win (some text) s = load_text win (skip_space text) s

  -- The contents of the buffer. A line of one character is empty.
  unfoldable pub process_buf : Bool → Bytes → Props env → Outcome (ℕ × Props env)
  unfolding strip_right load_stripped
  process_buf win [] s = abort
  process_buf win (c ∷ []) s = ok (0, s)
  process_buf win (c ∷ d ∷ t) s = load_stripped win (strip_right (c ∷ d ∷ t)) s

  -- `_prop_process_line`
  unfoldable pub prop_process_line : Bytes → Bool → Props env → Outcome (ℕ × Props env)
  unfolding process_buf
  prop_process_line line win s = process_buf win (snprintf 1024 line) s

  -- `_prop_matches_ev_name`
  unfoldable pub prop_matches_ev_name : Bytes → Props env → ℕ
  unfolding is_prefix
  prop_matches_ev_name name s =
      if is_prefix s.prefix name
      then length s.prefix
      else if is_prefix (drop 1 s.prefix) name
      then length s.prefix - 1
      else 0

  -- A property that is not exported leaves the environment.
  unfoldable pub load_ev_value : ℕ → Bytes → Props env → Outcome (Props env)
  unfolding row_at has_flag prop_unexport prop_put_str
  load_ev_value prop val s = do
    r ← row_at s.proptab prop
    s' ← (if has_flag prop_flag_export r.pr_flags then ok s else prop_unexport env prop false s)
    prop_put_str env prop val s'

  -- `_prop_load_from_ev`
  unfoldable pub prop_load_from_ev : Bytes → Props env → Outcome (Props env)
  unfolding cut_string prop_replace_char prop_from_name load_ev_value
  prop_load_from_ev buf s = elim (cut_string b'=' buf) [
    | none ↦ ok s
    | some (name, val) ↦ elim (prop_from_name (prop_replace_char b'.' b'_' name) s.proptab 0) [
      | none ↦ ok s
      | some prop ↦ load_ev_value prop val s
    ]
  ]
