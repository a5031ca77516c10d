-- ===== src/Prop/Environment.antt =====
-- Setting and removing values in src/prop.c, and their export to the environment. The environment of
-- the process (putil_getenv, putil_putenv, putil_unsetenv) is an interface.
use audited_objects.Prelude.{
  true, ℕ, ◌+◌, ◌-◌, ◌≡◌, Bool, false, ◌&&◌, ◌||◌, ◌==◌, if◌then◌else◌, List, [], ◌∷◌, ◌++◌, Option,
  none, some, Bytes, Lacks, map, length, take, drop, replicate, set, str_eq, to_lower, to_upper,
  Outcome, ok, abort, ◌>>=◌,
}
use audited_objects.Prelude.Int.{ℤ, pos, negsuc}
use audited_objects.Ps.Csv.{format_lu}
use audited_objects.Prop.{PropRow, number, p_app, p_base_dir, p_project_name, prop_flag_export}
use audited_objects.Prop.Table.{
  has_flag, row_at, prop_to_name, prop_get_value, prop_get_str, prop_assert,
}

-- The environment block. The argument of `putenv` is "NAME=value".
pub record Environ : Type 1 where
  pub Block : Type 0
  pub getenv : Block → Bytes → Option Bytes
  pub putenv : Bytes → Block → Block
  pub unsetenv : Bytes → Block → Block
  pub getenv-putenv :
      (e : Block) (name value j : Bytes)
      → Lacks b'=' name
      → getenv (putenv (name ++ (b'=' ∷ value)) e) j
        ≡ (if str_eq name j then some value else getenv e j)
  pub getenv-unsetenv :
      (e : Block) (name j : Bytes)
      → getenv (unsetenv name e) j ≡ (if str_eq name j then none else getenv e j)

-- The loop of `_prop_replace_char`, on one character.
unfoldable pub replace_char : ℕ → ℕ → ℕ → ℕ
replace_char newchar oldchar c = if c == oldchar then newchar else c

-- `_prop_replace_char`
unfoldable pub prop_replace_char : ℕ → ℕ → Bytes → Bytes
unfolding replace_char
prop_replace_char newchar oldchar s = map (replace_char newchar oldchar) s

-- `snprintf(buf, len, "%s", s)`
abbrev pub snprintf : ℕ → Bytes → Bytes
snprintf len s = take (len - 1) s

-- `%*s` of printf
unfoldable pub pad_left : ℕ → Bytes → Bytes
pad_left width s = replicate (width - length s) 32 ++ s

-- PROP_NAME_MAX
abbrev pub prop_name_max : ℕ
prop_name_max = 128

-- `_prop_to_ev`, with a buffer of PROP_NAME_MAX, by the prefix and the name.
unfoldable pub prop_to_ev : Bytes → Bytes → Bytes
unfolding prop_replace_char to_upper
prop_to_ev prefix name =
    map to_upper (prop_replace_char b'_' b'.' (snprintf prop_name_max (prefix ++ name)))

-- The row of a property with another value, and with other flags.
unfoldable pub put_value : List PropRow → ℕ → Option Bytes → Outcome (List PropRow)
unfolding row_at
put_value t prop v = do r ← row_at t prop; ok (set t prop (record r { pr_value = v }))

unfoldable pub put_flags : List PropRow → ℕ → ℕ → Outcome (List PropRow)
unfolding row_at
put_flags t prop flags = do r ← row_at t prop; ok (set t prop (record r { pr_flags = flags }))

-- `flags & ~flag`
unfoldable pub clear_flag : ℕ → ℕ → ℕ
unfolding has_flag
clear_flag flag flags = if has_flag flag flags then flags - flag else flags

-- "%ld" of printf
unfoldable pub format_ld : ℤ → Bytes
unfolding format_lu
format_ld (pos n) = format_lu n
format_ld (negsuc n) = b'-' ∷ format_lu (n + 1)

-- The value as prop_put_str stores it: with a width, in a buffer of one byte more.
unfoldable pub padded : ℕ → Bytes → Bytes
unfolding pad_left
padded pad val = if pad == 0 then val else snprintf (pad + 1) (pad_left pad val)

-- Is it the value that the environment has?
unfoldable pub same_value : Option Bytes → Bytes → Bool
unfolding str_eq
same_value none val = false
same_value (some str) val = str_eq str val

module _ (env : Environ) where
  open env use {Block, getenv, putenv, unsetenv}

  -- The static variables of the module, and the environment.
  pub record Props : Type 0 where
    pub proptab : List PropRow
    pub prefix : Bytes
    pub environ : Block

  -- Is the value exported already?
  unfoldable pub is_exported : Bytes → Bytes → Block → Bool
  unfolding same_value
  is_exported name val e = same_value (getenv e name) val

  unfoldable pub export_as : Bytes → Bytes → Props → Props
  unfolding is_exported
  export_as name val p =
      if is_exported name val p.environ
      then p
      else record p { environ = putenv (name ++ (b'=' ∷ val)) p.environ }

  -- The name without its underscore, for the two public properties.
  unfoldable pub public_name : ℕ → Bytes → Bytes
  public_name prop name =
      if prop == number p_base_dir || prop == number p_project_name then drop 1 name else name

  -- `_prop_export`
  unfoldable pub prop_export : ℕ → Props → Outcome Props
  unfolding prop_get_str prop_to_name prop_to_ev public_name number export_as
  prop_export prop p = do
    val ← prop_get_str p.proptab prop
    name ← prop_to_name p.proptab prop
    elim val [
      | none ↦ abort
      | some v ↦ ok (export_as (public_name prop (prop_to_ev p.prefix name)) v p)
    ]

  -- `prop_unexport`
  unfoldable pub prop_unexport : ℕ → Bool → Props → Outcome Props
  unfolding row_at prop_to_ev put_flags clear_flag has_flag
  prop_unexport prop forever p = do
    r ← row_at p.proptab prop
    (let e = unsetenv (prop_to_ev p.prefix r.pr_name) p.environ in
        if forever
        then (do
          t ← put_flags p.proptab prop (clear_flag prop_flag_export r.pr_flags)
          ok (record p { proptab = t; environ = e }))
        else ok (record p { environ = e }))

  unfoldable pub export_if : Bool → ℕ → Props → Outcome Props
  unfolding prop_export
  export_if true prop p = prop_export prop p
  export_if false prop p = ok p

  -- The assignment of a value that was not set.
  unfoldable pub assign : ℕ → Bytes → Props → Outcome Props
  unfolding put_value row_at has_flag export_if
  assign prop val p = do
    t ← put_value p.proptab prop (some val)
    r ← row_at t prop
    export_if (has_flag prop_flag_export r.pr_flags) prop (record p { proptab = t })

  -- `_prop_put_str`
  unfoldable pub put_str : ℕ → Bytes → Props → Outcome Props
  unfolding prop_get_value assign
  put_str prop val p = do
    v ← prop_get_value p.proptab prop
    elim v [ none ↦ assign prop val p | some old ↦ ok p ]

  -- `prop_put_str`
  unfoldable pub prop_put_str : ℕ → Bytes → Props → Outcome Props
  unfolding row_at put_str padded
  prop_put_str prop val p = do r ← row_at p.proptab prop; put_str prop (padded r.pr_pad val) p

  -- `prop_unset`
  unfoldable pub prop_unset : ℕ → Bool → Props → Outcome Props
  unfolding row_at put_value has_flag prop_unexport
  prop_unset prop unexport p = do
    r ← row_at p.proptab prop
    elim (r.pr_value) [
      | none ↦ ok p
      | some old ↦ (do
        t ← put_value p.proptab prop none
        (let p' = record p { proptab = t } in
            if unexport && has_flag prop_flag_export r.pr_flags
            then prop_unexport prop false p'
            else ok p'))
    ]

  -- `prop_override_str`
  unfoldable pub prop_override_str : ℕ → Bytes → Props → Outcome Props
  unfolding prop_unset prop_put_str
  prop_override_str prop val p = do p' ← prop_unset prop false p; prop_put_str prop val p'

  -- `prop_put_long`, `prop_put_ulong` and `prop_override_ulong`
  unfoldable pub prop_put_long : ℕ → ℤ → Props → Outcome Props
  unfolding prop_put_str format_ld
  prop_put_long prop val p = prop_put_str prop (format_ld val) p

  unfoldable pub prop_put_ulong : ℕ → ℕ → Props → Outcome Props
  unfolding prop_put_str format_lu
  prop_put_ulong prop val p = prop_put_str prop (format_lu val) p

  unfoldable pub prop_override_ulong : ℕ → ℕ → Props → Outcome Props
  unfolding prop_unset prop_put_ulong
  prop_override_ulong prop val p = do p' ← prop_unset prop false p; prop_put_ulong prop val p'

  -- `prop_set_true` and `prop_override_true`
  unfoldable pub prop_set_true : ℕ → Props → Outcome Props
  unfolding prop_put_ulong
  prop_set_true prop p = prop_put_ulong prop 1 p

  unfoldable pub prop_override_true : ℕ → Props → Outcome Props
  unfolding prop_unset prop_set_true
  prop_override_true prop p = do p' ← prop_unset prop false p; prop_set_true prop p'

  -- `prop_init`: the application's name is set once, and gives the prefix.
  unfoldable pub prop_init : Bytes → Props → Outcome Props
  unfolding row_at put_value prop_assert to_lower to_upper number
  prop_init app p = do
    r ← row_at p.proptab (number p_app)
    elim (r.pr_value) [
      | some old ↦ abort
      | none ↦ (do
        (let app' = map to_lower app in
            do
              t ← put_value p.proptab (number p_app) (some app')
              done ← prop_assert t (number p_app)
              ok (record p {
                proptab = t;
                prefix = map to_upper (snprintf 128 (b'_' ∷ app' ++ (b'_' ∷ [])));
              })))
    ]
