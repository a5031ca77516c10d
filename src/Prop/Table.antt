-- ===== src/Prop/Table.antt =====
-- Reading the table of src/prop.c: names, values and numbers. `prop_e` is the number of its
-- enumerator; an access behind the table is the end of the process.
use audited_objects.Prelude.{
  ℕ, ◌+◌, ◌-◌, ◌/◌, ◌%◌, ◌^◌, Bool, true, false, not, ◌&&◌, ◌||◌, ◌==◌, ltb, if◌then◌else◌, List,
  [], ◌∷◌, Option, none, some, Bytes, codes, get_elem?, str_eq, same_text, to_lower, Outcome, ok,
  abort, ◌>>=◌,
}
use audited_objects.Prelude.Int.{ℤ, pos}
use audited_objects.Radix.Scan.{strtoul, strtoll, scan}
use audited_objects.Prop.{
  PropRow, number, p_app, prop_null, prop_true, prop_required, prop_flag_public,
}

-- `pr_flags & flag`, for a flag of one bit.
unfoldable pub has_flag : ℕ → ℕ → Bool
has_flag flag flags = (flags / flag) % 2 == 1

-- `proptab[prop]`
unfoldable pub row_at : List PropRow → ℕ → Outcome PropRow
row_at t prop = elim (get_elem? t prop) [ none ↦ abort | some r ↦ ok r ]

-- The loop of prop_from_name, with the index of the first row; P_BADPROP is `none`.
unfoldable pub prop_from_name : Bytes → List PropRow → ℕ → Option ℕ
unfolding same_text to_lower
prop_from_name name [] i = none
prop_from_name name (r ∷ rs) i =
    let rest = prop_from_name name rs (i + 1) in if same_text name r.pr_name then some i else rest

-- `prop_to_name`
unfoldable pub prop_to_name : List PropRow → ℕ → Outcome Bytes
unfolding row_at
prop_to_name t prop = do r ← row_at t prop; ok r.pr_name

-- `prop_get_app`, as a row has it.
unfoldable pub app_of : PropRow → Option Bytes
app_of r = elim (r.pr_value) [ none ↦ r.pr_dflt | some v ↦ some v ]

unfoldable pub prop_get_app : List PropRow → Outcome (Option Bytes)
unfolding row_at app_of number
prop_get_app t = do r ← row_at t (number p_app); ok (app_of r)

-- The check of a row's index: the process ends if it is another. Without an application's name there
-- is only a warning.
unfoldable pub value_if : Option Bytes → Bool → PropRow → Outcome (Option Bytes)
value_if none same r = ok r.pr_value
value_if (some app) true r = ok r.pr_value
value_if (some app) false r = abort

-- `_prop_get_value`
unfoldable pub prop_get_value : List PropRow → ℕ → Outcome (Option Bytes)
unfolding row_at value_if prop_get_app
prop_get_value t prop = do
  app ← prop_get_app t
  r ← row_at t prop
  value_if app (number r.pr_index == prop) r

-- The value that `_prop_get_str` finds, by the one that is set and the default.
unfoldable pub value_or_default : Option Bytes → Option Bytes → Option Bytes
unfolding str_eq
value_or_default none dflt = dflt
value_or_default (some v) dflt = if str_eq v prop_null then none else some v

-- Is it the case of a required property without a value?
unfoldable pub is_missing : Option Bytes → Option Bytes → Bool
unfolding str_eq
is_missing none none = false
is_missing none (some d) = str_eq d prop_required
is_missing (some v) dflt = false

-- `prop_get_str`, which is `_prop_get_str` with a fatal report.
unfoldable pub prop_get_str : List PropRow → ℕ → Outcome (Option Bytes)
unfolding row_at prop_get_value value_or_default is_missing
prop_get_str t prop = do
  v ← prop_get_value t prop
  r ← row_at t prop
  (let result = value_or_default v r.pr_dflt in
      if is_missing result r.pr_dflt then abort else ok result)

-- `prop_assert`
unfoldable pub prop_assert : List PropRow → ℕ → Outcome (Unit {0})
unfolding prop_get_str
prop_assert t prop = do v ← prop_get_str t prop; elim v [ none ↦ abort | some s ↦ ok tt ]

-- `prop_value_from_name`
unfoldable pub prop_value_from_name : List PropRow → Bytes → Outcome (Option Bytes)
unfolding prop_from_name prop_get_str
prop_value_from_name t name = elim (prop_from_name name t 0) [
  | none ↦ ok none
  | some prop ↦ prop_get_str t prop
]

-- The words for 1.
unfoldable pub is_yes : Bytes → Bool
unfolding same_text
is_yes s = same_text s (codes "true") || same_text s prop_true || same_text s (codes "yes")

-- What follows a "0x" or "0X" at the start.
unfoldable pub after_0x : Bytes → Option Bytes
after_0x [] = none
after_0x (c ∷ []) = none
after_0x (c ∷ x ∷ s) = if c == b'0' && (x == b'x' || x == b'X') then some s else none

-- strtoul and strtol with a radix of 16 skip the "0x".
unfoldable pub ulong_of : Bytes → ℕ
unfolding after_0x strtoul scan
ulong_of s = elim (after_0x s) [
  | none ↦ strtoul 10 s
  | some hex ↦ let m = scan 16 0 hex in if ltb m (2 ^ 64) then m else 2 ^ 64 - 1
]

unfoldable pub long_of : Bytes → ℤ
unfolding after_0x strtoll scan
long_of s = elim (after_0x s) [
  | none ↦ strtoll 10 s
  | some hex ↦ let m = scan 16 0 hex in if ltb m (2 ^ 63) then pos m else pos (2 ^ 63 - 1)
]

unfoldable pub ulong_value : Option Bytes → ℕ
unfolding is_yes ulong_of
ulong_value none = 0
ulong_value (some s) = if is_yes s then 1 else ulong_of s

-- `prop_get_ulong`
unfoldable pub prop_get_ulong : List PropRow → ℕ → Outcome ℕ
unfolding prop_get_str ulong_value
prop_get_ulong t prop = do v ← prop_get_str t prop; ok (ulong_value v)

unfoldable pub long_value : Option Bytes → ℤ
unfolding is_yes long_of
long_value none = pos 0
long_value (some s) = if is_yes s then pos 1 else long_of s

-- `prop_get_long`
unfoldable pub prop_get_long : List PropRow → ℕ → Outcome ℤ
unfolding prop_get_str long_value
prop_get_long t prop = do v ← prop_get_str t prop; ok (long_value v)

-- `prop_is_true`
unfoldable pub prop_is_true : List PropRow → ℕ → Outcome Bool
unfolding prop_get_ulong
prop_is_true t prop = do n ← prop_get_ulong t prop; ok (not (n == 0))

unfoldable pub is_set : Option Bytes → Bool
is_set none = false
is_set (some []) = false
is_set (some (c ∷ s)) = true

-- `prop_has_value`
unfoldable pub prop_has_value : List PropRow → ℕ → Outcome Bool
unfolding row_at is_set
prop_has_value t prop = do r ← row_at t prop; ok (is_set r.pr_value)

-- `prop_is_public`
unfoldable pub prop_is_public : List PropRow → ℕ → Outcome Bool
unfolding row_at has_flag
prop_is_public t prop = do r ← row_at t prop; ok (has_flag prop_flag_public r.pr_flags)
