-- ===== src/Pn.antt =====
-- src/pn.c: path names, absolute and relative to the base directory of the project. `base` is the
-- property P_BASE_DIR, and `cwd` what util_get_cwd returns.
pub mod Canon
pub mod Member
mod Tests
use audited_objects.Prelude.{
  ℕ, ◌+◌, ◌≡◌, Bool, true, false, not, ◌&&◌, ◌||◌, Option, none, some, List, [], ◌∷◌, ◌++◌, ◌==◌,
  if◌then◌else◌, Bytes, codes, is_prefix, length, drop, Outcome, ok, null, ◌>>=◌, map,
}
use audited_objects.Pn.Canon.{path_canon}

-- `struct path_name_s`
pub record Pn : Type 0 where
  pub pn_abs : Bytes
  pub pn_rel : ℕ

-- putil_is_absolute, on Unix
unfoldable pub is_absolute : Bytes → Bool
is_absolute [] = false
is_absolute (c ∷ path) = c == b'/'

abbrev pub is_slash : ℕ → Bool
is_slash c = c == b'/' || c == b'\\'

-- How many slashes of either kind the path begins with.
unfoldable pub leading_slashes : Bytes → ℕ
leading_slashes [] = 0
leading_slashes (c ∷ path) = if is_slash c then 1 + leading_slashes path else 0

-- `_pn_abs_to_project_relative_path`
unfoldable pub abs_to_project_relative_path : Bytes → Bytes → ℕ
unfolding leading_slashes is_prefix
abs_to_project_relative_path base path =
    let offset = length base in
    if offset == 0
    then 0
    else if is_prefix base path
    then offset + leading_slashes (drop offset path)
    else 0

-- `_pn_make_project_relative`
unfoldable pub make_project_relative : Bytes → Bytes → Bytes
unfolding is_absolute
make_project_relative base path = if is_absolute path then path else base ++ (b'/' ∷ path)

-- The absolute path that `pn_new` canonicalises: relative to the working directory, if that is
-- known.
unfoldable pub absolute_path : Option Bytes → Bytes → Outcome Bytes
unfolding is_absolute
absolute_path none path = if is_absolute path then ok path else null
absolute_path (some cwd) path = if is_absolute path then ok path else ok (cwd ++ (b'/' ∷ path))

unfoldable pub new_from_abs : Bytes → Bytes → Pn
unfolding abs_to_project_relative_path
new_from_abs base abs = record { pn_abs = abs; pn_rel = abs_to_project_relative_path base abs }

-- `pn_new(path, use_cwd)`
unfoldable pub pn_new : Bytes → Option Bytes → Bytes → Bool → Outcome Pn
unfolding absolute_path make_project_relative new_from_abs
pn_new base cwd path true = do
  abspath ← absolute_path cwd path
  canonpath ← path_canon (length abspath + 1) abspath
  ok (new_from_abs base canonpath)
pn_new base cwd path false = ok (new_from_abs base (make_project_relative base path))

unfoldable pub pn_is_member : Pn → Bool
pn_is_member pn = not (pn.pn_rel == 0)

unfoldable pub pn_get_abs : Pn → Bytes
pn_get_abs pn = pn.pn_abs

unfoldable pub dot_if_empty : Bytes → Bytes
dot_if_empty [] = codes "."
dot_if_empty (c ∷ rel) = c ∷ rel

unfoldable pub pn_get_rel : Pn → Bytes
unfolding dot_if_empty
pn_get_rel pn = dot_if_empty (drop pn.pn_rel pn.pn_abs)
