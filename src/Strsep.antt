-- ===== src/Strsep.antt =====
-- util_strsep of src/util.c, and the macros FS1 and FS2 of src/AO.h that it is called with.
pub mod Fields
mod Tests
use audited_objects.Prelude.{
  Bool, true, false, Option, none, some, List, [], ◌∷◌, ◌==◌, if◌then◌else◌, Bytes, codes, contains,
  Outcome, ok, null,
}

abbrev pub fs1 : Bytes
fs1 = codes ","

abbrev pub fs2 : Bytes
fs2 = codes "+"

-- The loop over the characters of the string: the token, and where the string goes on. The NUL
-- ends the last token, and leaves no string.
unfoldable pub strsep_scan : Bytes → Bytes → Bytes × Option Bytes
strsep_scan delim [] = ([], none)
strsep_scan delim (c ∷ s) =
    let (tok, rest) = strsep_scan delim s in
    if contains delim c then ([], some s) else (c ∷ tok, rest)

-- `util_strsep(stringp, delim)`: the new `*stringp` is returned beside the token; a NULL string has
-- no token.
unfoldable pub strsep : Option Bytes → Bytes → Outcome (Bytes × Option Bytes)
unfolding strsep_scan contains
strsep none delim = null
strsep (some s) delim = ok (strsep_scan delim s)
