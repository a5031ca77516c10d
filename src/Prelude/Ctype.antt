-- ===== src/Prelude/Ctype.antt =====
-- ctype.h in the C locale, and stricmp (strcasecmp).
use Prim.Native.Nat.{ℕ, ◌+◌, ◌-◌}
use mathlib.Core.Logic.{◌↔◌}
use mathlib.Core.Path.{◌≡◌, refl, sym, ◌∙◌}
use mathlib.Core.Bool.{Bool, true, ◌&&◌}
use mathlib.Core.List.{map}
use native.Mathlib.Omega.{arith}
use audited_objects.Prelude.Tests.{leb, if◌then◌else◌}
use audited_objects.Prelude.Cstring.{Bytes, str_eq, str_eq_iff}

unfoldable pub is_upper : ℕ → Bool
is_upper c = leb b'A' c && leb c b'Z'

unfoldable pub is_lower : ℕ → Bool
is_lower c = leb b'a' c && leb c b'z'

unfoldable pub to_lower : ℕ → ℕ
unfolding is_upper
to_lower c = if is_upper c then c + 32 else c

unfoldable pub to_upper : ℕ → ℕ
unfolding is_lower
to_upper c = if is_lower c then c - 32 else c

-- `!stricmp(a, b)`
unfoldable pub same_text : Bytes → Bytes → Bool
unfolding str_eq to_lower is_upper
same_text a b = str_eq (map to_lower a) (map to_lower b)

pub to_lower-to_lower : (c : ℕ) → to_lower (to_lower c) ≡ to_lower c
unfolding to_lower is_upper
to_lower-to_lower c = ground arith

pub same_text_iff : (a b : Bytes) → (same_text a b ≡ true) ↔ (map to_lower a ≡ map to_lower b)
unfolding same_text
same_text_iff a b = str_eq_iff (map to_lower a) (map to_lower b)

pub same_text_refl : (a : Bytes) → same_text a a ≡ true
same_text_refl a = (same_text_iff a a).1 refl

pub same_text_sym : (a b : Bytes) → same_text a b ≡ true → same_text b a ≡ true
same_text_sym a b h = (same_text_iff b a).1 (sym ((same_text_iff a b).0 h))

pub same_text_trans :
    (a b c : Bytes) → same_text a b ≡ true → same_text b c ≡ true → same_text a c ≡ true
same_text_trans a b c h k =
    (same_text_iff a c).1 ((same_text_iff a b).0 h ∙ (same_text_iff b c).0 k)
