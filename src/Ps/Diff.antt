-- ===== src/Ps/Diff.antt =====
-- ps_diff.
use audited_objects.Prelude.{
  ℕ, ◌≡◌, Bool, true, false, not, Option, none, some, ◌==◌, if◌then◌else◌, Bytes, codes, str_eq,
  str_eq_iff, Outcome, ok, ◌>>=◌, arith, ◌↔◌,
}
use audited_objects.Prelude.Int.{ℤ, pos, negsuc}
use audited_objects.Moment.{moment_cmp}
use audited_objects.Ps.{Ps, ps_get_abs}

-- `ps1->ps_size == ps2->ps_size`
unfoldable pub eq_ℤ : ℤ → ℤ → Bool
eq_ℤ (pos m) (pos n) = m == n
eq_ℤ (pos m) (negsuc n) = false
eq_ℤ (negsuc m) (pos n) = false
eq_ℤ (negsuc m) (negsuc n) = m == n

unfoldable pub reason_of : Bool → Bytes → Option Bytes
reason_of same reason = if same then none else some reason

unfoldable pub moment_diff : ℕ → Ps → Ps → Option Bytes
unfolding eq_ℤ reason_of
moment_diff roundoff ps1 ps2 =
    reason_of (eq_ℤ (moment_cmp roundoff ps1.ps_moment ps2.ps_moment) (pos 0)) (codes "moment")

-- The data codes if both have one, or else the moments.
unfoldable pub content_diff : ℕ → Ps → Ps → Option Bytes → Option Bytes → Option Bytes
unfolding moment_diff
content_diff roundoff ps1 ps2 none d2 = moment_diff roundoff ps1 ps2
content_diff roundoff ps1 ps2 (some d1) none = moment_diff roundoff ps1 ps2
content_diff roundoff ps1 ps2 (some d1) (some d2) = reason_of (str_eq d1 d2) (codes "dcode")

-- From the comparison of the absolute paths on.
unfoldable pub path_diff : ℕ → Ps → Ps → Outcome (Option Bytes)
unfolding content_diff str_eq
path_diff roundoff ps1 ps2 = do
  abs1 ← ps_get_abs ps1
  abs2 ← ps_get_abs ps2
  ok (
      if not (str_eq abs1 abs2)
      then some (codes "path")
      else content_diff roundoff ps1 ps2 ps1.ps_dcode ps2.ps_dcode)

-- `ps_diff`, with the `roundoff` of moment_cmp: the reason, or `none` if there is no difference.
unfoldable pub ps_diff : ℕ → Ps → Ps → Outcome (Option Bytes)
unfolding path_diff eq_ℤ
ps_diff roundoff ps1 ps2 =
    if not (ps1.ps_datatype == ps2.ps_datatype)
    then ok (some (codes "type"))
    else if not (eq_ℤ ps1.ps_size ps2.ps_size)
    then ok (some (codes "size"))
    else path_diff roundoff ps1 ps2

eq_ℤ_iff : (x y : ℤ) → (eq_ℤ x y ≡ true) ↔ (x ≡ y)
unfolding eq_ℤ
eq_ℤ_iff (pos m) (pos n) = ground arith
eq_ℤ_iff (pos m) (negsuc n) = ground arith
eq_ℤ_iff (negsuc m) (pos n) = ground arith
eq_ℤ_iff (negsuc m) (negsuc n) = ground arith

-- The same content: equal data codes, or moments that compare equal if one of the two has no data
-- code.
abbrev pub SameContent : ℕ → Ps → Ps → Option Bytes → Option Bytes → Type 0
SameContent roundoff ps1 ps2 none d2 = moment_cmp roundoff ps1.ps_moment ps2.ps_moment ≡ pos 0
SameContent roundoff ps1 ps2 (some d1) none =
    moment_cmp roundoff ps1.ps_moment ps2.ps_moment ≡ pos 0
SameContent roundoff ps1 ps2 (some d1) (some d2) = d1 ≡ d2

reason_of-none : (b : Bool) (r : Bytes) → (reason_of b r ≡ none) ↔ (b ≡ true)
unfolding reason_of
reason_of-none true r = ground arith
reason_of-none false r = ground arith

moment_diff-none :
    (roundoff : ℕ) (ps1 ps2 : Ps)
    → (moment_diff roundoff ps1 ps2 ≡ none)
      ↔ (moment_cmp roundoff ps1.ps_moment ps2.ps_moment ≡ pos 0)
unfolding moment_diff
moment_diff-none roundoff ps1 ps2 =
    let c = moment_cmp roundoff ps1.ps_moment ps2.ps_moment in
    let (f, g) = reason_of-none (eq_ℤ c (pos 0)) (codes "moment") in
    let (h, k) = eq_ℤ_iff c (pos 0) in (λ e. h (f e), λ e. g (k e))

content_diff-none :
    (roundoff : ℕ) (ps1 ps2 : Ps) (d1 d2 : Option Bytes)
    → (content_diff roundoff ps1 ps2 d1 d2 ≡ none) ↔ SameContent roundoff ps1 ps2 d1 d2
unfolding content_diff
content_diff-none roundoff ps1 ps2 none d2 = moment_diff-none roundoff ps1 ps2
content_diff-none roundoff ps1 ps2 (some d1) none = moment_diff-none roundoff ps1 ps2
content_diff-none roundoff ps1 ps2 (some d1) (some d2) =
    let (f, g) = reason_of-none (str_eq d1 d2) (codes "dcode") in
    let (h, k) = str_eq_iff d1 d2 in (λ e. h (f e), λ e. g (k e))

-- The four tests in a row.
decisions :
    (t1 t2 : ℕ) (s1 s2 : ℤ) (a1 a2 : Bytes) (c : Option Bytes) (P : Type 0)
    → (c ≡ none) ↔ P
    → ((if not (t1 == t2)
          then ok (some (codes "type"))
          else if not (eq_ℤ s1 s2)
          then ok (some (codes "size"))
          else ok (if not (str_eq a1 a2) then some (codes "path") else c))
        ≡ ok none)
      ↔ ((t1 ≡ t2) × (s1 ≡ s2) × (a1 ≡ a2) × P)
decisions t1 t2 s1 s2 a1 a2 c P h = ground (arith, h, eq_ℤ_iff s1 s2, str_eq_iff a1 a2)

-- ps_diff finds no difference between two states with path names exactly if they have the same data
-- type, size and absolute path, and equal data codes; the moments are compared instead of the data
-- codes if one of the two has none.
pub ps_diff-none :
    (roundoff : ℕ) (ps1 ps2 : Ps) (abs1 abs2 : Bytes)
    → ps_get_abs ps1 ≡ ok abs1
    → ps_get_abs ps2 ≡ ok abs2
    → (ps_diff roundoff ps1 ps2 ≡ ok none) ↔ (
        (ps1.ps_datatype ≡ ps2.ps_datatype)
        × (ps1.ps_size ≡ ps2.ps_size)
        × (abs1 ≡ abs2)
        × SameContent roundoff ps1 ps2 ps1.ps_dcode ps2.ps_dcode)
unfolding ps_diff path_diff
ps_diff-none roundoff ps1 ps2 abs1 abs2 e1 e2 =
    rw (e1, e2)
      (decisions (ps1.ps_datatype) (ps2.ps_datatype) (ps1.ps_size) (ps2.ps_size) abs1 abs2
        (content_diff roundoff ps1 ps2 ps1.ps_dcode ps2.ps_dcode)
        (SameContent roundoff ps1 ps2 ps1.ps_dcode ps2.ps_dcode)
        (content_diff-none roundoff ps1 ps2 ps1.ps_dcode ps2.ps_dcode))
