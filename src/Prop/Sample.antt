-- ===== src/Prop/Sample.antt =====
-- An environment for the tests, as a list of pairs, and a state of the settings in it.
use audited_objects.Prelude.{
  ◌≡◌, refl, false, ◌==◌, if◌then◌else◌, List, [], ◌∷◌, ◌++◌, Option, none, some, Bytes, codes,
  Lacks, str_eq, str_eq_iff, cut_string, arith, ap,
}
use audited_objects.Prop.Rows.{proptab}
use audited_objects.Prop.Environment.{Environ, Props}
use audited_objects.Prop.Names.{IsProptab, proptab-IsProptab}

-- An environment as a list of pairs.
abbrev pub Vars : Type 0
Vars = List (Bytes × Bytes)

unfoldable pub getenv : Vars → Bytes → Option Bytes
getenv [] j = none
getenv ((n, v) ∷ e) j = let rest = getenv e j in if str_eq n j then some v else rest

unfoldable pub put_pair : Option (Bytes × Bytes) → Vars → Vars
put_pair none e = e
put_pair (some nv) e = nv ∷ e

unfoldable pub putenv : Bytes → Vars → Vars
unfolding put_pair
putenv text e = put_pair (cut_string b'=' text) e

unfoldable pub unsetenv : Bytes → Vars → Vars
unsetenv name [] = []
unsetenv name ((n, v) ∷ e) =
    let rest = unsetenv name e in if str_eq n name then rest else (n, v) ∷ rest

cut_string-append :
    (name value : Bytes)
    → Lacks b'=' name
    → cut_string b'=' (name ++ (b'=' ∷ value)) ≡ some (name, value)
unfolding cut_string
cut_string-append [] value l = refl
cut_string-append (c ∷ name) value l =
    let other : (c == b'=') ≡ false = ground (arith, l.0) in
    rw other (rw (cut_string-append name value l.1) refl)

pub getenv-putenv :
    (e : Vars) (name value j : Bytes)
    → Lacks b'=' name
    → getenv (putenv (name ++ (b'=' ∷ value)) e) j
      ≡ (if str_eq name j then some value else getenv e j)
unfolding putenv getenv
getenv-putenv e name value j l = ap (λ o. getenv (put_pair o e) j) (cut_string-append name value l)

pub getenv-unsetenv :
    (e : Vars) (name j : Bytes)
    → getenv (unsetenv name e) j ≡ (if str_eq name j then none else getenv e j)
unfolding getenv unsetenv
getenv-unsetenv [] name j = ground arith
getenv-unsetenv ((n, v) ∷ e) name j =
    ground (arith, getenv-unsetenv e name j, str_eq_iff n name, str_eq_iff n j, str_eq_iff name j)

unfoldable pub vars : Environ
vars = record {
  Block = Vars;
  getenv = getenv;
  putenv = putenv;
  unsetenv = unsetenv;
  getenv-putenv = getenv-putenv;
  getenv-unsetenv = getenv-unsetenv;
}

-- The state after prop_init with the name "ao".
unfoldable pub start : Props vars
unfolding vars
start = record { proptab = proptab; prefix = codes "_AO_"; environ = [] }

start_table : start.proptab ≡ proptab
unfolding start
start_table = refl

pub start_IsProptab : IsProptab start.proptab
start_IsProptab = rw start_table proptab-IsProptab
