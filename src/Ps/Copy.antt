-- ===== src/Ps/Copy.antt =====
-- ps_copy.
use audited_objects.Prelude.{
  true, refl, Lacks, ◌≡◌, false, Option, none, some, [], Bytes, Outcome, ok, ◌>>=◌,
}
use audited_objects.Pn.{pn_new, pn_get_abs, new_from_abs}
use audited_objects.Pn.Canon.Resolve.{resolve}
use audited_objects.Pn.Member.{pn_new_resolved}
use audited_objects.Ps.{
  pn_get_abs, or_null, ps_new, Ps, ps_new_from_path, ps_get_abs, set_str, get_str,
  csv_field_is_null,
}

-- `ps_copy`, by its setters in their order. The second path name and the strings are those of the
-- object that is copied.
unfoldable pub ps_copy : Bytes → Option Bytes → Ps → Outcome Ps
unfolding set_str
ps_copy base cwd cps = do
  abs ← ps_get_abs cps
  nps ← ps_new_from_path base cwd abs
  ok (record nps {
    ps_datatype = cps.ps_datatype;
    ps_fsname = set_str cps.ps_fsname;
    ps_moment = cps.ps_moment;
    ps_size = cps.ps_size;
    ps_mode = cps.ps_mode;
    ps_dcode = set_str (some (get_str [] cps.ps_dcode));
    ps_pn2 = cps.ps_pn2;
    ps_target = set_str cps.ps_target;
  })

-- A string member as its setter leaves it.
abbrev pub IsStored : Option Bytes → Type 0
IsStored none = Unit
IsStored (some s) = csv_field_is_null s ≡ false

pub set_str-stored : (o : Option Bytes) → IsStored o → set_str o ≡ o
unfolding set_str
set_str-stored none h = refl
set_str-stored (some s) h = rw h

set_str-get_str : (o : Option Bytes) → IsStored o → set_str (some (get_str [] o)) ≡ o
unfolding set_str get_str csv_field_is_null
set_str-get_str none h = refl
set_str-get_str (some s) h = rw h

-- ps_copy of a state whose path name pn_new resolved from an absolute path, and whose strings its
-- setters stored, is an equal state: no member is lost.
pub ps_copy_lem :
    (base : Bytes) (cwd : Option Bytes) (ps : Ps) (path : Bytes)
    → Lacks 0 path
    → ps.ps_pn ≡ some (new_from_abs base (resolve path))
    → IsStored ps.ps_fsname
    → IsStored ps.ps_dcode
    → IsStored ps.ps_target
    → ps_copy base cwd ps ≡ ok ps
unfolding ps_copy ps_get_abs ps_new_from_path or_null ps_new pn_get_abs new_from_abs
ps_copy_lem base cwd ps path l has fsname dcode target =
    let made : pn_new base cwd (resolve path) true ≡ ok (new_from_abs base (resolve path)) =
      pn_new_resolved base cwd path l in
    rw has (
      rw made (
        rw (
          set_str-stored ps.ps_fsname fsname,
          set_str-get_str ps.ps_dcode dcode,
          set_str-stored ps.ps_target target,
        )))
