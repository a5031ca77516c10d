-- ===== src/Pa/Copy.antt =====
-- pa_copy.
use audited_objects.Prelude.{◌≡◌, refl, Option, none, some, Bytes, ok, Lacks, str_eq}
use audited_objects.Pn.{new_from_abs}
use audited_objects.Pn.Canon.Resolve.{resolve}
use audited_objects.Ps.{Ps, set_str, get_str, csv_field_is_null}
use audited_objects.Ps.Copy.{IsStored, ps_copy_lem, set_str-stored}
use audited_objects.Pa.{Pa, pa_copy, csv_null_field}

set_str-code : (o : Option Bytes) → IsStored o → set_str (some (get_str csv_null_field o)) ≡ o
unfolding set_str get_str csv_field_is_null str_eq
set_str-code none h = refl
set_str-code (some s) h = rw h

-- pa_copy of an action whose file's path name pn_new resolved from an absolute path, and whose strings
-- the setters stored, is an equal action, with an equal state.
pub pa_copy_lem :
    (base : Bytes) (cwd : Option Bytes) (pa : Pa) (ps : Ps) (path : Bytes)
    → pa.pa_ps ≡ some ps
    → IsStored pa.pa_call
    → IsStored pa.pa_pccode
    → IsStored pa.pa_ccode
    → Lacks 0 path
    → ps.ps_pn ≡ some (new_from_abs base (resolve path))
    → IsStored ps.ps_fsname
    → IsStored ps.ps_dcode
    → IsStored ps.ps_target
    → pa_copy base cwd pa ≡ ok pa
unfolding pa_copy
pa_copy_lem base cwd pa ps path has call pccode ccode l has_pn fsname dcode target = rw has (
    rw (ps_copy_lem base cwd ps path l has_pn fsname dcode target) (
      rw
        (
          set_str-stored pa.pa_call call,
          set_str-code pa.pa_pccode pccode,
          set_str-code pa.pa_ccode ccode,
        )
        refl))
