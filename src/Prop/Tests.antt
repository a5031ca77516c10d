-- ===== src/Prop/Tests.antt =====
-- Tests of the model of src/prop.c, and instances of its theorems.
use audited_objects.Prelude.{
  ◌≡◌, ◌↔◌, ◌⊎◌, inr, refl, true, Option, none, some, Bytes, codes, get_elem?, same_text, is_space,
  arith, ok, abort, ◌>>=◌,
}
use audited_objects.Radix.{radix_loop}
use audited_objects.Radix.Scan.{skip_space}
use audited_objects.Ps.Csv.{format_lu}
use audited_objects.Prop.{PropRow, number, prop_null, p_base_dir, p_depth, p_app}
use audited_objects.Prop.Rows.{proptab}
use audited_objects.Prop.Sample.{getenv, vars, start, start_IsProptab}
use audited_objects.Prop.Table.{
  prop_from_name, prop_to_name, prop_get_str, prop_get_ulong, prop_assert,
}
use audited_objects.Prop.Environment.{
  Props, padded, prop_to_ev, public_name, prop_override_str, prop_override_ulong, prop_init,
}
use audited_objects.Prop.Line.{strip_right, ends_key, prop_process_line, prop_load_from_ev}
use audited_objects.Prop.Names.{IsProptab, proptab-IsProptab, prop_from_name-prop_to_name}
use audited_objects.Prop.Settings.{variable, Holds, prop_assert-abort, prop_override_str-Holds}
use audited_objects.Prop.Numbers.{prop_get_ulong-prop_override_ulong}
use audited_objects.Prop.Loaded.{Loaded, prop_process_line-Loaded}

abbrev base_dir_row : PropRow
base_dir_row = record {
  pr_name = codes "Base.Dir";
  pr_value = none;
  pr_desc = codes "The root of this project tree";
  pr_dflt = some (codes "<REQUIRED>");
  pr_flags = 3;
  pr_pad = 0;
  pr_index = p_base_dir;
}

abbrev depth_row : PropRow
depth_row = record {
  pr_name = codes "DEPTH";
  pr_value = none;
  pr_desc = codes "Special modifiable EV carrying the cmd depth";
  pr_dflt = none;
  pr_flags = 2;
  pr_pad = 10;
  pr_index = p_depth;
}

base_dir_at : get_elem? proptab (number p_base_dir) ≡ some base_dir_row
unfolding proptab number
base_dir_at = refl

depth_at : get_elem? proptab (number p_depth) ≡ some depth_row
unfolding proptab number
depth_at = refl

-- A required property that was never set.
base_dir_unset : prop_get_str proptab (number p_base_dir) ≡ ok (some (codes "<REQUIRED>"))
unfolding prop_get_str proptab number
base_dir_unset = refl

app_name :
    (do s ← prop_init vars (codes "AO") start; prop_get_str s.proptab (number p_app))
    ≡ ok (some (codes "ao"))
unfolding prop_init start proptab vars number prop_get_str
app_name = refl

depth_from_environment :
    (do
      s ← prop_load_from_ev vars (codes "DEPTH=3") start
      prop_get_ulong s.proptab (number p_depth))
    ≡ ok 3
unfolding prop_load_from_ev prop_get_ulong start proptab vars number getenv
depth_from_environment = refl

prop_from_name-prop_to_name_example :
    prop_from_name (codes "base.dir") proptab 0 ≡ some (number p_base_dir)
unfolding prop_to_name proptab number same_text
prop_from_name-prop_to_name_example =
    prop_from_name-prop_to_name proptab p_base_dir (codes "Base.Dir") (codes "base.dir")
      proptab-IsProptab refl refl

prop_assert-abort_example : (prop_assert proptab (number p_base_dir) ≡ abort) ↔ (
    (none ≡ some prop_null)
    ⊎ ((◌≡◌ {A = Option Bytes} none none) × (some (codes "<REQUIRED>") ≡ none)))
prop_assert-abort_example =
    prop_assert-abort proptab p_base_dir base_dir_row proptab-IsProptab base_dir_at

abbrev dir : Bytes
dir = codes "/src"

prop_override_str-Holds_example :
    (s' : Props vars) × (prop_override_str vars (number p_base_dir) dir start ≡ ok s')
    × Holds vars p_base_dir base_dir_row (padded 0 dir) start s'
unfolding start variable prop_to_ev public_name number padded
prop_override_str-Holds_example =
    prop_override_str-Holds vars start p_base_dir base_dir_row dir start_IsProptab base_dir_at
      (λ e. cc e) (omega arith)

prop_get_ulong-prop_override_ulong_example :
    (s' : Props vars) × (prop_override_ulong vars (number p_depth) 7 start ≡ ok s')
    × (prop_get_ulong s'.proptab (number p_depth) ≡ ok 7)
    × IsProptab s'.proptab
unfolding start variable prop_to_ev public_name number format_lu radix_loop
prop_get_ulong-prop_override_ulong_example =
    prop_get_ulong-prop_override_ulong vars start p_depth depth_row 7 start_IsProptab depth_at
      (omega arith) (inr (omega arith)) (omega arith)

prop_process_line-Loaded_example :
    (s' : Props vars) × (prop_process_line vars (codes " base.dir : /src \n") true start
      ≡ ok (0, s'))
    × Loaded vars true none p_base_dir base_dir_row dir start s'
unfolding padded variable prop_to_ev public_name start prop_to_name number same_text ends_key
    is_space skip_space strip_right proptab
prop_process_line-Loaded_example =
    prop_process_line-Loaded vars start p_base_dir base_dir_row true b'b' (codes "ase.dir")
      (codes " ") (codes " ") (codes " ") dir (codes " \n") (codes " base.dir : /src \n") b':'
      start_IsProptab base_dir_at refl
      (
        (refl, omega arith),
        (
          (refl, omega arith),
          (
            (refl, omega arith),
            (
              (refl, omega arith),
              (
                (refl, omega arith),
                ((refl, omega arith), ((refl, omega arith), ((refl, omega arith), tt))),
              ),
            ),
          ),
        ),
      )
      (omega arith) (omega arith) ((refl, tt), (refl, tt), (refl, tt), (refl, (refl, tt)))
      (inr refl) refl refl refl (omega arith) (λ e. cc e) (omega arith)
