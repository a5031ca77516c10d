-- ===== src/Shop/Tests.antt =====
-- Shopping, on a roadmap with two builds and one command.
use audited_objects.Prelude.{
  Option, ◌≢◌, same_text, true, str_eq, if◌then◌else◌, ◌≡◌, false, Bytes, length, codes, Bool, List,
  [], ◌∷◌, some, none, ok, refl,
}
use audited_objects.Prelude.Int.{pos, ℤ}
use audited_objects.Strsep.{strsep}
use audited_objects.Strsep.Fields.{tokens}
use audited_objects.Prelude.Word.{to_i64}
use audited_objects.Radix.Scan.{strtoul}
use audited_objects.Moment.{moment_parse}
use audited_objects.Pn.{pn_new, pn_get_abs}
use audited_objects.Pn.Canon.{path_canon}
use audited_objects.Ps.{Ps, ps_get_abs, ps_new_from_path, get_str}
use audited_objects.Ps.Csv.{ps_new_from_csv_string}
use audited_objects.Ps.Copy.{ps_copy}
use audited_objects.Ps.Diff.{ps_diff}
use audited_objects.Pa.{Pa, pa_new}
use audited_objects.Ca.{Ca}
use audited_objects.Shop.{shop_err, shop_off, put_first, shop_recycled, shop_ptx_contains}
use audited_objects.Shop.Prereqs.{settle, keys_of, Env, Shopping, shop_compare_prereqs}
use audited_objects.Shop.Sound.{LinesAgree, shop_compare_prereqs-LineAgrees}
use audited_objects.Shop.Command.{shop, start_shopping}
use audited_objects.Shop.Winning.{shop-RecycledFrom, RecycledFrom}
use audited_objects.Shop.Settle.{Settled, settle-Settled}
use audited_objects.Shop.Failing.{Failed, shop-Failed}
use audited_objects.Shop.Assoc.{assoc}

abbrev roadmap : List (Bytes × List Bytes)
roadmap =
    (codes "X", codes "X1=one" ∷ codes "X2=two" ∷ [])
    ∷ (codes "cc a", codes "C1" ∷ [])
    ∷ (codes "C1", codes "-,-,true,false,-,7,." ∷ [])
    ∷ (codes "<C1", codes "S2,X2" ∷ codes "S1,X1+X2" ∷ [])
    ∷ (codes "S1", codes "f,?,0,5,0,ab,,a" ∷ [])
    ∷ (codes "S2", codes "f,?,0,5,0,cd,,a" ∷ [])
    ∷ (codes ">C1", codes "S3,X1" ∷ [])
    ∷ (codes "S3", codes "f,?,0,9,0,ef,,b" ∷ [])
    ∷ []

abbrev records_of : List (Bytes × List Bytes) → Bytes → List Bytes
records_of [] k = []
records_of (r ∷ rs) k = if str_eq r.0 k then r.1 else records_of rs k

-- Every file has five bytes and the data code "ab".
abbrev file_stat : Ps → Bool → Bool × Ps
file_stat ps want_dcode = (false, record ps { ps_size = pos 5; ps_dcode = some (codes "ab") })

abbrev env : Env
env = record {
  base = codes "/p";
  cwd = none;
  roundoff = 1000;
  records = records_of roadmap;
  ps_stat = file_stat;
  re_match = λ path. false;
}

abbrev command : Ca
command = record {
  ca_cmdid = 12;
  ca_depth = 1;
  ca_pcmdid = 11;
  ca_starttime = record { ntv_sec = pos 0; ntv_nsec = pos 0 };
  ca_duration = 0;
  ca_prog = some (codes "cc");
  ca_host = none;
  ca_recycled = none;
  ca_rwd = none;
  ca_pccode = none;
  ca_ccode = none;
  ca_pathcode = none;
  ca_line = some (codes "cc a");
  ca_freetext = none;
}

abbrev fetched : List Pa → ℤ
fetched pas = pos 0

shopped :
    shop assoc (some env) fetched length [] command none
    ≡ ok (shop_recycled, record command { ca_recycled = some (codes "one") })
unfolding shop strsep tokens keys_of ps_new_from_csv_string moment_parse pn_new ps_get_abs
    ps_new_from_path pn_get_abs path_canon ps_diff to_i64 strtoul put_first ps_copy
shopped = refl

shop-RecycledFrom_example : RecycledFrom assoc env length [] command none (some (codes "one"))
shop-RecycledFrom_example =
    shop-RecycledFrom assoc env fetched length [] command
      (record command { ca_recycled = some (codes "one") }) none shopped

-- The state of the file that the first build read.
abbrev present : Ps
present = record {
  ps_moment = record { ntv_sec = pos 0; ntv_nsec = pos 0 };
  ps_size = pos 5;
  ps_mode = 0;
  ps_dcode = some (codes "ab");
  ps_fsname = none;
  ps_pn = some (record { pn_abs = codes "/p/a"; pn_rel = 3 });
  ps_pn2 = none;
  ps_target = none;
  ps_datatype = b'f';
}

abbrev before : Shopping assoc.Carrier
before = start_shopping assoc ((codes "X2", codes "two") ∷ (codes "X1", codes "one") ∷ [])

abbrev after : Shopping assoc.Carrier
after = record {
  ptx_dict = (codes "x1", codes "one") ∷ [];
  current_ps = none;
  recorded =
      record pa_new { pa_op = b'R'; pa_call = some (codes "dummy"); pa_ps = some present } ∷ [];
}

compared : shop_compare_prereqs assoc env (codes "C1") before ≡ ok after
unfolding shop_compare_prereqs pa_new strsep tokens keys_of ps_new_from_csv_string moment_parse
    pn_new ps_get_abs ps_new_from_path pn_get_abs path_canon ps_diff to_i64 strtoul put_first
    ps_copy same_text get_str
compared = refl

shop_compare_prereqs-LineAgrees_example :
    (shop_ptx_contains assoc before.ptx_dict (codes "X1") ≡ true)
    × ((last : Option Ps) × LinesAgree env assoc
          (codes "X1")
          (codes "S2,X2" ∷ codes "S1,X1+X2" ∷ [])
          none
          last)
unfolding str_eq
shop_compare_prereqs-LineAgrees_example =
    shop_compare_prereqs-LineAgrees env assoc (codes "X1") (codes "C1") before after compared
      (unfold shop_ptx_contains same_text in refl)

abbrev without_two : Shopping assoc.Carrier
without_two = record before { ptx_dict = (codes "X1", codes "one") ∷ [] }

settled : settle assoc env true false (codes "x2" ∷ []) present before ≡ ok without_two
unfolding settle same_text
settled = refl

settle-Settled_example : Settled env assoc true false (codes "x2" ∷ []) present before without_two
settle-Settled_example =
    settle-Settled env assoc true false (codes "x2" ∷ []) present before without_two settled

-- A download that fails.
abbrev not_fetched : List Pa → ℤ
not_fetched pas = pos 1

failed : shop assoc (some env) not_fetched length [] command none ≡ ok (shop_err, command)
unfolding shop strsep tokens keys_of ps_new_from_csv_string moment_parse pn_new ps_get_abs
    ps_new_from_path pn_get_abs path_canon ps_diff to_i64 strtoul put_first ps_copy
failed = refl

shop-Failed_example :
    ((shop_err ≢ shop_off)
      × (shop_err ≡ shop_err
          → Failed assoc env not_fetched length [] command none (shop_err, command)))
shop-Failed_example =
    shop-Failed assoc env not_fetched length [] command none (shop_err, command) failed
