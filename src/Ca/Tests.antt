-- ===== src/Ca/Tests.antt =====
-- Commands, on examples. The checksum is the length of the text.
use audited_objects.Pa.{pa_is_read}
use audited_objects.Prelude.{◌↔◌}
use audited_objects.Prelude.Int.{ℤ, ◌+ℤ◌}
use audited_objects.Ca.Foreach.{visit, foreach_if, ca_foreach_cooked_pa}
use audited_objects.Ca.Key.{Ck, ca_o_hash_cmp, SameCmdid, ca_o_hash_cmp_zero}
use audited_objects.Pn.Canon.{is_sep}
use audited_objects.Pn.{Pn, new_from_abs, pn_get_rel, dot_if_empty}
use audited_objects.Pn.Canon.Resolve.{resolve, resolve_from}
use audited_objects.Ps.{Ps, ps_get_rel}
use audited_objects.Pa.{Pa, pa_get_rel}
use audited_objects.Pa.Copy.{pa_copy_lem}
use audited_objects.Ca.Coalesce.{ca_coalesce}
use audited_objects.Ca.Cooked.{IsRaw, actions}
use audited_objects.Ca.Winner.{is_write, has_write, ca_coalesce-has_write}
use audited_objects.Ca.Dictionary.{by_path}
use audited_objects.Prelude.{
  ◌∷◌, [], List, All, sym, ℕ, ◌≡◌, ◌++◌, refl, some, none, Bytes, codes, arith, ok, contains,
  contains-Lacks, str_eq, length,
}
use audited_objects.Prelude.Int.{pos}
use audited_objects.Radix.{radix_loop, format_to_radix}
use audited_objects.Ps.{csv_field_is_null}
use audited_objects.Ps.Csv.{format_lu}
use audited_objects.Ca.{Ca}
use audited_objects.Ca.Newline.{put_tokens, take_tokens}
use audited_objects.Ca.Header.{code_from_str, ccode_of, ca_format_header, ca_new_from_csv_string}
use audited_objects.Ca.RoundTrip.{IsAnnounced, ca_new_from_csv_string-ca_format_header}

abbrev checksum : Bytes → ℕ
checksum s = length s

tokens :
    (put_tokens (codes "a\nb") ≡ codes "a^Jb")
    × (take_tokens (codes "a^Jb^") ≡ codes "a\nb^")
    × (take_tokens (put_tokens (codes "a^Jb")) ≡ codes "a\nb")
unfolding put_tokens take_tokens
tokens = (refl, refl, refl)

-- A command line of two lines, with a comma.
abbrev script : Bytes
script = codes "cc,\nx"

abbrev compile : Ca
compile = record {
  ca_cmdid = 12;
  ca_depth = 3;
  ca_pcmdid = 11;
  ca_starttime = record { ntv_sec = pos 1000; ntv_nsec = pos 5 };
  ca_duration = 250;
  ca_prog = some (codes "cc");
  ca_host = some (codes "h1");
  ca_recycled = none;
  ca_rwd = some (codes "src");
  ca_pccode = none;
  ca_ccode = some (codes "5+5");
  ca_pathcode = none;
  ca_line = some script;
  ca_freetext = none;
}

script_code : code_from_str checksum script ≡ ok (codes "5")
unfolding code_from_str format_to_radix radix_loop
script_code = refl

script_ccode : ccode_of script (codes "5") ≡ some (codes "5+5")
unfolding ccode_of format_lu radix_loop
script_ccode = refl

compile-IsAnnounced : IsAnnounced checksum compile
unfolding csv_field_is_null contains
compile-IsAnnounced = record {
  cmdid = omega arith;
  depth = omega arith;
  pcmdid = omega arith;
  starttime = record {
    sec = 1000;
    nsec = 5;
    is_sec = refl;
    is_nsec = refl;
    small_sec = omega arith;
    small_nsec = omega arith;
  };
  duration = omega arith;
  host = (
    unfold str_eq in refl,
    (contains-Lacks b',' (codes "h1") refl, contains-Lacks b'\n' (codes "h1") refl),
  );
  recycled = tt;
  freetext = tt;
  prog = (
    unfold str_eq in refl,
    (contains-Lacks b',' (codes "cc") refl, contains-Lacks b'\n' (codes "cc") refl),
  );
  rwd = (
    unfold str_eq in refl,
    (contains-Lacks b',' (codes "src") refl, contains-Lacks b'\n' (codes "src") refl),
  );
  pccode = tt;
  pathcode = tt;
  line = script;
  has_line = refl;
  no_token = (refl, (refl, (refl, (refl, tt))));
  short = omega arith;
  hashed = omega arith;
  code = codes "5";
  is_code = script_code;
  has_ccode = sym script_ccode;
}

ca_new_from_csv_string-ca_format_header_example :
    (csv : Bytes) × (ca_format_header compile ≡ ok (csv ++ codes "\n"))
    × (ca_new_from_csv_string checksum (some csv) ≡ ok compile)
ca_new_from_csv_string-ca_format_header_example =
    ca_new_from_csv_string-ca_format_header checksum compile compile-IsAnnounced

abbrev base : Bytes
base = codes "/p"

abbrev file_pn : Pn
file_pn = new_from_abs base (resolve (codes "p/./x"))

abbrev file : Ps
file = record {
  ps_moment = record { ntv_sec = pos 1000; ntv_nsec = pos 5 };
  ps_size = pos 42;
  ps_mode = 33188;
  ps_dcode = none;
  ps_fsname = none;
  ps_pn = some file_pn;
  ps_pn2 = none;
  ps_target = none;
  ps_datatype = b'f';
}

-- An action on /p/x.
abbrev action : ℕ → Pa
action op = record {
  pa_op = op;
  pa_call = some (codes "open");
  pa_timestamp = record { ntv_sec = pos 1000; ntv_nsec = pos 5 };
  pa_pid = 12;
  pa_ppid = 11;
  pa_tid = 1;
  pa_depth = 3;
  pa_pccode = none;
  pa_ccode = none;
  pa_fd = pos 4;
  pa_uploadable = pos 0;
  pa_ps = some file;
}

action-IsRaw : (op : ℕ) → IsRaw base none (codes "x", action op)
unfolding pa_get_rel ps_get_rel pn_get_rel dot_if_empty new_from_abs resolve resolve_from is_sep
action-IsRaw op = record {
  ps = file;
  has_ps = refl;
  has_rel = refl;
  copied =
      pa_copy_lem base none (action op) file (codes "p/./x") refl
        (unfold csv_field_is_null str_eq in refl) tt tt
        (contains-Lacks 0 (codes "p/./x") (unfold contains in refl)) refl tt tt tt;
}

-- Read, removed, created again, and read.
abbrev raws : List (Bytes × Pa)
raws =
    (codes "x", action b'R')
    ∷ (codes "x", action b'U')
    ∷ (codes "x", action b'C')
    ∷ (codes "x", action b'R')
    ∷ []

raws-IsRaw : All (IsRaw base none) raws
raws-IsRaw = (action-IsRaw b'R', (action-IsRaw b'U', (action-IsRaw b'C', (action-IsRaw b'R', tt))))

ca_coalesce-has_write_example :
    (d : by_path.Carrier) × (ca_coalesce by_path 1000 base none
        (actions by_path 1000 base none raws)
        by_path.empty
      ≡ ok d)
    × ((k : Bytes) → is_write (by_path.lookup d k) ≡ has_write k raws)
ca_coalesce-has_write_example = ca_coalesce-has_write by_path 1000 base none raws raws-IsRaw

-- A callback that lists the operations and counts them.
abbrev listed : Pa → List ℕ → List ℕ × ℤ
listed pa ops = (pa.pa_op ∷ ops, pos 1)

visited :
    ca_foreach_cooked_pa listed (actions by_path 1000 base none raws) []
    ≡ ok (b'C' ∷ b'U' ∷ b'R' ∷ b'R' ∷ [], pos 4)
unfolding ca_foreach_cooked_pa foreach_if visit pa_is_read ◌+ℤ◌
visited = refl

abbrev key : ℕ → Ck
key cmdid = record { ck_ccode = codes "5+5"; ck_depth = 3; ck_cmdid = cmdid }

ca_o_hash_cmp_zero_example : (ca_o_hash_cmp (key 12) (key 0) ≡ pos 0) ↔ (
    ((key 12).ck_ccode ≡ (key 0).ck_ccode)
    × ((key 12).ck_depth ≡ (key 0).ck_depth)
    × SameCmdid (key 12).ck_cmdid (key 0).ck_cmdid)
ca_o_hash_cmp_zero_example =
    ca_o_hash_cmp_zero (key 12) (key 0) (omega arith) (omega arith) (omega arith) (omega arith)
