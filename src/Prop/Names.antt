-- ===== src/Prop/Names.antt =====
-- The order and the names of the table in src/prop.c.
use audited_objects.Prelude.{
  ℕ, zero, suc, ◌+◌, ◌≡◌, refl, sym, ap, ◌∙◌, true, ◌==◌, List, [], ◌∷◌, Option, none, some, Bytes,
  map, get_elem?, set, str_eq, same_text, same_text_iff, to_lower, is_upper, arith, ok, Outcome,
}
use audited_objects.Prop.{
  PropE, PropRow, number, p_app, p_absolute_paths, p_activation_prog_re, p_aggregated_subcmd,
  p_aggregation_line_break_re, p_aggregation_line_strong_re, p_aggregation_line_weak_re,
  p_aggregation_prog_break_re, p_aggregation_prog_strong_re, p_aggregation_prog_weak_re,
  p_aggregation_style, p_aggressive_server, p_allowed_write_path_re, p_audit_ignore_path_re,
  p_audit_ignore_prog_re, p_audit_only, p_base_dir, p_dcode_all, p_dcode_cache_secs, p_depth,
  p_doc_pager, p_download_only, p_execute_only, p_git, p_git_dir, p_identity_hash, p_leave_roadmap,
  p_log_file, p_log_file_temp, p_log_time_stamp, p_make_depends, p_make_file, p_make_oneshell,
  p_members_only, p_mmap_larger_than, p_monitor_listeners, p_monitor_host, p_monitor_platform,
  p_monitor_port, p_monitor_timeout_secs, p_no_monitor, p_original_datestamp, p_output_file,
  p_pccode, p_pcmdid, p_perl_cmd, p_print_elapsed, p_progname, p_project_base_glob, p_project_name,
  p_ptx_strategy, p_reuse_roadmap, p_roadmapfile, p_server, p_server_context, p_server_log_level,
  p_sessionid, p_session_timeout_secs, p_shop_ignore_path_re, p_shop_time_precision, p_strict,
  p_strict_audit, p_strict_download, p_strict_error, p_strict_upload, p_synchronous_transfers,
  p_track_env_re, p_uncompressed_transfers, p_upload_only, p_upload_reads, p_verbosity, p_wflag,
}
use audited_objects.Prop.Rows.{proptab}
use audited_objects.Prop.Table.{
  app_of, prop_from_name, prop_to_name, row_at, value_if, prop_get_value, prop_get_app,
}

-- The rows stand for the same properties as at the start, in the same order.
pub record IsProptab (t : List PropRow) : Type 0 where
  pub names : map (λ r. r.pr_name) t ≡ map (λ r. r.pr_name) proptab
  pub indices : map (λ r. r.pr_index) t ≡ map (λ r. r.pr_index) proptab

pub proptab-IsProptab : IsProptab proptab
proptab-IsProptab = record { names = refl; indices = refl }

module _ {ℓ κ} {A : Type ℓ} {B : Type κ} (f : A → B) where
  get_elem?-map :
      (xs : List A) (k : ℕ) (y : B)
      → get_elem? (map f xs) k ≡ some y
      → (x : A) × (get_elem? xs k ≡ some x) × (f x ≡ y)
  get_elem?-map [] k y h = cc
  get_elem?-map (x ∷ xs) zero y h = (x, refl, cc)
  get_elem?-map (x ∷ xs) (suc k) y h = get_elem?-map xs k y h

  pub map-set :
      (xs : List A) (k : ℕ) (x x' : A)
      → get_elem? xs k ≡ some x
      → f x' ≡ f x
      → map f (set xs k x') ≡ map f xs
  map-set [] k x x' h e = refl
  map-set (a ∷ xs) zero x x' h e = cc
  map-set (a ∷ xs) (suc k) x x' h e = ap (λ l. f a ∷ l) (map-set xs k x x' h e)

-- The table is in the order of the enumeration.
index_at : (p : PropE) → get_elem? (map (λ r. r.pr_index) proptab) (number p) ≡ some p
unfolding proptab number
index_at p_app = refl
index_at p_absolute_paths = refl
index_at p_activation_prog_re = refl
index_at p_aggregated_subcmd = refl
index_at p_aggregation_line_break_re = refl
index_at p_aggregation_line_strong_re = refl
index_at p_aggregation_line_weak_re = refl
index_at p_aggregation_prog_break_re = refl
index_at p_aggregation_prog_strong_re = refl
index_at p_aggregation_prog_weak_re = refl
index_at p_aggregation_style = refl
index_at p_aggressive_server = refl
index_at p_allowed_write_path_re = refl
index_at p_audit_ignore_path_re = refl
index_at p_audit_ignore_prog_re = refl
index_at p_audit_only = refl
index_at p_base_dir = refl
index_at p_dcode_all = refl
index_at p_dcode_cache_secs = refl
index_at p_depth = refl
index_at p_doc_pager = refl
index_at p_download_only = refl
index_at p_execute_only = refl
index_at p_git = refl
index_at p_git_dir = refl
index_at p_identity_hash = refl
index_at p_leave_roadmap = refl
index_at p_log_file = refl
index_at p_log_file_temp = refl
index_at p_log_time_stamp = refl
index_at p_make_depends = refl
index_at p_make_file = refl
index_at p_make_oneshell = refl
index_at p_members_only = refl
index_at p_mmap_larger_than = refl
index_at p_monitor_listeners = refl
index_at p_monitor_host = refl
index_at p_monitor_platform = refl
index_at p_monitor_port = refl
index_at p_monitor_timeout_secs = refl
index_at p_no_monitor = refl
index_at p_original_datestamp = refl
index_at p_output_file = refl
index_at p_pccode = refl
index_at p_pcmdid = refl
index_at p_perl_cmd = refl
index_at p_print_elapsed = refl
index_at p_progname = refl
index_at p_project_base_glob = refl
index_at p_project_name = refl
index_at p_ptx_strategy = refl
index_at p_reuse_roadmap = refl
index_at p_roadmapfile = refl
index_at p_server = refl
index_at p_server_context = refl
index_at p_server_log_level = refl
index_at p_sessionid = refl
index_at p_session_timeout_secs = refl
index_at p_shop_ignore_path_re = refl
index_at p_shop_time_precision = refl
index_at p_strict = refl
index_at p_strict_audit = refl
index_at p_strict_download = refl
index_at p_strict_error = refl
index_at p_strict_upload = refl
index_at p_synchronous_transfers = refl
index_at p_track_env_re = refl
index_at p_uncompressed_transfers = refl
index_at p_upload_only = refl
index_at p_upload_reads = refl
index_at p_verbosity = refl
index_at p_wflag = refl

-- Every property has its row.
pub row_of :
    {t : List PropRow} (p : PropE)
    → IsProptab t
    → (r : PropRow) × (get_elem? t (number p) ≡ some r) × (r.pr_index ≡ p)
row_of {t} p h =
    get_elem?-map (λ (r : PropRow). r.pr_index) t (number p) p (rw h.indices (index_at p))

pub row_at_ok :
    (t : List PropRow) (k : ℕ) (r : PropRow) → get_elem? t k ≡ some r → row_at t k ≡ ok r
unfolding row_at
row_at_ok t k r e = rw (e, row_at)

-- A name in whatever case finds the same row.
from_name-cong :
    (a b : Bytes) (t t' : List PropRow) (i : ℕ)
    → map to_lower a ≡ map to_lower b
    → map (λ r. r.pr_name) t ≡ map (λ r. r.pr_name) t'
    → prop_from_name a t i ≡ prop_from_name b t' i
unfolding prop_from_name same_text
from_name-cong a b [] [] i e h = refl
from_name-cong a b [] (r ∷ rs) i e h = cc
from_name-cong a b (r ∷ rs) [] i e h = cc
from_name-cong a b (r ∷ rs) (r' ∷ rs') i e h =
    let ih : prop_from_name a rs (i + 1) ≡ prop_from_name b rs' (i + 1) =
      from_name-cong a b rs rs' (i + 1) e (cc) in
    let n : r.pr_name ≡ r'.pr_name = cc in rw (e, n, ih)

-- The name of a property in the table.
name_at : PropE → Bytes
name_at p = elim (get_elem? proptab (number p)) [ none ↦ [] | some r ↦ r.pr_name ]

from_name-name_at : (p : PropE) → prop_from_name (name_at p) proptab 0 ≡ some (number p)
unfolding name_at prop_from_name proptab number same_text str_eq to_lower is_upper
from_name-name_at p_app = refl
from_name-name_at p_absolute_paths = refl
from_name-name_at p_activation_prog_re = refl
from_name-name_at p_aggregated_subcmd = refl
from_name-name_at p_aggregation_line_break_re = refl
from_name-name_at p_aggregation_line_strong_re = refl
from_name-name_at p_aggregation_line_weak_re = refl
from_name-name_at p_aggregation_prog_break_re = refl
from_name-name_at p_aggregation_prog_strong_re = refl
from_name-name_at p_aggregation_prog_weak_re = refl
from_name-name_at p_aggregation_style = refl
from_name-name_at p_aggressive_server = refl
from_name-name_at p_allowed_write_path_re = refl
from_name-name_at p_audit_ignore_path_re = refl
from_name-name_at p_audit_ignore_prog_re = refl
from_name-name_at p_audit_only = refl
from_name-name_at p_base_dir = refl
from_name-name_at p_dcode_all = refl
from_name-name_at p_dcode_cache_secs = refl
from_name-name_at p_depth = refl
from_name-name_at p_doc_pager = refl
from_name-name_at p_download_only = refl
from_name-name_at p_execute_only = refl
from_name-name_at p_git = refl
from_name-name_at p_git_dir = refl
from_name-name_at p_identity_hash = refl
from_name-name_at p_leave_roadmap = refl
from_name-name_at p_log_file = refl
from_name-name_at p_log_file_temp = refl
from_name-name_at p_log_time_stamp = refl
from_name-name_at p_make_depends = refl
from_name-name_at p_make_file = refl
from_name-name_at p_make_oneshell = refl
from_name-name_at p_members_only = refl
from_name-name_at p_mmap_larger_than = refl
from_name-name_at p_monitor_listeners = refl
from_name-name_at p_monitor_host = refl
from_name-name_at p_monitor_platform = refl
from_name-name_at p_monitor_port = refl
from_name-name_at p_monitor_timeout_secs = refl
from_name-name_at p_no_monitor = refl
from_name-name_at p_original_datestamp = refl
from_name-name_at p_output_file = refl
from_name-name_at p_pccode = refl
from_name-name_at p_pcmdid = refl
from_name-name_at p_perl_cmd = refl
from_name-name_at p_print_elapsed = refl
from_name-name_at p_progname = refl
from_name-name_at p_project_base_glob = refl
from_name-name_at p_project_name = refl
from_name-name_at p_ptx_strategy = refl
from_name-name_at p_reuse_roadmap = refl
from_name-name_at p_roadmapfile = refl
from_name-name_at p_server = refl
from_name-name_at p_server_context = refl
from_name-name_at p_server_log_level = refl
from_name-name_at p_sessionid = refl
from_name-name_at p_session_timeout_secs = refl
from_name-name_at p_shop_ignore_path_re = refl
from_name-name_at p_shop_time_precision = refl
from_name-name_at p_strict = refl
from_name-name_at p_strict_audit = refl
from_name-name_at p_strict_download = refl
from_name-name_at p_strict_error = refl
from_name-name_at p_strict_upload = refl
from_name-name_at p_synchronous_transfers = refl
from_name-name_at p_track_env_re = refl
from_name-name_at p_uncompressed_transfers = refl
from_name-name_at p_upload_only = refl
from_name-name_at p_upload_reads = refl
from_name-name_at p_verbosity = refl
from_name-name_at p_wflag = refl

get_elem?-map_found :
    {A B : Type 0} (f : A → B) (xs : List A) (k : ℕ) (x : A)
    → get_elem? xs k ≡ some x
    → get_elem? (map f xs) k ≡ some (f x)
get_elem?-map_found f [] k x h = cc
get_elem?-map_found f (a ∷ xs) zero x h = cc
get_elem?-map_found f (a ∷ xs) (suc k) x h = get_elem?-map_found f xs k x h

name_at_lem :
    (t : List PropRow) (p : PropE) (r : PropRow)
    → IsProptab t
    → get_elem? t (number p) ≡ some r
    → name_at p ≡ r.pr_name
unfolding name_at
name_at_lem t p r h e =
    let (r₀, e₀, i₀) = row_of p proptab-IsProptab in
    let a : get_elem? (map (λ r. r.pr_name) t) (number p) ≡ some r.pr_name =
      get_elem?-map_found (λ (x : PropRow). x.pr_name) t (number p) r e in
    let b : get_elem? (map (λ r. r.pr_name) proptab) (number p) ≡ some r₀.pr_name =
      get_elem?-map_found (λ (x : PropRow). x.pr_name) proptab (number p) r₀ e₀ in
    let c : some r₀.pr_name ≡ some r.pr_name =
      sym b ∙ (ap (λ l. get_elem? l (number p)) (sym h.names) ∙ a) in
    rw (e₀, name_at) (cc)

-- prop_from_name finds every property of the table by its name, in whatever case the name is
-- written: no two names differ in case only, and the table is in the order of the enumeration.
pub prop_from_name-prop_to_name :
    (t : List PropRow) (p : PropE) (name text : Bytes)
    → IsProptab t
    → prop_to_name t (number p) ≡ ok name
    → same_text text name ≡ true
    → prop_from_name text t 0 ≡ some (number p)
unfolding prop_to_name
prop_from_name-prop_to_name t p name text h e same =
    let (r, at, i) = row_of p h in
    let o : ◌≡◌ {A = Outcome Bytes} (ok r.pr_name) (ok name) =
      rw (row_at_ok t (number p) r at) at e in
    let n : r.pr_name ≡ name = cc in
    let n' : name_at p ≡ name = name_at_lem t p r h at ∙ (cc) in
    from_name-cong text (name_at p) t proptab 0
      ((same_text_iff text name).0 same ∙ ap (map to_lower) (sym n')) h.names
    ∙ from_name-name_at p

get_app_ok : (t : List PropRow) → IsProptab t → (v : Option Bytes) × (prop_get_app t ≡ ok v)
unfolding prop_get_app
get_app_ok t h =
    let (r, at, i) = row_of p_app h in (app_of r, rw (row_at_ok t (number p_app) r at) refl)

value_if_same : (app : Option Bytes) (r : PropRow) → value_if app true r ≡ ok r.pr_value
unfolding value_if
value_if_same none r = refl
value_if_same (some a) r = refl

-- The check of the order does not fire.
pub get_value_of :
    (t : List PropRow) (p : PropE) (r : PropRow)
    → IsProptab t
    → get_elem? t (number p) ≡ some r
    → r.pr_index ≡ p
    → prop_get_value t (number p) ≡ ok r.pr_value
unfolding prop_get_value
get_value_of t p r h at i =
    let (app, a) = get_app_ok t h in
    rw a (
      rw (row_at_ok t (number p) r at) (
        let same : (number r.pr_index == number p) ≡ true = rw i (ground arith) in
        rw same (value_if_same app r)))
