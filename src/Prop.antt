-- ===== src/Prop.antt =====
-- The table of settings in src/prop.c: the enumeration of PROP.h, which numbers its rows, and what a row
-- holds.
pub mod Rows
pub mod Table
pub mod Environment
pub mod Settings
pub mod Numbers
pub mod Line
pub mod Lines
pub mod Loaded
pub mod Names
pub mod Sample
mod Tests
use audited_objects.Prelude.{ℕ, Option, Bytes, codes}

-- `prop_e`, without P_BADPROP, which is -1.
pub data PropE : Type 0 where
  p_app : PropE
  p_absolute_paths : PropE
  p_activation_prog_re : PropE
  p_aggregated_subcmd : PropE
  p_aggregation_line_break_re : PropE
  p_aggregation_line_strong_re : PropE
  p_aggregation_line_weak_re : PropE
  p_aggregation_prog_break_re : PropE
  p_aggregation_prog_strong_re : PropE
  p_aggregation_prog_weak_re : PropE
  p_aggregation_style : PropE
  p_aggressive_server : PropE
  p_allowed_write_path_re : PropE
  p_audit_ignore_path_re : PropE
  p_audit_ignore_prog_re : PropE
  p_audit_only : PropE
  p_base_dir : PropE
  p_dcode_all : PropE
  p_dcode_cache_secs : PropE
  p_depth : PropE
  p_doc_pager : PropE
  p_download_only : PropE
  p_execute_only : PropE
  p_git : PropE
  p_git_dir : PropE
  p_identity_hash : PropE
  p_leave_roadmap : PropE
  p_log_file : PropE
  p_log_file_temp : PropE
  p_log_time_stamp : PropE
  p_make_depends : PropE
  p_make_file : PropE
  p_make_oneshell : PropE
  p_members_only : PropE
  p_mmap_larger_than : PropE
  p_monitor_listeners : PropE
  p_monitor_host : PropE
  p_monitor_platform : PropE
  p_monitor_port : PropE
  p_monitor_timeout_secs : PropE
  p_no_monitor : PropE
  p_original_datestamp : PropE
  p_output_file : PropE
  p_pccode : PropE
  p_pcmdid : PropE
  p_perl_cmd : PropE
  p_print_elapsed : PropE
  p_progname : PropE
  p_project_base_glob : PropE
  p_project_name : PropE
  p_ptx_strategy : PropE
  p_reuse_roadmap : PropE
  p_roadmapfile : PropE
  p_server : PropE
  p_server_context : PropE
  p_server_log_level : PropE
  p_sessionid : PropE
  p_session_timeout_secs : PropE
  p_shop_ignore_path_re : PropE
  p_shop_time_precision : PropE
  p_strict : PropE
  p_strict_audit : PropE
  p_strict_download : PropE
  p_strict_error : PropE
  p_strict_upload : PropE
  p_synchronous_transfers : PropE
  p_track_env_re : PropE
  p_uncompressed_transfers : PropE
  p_upload_only : PropE
  p_upload_reads : PropE
  p_verbosity : PropE
  p_wflag : PropE

-- The value of an enumerator.
unfoldable pub number : PropE → ℕ
number p_app = 0
number p_absolute_paths = 1
number p_activation_prog_re = 2
number p_aggregated_subcmd = 3
number p_aggregation_line_break_re = 4
number p_aggregation_line_strong_re = 5
number p_aggregation_line_weak_re = 6
number p_aggregation_prog_break_re = 7
number p_aggregation_prog_strong_re = 8
number p_aggregation_prog_weak_re = 9
number p_aggregation_style = 10
number p_aggressive_server = 11
number p_allowed_write_path_re = 12
number p_audit_ignore_path_re = 13
number p_audit_ignore_prog_re = 14
number p_audit_only = 15
number p_base_dir = 16
number p_dcode_all = 17
number p_dcode_cache_secs = 18
number p_depth = 19
number p_doc_pager = 20
number p_download_only = 21
number p_execute_only = 22
number p_git = 23
number p_git_dir = 24
number p_identity_hash = 25
number p_leave_roadmap = 26
number p_log_file = 27
number p_log_file_temp = 28
number p_log_time_stamp = 29
number p_make_depends = 30
number p_make_file = 31
number p_make_oneshell = 32
number p_members_only = 33
number p_mmap_larger_than = 34
number p_monitor_listeners = 35
number p_monitor_host = 36
number p_monitor_platform = 37
number p_monitor_port = 38
number p_monitor_timeout_secs = 39
number p_no_monitor = 40
number p_original_datestamp = 41
number p_output_file = 42
number p_pccode = 43
number p_pcmdid = 44
number p_perl_cmd = 45
number p_print_elapsed = 46
number p_progname = 47
number p_project_base_glob = 48
number p_project_name = 49
number p_ptx_strategy = 50
number p_reuse_roadmap = 51
number p_roadmapfile = 52
number p_server = 53
number p_server_context = 54
number p_server_log_level = 55
number p_sessionid = 56
number p_session_timeout_secs = 57
number p_shop_ignore_path_re = 58
number p_shop_time_precision = 59
number p_strict = 60
number p_strict_audit = 61
number p_strict_download = 62
number p_strict_error = 63
number p_strict_upload = 64
number p_synchronous_transfers = 65
number p_track_env_re = 66
number p_uncompressed_transfers = 67
number p_upload_only = 68
number p_upload_reads = 69
number p_verbosity = 70
number p_wflag = 71

abbrev pub prop_null : Bytes
prop_null = codes "<NULL>"

abbrev pub prop_true : Bytes
prop_true = codes "<TRUE>"

abbrev pub prop_false : Bytes
prop_false = codes "<FALSE>"

abbrev pub prop_required : Bytes
prop_required = codes "<REQUIRED>"

-- The bits of `pr_flags`.
abbrev pub prop_flag_private : ℕ
prop_flag_private = 0

abbrev pub prop_flag_public : ℕ
prop_flag_public = 1

abbrev pub prop_flag_export : ℕ
prop_flag_export = 2

-- A row of `proptab`, whose name is not NULL.
pub record PropRow : Type 0 where
  pub pr_name : Bytes
  pub pr_value : Option Bytes
  pub pr_desc : Bytes
  pub pr_dflt : Option Bytes
  pub pr_flags : ℕ
  pub pr_pad : ℕ
  pub pr_index : PropE
