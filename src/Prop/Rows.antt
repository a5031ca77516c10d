-- ===== src/Prop/Rows.antt =====
-- The initial table of src/prop.c, as it is compiled on Unix: it has no value yet. `|` of flags is a
-- sum, since no flag stands twice.
use audited_objects.Prelude.{List, [], ◌∷◌, ◌++◌, ◌+◌, Bytes, codes, Option, none, some, ℕ}
use audited_objects.Prop.{
  PropRow, PropE, prop_false, prop_flag_export, prop_flag_private, prop_flag_public, prop_required,
  p_app, p_absolute_paths, p_activation_prog_re, p_aggregated_subcmd, p_aggregation_line_break_re,
  p_aggregation_line_strong_re, p_aggregation_line_weak_re, p_aggregation_prog_break_re,
  p_aggregation_prog_strong_re, p_aggregation_prog_weak_re, p_aggregation_style,
  p_aggressive_server, p_allowed_write_path_re, p_audit_ignore_path_re, p_audit_ignore_prog_re,
  p_audit_only, p_base_dir, p_dcode_all, p_dcode_cache_secs, p_depth, p_doc_pager, p_download_only,
  p_execute_only, p_git, p_git_dir, p_identity_hash, p_leave_roadmap, p_log_file, p_log_file_temp,
  p_log_time_stamp, p_make_depends, p_make_file, p_make_oneshell, p_members_only,
  p_mmap_larger_than, p_monitor_listeners, p_monitor_host, p_monitor_platform, p_monitor_port,
  p_monitor_timeout_secs, p_no_monitor, p_original_datestamp, p_output_file, p_pccode, p_pcmdid,
  p_perl_cmd, p_print_elapsed, p_progname, p_project_base_glob, p_project_name, p_ptx_strategy,
  p_reuse_roadmap, p_roadmapfile, p_server, p_server_context, p_server_log_level, p_sessionid,
  p_session_timeout_secs, p_shop_ignore_path_re, p_shop_time_precision, p_strict, p_strict_audit,
  p_strict_download, p_strict_error, p_strict_upload, p_synchronous_transfers, p_track_env_re,
  p_uncompressed_transfers, p_upload_only, p_upload_reads, p_verbosity, p_wflag,
}

abbrev row : Bytes → Bytes → Option Bytes → ℕ → ℕ → PropE → PropRow
row name desc dflt flags pad index = record {
  pr_name = name;
  pr_value = none;
  pr_desc = desc;
  pr_dflt = dflt;
  pr_flags = flags;
  pr_pad = pad;
  pr_index = index;
}

abbrev pub rows_from_app : List PropRow
rows_from_app =
    row (codes "APP") (codes "Base name of the application") (some (codes "ao")) (prop_flag_private)
      0 p_app
    ∷ row (codes "Absolute.Paths") (codes "Show member paths as absolute") (some prop_false)
        (prop_flag_public) 0 p_absolute_paths
    ∷ row (codes "Activation.Prog.RE")
        (codes "Regular expression describing programs which trigger an audit") none
        (prop_flag_private + prop_flag_export) 0 p_activation_prog_re
    ∷ row (codes "Aggregated.Subcmd")
        (codes "Boolean - disable build avoidance within aggregated subcommands") (some prop_false)
        (prop_flag_private + prop_flag_export) 0 p_aggregated_subcmd
    ∷ row (codes "Aggregation.Line.Break.RE") (codes "Break-aggregation RE based on cmd line") none
        (prop_flag_public) 0 p_aggregation_line_break_re
    ∷ row (codes "Aggregation.Line.Strong.RE") (codes "Strong-aggregation RE based on cmd line")
        (some (codes "^(?:(?:/usr|/usr/xpg4)?/bin/)?[a-z]*sh\\s+|libtool|^/\\S*/perl\\s+\\S+gcc"))
        (prop_flag_public) 0 p_aggregation_line_strong_re
    ∷ row (codes "Aggregation.Line.Weak.RE") (codes "Weak-aggregation RE based on cmd line") none
        (prop_flag_public) 0 p_aggregation_line_weak_re
    ∷ row (codes "Aggregation.Prog.Break.RE") (codes "Break-aggregation RE based on prog name")
        (some (codes "make$")) (prop_flag_public) 0 p_aggregation_prog_break_re
    ∷ row (codes "Aggregation.Prog.Strong.RE") (codes "Strong-aggregation RE based on prog name")
        (some (codes "(\\bcc|\\bCC|gcc|gcc-.*|[cg][+]{2}|[cg][+]{2}-.*|ccache)$"))
        (prop_flag_public) 0 p_aggregation_prog_strong_re
    ∷ row (codes "Aggregation.Prog.Weak.RE") (codes "Weak-aggregation RE based on prog name")
        (some (codes "java$")) (prop_flag_public) 0 p_aggregation_prog_weak_re
    ∷ row (codes "Aggregation.Style") (codes "Whether to aggregate all, some, or none") none
        (prop_flag_private) 0 p_aggregation_style
    ∷ row (codes "Aggressive.Server")
        (codes "Temporary hack to request aggressive server-side optimization") (some prop_false)
        (prop_flag_private) 0 p_aggressive_server
    ∷ []

abbrev pub rows_from_allowed_write_path_re : List PropRow
rows_from_allowed_write_path_re =
    row (codes "Allowed.Write.Path.RE")
      (codes "Regular expression specifying legal paths for write ops") none
      (prop_flag_private + prop_flag_export) 0 p_allowed_write_path_re
    ∷ row (codes "Audit.Ignore.Path.RE")
        (codes "Regular expression matching pathnames to be completely ignored")
        (some (codes "/tmp\\d+\\b|/tmp/[^/]+$|\\b(\\.bak|\\.BAK)|\\.cmake\\.state$"))
        (prop_flag_public + prop_flag_export) 0 p_audit_ignore_path_re
    ∷ row (codes "Audit.Ignore.Prog.RE")
        (codes "Regular expression matching programs to be completely ignored") none
        (prop_flag_private + prop_flag_export) 0 p_audit_ignore_prog_re
    ∷ row (codes "Audit.Only")
        (codes "Audit file and command activity but do no uploads or downloads") (some prop_false)
        (prop_flag_public) 0 p_audit_only
    ∷ row (codes "Base.Dir") (codes "The root of this project tree") (some prop_required)
        (prop_flag_public + prop_flag_export) 0 p_base_dir
    ∷ row (codes "Dcode.All") (codes "Derive the data-code for all involved files") none
        (prop_flag_private) 0 p_dcode_all
    ∷ row (codes "Dcode.Cache.Secs") (codes "Timestamp offset from start time for dcode cache")
        (some (codes "-1")) (prop_flag_private) 0 p_dcode_cache_secs
    ∷ row (codes "DEPTH") (codes "Special modifiable EV carrying the cmd depth") none
        (prop_flag_private + prop_flag_export) 10 p_depth
    ∷ row (codes "Doc.Pager") (codes "Pipe help output through specified pager") none
        (prop_flag_private) 0 p_doc_pager
    ∷ row (codes "Download.Only") (codes "Allow downloads but no uploads") none (prop_flag_public) 0
        p_download_only
    ∷ row (codes "Execute.Only") (codes "Suppress auditing and just run the command")
        (some prop_false) (prop_flag_public) 0 p_execute_only
    ∷ row (codes "Git") (codes "Boolean - pass audit data to git") (some prop_false)
        (prop_flag_private) 0 p_git
    ∷ []

abbrev pub rows_from_git_dir : List PropRow
rows_from_git_dir =
    row (codes "Git.Dir") (codes "The location of an optional Git repository") none
      (prop_flag_private + prop_flag_export) 0 p_git_dir
    ∷ row (codes "Identity.Hash") (codes "Name of identity hash (CRC, SHA1, GIT)")
        (some (codes "GIT")) (prop_flag_private + prop_flag_export) 0 p_identity_hash
    ∷ row (codes "Leave.Roadmap") (codes "Boolean - don't unlink roadmap file when done")
        (some prop_false) (prop_flag_private) 0 p_leave_roadmap
    ∷ row (codes "Log.File") (codes "Path for automatically generated logfile") none
        (prop_flag_public) 0 p_log_file
    ∷ row (codes "Log.File.Temp") (codes "Log to a temp file, uploaded and removed")
        (some prop_false) (prop_flag_public) 0 p_log_file_temp
    ∷ row (codes "Log.Time.Stamp") (codes "Prepend a timestamp to each line of logfile")
        (some prop_false) (prop_flag_public) 0 p_log_time_stamp
    ∷ row (codes "Make.Depends") (codes "Dump makefile dependency info to .d files") none
        (prop_flag_public) 0 p_make_depends
    ∷ row (codes "Make.File") (codes "Generate a Makefile in the named file") none
        (prop_flag_public) 0 p_make_file
    ∷ row (codes "Make.OneShell") (codes "Ask make to use a single shell for each recipe")
        (some prop_false) (prop_flag_private) 0 p_make_oneshell
    ∷ row (codes "Members.Only") (codes "Show and consider only project member files")
        (some prop_false) (prop_flag_public) 0 p_members_only
    ∷ row (codes "MMap.Larger.Than")
        (codes "Use memory mapping to read files larger than this size") (some (codes "32768"))
        (prop_flag_private) 0 p_mmap_larger_than
    ∷ row (codes "Monitor.Listeners")
        (codes "Number of ports on which to listen for audit deliveries") (some (codes "3"))
        (prop_flag_private) 0 p_monitor_listeners
    ∷ []

abbrev pub rows_from_monitor_host : List PropRow
rows_from_monitor_host =
    row (codes "Monitor.Host")
      (codes "Host on which monitor is running for audit delivery connections")
      (some (codes "127.0.0.1")) (prop_flag_private + prop_flag_export) 0 p_monitor_host
    ∷ row (codes "Monitor.Platform") (codes "Type of client platform: Unix, Windows, Cygwin, ...")
        (some (codes "u")) (prop_flag_private) 0 p_monitor_platform
    ∷ row (codes "Monitor.Port")
        (codes "Port(s) on which monitor listens for audit delivery connections") none
        (prop_flag_private + prop_flag_export) 0 p_monitor_port
    ∷ row (codes "Monitor.Timeout.Secs")
        (codes "How often to check health of audited process, in seconds") (some (codes "30"))
        (prop_flag_private) 0 p_monitor_timeout_secs
    ∷ row (codes "NO.MONITOR") (codes "Boolean - dump truly raw audit data without aggregation")
        (some prop_false) (prop_flag_private + prop_flag_export) 0 p_no_monitor
    ∷ row (codes "Original.Datestamp")
        (codes "Boolean - set mod time of downloaded files back to uploaded time")
        (some (codes "1")) (prop_flag_private + prop_flag_export) 0 p_original_datestamp
    ∷ row (codes "Output.File") (codes "Dump output data to specified file") none
        (prop_flag_public + prop_flag_export) 0 p_output_file
    ∷ row (codes "PCCODE") (codes "Special modifiable EV holding the parent cmd code") none
        (prop_flag_private + prop_flag_export) 64 p_pccode
    ∷ row (codes "PCMDID") (codes "Special modifiable EV holding the parent pid") none
        (prop_flag_private + prop_flag_export) 10 p_pcmdid
    ∷ row (codes "Perl.Cmd") (codes "Name of or path to the preferred Perl binary")
        (some (codes "perl")) (prop_flag_private) 0 p_perl_cmd
    ∷ row (codes "Print.Elapsed") (codes "Print the elapsed wall-clock time at exit") none
        (prop_flag_public) 0 p_print_elapsed
    ∷ row (codes "PROGNAME") (codes "Name of the running program (best guess)") none
        (prop_flag_private) 0 p_progname
    ∷ []

abbrev pub rows_from_project_base_glob : List PropRow
rows_from_project_base_glob =
    row (codes "Project.Base.GLOB") (codes "Pattern matching base dir of project") none
      (prop_flag_private) 0 p_project_base_glob
    ∷ row (codes "Project.Name") (codes "Assign a name to this project") none
        (prop_flag_public + prop_flag_export) 0 p_project_name
    ∷ row (codes "PTX.Strategy") (codes "Selection criteria for downloadable PTXes")
        (some (codes "30,-1,10,10")) (prop_flag_public) 0 p_ptx_strategy
    ∷ row (codes "Reuse.Roadmap")
        (codes "Boolean - use the pre-existing roadmap (debugging use only)") (some prop_false)
        (prop_flag_private) 0 p_reuse_roadmap
    ∷ row (codes "Roadmap.File") (codes "Path to the file containing the CA/PS/PTX database") none
        (prop_flag_private) 0 p_roadmapfile
    ∷ row (codes "Server") (codes "Name of server in <host>:<port> format") none (prop_flag_public)
        0 p_server
    ∷ row (codes "SERVER.CONTEXT") (codes "The webapp 'context' string") (some (codes "AO"))
        (prop_flag_private) 0 p_server_context
    ∷ row (codes "Server.Log.Level") (codes "Server-side log4j level (OFF, ALL, DEBUG, ...)") none
        (prop_flag_private) 0 p_server_log_level
    ∷ row (codes "SESSIONID") (codes "The HTTP session id cookie value received from the server")
        none (prop_flag_private) 0 p_sessionid
    ∷ row (codes "Session.Timeout.Secs")
        (codes "The HTTP session timeout used during a build, in seconds") (some (codes "0"))
        (prop_flag_private) 0 p_session_timeout_secs
    ∷ row (codes "Shop.Ignore.Path.RE")
        (codes "Regular expression matching pathnames to ignore when shopping") none
        (prop_flag_public) 0 p_shop_ignore_path_re
    ∷ row (codes "Shop.Time.Precision")
        (codes "Number of decimal digits to consider in timestamp comparisons") (some (codes "6"))
        (prop_flag_private) 0 p_shop_time_precision
    ∷ []

abbrev pub rows_from_strict : List PropRow
rows_from_strict =
    row (codes "Strict") (codes "A shorthand for all strict options") (some prop_false)
      (prop_flag_private) 0 p_strict
    ∷ row (codes "Strict.Audit") (codes "Abort if any command cannot be audited") none
        (prop_flag_private) 0 p_strict_audit
    ∷ row (codes "Strict.Download") (codes "Abort if any audited objects cannot be downloaded") none
        (prop_flag_private) 0 p_strict_download
    ∷ row (codes "Strict.Error") (codes "Abort after any error message") none (prop_flag_private) 0
        p_strict_error
    ∷ row (codes "Strict.Upload") (codes "Abort if any audited objects cannot be uploaded") none
        (prop_flag_private) 0 p_strict_upload
    ∷ row (codes "Synchronous.Transfers") (codes "Upload files in the foreground, for debugging")
        (some prop_false) (prop_flag_public) 0 p_synchronous_transfers
    ∷ row (codes "Track.Env.RE")
        (codes "Regular expression matching environment variables to show in audit") none
        (prop_flag_private + prop_flag_export) 0 p_track_env_re
    ∷ row (codes "Uncompressed.Transfers")
        (codes "Boolean - handle compression/decompression on server") (some prop_false)
        (prop_flag_private) 0 p_uncompressed_transfers
    ∷ row (codes "Upload.Only") (codes "Disable downloads and build avoidance") (some prop_false)
        (prop_flag_public) 0 p_upload_only
    ∷ row (codes "Upload.Reads") (codes "Boolean - upload files read as well as written")
        (some prop_false) (prop_flag_public) 0 p_upload_reads
    ∷ row (codes "Verbosity") (codes "Set verbosity flags") (some (codes "STD"))
        (prop_flag_public + prop_flag_export) 0 p_verbosity
    ∷ row (codes "WFlag") (codes "Extension flags directed to subsystems") none (prop_flag_private)
        0 p_wflag
    ∷ []

-- `proptab` at the start.
unfoldable pub proptab : List PropRow
proptab =
    rows_from_app
    ++ (rows_from_allowed_write_path_re
        ++ (rows_from_git_dir
            ++ (rows_from_monitor_host ++ (rows_from_project_base_glob ++ (rows_from_strict)))))
