-- ===== src/Lib.antt =====
-- The client of audited-objects, a build auditor: programs that are run under it report every file
-- that they read and write, as lines of text, to a monitor, which groups them into command actions
-- and sends those to a server; a later build can then recycle the results of a command instead of
-- running it. This development is a model of the C code that describes files and what was done to
-- them, and of the text formats in which those descriptions travel.
--
-- The parts, each with the file that models it:
--   Radix     numbers as text: util_format_to_radix of src/util.c, with strtoul and strtoll;
--   Strsep    util_strsep of src/util.c, by which lines are cut into fields;
--   Encode    util_encode_minimal and util_unescape of src/util.c, which protect commas;
--   Moment    src/moment.c: a point in time (struct moment_s), its order and its text;
--   Pn        src/pn.c: a path name (struct path_name_s); Pn.Canon is its canonicalisation;
--   Ps        src/ps.c: the state of a file (struct path_state_s), which contains a Moment and one
--             or two Pn, and its line of comma-separated fields;
--   Pa        src/pa.c: an action on a file (struct path_action_s), which contains a Ps, its line, and
--             the order pa_cmp in which the actions of a command are kept;
--   Ca        src/ca.c: the action of a command (struct cmd_audit_s), its header line, in which
--             newlines are tokens, and the command code (src/code.c) that is checked on reading;
--             Ca.Coalesce is ca_coalesce, by which many actions on a file become one. The dictionary
--             of kazlib that holds them is an interface with its laws (Dict), and the raw actions
--             come as a list in their order; zlib's crc32 is an argument. Ca.Foreach has the
--             traversals and Ca.Key the keys of the hash tables.
--             Ca.Group is the structure as it stands in memory, where a command is the number of its
--             address, with the groups and the path code; Ca.Publish is what ends a group (ca_merge,
--             ca_publish, ca_disband) with _mon_process_ca of src/mon.c as its callback. The orders in
--             which kazlib goes through a hash or a dictionary, and what is done with a finished
--             command, are members of the record Outlet. What pa_stat writes to the cooked actions
--             when ca_toCSVString delivers them is not written back to the command;
--   Shop      src/shop.c: whether a command is recycled from an earlier build. Shop has the table of
--             builds, an interface with its laws (PtxDict) that Shop.Assoc fills by a list;
--             Shop.Prereqs compares the prerequisites, Shop.Targets collects the targets, and
--             Shop.Command goes from the command line to the return code. The roadmap (a file of
--             tinycdb) is a function from keys to records in the record Env, beside ps_stat and the
--             regular expression of ignored paths; a loop over a range of keys that ends at the
--             greatest number does not end in the code, and counts as abort here. A number of a range
--             is written behind the letters of its key with the size of the whole buffer; the model
--             has the text, and leaves out the bytes that are cleared behind the buffer;
--   Mon       src/mon.c: the start of a command in mon_record. Its predecessor is found in the table of
--             commands, the criteria (regular expressions, as functions in the record Criteria) give
--             the level of aggregation, and by that and the leader of the predecessor it joins,
--             starts or breaks up a group of Ca.Group; Mon.Grouping has what holds of all groups;
--   Prop      src/prop.c: the settings. Prop has the enumeration and Prop.Rows the table as it is compiled
--             on Unix; Prop.Table reads it, Prop.Environment sets values and exports them, and Prop.Line
--             reads the lines of properties files and the variables of the environment. A prop_e is the
--             number of its enumerator, and the environment an interface with its laws (Environ);
--   Vb        src/vb.c: the verbosity. Vb has the table of its terms, Vb.Mask the mask of a list of terms,
--             and Vb.State the operations on the mask and the property Verbosity. The request for help
--             ends the process, which is abort here; what is printed is left out;
--   Io        util_send_all, util_read_all and util_write_all of src/util.c. What the calls of the system
--             do, in their order, is an argument (Calls), and the fuel is the number of calls that may be
--             made; Io.Live has that some fuel is enough;
--   Code      src/code.c: the data code of a file. Code clears the time stamps of an archive and Code.Zip
--             those of a zip file (with src/Zip/zipfmt.h), and Code.Buffer is code_from_buffer, with the
--             hash as an argument. A pointer into the file is a position, positive offsets do not wrap,
--             and what is read or written outside of the file ends the process. The fuel is one round
--             more than the file has bytes, which Code.Stop and Code.Ends show to be enough;
--   Prelude   what they share: lists, C strings, 64-bit integers and the outcomes of calls.
--
-- State is explicit. A structure is a record with the members of the C structure, an operation a
-- function of the same name from records to records, and a pointer that may be NULL an option. A
-- call that can fail gives an Outcome: a value (ok), the NULL or error by which the code reports a
-- failure to its caller (null), or the end of the process by a failed assertion, putil_int or memory
-- written out of bounds (abort). A C string is the list of its bytes without the NUL. A char is taken
-- to be one of 0 to 255, and a long to have 64 bits; wrap-around is written out (to_u64, to_i64 and
-- remainders of powers of 2). Memory always suffices: malloc and asprintf do not fail.
--
-- What the C code reads elsewhere is an argument: the base directory of the project (`base`, the
-- property P_BASE_DIR), the working directory (`cwd`), and the roundoff that moment_cmp derives from
-- the property of the time precision.
--
-- Loops are structural recursion, but for those of Io, Code and two others: path_canon runs on fuel, two rounds for each byte of
-- its source and one more, since a round either takes a byte or goes from a dot back to a separator;
-- and split on as many rounds as its caller allows. Both are proved to end within their fuel. The
-- buffers have the sizes of the source: 32 bytes for a moment or a number.
--
-- Not modelled: the auditor that intercepts system calls, the sockets and sessions, the transfers to the
-- server, and whatever only calls the operating system or a library.
pub mod Prelude
pub mod Radix
pub mod Strsep
pub mod Encode
pub mod Moment
pub mod Pn
pub mod Ps
pub mod Pa
pub mod Prop
pub mod Code
pub mod Io
pub mod Ca
pub mod Shop
pub mod Vb
pub mod Mon
