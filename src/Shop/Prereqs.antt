-- ===== src/Shop/Prereqs.antt =====
-- _shop_cmp_pathstate and _shop_compare_prereqs of src/shop.c: the prerequisites of a command in the
-- roadmap against the current state of the files.
use audited_objects.Prelude.{
  zero, true, ◌++◌, codes, str_eq, ◌>>=◌, ◌+◌, ◌-◌, ◌^◌, not, none, ◌||◌, ◌&&◌, ◌==◌, if◌then◌else◌,
  take, suc, false, some, cut_string, is_upper, Outcome, Bool, Option, List, Bytes, [], ◌∷◌, ℕ, ok,
  abort,
}
use audited_objects.Strsep.Fields.{tokens}
use audited_objects.Prelude.Word.{to_u64}
use audited_objects.Radix.{format_to_radix}
use audited_objects.Radix.Scan.{strtoll}
use audited_objects.Ps.{Ps, ps_get_abs, ps_has_dcode, ps_new_from_path}
use audited_objects.Ps.Csv.{ps_new_from_csv_string}
use audited_objects.Ps.Copy.{ps_copy}
use audited_objects.Ps.Diff.{ps_diff}
use audited_objects.Pa.{Pa, pa_new, op_read}
use audited_objects.Shop.{
  PtxDict, is_some, shop_ptx_contains, shop_ptx_mark_as_seen, shop_ptx_invalidate,
}

-- What shopping takes from the outside: `base`, `cwd` and `roundoff` of the path names and the
-- moments; the data of the roadmap's records with a key, in their order (cdb_findinit and
-- cdb_findnext; cdb_find finds the first); ps_stat, which says whether it failed, and leaves a state;
-- and whether P_SHOP_IGNORE_PATH_RE matches a path.
pub record Env : Type 0 where
  pub base : Bytes
  pub cwd : Option Bytes
  pub roundoff : ℕ
  pub records : Bytes → List Bytes
  pub ps_stat : Ps → Bool → Bool × Ps
  pub re_match : Bytes → Bool

-- cdb_find and cdb_read. A key that is not there is an internal error.
abbrev pub first_record : List Bytes → Outcome Bytes
first_record [] = abort
first_record (r ∷ rs) = ok r

-- The member `ptx_dict` of `shopping_state_s`, the variable CurrentPS, and the path actions that
-- ca_record_pa was given, in their order.
pub record Shopping (T : Type 0) : Type 0 where
  pub ptx_dict : T
  pub current_ps : Option Ps
  pub recorded : List Pa

abbrev pub rmap_radix : ℕ
rmap_radix = 36

-- `new_state` is what the code does when `CurrentPS` is not a state of the path.
unfoldable pub new_state : Env → Bytes → Bool → Outcome (Bool × Ps)
new_state env path want_dcode = do
  ps ← ps_new_from_path env.base env.cwd path
  ok (env.ps_stat ps want_dcode)

unfoldable pub kept_or_new : Env → Bytes → Bool → Ps → Bool → Outcome (Bool × Ps)
unfolding new_state
kept_or_new env path want_dcode ps same =
    if same then ok (false, ps) else new_state env path want_dcode

-- CurrentPS as it is compared, and whether ps_stat failed just now.
unfoldable pub current_state : Env → Bytes → Bool → Option Ps → Outcome (Bool × Ps)
unfolding kept_or_new
current_state env path want_dcode none = new_state env path want_dcode
current_state env path want_dcode (some ps) = do
  abs ← ps_get_abs ps
  kept_or_new env path want_dcode ps (str_eq abs path)

-- `explanation || (reason = ps_diff(shopped_ps, CurrentPS))`
unfoldable pub mismatch : Env → Bool → Ps → Ps → Outcome Bool
unfolding is_some
mismatch env true shopped current = ok true
mismatch env false shopped current = do
  reason ← ps_diff env.roundoff shopped current
  ok (is_some reason)

-- The path action around a prerequisite.
unfoldable pub dummy_read : Env → Ps → Outcome Pa
unfolding pa_new
dummy_read env current = do
  ps ← ps_copy env.base env.cwd current
  ok (record pa_new { pa_ps = some ps; pa_op = op_read; pa_call = some (codes "dummy") })

module _ (dict : PtxDict) where
  -- The loop over the PTXes of a mismatch.
  unfoldable pub invalidate_all : List Bytes → Bool → dict.Carrier → dict.Carrier
  unfolding shop_ptx_invalidate
  invalidate_all [] ignored d = d
  invalidate_all (ixstr ∷ ixs) ignored d =
      let rest = invalidate_all ixs ignored (shop_ptx_invalidate dict d ixstr ignored) in
      if dict.count d == 0 then d else rest

  -- The end of _shop_cmp_pathstate, from `dummy_pa = pa_new()` on.
  unfoldable pub record_current : Env → Ps → Shopping dict.Carrier → Outcome (Shopping dict.Carrier)
  unfolding dummy_read
  record_current env current ss = do
    pa ← dummy_read env current
    ok (record ss { recorded = ss.recorded ++ (pa ∷ []) })

  -- What follows the comparison.
  unfoldable pub settle :
      Env → Bool → Bool → List Bytes → Ps → Shopping dict.Carrier → Outcome (Shopping dict.Carrier)
  unfolding invalidate_all record_current
  settle env differs ignored ptxes current ss =
      let ss' =
        if differs then record ss { ptx_dict = invalidate_all ptxes ignored ss.ptx_dict } else ss in
      if differs && not ignored then ok ss' else record_current env current ss'

  -- `_shop_cmp_pathstate`, with the PTXes split.
  unfoldable pub shop_cmp_pathstate :
      Env → List Bytes → Bytes → Shopping dict.Carrier → Outcome (Shopping dict.Carrier)
  unfolding current_state mismatch settle
  shop_cmp_pathstate env ptxes pskey ss = do
    csv ← first_record (env.records pskey)
    shopped ← ps_new_from_csv_string env.base env.cwd (some csv)
    path ← ps_get_abs shopped
    (failed, current) ← current_state env path (ps_has_dcode shopped) ss.current_ps
    differs ← mismatch env failed shopped current
    settle env differs (env.re_match path) ptxes current (record ss { current_ps = some current })

  -- The quick run through the PTXes: is one of them left? Those that are there are marked.
  unfoldable pub mark_all : List Bytes → dict.Carrier → Bool × dict.Carrier
  unfolding shop_ptx_contains shop_ptx_mark_as_seen
  mark_all [] d = (false, d)
  mark_all (ixstr ∷ ixs) d =
      let here = shop_ptx_contains dict d ixstr in
      let (left, d') = mark_all ixs (if here then shop_ptx_mark_as_seen dict d ixstr else d) in
      (here || left, d')

-- The capital letters at the start, and the rest.
unfoldable pub span_upper : Bytes → Bytes × Bytes
unfolding is_upper
span_upper [] = ([], [])
span_upper (c ∷ s) =
    let (caps, rest) = span_upper s in if is_upper c then (c ∷ caps, rest) else ([], c ∷ s)

abbrev pub nkey_size : ℕ
nkey_size = 64

-- The keys of `n` rounds of the loop over a range, from the number `i` on. (The call that writes the
-- number behind the capitals is given the size of the whole buffer.)
unfoldable pub range_keys : Bytes → ℕ → ℕ → Outcome (List Bytes)
range_keys caps zero i = ok []
range_keys caps (suc n) i = elim (format_to_radix rmap_radix nkey_size i) [
  | none ↦ abort
  | some digits ↦ (do keys ← range_keys caps n (i + 1); ok ((caps ++ digits) ∷ keys))
]

-- A range from `first` to `last`. If `last` is the greatest number, the loop does not end.
unfoldable pub range_of : Bytes → ℕ → ℕ → Outcome (List Bytes)
unfolding range_keys
range_of caps first last =
    if last == 2 ^ 64 - 1 then abort else range_keys caps (last + 1 - first) first

-- The keys of one element of a list of path states: a range such as "S1-4", or a single key.
unfoldable pub keys_of : Bytes → Outcome (List Bytes)
unfolding range_of span_upper cut_string
keys_of pskey = elim (cut_string b'-' pskey) [
  | none ↦ ok (pskey ∷ [])
  | some (start, end_) ↦
      let (caps, digits) = span_upper start in
      range_of caps (to_u64 (strtoll rmap_radix digits)) (to_u64 (strtoll rmap_radix end_))
]

-- The key of a command's prerequisites, or of its targets, in a buffer of 64 bytes.
abbrev pub command_key : ℕ → Bytes → Bytes
command_key c cmdix = take 63 (c ∷ cmdix)

-- A prerequisite line is cut at its first comma.
abbrev pub cut_line : Option (Bytes × Bytes) → Outcome (List Bytes × List Bytes)
cut_line none = abort
cut_line (some (pskeys, ptxes)) = ok (tokens b'+' pskeys, tokens b'+' ptxes)

module _ (dict : PtxDict) where
  -- The loop over a range, or the single call.
  unfoldable pub cmp_each :
      Env → List Bytes → List Bytes → Shopping dict.Carrier → Outcome (Shopping dict.Carrier)
  unfolding shop_cmp_pathstate
  cmp_each env ptxes [] ss = ok ss
  cmp_each env ptxes (key ∷ keys) ss = do
    ss' ← shop_cmp_pathstate dict env ptxes key ss
    cmp_each env ptxes keys ss'

  -- The loop over the path states of a line, as long as PTXes are left.
  unfoldable pub cmp_states :
      Env → List Bytes → List Bytes → Shopping dict.Carrier → Outcome (Shopping dict.Carrier)
  unfolding cmp_each
  cmp_states env ptxes [] ss = ok ss
  cmp_states env ptxes (pskey ∷ pskeys) ss =
      let rest = (do
        keys ← keys_of pskey
        ss' ← cmp_each env ptxes keys ss
        cmp_states env ptxes pskeys ss') in
      if dict.count ss.ptx_dict == 0 then ok ss else rest

  -- One line: its marks, and its states if one of its PTXes is left.
  unfoldable pub cmp_marked :
      Env
      → List Bytes
      → List Bytes
      → Bool × dict.Carrier
      → Shopping dict.Carrier
      → Outcome (Shopping dict.Carrier)
  unfolding cmp_states
  cmp_marked env pskeys ptxes (left, d) ss =
      if left then cmp_states env ptxes pskeys (record ss { ptx_dict = d }) else ok ss

  unfoldable pub cmp_line : Env → Bytes → Shopping dict.Carrier → Outcome (Shopping dict.Carrier)
  unfolding cmp_marked mark_all cut_string
  cmp_line env line ss = do
    (pskeys, ptxes) ← cut_line (cut_string b',' line)
    cmp_marked env pskeys ptxes (mark_all dict ptxes ss.ptx_dict) ss

  unfoldable pub cmp_lines :
      Env → List Bytes → Shopping dict.Carrier → Outcome (Shopping dict.Carrier)
  unfolding cmp_line
  cmp_lines env [] ss = ok ss
  cmp_lines env (line ∷ lines) ss =
      let rest = (do ss' ← cmp_line env line ss; cmp_lines env lines ss') in
      if dict.count ss.ptx_dict == 0 then ok ss else rest

  -- `_shop_compare_prereqs`
  unfoldable pub shop_compare_prereqs :
      Env → Bytes → Shopping dict.Carrier → Outcome (Shopping dict.Carrier)
  unfolding cmp_lines
  shop_compare_prereqs env cmdix ss = do
    ss' ← cmp_lines env (env.records (command_key b'<' cmdix)) ss
    ok (record ss' { current_ps = none })
