-- ===== src/Shop/Targets.antt =====
-- _shop_collect_targets of src/shop.c: the target states that the roadmap has for the winning command
-- in the winning build, as path actions of the command.
use audited_objects.Prelude.{
  ◌||◌, codes, ◌++◌, false, some, Bool, Outcome, if◌then◌else◌, cut_string, str_eq, List, Bytes, ℕ,
  [], ◌∷◌, ◌>>=◌, ok,
}
use audited_objects.Prelude.Int.{pos}
use audited_objects.Ps.{Ps, ps_is_link, ps_is_symlink, ps_is_unlink}
use audited_objects.Ps.Csv.{ps_new_from_csv_string}
use audited_objects.Pa.{Pa, pa_new, op_creat, op_link, op_symlink, op_unlink}
use audited_objects.Shop.Prereqs.{Env, first_record, cut_line, command_key}

-- The operation that made a target.
unfoldable pub target_op : Ps → ℕ
unfolding ps_is_link ps_is_symlink ps_is_unlink
target_op ps =
    if ps_is_link ps
    then op_link
    else if ps_is_symlink ps
    then op_symlink
    else if ps_is_unlink ps
    then op_unlink
    else op_creat

-- The path action around the target state with a key of the roadmap.
unfoldable pub dummy_target : Env → Bytes → Outcome Pa
unfolding target_op pa_new
dummy_target env pskey = do
  csv ← first_record (env.records pskey)
  tgt_ps ← ps_new_from_csv_string env.base env.cwd (some csv)
  ok (record pa_new {
    pa_ps = some tgt_ps;
    pa_op = target_op tgt_ps;
    pa_call = some (codes "dummy");
    pa_uploadable = pos 1;
  })

-- The loop over the states of a line.
unfoldable pub dummy_targets : Env → List Bytes → Outcome (List Pa)
unfolding dummy_target
dummy_targets env [] = ok []
dummy_targets env (pskey ∷ pskeys) = do
  pa ← dummy_target env pskey
  pas ← dummy_targets env pskeys
  ok (pa ∷ pas)

-- Does the loop over the PTXes of a line reach the winner?
unfoldable pub lists_winner : List Bytes → Bytes → Bool
unfolding str_eq
lists_winner [] wix = false
lists_winner (ixstr ∷ ixs) wix = str_eq ixstr wix || lists_winner ixs wix

unfoldable pub line_targets : Env → Bytes → Bytes → Outcome (List Pa)
unfolding lists_winner dummy_targets cut_string
line_targets env wix line = do
  (pskeys, ptxes) ← cut_line (cut_string b',' line)
  if lists_winner ptxes wix then dummy_targets env pskeys else ok []

unfoldable pub lines_targets : Env → Bytes → List Bytes → Outcome (List Pa)
unfolding line_targets
lines_targets env wix [] = ok []
lines_targets env wix (line ∷ lines) = do
  pas ← line_targets env wix line
  more ← lines_targets env wix lines
  ok (pas ++ more)

-- `_shop_collect_targets`: the actions that it records, in their order. Whenever it returns, it
-- returns SHOP_RECYCLED.
unfoldable pub shop_collect_targets : Env → Bytes → Bytes → Outcome (List Pa)
unfolding lines_targets
shop_collect_targets env wix cmdix = lines_targets env wix (env.records (command_key b'>' cmdix))
