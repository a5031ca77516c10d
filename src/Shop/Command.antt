-- ===== src/Shop/Command.antt =====
-- _shop_for_cmd, _shop_find_cmdline and shop of src/shop.c: from a command line to the build that it is
-- recycled from.
use audited_objects.Prelude.{
  zero, suc, false, ◌++◌, ℕ, str_eq, cut_string, true, not, ◌==◌, take, if◌then◌else◌, Outcome,
  codes, List, Bool, Option, Bytes, same_text, [], ◌∷◌, ◌>>=◌, ok, abort, some, none,
}
use audited_objects.Strsep.{fs1, strsep_scan}
use audited_objects.Prelude.Int.{ℤ, pos, negsuc}
use audited_objects.Ps.{csv_field_is_null, set_str}
use audited_objects.Ps.Csv.{next_field}
use audited_objects.Pa.{Pa}
use audited_objects.Ca.{Ca}
use audited_objects.Ca.Header.{ca_set_line}
use audited_objects.Shop.{
  PtxDict, ShopE, shop_err, shop_off, shop_nomatch, shop_nomatch_agg, shop_mustrun,
  shop_mustrun_agg, shop_recycled, shop_ptx_insert, shop_ptx_winner, winner_room,
}
use audited_objects.Shop.Prereqs.{Env, first_record, Shopping, shop_compare_prereqs}
use audited_objects.Shop.Targets.{shop_collect_targets}

-- `rc == SHOP_RECYCLED`
unfoldable pub is_recycled : ShopE → Bool
is_recycled shop_recycled = true
is_recycled shop_err = false
is_recycled shop_off = false
is_recycled shop_nomatch = false
is_recycled shop_nomatch_agg = false
is_recycled shop_mustrun = false
is_recycled shop_mustrun_agg = false

-- IS_TRUE
unfoldable pub is_true : Bytes → Bool
unfolding same_text
is_true expr = same_text expr (codes "true")

-- The fields of a command's record.
pub record CmdState : Type 0 where
  pub pccode : Bytes
  pub pathcode : Bytes
  pub has_tgt : Bytes
  pub agg : Bytes
  pub kids : Bytes
  pub duration : Bytes
  pub rwd : Bytes

-- The seven calls of util_strsep.
unfoldable pub cmd_state : Bytes → Outcome CmdState
unfolding next_field
cmd_state text = do
  (pccode, l1) ← next_field (some text)
  (pathcode, l2) ← next_field l1
  (has_tgt, l3) ← next_field l2
  (agg, l4) ← next_field l3
  (kids, l5) ← next_field l4
  (duration, l6) ← next_field l5
  (rwd, l7) ← next_field l6
  ok (record {
    pccode = pccode;
    pathcode = pathcode;
    has_tgt = has_tgt;
    agg = agg;
    kids = kids;
    duration = duration;
    rwd = rwd;
  })

-- The members `wix`, `winner` and `wincmd` of `shopping_state_s`.
pub record Winner : Type 0 where
  pub wix : Bytes
  pub winner : Bytes
  pub wincmd : Bytes

-- What _shop_for_cmd returns and leaves.
pub record Verdict (T : Type 0) : Type 0 where
  pub rc : ShopE
  pub shopping : Shopping T
  pub won : Option Winner

module _ (dict : PtxDict) where
  -- `_shop_ptx_count(ssp) && _shop_ptx_winner(ssp)`, and what follows.
  unfoldable pub verdict_of :
      Bool → Bytes → Shopping dict.Carrier → Option (Bytes × Bytes) → Verdict dict.Carrier
  verdict_of aggregated cmdix ss none = record {
    rc = if aggregated then shop_nomatch_agg else shop_nomatch;
    shopping = ss;
    won = none;
  }
  verdict_of aggregated cmdix ss (some (wix, winner)) = record {
    rc = shop_recycled;
    shopping = ss;
    won = some (record { wix = wix; winner = winner; wincmd = take winner_room cmdix });
  }

  unfoldable pub find_winner : Bool → Bytes → Shopping dict.Carrier → Verdict dict.Carrier
  unfolding verdict_of shop_ptx_winner
  find_winner aggregated cmdix ss =
      verdict_of aggregated cmdix ss
        (if dict.count ss.ptx_dict == 0 then none else shop_ptx_winner dict ss.ptx_dict)

  unfoldable pub no_winner : ShopE → Shopping dict.Carrier → Verdict dict.Carrier
  no_winner rc ss = record { rc = rc; shopping = ss; won = none }

  -- _shop_for_cmd from the reading of the fields on.
  unfoldable pub shop_for_state :
      Env → Bytes → CmdState → Shopping dict.Carrier → Outcome (Verdict dict.Carrier)
  unfolding is_true csv_field_is_null find_winner no_winner shop_compare_prereqs
  shop_for_state env cmdix cmd ss =
      if not (is_true cmd.has_tgt)
      then ok (no_winner (if is_true cmd.agg then shop_mustrun_agg else shop_mustrun) ss)
      else if not (csv_field_is_null cmd.kids)
      then ok (no_winner shop_mustrun ss)
      else if dict.count ss.ptx_dict == 0
      then ok (no_winner shop_nomatch ss)
      else do
        ss' ← shop_compare_prereqs dict env cmdix ss
        ok (find_winner (is_true cmd.agg) cmdix ss')

  -- `_shop_for_cmd`
  unfoldable pub shop_for_cmd : Env → Bytes → Shopping dict.Carrier → Outcome (Verdict dict.Carrier)
  unfolding cmd_state shop_for_state
  shop_for_cmd env cmdix ss = do
    text ← first_record (env.records cmdix)
    cmd ← cmd_state text
    shop_for_state env cmdix cmd ss

  -- The loop over the records of the command line.
  unfoldable pub shop_loop :
      Env → List Bytes → ShopE → Shopping dict.Carrier → Outcome (Verdict dict.Carrier)
  unfolding shop_for_cmd no_winner is_recycled
  shop_loop env [] rc ss = ok (no_winner rc ss)
  shop_loop env (cmdix ∷ cmdixs) rc ss = do
    v ← shop_for_cmd env cmdix ss
    let rest = shop_loop env cmdixs v.rc v.shopping in if is_recycled v.rc then ok v else rest

  -- The loop that stores the PTXes of the roadmap, lines such as "X1=id". (The code reads each into a
  -- buffer of 64 bytes.)
  unfoldable pub load_ptxes : List Bytes → dict.Carrier → Outcome dict.Carrier
  unfolding shop_ptx_insert cut_string
  load_ptxes [] d = ok d
  load_ptxes (xn ∷ xns) d = elim (cut_string b'=' xn) [
    | none ↦ abort
    | some (key, id) ↦ load_ptxes xns (shop_ptx_insert dict d key id)
  ]

-- The loop of _shop_find_cmdline over all records, each a key and its data.
unfoldable pub shop_find_cmdline : List (Bytes × Bytes) → Bytes → Option Bytes
unfolding strsep_scan str_eq
shop_find_cmdline [] cmdix = none
shop_find_cmdline ((line, cmdstate) ∷ records) cmdix =
    let rest = shop_find_cmdline records cmdix in
    if str_eq cmdix (strsep_scan fs1 cmdstate).0 then some line else rest

-- The debugging mode, in which the command's key is given.
unfoldable pub set_shopped_line :
    (Bytes → ℕ) → List (Bytes × Bytes) → Option Bytes → Ca → Outcome Ca
unfolding shop_find_cmdline ca_set_line
set_shopped_line crc32 records none ca = ok ca
set_shopped_line crc32 records (some cmdkey) ca = elim (shop_find_cmdline records cmdkey) [
  | none ↦ abort
  | some line ↦ ca_set_line crc32 (some line) ca
]

-- `strlen` of a line that is NULL crashes.
abbrev pub the_line : Option Bytes → Outcome Bytes
the_line none = abort
the_line (some line) = ok line

-- What follows the processing of the targets: its return code, and the build that won.
unfoldable pub processed : ℤ → Winner → Ca → ShopE × Ca
unfolding set_str
processed (pos zero) w ca = (shop_recycled, record ca { ca_recycled = set_str (some w.winner) })
processed (pos (suc n)) w ca = (shop_err, ca)
processed (negsuc n) w ca = (shop_err, ca)

-- The end of `shop`: there is a winner exactly if the loop has ended with SHOP_RECYCLED. `process` is
-- what _shop_process_targets returns for the actions that were recorded.
unfoldable pub finish_shop :
    Env → (List Pa → ℤ) → ShopE → List Pa → Ca → Option Winner → Outcome (ShopE × Ca)
unfolding processed shop_collect_targets
finish_shop env process rc recorded ca none = ok (rc, ca)
finish_shop env process rc recorded ca (some w) = do
  targets ← shop_collect_targets env w.wix w.wincmd
  ok (processed (process (recorded ++ targets)) w ca)

abbrev pub ptx_prefix : Bytes
ptx_prefix = codes "X"

module _ (dict : PtxDict) where
  abbrev pub start_shopping : dict.Carrier → Shopping dict.Carrier
  start_shopping d = record { ptx_dict = d; current_ps = none; recorded = [] }

  -- `shop`, if there is a roadmap: what it returns, and the command.
  unfoldable pub shop_in :
      Env
      → (List Pa → ℤ)
      → (Bytes → ℕ)
      → List (Bytes × Bytes)
      → Ca
      → Option Bytes
      → Outcome (ShopE × Ca)
  unfolding load_ptxes set_shopped_line shop_loop finish_shop
  shop_in env process crc32 records ca cmdkey = do
    d ← load_ptxes dict (env.records ptx_prefix) dict.create
    ca' ← set_shopped_line crc32 records cmdkey ca
    line ← the_line ca'.ca_line
    v ← shop_loop dict env (env.records line) shop_nomatch (start_shopping d)
    finish_shop env process v.rc v.shopping.recorded ca' v.won

  -- `shop`. Without a roadmap, ShopCDB is NULL.
  unfoldable pub shop :
      Option Env
      → (List Pa → ℤ)
      → (Bytes → ℕ)
      → List (Bytes × Bytes)
      → Ca
      → Option Bytes
      → Outcome (ShopE × Ca)
  unfolding shop_in
  shop none process crc32 records ca cmdkey = ok (shop_off, ca)
  shop (some env) process crc32 records ca cmdkey = shop_in env process crc32 records ca cmdkey
