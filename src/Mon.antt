-- ===== src/Mon.antt =====
-- src/mon.c: what mon_record does when the auditor reports the start of a command: its predecessor is
-- looked up, the level of its aggregation is decided, and it joins, starts or breaks up an audit group.
pub mod Groups
pub mod Grouping
mod Tests
use audited_objects.Prelude.{
  ◌&&◌, ◌-◌, not, ◌==◌, ◌||◌, Outcome, if◌then◌else◌, Bytes, Bool, ℕ, List, Option, [], ◌∷◌, some,
  none, ok, null, abort, ◌>>=◌, true, false,
}
use audited_objects.Moment.{Moment}
use audited_objects.Ps.{get_str}
use audited_objects.Pa.{csv_null_field}
use audited_objects.Ca.{Ca}
use audited_objects.Ca.Header.{ca_new_from_csv_string}
use audited_objects.Ca.Coalesce.{Dict}
use audited_objects.Ca.Key.{Ck, ck_new, ck_new_from_ca}
use audited_objects.Ca.Group.{Cmd, Heap, put, hash_lookup, ca_start_group, ca_aggregate}
use audited_objects.Ca.Publish.{Outlet, World, ca_disband}

-- `agg_e`
pub data AggE : Type 0 where
  agg_neutral : AggE
  agg_none : AggE
  agg_weak : AggE
  agg_strong : AggE
  agg_break : AggE

-- P_AGGREGATION_STYLE, and re_match__ with the regular expressions of mon_init: a subject that is NULL
-- is `none`.
pub record Criteria : Type 0 where
  pub style : Option Bytes
  pub prog_break : Option Bytes → Bool
  pub line_break : Option Bytes → Bool
  pub prog_strong : Option Bytes → Bool
  pub line_strong : Option Bytes → Bool
  pub prog_weak : Option Bytes → Bool
  pub line_weak : Option Bytes → Bool

-- The level by the criteria. `strength` is the flag of the predecessor's leader, if it has one.
unfoldable pub match_level : Criteria → Option Bool → Option Bytes → Option Bytes → AggE
match_level cr none prog line =
    if cr.prog_strong prog || cr.line_strong line
    then agg_strong
    else if cr.prog_weak prog || cr.line_weak line
    then agg_weak
    else agg_neutral
match_level cr (some strength) prog line =
    if cr.prog_break prog || cr.line_break line
    then agg_break
    else if strength || cr.prog_strong prog || cr.line_strong line
    then agg_strong
    else if cr.prog_weak prog || cr.line_weak line
    then agg_weak
    else agg_neutral

-- The level of a command: '+' and '-' at the start of the property decide for all commands.
unfoldable pub agg_level :
    Criteria → Option Bytes → Option Bool → Option Bytes → Option Bytes → AggE
unfolding match_level
agg_level cr none strength prog line = match_level cr strength prog line
agg_level cr (some []) strength prog line = match_level cr strength prog line
agg_level cr (some (c ∷ style)) strength prog line =
    if c == b'+'
    then agg_strong
    else if c == b'-'
    then agg_none
    else match_level cr strength prog line

-- A command that is new in memory.
unfoldable pub new_cmd : {C : Type 0} → Ca → Moment → Cmd C
new_cmd ca now = record {
  header = record ca { ca_starttime = now };
  raw_pa = some [];
  cooked_pa = none;
  group = none;
  leader = none;
  strong = false;
  started = true;
  closed = false;
  processed = false;
  subs = none;
}

-- The predecessor: the command of the depth above with the same id, or with the parent's; or else one
-- of the same depth with the parent's id.
unfoldable pub find_pred : List (Ck × ℕ) → Ca → Option ℕ
unfolding ck_new hash_lookup get_str
find_pred table ca =
    if ca.ca_depth == 0
    then none
    else let pccode = get_str csv_null_field ca.ca_pccode in
      elim (hash_lookup table (ck_new pccode (ca.ca_depth - 1) ca.ca_cmdid)) [
        | some pred ↦ some pred
        | none ↦ elim (hash_lookup table (ck_new pccode (ca.ca_depth - 1) ca.ca_pcmdid)) [
          | some pred ↦ some pred
          | none ↦ hash_lookup table (ck_new pccode ca.ca_depth ca.ca_pcmdid)
        ]
      ]

-- A second command with the same key is an internal error.
unfoldable pub add_command : Ck → ℕ → List (Ck × ℕ) → Outcome (List (Ck × ℕ))
unfolding hash_lookup
add_command ck r table = elim (hash_lookup table ck) [
  | none ↦ ok ((ck, r) ∷ table)
  | some other ↦ abort
]

-- `_mon_clean_up_ca_table`
unfoldable pub mon_clean_up_ca_table : {C : Type 0} → List (Ck × ℕ) → Heap C → List (Ck × ℕ)
mon_clean_up_ca_table [] h = []
mon_clean_up_ca_table (n ∷ ns) h =
    let rest = mon_clean_up_ca_table ns h in if (h n.1).processed then rest else n ∷ rest

-- The leader of the predecessor, and its strength.
unfoldable pub leader_of : {C : Type 0} → Option ℕ → Heap C → Option ℕ
leader_of none h = none
leader_of (some pred) h = (h pred).leader

unfoldable pub strength_of : {C : Type 0} → Option ℕ → Heap C → Option Bool
strength_of none h = none
strength_of (some ldr) h = some (h ldr).strong

module _ {dict : Dict} {W : Type 0} (out : Outlet dict W) where
  -- Without a group around it, a command may start one.
  unfoldable pub start_alone : AggE → ℕ → World out → Outcome (World out)
  unfolding ca_start_group
  start_alone agg_neutral r hw = ok hw
  start_alone agg_none r hw = ok hw
  start_alone agg_break r hw = ok hw
  start_alone agg_strong r (h, w) = do h' ← ca_start_group r true h; ok (h', w)
  start_alone agg_weak r (h, w) = do h' ← ca_start_group r false h; ok (h', w)

  unfoldable pub push : ℕ → ℕ → World out → Outcome (World out)
  unfolding ca_aggregate
  push ldr r (h, w) = do h' ← ca_aggregate ldr r h; ok (h', w)

  -- In a weak group: a match disbands it, and starts another one unless it is a break.
  unfoldable pub join_weak : AggE → ℕ → ℕ → World out → Outcome (World out)
  unfolding push ca_disband start_alone
  join_weak agg_neutral ldr r hw = push ldr r hw
  join_weak agg_none ldr r hw = abort
  join_weak agg_break ldr r hw = ca_disband out ldr hw
  join_weak agg_strong ldr r hw = do hw' ← ca_disband out ldr hw; start_alone agg_strong r hw'
  join_weak agg_weak ldr r hw = do hw' ← ca_disband out ldr hw; start_alone agg_weak r hw'

  unfoldable pub is_break : AggE → Bool
  is_break agg_break = true
  is_break agg_neutral = false
  is_break agg_none = false
  is_break agg_strong = false
  is_break agg_weak = false

  -- The three ways of a command into a group, by the leader of its predecessor.
  unfoldable pub join_group : AggE → Option ℕ → ℕ → World out → Outcome (World out)
  unfolding start_alone push join_weak is_break
  join_group level none r hw = start_alone level r hw
  join_group level (some ldr) r hw =
      if not (is_break level) && (hw.0 ldr).strong then push ldr r hw else join_weak level ldr r hw

  -- The table and the world, when the start of a command has been recorded.
  abbrev pub Monitor : Type 0
  Monitor = List (Ck × ℕ) × World out

  -- Is it the branch that disbands the group of the leader?
  unfoldable pub disbands : AggE → Option ℕ → Heap dict.Carrier → Bool
  unfolding is_break
  disbands level none h = false
  disbands agg_neutral (some ldr) h = false
  disbands agg_none (some ldr) h = false
  disbands agg_break (some ldr) h = true
  disbands agg_strong (some ldr) h = not (h ldr).strong
  disbands agg_weak (some ldr) h = not (h ldr).strong

  -- The branch of mon_record for the start of a command, up to the shopping: `r` is the address of the
  -- new command and `now` the time.
  unfoldable pub record_start : Criteria → ℕ → Moment → Bytes → Monitor → Outcome Monitor
  unfolding new_cmd find_pred agg_level join_group disbands mon_clean_up_ca_table leader_of
      strength_of add_command ck_new_from_ca
  record_start cr r now csv (table, (h, w)) = do
    ca ← ca_new_from_csv_string out.crc32 (some csv)
    table' ← add_command (ck_new_from_ca ca) r table
    (let ldr = leader_of (find_pred table ca) h in
        let level = agg_level cr cr.style (strength_of ldr h) ca.ca_prog ca.ca_line in
        do
          hw ← join_group level ldr r (put r (new_cmd ca now) h, w)
          ok (if disbands level ldr h then mon_clean_up_ca_table table' hw.0 else table', hw))
