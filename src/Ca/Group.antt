-- ===== src/Ca/Group.antt =====
-- Groups of commands in src/ca.c: the rest of the structure, as it stands in memory, and what is done to
-- the commands of an audit group. A command is referred to by a number, its address; commands refer to
-- their leader, and a leader to the members of its group.
use audited_objects.Prelude.{
  not, ◌&&◌, ◌+◌, ◌==◌, ◌++◌, if◌then◌else◌, Outcome, Bool, [], ◌∷◌, some, none, ok, abort, ◌>>=◌,
  true, false,
}
use audited_objects.Prelude.Int.{ℤ, pos}
use audited_objects.Ps.{set_str, get_str}
use audited_objects.Ps.Csv.{format_lu}
use audited_objects.Ps.Diff.{eq_ℤ}
use audited_objects.Pa.{Pa, pa_is_member, pa_is_unlink, pa_get_abs}
use audited_objects.Ca.{Bytes, List, ℕ, Option, Ca}
use audited_objects.Ca.Header.{code_from_str}
use audited_objects.Ca.Foreach.{ca_foreach_cooked_pa}
use audited_objects.Ca.Key.{Ck, ck_new_from_ca, ca_o_hash_cmp}

-- `struct cmd_audit_s`: the members of the header, and the others. `C` is the type of the dictionary of
-- cooked actions; the raw actions are in the order in which they were recorded. The hash of a group
-- maps keys to commands.
pub record Cmd (C : Type 0) : Type 0 where
  pub header : Ca
  pub raw_pa : Option (List Pa)
  pub cooked_pa : Option C
  pub group : Option (List (Ck × ℕ))
  pub leader : Option ℕ
  pub strong : Bool
  pub started : Bool
  pub closed : Bool
  pub processed : Bool
  pub subs : Option Bytes

-- The memory.
abbrev pub Heap : Type 0 → Type 0
Heap C = ℕ → Cmd C

-- `ca_record_pa`. A dictionary that is NULL crashes.
unfoldable pub ca_record_pa : Pa → Option (List Pa) → Outcome (Option (List Pa))
ca_record_pa pa none = abort
ca_record_pa pa (some pas) = ok (some (pas ++ (pa ∷ [])))

-- `hash_lookup`, with the comparison ca_o_hash_cmp.
unfoldable pub hash_lookup : List (Ck × ℕ) → Ck → Option ℕ
unfolding ca_o_hash_cmp eq_ℤ
hash_lookup [] ck = none
hash_lookup (n ∷ ns) ck =
    let rest = hash_lookup ns ck in if eq_ℤ (ca_o_hash_cmp n.0 ck) (pos 0) then some n.1 else rest

unfoldable pub add_member : List (Ck × ℕ) → Ck → ℕ → List (Ck × ℕ)
unfolding hash_lookup
add_member g ck sub = elim (hash_lookup g ck) [ none ↦ (ck, sub) ∷ g | some r ↦ g ]

module _ {C : Type 0} where
  abbrev pub put : ℕ → Cmd C → Heap C → Heap C
  put r c h r' = if r == r' then c else h r'

  unfoldable pub ca_set_leader : ℕ → Option ℕ → Heap C → Heap C
  ca_set_leader r l h = put r (record (h r) { leader = l }) h

  unfoldable pub ca_set_closed : ℕ → Bool → Heap C → Heap C
  ca_set_closed r b h = put r (record (h r) { closed = b }) h

  unfoldable pub ca_set_processed : ℕ → Bool → Heap C → Heap C
  ca_set_processed r b h = put r (record (h r) { processed = b }) h

  -- `ca_start_group`
  unfoldable pub ca_start_group : ℕ → Bool → Heap C → Outcome (Heap C)
  ca_start_group r strength h = elim ((h r).group) [
    | some g ↦ abort
    | none ↦ ok (put r (record (h r) { group = some []; leader = some r; strong = strength }) h)
  ]

  -- `ca_aggregate`
  unfoldable pub ca_aggregate : ℕ → ℕ → Heap C → Outcome (Heap C)
  unfolding add_member ca_set_leader ck_new_from_ca
  ca_aggregate ldr sub h = elim ((h ldr).group) [
    | none ↦ abort
    | some g ↦ ok (
        ca_set_leader sub (some ldr) (
          put ldr
            (record (h ldr) { group = some (add_member g (ck_new_from_ca (h sub).header) sub) }) h))
  ]

  unfoldable pub ca_has_leader : Cmd C → Bool
  ca_has_leader c = elim (c.leader) [ none ↦ false | some l ↦ true ]

  -- The loop of ca_get_pending.
  unfoldable pub count_pending : List (Ck × ℕ) → Heap C → ℕ
  count_pending [] h = 0
  count_pending (n ∷ ns) h =
      let pending = count_pending ns h in if (h n.1).closed then pending else pending + 1

  -- `ca_get_pending`
  unfoldable pub ca_get_pending : Cmd C → Heap C → ℕ
  unfolding count_pending
  ca_get_pending c h = elim (c.group) [ none ↦ 0 | some g ↦ count_pending g h ]

-- The loop of ca_is_uploadable over the cooked actions.
unfoldable pub ca_is_uploadable : List Pa → ℕ
unfolding eq_ℤ
ca_is_uploadable [] = 0
ca_is_uploadable (pa ∷ pas) =
    let rest = ca_is_uploadable pas in if eq_ℤ pa.pa_uploadable (pos 0) then rest else rest + 1

unfoldable pub add_path : Bool → Pa → Option Bytes × ℕ → Outcome (Option Bytes × ℕ)
unfolding get_str
add_path false pa acc = ok acc
add_path true pa (buf, count) = do
  path ← pa_get_abs pa
  ok (some (get_str [] buf ++ path), count + 1)

-- `_ca_add_to_pathcode` on the buffer and the count of the accumulator.
unfoldable pub ca_add_to_pathcode : Pa → Option Bytes × ℕ → Outcome (Option Bytes × ℕ)
unfolding pa_is_unlink pa_is_member add_path
ca_add_to_pathcode pa (buf, count) = do
  member ← pa_is_member pa
  add_path (member && not (pa_is_unlink pa)) pa (buf, count)

-- The callback as ca_foreach_cooked_pa takes it; it returns 0.
unfoldable pub pathcode_callback : Pa → Outcome (Option Bytes × ℕ) → Outcome (Option Bytes × ℕ) × ℤ
unfolding ca_add_to_pathcode
pathcode_callback pa acc = (acc >>= ca_add_to_pathcode pa, pos 0)

-- What ca_derive_pathcode makes of the accumulator.
unfoldable pub pathcode_of : (Bytes → ℕ) → Option Bytes × ℕ → Outcome (Option Bytes)
unfolding code_from_str set_str format_lu
pathcode_of crc32 (none, count) = ok none
pathcode_of crc32 (some buf, count) = do
  code ← code_from_str crc32 buf
  ok (set_str (some (code ++ (b'-' ∷ format_lu count))))

-- `ca_derive_pathcode`, with the cooked actions in their order.
unfoldable pub ca_derive_pathcode : (Bytes → ℕ) → List Pa → Ca → Outcome Ca
unfolding pathcode_callback pathcode_of ca_foreach_cooked_pa
ca_derive_pathcode crc32 pas ca = do
  (acc, rc) ← ca_foreach_cooked_pa pathcode_callback pas (ok (none, 0))
  (buf, count) ← acc
  code ← pathcode_of crc32 (buf, count)
  ok (record ca { ca_pathcode = code })
