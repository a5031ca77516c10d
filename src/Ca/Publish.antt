-- ===== src/Ca/Publish.antt =====
-- ca_merge, ca_publish and ca_disband of src/ca.c, and _mon_process_ca of src/mon.c, by which they
-- deliver a command.
use audited_objects.Prelude.{
  Bool, ◌==◌, ◌++◌, if◌then◌else◌, Outcome, [], ◌∷◌, some, none, ok, abort, ◌>>=◌, true, false,
}
use audited_objects.Ps.{get_str}
use audited_objects.Pa.{Pa}
use audited_objects.Ca.{List, ℕ, Option, Bytes}
use audited_objects.Ca.Header.{ca_format_header}
use audited_objects.Ca.Coalesce.{Dict, ca_coalesce}
use audited_objects.Ca.Key.{Ck}
use audited_objects.Ca.Group.{
  Cmd, Heap, put, ca_set_leader, ca_set_processed, ca_record_pa, ca_derive_pathcode,
}

-- What publishing takes from the outside: `base`, `cwd` and `roundoff`, and zlib's crc32, as elsewhere;
-- the orders in which kazlib goes through a dictionary of raw actions, a dictionary of cooked ones, and
-- a hash; and what is done with a command that is ready: it is formatted, written to the output
-- file, uploaded with its files, and handed to make and git.
pub record Outlet (dict : Dict) (W : Type 0) : Type 0 where
  pub base : Bytes
  pub cwd : Option Bytes
  pub roundoff : ℕ
  pub crc32 : Bytes → ℕ
  pub raw_order : List Pa → List Pa
  pub cooked_order : dict.Carrier → List Pa
  pub hash_scan : List (Ck × ℕ) → List (Ck × ℕ)
  pub deliver : ℕ → Cmd dict.Carrier → W → W

module _ {dict : Dict} {W : Type 0} (out : Outlet dict W) where
  -- The memory, and the world outside.
  abbrev pub World : Type 0
  World = Heap dict.Carrier × W

  -- ca_coalesce on a command. Its assertion is that there are no cooked actions yet.
  unfoldable pub coalesced : Option (List Pa) → Option dict.Carrier → Outcome dict.Carrier
  unfolding ca_coalesce
  coalesced raw (some d) = abort
  coalesced none none = abort
  coalesced (some pas) none =
      ca_coalesce dict out.roundoff out.base out.cwd (out.raw_order pas) dict.empty

  unfoldable pub coalesce_at : ℕ → Heap dict.Carrier → Outcome (Heap dict.Carrier)
  unfolding coalesced
  coalesce_at r h = do
    cooked ← coalesced (h r).raw_pa (h r).cooked_pa
    ok (put r (record (h r) { raw_pa = some []; cooked_pa = some cooked }) h)

  unfoldable pub cooked_list : Option dict.Carrier → List Pa
  cooked_list none = []
  cooked_list (some d) = out.cooked_order d

  unfoldable pub with_pathcode : Cmd dict.Carrier → Outcome (Cmd dict.Carrier)
  unfolding ca_derive_pathcode cooked_list
  with_pathcode c = elim (c.header.ca_recycled) [
    | some ptx ↦ ok c
    | none ↦ (do
      header ← ca_derive_pathcode out.crc32 (cooked_list c.cooked_pa) c.header
      ok (record c { header = header }))
  ]

  -- `_mon_process_ca`
  unfoldable pub mon_process_ca : ℕ → World → Outcome World
  unfolding with_pathcode
  mon_process_ca r (h, w) = do
    c ← with_pathcode (h r)
    ok (put r (record c { processed = true }) h, out.deliver r c w)

  -- The loop of ca_merge that moves the actions.
  unfoldable pub move_pas : List Pa → Option (List Pa) → Outcome (Option (List Pa))
  unfolding ca_record_pa
  move_pas [] raw = ok raw
  move_pas (pa ∷ pas) raw = do raw' ← ca_record_pa pa raw; move_pas pas raw'

  unfoldable pub raw_list : Option (List Pa) → List Pa
  raw_list none = []
  raw_list (some pas) = out.raw_order pas

  -- `ca_merge`
  unfoldable pub ca_merge : ℕ → ℕ → Heap dict.Carrier → Outcome (Heap dict.Carrier)
  unfolding move_pas raw_list get_str
  ca_merge ldr donor h = do
    sub ← ca_format_header (h donor).header
    raw ← move_pas (raw_list (h donor).raw_pa) (h ldr).raw_pa
    ok (
        put donor (record (h donor) { raw_pa = none })
          (put ldr (record (h ldr) { subs = some (get_str [] (h ldr).subs ++ sub); raw_pa = raw })
            h))

  -- The loop of ca_publish over the members of the group.
  unfoldable pub merge_members : ℕ → List (Ck × ℕ) → Heap dict.Carrier → Outcome (Heap dict.Carrier)
  unfolding ca_merge ca_set_processed
  merge_members r [] h = ok h
  merge_members r (n ∷ ns) h =
      let rest = (do h' ← ca_merge r n.1 h; merge_members r ns (ca_set_processed n.1 true h')) in
      let skip = merge_members r ns h in if n.1 == r then skip else rest

  -- The group of a command, in the order of its hash.
  unfoldable pub members : Option (List (Ck × ℕ)) → List (Ck × ℕ)
  members none = []
  members (some g) = out.hash_scan g

  unfoldable pub end_group : ℕ → Heap dict.Carrier → Heap dict.Carrier
  end_group r h = put r (record (h r) { group = none }) h

  -- `ca_publish`, with `_mon_process_ca` as the callback.
  unfoldable pub ca_publish : ℕ → World → Outcome World
  unfolding merge_members members end_group coalesce_at mon_process_ca
  ca_publish r (h, w) = do
    merged ← merge_members r (members (h r).group) h
    h' ← coalesce_at r (end_group r merged)
    mon_process_ca r (h', w)

  unfoldable pub release_if : Bool → ℕ → World → Outcome World
  unfolding coalesce_at mon_process_ca
  release_if false r (h, w) = ok (h, w)
  release_if true r (h, w) = do h' ← coalesce_at r h; mon_process_ca r (h', w)

  -- A command of a group that ends: it is processed if it is closed.
  unfoldable pub release : ℕ → World → Outcome World
  unfolding release_if
  release r (h, w) = release_if (h r).closed r (h, w)

  -- The loop of ca_disband.
  unfoldable pub release_members : List (Ck × ℕ) → World → Outcome World
  unfolding release ca_set_leader
  release_members [] hw = ok hw
  release_members (n ∷ ns) hw = do
    hw' ← release n.1 hw
    release_members ns (ca_set_leader n.1 none hw'.0, hw'.1)

  -- `ca_disband`, with `_mon_process_ca` as the callback.
  unfoldable pub ca_disband : ℕ → World → Outcome World
  unfolding release_members members end_group
  ca_disband ldr (h, w) = do
    hw ← release_members (members (h ldr).group) (h, w)
    hw' ← release ldr hw
    ok (ca_set_leader ldr none (end_group ldr hw'.0), hw'.1)
