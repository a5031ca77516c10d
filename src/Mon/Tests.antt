-- ===== src/Mon/Tests.antt =====
-- Commands that start, on examples.
use audited_objects.Prelude.{
  length, ◌≡◌, str_eq, codes, [], ◌∷◌, some, none, ok, null, abort, true, false, refl,
}
use audited_objects.Prelude.Int.{pos}
use audited_objects.Ca.{Ca}
use audited_objects.Ca.Dictionary.{by_path}
use audited_objects.Ca.Group.{Heap, ca_start_group, hash_lookup}
use audited_objects.Ca.Publish.{Outlet, World}
use audited_objects.Mon.{
  Ck, Bool, Option, ℕ, Outcome, List, Bytes, new_cmd, Criteria, agg_weak, agg_strong, agg_break,
  agg_none, agg_level, join_group,
}
use audited_objects.Mon.Groups.{Grouped, IsFresh}
use audited_objects.Mon.Grouping.{IsScan, Joinable, join_group-Grouped}

abbrev command : Ca
command = record {
  ca_cmdid = 12;
  ca_depth = 1;
  ca_pcmdid = 11;
  ca_starttime = record { ntv_sec = pos 0; ntv_nsec = pos 0 };
  ca_duration = 0;
  ca_prog = some (codes "make");
  ca_host = none;
  ca_recycled = none;
  ca_rwd = none;
  ca_pccode = none;
  ca_ccode = none;
  ca_pathcode = none;
  ca_line = some (codes "make all");
  ca_freetext = none;
}

-- Commands named "make" aggregate weakly, and "ar" strongly; "sh" breaks a group up.
abbrev is_prog : Bytes → Option Bytes → Bool
is_prog name none = false
is_prog name (some prog) = str_eq name prog

abbrev criteria : Criteria
criteria = record {
  style = none;
  prog_break = is_prog (codes "sh");
  line_break = λ line. false;
  prog_strong = is_prog (codes "ar");
  line_strong = λ line. false;
  prog_weak = is_prog (codes "make");
  line_weak = λ line. false;
}

levels :
    (agg_level criteria none none command.ca_prog command.ca_line ≡ agg_weak)
    × (agg_level criteria none (some true) command.ca_prog command.ca_line ≡ agg_strong)
    × (agg_level criteria none (some true) (some (codes "sh")) command.ca_line ≡ agg_break)
    × (agg_level criteria (some (codes "-")) none command.ca_prog command.ca_line ≡ agg_none)
unfolding agg_level str_eq
levels = (refl, refl, refl, refl)

-- Memory in which no command has been grouped yet.
abbrev unused : Heap by_path.Carrier
unused r = new_cmd command (record { ntv_sec = pos 1; ntv_nsec = pos 0 })

abbrev in_order : List (Ck × ℕ) → List (Ck × ℕ)
in_order g = g

abbrev outlet : Outlet by_path (List ℕ)
outlet = record {
  base = codes "/p";
  cwd = none;
  roundoff = 1000;
  crc32 = length;
  raw_order = λ pas. pas;
  cooked_order = λ d. [];
  hash_scan = in_order;
  deliver = λ r c w. r ∷ w;
}

abbrev result : Outcome (World outlet) → World outlet
result (ok hw) = hw
result null = (unused, [])
result abort = (unused, [])

unused-Grouped : Grouped unused
unfolding new_cmd
unused-Grouped = record {
  led = λ r l e p. absurd (cc e);
  leads = λ l g e. absurd (cc e);
  member = λ l r g e m. absurd (cc e);
  outside = λ l g e. absurd (cc e);
  distinct = λ l g e. absurd (cc e);
}

in_order-IsScan : IsScan in_order
in_order-IsScan = record { has = λ x g m. m; only = λ x g m. m; once = λ g d. d }

fresh : (r : ℕ) → IsFresh (unused r)
unfolding new_cmd
fresh r = (refl, refl, refl)

-- The first command leads a weak group.
abbrev first : World outlet
first = result (join_group outlet agg_weak none 0 (unused, []))

first_joins : join_group outlet agg_weak none 0 (unused, []) ≡ ok first
unfolding join_group ca_start_group new_cmd
first_joins = refl

first-Grouped : Grouped first.0
first-Grouped =
    join_group-Grouped outlet agg_weak none 0 unused [] first in_order-IsScan unused-Grouped
      (fresh 0) tt first_joins

-- The second meets it, and starts a strong one.
abbrev second : World outlet
second = result (join_group outlet agg_strong (some 0) 1 first)

second_joins : join_group outlet agg_strong (some 0) 1 first ≡ ok second
unfolding join_group ca_start_group new_cmd
second_joins = refl

first-IsFresh : IsFresh (first.0 1)
unfolding join_group ca_start_group new_cmd
first-IsFresh = (refl, refl, refl)

first-Joinable : Joinable outlet (some 0) 1 first.0
unfolding join_group ca_start_group new_cmd hash_lookup
first-Joinable = ([], refl, refl)

join_group-Grouped_example : Grouped second.0
join_group-Grouped_example =
    join_group-Grouped outlet agg_strong (some 0) 1 first.0 first.1 second in_order-IsScan
      first-Grouped first-IsFresh first-Joinable second_joins
