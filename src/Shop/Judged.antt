-- ===== src/Shop/Judged.antt =====
-- What _shop_for_cmd leaves: which builds are left, and whether there is a winner.
use audited_objects.Prelude.{
  ◌⊎◌, subst, ◌==◌, Bool, ap, Option, take, Bool-cases, ◌≡◌, All, Bytes, List, [], ◌∷◌, none, some,
  refl, inl, inr, true, false, ok, ◌>>=◌, Post, Post-then, Post_self, Post-at,
}
use audited_objects.Ps.{Ps, csv_field_is_null}
use audited_objects.Shop.{
  winner_texts, PtxDict, ShopE, is_seen, first_seen, upper_first, winner_room, shop_ptx_winner,
  shop_ptx_contains, is_some, shop_nomatch, shop_mustrun, shop_mustrun_agg,
}
use audited_objects.Shop.Prereqs.{
  Env, first_record, Shopping, shop_compare_prereqs, command_key, cmp_lines,
}
use audited_objects.Shop.Sound.{LinesAgree, shop_compare_prereqs-LineAgrees}
use audited_objects.Shop.Entries.{Traced, Named, shop_compare_prereqs-Traced}
use audited_objects.Shop.Command.{
  is_recycled, is_true, CmdState, cmd_state, Winner, Verdict, verdict_of, find_winner, no_winner,
  shop_for_state, shop_for_cmd,
}

-- What holds of a result, if there is one.
abbrev pub Found {ℓ κ} : {A : Type ℓ} → Option A → (A → Type κ) → Type κ
Found none P = Unit
Found (some a) P = P a

module _ (dict : PtxDict) where
  -- The first node that was seen is one of the table.
  first_seen-lookup :
      (d : dict.Carrier) (ns : List (Bytes × Bytes))
      → All (λ n. dict.lookup d n.0 ≡ some n) ns
      → Found (first_seen ns) (λ n. (dict.lookup d n.0 ≡ some n) × (is_seen n.0 ≡ true))
  unfolding first_seen
  first_seen-lookup d [] here = tt
  first_seen-lookup d (n ∷ ns) here = elim (Bool-cases (is_seen n.0)) [
    | inl seen ↦ rw seen (here.0, seen)
    | inr unseen ↦ rw unseen (first_seen-lookup d ns here.1)
  ]

  -- The texts that stand for a build in the members `wix` and `winner`.
  abbrev pub StandsFor : dict.Carrier → Bytes → Bytes → Bytes × Bytes → Type 0
  StandsFor d wix winner n =
      (dict.lookup d n.0 ≡ some n)
      × (is_seen n.0 ≡ true)
      × (wix ≡ take winner_room (upper_first n.0))
      × (winner ≡ take winner_room n.1)

  winner_texts-StandsFor :
      (d : dict.Carrier) (o : Option (Bytes × Bytes))
      → Found o (λ n. (dict.lookup d n.0 ≡ some n) × (is_seen n.0 ≡ true))
      → Found (winner_texts o) (λ w. (n : Bytes × Bytes) × StandsFor d w.0 w.1 n)
  unfolding winner_texts
  winner_texts-StandsFor d none h = tt
  winner_texts-StandsFor d (some (key, id)) h = ((key, id), (h.0, h.1, refl, refl))

  winner-StandsFor :
      (d : dict.Carrier)
      → Found (shop_ptx_winner dict d) (λ w. (n : Bytes × Bytes) × StandsFor d w.0 w.1 n)
  unfolding shop_ptx_winner
  winner-StandsFor d =
      winner_texts-StandsFor d (first_seen (dict.nodes d))
        (first_seen-lookup d (dict.nodes d) (dict.lookup-nodes d))

module _ (dict : PtxDict) (env : Env) where
  -- A command may be recycled at all: it has targets, and no children.
  abbrev pub Eligible : Bytes → Type 0
  Eligible cmdix =
      (text : Bytes) × (cmd : CmdState) × (first_record (env.records cmdix) ≡ ok text)
      × (cmd_state text ≡ ok cmd)
      × (is_true cmd.has_tgt ≡ true)
      × (csv_field_is_null cmd.kids ≡ true)

  -- The entry that the table `d` has for a build, whose key is now `key`: it has the id, and the same
  -- key, unless `N` holds of the build.
  abbrev pub Entry : dict.Carrier → (Bytes → Type 0) → Bytes → Bytes → Type 0
  Entry d N key id = (key₀ : Bytes) × (dict.lookup d key ≡ some (key₀, id)) × ((key₀ ≡ key) ⊎ N key)

  -- The winner of a command: a build with an entry in the table `d`, whose key is marked as seen, and
  -- of which every prerequisite line of the command is confirmed.
  abbrev pub Wins : dict.Carrier → (Bytes → Type 0) → Bytes → Winner → Type 0
  Wins d N cmdix w =
      (key id : Bytes) × Entry d N key id
      × (is_seen key ≡ true)
      × (w.wix ≡ take winner_room (upper_first key))
      × (w.winner ≡ take winner_room id)
      × (w.wincmd ≡ take winner_room cmdix)
      × Eligible cmdix
      × ((last : Option Ps) × LinesAgree env dict key (env.records (command_key b'<' cmdix)) none
            last)

  -- One of the command's prerequisite lines names the build.
  abbrev pub NamedIn : Bytes → Bytes → Type 0
  NamedIn cmdix key = Named dict key env cmdix

  -- What _shop_for_cmd leaves: no state at hand, entries that were there before, and a winner exactly if
  -- it says so.
  abbrev pub Judged : Shopping dict.Carrier → Bytes → Verdict dict.Carrier → Type 0
  Judged ss cmdix v =
      (v.shopping.current_ps ≡ none)
      × ((k : Bytes) → Traced dict k (NamedIn cmdix k) ss.ptx_dict v.shopping.ptx_dict)
      × Found v.won (Wins ss.ptx_dict (NamedIn cmdix) cmdix)
      × (is_recycled v.rc ≡ is_some v.won)

  -- What is known of the builds that are left after the comparison.
  record Compared (ss : Shopping dict.Carrier) (cmdix : Bytes) (ss' : Shopping dict.Carrier)
      : Type 0 where
    over : ss'.current_ps ≡ none
    traced : (k : Bytes) → Traced dict k (NamedIn cmdix k) ss.ptx_dict ss'.ptx_dict
    confirmed :
        (k : Bytes)
        → shop_ptx_contains dict ss'.ptx_dict k ≡ true
        → (last : Option Ps) × LinesAgree env dict k
            (env.records (command_key b'<' cmdix))
            none
            last

  verdict_of-Judged :
      (aggregated : Bool) (cmdix : Bytes) (ss ss' : Shopping dict.Carrier)
      (o : Option (Bytes × Bytes))
      → Eligible cmdix
      → Compared ss cmdix ss'
      → Found o (λ w. (n : Bytes × Bytes) × StandsFor dict ss'.ptx_dict w.0 w.1 n)
      → Judged ss cmdix (verdict_of dict aggregated cmdix ss' o)
  unfolding verdict_of is_recycled is_some shop_ptx_contains
  verdict_of-Judged true cmdix ss ss' none fit c h = (c.over, c.traced, tt, refl)
  verdict_of-Judged false cmdix ss ss' none fit c h = (c.over, c.traced, tt, refl)
  verdict_of-Judged aggregated cmdix ss ss' (some (wix, winner)) fit c
        ((key, id), (there, seen, e, f)) =
      (
        c.over,
        c.traced,
        (
          key,
          id,
          c.traced key key id there,
          seen,
          e,
          f,
          refl,
          fit,
          c.confirmed key (ap is_some there),
        ),
        refl,
      )

  find_winner-Judged :
      (aggregated : Bool) (cmdix : Bytes) (ss ss' : Shopping dict.Carrier)
      → Eligible cmdix
      → Compared ss cmdix ss'
      → Judged ss cmdix (find_winner dict aggregated cmdix ss')
  unfolding find_winner
  find_winner-Judged aggregated cmdix ss ss' fit c =
      elim (Bool-cases (dict.count ss'.ptx_dict == 0)) [
        | inl over ↦ rw over (verdict_of-Judged aggregated cmdix ss ss' none fit c tt)
        | inr more ↦ rw more (
            verdict_of-Judged aggregated cmdix ss ss' (shop_ptx_winner dict ss'.ptx_dict) fit c
              (winner-StandsFor dict ss'.ptx_dict))
      ]

  no_winner-Judged :
      (rc : ShopE) (cmdix : Bytes) (ss : Shopping dict.Carrier)
      → ss.current_ps ≡ none
      → is_recycled rc ≡ false
      → Judged ss cmdix (no_winner dict rc ss)
  unfolding no_winner is_some
  no_winner-Judged rc cmdix ss now other = (now, λ k key id e. (key, e, inl refl), tt, other)

  ends_unknown :
      (cmdix : Bytes) (ss ss' : Shopping dict.Carrier)
      → shop_compare_prereqs dict env cmdix ss ≡ ok ss'
      → ss'.current_ps ≡ none
  unfolding shop_compare_prereqs
  ends_unknown cmdix ss ss' e =
      let m = cmp_lines dict env (env.records (command_key b'<' cmdix)) ss in
      Post-at (λ end_. end_.current_ps ≡ none)
        (m >>= λ end_. ok (record end_ { current_ps = none })) ss'
        (Post-then _ (λ end_. m ≡ ok end_) m _ (Post_self m) (λ end_ e'. refl)) e

  compare-Compared :
      (cmdix : Bytes) (ss ss' : Shopping dict.Carrier)
      → ss.current_ps ≡ none
      → shop_compare_prereqs dict env cmdix ss ≡ ok ss'
      → Compared ss cmdix ss'
  compare-Compared cmdix ss ss' now e = record {
    over = ends_unknown cmdix ss ss' e;
    traced = λ k.
        Post-at (λ end_. Traced dict k (NamedIn cmdix k) ss.ptx_dict end_.ptx_dict)
          (shop_compare_prereqs dict env cmdix ss) ss'
          (shop_compare_prereqs-Traced dict k env cmdix ss) e;
    confirmed = λ k left.
        let (there, (last, agree)) =
          shop_compare_prereqs-LineAgrees env dict k cmdix ss ss' e left in
        (
          last,
          subst (λ o. LinesAgree env dict k (env.records (command_key b'<' cmdix)) o last) now
              agree,
        );
  }

  compare-Judged :
      (aggregated : Bool) (cmdix : Bytes) (ss : Shopping dict.Carrier)
      → ss.current_ps ≡ none
      → Eligible cmdix
      → Post
          (shop_compare_prereqs dict env cmdix ss >>= λ ss'.
            ok (find_winner dict aggregated cmdix ss'))
          (Judged ss cmdix)
  compare-Judged aggregated cmdix ss now fit =
      let m = shop_compare_prereqs dict env cmdix ss in
      Post-then _ (λ ss'. m ≡ ok ss') m _ (Post_self m)
        (λ ss' e.
          find_winner-Judged aggregated cmdix ss ss' fit (compare-Compared cmdix ss ss' now e))

  shop_for_state-Judged :
      (cmdix text : Bytes) (cmd : CmdState) (ss : Shopping dict.Carrier)
      → ss.current_ps ≡ none
      → first_record (env.records cmdix) ≡ ok text
      → cmd_state text ≡ ok cmd
      → Post (shop_for_state dict env cmdix cmd ss) (Judged ss cmdix)
  unfolding shop_for_state is_recycled
  shop_for_state-Judged cmdix text cmd ss now found parsed =
      elim (Bool-cases (is_true cmd.has_tgt)) [
        | inr idle ↦ rw idle (elim (Bool-cases (is_true cmd.agg)) [
          | inl agg ↦ rw agg (no_winner-Judged shop_mustrun_agg cmdix ss now refl)
          | inr single ↦ rw single (no_winner-Judged shop_mustrun cmdix ss now refl)
        ])
        | inl active ↦ rw active (elim (Bool-cases (csv_field_is_null cmd.kids)) [
          | inr parent ↦ rw parent (no_winner-Judged shop_mustrun cmdix ss now refl)
          | inl leaf ↦ rw leaf (elim (Bool-cases (dict.count ss.ptx_dict == 0)) [
            | inl over ↦ rw over (no_winner-Judged shop_nomatch cmdix ss now refl)
            | inr more ↦ rw more (
                compare-Judged (is_true cmd.agg) cmdix ss now
                  (text, cmd, found, parsed, active, leaf))
          ])
        ])
      ]

  pub shop_for_cmd-Judged :
      (cmdix : Bytes) (ss : Shopping dict.Carrier)
      → ss.current_ps ≡ none
      → Post (shop_for_cmd dict env cmdix ss) (Judged ss cmdix)
  unfolding shop_for_cmd
  shop_for_cmd-Judged cmdix ss now =
      let find = first_record (env.records cmdix) in
      Post-then _ (λ text. find ≡ ok text) find _ (Post_self find)
        (λ text found.
          Post-then _ (λ cmd. cmd_state text ≡ ok cmd) (cmd_state text) _
            (Post_self (cmd_state text))
            (λ cmd parsed. shop_for_state-Judged cmdix text cmd ss now found parsed))
