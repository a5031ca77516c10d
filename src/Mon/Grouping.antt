-- ===== src/Mon/Grouping.antt =====
-- Audit groups do not nest: a command that starts keeps the groups in memory in order.
use audited_objects.Prelude.{
  ◌&&◌, Post-at, Post-then, Post_self, Post-imp, Post, subst, ap, ◌∙◌, sym, Bool-cases, ◌≢◌, ◌≡◌,
  [], ◌∷◌, some, none, ok, ◌>>=◌, true, false, refl, inl, inr,
}
use audited_objects.Ca.Coalesce.{Dict}
use audited_objects.Ca.Key.{Ck, ck_new_from_ca}
use audited_objects.Ca.Group.{
  Cmd, Heap, put, hash_lookup, add_member, ca_set_leader, ca_start_group, ca_aggregate,
}
use audited_objects.Ca.Publish.{Outlet, World, ca_disband}
use audited_objects.Ca.Gather.{Outside, Distinct, put_same, put_other}
use audited_objects.Ca.Disband.{Freed, ca_disband-Disbanded}
use audited_objects.Mon.{
  not, Bool, Option, List, ℕ, AggE, agg_neutral, agg_none, agg_weak, agg_strong, agg_break,
  start_alone, push, join_weak, is_break, join_group,
}
use audited_objects.Mon.Groups.{
  Grouped, Member, IsFresh, none_some, same_or_not, apart_or_in, not_both, start-Grouped,
  push-Grouped, disband-Grouped,
}

-- A member of the structure that a write keeps.
by_field :
    {C A : Type 0} (f : Cmd C → A) (d : ℕ) (c : Cmd C) (h : Heap C) (x : ℕ)
    → f c ≡ f (h d)
    → f (put d c h x) ≡ f (h x)
by_field f d c h x e = elim (same_or_not x d) [
  | inl q ↦ ap (λ y. f (put d c h y)) q ∙ ap f (put_same d c h) ∙ e ∙ ap (λ y. f (h y)) (sym q)
  | inr ne ↦ ap f (put_other d c h x ne)
]

apart_subset :
    (r : ℕ) (ns ms : List (Ck × ℕ))
    → ((x : ℕ) → Member x ms → Member x ns)
    → Outside r ns
    → Outside r ms
apart_subset r ns ms sub o = elim (apart_or_in r ms) [
  | inl o' ↦ o'
  | inr m ↦ absurd (not_both r ns o (sub r m))
]

-- The order of a hash has the members of the hash, each once.
pub record IsScan (scan : List (Ck × ℕ) → List (Ck × ℕ)) : Type 0 where
  pub has : (x : ℕ) (g : List (Ck × ℕ)) → Member x g → Member x (scan g)
  pub only : (x : ℕ) (g : List (Ck × ℕ)) → Member x (scan g) → Member x g
  pub once : (g : List (Ck × ℕ)) → Distinct g → Distinct (scan g)

module _ {dict : Dict} {W : Type 0} (out : Outlet dict W) where
  -- The leader that a command meets has a group, and nothing in it has the command's key.
  abbrev pub Joinable : Option ℕ → ℕ → Heap dict.Carrier → Type 0
  Joinable none r h = Unit
  Joinable (some l) r h =
      (g : List (Ck × ℕ)) × ((h l).group ≡ some g)
      × (hash_lookup g (ck_new_from_ca (h r).header) ≡ none)

  abbrev Fine : World out → Type 0
  Fine hw = Grouped hw.0

  start_group_fresh :
      (r : ℕ) (strength : Bool) (h : Heap dict.Carrier)
      → (h r).group ≡ none
      → ca_start_group r strength h
        ≡ ok (put r (record (h r) { group = some []; leader = some r; strong = strength }) h)
  unfolding ca_start_group
  start_group_fresh r strength h e = rw (e, ca_start_group)

  started :
      (r : ℕ) (strength : Bool) (h : Heap dict.Carrier) (w : W)
      → Grouped h
      → IsFresh (h r)
      → Post (ca_start_group r strength h >>= λ h'. ok (h', w)) Fine
  started r strength h w gr fresh =
      let h' = put r (record (h r) { group = some []; leader = some r; strong = strength }) h in
      subst (λ m. Post (m >>= λ h''. ok (h'', w)) Fine)
        (sym (start_group_fresh r strength h fresh.1))
        (start-Grouped h h' gr r fresh (ap (λ c. c.leader) (put_same r _ h))
          (ap (λ c. c.group) (put_same r _ h)) (put_other r _ h))

  start_alone-Grouped :
      (level : AggE) (r : ℕ) (h : Heap dict.Carrier) (w : W)
      → Grouped h
      → IsFresh (h r)
      → Post (start_alone out level r (h, w)) Fine
  unfolding start_alone
  start_alone-Grouped agg_neutral r h w gr fresh = gr
  start_alone-Grouped agg_none r h w gr fresh = gr
  start_alone-Grouped agg_break r h w gr fresh = gr
  start_alone-Grouped agg_strong r h w gr fresh = started r true h w gr fresh
  start_alone-Grouped agg_weak r h w gr fresh = started r false h w gr fresh

  add_member_new :
      (g : List (Ck × ℕ)) (ck : Ck) (r : ℕ)
      → hash_lookup g ck ≡ none
      → add_member g ck r ≡ (ck, r) ∷ g
  unfolding add_member
  add_member_new g ck r e = rw (e, add_member)

  -- The memory when `r` has become a member of the group of `l`.
  abbrev joined : ℕ → ℕ → List (Ck × ℕ) → Heap dict.Carrier → Heap dict.Carrier
  joined l r g h = ca_set_leader r (some l) (put l (record (h l) { group = some g }) h)

  aggregate_eq :
      (l r : ℕ) (g : List (Ck × ℕ)) (h : Heap dict.Carrier)
      → (h l).group ≡ some g
      → ca_aggregate l r h ≡ ok (joined l r (add_member g (ck_new_from_ca (h r).header) r) h)
  unfolding ca_aggregate ca_set_leader
  aggregate_eq l r g h e = rw (e, ca_aggregate)

  joined-Grouped :
      (l r : ℕ) (g : List (Ck × ℕ)) (ck : Ck) (h : Heap dict.Carrier)
      → Grouped h
      → IsFresh (h r)
      → (h l).group ≡ some g
      → Grouped (joined l r ((ck, r) ∷ g) h)
  unfolding ca_set_leader
  joined-Grouped l r g ck h gr fresh grp =
      let h1 = put l (record (h l) { group = some ((ck, r) ∷ g) }) h in
      let h2 = put r (record (h1 r) { leader = some l }) h1 in
      let l_not_r : l ≢ r =
        (λ q. none_some g (sym fresh.1 ∙ ap (λ y. (h y).group) (sym q) ∙ grp)) in
      push-Grouped h h2 gr l r g ck fresh grp (ap (λ c. c.leader) (put_same r _ h1))
        (ap (λ c. c.group) (put_other r _ h1 l l_not_r) ∙ ap (λ c. c.group) (put_same l _ h))
        (λ x ne. ap (λ c. c.leader) (put_other r _ h1 x ne) ∙ by_field (λ c. c.leader) l _ h x refl)
        (λ x ne. by_field (λ c. c.group) r _ h1 x refl ∙ ap (λ c. c.group) (put_other l _ h x ne))
        (λ x. by_field (λ c. c.processed) r _ h1 x refl ∙ by_field (λ c. c.processed) l _ h x refl)

  pushed :
      (l r : ℕ) (h : Heap dict.Carrier) (w : W)
      → Grouped h
      → IsFresh (h r)
      → Joinable (some l) r h
      → Post (push out l r (h, w)) Fine
  unfolding push
  pushed l r h w gr fresh (g, grp, new_key) =
      let ck = ck_new_from_ca (h r).header in
      let e : ca_aggregate l r h ≡ ok (joined l r ((ck, r) ∷ g) h) =
        aggregate_eq l r g h grp
        ∙ ap (λ g'. ok (joined l r g' h)) (add_member_new g ck r new_key) in
      subst (λ m. Post (m >>= λ h'. ok (h', w)) Fine) (sym e)
        (joined-Grouped l r g ck h gr fresh grp)

  loses_leader :
      (x : ℕ) (ns : List (Ck × ℕ)) (h h' : Heap dict.Carrier)
      → Freed out ns h h'
      → Member x ns
      → ((h' x).leader ≡ none) × ((h' x).group ≡ (h x).group)
  loses_leader x [] h h' f m = absurd m
  loses_leader x (n ∷ ns) h h' f (inl e) =
      subst (λ y. ((h' y).leader ≡ none) × ((h' y).group ≡ (h y).group)) (sym e) (f.0.0, f.0.2)
  loses_leader x (n ∷ ns) h h' f (inr m) = loses_leader x ns h h' f.1 m

  disbanded :
      (l r : ℕ) (h : Heap dict.Carrier) (w : W)
      → IsScan out.hash_scan
      → Grouped h
      → IsFresh (h r)
      → Joinable (some l) r h
      → Post (ca_disband out l (h, w)) (λ hw. Grouped hw.0 × IsFresh (hw.0 r))
  disbanded l r h w scan gr fresh (g, grp, new_key) =
      let m = ca_disband out l (h, w) in
      Post-imp (λ hw. m ≡ ok hw) _ m
        (λ hw e.
          let apart =
            apart_subset l g (out.hash_scan g) (λ x. scan.only x g) (gr.outside l g grp) in
          let dis =
            ca_disband-Disbanded out l g h w hw grp apart (scan.once g (gr.distinct l g grp)) e in
          let (freed, at_l, at_g, pr, same, sent) = dis in
          let r_not_l : r ≢ l = (λ q. none_some g (sym fresh.1 ∙ ap (λ y. (h y).group) q ∙ grp)) in
          let r_outside : Outside r (out.hash_scan g) = elim (apart_or_in r (out.hash_scan g)) [
            | inl o ↦ o
            | inr in_ ↦ none_some l (sym fresh.0 ∙ gr.member l r g grp (scan.only r g in_))
          ] in
          let at_r = same r r_not_l r_outside in
          (
            disband-Grouped h hw.0 gr l g grp at_l at_g
                (λ x in_. (loses_leader x (out.hash_scan g) h hw.0 freed (scan.has x g in_)).0)
                (λ x in_. (loses_leader x (out.hash_scan g) h hw.0 freed (scan.has x g in_)).1)
                (λ x ne o. same x ne (apart_subset x g (out.hash_scan g) (λ y. scan.only y g) o)),
            (
              ap (λ c. c.leader) at_r ∙ fresh.0,
              ap (λ c. c.group) at_r ∙ fresh.1,
              ap (λ c. c.processed) at_r ∙ fresh.2,
            ),
          ))
        (Post_self m)

  join_weak-Grouped :
      (level : AggE) (l r : ℕ) (h : Heap dict.Carrier) (w : W)
      → IsScan out.hash_scan
      → Grouped h
      → IsFresh (h r)
      → Joinable (some l) r h
      → Post (join_weak out level l r (h, w)) Fine
  unfolding join_weak
  join_weak-Grouped agg_neutral l r h w scan gr fresh j = pushed l r h w gr fresh j
  join_weak-Grouped agg_none l r h w scan gr fresh j = tt
  join_weak-Grouped agg_break l r h w scan gr fresh j =
      Post-imp _ Fine (ca_disband out l (h, w)) (λ hw d. d.0) (disbanded l r h w scan gr fresh j)
  join_weak-Grouped agg_strong l r h w scan gr fresh j =
      Post-then Fine _ (ca_disband out l (h, w)) _ (disbanded l r h w scan gr fresh j)
        (λ hw d. start_alone-Grouped agg_strong r hw.0 hw.1 d.0 d.1)
  join_weak-Grouped agg_weak l r h w scan gr fresh j =
      Post-then Fine _ (ca_disband out l (h, w)) _ (disbanded l r h w scan gr fresh j)
        (λ hw d. start_alone-Grouped agg_weak r hw.0 hw.1 d.0 d.1)

  join_group-Post :
      (level : AggE) (o : Option ℕ) (r : ℕ) (h : Heap dict.Carrier) (w : W)
      → IsScan out.hash_scan
      → Grouped h
      → IsFresh (h r)
      → Joinable o r h
      → Post (join_group out level o r (h, w)) Fine
  unfolding join_group
  join_group-Post level none r h w scan gr fresh j = start_alone-Grouped level r h w gr fresh
  join_group-Post level (some l) r h w scan gr fresh j =
      elim (Bool-cases (not (is_break out level) && (h l).strong)) [
        | inl strong_ ↦ rw strong_ (pushed l r h w gr fresh j)
        | inr weak_ ↦ rw weak_ (join_weak-Grouped level l r h w scan gr fresh j)
      ]

  -- Audit groups do not nest and are never torn: when a command that has just come starts a group, joins
  -- that of its predecessor's leader or breaks it up, at any level of aggregation, then afterwards as
  -- before each unprocessed command with a leader is that leader itself or a member of its group,
  -- each leader leads itself, each member has its group's leader, and the members of a group are
  -- different commands and not the leader. The group that it meets must have no member with its key, and
  -- the order of a hash must have each member once.
  pub join_group-Grouped :
      (level : AggE) (o : Option ℕ) (r : ℕ) (h : Heap dict.Carrier) (w : W) (hw : World out)
      → IsScan out.hash_scan
      → Grouped h
      → IsFresh (h r)
      → Joinable o r h
      → join_group out level o r (h, w) ≡ ok hw
      → Grouped hw.0
  join_group-Grouped level o r h w hw scan gr fresh j e =
      Post-at Fine (join_group out level o r (h, w)) hw
        (join_group-Post level o r h w scan gr fresh j) e
