-- ===== src/Ca/Disband.antt =====
-- ca_disband: which commands of a group are delivered, and that none of them has a leader
-- afterwards.
use audited_objects.Prelude.{
  Post-at, subst, sym, ◌∙◌, Post-imp, ap, Post-then, ◌≢◌, ◌||◌, ◌++◌, All, ◌≡◌, Post, [], ◌∷◌, some,
  none, ok, ◌>>=◌, refl,
}
use audited_objects.Ca.{ℕ, List}
use audited_objects.Ca.Coalesce.{Dict}
use audited_objects.Ca.Key.{Ck}
use audited_objects.Ca.Group.{Heap, put, ca_set_leader}
use audited_objects.Ca.Publish.{
  Outlet, World, members, end_group, release_if, release, release_members, ca_disband,
}
use audited_objects.Ca.Gather.{Outside, Distinct, put_same, put_other}
use audited_objects.Ca.Release.{
  nothing, nothing, Deliveries, Deliveries-append, if_closed, closed_of, Released,
  release_if-Released,
}

module _ {dict : Dict} {W : Type 0} (out : Outlet dict W) where
  -- What becomes of the members.
  abbrev pub Freed : List (Ck × ℕ) → Heap dict.Carrier → Heap dict.Carrier → Type 0
  Freed ns h h' =
      All
        (λ n.
          ((h' n.1).leader ≡ none)
          × ((h' n.1).processed ≡ (h n.1).closed || (h n.1).processed)
          × ((h' n.1).group ≡ (h n.1).group))
        ns

  abbrev AllReleased : List (Ck × ℕ) → Heap dict.Carrier → W → World out → Type 0
  AllReleased ns h w hw =
      Freed ns h hw.0
      × ((r' : ℕ) → Outside r' ns → hw.0 r' ≡ h r')
      × Deliveries out (closed_of out ns h) w hw.1

  closed_of_same :
      (ns : List (Ck × ℕ)) (h h' : Heap dict.Carrier)
      → All (λ n. h' n.1 ≡ h n.1) ns
      → closed_of out ns h' ≡ closed_of out ns h
  closed_of_same [] h h' e = refl
  closed_of_same (n ∷ ns) h h' e = rw (e.0, closed_of_same ns h h' e.1)

  earlier_heap :
      (ns : List (Ck × ℕ)) (h mid h' : Heap dict.Carrier)
      → All (λ n. mid n.1 ≡ h n.1) ns
      → Freed ns mid h'
      → Freed ns h h'
  earlier_heap [] h mid h' e f = tt
  earlier_heap (n ∷ ns) h mid h' e f = (
    (f.0.0, f.0.1 ∙ ap (λ c. c.closed || c.processed) e.0, f.0.2 ∙ ap (λ c. c.group) e.0),
    earlier_heap ns h mid h' e.1 f.1,
  )

  apart_from :
      (d : ℕ) (ns : List (Ck × ℕ)) (h h' : Heap dict.Carrier)
      → ((r' : ℕ) → r' ≢ d → h' r' ≡ h r')
      → Outside d ns
      → All (λ n. h' n.1 ≡ h n.1) ns
  apart_from d [] h h' same o = tt
  apart_from d (n ∷ ns) h h' same o = (same n.1 (λ q. o.0 (sym q)), apart_from d ns h h' same o.1)

  -- One round of the loop: the command is released, and loses its leader.
  abbrev Round : ℕ → Heap dict.Carrier → W → World out → Type 0
  Round d h w hw =
      let mid = ca_set_leader d none hw.0 in
      ((mid d).leader ≡ none)
      × ((mid d).processed ≡ (h d).closed || (h d).processed)
      × ((mid d).group ≡ (h d).group)
      × ((r' : ℕ) → r' ≢ d → mid r' ≡ h r')
      × Deliveries out (if_closed out d (h d)) w hw.1

  release-Round :
      (d : ℕ) (h : Heap dict.Carrier) (w : W) → Post (release out d (h, w)) (Round d h w)
  unfolding release ca_set_leader
  release-Round d h w =
      Post-imp (Released out d h w) (Round d h w) (release_if out (h d).closed d (h, w))
        (λ hw rel. (
          ap (λ c. c.leader) (put_same d _ hw.0),
          ap (λ c. c.processed) (put_same d _ hw.0) ∙ rel.0,
          ap (λ c. c.group) (put_same d _ hw.0) ∙ rel.1,
          (λ r' ne. put_other d _ hw.0 r' ne ∙ rel.2 r' ne),
          rel.3,
        ))
        (release_if-Released out (h d).closed d h w refl)

  release_members-AllReleased :
      (ns : List (Ck × ℕ)) (h : Heap dict.Carrier) (w : W)
      → Distinct ns
      → Post (release_members out ns (h, w)) (AllReleased ns h w)
  unfolding release_members
  release_members-AllReleased [] h w d = (tt, (λ r' o. refl), nothing)
  release_members-AllReleased (n ∷ ns) h w d =
      Post-then _ (Round n.1 h w) (release out n.1 (h, w)) _ (release-Round n.1 h w) (λ hw1 round.
        let mid = ca_set_leader n.1 none hw1.0 in
        let same = apart_from n.1 ns h mid round.3 d.0 in
        Post-imp (AllReleased ns mid hw1.1) (AllReleased (n ∷ ns) h w)
          (release_members out ns (mid, hw1.1))
          (λ hw all_.
            let at_n = all_.1 n.1 d.0 in
            (
              (
                (
                  ap (λ c. c.leader) at_n ∙ round.0,
                  ap (λ c. c.processed) at_n ∙ round.1,
                  ap (λ c. c.group) at_n ∙ round.2,
                ),
                earlier_heap ns h mid hw.0 same all_.0,
              ),
              (λ r' o. all_.1 r' o.1 ∙ round.3 r' o.0),
              subst (λ rs. Deliveries out (if_closed out n.1 (h n.1) ++ rs) w hw.1)
                  (closed_of_same ns h mid same)
                  (Deliveries-append out (if_closed out n.1 (h n.1)) (closed_of out ns mid) w hw1.1
                    hw.1 round.4 all_.2),
            ))
          (release_members-AllReleased ns mid hw1.1 d.1))

  -- What is left of a group.
  abbrev pub Disbanded : ℕ → List (Ck × ℕ) → Heap dict.Carrier → W → World out → Type 0
  Disbanded ldr ns h w hw =
      Freed ns h hw.0
      × ((hw.0 ldr).leader ≡ none)
      × ((hw.0 ldr).group ≡ none)
      × ((hw.0 ldr).processed ≡ (h ldr).closed || (h ldr).processed)
      × ((r' : ℕ) → r' ≢ ldr → Outside r' ns → hw.0 r' ≡ h r')
      × Deliveries out (closed_of out ns h ++ if_closed out ldr (h ldr)) w hw.1

  later_heap :
      (ldr : ℕ) (ns : List (Ck × ℕ)) (h mid h' : Heap dict.Carrier)
      → ((r' : ℕ) → r' ≢ ldr → h' r' ≡ mid r')
      → Outside ldr ns
      → Freed ns h mid
      → Freed ns h h'
  later_heap ldr [] h mid h' same o f = tt
  later_heap ldr (n ∷ ns) h mid h' same o f =
      let e = same n.1 (λ q. o.0 (sym q)) in
      (
        (
          ap (λ c. c.leader) e ∙ f.0.0,
          ap (λ c. c.processed) e ∙ f.0.1,
          ap (λ c. c.group) e ∙ f.0.2,
        ),
        later_heap ldr ns h mid h' same o.1 f.1,
      )

  ends-Disbanded :
      (ldr : ℕ) (ns : List (Ck × ℕ)) (h : Heap dict.Carrier) (w : W) (hw hw' : World out)
      → Outside ldr ns
      → AllReleased ns h w hw
      → Released out ldr hw.0 hw.1 hw'
      → Disbanded ldr ns h w (ca_set_leader ldr none (end_group out ldr hw'.0), hw'.1)
  unfolding ca_set_leader end_group
  ends-Disbanded ldr ns h w hw hw' o all_ rel =
      let ended = put ldr (record (hw'.0 ldr) { group = none }) hw'.0 in
      let last = put ldr (record (ended ldr) { leader = none }) ended in
      let at_l : last ldr ≡ record (ended ldr) { leader = none } = put_same ldr _ ended in
      let at_e : ended ldr ≡ record (hw'.0 ldr) { group = none } = put_same ldr _ hw'.0 in
      let before : hw.0 ldr ≡ h ldr = all_.1 ldr o in
      let elsewhere : (r' : ℕ) → r' ≢ ldr → last r' ≡ hw.0 r' =
        (λ r' ne. put_other ldr _ ended r' ne ∙ put_other ldr _ hw'.0 r' ne ∙ rel.2 r' ne) in
      (
        later_heap ldr ns h hw.0 last elsewhere o all_.0,
        ap (λ c. c.leader) at_l,
        ap (λ c. c.group) at_l ∙ ap (λ c. c.group) at_e,
        ap (λ c. c.processed) at_l
            ∙ ap (λ c. c.processed) at_e
            ∙ rel.0
            ∙ ap (λ c. c.closed || c.processed) before,
        (λ r' ne out_. elsewhere r' ne ∙ all_.1 r' out_),
        Deliveries-append out (closed_of out ns h) (if_closed out ldr (h ldr)) w hw.1 hw'.1 all_.2
            (subst (λ c. Deliveries out (if_closed out ldr c) hw.1 hw'.1) before rel.3),
      )

  -- ca_disband of the leader of a group, whose members are different commands and not the leader
  -- itself: exactly the closed ones among the members and the leader are delivered, the members in the
  -- order of the hash and the leader last, and count as processed; afterwards the group does not exist,
  -- and neither the leader nor any member has a leader; no other command changes.
  pub ca_disband-Disbanded :
      (ldr : ℕ) (g : List (Ck × ℕ)) (h : Heap dict.Carrier) (w : W) (hw : World out)
      → (h ldr).group ≡ some g
      → Outside ldr (out.hash_scan g)
      → Distinct (out.hash_scan g)
      → ca_disband out ldr (h, w) ≡ ok hw
      → Disbanded ldr (out.hash_scan g) h w hw
  unfolding ca_disband members release
  ca_disband-Disbanded ldr g h w hw grp o d = rw grp (
      let ns = out.hash_scan g in
      Post-at (Disbanded ldr ns h w)
        (release_members out ns (h, w) >>= λ hw1. release out ldr hw1 >>= λ hw2.
          ok (ca_set_leader ldr none (end_group out ldr hw2.0), hw2.1))
        hw
        (Post-then _ (AllReleased ns h w) (release_members out ns (h, w)) _
          (release_members-AllReleased ns h w d)
          (λ hw1 all_.
            Post-then _ (Released out ldr hw1.0 hw1.1) (release out ldr hw1) _
              (release_if-Released out (hw1.0 ldr).closed ldr hw1.0 hw1.1 refl)
              (λ hw2 rel. ends-Disbanded ldr ns h w hw1 hw2 o all_ rel))))
