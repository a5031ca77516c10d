-- ===== src/Ca/Merge.antt =====
-- ca_publish: what the leader of a group sends, and what becomes of the members.
use audited_objects.Prelude.{
  Post-at, Outcome, Post-imp, Post_self, Post-then, ◌∙◌, sym, Post, ap, ◌≡◌, ◌≢◌, ◌++◌, All, List,
  ℕ, [], ◌∷◌, some, none, ok, ◌>>=◌, true, refl,
}
use audited_objects.Pa.{Pa}
use audited_objects.Ca.Coalesce.{Dict, ca_coalesce}
use audited_objects.Ca.Key.{Ck}
use audited_objects.Ca.Group.{Cmd, Heap, ca_derive_pathcode}
use audited_objects.Ca.{Bytes, Option, Ca}
use audited_objects.Ca.Publish.{
  cooked_list, Outlet, World, coalesced, coalesce_at, with_pathcode, mon_process_ca, merge_members,
  members, end_group, ca_publish,
}
use audited_objects.Ca.Gather.{
  Outside, Distinct, put_same, put_other, gathered, Merged, merge_members-Merged,
}

module _ {dict : Dict} {W : Type 0} (out : Outlet dict W) where
  -- A command whose path code is set keeps its actions and its group.
  with_pathcode-same :
      (c : Cmd dict.Carrier)
      → Post
          (with_pathcode out c)
          (λ c'. (c'.cooked_pa ≡ c.cooked_pa) × (c'.raw_pa ≡ c.raw_pa) × (c'.group ≡ c.group))
  unfolding with_pathcode
  with_pathcode-same c = go (c.header.ca_recycled)
    where
      m : Outcome Ca
      m = ca_derive_pathcode out.crc32 (cooked_list out c.cooked_pa) c.header

      go :
          (o : Option Bytes)
          → Post
              (elim o [
                | some ptx ↦ ok c
                | none ↦ m >>= λ header. ok (record c { header = header })
              ])
              (λ c'. (c'.cooked_pa ≡ c.cooked_pa) × (c'.raw_pa ≡ c.raw_pa) × (c'.group ≡ c.group))
      go none = Post-then _ (λ x. m ≡ ok x) m _ (Post_self m) (λ x e. (refl, refl, refl))
      go (some ptx) = (refl, refl, refl)

  -- What ca_publish does after the loop, on a leader with these raw actions.
  abbrev Sent : ℕ → List Pa → Heap dict.Carrier → W → World out → Type 0
  Sent r pas h w (h', w') =
      (cooked : dict.Carrier) × (c : Cmd dict.Carrier) × (ca_coalesce dict out.roundoff out.base
          out.cwd (out.raw_order pas) dict.empty
        ≡ ok cooked)
      × (c.cooked_pa ≡ some cooked)
      × (c.raw_pa ≡ some [])
      × (c.group ≡ none)
      × (w' ≡ out.deliver r c w)
      × (h' r ≡ record c { processed = true })
      × ((r' : ℕ) → r' ≢ r → h' r' ≡ h r')

  coalesced-ok :
      (pas : List Pa) (raw : Option (List Pa)) (o : Option dict.Carrier)
      → raw ≡ some pas
      → Post (coalesced out raw o) (λ cooked.
        ca_coalesce dict out.roundoff out.base out.cwd (out.raw_order pas) dict.empty ≡ ok cooked)
  unfolding coalesced
  coalesced-ok pas raw (some d) e = tt
  coalesced-ok pas raw none e =
      rw e
        (Post_self (ca_coalesce dict out.roundoff out.base out.cwd (out.raw_order pas) dict.empty))

  coalesce_at-ok :
      (r : ℕ) (pas : List Pa) (h : Heap dict.Carrier)
      → (h r).raw_pa ≡ some pas
      → Post (coalesce_at out r h) (λ h'.
        (cooked : dict.Carrier) × (ca_coalesce dict out.roundoff out.base out.cwd
            (out.raw_order pas)
            dict.empty
          ≡ ok cooked)
        × (h' r ≡ record (h r) { raw_pa = some []; cooked_pa = some cooked })
        × ((r' : ℕ) → r' ≢ r → h' r' ≡ h r'))
  unfolding coalesce_at
  coalesce_at-ok r pas h e =
      Post-then _ _ (coalesced out (h r).raw_pa (h r).cooked_pa) _
        (coalesced-ok pas (h r).raw_pa (h r).cooked_pa e)
        (λ cooked done. (cooked, done, put_same r _ h, put_other r _ h))

  mon_process_ca-same :
      (r : ℕ) (h : Heap dict.Carrier) (w : W)
      → Post (mon_process_ca out r (h, w)) (λ hw.
        (c : Cmd dict.Carrier) × (c.cooked_pa ≡ (h r).cooked_pa)
        × (c.raw_pa ≡ (h r).raw_pa)
        × (c.group ≡ (h r).group)
        × (hw.1 ≡ out.deliver r c w)
        × (hw.0 r ≡ record c { processed = true })
        × ((r' : ℕ) → r' ≢ r → hw.0 r' ≡ h r'))
  unfolding mon_process_ca
  mon_process_ca-same r h w =
      Post-then _ _ (with_pathcode out (h r)) _ (with_pathcode-same (h r))
        (λ c same. (c, same.0, same.1, same.2, refl, put_same r _ h, put_other r _ h))

  publish-Sent :
      (r : ℕ) (pas : List Pa) (h : Heap dict.Carrier) (w : W)
      → (h r).raw_pa ≡ some pas
      → Post
          (coalesce_at out r (end_group out r h) >>= λ h'. mon_process_ca out r (h', w))
          (Sent r pas h w)
  unfolding end_group
  publish-Sent r pas h w e =
      let h0 = end_group out r h in
      let at_r : h0 r ≡ record (h r) { group = none } = put_same r _ h in
      Post-then _ _ (coalesce_at out r h0) _ (coalesce_at-ok r pas h0 (ap (λ c. c.raw_pa) at_r ∙ e))
        (λ h1 co.
          let (cooked, done, at1, else1) = co in
          Post-imp _ (Sent r pas h w) (mon_process_ca out r (h1, w))
            (λ hw pr.
              let (c, ck, rw_, gr, sent, at2, else2) = pr in
              (
                cooked,
                c,
                done,
                ck ∙ ap (λ x. x.cooked_pa) at1,
                rw_ ∙ ap (λ x. x.raw_pa) at1,
                gr ∙ ap (λ x. x.group) at1 ∙ ap (λ x. x.group) at_r,
                sent,
                at2,
                λ r' ne. else2 r' ne ∙ else1 r' ne ∙ put_other r _ h r' ne,
              ))
            (mon_process_ca-same r h1 w))

  -- Every member counts as processed, and has no raw actions.
  abbrev pub Emptied : List (Ck × ℕ) → Heap dict.Carrier → Type 0
  Emptied ns h = All (λ n. ((h n.1).processed ≡ true) × ((h n.1).raw_pa ≡ none)) ns

  still_Emptied :
      (r : ℕ) (ns : List (Ck × ℕ)) (h h' : Heap dict.Carrier)
      → Outside r ns
      → ((r' : ℕ) → r' ≢ r → h' r' ≡ h r')
      → Emptied ns h
      → Emptied ns h'
  still_Emptied r [] h h' o same done = tt
  still_Emptied r (n ∷ ns) h h' o same done =
      let e = same n.1 (λ q. o.0 (sym q)) in
      (
        (ap (λ c. c.processed) e ∙ done.0.0, ap (λ c. c.raw_pa) e ∙ done.0.1),
        still_Emptied r ns h h' o.1 same done.1,
      )

  -- What is delivered for a leader `r` with these raw actions and members, and what becomes of the
  -- commands.
  abbrev pub Published : ℕ → List Pa → List (Ck × ℕ) → Heap dict.Carrier → W → World out → Type 0
  Published r pas ns h w hw =
      (cooked : dict.Carrier) × (c : Cmd dict.Carrier) × (ca_coalesce dict out.roundoff out.base
          out.cwd (out.raw_order (pas ++ gathered out ns h)) dict.empty
        ≡ ok cooked)
      × (c.cooked_pa ≡ some cooked)
      × (c.raw_pa ≡ some [])
      × (c.group ≡ none)
      × (hw.1 ≡ out.deliver r c w)
      × (hw.0 r ≡ record c { processed = true })
      × Emptied ns hw.0
      × ((r' : ℕ) → r' ≢ r → Outside r' ns → hw.0 r' ≡ h r')

  publish-Published :
      (r : ℕ) (pas : List Pa) (ns : List (Ck × ℕ)) (h : Heap dict.Carrier) (w : W)
      → (h r).raw_pa ≡ some pas
      → Outside r ns
      → Distinct ns
      → Post
          (merge_members out r ns h >>= λ merged.
            coalesce_at out r (end_group out r merged) >>= λ h'. mon_process_ca out r (h', w))
          (Published r pas ns h w)
  publish-Published r pas ns h w raw o d =
      Post-then _ (Merged out r pas ns h) (merge_members out r ns h) _
        (merge_members-Merged out r pas ns h raw o d)
        (λ merged m.
          Post-imp (Sent r (pas ++ gathered out ns h) merged w) (Published r pas ns h w)
            (coalesce_at out r (end_group out r merged) >>= λ h'. mon_process_ca out r (h', w))
            (λ hw s.
              let (cooked, c, done, ck, rw_, gr, sent, at_r, elsewhere) = s in
              (
                cooked,
                c,
                done,
                ck,
                rw_,
                gr,
                sent,
                at_r,
                still_Emptied r ns merged hw.0 o elsewhere m.2,
                λ r' ne out_. elsewhere r' ne ∙ m.3 r' ne out_,
              ))
            (publish-Sent r (pas ++ gathered out ns h) merged w m.0))

  -- ca_publish of the leader of a group, whose members are different commands and not the leader
  -- itself: the leader is delivered with one set of cooked actions, the coalescing of its own raw
  -- actions and those of all members, one member after the other; the group ends; the leader and every
  -- member count as processed, and no member keeps a raw action; no other command changes.
  pub ca_publish-Published :
      (r : ℕ) (pas : List Pa) (g : List (Ck × ℕ)) (h : Heap dict.Carrier) (w : W) (hw : World out)
      → (h r).raw_pa ≡ some pas
      → (h r).group ≡ some g
      → Outside r (out.hash_scan g)
      → Distinct (out.hash_scan g)
      → ca_publish out r (h, w) ≡ ok hw
      → Published r pas (out.hash_scan g) h w hw
  unfolding ca_publish members
  ca_publish-Published r pas g h w hw raw grp o d = rw grp (
      Post-at (Published r pas (out.hash_scan g) h w)
        (merge_members out r (out.hash_scan g) h >>= λ merged.
          coalesce_at out r (end_group out r merged) >>= λ h'. mon_process_ca out r (h', w))
        hw (publish-Published r pas (out.hash_scan g) h w raw o d))
