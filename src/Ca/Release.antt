-- ===== src/Ca/Release.antt =====
-- The release of one command of a group that is disbanded.
use audited_objects.Prelude.{
  subst, sym, Bool, ◌∙◌, Post-imp, ap, Post_self, Post-then, ◌≢◌, ◌||◌, Outcome, ◌++◌, ◌≡◌,
  if◌then◌else◌, Post, [], ◌∷◌, some, none, ok, ◌>>=◌, true, false, refl,
}
use audited_objects.Ca.{Bytes, Option, ℕ, List, Ca}
use audited_objects.Ca.Coalesce.{Dict}
use audited_objects.Ca.Key.{Ck}
use audited_objects.Ca.Group.{Cmd, Heap, ca_derive_pathcode}
use audited_objects.Ca.Publish.{
  Outlet, World, coalesced, coalesce_at, with_pathcode, mon_process_ca, cooked_list, release_if,
}
use audited_objects.Ca.Gather.{put_same, put_other}

module _ {dict : Dict} {W : Type 0} (out : Outlet dict W) where
  -- Commands are delivered one after the other.
  pub data Deliveries : List ℕ → W → W → Type 0 where
    nothing : {w : W} → Deliveries [] w w
    then_ :
        {r : ℕ} {rs : List ℕ} {w w' : W} (c : Cmd dict.Carrier)
        → Deliveries rs (out.deliver r c w) w'
        → Deliveries (r ∷ rs) w w'

  pub Deliveries-append :
      (rs rs' : List ℕ) (w w' w'' : W)
      → Deliveries rs w w'
      → Deliveries rs' w' w''
      → Deliveries (rs ++ rs') w w''
  Deliveries-append [] rs' w w' w'' nothing more = more
  Deliveries-append (r ∷ rs) rs' w w' w'' (then_ c d) more =
      then_ c (Deliveries-append rs rs' (out.deliver r c w) w' w'' d more)

  -- The command itself, if it is closed.
  abbrev pub if_closed : ℕ → Cmd dict.Carrier → List ℕ
  if_closed r c = if c.closed then r ∷ [] else []

  -- The closed commands among the members.
  abbrev pub closed_of : List (Ck × ℕ) → Heap dict.Carrier → List ℕ
  closed_of [] h = []
  closed_of (n ∷ ns) h = if_closed n.1 (h n.1) ++ closed_of ns h

  -- The path code is set in the header, and nothing else.
  with_pathcode-header :
      (c : Cmd dict.Carrier)
      → Post (with_pathcode out c) (λ c'. (header : Ca) × (c' ≡ record c { header = header }))
  unfolding with_pathcode
  with_pathcode-header c = go (c.header.ca_recycled)
    where
      m : Outcome Ca
      m = ca_derive_pathcode out.crc32 (cooked_list out c.cooked_pa) c.header

      go :
          (o : Option Bytes)
          → Post
              (elim o [
                | some ptx ↦ ok c
                | none ↦ m >>= λ header. ok (record c { header = header })
              ])
              (λ c'. (header : Ca) × (c' ≡ record c { header = header }))
      go none = Post-then _ (λ x. m ≡ ok x) m _ (Post_self m) (λ x e. (x, refl))
      go (some ptx) = (c.header, refl)

  -- A command that is released: what becomes of it, and what is delivered.
  abbrev pub Released : ℕ → Heap dict.Carrier → W → World out → Type 0
  Released r h w hw =
      ((hw.0 r).processed ≡ (h r).closed || (h r).processed)
      × ((hw.0 r).group ≡ (h r).group)
      × ((r' : ℕ) → r' ≢ r → hw.0 r' ≡ h r')
      × Deliveries (if_closed r (h r)) w hw.1

  coalesce_at-flags :
      (r : ℕ) (h : Heap dict.Carrier)
      → Post
          (coalesce_at out r h)
          (λ h'. ((h' r).group ≡ (h r).group) × ((r' : ℕ) → r' ≢ r → h' r' ≡ h r'))
  unfolding coalesce_at
  coalesce_at-flags r h =
      let m = coalesced out (h r).raw_pa (h r).cooked_pa in
      Post-then _ (λ x. m ≡ ok x) m _ (Post_self m)
        (λ x e. (ap (λ c. c.group) (put_same r _ h), put_other r _ h))

  mon_process_ca-flags :
      (r : ℕ) (h : Heap dict.Carrier) (w : W)
      → Post (mon_process_ca out r (h, w)) (λ hw.
        ((hw.0 r).processed ≡ true)
        × ((hw.0 r).group ≡ (h r).group)
        × ((r' : ℕ) → r' ≢ r → hw.0 r' ≡ h r')
        × Deliveries (r ∷ []) w hw.1)
  unfolding mon_process_ca
  mon_process_ca-flags r h w =
      Post-then _ _ (with_pathcode out (h r)) _ (with_pathcode-header (h r)) (λ c same. (
        ap (λ x. x.processed) (put_same r _ h),
        ap (λ x. x.group) (put_same r _ h) ∙ ap (λ x. x.group) same.1,
        put_other r _ h,
        then_ c nothing,
      ))

  pub release_if-Released :
      (b : Bool) (r : ℕ) (h : Heap dict.Carrier) (w : W)
      → (h r).closed ≡ b
      → Post (release_if out b r (h, w)) (Released r h w)
  unfolding release_if
  release_if-Released false r h w e = (
    ap (λ b. b || (h r).processed) (sym e),
    refl,
    (λ r' ne. refl),
    subst (λ b. Deliveries (if b then r ∷ [] else []) w w) (sym e) nothing,
  )
  release_if-Released true r h w e =
      Post-then _ _ (coalesce_at out r h) _ (coalesce_at-flags r h) (λ h1 co.
        Post-imp _ (Released r h w) (mon_process_ca out r (h1, w))
          (λ hw pr. (
            pr.0 ∙ ap (λ b. b || (h r).processed) (sym e),
            pr.1 ∙ co.0,
            (λ r' ne. pr.2 r' ne ∙ co.1 r' ne),
            subst (λ b. Deliveries (if b then r ∷ [] else []) w hw.1) (sym e) pr.3,
          ))
          (mon_process_ca-flags r h1 w))
