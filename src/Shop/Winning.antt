-- ===== src/Shop/Winning.antt =====
-- What holds of the build that a command is recycled from.
use audited_objects.Prelude.{
  ◌∙◌, zero, ℕ, ◌++◌, suc, Post-imp, Memᴰ, ap, Option, Bool-cases, ◌≡◌, Bytes, List, [], ◌∷◌, none,
  some, refl, inl, inr, false, ok, Post, Post-then, Post_self, Post-at,
}
use audited_objects.Ps.{set_str}
use audited_objects.Pa.{Pa}
use audited_objects.Ca.{Ca}
use audited_objects.Prelude.Int.{ℤ, pos, negsuc}
use audited_objects.Shop.{PtxDict, ShopE, is_some, shop_recycled, shop_nomatch}
use audited_objects.Shop.Prereqs.{Env, Shopping}
use audited_objects.Shop.Targets.{shop_collect_targets}
use audited_objects.Shop.Command.{
  is_recycled, Winner, Verdict, shop_for_cmd, shop_loop, load_ptxes, set_shopped_line, the_line,
  processed, finish_shop, ptx_prefix, start_shopping, shop_in, shop,
}
use audited_objects.Shop.Entries.{Traced}
use audited_objects.Shop.Judged.{Found, Entry, Wins, NamedIn, Judged, shop_for_cmd-Judged}

module _ (dict : PtxDict) (env : Env) where
  -- A prerequisite line of one of the commands names the build.
  abbrev pub NamedAmong : List Bytes → Bytes → Type 0
  NamedAmong cmdixs key = (cmdix : Bytes) × Memᴰ cmdix cmdixs × NamedIn dict env cmdix key

  -- The winner is one of the commands.
  abbrev pub WinsAmong : dict.Carrier → List Bytes → Winner → Type 0
  WinsAmong d cmdixs w =
      (cmdix : Bytes) × Memᴰ cmdix cmdixs × Wins dict env d (NamedAmong cmdixs) cmdix w

  -- What the loop over the commands of a line leaves.
  abbrev LoopJudged : Shopping dict.Carrier → List Bytes → Verdict dict.Carrier → Type 0
  LoopJudged ss cmdixs v =
      Found v.won (WinsAmong ss.ptx_dict cmdixs) × (is_recycled v.rc ≡ is_some v.won)

  Wins-imp :
      (d d' : dict.Carrier) (N N' : Bytes → Type 0) (cmdix : Bytes) (w : Winner)
      → ((key id : Bytes) → Entry dict env d' N' key id → Entry dict env d N key id)
      → Wins dict env d' N' cmdix w
      → Wins dict env d N cmdix w
  Wins-imp d d' N N' cmdix w f (key, id, entry, seen, e, e', e'', fit, agree) =
      (key, id, f key id entry, seen, e, e', e'', fit, agree)

  later_loop :
      (ss mid : Shopping dict.Carrier) (cmdix : Bytes) (cmdixs : List Bytes)
      (v : Verdict dict.Carrier)
      → ((k : Bytes) → Traced dict k (NamedIn dict env cmdix k) ss.ptx_dict mid.ptx_dict)
      → LoopJudged mid cmdixs v
      → LoopJudged ss (cmdix ∷ cmdixs) v
  later_loop ss mid cmdix cmdixs v traced (h, e) = (go (v.won) h, e)
    where
      earlier :
          (key id : Bytes)
          → Entry dict env mid.ptx_dict (NamedAmong cmdixs) key id
          → Entry dict env ss.ptx_dict (NamedAmong (cmdix ∷ cmdixs)) key id
      earlier key id (key₁, there, why₁) =
          let (key₀, before, why₀) = traced key key₁ id there in
          (
            key₀,
            before,
            elim why₁ [
              | inr (c, m, n) ↦ inr (c, Memᴰ.tail m, n)
              | inl same₁ ↦ elim why₀ [
                | inr n ↦ inr (cmdix, Memᴰ.head refl, n)
                | inl same₀ ↦ inl (same₀ ∙ same₁)
              ]
            ],
          )

      go :
          (o : Option Winner)
          → Found o (WinsAmong mid.ptx_dict cmdixs)
          → Found o (WinsAmong ss.ptx_dict (cmdix ∷ cmdixs))
      go none h = tt
      go (some w) (c, m, wins) =
          (c, Memᴰ.tail m, Wins-imp ss.ptx_dict mid.ptx_dict _ _ c w earlier wins)

  winning_loop :
      (ss : Shopping dict.Carrier) (cmdix : Bytes) (cmdixs : List Bytes) (v : Verdict dict.Carrier)
      → Judged dict env ss cmdix v
      → LoopJudged ss (cmdix ∷ cmdixs) v
  winning_loop ss cmdix cmdixs v (now, f, h, e) = (go (v.won) h, e)
    where
      among :
          (key id : Bytes)
          → Entry dict env ss.ptx_dict (NamedIn dict env cmdix) key id
          → Entry dict env ss.ptx_dict (NamedAmong (cmdix ∷ cmdixs)) key id
      among key id (key₀, before, why) =
          (key₀, before, elim why [ inl same ↦ inl same | inr n ↦ inr (cmdix, Memᴰ.head refl, n) ])

      go :
          (o : Option Winner)
          → Found o (Wins dict env ss.ptx_dict (NamedIn dict env cmdix) cmdix)
          → Found o (WinsAmong ss.ptx_dict (cmdix ∷ cmdixs))
      go none h = tt
      go (some w) wins =
          (cmdix, Memᴰ.head refl, Wins-imp ss.ptx_dict ss.ptx_dict _ _ cmdix w among wins)

  shop_loop-LoopJudged :
      (cmdixs : List Bytes) (rc : ShopE) (ss : Shopping dict.Carrier)
      → ss.current_ps ≡ none
      → is_recycled rc ≡ false
      → Post (shop_loop dict env cmdixs rc ss) (LoopJudged ss cmdixs)
  unfolding shop_loop is_some
  shop_loop-LoopJudged [] rc ss now other = (tt, other)
  shop_loop-LoopJudged (cmdix ∷ cmdixs) rc ss now other =
      let m = shop_for_cmd dict env cmdix ss in
      Post-then _ (Judged dict env ss cmdix) m _ (shop_for_cmd-Judged dict env cmdix ss now) (λ v h.
        elim (Bool-cases (is_recycled v.rc)) [
          | inl done ↦ rw done (winning_loop ss cmdix cmdixs v h)
          | inr more ↦ rw more (
              Post-imp (LoopJudged v.shopping cmdixs) _ (shop_loop dict env cmdixs v.rc v.shopping)
                (λ end_. later_loop ss v.shopping cmdix cmdixs end_ h.1)
                (shop_loop-LoopJudged cmdixs v.rc v.shopping h.0 more))
        ])

  -- The winner that a command is recycled from.
  abbrev Recycled : (Winner → Type 0) → ShopE × Ca → Type 0
  Recycled Q r =
      r.0 ≡ shop_recycled → (w : Winner) × Q w × (r.1.ca_recycled ≡ set_str (some w.winner))

  processed-Recycled :
      (Q : Winner → Type 0) (rc : ℤ) (w : Winner) (ca : Ca) → Q w → Recycled Q (processed rc w ca)
  unfolding processed is_recycled
  processed-Recycled Q (pos zero) w ca q e = (w, q, refl)
  processed-Recycled Q (pos (suc n)) w ca q e = absurd (cc (ap is_recycled e))
  processed-Recycled Q (negsuc n) w ca q e = absurd (cc (ap is_recycled e))

  finish_shop-Recycled :
      (Q : Winner → Type 0) (process : List Pa → ℤ) (rc : ShopE) (recorded : List Pa) (ca : Ca)
      (won : Option Winner)
      → Found won Q
      → is_recycled rc ≡ is_some won
      → Post (finish_shop env process rc recorded ca won) (Recycled Q)
  unfolding finish_shop is_recycled is_some
  finish_shop-Recycled Q process rc recorded ca none q same =
      λ e. absurd (cc (same, ap is_recycled e))
  finish_shop-Recycled Q process rc recorded ca (some w) q same =
      let m = shop_collect_targets env w.wix w.wincmd in
      Post-then _ (λ t. m ≡ ok t) m _ (Post_self m)
        (λ targets e. processed-Recycled Q (process (recorded ++ targets)) w ca q)

  -- The table that shop starts with, the command that it shops for, and a record of its line that
  -- has a winner.
  abbrev pub RecycledFrom :
      (Bytes → ℕ) → List (Bytes × Bytes) → Ca → Option Bytes → Option Bytes → Type 0
  RecycledFrom crc32 records ca cmdkey recycled =
      (d : dict.Carrier) × (shopped : Ca) × (line : Bytes) × (w : Winner) × (load_ptxes dict
          (env.records ptx_prefix) dict.create
        ≡ ok d)
      × (set_shopped_line crc32 records cmdkey ca ≡ ok shopped)
      × (the_line shopped.ca_line ≡ ok line)
      × WinsAmong d (env.records line) w
      × (recycled ≡ set_str (some w.winner))

  shop_in-RecycledFrom :
      (process : List Pa → ℤ) (crc32 : Bytes → ℕ) (records : List (Bytes × Bytes)) (ca : Ca)
      (cmdkey : Option Bytes)
      → Post
          (shop_in dict env process crc32 records ca cmdkey)
          (λ r. r.0 ≡ shop_recycled → RecycledFrom crc32 records ca cmdkey r.1.ca_recycled)
  unfolding shop_in is_recycled
  shop_in-RecycledFrom process crc32 records ca cmdkey =
      let load = load_ptxes dict (env.records ptx_prefix) dict.create in
      let set = set_shopped_line crc32 records cmdkey ca in
      Post-then _ (λ d. load ≡ ok d) load _ (Post_self load)
        (λ d loaded.
          Post-then _ (λ c. set ≡ ok c) set _ (Post_self set)
            (λ shopped is_set.
              Post-then _ (λ l. the_line shopped.ca_line ≡ ok l) (the_line shopped.ca_line) _
                (Post_self (the_line shopped.ca_line))
                (λ line has.
                  let cmdixs = env.records line in
                  let loop = shop_loop dict env cmdixs shop_nomatch (start_shopping dict d) in
                  Post-then _ (LoopJudged (start_shopping dict d) cmdixs) loop _
                    (shop_loop-LoopJudged cmdixs shop_nomatch (start_shopping dict d) refl refl)
                    (λ v judged.
                      Post-imp (Recycled (WinsAmong d cmdixs)) _
                        (finish_shop env process v.rc v.shopping.recorded shopped v.won)
                        (λ r h e.
                          let (w, wins, same) = h e in
                          (d, shopped, line, w, loaded, is_set, has, wins, same))
                        (finish_shop-Recycled _ process v.rc v.shopping.recorded shopped v.won
                          judged.0 judged.1)))))

  -- shop returns SHOP_RECYCLED only for a command that the roadmap has for the line, that has targets
  -- and no children, and for a build whose entry in the table of the roadmap has the id that the
  -- command is recycled from, cut at 31 bytes. The key of the build is marked as seen: it was so in the
  -- roadmap, or a prerequisite line of one of the line's commands names the build. Each
  -- path state of each of the command's prerequisite lines that name the build is that of an ignored
  -- path, or ps_stat did not fail for it and ps_diff finds no difference to the state that is compared:
  -- that of the comparison before, from none at first, if it has the same path, otherwise a new one.
  pub shop-RecycledFrom :
      (process : List Pa → ℤ) (crc32 : Bytes → ℕ) (records : List (Bytes × Bytes)) (ca ca' : Ca)
      (cmdkey : Option Bytes)
      → shop dict (some env) process crc32 records ca cmdkey ≡ ok (shop_recycled, ca')
      → RecycledFrom crc32 records ca cmdkey ca'.ca_recycled
  unfolding shop
  shop-RecycledFrom process crc32 records ca ca' cmdkey e =
      Post-at (λ r. r.0 ≡ shop_recycled → RecycledFrom crc32 records ca cmdkey r.1.ca_recycled)
        (shop_in dict env process crc32 records ca cmdkey) (shop_recycled, ca')
        (shop_in-RecycledFrom process crc32 records ca cmdkey) e refl
