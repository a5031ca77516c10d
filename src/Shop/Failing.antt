-- ===== src/Shop/Failing.antt =====
-- When shopping returns an error.
use audited_objects.Prelude.{
  Outcome, null, abort, sym, zero, ap, ◌∙◌, Post-imp, suc, ◌≢◌, ◌==◌, ℕ, ◌++◌, Bool-cases, Option,
  ◌≡◌, List, Bytes, Bool, [], ◌∷◌, refl, true, false, ok, ◌>>=◌, Post, Post-at, Post-then,
  Post_self, none, some, inl, inr,
}
use audited_objects.Prelude.Int.{ℤ, pos, negsuc}
use audited_objects.Ps.{csv_field_is_null}
use audited_objects.Pa.{Pa}
use audited_objects.Ca.{Ca}
use audited_objects.Ca.Newline.{take_tokens}
use audited_objects.Ca.Header.{ca_set_line, code_from_str}
use audited_objects.Shop.{
  PtxDict, ShopE, shop_err, shop_off, shop_nomatch, shop_nomatch_agg, shop_mustrun,
  shop_mustrun_agg, shop_recycled,
}
use audited_objects.Shop.Prereqs.{Env, first_record, Shopping, shop_compare_prereqs, command_key}
use audited_objects.Shop.Collected.{LinesTargets, lines_targets-LinesTargets}
use audited_objects.Shop.Targets.{lines_targets, shop_collect_targets}
use audited_objects.Shop.Command.{
  is_recycled, is_true, CmdState, cmd_state, Winner, Verdict, verdict_of, find_winner, no_winner,
  shop_for_state, shop_for_cmd, shop_loop, load_ptxes, shop_find_cmdline, set_shopped_line,
  the_line, processed, finish_shop, ptx_prefix, start_shopping, shop_in, shop,
}

-- SHOP_ERR and SHOP_OFF, with which the loop over the commands never ends.
unfoldable is_err : ShopE → Bool
is_err shop_err = true
is_err shop_off = true
is_err shop_nomatch = false
is_err shop_nomatch_agg = false
is_err shop_mustrun = false
is_err shop_mustrun_agg = false
is_err shop_recycled = false

abbrev is_off : ShopE → Bool
is_off shop_off = true
is_off shop_err = false
is_off shop_nomatch = false
is_off shop_nomatch_agg = false
is_off shop_mustrun = false
is_off shop_mustrun_agg = false
is_off shop_recycled = false

-- What holds of a value, and that a call returned it.
known {ℓ} :
    {A : Type 0} (P : A → Type ℓ) (m : Outcome A) → Post m P → Post m (λ a. (m ≡ ok a) × P a)
known P (ok a) h = (refl, h)
known P null h = tt
known P abort h = tt

module _ (dict : PtxDict) (env : Env) where
  abbrev Fine : Verdict dict.Carrier → Type 0
  Fine v = is_err v.rc ≡ false

  verdict_of-Fine :
      (aggregated : Bool) (cmdix : Bytes) (ss : Shopping dict.Carrier) (o : Option (Bytes × Bytes))
      → Fine (verdict_of dict aggregated cmdix ss o)
  unfolding verdict_of is_err
  verdict_of-Fine true cmdix ss none = refl
  verdict_of-Fine false cmdix ss none = refl
  verdict_of-Fine aggregated cmdix ss (some (wix, winner)) = refl

  compare-Fine :
      (aggregated : Bool) (cmdix : Bytes) (ss : Shopping dict.Carrier)
      → Post
          (shop_compare_prereqs dict env cmdix ss >>= λ ss'.
            ok (find_winner dict aggregated cmdix ss'))
          Fine
  unfolding find_winner
  compare-Fine aggregated cmdix ss =
      let m = shop_compare_prereqs dict env cmdix ss in
      Post-then _ (λ ss'. m ≡ ok ss') m _ (Post_self m)
        (λ ss' e. verdict_of-Fine aggregated cmdix ss' _)

  shop_for_state-Fine :
      (cmdix : Bytes) (cmd : CmdState) (ss : Shopping dict.Carrier)
      → Post (shop_for_state dict env cmdix cmd ss) Fine
  unfolding shop_for_state is_err no_winner
  shop_for_state-Fine cmdix cmd ss = elim (Bool-cases (is_true cmd.has_tgt)) [
    | inr idle ↦ rw idle (elim (Bool-cases (is_true cmd.agg)) [
      | inl agg ↦ rw agg refl
      | inr single ↦ rw single refl
    ])
    | inl active ↦ rw active (elim (Bool-cases (csv_field_is_null cmd.kids)) [
      | inr parent ↦ rw parent refl
      | inl leaf ↦ rw leaf (elim (Bool-cases (dict.count ss.ptx_dict == 0)) [
        | inl over ↦ rw over refl
        | inr more ↦ rw more (compare-Fine (is_true cmd.agg) cmdix ss)
      ])
    ])
  ]

  shop_for_cmd-Fine :
      (cmdix : Bytes) (ss : Shopping dict.Carrier) → Post (shop_for_cmd dict env cmdix ss) Fine
  unfolding shop_for_cmd
  shop_for_cmd-Fine cmdix ss =
      let find = first_record (env.records cmdix) in
      Post-then _ (λ text. find ≡ ok text) find _ (Post_self find)
        (λ text found.
          Post-then _ (λ cmd. cmd_state text ≡ ok cmd) (cmd_state text) _
            (Post_self (cmd_state text)) (λ cmd parsed. shop_for_state-Fine cmdix cmd ss))

  shop_loop-Fine :
      (cmdixs : List Bytes) (rc : ShopE) (ss : Shopping dict.Carrier)
      → is_err rc ≡ false
      → Post (shop_loop dict env cmdixs rc ss) Fine
  unfolding shop_loop no_winner
  shop_loop-Fine [] rc ss fine = fine
  shop_loop-Fine (cmdix ∷ cmdixs) rc ss fine =
      Post-then _ Fine (shop_for_cmd dict env cmdix ss) _ (shop_for_cmd-Fine cmdix ss) (λ v h.
        elim (Bool-cases (is_recycled v.rc)) [
          | inl done ↦ rw done h
          | inr more ↦ rw more (shop_loop-Fine cmdixs v.rc v.shopping h)
        ])

  -- The processing of what was recorded, and of the targets that the roadmap has for the winner,
  -- returns an error.
  abbrev Processing : (List Pa → ℤ) → List Pa → Winner → Type 0
  Processing process recorded w =
      (targets : List Pa) × LinesTargets env w.wix (env.records (command_key b'>' w.wincmd)) targets
      × (process (recorded ++ targets) ≢ pos 0)

  -- An error comes from this, and leaves the command that was shopped for as it was.
  abbrev FailsFor : (List Pa → ℤ) → List Pa → Option Winner → Ca → ShopE × Ca → Type 0
  FailsFor process recorded won shopped r =
      is_err r.0 ≡ true
      → (r.0 ≡ shop_err)
        × (r.1 ≡ shopped)
        × ((w : Winner) × (won ≡ some w) × Processing process recorded w)

  processed-FailsFor :
      (process : List Pa → ℤ) (w : Winner) (targets recorded : List Pa) (rc : ℤ) (ca : Ca)
      → LinesTargets env w.wix (env.records (command_key b'>' w.wincmd)) targets
      → process (recorded ++ targets) ≡ rc
      → FailsFor process recorded (some w) ca (processed rc w ca)
  unfolding processed is_err
  processed-FailsFor process w targets recorded (pos zero) ca e p = λ bad. absurd (cc bad)
  processed-FailsFor process w targets recorded (pos (suc n)) ca e p =
      λ bad. (refl, refl, (w, refl, (targets, e, λ z. absurd (cc (z, p)))))
  processed-FailsFor process w targets recorded (negsuc n) ca e p =
      λ bad. (refl, refl, (w, refl, (targets, e, λ z. absurd (cc (z, p)))))

  finish_shop-FailsFor :
      (process : List Pa → ℤ) (rc : ShopE) (recorded : List Pa) (ca : Ca) (won : Option Winner)
      → is_err rc ≡ false
      → Post (finish_shop env process rc recorded ca won) (FailsFor process recorded won ca)
  unfolding finish_shop shop_collect_targets
  finish_shop-FailsFor process rc recorded ca none fine = λ bad. absurd (cc (bad, fine))
  finish_shop-FailsFor process rc recorded ca (some w) fine =
      let lines = env.records (command_key b'>' w.wincmd) in
      Post-then _ (LinesTargets env w.wix lines) (lines_targets env w.wix lines) _
        (lines_targets-LinesTargets env w.wix lines)
        (λ targets e.
          processed-FailsFor process w targets recorded (process (recorded ++ targets)) ca e refl)

  set_shopped_line-ca_recycled :
      (crc32 : Bytes → ℕ) (records : List (Bytes × Bytes)) (cmdkey : Option Bytes) (ca : Ca)
      → Post
          (set_shopped_line crc32 records cmdkey ca)
          (λ shopped. shopped.ca_recycled ≡ ca.ca_recycled)
  unfolding set_shopped_line ca_set_line
  set_shopped_line-ca_recycled crc32 records none ca = refl
  set_shopped_line-ca_recycled crc32 records (some cmdkey) ca =
      by_line (shop_find_cmdline records cmdkey)
    where
      by_line :
          (o : Option Bytes)
          → Post
              (elim o as (λ x. Outcome Ca) [
                | none ↦ abort
                | some line ↦ ca_set_line crc32 (some line) ca
              ])
              (λ shopped. shopped.ca_recycled ≡ ca.ca_recycled)
      by_line none = tt
      by_line (some line) =
          let m = code_from_str crc32 (take_tokens line) in
          Post-then _ (λ code. m ≡ ok code) m _ (Post_self m) (λ code e. refl)

  -- What an error of shop comes from. `v` is what the loop over the commands of the line left.
  abbrev pub Failed :
      (List Pa → ℤ) → (Bytes → ℕ) → List (Bytes × Bytes) → Ca → Option Bytes → ShopE × Ca → Type 0
  Failed process crc32 records ca cmdkey r =
      (r.0 ≡ shop_err)
      × (set_shopped_line crc32 records cmdkey ca ≡ ok r.1)
      × (r.1.ca_recycled ≡ ca.ca_recycled)
      × ((d : dict.Carrier) × (line : Bytes) × (v : Verdict dict.Carrier) × (w : Winner)
          × (load_ptxes dict (env.records ptx_prefix) dict.create ≡ ok d)
          × (the_line r.1.ca_line ≡ ok line)
          × (shop_loop dict env (env.records line) shop_nomatch (start_shopping dict d) ≡ ok v)
          × (v.won ≡ some w)
          × Processing process v.shopping.recorded w)

  shop_in-Failed :
      (process : List Pa → ℤ) (crc32 : Bytes → ℕ) (records : List (Bytes × Bytes)) (ca : Ca)
      (cmdkey : Option Bytes)
      → Post
          (shop_in dict env process crc32 records ca cmdkey)
          (λ r. is_err r.0 ≡ true → Failed process crc32 records ca cmdkey r)
  unfolding shop_in is_err
  shop_in-Failed process crc32 records ca cmdkey =
      let load = load_ptxes dict (env.records ptx_prefix) dict.create in
      let set = set_shopped_line crc32 records cmdkey ca in
      Post-then _ (λ d. load ≡ ok d) load _ (Post_self load)
        (λ d loaded.
          Post-then _ (λ c. (set ≡ ok c) × (c.ca_recycled ≡ ca.ca_recycled)) set _
            (known (λ (c : Ca). c.ca_recycled ≡ ca.ca_recycled) set
              (set_shopped_line-ca_recycled crc32 records cmdkey ca))
            (λ shopped is_set.
              Post-then _ (λ l. the_line shopped.ca_line ≡ ok l) (the_line shopped.ca_line) _
                (Post_self (the_line shopped.ca_line))
                (λ line has.
                  let loop =
                    shop_loop dict env (env.records line) shop_nomatch (start_shopping dict d) in
                  Post-then _ (λ v. (loop ≡ ok v) × Fine v) loop _
                    (known Fine loop
                      (shop_loop-Fine (env.records line) shop_nomatch (start_shopping dict d) refl))
                    (λ v ran.
                      Post-imp (FailsFor process v.shopping.recorded v.won shopped) _
                        (finish_shop env process v.rc v.shopping.recorded shopped v.won)
                        (λ r h bad.
                          let (e, same, (w, won, from)) = h bad in
                          (
                            e,
                            is_set.0 ∙ ap ok (sym same),
                            ap (λ (c : Ca). c.ca_recycled) same ∙ is_set.1,
                            (
                              d,
                              line,
                              v,
                              w,
                              loaded,
                              ap (λ (c : Ca). the_line c.ca_line) same ∙ has,
                              ran.0,
                              won,
                              from,
                            ),
                          ))
                        (finish_shop-FailsFor process v.rc v.shopping.recorded shopped v.won
                          ran.1)))))

  -- With a roadmap, shop does not return SHOP_OFF. It returns SHOP_ERR only when the loop over the
  -- commands of the line found a winner, and the processing of the reads that were recorded and of the
  -- targets of the winner returned an error: one action around each state of each of the winning
  -- command's target lines that list the winning build, in their order. The command is then the one
  -- that was shopped for, and the build that it is recycled from is as before.
  pub shop-Failed :
      (process : List Pa → ℤ) (crc32 : Bytes → ℕ) (records : List (Bytes × Bytes)) (ca : Ca)
      (cmdkey : Option Bytes) (r : ShopE × Ca)
      → shop dict (some env) process crc32 records ca cmdkey ≡ ok r
      → (r.0 ≢ shop_off) × (r.0 ≡ shop_err → Failed process crc32 records ca cmdkey r)
  unfolding shop is_err
  shop-Failed process crc32 records ca cmdkey r e =
      let fails =
        Post-at (λ q. is_err q.0 ≡ true → Failed process crc32 records ca cmdkey q)
          (shop_in dict env process crc32 records ca cmdkey) r
          (shop_in-Failed process crc32 records ca cmdkey) e in
      (
        λ off. absurd (cc (ap is_off (sym off), ap is_off (fails (ap is_err off)).0)),
        λ err. fails (ap is_err err),
      )
