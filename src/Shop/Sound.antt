-- ===== src/Shop/Sound.antt =====
-- What is known of a build that is left after the comparison of a command's prerequisites.
use audited_objects.Prelude.{
  subst, sym, cut_string, [], ◌==◌, Bool-cases, ◌∷◌, List, ◌>>=◌, Outcome, ◌∙◌, ◌⊎◌, ◌≡◌, Post-imp,
  Bool, Bytes, Option, none, some, refl, inl, inr, true, false, ok, Post, Post-at, Post-then,
  Post_self,
}
use audited_objects.Ps.{Ps, ps_get_abs, ps_has_dcode}
use audited_objects.Ps.Csv.{ps_new_from_csv_string}
use audited_objects.Ps.Diff.{ps_diff}
use audited_objects.Shop.{PtxDict, shop_ptx_contains}
use audited_objects.Shop.Prereqs.{
  Env, first_record, Shopping, current_state, mismatch, dummy_read, invalidate_all, record_current,
  settle, shop_cmp_pathstate, mark_all, keys_of, cut_line, cmp_each, cmp_states, cmp_marked,
  cmp_line, cmp_lines, shop_compare_prereqs, command_key,
}
use audited_objects.Shop.Table.{names, empty-contains, invalidate_all-contains, mark_all-contains}
use audited_objects.Shop.Current.{
  When, when_true, Confirmed, Agrees, current_state-CurrentOf, mismatch-none,
}

-- What holds between the state at hand before and the one after.
abbrev pub Between : Type 1
Between = Option Ps → Option Ps → Type 0

module _ (env : Env) (dict : PtxDict) (k : Bytes) where
  -- The build `k` is there.
  abbrev Left : Shopping dict.Carrier → Type 0
  Left ss = shop_ptx_contains dict ss.ptx_dict k ≡ true

  -- From `ss` to `ss'`: if the build is left, it was there before, and `P` holds.
  abbrev Step : Shopping dict.Carrier → Between → Shopping dict.Carrier → Type 0
  Step ss P ss' = Left ss' → Left ss × P ss.current_ps ss'.current_ps

  abbrev Then : Between → Between → Between
  Then P Q before after = (mid : Option Ps) × P before mid × Q mid after

  Step-imp :
      (ss : Shopping dict.Carrier) (P Q : Between) (m : Outcome (Shopping dict.Carrier))
      → ((before after : Option Ps) → P before after → Q before after)
      → Post m (Step ss P)
      → Post m (Step ss Q)
  Step-imp ss P Q m f =
      Post-imp (Step ss P) (Step ss Q) m
        (λ ss' h left. let (there, p) = h left in (there, f ss.current_ps ss'.current_ps p))

  Step-then :
      (ss : Shopping dict.Carrier) (P Q : Between) (m : Outcome (Shopping dict.Carrier))
      (f : Shopping dict.Carrier → Outcome (Shopping dict.Carrier))
      → Post m (Step ss P)
      → ((ss' : Shopping dict.Carrier) → Post (f ss') (Step ss' Q))
      → Post (m >>= f) (Step ss (Then P Q))
  Step-then ss P Q m f h g = Post-then (Step ss (Then P Q)) (Step ss P) m f h (λ mid step.
      Post-imp (Step mid Q) (Step ss (Then P Q)) (f mid)
        (λ end_ more left.
          let (there, q) = more left in
          let (before, p) = step there in (before, (mid.current_ps, p, q)))
        (g mid))

  record_current-keeps :
      (current : Ps) (ss : Shopping dict.Carrier)
      → Post
          (record_current dict env current ss)
          (λ ss'. (ss'.ptx_dict ≡ ss.ptx_dict) × (ss'.current_ps ≡ ss.current_ps))
  unfolding record_current
  record_current-keeps current ss =
      let m = dummy_read env current in
      Post-then _ (λ pa. m ≡ ok pa) m _ (Post_self m) (λ pa e. (refl, refl))

  -- A mismatch that is not ignored leaves none of the builds of its line.
  abbrev Decided : Bool → Bool → List Bytes → Between
  Decided differs ignored ptxes before after =
      (after ≡ before) × When (names k ptxes) ((differs ≡ false) ⊎ (ignored ≡ true))

  settle-Step :
      (differs ignored : Bool) (ptxes : List Bytes) (current : Ps) (ss : Shopping dict.Carrier)
      → Post
          (settle dict env differs ignored ptxes current ss)
          (Step ss (Decided differs ignored ptxes))
  unfolding settle
  settle-Step false ignored ptxes current ss =
      Post-imp _ _ (record_current dict env current ss)
        (λ ss' h left. (
          subst (λ d. shop_ptx_contains dict d k ≡ true) h.0 left,
          (h.1, when_true (names k ptxes) _ (λ named. inl refl)),
        ))
        (record_current-keeps current ss)
  settle-Step true false ptxes current ss = λ left.
      let (before, only) = invalidate_all-contains dict ptxes ss.ptx_dict k false left in
      (before, (refl, when_true (names k ptxes) _ (λ named. absurd (cc (only named)))))
  settle-Step true true ptxes current ss =
      let ss' = record ss { ptx_dict = invalidate_all dict ptxes true ss.ptx_dict } in
      Post-imp _ _ (record_current dict env current ss')
        (λ end_ h left.
          let there = subst (λ d. shop_ptx_contains dict d k ≡ true) h.0 left in
          let (before, only) = invalidate_all-contains dict ptxes ss.ptx_dict k true there in
          (before, (h.1, when_true (names k ptxes) _ (λ named. inr refl))))
        (record_current-keeps current ss')

  shop_cmp_pathstate-Step :
      (ptxes : List Bytes) (key : Bytes) (ss : Shopping dict.Carrier)
      → Post (shop_cmp_pathstate dict env ptxes key ss) (Step ss (Agrees env (names k ptxes) key))
  unfolding shop_cmp_pathstate
  shop_cmp_pathstate-Step ptxes key ss =
      let find = first_record (env.records key) in
      Post-then _ (λ csv. find ≡ ok csv) find _ (Post_self find)
        (λ csv found.
          let parse = ps_new_from_csv_string env.base env.cwd (some csv) in
          Post-then _ (λ ps. parse ≡ ok ps) parse _ (Post_self parse)
            (λ shopped parsed.
              Post-then _ (λ path. ps_get_abs shopped ≡ ok path) (ps_get_abs shopped) _
                (Post_self (ps_get_abs shopped))
                (λ path has.
                  Post-then _ _ (current_state env path (ps_has_dcode shopped) ss.current_ps) _
                    (current_state-CurrentOf env path (ps_has_dcode shopped) ss.current_ps)
                    (λ r now.
                      Post-then _ _ (mismatch env r.0 shopped r.1) _
                        (mismatch-none env r.0 shopped r.1)
                        (λ differs same.
                          let at_hand = record ss { current_ps = some r.1 } in
                          Post-imp (Step at_hand (Decided differs (env.re_match path) ptxes)) _
                            (settle dict env differs (env.re_match path) ptxes r.1 at_hand)
                            (λ ss' h left.
                              let (there, (kept, decide)) = h left in
                              (
                                there,
                                (
                                  csv,
                                  shopped,
                                  path,
                                  r,
                                  found,
                                  parsed,
                                  has,
                                  now,
                                  kept,
                                  by_named (names k ptxes) path shopped r differs same decide,
                                ),
                              ))
                            (settle-Step differs (env.re_match path) ptxes r.1 at_hand))))))
    where
      by_named :
          (named : Bool) (path : Bytes) (shopped : Ps) (r : Bool × Ps) (differs : Bool)
          → (differs ≡ false → (r.0 ≡ false) × (ps_diff env.roundoff shopped r.1 ≡ ok none))
          → When named ((differs ≡ false) ⊎ (env.re_match path ≡ true))
          → When named (Confirmed env path shopped r)
      by_named false path shopped r differs same decide = tt
      by_named true path shopped r differs same (inl match) = inr (same match)
      by_named true path shopped r differs same (inr ignored) = inl ignored

  -- The comparisons of the keys of a list, one after the other.
  abbrev pub EachAgrees : Bool → List Bytes → Between
  EachAgrees named [] before after = after ≡ before
  EachAgrees named (key ∷ keys) before after =
      (mid : Option Ps) × Agrees env named key before mid × EachAgrees named keys mid after

  cmp_each-Step :
      (ptxes keys : List Bytes) (ss : Shopping dict.Carrier)
      → Post (cmp_each dict env ptxes keys ss) (Step ss (EachAgrees (names k ptxes) keys))
  unfolding cmp_each
  cmp_each-Step ptxes [] ss = λ left. (left, refl)
  cmp_each-Step ptxes (key ∷ keys) ss =
      Step-then ss (Agrees env (names k ptxes) key) (EachAgrees (names k ptxes) keys)
        (shop_cmp_pathstate dict env ptxes key ss) (cmp_each dict env ptxes keys)
        (shop_cmp_pathstate-Step ptxes key ss) (cmp_each-Step ptxes keys)

  -- The same of a list of path states, single keys and ranges.
  abbrev pub StatesAgree : Bool → List Bytes → Between
  StatesAgree named [] before after = after ≡ before
  StatesAgree named (pskey ∷ pskeys) before after =
      (keys : List Bytes) × (keys_of pskey ≡ ok keys)
      × ((mid : Option Ps) × EachAgrees named keys before mid × StatesAgree named pskeys mid after)

  cmp_states-Step :
      (ptxes pskeys : List Bytes) (ss : Shopping dict.Carrier)
      → Post (cmp_states dict env ptxes pskeys ss) (Step ss (StatesAgree (names k ptxes) pskeys))
  unfolding cmp_states
  cmp_states-Step ptxes [] ss = λ left. (left, refl)
  cmp_states-Step ptxes (pskey ∷ pskeys) ss = elim (Bool-cases (dict.count ss.ptx_dict == 0)) [
    | inl none_left ↦
        rw none_left (λ left. absurd (cc (left, empty-contains dict ss.ptx_dict k none_left)))
    | inr some_left ↦ rw some_left (
        Post-then _ (λ keys. keys_of pskey ≡ ok keys) (keys_of pskey) _ (Post_self (keys_of pskey))
          (λ keys e.
            let named = names k ptxes in
            let each = cmp_each dict env ptxes keys ss in
            Step-imp ss (Then (EachAgrees named keys) (StatesAgree named pskeys))
              (StatesAgree named (pskey ∷ pskeys)) (each >>= cmp_states dict env ptxes pskeys)
              (λ before after both. (keys, e, both))
              (Step-then ss (EachAgrees named keys) (StatesAgree named pskeys) each
                (cmp_states dict env ptxes pskeys) (cmp_each-Step ptxes keys ss)
                (cmp_states-Step ptxes pskeys))))
  ]

  -- A prerequisite line: the comparisons of all of its path states, or, if it does not name the build,
  -- perhaps nothing.
  abbrev pub LineAgrees : Bytes → Between
  LineAgrees line before after =
      (pskeys ptxes : List Bytes) × (cut_line (cut_string b',' line) ≡ ok (pskeys, ptxes))
      × (StatesAgree (names k ptxes) pskeys before after
          ⊎ ((names k ptxes ≡ false) × (after ≡ before)))

  cmp_marked-Step :
      (pskeys ptxes : List Bytes) (ss : Shopping dict.Carrier)
      → Post (cmp_marked dict env pskeys ptxes (mark_all dict ptxes ss.ptx_dict) ss) (
          Step ss (λ before after.
            StatesAgree (names k ptxes) pskeys before after
            ⊎ ((names k ptxes ≡ false) × (after ≡ before))))
  unfolding cmp_marked
  cmp_marked-Step pskeys ptxes ss =
      let (left, d) = mark_all dict ptxes ss.ptx_dict in
      let (same, some_left) = mark_all-contains dict ptxes ss.ptx_dict k in
      elim (Bool-cases left) [
        | inl more ↦ rw more (
            let ss' = record ss { ptx_dict = d } in
            Post-imp (Step ss' (StatesAgree (names k ptxes) pskeys)) _
              (cmp_states dict env ptxes pskeys ss')
              (λ end_ h there. let (before, p) = h there in (sym same ∙ before, inl p))
              (cmp_states-Step ptxes pskeys ss'))
        | inr over ↦ rw over (λ there. (
          there,
          elim (Bool-cases (names k ptxes)) [
            | inl named ↦ absurd (cc (over, some_left named there))
            | inr other ↦ inr (other, refl)
          ],
        ))
      ]

  cmp_line-Step :
      (line : Bytes) (ss : Shopping dict.Carrier)
      → Post (cmp_line dict env line ss) (Step ss (LineAgrees line))
  unfolding cmp_line
  cmp_line-Step line ss =
      let cut = cut_line (cut_string b',' line) in
      Post-then _ (λ r. cut ≡ ok r) cut _ (Post_self cut)
        (λ r e.
          Step-imp ss _ (LineAgrees line)
            (cmp_marked dict env r.0 r.1 (mark_all dict r.1 ss.ptx_dict) ss)
            (λ before after agree. (r.0, r.1, e, agree)) (cmp_marked-Step r.0 r.1 ss))

  -- All lines, one after the other.
  abbrev pub LinesAgree : List Bytes → Between
  LinesAgree [] before after = after ≡ before
  LinesAgree (line ∷ lines) before after =
      (mid : Option Ps) × LineAgrees line before mid × LinesAgree lines mid after

  cmp_lines-Step :
      (lines : List Bytes) (ss : Shopping dict.Carrier)
      → Post (cmp_lines dict env lines ss) (Step ss (LinesAgree lines))
  unfolding cmp_lines
  cmp_lines-Step [] ss = λ left. (left, refl)
  cmp_lines-Step (line ∷ lines) ss = elim (Bool-cases (dict.count ss.ptx_dict == 0)) [
    | inl none_left ↦
        rw none_left (λ left. absurd (cc (left, empty-contains dict ss.ptx_dict k none_left)))
    | inr some_left ↦ rw some_left (
        Step-then ss (LineAgrees line) (LinesAgree lines) (cmp_line dict env line ss)
          (cmp_lines dict env lines) (cmp_line-Step line ss) (cmp_lines-Step lines))
  ]

  -- A build that is left in the table after the comparison of a command's prerequisites was there
  -- before, and every line of these that names it is confirmed. The lines, and the path states of
  -- each, ranges included, were gone through in their order, where a line that does not name the build
  -- may be left out, each from the state at hand that the one before it left: that state is compared
  -- if it has the same path, and otherwise what ps_stat makes of a new one. Each path state of a line
  -- that names the build is that of an ignored path, or ps_stat did not fail for it and ps_diff finds
  -- no difference between it and the state that is compared.
  pub shop_compare_prereqs-LineAgrees :
      (cmdix : Bytes) (ss ss' : Shopping dict.Carrier)
      → shop_compare_prereqs dict env cmdix ss ≡ ok ss'
      → Left ss'
      → Left ss
        × ((last : Option Ps) × LinesAgree
              (env.records (command_key b'<' cmdix))
              ss.current_ps
              last)
  unfolding shop_compare_prereqs
  shop_compare_prereqs-LineAgrees cmdix ss ss' e =
      let lines = env.records (command_key b'<' cmdix) in
      let compare = cmp_lines dict env lines ss in
      let Goal : Shopping dict.Carrier → Type 0 =
        λ end_. Left end_ → Left ss × ((last : Option Ps) × LinesAgree lines ss.current_ps last) in
      Post-at Goal (compare >>= λ end_. ok (record end_ { current_ps = none })) ss'
        (Post-then Goal (Step ss (LinesAgree lines)) compare _ (cmp_lines-Step lines ss)
          (λ end_ h left. let (before, p) = h left in (before, (end_.current_ps, p))))
        e
