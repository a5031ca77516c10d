-- ===== src/Shop/Settle.antt =====
-- Which builds the comparison of one path state leaves.
use audited_objects.Prelude.{
  ap, ◌++◌, codes, none, not, some, Post-imp, ◌&&◌, arith, Option, ◌≡◌, Bool, List, Bytes, [], ◌∷◌,
  refl, true, false, ok, Post, Post-at, Post-then, Post_self,
}
use audited_objects.Ps.{Ps}
use audited_objects.Ps.Copy.{ps_copy}
use audited_objects.Pa.{Pa, pa_new}
use audited_objects.Shop.{PtxDict, shop_ptx_contains, shop_ptx_invalidate, invalidate_found}
use audited_objects.Shop.Prereqs.{Env, Shopping, dummy_read, invalidate_all, record_current, settle}
use audited_objects.Shop.Table.{names, invalidate_all-names}

module _ (env : Env) (dict : PtxDict) where
  invalidate_found_ignored :
      (d : dict.Carrier) (j : Bytes) (o : Option (Bytes × Bytes))
      → invalidate_found dict d j true o ≡ d
  unfolding invalidate_found
  invalidate_found_ignored d j none = refl
  invalidate_found_ignored d j (some n) = refl

  -- An ignored mismatch takes no build away.
  invalidate_all_ignored :
      (ixs : List Bytes) (d : dict.Carrier) → invalidate_all dict ixs true d ≡ d
  unfolding invalidate_all shop_ptx_invalidate
  invalidate_all_ignored [] d = refl
  invalidate_all_ignored (j ∷ js) d =
      rw (invalidate_found_ignored d j (dict.lookup d j), invalidate_all_ignored js d)
        (ground arith)

  -- A read of a state, by the call "dummy".
  abbrev pub read_of : Ps → Pa
  read_of ps = record pa_new { pa_ps = some ps; pa_op = b'R'; pa_call = some (codes "dummy") }

  -- The recorded actions before and after: nothing new, or one read of the state.
  abbrev pub Recorded : Bool → Ps → List Pa → List Pa → Type 0
  Recorded true current before after = after ≡ before
  Recorded false current before after =
      (copy : Ps) × (ps_copy env.base env.cwd current ≡ ok copy)
      × (after ≡ before ++ (read_of copy ∷ []))

  dummy_read-read_of :
      (current : Ps)
      → Post
          (dummy_read env current)
          (λ pa. (copy : Ps) × (ps_copy env.base env.cwd current ≡ ok copy) × (pa ≡ read_of copy))
  unfolding dummy_read
  dummy_read-read_of current =
      let m = ps_copy env.base env.cwd current in
      Post-then _ (λ ps. m ≡ ok ps) m _ (Post_self m) (λ ps e. (ps, e, refl))

  -- What one path state does to the table and to the recorded actions.
  abbrev pub Settled :
      Bool → Bool → List Bytes → Ps → Shopping dict.Carrier → Shopping dict.Carrier → Type 0
  Settled differs ignored ptxes current ss ss' =
      ((k : Bytes)
        → shop_ptx_contains dict ss'.ptx_dict k
          ≡ (shop_ptx_contains dict ss.ptx_dict k && not (differs && not ignored && names k ptxes)))
      × Recorded (differs && not ignored) current ss.recorded ss'.recorded

  record_current-Recorded :
      (current : Ps) (ss : Shopping dict.Carrier)
      → Post
          (record_current dict env current ss)
          (λ ss'. (ss'.ptx_dict ≡ ss.ptx_dict) × Recorded false current ss.recorded ss'.recorded)
  unfolding record_current
  record_current-Recorded current ss =
      Post-then _
        (λ pa. (copy : Ps) × (ps_copy env.base env.cwd current ≡ ok copy) × (pa ≡ read_of copy))
        (dummy_read env current) _ (dummy_read-read_of current)
        (λ pa h. (refl, (h.0, h.1, ap (λ x. ss.recorded ++ (x ∷ [])) h.2)))

  settle-Post :
      (differs ignored : Bool) (ptxes : List Bytes) (current : Ps) (ss : Shopping dict.Carrier)
      → Post
          (settle dict env differs ignored ptxes current ss)
          (Settled differs ignored ptxes current ss)
  unfolding settle
  settle-Post false ignored ptxes current ss =
      Post-imp _ _ (record_current dict env current ss)
        (λ ss' h. ((λ k. rw (h.0) (ground arith)), h.1)) (record_current-Recorded current ss)
  settle-Post true false ptxes current ss =
      ((λ k. invalidate_all-names dict ptxes ss.ptx_dict k), refl)
  settle-Post true true ptxes current ss =
      let ss' = record ss { ptx_dict = invalidate_all dict ptxes true ss.ptx_dict } in
      Post-imp _ _ (record_current dict env current ss')
        (λ end_ h. ((λ k. rw (h.0, invalidate_all_ignored ptxes ss.ptx_dict) (ground arith)), h.1))
        (record_current-Recorded current ss')

  -- One path state for the builds of its line: if it differs and its path is not ignored, exactly
  -- those builds go, and nothing is recorded. Otherwise all builds stay, and one action is recorded
  -- behind those before it: a read, by the call "dummy", of what ps_copy makes of the current state.
  pub settle-Settled :
      (differs ignored : Bool) (ptxes : List Bytes) (current : Ps) (ss ss' : Shopping dict.Carrier)
      → settle dict env differs ignored ptxes current ss ≡ ok ss'
      → Settled differs ignored ptxes current ss ss'
  settle-Settled differs ignored ptxes current ss ss' e =
      Post-at (Settled differs ignored ptxes current ss)
        (settle dict env differs ignored ptxes current ss) ss'
        (settle-Post differs ignored ptxes current ss) e
