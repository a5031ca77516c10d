-- ===== src/Shop/Entries.antt =====
-- Where the entries of the PTX table come from in the comparison of a command's prerequisites: an id is
-- never changed, and the first letter of a key only for a build that a line names.
use audited_objects.Prelude.{
  ℕ, subst, Outcome, Memᴰ, is_upper, to_lower, cut_string, [], ◌==◌, ◌||◌, Bool-cases, ◌∷◌, List,
  ◌>>=◌, ◌∙◌, ◌⊎◌, ◌≡◌, Post-imp, Bool, Bytes, Option, none, some, refl, sym, inl, inr, true, false,
  ok, Post, Post-then, Post_self, same_text, arith,
}
use audited_objects.Ps.{Ps, ps_get_abs, ps_has_dcode}
use audited_objects.Ps.Csv.{ps_new_from_csv_string}
use audited_objects.Shop.{
  PtxDict, put_first, shop_ptx_contains, mark_node, mark_found, shop_ptx_mark_as_seen,
  invalidate_found, shop_ptx_invalidate,
}
use audited_objects.Shop.Prereqs.{
  Env, first_record, Shopping, current_state, mismatch, dummy_read, invalidate_all, record_current,
  settle, shop_cmp_pathstate, mark_all, keys_of, cut_line, cmp_each, cmp_states, cmp_marked,
  cmp_line, cmp_lines, shop_compare_prereqs, command_key,
}
use audited_objects.Shop.Table.{names, same_text-lower}

module _ (dict : PtxDict) (k : Bytes) where
  -- The entry for `k` after was the one before.
  abbrev Kept : dict.Carrier → dict.Carrier → Type 0
  Kept d d' =
      (key id : Bytes) → dict.lookup d' k ≡ some (key, id) → dict.lookup d k ≡ some (key, id)

  -- The id of the entry for `k` was that before, and so was its key, unless `P`.
  abbrev pub Traced : Type 0 → dict.Carrier → dict.Carrier → Type 0
  Traced P d d' =
      (key id : Bytes)
      → dict.lookup d' k ≡ some (key, id)
      → (key₀ : Bytes) × (dict.lookup d k ≡ some (key₀, id)) × ((key₀ ≡ key) ⊎ P)

  pub Traced-imp : (P Q : Type 0) (d d' : dict.Carrier) → (P → Q) → Traced P d d' → Traced Q d d'
  Traced-imp P Q d d' f h key id e =
      let (key₀, before, why) = h key id e in
      (key₀, before, elim why [ inl same ↦ inl same | inr p ↦ inr (f p) ])

  pub Traced-then :
      (P : Type 0) (d mid d' : dict.Carrier) → Traced P d mid → Traced P mid d' → Traced P d d'
  Traced-then P d mid d' h g key id e =
      let (key₁, there, why₁) = g key id e in
      let (key₀, before, why₀) = h key₁ id there in
      (
        key₀,
        before,
        elim why₁ [
          | inr p ↦ inr p
          | inl same₁ ↦ elim why₀ [ inr p ↦ inr p | inl same₀ ↦ inl (same₀ ∙ same₁) ]
        ],
      )

  invalidate_found-Kept :
      (d : dict.Carrier) (j : Bytes) (ignored : Bool) (o : Option (Bytes × Bytes))
      → Kept d (invalidate_found dict d j ignored o)
  unfolding invalidate_found
  invalidate_found-Kept d j ignored none = λ key id e. e
  invalidate_found-Kept d j true (some n) = λ key id e. e
  invalidate_found-Kept d j false (some n) = λ key id e. elim (Bool-cases (same_text j k)) [
    | inl same ↦
        let gone : dict.lookup (dict.delete d j) k ≡ none =
          sym (dict.lookup_same (dict.delete d j) j k same) ∙ dict.lookup-delete_same d j in
        absurd (cc (gone, e))
    | inr other ↦ sym (dict.lookup-delete_other d j k other) ∙ e
  ]

  invalidate_all-Kept :
      (ixs : List Bytes) (ignored : Bool) (d : dict.Carrier)
      → Kept d (invalidate_all dict ixs ignored d)
  unfolding invalidate_all shop_ptx_invalidate
  invalidate_all-Kept [] ignored d = λ key id e. e
  invalidate_all-Kept (j ∷ js) ignored d = elim (Bool-cases (dict.count d == 0)) [
    | inl over ↦ rw over (λ key id e. e)
    | inr more ↦ rw more (λ key id e.
        invalidate_found-Kept d j ignored (dict.lookup d j) key id
          (invalidate_all-Kept js ignored (shop_ptx_invalidate dict d j ignored) key id e))
  ]

  set_first-Traced :
      (d : dict.Carrier) (j : Bytes) (c : ℕ) (key₀ id₀ : Bytes)
      → dict.lookup d j ≡ some (key₀, id₀)
      → same_text key₀ (put_first c key₀) ≡ true
      → Traced (same_text j k ≡ true) d (dict.set_first d j c)
  set_first-Traced d j c key₀ id₀ found h key id e = elim (Bool-cases (same_text j k)) [
    | inl same ↦
        let new : dict.lookup (dict.set_first d j c) k ≡ some (put_first c key₀, id₀) =
          sym (dict.lookup_same (dict.set_first d j c) j k same)
          ∙ dict.lookup-set_first_same d j c key₀ id₀ found h in
        let ids : some (put_first c key₀, id₀) ≡ some (key, id) = sym new ∙ e in
        let one : id₀ ≡ id = cc ids in
        (
          key₀,
          sym (dict.lookup_same d j k same)
              ∙ subst (λ x. dict.lookup d j ≡ some (key₀, x)) one found,
          inr same,
        )
    | inr other ↦
        (key, sym (dict.lookup-set_first_other d j k c key₀ id₀ found h other) ∙ e, inl refl)
  ]

  mark_found-Traced :
      (d : dict.Carrier) (j : Bytes) (o : Option (Bytes × Bytes))
      → dict.lookup d j ≡ o
      → Traced (same_text j k ≡ true) d (mark_found dict d j o)
  unfolding mark_found mark_node put_first
  mark_found-Traced d j none found = λ key id e. (key, e, inl refl)
  mark_found-Traced d j (some ([], id₀)) found = λ key id e. (key, e, inl refl)
  mark_found-Traced d j (some (c ∷ s, id₀)) found = elim (Bool-cases (is_upper c)) [
    | inl up ↦ rw up (set_first-Traced d j (to_lower c) (c ∷ s) id₀ found (same_text-lower c s))
    | inr not_up ↦ rw not_up (λ key id e. (key, e, inl refl))
  ]

  mark_all-Traced :
      (ixs : List Bytes) (d : dict.Carrier) → Traced (names k ixs ≡ true) d (mark_all dict ixs d).1
  unfolding mark_all names shop_ptx_mark_as_seen
  mark_all-Traced [] d = λ key id e. (key, e, inl refl)
  mark_all-Traced (j ∷ js) d =
      let Named = (same_text j k || names k js) ≡ true in
      elim (Bool-cases (shop_ptx_contains dict d j)) [
        | inl here ↦ rw here (
            let d₁ = mark_found dict d j (dict.lookup d j) in
            Traced-then Named d d₁ (mark_all dict js d₁).1
              (Traced-imp _ Named d d₁ (λ same. ground (arith, same))
                (mark_found-Traced d j (dict.lookup d j) refl))
              (Traced-imp _ Named d₁ (mark_all dict js d₁).1 (λ named. ground (arith, named))
                (mark_all-Traced js d₁)))
        | inr gone ↦ rw gone (
            Traced-imp _ Named d (mark_all dict js d).1 (λ named. ground (arith, named))
              (mark_all-Traced js d))
      ]

  module _ (env : Env) where
    abbrev Keeps : Shopping dict.Carrier → Shopping dict.Carrier → Type 0
    Keeps ss ss' = Kept ss.ptx_dict ss'.ptx_dict

    Keeps-then :
        (ss : Shopping dict.Carrier) (m : Outcome (Shopping dict.Carrier))
        (f : Shopping dict.Carrier → Outcome (Shopping dict.Carrier))
        → Post m (Keeps ss)
        → ((mid : Shopping dict.Carrier) → Post (f mid) (Keeps mid))
        → Post (m >>= f) (Keeps ss)
    Keeps-then ss m f h g = Post-then _ (Keeps ss) m f h (λ mid first.
        Post-imp (Keeps mid) _ (f mid) (λ end_ second key id e. first key id (second key id e))
          (g mid))

    record_current-Keeps :
        (current : Ps) (ss : Shopping dict.Carrier)
        → Post (record_current dict env current ss) (Keeps ss)
    unfolding record_current
    record_current-Keeps current ss =
        let m = dummy_read env current in
        Post-then _ (λ pa. m ≡ ok pa) m _ (Post_self m) (λ pa found key id e. e)

    settle-Keeps :
        (differs ignored : Bool) (ptxes : List Bytes) (current : Ps) (ss : Shopping dict.Carrier)
        → Post (settle dict env differs ignored ptxes current ss) (Keeps ss)
    unfolding settle
    settle-Keeps false ignored ptxes current ss = record_current-Keeps current ss
    settle-Keeps true false ptxes current ss = invalidate_all-Kept ptxes false ss.ptx_dict
    settle-Keeps true true ptxes current ss =
        let ss' = record ss { ptx_dict = invalidate_all dict ptxes true ss.ptx_dict } in
        Post-imp (Keeps ss') _ (record_current dict env current ss')
          (λ end_ h key id e. invalidate_all-Kept ptxes true ss.ptx_dict key id (h key id e))
          (record_current-Keeps current ss')

    shop_cmp_pathstate-Keeps :
        (ptxes : List Bytes) (pskey : Bytes) (ss : Shopping dict.Carrier)
        → Post (shop_cmp_pathstate dict env ptxes pskey ss) (Keeps ss)
    unfolding shop_cmp_pathstate
    shop_cmp_pathstate-Keeps ptxes pskey ss =
        let find = first_record (env.records pskey) in
        Post-then _ (λ csv. find ≡ ok csv) find _ (Post_self find)
          (λ csv found.
            let parse = ps_new_from_csv_string env.base env.cwd (some csv) in
            Post-then _ (λ ps. parse ≡ ok ps) parse _ (Post_self parse)
              (λ shopped parsed.
                let get = ps_get_abs shopped in
                Post-then _ (λ path. get ≡ ok path) get _ (Post_self get)
                  (λ path has.
                    let now = current_state env path (ps_has_dcode shopped) ss.current_ps in
                    Post-then _ (λ r. now ≡ ok r) now _ (Post_self now)
                      (λ r is_now.
                        let test = mismatch env r.0 shopped r.1 in
                        Post-then _ (λ b. test ≡ ok b) test _ (Post_self test)
                          (λ differs tested.
                            settle-Keeps differs (env.re_match path) ptxes r.1
                              (record ss { current_ps = some r.1 }))))))

    cmp_each-Keeps :
        (ptxes keys : List Bytes) (ss : Shopping dict.Carrier)
        → Post (cmp_each dict env ptxes keys ss) (Keeps ss)
    unfolding cmp_each
    cmp_each-Keeps ptxes [] ss = λ key id e. e
    cmp_each-Keeps ptxes (pskey ∷ keys) ss =
        Keeps-then ss (shop_cmp_pathstate dict env ptxes pskey ss) (cmp_each dict env ptxes keys)
          (shop_cmp_pathstate-Keeps ptxes pskey ss) (cmp_each-Keeps ptxes keys)

    cmp_states-Keeps :
        (ptxes pskeys : List Bytes) (ss : Shopping dict.Carrier)
        → Post (cmp_states dict env ptxes pskeys ss) (Keeps ss)
    unfolding cmp_states
    cmp_states-Keeps ptxes [] ss = λ key id e. e
    cmp_states-Keeps ptxes (pskey ∷ pskeys) ss = elim (Bool-cases (dict.count ss.ptx_dict == 0)) [
      | inl over ↦ rw over (λ key id e. e)
      | inr more ↦ rw more (
          Post-then _ (λ keys. keys_of pskey ≡ ok keys) (keys_of pskey) _
            (Post_self (keys_of pskey))
            (λ keys found.
              Keeps-then ss (cmp_each dict env ptxes keys ss) (cmp_states dict env ptxes pskeys)
                (cmp_each-Keeps ptxes keys ss) (cmp_states-Keeps ptxes pskeys)))
    ]

    -- The line names the build.
    abbrev pub NamedBy : Bytes → Type 0
    NamedBy line =
        (pskeys ptxes : List Bytes) × (cut_line (cut_string b',' line) ≡ ok (pskeys, ptxes))
        × (names k ptxes ≡ true)

    abbrev Traces : Type 0 → Shopping dict.Carrier → Shopping dict.Carrier → Type 0
    Traces P ss ss' = Traced P ss.ptx_dict ss'.ptx_dict

    cmp_marked-Traces :
        (pskeys ptxes : List Bytes) (ss : Shopping dict.Carrier)
        → Post
            (cmp_marked dict env pskeys ptxes (mark_all dict ptxes ss.ptx_dict) ss)
            (Traces (names k ptxes ≡ true) ss)
    unfolding cmp_marked
    cmp_marked-Traces pskeys ptxes ss =
        let (left, d) = mark_all dict ptxes ss.ptx_dict in
        elim (Bool-cases left) [
          | inr over ↦ rw over (λ key id e. (key, e, inl refl))
          | inl more ↦ rw more (
              let ss' = record ss { ptx_dict = d } in
              Post-imp (Keeps ss') _ (cmp_states dict env ptxes pskeys ss')
                (λ end_ h key id e. mark_all-Traced ptxes ss.ptx_dict key id (h key id e))
                (cmp_states-Keeps ptxes pskeys ss'))
        ]

    cmp_line-Traces :
        (line : Bytes) (ss : Shopping dict.Carrier)
        → Post (cmp_line dict env line ss) (Traces (NamedBy line) ss)
    unfolding cmp_line
    cmp_line-Traces line ss =
        let cut = cut_line (cut_string b',' line) in
        Post-then _ (λ r. cut ≡ ok r) cut _ (Post_self cut)
          (λ r e.
            Post-imp _ _ (cmp_marked dict env r.0 r.1 (mark_all dict r.1 ss.ptx_dict) ss)
              (λ end_.
                Traced-imp _ (NamedBy line) ss.ptx_dict end_.ptx_dict
                  (λ named. (r.0, r.1, e, named)))
              (cmp_marked-Traces r.0 r.1 ss))

    abbrev NamedAmong : List Bytes → Type 0
    NamedAmong lines = (line : Bytes) × Memᴰ line lines × NamedBy line

    cmp_lines-Traces :
        (lines : List Bytes) (ss : Shopping dict.Carrier)
        → Post (cmp_lines dict env lines ss) (Traces (NamedAmong lines) ss)
    unfolding cmp_lines
    cmp_lines-Traces [] ss = λ key id e. (key, e, inl refl)
    cmp_lines-Traces (line ∷ lines) ss = elim (Bool-cases (dict.count ss.ptx_dict == 0)) [
      | inl over ↦ rw over (λ key id e. (key, e, inl refl))
      | inr more ↦ rw more (
          let All_ = NamedAmong (line ∷ lines) in
          Post-then _ (Traces (NamedBy line) ss) (cmp_line dict env line ss) _
            (cmp_line-Traces line ss)
            (λ mid first.
              Post-imp _ _ (cmp_lines dict env lines mid)
                (λ end_ second.
                  Traced-then All_ ss.ptx_dict mid.ptx_dict end_.ptx_dict
                    (Traced-imp _ All_ ss.ptx_dict mid.ptx_dict (λ n. (line, Memᴰ.head refl, n))
                      first)
                    (Traced-imp _ All_ mid.ptx_dict end_.ptx_dict (λ n. (n.0, Memᴰ.tail n.1, n.2))
                      second))
                (cmp_lines-Traces lines mid)))
    ]

    -- One of the command's prerequisite lines names the build.
    abbrev pub Named : Bytes → Type 0
    Named cmdix = (line : Bytes) × Memᴰ line (env.records (command_key b'<' cmdix)) × NamedBy line

    pub shop_compare_prereqs-Traced :
        (cmdix : Bytes) (ss : Shopping dict.Carrier)
        → Post
            (shop_compare_prereqs dict env cmdix ss)
            (λ ss'. Traced (Named cmdix) ss.ptx_dict ss'.ptx_dict)
    unfolding shop_compare_prereqs
    shop_compare_prereqs-Traced cmdix ss =
        let lines = env.records (command_key b'<' cmdix) in
        Post-then _ (Traces (NamedAmong lines) ss) (cmp_lines dict env lines ss) _
          (cmp_lines-Traces lines ss) (λ end_ h. h)
