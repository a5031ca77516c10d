-- ===== src/Shop/Collected.antt =====
-- Which targets _shop_collect_targets of src/shop.c collects.
use audited_objects.Prelude.{
  cut_string, Memᴰ, str_eq, str_eq_iff, Bool-cases, All, ◌++◌, ◌≡◌, ◌≢◌, ◌⊎◌, inl, inr, refl, true,
  false, List, [], ◌∷◌, Bytes, some, ok, Post, Post-then, Post_self, Post-imp, sym,
}
use audited_objects.Ps.{Ps}
use audited_objects.Ps.Csv.{ps_new_from_csv_string}
use audited_objects.Pa.{Pa}
use audited_objects.Shop.Prereqs.{Env, first_record, cut_line}
use audited_objects.Shop.Targets.{
  dummy_target, dummy_targets, lists_winner, line_targets, lines_targets,
}

lists_winner-cases :
    (ixs : List Bytes) (wix : Bytes)
    → ((lists_winner ixs wix ≡ true) × Memᴰ wix ixs)
      ⊎ ((lists_winner ixs wix ≡ false) × All (λ ix. ix ≢ wix) ixs)
unfolding lists_winner
lists_winner-cases [] wix = inr (refl, tt)
lists_winner-cases (ix ∷ ixs) wix = elim (Bool-cases (str_eq ix wix)) [
  | inl same ↦ inl (rw same refl, Memᴰ.head (sym ((str_eq_iff ix wix).0 same)))
  | inr other ↦
      let apart : ix ≢ wix = λ e. absurd (cc ((str_eq_iff ix wix).1 e, other)) in
      elim (lists_winner-cases ixs wix) [
        | inl (here, m) ↦ inl (rw other here, Memᴰ.tail m)
        | inr (gone, all_) ↦ inr (rw other gone, (apart, all_))
      ]
]

module _ (env : Env) where
  -- An action around the roadmap's state with this key.
  abbrev pub TargetOf : Bytes → Pa → Type 0
  TargetOf pskey pa =
      (csv : Bytes) × (ps : Ps) × (first_record (env.records pskey) ≡ ok csv)
      × (ps_new_from_csv_string env.base env.cwd (some csv) ≡ ok ps)
      × (pa.pa_ps ≡ some ps)

  -- One action for each key, in their order.
  abbrev pub TargetsOf : List Bytes → List Pa → Type 0
  TargetsOf [] pas = pas ≡ []
  TargetsOf (pskey ∷ pskeys) pas =
      (pa : Pa) × (rest : List Pa) × (pas ≡ pa ∷ rest) × TargetOf pskey pa × TargetsOf pskeys rest

  -- The targets of a build among the lines: those of the lines that list its index, in their order.
  abbrev pub LinesTargets : Bytes → List Bytes → List Pa → Type 0
  LinesTargets wix [] pas = pas ≡ []
  LinesTargets wix (line ∷ lines) pas =
      (pskeys ptxes : List Bytes) × (here rest : List Pa) × (cut_line (cut_string b',' line)
        ≡ ok (pskeys, ptxes))
      × ((Memᴰ wix ptxes × TargetsOf pskeys here) ⊎ (All (λ ix. ix ≢ wix) ptxes × (here ≡ [])))
      × (pas ≡ here ++ rest)
      × LinesTargets wix lines rest

  dummy_target-TargetOf : (pskey : Bytes) → Post (dummy_target env pskey) (TargetOf pskey)
  unfolding dummy_target
  dummy_target-TargetOf pskey =
      let find = first_record (env.records pskey) in
      Post-then _ (λ csv. find ≡ ok csv) find _ (Post_self find)
        (λ csv found.
          let parse = ps_new_from_csv_string env.base env.cwd (some csv) in
          Post-then _ (λ ps. parse ≡ ok ps) parse _ (Post_self parse)
            (λ ps parsed. (csv, ps, found, parsed, refl)))

  dummy_targets-TargetsOf :
      (pskeys : List Bytes) → Post (dummy_targets env pskeys) (TargetsOf pskeys)
  unfolding dummy_targets
  dummy_targets-TargetsOf [] = refl
  dummy_targets-TargetsOf (pskey ∷ pskeys) =
      Post-then _ (TargetOf pskey) (dummy_target env pskey) _ (dummy_target-TargetOf pskey)
        (λ pa one.
          Post-then _ (TargetsOf pskeys) (dummy_targets env pskeys) _
            (dummy_targets-TargetsOf pskeys) (λ pas more. (pa, pas, refl, one, more)))

  -- The targets of one line.
  abbrev LineTargets : Bytes → Bytes → List Pa → Type 0
  LineTargets wix line here =
      (pskeys ptxes : List Bytes) × (cut_line (cut_string b',' line) ≡ ok (pskeys, ptxes))
      × ((Memᴰ wix ptxes × TargetsOf pskeys here) ⊎ (All (λ ix. ix ≢ wix) ptxes × (here ≡ [])))

  line_targets-LineTargets :
      (wix line : Bytes) → Post (line_targets env wix line) (LineTargets wix line)
  unfolding line_targets
  line_targets-LineTargets wix line =
      let cut = cut_line (cut_string b',' line) in
      Post-then _ (λ r. cut ≡ ok r) cut _ (Post_self cut)
        (λ r e. elim (lists_winner-cases r.1 wix) [
          | inl (here, m) ↦ rw here (
              Post-imp (TargetsOf r.0) _ (dummy_targets env r.0)
                (λ pas h. (r.0, r.1, e, inl (m, h))) (dummy_targets-TargetsOf r.0))
          | inr (gone, all_) ↦ rw gone (r.0, r.1, e, inr (all_, refl))
        ])

  pub lines_targets-LinesTargets :
      (wix : Bytes) (lines : List Bytes)
      → Post (lines_targets env wix lines) (LinesTargets wix lines)
  unfolding lines_targets
  lines_targets-LinesTargets wix [] = refl
  lines_targets-LinesTargets wix (line ∷ lines) =
      Post-then _ (LineTargets wix line) (line_targets env wix line) _
        (line_targets-LineTargets wix line)
        (λ here (pskeys, ptxes, e, which).
          Post-then _ (LinesTargets wix lines) (lines_targets env wix lines) _
            (lines_targets-LinesTargets wix lines)
            (λ rest more. (pskeys, ptxes, here, rest, e, which, refl, more)))
