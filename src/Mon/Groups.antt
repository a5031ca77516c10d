-- ===== src/Mon/Groups.antt =====
-- The groups in memory, and how they change when a group starts, grows or ends.
use audited_objects.Prelude.{
  subst, ap, ◌∙◌, sym, arith, ◌==◌, Bool-cases, ◌≢◌, ◌⊎◌, ◌≡◌, [], ◌∷◌, some, none, false, inl, inr,
}
use audited_objects.Ca.Key.{Ck}
use audited_objects.Ca.Group.{Cmd, Heap}
use audited_objects.Ca.Gather.{Outside, Distinct}
use audited_objects.Mon.{Option, List, ℕ}

-- The command is a member.
abbrev pub Member : ℕ → List (Ck × ℕ) → Type 0
Member r [] = ⊥
Member r (n ∷ ns) = (r ≡ n.1) ⊎ Member r ns

-- The groups in memory. A command that has a leader and is not processed is the leader itself or a
-- member of the leader's group; the leader leads itself; a member has the group's leader; and the
-- leader is not among the members, which are different commands.
pub record Grouped {C : Type 0} (h : Heap C) : Type 0 where
  pub led :
      (r l : ℕ)
      → (h r).leader ≡ some l
      → (h r).processed ≡ false
      → (g : List (Ck × ℕ)) × ((h l).group ≡ some g) × ((r ≡ l) ⊎ Member r g)
  pub leads : (l : ℕ) (g : List (Ck × ℕ)) → (h l).group ≡ some g → (h l).leader ≡ some l
  pub member :
      (l r : ℕ) (g : List (Ck × ℕ)) → (h l).group ≡ some g → Member r g → (h r).leader ≡ some l
  pub outside : (l : ℕ) (g : List (Ck × ℕ)) → (h l).group ≡ some g → Outside l g
  pub distinct : (l : ℕ) (g : List (Ck × ℕ)) → (h l).group ≡ some g → Distinct g

-- A command that has just come: no leader, no group, not processed.
abbrev pub IsFresh : {C : Type 0} → Cmd C → Type 0
IsFresh c = (c.leader ≡ none) × (c.group ≡ none) × (c.processed ≡ false)

some_inj : {A : Type 0} (a b : A) → some a ≡ some b → a ≡ b
some_inj {A = A} a b e = ap (λ o. or_else o) e
  where
    or_else : Option A → A
    or_else none = a
    or_else (some x) = x

pub none_some : {A B : Type 0} (a : A) → none ≡ some a → B
none_some a e = absurd (cc e)

pub same_or_not : (a b : ℕ) → (a ≡ b) ⊎ (a ≢ b)
same_or_not a b = elim (Bool-cases (a == b)) [
  | inl y ↦ inl (ground arith)
  | inr n ↦ inr (ground arith)
]

pub apart_or_in : (r : ℕ) (ns : List (Ck × ℕ)) → Outside r ns ⊎ Member r ns
apart_or_in r [] = inl tt
apart_or_in r (n ∷ ns) = elim (same_or_not r n.1) [
  | inl e ↦ inr (inl e)
  | inr ne ↦ elim (apart_or_in r ns) [ inl o ↦ inl (ne, o) | inr m ↦ inr (inr m) ]
]

pub not_both : (r : ℕ) (ns : List (Ck × ℕ)) → Outside r ns → Member r ns → ⊥
not_both r [] o m = m
not_both r (n ∷ ns) o (inl e) = o.0 e
not_both r (n ∷ ns) o (inr m) = not_both r ns o.1 m

module _ {C : Type 0} (h h' : Heap C) (gr : Grouped h) where
  -- A group that a fresh command starts.
  pub start-Grouped :
      (r : ℕ)
      → IsFresh (h r)
      → (h' r).leader ≡ some r
      → (h' r).group ≡ some []
      → ((x : ℕ) → x ≢ r → h' x ≡ h x)
      → Grouped h'
  start-Grouped r fresh at_l at_g same =
      let is_nil : (l : ℕ) (g : List (Ck × ℕ)) → l ≡ r → (h' l).group ≡ some g → [] ≡ g =
        (λ l g q e. some_inj [] g (sym at_g ∙ ap (λ x. (h' x).group) (sym q) ∙ e)) in
      let old : (l : ℕ) (g : List (Ck × ℕ)) → l ≢ r → (h' l).group ≡ some g → (h l).group ≡ some g =
        (λ l g ne e. ap (λ c. c.group) (sym (same l ne)) ∙ e) in
      record {
        led = λ x l e p. elim (same_or_not x r) [
          | inl q ↦
              let l_is : l ≡ r = some_inj l r (sym e ∙ ap (λ y. (h' y).leader) q ∙ at_l) in
              ([], ap (λ y. (h' y).group) l_is ∙ at_g, inl (q ∙ sym l_is))
          | inr ne ↦
              let (g, grp, m) =
                gr.led x l (ap (λ c. c.leader) (sym (same x ne)) ∙ e)
                  (ap (λ c. c.processed) (sym (same x ne)) ∙ p) in
              elim (same_or_not l r) [
                | inl q ↦ none_some g (sym fresh.1 ∙ ap (λ y. (h y).group) (sym q) ∙ grp)
                | inr ne' ↦ (g, ap (λ c. c.group) (same l ne') ∙ grp, m)
              ]
        ];
        leads = λ l g e. elim (same_or_not l r) [
          | inl q ↦ ap (λ y. (h' y).leader) q ∙ at_l ∙ ap some (sym q)
          | inr ne ↦ ap (λ c. c.leader) (same l ne) ∙ gr.leads l g (old l g ne e)
        ];
        member = λ l x g e m. elim (same_or_not l r) [
          | inl q ↦ absurd (subst (Member x) (sym (is_nil l g q e)) m)
          | inr ne ↦
              let led_ = gr.member l x g (old l g ne e) m in
              elim (same_or_not x r) [
                | inl q ↦ none_some l (sym fresh.0 ∙ ap (λ y. (h y).leader) (sym q) ∙ led_)
                | inr ne' ↦ ap (λ c. c.leader) (same x ne') ∙ led_
              ]
        ];
        outside = λ l g e. elim (same_or_not l r) [
          | inl q ↦ subst (Outside l) (is_nil l g q e) tt
          | inr ne ↦ gr.outside l g (old l g ne e)
        ];
        distinct = λ l g e. elim (same_or_not l r) [
          | inl q ↦ subst Distinct (is_nil l g q e) tt
          | inr ne ↦ gr.distinct l g (old l g ne e)
        ];
      }

  -- A fresh command that becomes a member.
  pub push-Grouped :
      (l r : ℕ) (g : List (Ck × ℕ)) (ck : Ck)
      → IsFresh (h r)
      → (h l).group ≡ some g
      → (h' r).leader ≡ some l
      → (h' l).group ≡ some ((ck, r) ∷ g)
      → ((x : ℕ) → x ≢ r → (h' x).leader ≡ (h x).leader)
      → ((x : ℕ) → x ≢ l → (h' x).group ≡ (h x).group)
      → ((x : ℕ) → (h' x).processed ≡ (h x).processed)
      → Grouped h'
  push-Grouped l r g ck fresh grp at_r at_l lead_same group_same proc_same =
      let r_not_l : r ≢ l =
        (λ q. none_some l (sym fresh.0 ∙ ap (λ y. (h y).leader) q ∙ gr.leads l g grp)) in
      let r_outside : Outside r g = elim (apart_or_in r g) [
        | inl o ↦ o
        | inr m ↦ none_some l (sym fresh.0 ∙ gr.member l r g grp m)
      ] in
      let is_ext : (m : ℕ) (g' : List (Ck × ℕ))
          → m ≡ l
          → (h' m).group ≡ some g'
          → (ck, r) ∷ g ≡ g' =
        (λ m g' q e. some_inj ((ck, r) ∷ g) g' (sym at_l ∙ ap (λ y. (h' y).group) (sym q) ∙ e)) in
      let old : (m : ℕ) (g' : List (Ck × ℕ))
          → m ≢ l
          → (h' m).group ≡ some g'
          → (h m).group ≡ some g' =
        (λ m g' ne e. sym (group_same m ne) ∙ e) in
      let keeps : (m x : ℕ) → (h x).leader ≡ some m → (h' x).leader ≡ some m = (λ m x e.
        elim (same_or_not x r) [
          | inl q ↦ none_some m (sym fresh.0 ∙ ap (λ y. (h y).leader) (sym q) ∙ e)
          | inr ne ↦ lead_same x ne ∙ e
        ]) in
      record {
        led = λ x m e p. elim (same_or_not x r) [
          | inl q ↦
              let m_is : m ≡ l = some_inj m l (sym e ∙ ap (λ y. (h' y).leader) q ∙ at_r) in
              ((ck, r) ∷ g, ap (λ y. (h' y).group) m_is ∙ at_l, inr (inl q))
          | inr ne ↦
              let (g', grp', mem) = gr.led x m (sym (lead_same x ne) ∙ e) (sym (proc_same x) ∙ p) in
              elim (same_or_not m l) [
                | inl q ↦
                    let same_g : g' ≡ g =
                      some_inj g' g (sym grp' ∙ ap (λ y. (h y).group) q ∙ grp) in
                    (
                      (ck, r) ∷ g,
                      ap (λ y. (h' y).group) q ∙ at_l,
                      elim mem [
                        | inl self ↦ inl self
                        | inr in_ ↦ inr (inr (subst (Member x) same_g in_))
                      ],
                    )
                | inr ne' ↦ (g', group_same m ne' ∙ grp', mem)
              ]
        ];
        leads = λ m g' e. elim (same_or_not m l) [
          | inl q ↦ keeps m m (ap (λ y. (h y).leader) q ∙ gr.leads l g grp ∙ ap some (sym q))
          | inr ne ↦ keeps m m (gr.leads m g' (old m g' ne e))
        ];
        member = λ m x g' e mem. elim (same_or_not m l) [
          | inl q ↦ elim (subst (Member x) (sym (is_ext m g' q e)) mem) [
            | inl x_is ↦ ap (λ y. (h' y).leader) x_is ∙ at_r ∙ ap some (sym q)
            | inr in_ ↦ keeps m x (gr.member l x g grp in_ ∙ ap some (sym q))
          ]
          | inr ne ↦ keeps m x (gr.member m x g' (old m g' ne e) mem)
        ];
        outside = λ m g' e. elim (same_or_not m l) [
          | inl q ↦ subst (Outside m) (is_ext m g' q e) (
              subst (λ y. Outside y ((ck, r) ∷ g)) (sym q)
                ((λ z. r_not_l (sym z)), gr.outside l g grp))
          | inr ne ↦ gr.outside m g' (old m g' ne e)
        ];
        distinct = λ m g' e. elim (same_or_not m l) [
          | inl q ↦ subst Distinct (is_ext m g' q e) (r_outside, gr.distinct l g grp)
          | inr ne ↦ gr.distinct m g' (old m g' ne e)
        ];
      }

  -- A group that is gone.
  pub disband-Grouped :
      (l : ℕ) (g : List (Ck × ℕ))
      → (h l).group ≡ some g
      → (h' l).leader ≡ none
      → (h' l).group ≡ none
      → ((x : ℕ) → Member x g → (h' x).leader ≡ none)
      → ((x : ℕ) → Member x g → (h' x).group ≡ (h x).group)
      → ((x : ℕ) → x ≢ l → Outside x g → h' x ≡ h x)
      → Grouped h'
  disband-Grouped l g grp at_l at_g free kept same =
      let old : (m : ℕ) (g' : List (Ck × ℕ))
          → (h' m).group ≡ some g'
          → (m ≢ l) × ((h m).group ≡ some g') =
        (λ m g' e. elim (same_or_not m l) [
          | inl q ↦ none_some g' (sym at_g ∙ ap (λ y. (h' y).group) (sym q) ∙ e)
          | inr ne ↦ (
            ne,
            elim (apart_or_in m g) [
              | inl o ↦ ap (λ c. c.group) (sym (same m ne o)) ∙ e
              | inr in_ ↦ sym (kept m in_) ∙ e
            ],
          )
        ]) in
      let keeps : (m x : ℕ) → m ≢ l → (h x).leader ≡ some m → (h' x).leader ≡ some m = (λ m x ne e.
        elim (same_or_not x l) [
          | inl q ↦ absurd (ne (some_inj m l (sym e ∙ ap (λ y. (h y).leader) q ∙ gr.leads l g grp)))
          | inr ne' ↦ elim (apart_or_in x g) [
            | inl o ↦ ap (λ c. c.leader) (same x ne' o) ∙ e
            | inr in_ ↦ absurd (ne (some_inj m l (sym e ∙ gr.member l x g grp in_)))
          ]
        ]) in
      record {
        led = λ x m e p. elim (same_or_not x l) [
          | inl q ↦ none_some m (sym at_l ∙ ap (λ y. (h' y).leader) (sym q) ∙ e)
          | inr ne ↦ elim (apart_or_in x g) [
            | inr in_ ↦ none_some m (sym (free x in_) ∙ e)
            | inl o ↦
                let back = sym (same x ne o) in
                let (g', grp', mem) =
                  gr.led x m (ap (λ c. c.leader) back ∙ e) (ap (λ c. c.processed) back ∙ p) in
                elim (same_or_not m l) [
                  | inl q ↦ elim mem [
                    | inl self ↦ absurd (ne (self ∙ q))
                    | inr in_ ↦ absurd (
                        not_both x g o (
                          subst (Member x)
                            (some_inj g' g (sym grp' ∙ ap (λ y. (h y).group) q ∙ grp)) in_))
                  ]
                  | inr ne' ↦ (
                    g',
                    elim (apart_or_in m g) [
                      | inl o' ↦ ap (λ c. c.group) (same m ne' o') ∙ grp'
                      | inr in_ ↦ kept m in_ ∙ grp'
                    ],
                    mem,
                  )
                ]
          ]
        ];
        leads = λ m g' e. let (ne, grp') = old m g' e in keeps m m ne (gr.leads m g' grp');
        member =
            λ m x g' e mem. let (ne, grp') = old m g' e in keeps m x ne (gr.member m x g' grp' mem);
        outside = λ m g' e. gr.outside m g' (old m g' e).1;
        distinct = λ m g' e. gr.distinct m g' (old m g' e).1;
      }
