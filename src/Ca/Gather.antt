-- ===== src/Ca/Gather.antt =====
-- The loop of ca_publish: the raw actions of the members go to the leader.
use mathlib.Core.List.{append-nil, append_assoc}
use audited_objects.Prelude.{
  Post-imp, Post_self, Post-then, ◌∙◌, sym, arith, Post, ◌==◌, ap, ◌≡◌, ◌≢◌, ◌++◌, All, List, ℕ, [],
  ◌∷◌, some, none, ok, true, false, refl,
}
use audited_objects.Pa.{Pa}
use audited_objects.Ca.Header.{ca_format_header}
use audited_objects.Ca.Coalesce.{Dict}
use audited_objects.Ca.Key.{Ck}
use audited_objects.Ca.Group.{Cmd, Heap, put, ca_set_processed, ca_record_pa}
use audited_objects.Ca.Publish.{Outlet, move_pas, raw_list, ca_merge, merge_members}

-- No member of the list is this command.
abbrev pub Outside : ℕ → List (Ck × ℕ) → Type 0
Outside r ns = All (λ n. r ≢ n.1) ns

-- The members are different commands.
abbrev pub Distinct : List (Ck × ℕ) → Type 0
Distinct [] = Unit
Distinct (n ∷ ns) = Outside n.1 ns × Distinct ns

ne_test : (a b : ℕ) → a ≢ b → a == b ≡ false
ne_test a b ne = ground arith

eq_test : (a : ℕ) → a == a ≡ true
eq_test a = ground arith

pub put_same : {C : Type 0} (r : ℕ) (c : Cmd C) (h : Heap C) → put r c h r ≡ c
put_same r c h = rw (eq_test r) refl

pub put_other :
    {C : Type 0} (r : ℕ) (c : Cmd C) (h : Heap C) (r' : ℕ) → r' ≢ r → put r c h r' ≡ h r'
put_other r c h r' ne = rw (ne_test r r' (λ q. ne (sym q))) refl

-- Two writes, to `r` and then to `d`.
two_writes :
    {C : Type 0} (r d : ℕ) (cr cd : Cmd C) (h : Heap C)
    → r ≢ d
    → (ca_set_processed d true (put d cd (put r cr h)) r ≡ cr)
      × (ca_set_processed d true (put d cd (put r cr h)) d ≡ record cd { processed = true })
      × ((r' : ℕ) → r' ≢ r → r' ≢ d → ca_set_processed d true (put d cd (put r cr h)) r' ≡ h r')
unfolding ca_set_processed
two_writes r d cr cd h ne = (
  rw (ne_test d r (λ q. ne (sym q)), eq_test r) refl,
  rw (eq_test d) refl,
  λ r' ne1 ne2. rw (ne_test d r' (λ q. ne2 (sym q)), ne_test r r' (λ q. ne1 (sym q))) refl,
)

module _ {dict : Dict} {W : Type 0} (out : Outlet dict W) where
  move_pas-append : (xs ys : List Pa) → move_pas out xs (some ys) ≡ ok (some (ys ++ xs))
  unfolding move_pas ca_record_pa
  move_pas-append [] ys = ap (λ l. ok (some l)) (sym (append-nil ys))
  move_pas-append (x ∷ xs) ys =
      move_pas-append xs (ys ++ (x ∷ [])) ∙ ap (λ l. ok (some l)) (append_assoc ys (x ∷ []) xs)

  -- The raw actions of the members, one member after the other.
  abbrev pub gathered : List (Ck × ℕ) → Heap dict.Carrier → List Pa
  gathered [] h = []
  gathered (n ∷ ns) h = raw_list out (h n.1).raw_pa ++ gathered ns h

  gathered_same :
      (ns : List (Ck × ℕ)) (h h' : Heap dict.Carrier)
      → All (λ n. h' n.1 ≡ h n.1) ns
      → gathered ns h' ≡ gathered ns h
  gathered_same [] h h' e = refl
  gathered_same (n ∷ ns) h h' e = rw (e.0, gathered_same ns h h' e.1)

  untouched :
      (r d : ℕ) (ns : List (Ck × ℕ)) (h h' : Heap dict.Carrier)
      → ((r' : ℕ) → r' ≢ r → r' ≢ d → h' r' ≡ h r')
      → Outside r ns
      → Outside d ns
      → All (λ n. h' n.1 ≡ h n.1) ns
  untouched r d [] h h' same o o' = tt
  untouched r d (n ∷ ns) h h' same o o' =
      (same n.1 (λ q. o.0 (sym q)) (λ q. o'.0 (sym q)), untouched r d ns h h' same o.1 o'.1)

  -- What the loop of ca_publish does to the leader `r`, to the members, and to no other command.
  abbrev pub Merged : ℕ → List Pa → List (Ck × ℕ) → Heap dict.Carrier → Heap dict.Carrier → Type 0
  Merged r pas ns h h' =
      ((h' r).raw_pa ≡ some (pas ++ gathered ns h))
      × ((h' r).cooked_pa ≡ (h r).cooked_pa)
      × All (λ n. ((h' n.1).processed ≡ true) × ((h' n.1).raw_pa ≡ none)) ns
      × ((r' : ℕ) → r' ≢ r → Outside r' ns → h' r' ≡ h r')

  -- The same of one member.
  abbrev pub One : ℕ → List Pa → ℕ → Heap dict.Carrier → Heap dict.Carrier → Type 0
  One r pas d h h' =
      ((h' r).raw_pa ≡ some (pas ++ raw_list out (h d).raw_pa))
      × ((h' r).cooked_pa ≡ (h r).cooked_pa)
      × ((h' d).processed ≡ true)
      × ((h' d).raw_pa ≡ none)
      × ((r' : ℕ) → r' ≢ r → r' ≢ d → h' r' ≡ h r')

  ca_merge-One :
      (r : ℕ) (pas : List Pa) (d : ℕ) (h : Heap dict.Carrier)
      → (h r).raw_pa ≡ some pas
      → r ≢ d
      → Post (ca_merge out r d h) (λ h'. One r pas d h (ca_set_processed d true h'))
  unfolding ca_merge ca_set_processed
  ca_merge-One r pas d h e ne =
      let m = ca_format_header (h d).header in
      Post-then _ (λ sub. m ≡ ok sub) m _ (Post_self m)
        (λ sub has.
          rw (e, move_pas-append (raw_list out (h d).raw_pa) pas)
            (let (at_r, at_d, elsewhere) = two_writes r d _ _ h ne in
              (
                ap (λ c. c.raw_pa) at_r,
                ap (λ c. c.cooked_pa) at_r,
                ap (λ c. c.processed) at_d,
                ap (λ c. c.raw_pa) at_d,
                elsewhere,
              )))

  pub merge_members-Merged :
      (r : ℕ) (pas : List Pa) (ns : List (Ck × ℕ)) (h : Heap dict.Carrier)
      → (h r).raw_pa ≡ some pas
      → Outside r ns
      → Distinct ns
      → Post (merge_members out r ns h) (Merged r pas ns h)
  unfolding merge_members
  merge_members-Merged r pas [] h e o d =
      (e ∙ ap some (sym (append-nil pas)), refl, tt, λ r' ne u. refl)
  merge_members-Merged r pas (n ∷ ns) h e o d = rw (ne_test n.1 r (λ q. o.0 (sym q))) (
      Post-then _ (λ h'. One r pas n.1 h (ca_set_processed n.1 true h')) (ca_merge out r n.1 h) _
        (ca_merge-One r pas n.1 h e o.0)
        (λ h' one.
          let mid = ca_set_processed n.1 true h' in
          Post-imp (Merged r (pas ++ raw_list out (h n.1).raw_pa) ns mid) _
            (merge_members out r ns mid)
            (λ end_ m.
              (let (raw, cooked, done, rest) = m in
                let (raw1, cooked1, proc1, none1, rest1) = one in
                let still : end_ n.1 ≡ mid n.1 = rest n.1 (λ q. o.0 (sym q)) d.0 in
                (
                  raw
                      ∙ ap some (
                          append_assoc pas (raw_list out (h n.1).raw_pa) (gathered ns mid)
                          ∙ ap (λ l. pas ++ (raw_list out (h n.1).raw_pa ++ l))
                              (gathered_same ns h mid (untouched r n.1 ns h mid rest1 o.1 d.0))),
                  cooked ∙ cooked1,
                  ((ap (λ c. c.processed) still ∙ proc1, ap (λ c. c.raw_pa) still ∙ none1), done),
                  λ r' ne out_. rest r' ne out_.1 ∙ rest1 r' ne out_.0,
                )))
            (merge_members-Merged r (pas ++ raw_list out (h n.1).raw_pa) ns mid one.0 o.1 d.1)))
