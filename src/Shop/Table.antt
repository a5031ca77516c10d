-- ===== src/Shop/Table.antt =====
-- The PTX table under the operations of shopping: which builds are left.
use audited_objects.Prelude.{
  not, ◌&&◌, arith, ◌==◌, ◌∙◌, to_lower-to_lower, is_upper, sym, map, Bool-cases, ap, same_text_iff,
  ◌||◌, ◌≡◌, Bool, Option, to_lower, List, same_text, Bytes, [], ◌∷◌, ℕ, none, some, refl, inl, inr,
  true, false,
}
use audited_objects.Shop.{
  invalidate_found, PtxDict, is_some, put_first, shop_ptx_contains, mark_node, mark_found,
  shop_ptx_mark_as_seen, shop_ptx_invalidate,
}
use audited_objects.Shop.Prereqs.{invalidate_all, mark_all}

-- A list of indexes names the build with index `k`.
unfoldable pub names : Bytes → List Bytes → Bool
names k [] = false
names k (j ∷ js) = same_text j k || names k js

pub same_text-lower : (c : ℕ) (s : Bytes) → same_text (c ∷ s) (to_lower c ∷ s) ≡ true
unfolding same_text
same_text-lower c s =
    (same_text_iff (c ∷ s) (to_lower c ∷ s)).1
      (ap (λ x. x ∷ map to_lower s) (sym (to_lower-to_lower c)))

module _ (dict : PtxDict) where
  contains_same_text :
      (d : dict.Carrier) (j k : Bytes)
      → same_text j k ≡ true
      → shop_ptx_contains dict d j ≡ shop_ptx_contains dict d k
  unfolding shop_ptx_contains
  contains_same_text d j k h = ap is_some (dict.lookup_same d j k h)

  set_first-contains :
      (d : dict.Carrier) (j k : Bytes) (c : ℕ) (key id : Bytes)
      → dict.lookup d j ≡ some (key, id)
      → same_text key (put_first c key) ≡ true
      → shop_ptx_contains dict (dict.set_first d j c) k ≡ shop_ptx_contains dict d k
  unfolding shop_ptx_contains is_some
  set_first-contains d j k c key id e h = elim (Bool-cases (same_text j k)) [
    | inl same ↦
        rw
          (
            sym (dict.lookup_same (dict.set_first d j c) j k same),
            sym (dict.lookup_same d j k same),
            dict.lookup-set_first_same d j c key id e h,
            e,
          )
          refl
    | inr other ↦ rw (dict.lookup-set_first_other d j k c key id e h other) refl
  ]

  mark_node-contains :
      (d : dict.Carrier) (j k key id : Bytes)
      → dict.lookup d j ≡ some (key, id)
      → shop_ptx_contains dict (mark_node dict d j key) k ≡ shop_ptx_contains dict d k
  unfolding mark_node put_first
  mark_node-contains d j k [] id e = refl
  mark_node-contains d j k (c ∷ s) id e = elim (Bool-cases (is_upper c)) [
    | inl up ↦ rw up (set_first-contains d j k (to_lower c) (c ∷ s) id e (same_text-lower c s))
    | inr not_up ↦ rw not_up
  ]

  mark_found-contains :
      (d : dict.Carrier) (j k : Bytes) (o : Option (Bytes × Bytes))
      → dict.lookup d j ≡ o
      → shop_ptx_contains dict (mark_found dict d j o) k ≡ shop_ptx_contains dict d k
  unfolding mark_found
  mark_found-contains d j k none e = refl
  mark_found-contains d j k (some (key, id)) e = mark_node-contains d j k key id e

  -- Marking a build as seen keeps the builds that are there.
  pub mark_as_seen-contains :
      (d : dict.Carrier) (j k : Bytes)
      → shop_ptx_contains dict (shop_ptx_mark_as_seen dict d j) k ≡ shop_ptx_contains dict d k
  unfolding shop_ptx_mark_as_seen
  mark_as_seen-contains d j k = mark_found-contains d j k (dict.lookup d j) refl

  delete-contains :
      (d : dict.Carrier) (j k : Bytes)
      → shop_ptx_contains dict (dict.delete d j) k ≡ true
      → (shop_ptx_contains dict d k ≡ true) × (same_text j k ≡ false)
  unfolding shop_ptx_contains is_some
  delete-contains d j k h = elim (Bool-cases (same_text j k)) [
    | inl same ↦
        let gone : dict.lookup (dict.delete d j) k ≡ none =
          sym (dict.lookup_same (dict.delete d j) j k same) ∙ dict.lookup-delete_same d j in
        absurd (cc (ap is_some gone, h))
    | inr other ↦ (sym (ap is_some (dict.lookup-delete_other d j k other)) ∙ h, other)
  ]

  invalidate_found-contains :
      (d : dict.Carrier) (j k : Bytes) (ignored : Bool) (o : Option (Bytes × Bytes))
      → dict.lookup d j ≡ o
      → shop_ptx_contains dict (invalidate_found dict d j ignored o) k ≡ true
      → (shop_ptx_contains dict d k ≡ true) × (same_text j k ≡ true → ignored ≡ true)
  unfolding shop_ptx_contains invalidate_found is_some
  invalidate_found-contains d j k ignored none e h =
      (h, λ same. absurd (cc (ap is_some (sym (dict.lookup_same d j k same) ∙ e), h)))
  invalidate_found-contains d j k true (some n) e h = (h, λ same. refl)
  invalidate_found-contains d j k false (some n) e h =
      let (before, other) = delete-contains d j k h in (before, λ same. absurd (cc (same, other)))

  -- A build that is left after an invalidation was there before, and was not the one, unless the path
  -- is ignored.
  pub invalidate-contains :
      (d : dict.Carrier) (j k : Bytes) (ignored : Bool)
      → shop_ptx_contains dict (shop_ptx_invalidate dict d j ignored) k ≡ true
      → (shop_ptx_contains dict d k ≡ true) × (same_text j k ≡ true → ignored ≡ true)
  unfolding shop_ptx_invalidate
  invalidate-contains d j k ignored = invalidate_found-contains d j k ignored (dict.lookup d j) refl

  pub empty-contains :
      (d : dict.Carrier) (k : Bytes) → dict.count d == 0 ≡ true → shop_ptx_contains dict d k ≡ false
  unfolding shop_ptx_contains is_some
  empty-contains d k e = ap is_some (dict.lookup-count d k (ground arith))

  pub invalidate_all-contains :
      (ixs : List Bytes) (d : dict.Carrier) (k : Bytes) (ignored : Bool)
      → shop_ptx_contains dict (invalidate_all dict ixs ignored d) k ≡ true
      → (shop_ptx_contains dict d k ≡ true) × (names k ixs ≡ true → ignored ≡ true)
  unfolding invalidate_all names
  invalidate_all-contains [] d k ignored = λ h. (h, λ e. absurd (cc e))
  invalidate_all-contains (j ∷ js) d k ignored = elim (Bool-cases (dict.count d == 0)) [
    | inl e ↦ rw e (λ h. absurd (cc (h, empty-contains d k e)))
    | inr e ↦ rw e (λ h.
        let (mid, rest) =
          invalidate_all-contains js (shop_ptx_invalidate dict d j ignored) k ignored h in
        let (before, this) = invalidate-contains d j k ignored mid in
        (
          before,
          λ named. elim (Bool-cases (same_text j k)) [
            | inl same ↦ this same
            | inr other ↦ rest (ground arith)
          ],
        ))
  ]

  pub mark_all-contains :
      (ixs : List Bytes) (d : dict.Carrier) (k : Bytes)
      → (shop_ptx_contains dict (mark_all dict ixs d).1 k ≡ shop_ptx_contains dict d k)
        × (names k ixs ≡ true → shop_ptx_contains dict d k ≡ true → (mark_all dict ixs d).0 ≡ true)
  unfolding mark_all names
  mark_all-contains [] d k = (refl, λ e. absurd (cc e))
  mark_all-contains (j ∷ js) d k = elim (Bool-cases (shop_ptx_contains dict d j)) [
    | inl here ↦ rw here (
        let (same, left) = mark_all-contains js (shop_ptx_mark_as_seen dict d j) k in
        (same ∙ mark_as_seen-contains d j k, λ named there. refl))
    | inr gone ↦ rw gone (
        let (same, left) = mark_all-contains js d k in
        (
          same,
          λ named there. elim (Bool-cases (same_text j k)) [
            | inl this ↦ absurd (cc (contains_same_text d j k this, gone, there))
            | inr other ↦ left (ground arith) there
          ],
        ))
  ]

  invalidate_found_same :
      (d : dict.Carrier) (j k : Bytes) (o : Option (Bytes × Bytes))
      → dict.lookup d j ≡ o
      → shop_ptx_contains dict (invalidate_found dict d j false o) k
        ≡ (shop_ptx_contains dict d k && not (same_text j k))
  unfolding invalidate_found shop_ptx_contains is_some
  invalidate_found_same d j k none e = elim (Bool-cases (same_text j k)) [
    | inl same ↦ rw (sym (dict.lookup_same d j k same), e) refl
    | inr other ↦ rw other (ground arith)
  ]
  invalidate_found_same d j k (some n) e = elim (Bool-cases (same_text j k)) [
    | inl same ↦
        rw (sym (dict.lookup_same (dict.delete d j) j k same), dict.lookup-delete_same d j, same)
          (ground arith)
    | inr other ↦ rw (dict.lookup-delete_other d j k other, other) (ground arith)
  ]

  -- What is left of a table when the builds of a line are invalidated.
  pub invalidate_all-names :
      (ixs : List Bytes) (d : dict.Carrier) (k : Bytes)
      → shop_ptx_contains dict (invalidate_all dict ixs false d) k
        ≡ (shop_ptx_contains dict d k && not (names k ixs))
  unfolding invalidate_all names shop_ptx_invalidate
  invalidate_all-names [] d k = ground arith
  invalidate_all-names (j ∷ js) d k = elim (Bool-cases (dict.count d == 0)) [
    | inl over ↦ rw (over, empty-contains d k over) refl
    | inr more ↦
        rw
          (
            more,
            invalidate_all-names js (shop_ptx_invalidate dict d j false) k,
            invalidate_found_same d j k (dict.lookup d j) refl,
          )
          (ground arith)
  ]
