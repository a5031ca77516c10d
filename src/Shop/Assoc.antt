-- ===== src/Shop/Assoc.antt =====
-- The PTX table as a list of nodes: the laws that shopping needs can hold.
use audited_objects.Prelude.{
  arith, length, same_text_refl, All, subst, same_text_iff, to_lower, same_text_sym, map,
  same_text_trans, str_eq, Bool-cases, ap, ◌≡◌, if◌then◌else◌, ℕ, Option, same_text, Bytes, List,
  [], ◌∷◌, none, some, true, false, inl, inr, refl,
}
use audited_objects.Shop.{PtxDict, put_first}

abbrev pub Nodes : Type 0
Nodes = List (Bytes × Bytes)

abbrev pub find_key : Nodes → Bytes → Option (Bytes × Bytes)
find_key [] k = none
find_key (n ∷ ns) k = if same_text n.0 k then some n else find_key ns k

abbrev pub drop_key : Nodes → Bytes → Nodes
drop_key [] k = []
drop_key (n ∷ ns) k = let rest = drop_key ns k in if same_text n.0 k then rest else n ∷ rest

abbrev pub put_key : Nodes → Bytes → ℕ → Nodes
put_key [] k c = []
put_key (n ∷ ns) k c = if same_text n.0 k then (put_first c n.0, n.1) ∷ ns else n ∷ put_key ns k c

-- The nodes that a lookup can find.
abbrev pub first_nodes : Nodes → Nodes
first_nodes [] = []
first_nodes (n ∷ ns) = n ∷ drop_key (first_nodes ns) n.0

same_text_right : (x j k : Bytes) → same_text j k ≡ true → same_text x j ≡ same_text x k
unfolding same_text
same_text_right x j k h = ap (str_eq (map to_lower x)) ((same_text_iff j k).0 h)

pub find_key_same :
    (ns : Nodes) (j k : Bytes) → same_text j k ≡ true → find_key ns j ≡ find_key ns k
find_key_same [] j k h = refl
find_key_same (n ∷ ns) j k h = rw (same_text_right n.0 j k h, find_key_same ns j k h)

-- Of two different keys, a third is the same as one at most.
apart : (x j k : Bytes) → same_text j k ≡ false → same_text x j ≡ true → same_text x k ≡ false
apart x j k ne h = elim (Bool-cases (same_text x k)) [
  | inl same ↦ absurd (cc (same_text_trans j x k (same_text_sym x j h) same, ne))
  | inr other ↦ other
]

flipped : (x y : Bytes) → same_text x y ≡ false → same_text y x ≡ false
flipped x y ne = elim (Bool-cases (same_text y x)) [
  | inl same ↦ absurd (cc (same_text_sym y x same, ne))
  | inr other ↦ other
]

pub find_key-drop_key_same : (ns : Nodes) (k : Bytes) → find_key (drop_key ns k) k ≡ none
find_key-drop_key_same [] k = refl
find_key-drop_key_same (n ∷ ns) k = elim (Bool-cases (same_text n.0 k)) [
  | inl same ↦ rw same (find_key-drop_key_same ns k)
  | inr other ↦ rw (other) (rw other (find_key-drop_key_same ns k))
]

pub find_key-drop_key_other :
    (ns : Nodes) (j k : Bytes) → same_text j k ≡ false → find_key (drop_key ns j) k ≡ find_key ns k
find_key-drop_key_other [] j k ne = refl
find_key-drop_key_other (n ∷ ns) j k ne = elim (Bool-cases (same_text n.0 j)) [
  | inl same ↦ rw (same, apart n.0 j k ne same) (find_key-drop_key_other ns j k ne)
  | inr other ↦ rw (other, find_key-drop_key_other ns j k ne)
]

abbrev node_or : Bytes × Bytes → Option (Bytes × Bytes) → Bytes × Bytes
node_or d none = d
node_or d (some n) = n

-- The key that is written is still the same as `k`.
rewritten :
    (n : Bytes × Bytes) (key k : Bytes) (c : ℕ)
    → n.0 ≡ key
    → same_text n.0 k ≡ true
    → same_text key (put_first c key) ≡ true
    → same_text (put_first c n.0) k ≡ true
rewritten n key k c e same h = rw e (
    same_text_trans (put_first c key) key k (same_text_sym key (put_first c key) h)
      (subst (λ x. same_text x k ≡ true) e same))

pub find_key-put_key_same :
    (ns : Nodes) (k : Bytes) (c : ℕ) (key id : Bytes)
    → find_key ns k ≡ some (key, id)
    → same_text key (put_first c key) ≡ true
    → find_key (put_key ns k c) k ≡ some (put_first c key, id)
find_key-put_key_same [] k c key id = λ e h. absurd (cc e)
find_key-put_key_same (n ∷ ns) k c key id = elim (Bool-cases (same_text n.0 k)) [
  | inl same ↦
      rw same (λ e h.
        let p = ap (node_or n) e in rw (rewritten n key k c (ap (λ m. m.0) p) same h, p) refl)
  | inr other ↦ rw other (λ e h. rw other (find_key-put_key_same ns k c key id e h))
]

pub find_key-put_key_other :
    (ns : Nodes) (j k : Bytes) (c : ℕ) (key id : Bytes)
    → find_key ns j ≡ some (key, id)
    → same_text key (put_first c key) ≡ true
    → same_text j k ≡ false
    → find_key (put_key ns j c) k ≡ find_key ns k
find_key-put_key_other [] j k c key id = λ e h ne. refl
find_key-put_key_other (n ∷ ns) j k c key id = elim (Bool-cases (same_text n.0 j)) [
  | inl same ↦ rw same (λ e h ne.
      let p = ap (node_or n) e in
      rw
        (
          apart (put_first c n.0) j k ne (rewritten n key j c (ap (λ m. m.0) p) same h),
          apart n.0 j k ne same,
        )
        refl)
  | inr other ↦ rw other (λ e h ne. rw (find_key-put_key_other ns j k c key id e h ne))
]

abbrev pub Finds : Nodes → Nodes → Type 0
Finds ns ms = All (λ m. find_key ns m.0 ≡ some m) ms

-- A node of another list stays findable when a node with another key is put in front.
Finds-drop_key :
    (n : Bytes × Bytes) (ns ms : Nodes) → Finds ns ms → Finds (n ∷ ns) (drop_key ms n.0)
Finds-drop_key n ns [] h = tt
Finds-drop_key n ns (m ∷ ms) h = elim (Bool-cases (same_text m.0 n.0)) [
  | inl same ↦ rw same (Finds-drop_key n ns ms h.1)
  | inr other ↦ rw other (rw (flipped m.0 n.0 other) h.0, Finds-drop_key n ns ms h.1)
]

pub Finds-first_nodes : (ns : Nodes) → Finds ns (first_nodes ns)
Finds-first_nodes [] = tt
Finds-first_nodes (n ∷ ns) =
    (rw (same_text_refl n.0), Finds-drop_key n ns (first_nodes ns) (Finds-first_nodes ns))

pub find_key-empty : (ns : Nodes) (k : Bytes) → length ns ≡ 0 → find_key ns k ≡ none
find_key-empty [] k e = refl
find_key-empty (n ∷ ns) k e = absurd (omega arith)

abbrev pub assoc : PtxDict
assoc = record {
  Carrier = Nodes;
  create = [];
  nodes = first_nodes;
  count = length;
  lookup = find_key;
  insert = λ d k id. (k, id) ∷ d;
  delete = drop_key;
  set_first = put_key;
  lookup-create = λ k. refl;
  lookup-nodes = Finds-first_nodes;
  lookup-count = find_key-empty;
  lookup_same = find_key_same;
  lookup-insert_same = λ d k id. rw (same_text_refl k);
  lookup-insert_other = λ d j k id ne. rw ne;
  lookup-delete_same = find_key-drop_key_same;
  lookup-delete_other = find_key-drop_key_other;
  lookup-set_first_same = find_key-put_key_same;
  lookup-set_first_other = find_key-put_key_other;
}
