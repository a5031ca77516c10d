-- ===== src/Shop.antt =====
-- src/shop.c: the table of the previous builds (PTXes) that the roadmap offers. It is a dictionary of
-- kazlib, from the index of a build to its id, whose keys are compared by stricmp; the case of a
-- key's first letter says whether the build was evaluated.
pub mod Prereqs
pub mod Table
pub mod Current
pub mod Sound
pub mod Entries
pub mod Targets
pub mod Collected
pub mod Command
pub mod Judged
pub mod Winning
pub mod Settle
pub mod Failing
mod Assoc
mod Tests
use audited_objects.Prelude.{
  [], to_lower, is_upper, true, same_text, take, if◌then◌else◌, false, All, none, some, Bool, ◌≡◌,
  ◌∷◌, to_upper, is_lower, Option, List, Bytes, ℕ,
}

-- `shop_e` of src/SHOP.h
pub data ShopE : Type 0 where
  shop_err : ShopE
  shop_off : ShopE
  shop_nomatch : ShopE
  shop_nomatch_agg : ShopE
  shop_mustrun : ShopE
  shop_mustrun_agg : ShopE
  shop_recycled : ShopE

-- The key with `c` as its first letter.
unfoldable pub put_first : ℕ → Bytes → Bytes
put_first c [] = []
put_first c (x ∷ s) = c ∷ s

-- What the code uses of the dictionary. A node is a key and an id; `nodes` are those of dict_first
-- and dict_next, `set_first` writes the first letter of the key of the node that is found.
pub record PtxDict : Type 1 where
  pub Carrier : Type 0
  pub create : Carrier
  pub nodes : Carrier → List (Bytes × Bytes)
  pub count : Carrier → ℕ
  pub lookup : Carrier → Bytes → Option (Bytes × Bytes)
  pub insert : Carrier → Bytes → Bytes → Carrier
  pub delete : Carrier → Bytes → Carrier
  pub set_first : Carrier → Bytes → ℕ → Carrier
  pub lookup-create : (k : Bytes) → lookup create k ≡ none
  pub lookup-nodes : (d : Carrier) → All (λ n. lookup d n.0 ≡ some n) (nodes d)
  pub lookup-count : (d : Carrier) (k : Bytes) → count d ≡ 0 → lookup d k ≡ none
  pub lookup_same : (d : Carrier) (j k : Bytes) → same_text j k ≡ true → lookup d j ≡ lookup d k
  pub lookup-insert_same : (d : Carrier) (k id : Bytes) → lookup (insert d k id) k ≡ some (k, id)
  pub lookup-insert_other :
      (d : Carrier) (j k id : Bytes) → same_text j k ≡ false → lookup (insert d j id) k ≡ lookup d k
  pub lookup-delete_same : (d : Carrier) (k : Bytes) → lookup (delete d k) k ≡ none
  pub lookup-delete_other :
      (d : Carrier) (j k : Bytes) → same_text j k ≡ false → lookup (delete d j) k ≡ lookup d k
  pub lookup-set_first_same :
      (d : Carrier) (k : Bytes) (c : ℕ) (key id : Bytes)
      → lookup d k ≡ some (key, id)
      → same_text key (put_first c key) ≡ true
      → lookup (set_first d k c) k ≡ some (put_first c key, id)
  pub lookup-set_first_other :
      (d : Carrier) (j k : Bytes) (c : ℕ) (key id : Bytes)
      → lookup d j ≡ some (key, id)
      → same_text key (put_first c key) ≡ true
      → same_text j k ≡ false
      → lookup (set_first d j c) k ≡ lookup d k

unfoldable pub is_some {ℓ} : {A : Type ℓ} → Option A → Bool
is_some none = false
is_some (some a) = true

module _ (dict : PtxDict) where
  -- `_shop_ptx_contains`
  unfoldable pub shop_ptx_contains : dict.Carrier → Bytes → Bool
  unfolding is_some
  shop_ptx_contains d key = is_some (dict.lookup d key)

  unfoldable pub mark_node : dict.Carrier → Bytes → Bytes → dict.Carrier
  mark_node d key [] = d
  mark_node d key (c ∷ s) = if is_upper c then dict.set_first d key (to_lower c) else d

  unfoldable pub mark_found : dict.Carrier → Bytes → Option (Bytes × Bytes) → dict.Carrier
  mark_found d key none = d
  mark_found d key (some n) = mark_node d key n.0

  -- `_shop_ptx_mark_as_seen`
  unfoldable pub shop_ptx_mark_as_seen : dict.Carrier → Bytes → dict.Carrier
  unfolding mark_node mark_found
  shop_ptx_mark_as_seen d key = mark_found d key (dict.lookup d key)

  -- `_shop_ptx_insert`
  unfoldable pub shop_ptx_insert : dict.Carrier → Bytes → Bytes → dict.Carrier
  shop_ptx_insert d key id = elim (dict.lookup d key) [ none ↦ dict.insert d key id | some n ↦ d ]

  unfoldable pub invalidate_found :
      dict.Carrier → Bytes → Bool → Option (Bytes × Bytes) → dict.Carrier
  invalidate_found d key ignored none = d
  invalidate_found d key ignored (some n) = if ignored then d else dict.delete d key

  -- `_shop_ptx_invalidate`, without its messages and its return code.
  unfoldable pub shop_ptx_invalidate : dict.Carrier → Bytes → Bool → dict.Carrier
  unfolding invalidate_found
  shop_ptx_invalidate d key ignored = invalidate_found d key ignored (dict.lookup d key)

-- The key's first letter is in lower case: the build was evaluated.
unfoldable pub is_seen : Bytes → Bool
unfolding is_lower
is_seen [] = false
is_seen (c ∷ s) = is_lower c

-- The loop of _shop_ptx_winner.
unfoldable pub first_seen : List (Bytes × Bytes) → Option (Bytes × Bytes)
unfolding is_seen
first_seen [] = none
first_seen (n ∷ ns) = if is_seen n.0 then some n else first_seen ns

-- `%c%s` with the first letter in upper case again.
unfoldable pub upper_first : Bytes → Bytes
unfolding to_upper
upper_first [] = []
upper_first (c ∷ s) = to_upper c ∷ s

-- snprintf to a buffer: one byte less than its size.
abbrev pub winner_room : ℕ
winner_room = 31

-- What is copied of a node.
unfoldable pub winner_texts : Option (Bytes × Bytes) → Option (Bytes × Bytes)
unfolding upper_first
winner_texts none = none
winner_texts (some (key, id)) = some (take winner_room (upper_first key), take winner_room id)

-- `_shop_ptx_winner`: the members `wix` and `winner` of the state that it leaves, if there is one.
unfoldable pub shop_ptx_winner : (dict : PtxDict) → dict.Carrier → Option (Bytes × Bytes)
unfolding first_seen winner_texts
shop_ptx_winner dict d = winner_texts (first_seen (dict.nodes d))
