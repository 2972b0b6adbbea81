-- ===== src/Trie/Node/Scan.antt =====
-- The keys of a node in order: `presence_first_set` and `presence_next_set`, and the invariant.
use Prim.Native.Nat.{min}
use native.Mathlib.Decide.{dec_lt}
use op_magic_trie.Prelude.{ℕ, suc, ◌<◌, ◌≡◌, Bool, true, false, ◌||◌, Option, none, some, arith}
use op_magic_trie.Common.Bitset.Access.{IsWords}
use op_magic_trie.Common.Bitset.Scan.{
  LeastFrom, first_set-LeastFrom, next_set-LeastFrom, next_set_or_this-LeastFrom,
}
use op_magic_trie.Trie.HashTable.{Table}
use op_magic_trie.Trie.HashTable.Ring.{IsCapacity}
use op_magic_trie.Trie.HashTable.Probe.{IsProbed}
use op_magic_trie.Trie.Node.{
  Node, NodeData, hashed, plain, nearest, presence, presence_first_set, presence_next_set,
  presence_next_set_or_this, kv_get,
}

nearest-LeastFrom :
    (p q : ℕ → Bool) (from to : ℕ) (r s : Option ℕ)
    → LeastFrom p from to r
    → LeastFrom q from to s
    → LeastFrom (λ j. p j || q j) from to (nearest r s)
unfolding nearest
nearest-LeastFrom p q from to none none h k = λ j lo hi. ground (arith, h j lo hi, k j lo hi)
nearest-LeastFrom p q from to none (some d) h (lo, hi, here, before) =
    (lo, hi, ground (arith, here), λ j l u. ground (arith, h j l (omega arith), before j l u))
nearest-LeastFrom p q from to (some c) none (lo, hi, here, before) k =
    (lo, hi, ground (arith, here), λ j l u. ground (arith, k j l (omega arith), before j l u))
nearest-LeastFrom p q from to (some c) (some d) (lo, hi, here, before) (lo', hi', here', before') =
    elim (dec_lt d c) [
      | yes l ↦
          let e : min d c ≡ d = omega arith in
          rw e (
            lo',
            hi',
            ground (arith, here'),
            λ j l u. ground (arith, before j l (omega arith), before' j l u),
          )
      | no l ↦
          let e : min d c ≡ c = omega arith in
          rw e (
            lo,
            hi,
            ground (arith, here),
            λ j l u. ground (arith, before j l u, before' j l (omega arith)),
          )
    ]

abbrev pub is_some {ℓ} : {A : Type ℓ} → Option A → Bool
is_some none = false
is_some (some a) = true

module _ {V : Type 0} where
  -- The store is the one that `kv_container` makes for the capacity.
  pub data HasStore (n : Node V) : Type 0 where
    in_hash :
        (t : Table (NodeData V))
        → IsCapacity n.capacity
        → IsProbed n.capacity t
        → n.store ≡ hashed t
        → HasStore n
    in_array : (d : ℕ → NodeData V) → n.capacity ≡ 256 → n.store ≡ plain d → HasStore n

  -- A key has an entry exactly when one of the bit sets marks it.
  pub record IsNode (n : Node V) : Type 0 where
    pub child_words : IsWords n.child_presence
    pub value_words : IsWords n.value_presence
    pub stored : HasStore n
    pub agrees : (k : ℕ) → k < 256 → is_some (kv_get n k) ≡ presence n k

  module _ (n : Node V) (v : IsNode n) where
    -- `first` is the least key of the node.
    pub first-LeastFrom : LeastFrom (presence n) 0 256 (presence_first_set n)
    unfolding presence_first_set presence
    first-LeastFrom =
        nearest-LeastFrom _ _ 0 256 _ _
          (first_set-LeastFrom 4 n.child_presence (omega arith) v.child_words)
          (first_set-LeastFrom 4 n.value_presence (omega arith) v.value_words)

    -- On a node under the invariant, `presence_next_set` returns the least marked byte behind a
    -- byte, and none when there is none.
    pub next-LeastFrom :
        (previous : ℕ)
        → previous < 256
        → LeastFrom (presence n) (suc previous) 256 (presence_next_set n previous)
    unfolding presence_next_set presence
    next-LeastFrom previous h =
        nearest-LeastFrom _ _ (suc previous) 256 _ _
          (next_set-LeastFrom 4 n.child_presence previous (omega arith) v.child_words h)
          (next_set-LeastFrom 4 n.value_presence previous (omega arith) v.value_words h)

    -- `next_or_this` is the least key of the node at `previous` or behind it.
    pub next_or_this-LeastFrom :
        (previous : ℕ)
        → previous < 256
        → LeastFrom (presence n) previous 256 (presence_next_set_or_this n previous)
    unfolding presence_next_set_or_this presence
    next_or_this-LeastFrom previous h =
        nearest-LeastFrom _ _ previous 256 _ _
          (next_set_or_this-LeastFrom 4 n.child_presence previous (omega arith) v.child_words h)
          (next_set_or_this-LeastFrom 4 n.value_presence previous (omega arith) v.value_words h)
