-- ===== src/Trie/Node/Create.antt =====
-- impl/op/trie/TrieNode.h: a new node, with the constructor and `create_interior`.
use op_magic_trie.Prelude.{
  ℕ, ◌≡◌, refl, ap, ◌∙◌, ◌⊎◌, inl, inr, true, false, none, arith, ltb, if◌then◌else◌,
}
use op_magic_trie.Common.Bitset
use op_magic_trie.Common.Bitset.Access.{get-empty, empty-IsWords}
use op_magic_trie.Trie.HashTable.{create}
use op_magic_trie.Trie.HashTable.Ring.{IsCapacity}
use op_magic_trie.Trie.HashTable.Probe.{create-IsProbed, get-create}
use op_magic_trie.Trie.Node.{Node, NodeData, hashed, plain, presence, kv_get}
use op_magic_trie.Trie.Node.Scan.{IsNode, HasStore, in_hash, in_array}
use op_magic_trie.Trie.Node.Insert.{kv_get-plain, kv_get-hashed}

module _ {V : Type 0} where
  -- Every entry is assigned `{}`, which is `blank`.
  unfoldable pub create_interior : NodeData V → ℕ → Node V
  create_interior blank capacity = record {
    child_presence = Bitset.empty;
    value_presence = Bitset.empty;
    version = 0;
    capacity = capacity;
    store = if ltb capacity 256 then hashed (create blank) else plain (λ _. blank);
  }

  module _ (blank : NodeData V) (capacity : ℕ) where
    pub create_interior-unmarked : (k : ℕ) → presence (create_interior blank capacity) k ≡ false
    unfolding create_interior presence
    create_interior-unmarked k = ground (arith, get-empty k)

    pub small_store :
        IsCapacity capacity → (create_interior blank capacity).store ≡ hashed (create blank)
    unfolding create_interior
    small_store cap = ap (λ b. if b then hashed (create blank) else plain (λ _. blank)) small
      where
        small : ltb capacity 256 ≡ true
        small = ground (arith, cap)

    pub full_store : capacity ≡ 256 → (create_interior blank capacity).store ≡ plain (λ _. blank)
    unfolding create_interior
    full_store full = rw full

    fresh_node :
        HasStore (create_interior blank capacity)
        → ((k : ℕ) → kv_get (create_interior blank capacity) k ≡ none)
        → IsNode (create_interior blank capacity)
          × ((k : ℕ) → kv_get (create_interior blank capacity) k ≡ none)
    fresh_node stored reads = (
      record {
        child_words = unfold create_interior in empty-IsWords;
        value_words = unfold create_interior in empty-IsWords;
        stored = stored;
        agrees = λ k l. rw (reads k, create_interior-unmarked k);
      },
      reads,
    )

    -- For a legal capacity, a node made by the constructor and `create_interior` is under the
    -- invariant and has no entry.
    pub create_interior-IsNode :
        IsCapacity capacity ⊎ (capacity ≡ 256)
        → IsNode (create_interior blank capacity)
          × ((k : ℕ) → kv_get (create_interior blank capacity) k ≡ none)
    create_interior-IsNode (inl cap) =
        let n = create_interior blank capacity in
        fresh_node
          (in_hash (create blank) (unfold create_interior in cap)
            (unfold create_interior in (create-IsProbed capacity cap blank)) (small_store cap))
          (λ k.
            kv_get-hashed n (create blank) k (small_store cap)
            ∙ unfold create_interior in (get-create capacity cap blank k))
    create_interior-IsNode (inr full) =
        let n = create_interior blank capacity in
        fresh_node (in_array (λ _. blank) (unfold create_interior in full) (full_store full)) (λ k.
          kv_get-plain n (λ _. blank) k (full_store full) ∙ rw (create_interior-unmarked k) refl)
