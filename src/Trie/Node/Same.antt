-- ===== src/Trie/Node/Same.antt =====
-- Nodes that differ in bit sets and version only.
use op_magic_trie.Prelude.{ℕ, ◌≡◌, refl, sym, ap, ◌∙◌, Bool, Option, none, some, if◌then◌else◌}
use op_magic_trie.Common.Bitset.Access.{IsWords}
use op_magic_trie.Trie.HashTable
use op_magic_trie.Trie.Node.{Node, NodeData, Store, hashed, plain, presence, kv_get, store_get}
use op_magic_trie.Trie.Node.Scan.{is_some, IsNode, HasStore, in_hash, in_array}

module _ {V : Type 0} where
  -- What `get` of a container depends on.
  read : ℕ → Bool → Store V → ℕ → Option (NodeData V)
  read c marked (hashed t) key = HashTable.get c t key
  read c marked (plain d) key = if marked then some (d key) else none

  store_get-read :
      (n : Node V) (s : Store V) (key : ℕ)
      → store_get n s key ≡ read n.capacity (presence n key) s key
  unfolding store_get read
  store_get-read n (hashed t) key = refl
  store_get-read n (plain d) key = refl

  module _ (m w : Node V) (same_store : w.store ≡ m.store)
      (same_capacity : w.capacity ≡ m.capacity) where
    pub kv_get-same : (k : ℕ) → presence w k ≡ presence m k → kv_get w k ≡ kv_get m k
    unfolding kv_get
    kv_get-same k e =
        store_get-read w w.store k
        ∙ (λ i. read (same_capacity i) (e i) (same_store i) k)
        ∙ sym (store_get-read m m.store k)

    pub HasStore-same : HasStore m → HasStore w
    HasStore-same (in_hash t c inv e) =
        in_hash t (rw same_capacity c) (rw same_capacity inv) (same_store ∙ e)
    HasStore-same (in_array d full e) = in_array d (same_capacity ∙ full) (same_store ∙ e)

    pub IsNode-same :
        IsNode m
        → IsWords w.child_presence
        → IsWords w.value_presence
        → ((k : ℕ) → presence w k ≡ presence m k)
        → IsNode w
    IsNode-same v child_words value_words marks = record {
      child_words = child_words;
      value_words = value_words;
      stored = HasStore-same v.stored;
      agrees = λ k l. ap is_some (kv_get-same k (marks k)) ∙ v.agrees k l ∙ sym (marks k);
    }
