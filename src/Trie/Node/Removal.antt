-- ===== src/Trie/Node/Removal.antt =====
-- `remove_child` on an entry that is there.
use op_magic_trie.Prelude.{
  ℕ, ◌<◌, ◌≡◌, refl, sym, ◌∙◌, inl, inr, true, false, not, ◌&&◌, none, some, arith, Bool-cases,
  ◌==◌, ==_iff, if◌then◌else◌,
}
use op_magic_trie.Common.Bitset
use op_magic_trie.Common.Bitset.Access.{IsWords, get-clear, clear-IsWords}
use op_magic_trie.Trie.Node.{
  Node, NodeData, Store, presence, has_child, has_value, kv_get, kv_modify,
}
use op_magic_trie.Trie.Node.Scan.{IsNode}
use op_magic_trie.Trie.Node.Entries.{remove_child, child_removed}
use op_magic_trie.Trie.Node.Same.{kv_get-same, IsNode-same}
use op_magic_trie.Trie.Node.Change.{
  kv_modify-IsNode, kv_get-modify, kv_modify-presence, kv_erase-Drops, Drops,
}

abbrev childless : {V : Type 0} → NodeData V → NodeData V
childless d = record d { child = none }

-- A node `w` without the entry that `kv_erase` drops from `m`.
module _ {V : Type 0} (m : Node V) (v : IsNode m) (key : ℕ) (small : key < 256) (s : Store V)
    (dropped : Drops m v key small s) (w : Node V) where
  pub Drops-IsNode :
      w.store ≡ s
      → w.capacity ≡ m.capacity
      → IsWords w.child_presence
      → IsWords w.value_presence
      → ((k : ℕ) → presence w k ≡ not (k == key) && presence m k)
      → IsNode w
  Drops-IsNode same_store same_capacity child_words value_words marks = record {
    child_words = child_words;
    value_words = value_words;
    stored = dropped.store w same_store same_capacity;
    agrees = λ k l.
        ground (arith, dropped.reads w same_store same_capacity marks k l, marks k, v.agrees k l);
  }

module _ {V : Type 0} (n : Node V) (v : IsNode n) (key : ℕ) (small : key < 256) (e : NodeData V)
    (here : kv_get n key ≡ some e) where
  abbrev m : Node V
  m = kv_modify n key childless

  vm : IsNode m
  vm = kv_modify-IsNode n v key small childless

  -- What `remove_child` leaves.
  abbrev pub ChildGone : Node V → Type 0
  ChildGone w =
      IsNode w
      × ((k : ℕ) → has_child w k ≡ not (k == key) && has_child n k)
      × ((k : ℕ) → has_value w k ≡ has_value n k)
      × ((k : ℕ)
          → k < 256
          → kv_get w k ≡ (
              if k == key
              then (if has_value n key then some (childless e) else none)
              else kv_get n k))

  marked : presence n key ≡ true
  marked = ground (arith, v.agrees key small, here)

  child_kept-presence :
      has_value n key ≡ true → (k : ℕ) → presence (child_removed m key) k ≡ presence n k
  unfolding presence has_value kv_modify
  child_kept-presence valued k = elim (Bool-cases (k == key)) [
    | inl same ↦
        let at_k : Bitset.get n.value_presence k ≡ true = rw ((==_iff k key).0 same) valued in
        ground (arith, get-clear n.child_presence key k, at_k)
    | inr other ↦ rw (get-clear n.child_presence key k, other)
  ]

  child_kept : has_value n key ≡ true → ChildGone (child_removed m key)
  unfolding has_child has_value kv_modify
  child_kept valued = (
    IsNode-same m (child_removed m key) refl refl vm
        (clear-IsWords m.child_presence key vm.child_words) vm.value_words marks,
    get-clear n.child_presence key,
    λ k. refl,
    λ k l.
        kv_get-same m (child_removed m key) refl refl k (marks k)
        ∙ kv_get-modify n v key small childless k l
        ∙ ground (arith, here, valued),
  )
    where
      marks : (k : ℕ) → presence (child_removed m key) k ≡ presence m k
      marks k = child_kept-presence valued k ∙ sym (kv_modify-presence n v key small childless k)

  abbrev child_rest : Store V → Node V
  child_rest s = child_removed (record m { store = s }) key

  child_dropped-presence :
      has_value n key ≡ false
      → (s : Store V) (k : ℕ) → presence (child_rest s) k ≡ not (k == key) && presence n k
  unfolding presence has_value kv_modify
  child_dropped-presence bare s k = elim (Bool-cases (k == key)) [
    | inl same ↦
        let at_k : Bitset.get n.value_presence k ≡ false = rw ((==_iff k key).0 same) bare in
        ground (arith, get-clear n.child_presence key k, at_k, same)
    | inr other ↦ rw (get-clear n.child_presence key k, other)
  ]

  child_dropped :
      has_value n key ≡ false → (s : Store V) → Drops m vm key small s → ChildGone (child_rest s)
  unfolding has_child has_value kv_modify
  child_dropped bare s d = (
    Drops-IsNode m vm key small s d (child_rest s) refl refl
        (clear-IsWords m.child_presence key vm.child_words) vm.value_words marks,
    get-clear n.child_presence key,
    λ k. refl,
    λ k l.
        d.reads (child_rest s) refl refl marks k l
        ∙ ground (arith, kv_get-modify n v key small childless k l, bare),
  )
    where
      marks : (k : ℕ) → presence (child_rest s) k ≡ not (k == key) && presence m k
      marks k =
          child_dropped-presence bare s k ∙ rw (kv_modify-presence n v key small childless k) refl

  -- On a node under the invariant, for a byte that has an entry and a child mark, `remove_child`
  -- returns a node under the invariant in which the byte has no child mark; its entry stays with a
  -- nil child when it has a value and is gone otherwise; all other entries and marks stay.
  pub remove_child-ChildGone :
      has_child n key ≡ true → (w : Node V) × (remove_child n key ≡ some w) × ChildGone w
  unfolding remove_child
  remove_child-ChildGone inner = elim (Bool-cases (has_value n key)) [
    | inl valued ↦ (child_removed m key, rw (here, remove_child, inner, valued), child_kept valued)
    | inr bare ↦
        let (s, d) = kv_erase-Drops m vm key small in
        (
          child_rest s,
          rw (here, remove_child, inner, bare) (rw (d.run, remove_child)),
          child_dropped bare s d,
        )
  ]
