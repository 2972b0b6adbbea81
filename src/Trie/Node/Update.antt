-- ===== src/Trie/Node/Update.antt =====
-- `set_child` and `set_value` on an entry that is there.
use mathlib.Core.Option
use op_magic_trie.Prelude.{
  ℕ, ◌<◌, ◌≡◌, refl, sym, ◌∙◌, inl, inr, true, false, ◌||◌, some, arith, Bool-cases, Option-cases,
  ◌==◌, ==_iff, ==_refl, if◌then◌else◌,
}
use op_magic_trie.Common.Bitset
use op_magic_trie.Common.Bitset.Access.{get-set, set-IsWords}
use op_magic_trie.Trie.Node.{
  Node, NodeData, presence, has_child, has_value, kv_get, kv_modify, next_version,
}
use op_magic_trie.Trie.Node.Scan.{IsNode}
use op_magic_trie.Trie.Node.Entries.{get_child, set_child, get_value, set_value, value}
use op_magic_trie.Trie.Node.Same.{kv_get-same, IsNode-same}
use op_magic_trie.Trie.Node.Change.{kv_modify-IsNode, kv_get-modify, kv_modify-presence}

module _ {V : Type 0} (n : Node V) (v : IsNode n) (key : ℕ) (small : key < 256) where
  -- The child of a byte with a child mark.
  pub get_child_lem :
      (has_child n key ≡ true)
      → (e : NodeData V) × (kv_get n key ≡ some e) × (get_child n key ≡ some (let d = e in d.child))
  unfolding get_child
  get_child_lem h = elim (Option-cases (kv_get n key)) [
    | inl e ↦ absurd (ground (arith, e, v.agrees key small, marked))
    | inr (d, e) ↦ (d, e, rw (h, e))
  ]
    where
      marked : presence n key ≡ true
      marked = unfold presence has_child in ground (arith, h)

  -- `m` is `n` with the entry of the key changed by `f`.
  pub record Changes (m : Node V) (f : NodeData V → NodeData V) : Type 0 where
    pub node : IsNode m
    pub reads :
        (k : ℕ)
        → k < 256
        → kv_get m k ≡ (if k == key then Option.map f (kv_get n key) else kv_get n k)

  module _ (e : NodeData V) (here : kv_get n key ≡ some e) where
    marked : presence n key ≡ true
    marked = ground (arith, v.agrees key small, here)

    abbrev with_child : ℕ → NodeData V → NodeData V
    with_child a d = record d { child = some a }

    abbrev child_set : ℕ → Node V
    child_set a =
        let m = kv_modify n key (with_child a) in
        record m {
          child_presence = Bitset.set m.child_presence key;
          version = next_version m.version;
        }

    child_set-presence : (a k : ℕ) → presence (child_set a) k ≡ presence n k
    unfolding presence kv_modify
    child_set-presence a k = elim (Bool-cases (k == key)) [
      | inl same ↦
          let at_k : presence n k ≡ true = rw ((==_iff k key).0 same) marked in
          ground (arith, get-set n.child_presence key k, at_k)
      | inr other ↦ rw (get-set n.child_presence key k, other)
    ]

    child_set-Changes : (a : ℕ) → Changes (child_set a) (with_child a)
    child_set-Changes a =
        let m = kv_modify n key (with_child a) in
        let node = kv_modify-IsNode n v key small (with_child a) in
        let marks : (k : ℕ) → presence (child_set a) k ≡ presence m k =
          λ k. child_set-presence a k ∙ sym (kv_modify-presence n v key small (with_child a) k) in
        record {
          node =
              IsNode-same m (child_set a) refl refl node
                (set-IsWords m.child_presence key node.child_words) node.value_words marks;
          reads = λ k l.
              kv_get-same m (child_set a) refl refl k (marks k)
              ∙ kv_get-modify n v key small (with_child a) k l;
        }

    -- On a node under the invariant, for a byte that has an entry and no child mark, `set_child`
    -- returns a node under the invariant in which the entry has the new child, the byte has a child
    -- mark, and all other entries and marks stay.
    pub set_child-Changes :
        (a : ℕ)
        → has_child n key ≡ false
        → (m : Node V) × (set_child n key a ≡ some m)
          × Changes m (with_child a)
          × ((k : ℕ) → has_child m k ≡ k == key || has_child n k)
          × ((k : ℕ) → has_value m k ≡ has_value n k)
    unfolding set_child has_child has_value kv_modify
    set_child-Changes a leaf = (
      child_set a,
      rw (here, set_child, leaf),
      child_set-Changes a,
      get-set n.child_presence key,
      λ k. refl,
    )

    abbrev with_value : V → NodeData V → NodeData V
    with_value x d = record d { value = x }

    abbrev value_set : V → Node V
    value_set x =
        let m = kv_modify n key (with_value x) in
        record m {
          value_presence = Bitset.set m.value_presence key;
          version = next_version m.version;
        }

    value_set-presence : (x : V) (k : ℕ) → presence (value_set x) k ≡ presence n k
    unfolding presence kv_modify
    value_set-presence x k = elim (Bool-cases (k == key)) [
      | inl same ↦
          let at_k : presence n k ≡ true = rw ((==_iff k key).0 same) marked in
          ground (arith, get-set n.value_presence key k, at_k)
      | inr other ↦ rw (get-set n.value_presence key k, other)
    ]

    value_set-Changes : (x : V) → Changes (value_set x) (with_value x)
    value_set-Changes x =
        let m = kv_modify n key (with_value x) in
        let node = kv_modify-IsNode n v key small (with_value x) in
        let marks : (k : ℕ) → presence (value_set x) k ≡ presence m k =
          λ k. value_set-presence x k ∙ sym (kv_modify-presence n v key small (with_value x) k) in
        record {
          node =
              IsNode-same m (value_set x) refl refl node node.child_words
                (set-IsWords m.value_presence key node.value_words) marks;
          reads = λ k l.
              kv_get-same m (value_set x) refl refl k (marks k)
              ∙ kv_get-modify n v key small (with_value x) k l;
        }

    value_set-reads : (x : V) → kv_get (value_set x) key ≡ some (with_value x e)
    value_set-reads x = let c = value_set-Changes x in c.reads key small ∙ rw (==_refl key, here)

    set_value-reads_back : (x : V) → get_value (value_set x) key ≡ value x
    unfolding get_value has_value kv_modify
    set_value-reads_back x =
        let set_here : Bitset.get (Bitset.set n.value_presence key) key ≡ true =
          ground (arith, get-set n.value_presence key key, ==_refl key) in
        rw (set_here, get_value, value_set-reads x)

    -- On a node under the invariant, for a byte that has an entry, `set_value` returns a node under
    -- the invariant from which `get_value` returns the stored value; the entry differs in the value
    -- only, the byte gets a value mark, and all other entries and marks stay.
    pub get_value-set_value :
        (x : V)
        → (m : Node V) × (set_value n key x ≡ some m)
          × Changes m (with_value x)
          × (get_value m key ≡ value x)
          × ((k : ℕ) → has_value m k ≡ k == key || has_value n k)
          × ((k : ℕ) → has_child m k ≡ has_child n k)
    unfolding set_value get_value has_child has_value kv_modify
    get_value-set_value x = (
      value_set x,
      rw (here, set_value),
      value_set-Changes x,
      set_value-reads_back x,
      get-set n.value_presence key,
      λ k. refl,
    )
