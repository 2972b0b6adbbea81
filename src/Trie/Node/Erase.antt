-- ===== src/Trie/Node/Erase.antt =====
-- `erase` on an entry that is there.
use op_magic_trie.Prelude.{
  ◌↔◌, ℕ, ◌<◌, ◌≡◌, refl, ◌∙◌, inl, inr, Bool, true, false, not, ◌&&◌, Option, none, some, arith,
  Bool-cases, ◌==◌, ==_iff, if◌then◌else◌,
}
use op_magic_trie.Common.Bitset
use op_magic_trie.Common.Bitset.Access.{get-clear, clear-IsWords}
use op_magic_trie.Trie.Node.{
  Node, NodeData, Store, presence, presence_first_set, has_child, has_value, kv_get, next_version,
}
use op_magic_trie.Trie.Node.Scan.{IsNode, first-LeastFrom}
use op_magic_trie.Common.Bitset.Scan.{LeastFrom}
use op_magic_trie.Trie.Node.Entries.{erase_value, value_cleared, erase, is_none}
use op_magic_trie.Trie.Node.Same.{kv_get-same, IsNode-same}
use op_magic_trie.Trie.Node.Change.{kv_erase-Drops, Drops}
use op_magic_trie.Trie.Node.Removal.{Drops-IsNode}

module _ {V : Type 0} (n : Node V) (v : IsNode n) (key : ℕ) (small : key < 256) (e : NodeData V)
    (here : kv_get n key ≡ some e) where
  marked : presence n key ≡ true
  marked = ground (arith, v.agrees key small, here)

  -- What `erase_value` leaves.
  abbrev pub ValueGone : Node V → Type 0
  ValueGone w =
      IsNode w
      × ((k : ℕ) → has_value w k ≡ not (k == key) && has_value n k)
      × ((k : ℕ) → has_child w k ≡ has_child n k)
      × ((k : ℕ)
          → k < 256
          → kv_get w k
            ≡ (if k == key then (if has_child n key then some e else none) else kv_get n k))

  value_kept-presence :
      has_child n key ≡ true → (k : ℕ) → presence (value_cleared n key) k ≡ presence n k
  unfolding presence has_child
  value_kept-presence parent k = elim (Bool-cases (k == key)) [
    | inl same ↦
        let at_k : Bitset.get n.child_presence k ≡ true = rw ((==_iff k key).0 same) parent in
        ground (arith, get-clear n.value_presence key k, at_k)
    | inr other ↦ rw (get-clear n.value_presence key k, other)
  ]

  value_kept : has_child n key ≡ true → ValueGone (value_cleared n key)
  unfolding has_child has_value
  value_kept parent = (
    IsNode-same n (value_cleared n key) refl refl v v.child_words
        (clear-IsWords n.value_presence key v.value_words) marks,
    get-clear n.value_presence key,
    λ k. refl,
    λ k l.
        kv_get-same n (value_cleared n key) refl refl k (marks k) ∙ elim (Bool-cases (k == key)) [
          | inl same ↦ rw (same, parent, (==_iff k key).0 same) here
          | inr other ↦ rw other
        ],
  )
    where
      marks : (k : ℕ) → presence (value_cleared n key) k ≡ presence n k
      marks = value_kept-presence parent

  abbrev value_rest : Store V → Node V
  value_rest s = value_cleared (record n { store = s }) key

  value_dropped-presence :
      has_child n key ≡ false
      → (s : Store V) (k : ℕ) → presence (value_rest s) k ≡ not (k == key) && presence n k
  unfolding presence has_child
  value_dropped-presence bare s k = elim (Bool-cases (k == key)) [
    | inl same ↦
        let at_k : Bitset.get n.child_presence k ≡ false = rw ((==_iff k key).0 same) bare in
        ground (arith, get-clear n.value_presence key k, at_k, same)
    | inr other ↦ rw (get-clear n.value_presence key k, other)
  ]

  value_dropped :
      has_child n key ≡ false → (s : Store V) → Drops n v key small s → ValueGone (value_rest s)
  unfolding has_child has_value
  value_dropped bare s d = (
    Drops-IsNode n v key small s d (value_rest s) refl refl v.child_words
        (clear-IsWords n.value_presence key v.value_words) marks,
    get-clear n.value_presence key,
    λ k. refl,
    λ k l. d.reads (value_rest s) refl refl marks k l ∙ ground (arith, bare),
  )
    where
      marks : (k : ℕ) → presence (value_rest s) k ≡ not (k == key) && presence n k
      marks = value_dropped-presence bare s

  pub erase_value-ValueGone : (w : Node V) × (erase_value n key ≡ some w) × ValueGone w
  unfolding erase_value
  erase_value-ValueGone = elim (Bool-cases (has_child n key)) [
    | inl parent ↦ (value_cleared n key, rw (here, erase_value, parent), value_kept parent)
    | inr bare ↦
        let (s, d) = kv_erase-Drops n v key small in
        (
          value_rest s,
          rw (here, erase_value, bare) (rw (d.run, erase_value)),
          value_dropped bare s d,
        )
  ]

module _ {V : Type 0} (n : Node V) (v : IsNode n) where
  abbrev bumped : Node V
  bumped = record n { version = next_version n.version }

  bumped-IsNode : IsNode bumped
  unfolding presence
  bumped-IsNode = IsNode-same n bumped refl refl v v.child_words v.value_words (λ k. refl)

  -- The test for a node with no entry left.
  abbrev left_empty : Node V → ℕ → Bool
  left_empty u key = if presence u key then false else is_none (presence_first_set u)

  module _ (u : Node V) (vu : IsNode u) (key : ℕ) (small : key < 256) where
    none_left :
        (r : Option ℕ)
        → LeastFrom (presence u) 0 256 r
        → (is_none r ≡ true) ↔ ((k : ℕ) → k < 256 → presence u k ≡ false)
    unfolding is_none
    none_left none h = (λ e k l. h k (omega arith) l, λ f. refl)
    none_left (some k) (lo, hi, here, before) =
        (λ e. ground (arith, e), λ f. ground (arith, f k hi, here))

    left_empty_iff : (left_empty u key ≡ true) ↔ ((k : ℕ) → k < 256 → presence u k ≡ false)
    left_empty_iff = elim (Bool-cases (presence u key)) [
      | inl marked ↦ rw marked (λ e. ground (arith, e), λ f. ground (arith, f key small, marked))
      | inr free ↦ rw free (none_left (presence_first_set u) (first-LeastFrom u vu))
    ]

  -- What `erase` leaves of the node and the result: the value of the key is gone if `erase_data`
  -- is set, with its entry if that had no child.
  pub record Erased (key : ℕ) (e : NodeData V) (erase_data : Bool) (w : Node V) (last : Bool)
      : Type 0 where
    pub node : IsNode w
    pub values : (k : ℕ) → has_value w k ≡ not (erase_data && (k == key)) && has_value n k
    pub children : (k : ℕ) → has_child w k ≡ has_child n k
    pub reads :
        (k : ℕ)
        → k < 256
        → kv_get w k ≡ (
            if erase_data && (k == key)
            then (if has_child n key then some e else none)
            else kv_get n k)
    pub empty : (last ≡ true) ↔ ((k : ℕ) → k < 256 → presence w k ≡ false)

  -- On a node under the invariant, for a byte that has an entry, `erase` returns a node under the
  -- invariant: with `erase_data` the byte loses its value mark, and its entry unless it has a
  -- child, and nothing else changes; without it every entry and mark stays. The result is true
  -- exactly when no byte of the new node is marked.
  pub erase-Erased :
      (key : ℕ)
      → key < 256
      → (e : NodeData V) → kv_get n key ≡ some e
      → (erase_data : Bool)
      → (w : Node V) × (last : Bool) × (erase n key erase_data ≡ some (w, last))
        × Erased key e erase_data w last
  unfolding erase has_child has_value
  erase-Erased key small e here false = (
    bumped,
    left_empty bumped key,
    refl,
    record {
      node = bumped-IsNode;
      values = λ k. refl;
      children = λ k. refl;
      reads = λ k l. kv_get-same n bumped refl refl k (unfold presence in refl);
      empty = left_empty_iff bumped bumped-IsNode key small;
    },
  )
  erase-Erased key small e here true =
      let same : (k : ℕ) → kv_get bumped k ≡ kv_get n k =
        λ k. kv_get-same n bumped refl refl k (unfold presence in refl) in
      let (w, run, (node, values, children, reads)) =
        erase_value-ValueGone bumped bumped-IsNode key small e (same key ∙ here) in
      (
        w,
        left_empty w key,
        rw (run, erase),
        record {
          node = node;
          values = values;
          children = children;
          reads = λ k l. reads k l ∙ rw (same k) refl;
          empty = left_empty_iff w node key small;
        },
      )

  -- What `erase` with the flag off leaves.
  pub record Kept (w : Node V) (last : Bool) : Type 0 where
    pub node : IsNode w
    pub values : (k : ℕ) → has_value w k ≡ has_value n k
    pub children : (k : ℕ) → has_child w k ≡ has_child n k
    pub reads : (k : ℕ) → kv_get w k ≡ kv_get n k
    pub empty : (last ≡ true) ↔ ((k : ℕ) → k < 256 → presence w k ≡ false)

  pub erase-Kept :
      (key : ℕ)
      → key < 256
      → (w : Node V) × (last : Bool) × (erase n key false ≡ some (w, last)) × Kept w last
  unfolding erase has_child has_value
  erase-Kept key small = (
    bumped,
    left_empty bumped key,
    refl,
    record {
      node = bumped-IsNode;
      values = λ k. refl;
      children = λ k. refl;
      reads = λ k. kv_get-same n bumped refl refl k (unfold presence in refl);
      empty = left_empty_iff bumped bumped-IsNode key small;
    },
  )
