-- ===== src/Trie/Node/Moved.antt =====
-- What `move_from_entry` leaves of the source and of a new target.
use mathlib.Core.Option
use op_magic_trie.Prelude.{
  ℕ, ◌<◌, ◌≡◌, refl, sym, ◌∙◌, ◌⊎◌, inl, inr, Bool, true, false, not, ◌&&◌, ◌||◌, none, some, List,
  ◌∷◌, take, drop, arith, Bool-cases, ◌==◌, ==_iff, if◌then◌else◌,
}
use op_magic_trie.Common.Bitset
use op_magic_trie.Common.Bitset.Access.{
  IsWords, get-set, get-clear, get-assign, get-empty, set-IsWords, clear-IsWords, empty-IsWords,
}
use op_magic_trie.Trie.HashTable.Ring.{IsCapacity}
use op_magic_trie.Trie.Node.{
  Node, NodeData, Store, presence, has_child, has_value, kv_get, kv_modify,
}
use op_magic_trie.Trie.Node.Scan.{IsNode}
use op_magic_trie.Trie.Node.Create.{create_interior}
use op_magic_trie.Trie.Node.Split.{
  stem_of, target_data, source_after, target_after, move_parts, move_from_entry,
}
use op_magic_trie.Trie.Node.Same.{kv_get-same, IsNode-same}
use op_magic_trie.Trie.Node.Change.{kv_modify-IsNode, kv_get-modify, kv_modify-presence}
use op_magic_trie.Trie.Node.Filled.{Filled, filled}

-- Marks that are written under a test.
module _ (bits : Bitset.Bitset) (key k : ℕ) where
  get-clear_if :
      (b : Bool)
      → Bitset.get (if b then Bitset.clear bits key else bits) k
        ≡ (if b then not (k == key) && Bitset.get bits k else Bitset.get bits k)
  get-clear_if true = get-clear bits key k
  get-clear_if false = refl

  get-set_if :
      (b : Bool)
      → Bitset.get (if b then Bitset.set bits key else bits) k
        ≡ (k == key) && b || Bitset.get bits k
  get-set_if true = get-set bits key k ∙ ground arith
  get-set_if false = ground arith

module _ (bits : Bitset.Bitset) (key : ℕ) (words : IsWords bits) where
  clear_if-IsWords : (b : Bool) → IsWords (if b then Bitset.clear bits key else bits)
  clear_if-IsWords true = clear-IsWords bits key words
  clear_if-IsWords false = words

  assign-IsWords : (b : Bool) → IsWords (Bitset.assign bits key b)
  unfolding Bitset.assign
  assign-IsWords true = set-IsWords bits key words
  assign-IsWords false = clear-IsWords bits key words

  set_if-IsWords : (b : Bool) → IsWords (if b then Bitset.set bits key else bits)
  set_if-IsWords true = set-IsWords bits key words
  set_if-IsWords false = words

-- What the call leaves: the source `m` and the target `u`, when the entry `e` of the source is split
-- between the stems `left` and `rest`.
pub record Splits {V : Type 0} (blank : NodeData V) (n : Node V) (key address new_key : ℕ)
    (e : NodeData V) (left rest : List ℕ) (m u : Node V) : Type 0 where
  pub source : IsNode m
  pub target : IsNode u
  pub source_reads :
      (k : ℕ)
      → k < 256
      → kv_get m k ≡ (
          if k == key
          then some (record { child = some address; stem = stem_of left; value = e.value })
          else kv_get n k)
  pub source_children : (k : ℕ) → has_child m k ≡ k == key || has_child n k
  pub source_values : (k : ℕ) → has_value m k ≡ not (k == key) && has_value n k
  pub target_reads :
      (k : ℕ)
      → kv_get u k
        ≡ (if k == new_key then some (target_data blank (has_value n key) e rest) else none)
  pub target_children : (k : ℕ) → has_child u k ≡ (k == new_key) && has_child n key
  pub target_values : (k : ℕ) → has_value u k ≡ (k == new_key) && has_value n key

module _ {V : Type 0} (blank : NodeData V) (n : Node V) (v : IsNode n) (key : ℕ) (small : key < 256)
    (e : NodeData V) (here : kv_get n key ≡ some e) (left : List ℕ) (address : ℕ) where
  marked : presence n key ≡ true
  marked = ground (arith, v.agrees key small, here)

  abbrev hang : NodeData V → NodeData V
  hang d = record d { child = some address; stem = stem_of left }

  abbrev m : Node V
  m = source_after n key left address

  m-values : (k : ℕ) → has_value m k ≡ not (k == key) && has_value n k
  unfolding has_value kv_modify
  m-values k =
      let cleared = get-clear_if n.value_presence key k (has_value n key) in
      elim (Bool-cases (k == key)) [
        | inl same ↦
            rw ((==_iff k key).0 same)
              (ground (arith, get-clear_if n.value_presence key key (has_value n key)))
        | inr other ↦ ground (arith, cleared)
      ]

  m-children : (k : ℕ) → has_child m k ≡ k == key || has_child n k
  unfolding has_child kv_modify
  m-children = get-set n.child_presence key

  m-presence : (k : ℕ) → presence m k ≡ presence n k
  unfolding presence has_value has_child
  m-presence k = elim (Bool-cases (k == key)) [
    | inl same ↦
        let there : presence n k ≡ true = rw ((==_iff k key).0 same) marked in
        ground (arith, m-children k, there)
    | inr other ↦ ground (arith, m-children k, m-values k)
  ]

  m-IsWords : IsWords m.value_presence
  m-IsWords = clear_if-IsWords n.value_presence key v.value_words (has_value n key)

  m-IsNode : IsNode m
  m-IsNode =
      let w = kv_modify n key hang in
      let node = kv_modify-IsNode n v key small hang in
      IsNode-same w m refl refl node (set-IsWords n.child_presence key v.child_words) m-IsWords
        (λ k. m-presence k ∙ sym (kv_modify-presence n v key small hang k))

  m-reads :
      (k : ℕ)
      → k < 256
      → kv_get m k ≡ (
          if k == key
          then some (record { child = some address; stem = stem_of left; value = e.value })
          else kv_get n k)
  m-reads k l =
      kv_get-same (kv_modify n key hang) m refl refl k
        (m-presence k ∙ sym (kv_modify-presence n v key small hang k))
      ∙ kv_get-modify n v key small hang k l
      ∙ unfold Option.map in rw here refl

  module _ (c new_key : ℕ) (rest : List ℕ) (s : Store V)
      (fill : Filled blank c new_key (target_data blank (has_value n key) e rest) s) where
    abbrev u : Node V
    u = target_after n key (create_interior blank c) new_key s

    u-children : (k : ℕ) → has_child u k ≡ (k == new_key) && has_child n key
    unfolding has_child create_interior
    u-children k = get-assign Bitset.empty new_key k (has_child n key) ∙ ground (arith, get-empty k)

    u-values : (k : ℕ) → has_value u k ≡ (k == new_key) && has_value n key
    unfolding has_value create_interior
    u-values k = get-set_if Bitset.empty new_key k (has_value n key) ∙ ground (arith, get-empty k)

    u-presence : (k : ℕ) → presence u k ≡ k == new_key
    unfolding presence has_child has_value
    u-presence k = ground (arith, u-children k, u-values k, marked)

    u-reads :
        (k : ℕ)
        → kv_get u k
          ≡ (if k == new_key then some (target_data blank (has_value n key) e rest) else none)
    u-reads = fill.reads u refl (unfold create_interior in refl) u-presence

    u-IsNode : IsNode u
    unfolding create_interior
    u-IsNode = record {
      child_words = assign-IsWords Bitset.empty new_key empty-IsWords (has_child n key);
      value_words = set_if-IsWords Bitset.empty new_key empty-IsWords (has_value n key);
      stored = fill.store u refl (unfold create_interior in refl);
      agrees = λ k l. ground (arith, u-reads k, u-presence k);
    }

    m-u-Splits : Splits blank n key address new_key e left rest m u
    m-u-Splits = record {
      source = m-IsNode;
      target = u-IsNode;
      source_reads = m-reads;
      source_children = m-children;
      source_values = m-values;
      target_reads = u-reads;
      target_children = u-children;
      target_values = u-values;
    }

-- On a node under the invariant, for an entry whose stem has the byte `new_key` at `in_stem_pos`,
-- and a new node of a legal capacity, `move_from_entry` returns two nodes under the invariant: the
-- entry of the source keeps the stem before the place, has the target as its child and no value;
-- the target has one entry, at `new_key`, with the stem behind the place and the child and the
-- value that the source had; all other entries of the source read as before.
pub move_from_entry-Splits :
    {V : Type 0} (blank : NodeData V) (n : Node V) (key in_stem_pos address c new_key : ℕ)
    (e : NodeData V) (stem rest : List ℕ)
    → IsNode n
    → key < 256
    → kv_get n key ≡ some e
    → e.stem ≡ some stem
    → drop in_stem_pos stem ≡ new_key ∷ rest
    → IsCapacity c ⊎ (c ≡ 256)
    → (m : Node V) × (u : Node V) × (move_from_entry blank n key in_stem_pos
          (create_interior blank c)
          address
        ≡ some (m, u))
      × Splits blank n key address new_key e (take in_stem_pos stem) rest m u
unfolding move_from_entry move_parts
move_from_entry-Splits {V} blank n key in_stem_pos address c new_key e stem rest v small here has at
      cap =
    let left = take in_stem_pos stem in
    let (s, fill) = filled blank c new_key (target_data blank (has_value n key) e rest) cap in
    (
      source_after n key left address,
      target_after n key (create_interior blank c) new_key s,
      rw (here, move_from_entry, has, at) (rw (fill.run, move_parts) refl),
      m-u-Splits blank n v key small e here left address c new_key rest s fill,
    )
