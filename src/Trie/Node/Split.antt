-- ===== src/Trie/Node/Split.antt =====
-- impl/op/trie/TrieNode.h: `move_to` and `move_from_entry`, which split the stem of an entry and
-- hang the rest of it under a new node.
use op_magic_trie.Prelude.{
  ℕ, Bool, true, false, Option, none, some, List, [], ◌∷◌, take, drop, if◌then◌else◌,
}
use op_magic_trie.Common.Bitset
use op_magic_trie.Trie.Node.{
  Node, NodeData, Store, has_child, has_value, kv_get, kv_modify, store_insert, next_version,
}

-- An empty stem is stored as nil.
unfoldable pub stem_of : List ℕ → Option (List ℕ)
stem_of [] = none
stem_of (a ∷ rest) = some (a ∷ rest)

module _ {V : Type 0} where
  -- The entry of the target; without a value it keeps that of `{}`.
  abbrev pub target_data : NodeData V → Bool → NodeData V → List ℕ → NodeData V
  target_data blank valued source rest = record {
    child = source.child;
    stem = stem_of rest;
    value = if valued then source.value else blank.value;
  }

  -- The source and the target when the target had room.
  abbrev pub source_after : Node V → ℕ → List ℕ → ℕ → Node V
  source_after n key left address =
      let m = kv_modify n key (λ d. record d { child = some address; stem = stem_of left }) in
      record m {
        child_presence = Bitset.set n.child_presence key;
        value_presence =
            if has_value n key then Bitset.clear n.value_presence key else n.value_presence;
        version = next_version n.version;
      }

  abbrev pub target_after : Node V → ℕ → Node V → ℕ → Store V → Node V
  target_after n key t new_key s = record t {
    child_presence = Bitset.assign t.child_presence new_key (has_child n key);
    value_presence =
        if has_value n key then Bitset.set t.value_presence new_key else t.value_presence;
    version = next_version t.version;
    store = s;
  }

  unfoldable pub move_parts :
      NodeData V → Node V → ℕ → NodeData V → List ℕ → List ℕ → Node V → ℕ → Option (Node V × Node V)
  move_parts blank n key source left [] t address = none
  move_parts blank n key source left (new_key ∷ rest) t address =
      elim (store_insert t t.store new_key (λ _. target_data blank (has_value n key) source rest)) [
        | none ↦ none
        | some (s, true) ↦ some (source_after n key left address, target_after n key t new_key s)
        | some (s, false) ↦ some (
          record (kv_modify n key (λ d. record d { stem = stem_of left })) {
            version = next_version n.version;
          },
          record t { version = next_version t.version },
        )
      ]

  -- Both nodes after the call. `none` is a missing entry or stem, or a place behind the stem.
  unfoldable pub move_from_entry :
      NodeData V → Node V → ℕ → ℕ → Node V → ℕ → Option (Node V × Node V)
  unfolding move_parts
  move_from_entry blank n key in_stem_pos t address = elim (kv_get n key) [
    | none ↦ none
    | some source ↦
        (let d = source in
          elim d.stem [
            | none ↦ none
            | some stem ↦
                move_parts blank n key source (take in_stem_pos stem) (drop in_stem_pos stem) t
                  address
          ])
  ]
