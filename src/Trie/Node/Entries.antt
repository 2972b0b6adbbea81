-- ===== src/Trie/Node/Entries.antt =====
-- impl/op/trie/TrieNode.h: the operations on one entry of a node. `none` is an assertion that
-- fails: a missing entry, a child that is there already or is not there.
use mathlib.Core.Option
use op_magic_trie.Prelude.{ℕ, Bool, true, false, not, Option, none, some, if◌then◌else◌}
use op_magic_trie.Common.Bitset
use op_magic_trie.Trie.Node.{
  Node, presence, presence_first_set, has_child, has_value, kv_get, kv_modify, kv_erase,
  next_version,
}

unfoldable pub is_none : Option ℕ → Bool
is_none none = true
is_none (some i) = false

-- What `get_value` returns, or throws.
pub data Value (V : Type 0) : Type 0 where
  value : V → Value V
  invalid_argument : Value V
  fault : Value V

module _ {V : Type 0} where
  -- The address may be nil.
  unfoldable pub get_child : Node V → ℕ → Option (Option ℕ)
  get_child n key =
      if not (has_child n key)
      then some none
      else Option.map (λ e. let d = e in d.child) (kv_get n key)

  unfoldable pub set_child : Node V → ℕ → ℕ → Option (Node V)
  set_child n key address = elim (kv_get n key) [
    | none ↦ none
    | some e ↦
        let m = kv_modify n key (λ d. record d { child = some address }) in
        if has_child n key
        then none
        else some (record m {
          child_presence = Bitset.set m.child_presence key;
          version = next_version m.version;
        })
  ]

  abbrev pub child_removed : Node V → ℕ → Node V
  child_removed m key = record m {
    child_presence = Bitset.clear m.child_presence key;
    version = next_version m.version;
  }

  -- An entry with no value goes with its child.
  unfoldable pub remove_child : Node V → ℕ → Option (Node V)
  remove_child n key = elim (kv_get n key) [
    | none ↦ none
    | some e ↦
        let m = kv_modify n key (λ d. record d { child = none }) in
        let dropped : Option (Node V) = kv_erase m key in
        let rest : Option (Node V) =
          if has_value n key
          then some (child_removed m key)
          else elim dropped [ none ↦ none | some u ↦ some (child_removed u key) ] in
        if has_child n key then rest else none
  ]

  unfoldable pub get_value : Node V → ℕ → Value V
  get_value n key =
      if not (has_value n key)
      then invalid_argument
      else elim (kv_get n key) [ none ↦ fault | some e ↦ (let d = e in value d.value) ]

  unfoldable pub set_value : Node V → ℕ → V → Option (Node V)
  set_value n key x = elim (kv_get n key) [
    | none ↦ none
    | some e ↦
        let m = kv_modify n key (λ d. record d { value = x }) in
        some (record m {
          value_presence = Bitset.set m.value_presence key;
          version = next_version m.version;
        })
  ]

  abbrev pub value_cleared : Node V → ℕ → Node V
  value_cleared m key = record m { value_presence = Bitset.clear m.value_presence key }

  -- The part of `erase` under `erase_data`: an entry with a child stays, and loses its value.
  unfoldable pub erase_value : Node V → ℕ → Option (Node V)
  erase_value n key = elim (kv_get n key) [
    | none ↦ none
    | some e ↦
        let dropped : Option (Node V) = kv_erase n key in
        if has_child n key
        then some (value_cleared n key)
        else elim dropped [ none ↦ none | some u ↦ some (value_cleared u key) ]
  ]

  -- The result tells whether the node has no entry left.
  unfoldable pub erase : Node V → ℕ → Bool → Option (Node V × Bool)
  unfolding is_none
  erase n key erase_data =
      let m = record n { version = next_version n.version } in
      let without : Option (Node V) = erase_value m key in
      let r : Option (Node V) = if erase_data then without else some m in
      elim r [
        | none ↦ none
        | some u ↦ some (u, (if presence u key then false else is_none (presence_first_set u)))
      ]
