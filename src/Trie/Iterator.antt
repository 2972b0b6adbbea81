-- ===== src/Trie/Iterator.antt =====
-- impl/op/trie/TriePosition.h and impl/op/trie/TrieIterator.h: the path of an iterator, as far as
-- navigation and insertion keep it.
use op_magic_trie.Prelude.{
  ℕ, ◌-◌, Bool, true, false, Option, none, some, List, [], ◌∷◌, ◌++◌, length, drop,
}
use op_magic_trie.Common.Bitset.{to_dim}

pub data StemCompareResult : Type 0 where
  equals string_end stem_end unequals no_entry : StemCompareResult

-- A nil address, key or stem size is `none`; the two bits of `Terminality` are fields.
pub record TriePosition : Type 0 where
  pub address : Option ℕ
  pub key : Option ℕ
  pub stem_size : Option ℕ
  pub has_data : Bool
  pub has_child : Bool
  pub version : ℕ

-- The last position is the first of the list.
pub record TrieIterator : Type 0 where
  pub position_stack : List TriePosition
  pub prefix : List ℕ

abbrev pub end_iterator : TrieIterator
end_iterator = record { position_stack = []; prefix = [] }

-- A position of which only the address is given.
abbrev pub new_position : Option ℕ → TriePosition
new_position address = record {
  address = address;
  key = none;
  stem_size = none;
  has_data = false;
  has_child = false;
  version = 0xFFFF_FFFF;
}

-- `push(address(a))`
abbrev pub push : TrieIterator → Option ℕ → TrieIterator
push it address = record it { position_stack = new_position address ∷ it.position_stack }

abbrev on_top : (TriePosition → TriePosition) → List TriePosition → List TriePosition
on_top f [] = []
on_top f (p ∷ ps) = f p ∷ ps

-- `rat(...)` with arguments that are no key.
abbrev pub rat : TrieIterator → (TriePosition → TriePosition) → TrieIterator
rat it f = record it { position_stack = on_top f it.position_stack }

-- A key among the arguments of `rat` or `push` is appended to the prefix.
abbrev pub rat_key : TrieIterator → ℕ → (TriePosition → TriePosition) → TrieIterator
rat_key it k f = record {
  position_stack = on_top (λ p. let q = f p in record q { key = some k }) it.position_stack;
  prefix = it.prefix ++ k ∷ [];
}

abbrev pub push_key : TrieIterator → ℕ → Option ℕ → TrieIterator
push_key it k address = record {
  position_stack = (let p = new_position address in record p { key = some k }) ∷ it.position_stack;
  prefix = it.prefix ++ k ∷ [];
}

-- The length is cast to `dim_t`.
abbrev pub update_stem : TrieIterator → List ℕ → TrieIterator
update_stem it chars = record {
  position_stack = on_top (λ p. record p { stem_size = to_dim (length chars) }) it.position_stack;
  prefix = it.prefix ++ chars;
}

-- The last address, key and stem size.
abbrev pub top_address : TrieIterator → Option ℕ
top_address it = elim it.position_stack [ [] ↦ none | p ∷ ps ↦ (let q = p in q.address) ]

abbrev pub top_key : TrieIterator → Option ℕ
top_key it = elim it.position_stack [ [] ↦ none | p ∷ ps ↦ (let q = p in q.key) ]

abbrev pub top_stem : TrieIterator → Option ℕ
top_stem it = elim it.position_stack [ [] ↦ none | p ∷ ps ↦ (let q = p in q.stem_size) ]

abbrev pub is_end : TrieIterator → Bool
is_end it = elim it.position_stack [ [] ↦ true | p ∷ ps ↦ false ]

-- The last characters of the prefix.
abbrev pub suffix : TrieIterator → ℕ → List ℕ
suffix it size = drop (length it.prefix - size) it.prefix
