-- ===== src/Trie/Tree/Navigate.antt =====
-- impl/op/trie/Trie.h and impl/op/trie/TrieIterator.h: the moves of an iterator, `lower_bound` and
-- `find`. `none` is an assertion that fails or an exception; the iterator is in sync with the trie.
pub mod Finds
pub mod Lex
pub mod Least
pub mod Track
pub mod Load
pub mod First
pub mod Follows
pub mod Right
pub mod Next
pub mod Begin
pub mod Tracked
pub mod Sibling
pub mod OneKey
mod Tests
use op_magic_trie.Prelude.{
  ℕ, zero, suc, ◌+◌, ◌-◌, Bool, true, false, not, ◌&&◌, Option, none, some, ◌>>=◌, List, [], ◌∷◌,
  ◌++◌, length, take, if◌then◌else◌,
}
use op_magic_trie.Trie.Node.{
  Node, NodeData, has_child, has_value, kv_get, presence_first_set, presence_next_set,
  presence_next_set_or_this,
}
use op_magic_trie.Trie.Node.Entries.{get_child}
use op_magic_trie.Trie.Iterator.{
  StemCompareResult, equals, string_end, stem_end, unequals, no_entry, TriePosition, TrieIterator,
  end_iterator, new_position, push, rat, update_stem, is_end, top_address,
}
use op_magic_trie.Trie.Tree.{Trie, Mismatch, stem_chars, mismatch}

-- `stem_size + 1` on a `dim_t`, of which the nil is the last number.
abbrev delta : Option ℕ → ℕ
delta none = 0
delta (some size) = size + 1

abbrev is_nil : List ℕ → Bool
is_nil [] = true
is_nil (b ∷ rest) = false

-- The prefix less its last characters.
abbrev shrunk : TrieIterator → ℕ → List ℕ
shrunk it size = take (length it.prefix - size) it.prefix

-- A new last position with the byte and the stem behind it.
pub emplace : TrieIterator → TriePosition → ℕ → List ℕ → TrieIterator
emplace it position k stem =
    update_stem
      (record { position_stack = position ∷ it.position_stack; prefix = it.prefix ++ k ∷ [] }) stem

-- In place of the last position.
pub update_back : TrieIterator → TriePosition → ℕ → List ℕ → Option TrieIterator
update_back it position k stem = elim it.position_stack [
  | [] ↦ none
  | back ∷ below ↦
      (let b = back in
        some (
          update_stem
            (record {
              position_stack = position ∷ below;
              prefix = shrunk it (delta b.stem_size) ++ k ∷ [];
            })
            stem))
]

pub pop : TrieIterator → TrieIterator
pop it = elim it.position_stack [
  | [] ↦ it
  | back ∷ below ↦
      (let b = back in record { position_stack = below; prefix = shrunk it (delta b.stem_size) })
]

-- The method of the iterator that a load calls.
pub data Update : Type 0 where
  emplacing updating : Update

-- The iterator after a load, and the child below it; `none` if there is no entry.
pub data Loaded : Type 0 where
  no_first : Loaded
  loaded : TrieIterator → Option ℕ → Loaded

pub record LowerBound : Type 0 where
  pub exact : Bool
  pub iter : TrieIterator
  pub rest : List ℕ

-- The last position: whether a value is there, and whether a child is.
abbrev pub on_data : TrieIterator → Bool
on_data it = elim it.position_stack [ [] ↦ false | p ∷ ps ↦ (let q = p in q.has_data) ]

abbrev over_child : TrieIterator → Bool
over_child it = elim it.position_stack [ [] ↦ false | p ∷ ps ↦ (let q = p in q.has_child) ]

abbrev bound : Bool → List ℕ → TrieIterator → LowerBound
bound exact rest it = record { exact = exact; iter = it; rest = rest }

abbrev exactly : StemCompareResult → Bool
exactly equals = true
exactly r = false

module _ {V : Type 0} where
  pub load_iterator :
      Trie V → Option ℕ → TrieIterator → (Node V → Option ℕ) → Update → Option Loaded
  unfolding emplace update_back
  load_iterator t node_addr dest pos_locator update = do
    a ← node_addr
    node ← t.nodes a
    let at_entry : ℕ → Option Loaded = λ k. (do
      e ← kv_get node k
      let d = e
      let position =
          (let p = new_position (some a) in record p { key = some k; version = node.version })
      let moved : Update → Option TrieIterator = λ u. elim u [
        | emplacing ↦ some (emplace dest position k (stem_chars d.stem))
        | updating ↦ update_back dest position k (stem_chars d.stem)
      ]
      it ← moved update
      some (
          loaded
            (rat it (λ p. record p { has_data = has_value node k; has_child = has_child node k }))
            d.child))
    elim (pos_locator node) [ none ↦ some no_first | some k ↦ at_entry k ]

  -- On fuel for each level below.
  pub enter_deep_until_terminal :
      ℕ → Trie V → Option ℕ → TrieIterator → (Node V → Option ℕ) → Option TrieIterator
  unfolding load_iterator
  enter_deep_until_terminal zero t start_from it locator = none
  enter_deep_until_terminal (suc fuel) t start_from it locator =
      elim (load_iterator t start_from it locator emplacing) [
        | none ↦ none
        | some no_first ↦ none
        | some (loaded i child) ↦
            let deeper = enter_deep_until_terminal fuel t child i locator in
            if on_data i then some i else deeper
      ]

  -- `get_child` of the last position.
  child_of : Trie V → TrieIterator → Option (Option ℕ)
  child_of t it = elim it.position_stack [
    | [] ↦ none
    | back ∷ below ↦
        (let b = back in (do a ← b.address; node ← t.nodes a; k ← b.key; get_child node k))
  ]

  -- The position behind the last one in the same node.
  load_right : Trie V → TrieIterator → Option Loaded
  unfolding load_iterator
  load_right t it = elim it.position_stack [
    | [] ↦ none
    | back ∷ below ↦
        (let b = back in
          (do k ← b.key; load_iterator t b.address it (λ node. presence_next_set node k) updating))
  ]

  -- A position that has been moved to; `first` leads to a value below it.
  settle_down : ℕ → Trie V → TrieIterator → Option ℕ → Option TrieIterator
  unfolding enter_deep_until_terminal
  settle_down fuel t it child =
      if on_data it then some it else enter_deep_until_terminal fuel t child it presence_first_set

  -- One round for each position of the iterator, and one more.
  pub next_loop : ℕ → ℕ → Trie V → TrieIterator → Bool → Option TrieIterator
  unfolding child_of load_right settle_down pop
  next_loop zero fuel t it way_down = none
  next_loop (suc rounds) fuel t it way_down =
      let up = next_loop rounds fuel t (pop it) false in
      let down : Option TrieIterator = (do
        child ← child_of t it
        enter_deep_until_terminal fuel t child it presence_first_set) in
      let right : Option TrieIterator = elim (load_right t it) [
        | none ↦ none
        | some no_first ↦ up
        | some (loaded i child) ↦ settle_down fuel t i child
      ] in
      if is_end it then some it else if way_down && over_child it then down else right

  -- `_next`
  pub next : ℕ → Trie V → TrieIterator → Bool → Option TrieIterator
  unfolding next_loop
  next fuel t it way_down = next_loop (suc (length it.position_stack)) fuel t it way_down

  -- Whether there is a way down, and the iterator at the node there.
  pub navigation_mode : Trie V → TrieIterator → Option (Bool × TrieIterator)
  unfolding child_of
  navigation_mode t it =
      let down : Option (Bool × TrieIterator) = child_of t it >>= λ c. some (true, push it c) in
      if is_end it
      then some (true, push it (some t.root))
      else if over_child it
      then down
      else some (false, it)

  -- After a load that must succeed.
  landed : ℕ → Trie V → Option Loaded → Option TrieIterator
  unfolding settle_down
  landed fuel t none = none
  landed fuel t (some no_first) = none
  landed fuel t (some (loaded i child)) = settle_down fuel t i child

  -- The end of `lower_bound_impl`, by the result of `mismatch`.
  pub bound_of : ℕ → Trie V → StemCompareResult → TrieIterator → Option TrieIterator
  unfolding next landed
  bound_of fuel t equals it = some it
  bound_of fuel t unequals it = if is_end it then some it else next fuel t it true
  bound_of fuel t no_entry it = elim it.position_stack [
    | [] ↦ none
    | back ∷ below ↦
        (let b = back in
          (do
            k ← b.key
            let at = rat it (λ p. record p { stem_size = some 0 })
            found ← load_iterator t b.address at (λ node. presence_next_set_or_this node k) updating
            let beside : Loaded → Option TrieIterator = λ l. elim l [
              | no_first ↦ next fuel t (pop at) false
              | loaded i child ↦
                  if on_data i
                  then some i
                  else enter_deep_until_terminal fuel t b.address i presence_first_set
            ]
            beside found))
  ]
  bound_of fuel t string_end it = elim it.position_stack [
    | [] ↦ none
    | back ∷ below ↦
        (let b = back in landed fuel t (load_iterator t b.address it (λ _. b.key) updating))
  ]
  bound_of fuel t stem_end it = next fuel t it true

  pub lower_bound_impl : ℕ → Trie V → List ℕ → TrieIterator → Option LowerBound
  unfolding navigation_mode bound_of
  lower_bound_impl fuel t [] prefix = some (bound false [] end_iterator)
  lower_bound_impl fuel t (k ∷ rest) prefix = do
    mode ← navigation_mode t prefix
    let nowhere : Option LowerBound =
        next fuel t mode.1 true >>= λ i. some (bound false (k ∷ rest) i)
    let inside : Option LowerBound = (do
      m ← mismatch (suc (length (k ∷ rest))) t (top_address mode.1) mode.1 (k ∷ rest) equals
      let r = m
      i ← bound_of fuel t r.result r.iter
      some (bound (exactly r.result) r.rest i))
    if mode.0 then inside else nowhere

  pub find : ℕ → Trie V → List ℕ → Option TrieIterator
  unfolding lower_bound_impl
  find fuel t q = do
    found ← lower_bound_impl fuel t q end_iterator
    let l = found
    some (if l.exact && is_nil l.rest then l.iter else end_iterator)

  -- The first key, or the end.
  pub begin : ℕ → Trie V → Option TrieIterator
  unfolding load_iterator enter_deep_until_terminal
  begin fuel t = elim (load_iterator t (some t.root) end_iterator presence_first_set emplacing) [
    | none ↦ none
    | some no_first ↦ some end_iterator
    | some (loaded i child) ↦
        if on_data i then some i else enter_deep_until_terminal fuel t child i presence_first_set
  ]
