-- ===== src/Trie/Tree.antt =====
-- impl/op/trie/Trie.h: the nodes of a trie, the search for a key and the insertion. `none` is an
-- assertion that fails or an exception.
pub mod Navigate
pub mod Remove
pub mod Update
pub mod View
mod Compare
mod Walk
pub mod Descent
mod Rounds
mod Search
mod Found
mod Lookup
mod Gained
mod Grafted
mod Updated
mod Written
mod Divided
mod Insert
mod Place
mod Cut
mod Ways
mod Inserts
mod Built
mod Arrive
mod Branch
pub mod Forked
mod Tests
use Prim.Native.Nat.{◌^◌}
use op_magic_trie.Prelude.{
  ℕ, zero, suc, ◌+◌, ◌%◌, Bool, true, false, not, ◌&&◌, ◌||◌, Option, none, some, ◌>>=◌, List, [],
  ◌∷◌, ◌++◌, length, ◌==◌, if◌then◌else◌,
}
use op_magic_trie.Trie.Node
use op_magic_trie.Trie.Node.{Node, NodeData, has_child, has_value, kv_get, insert}
use op_magic_trie.Trie.Node.Create.{create_interior}
use op_magic_trie.Trie.Node.Entries.{set_child, set_value, get_value, Value, invalid_argument}
use op_magic_trie.Trie.Node.Split.{move_from_entry}
use op_magic_trie.Trie.Iterator.{
  StemCompareResult, equals, string_end, stem_end, unequals, no_entry, TriePosition, TrieIterator,
  end_iterator, push, rat, rat_key, push_key, update_stem, top_address, top_key, top_stem, is_end,
  suffix,
}

-- The nodes by address, and the header of the residence.
pub record Trie (V : Type 0) : Type 0 where
  pub nodes : ℕ → Option (Node V)
  pub root : ℕ
  pub count : ℕ
  pub nodes_allocated : ℕ
  pub version : ℕ

-- `++` on a `std::uint64_t`.
abbrev pub next_u64 : ℕ → ℕ
next_u64 n = (n + 1) % 2 ^ 64

pub init_node_size : ℕ → ℕ
init_node_size level = if level == 0 then 256 else 8

abbrev pub stem_chars : Option (List ℕ) → List ℕ
stem_chars none = []
stem_chars (some s) = s

-- How far a stem and a string agree.
pub record Compared : Type 0 where
  pub matched : List ℕ
  pub rest : List ℕ
  pub result : StemCompareResult

-- The callback of `mismatch` on each character of the stem.
pub stem_compare : List ℕ → List ℕ → Compared
stem_compare [] rest = record { matched = []; rest = rest; result = equals }
stem_compare (c ∷ stem) [] = record { matched = []; rest = []; result = string_end }
stem_compare (c ∷ stem) (b ∷ rest) =
    let r = stem_compare stem rest in
    if c == b
    then record { matched = c ∷ r.matched; rest = r.rest; result = r.result }
    else record { matched = []; rest = b ∷ rest; result = unequals }

-- What `mismatch` makes of the result behind the stem.
pub settle : StemCompareResult → List ℕ → Bool → StemCompareResult
settle equals [] has_value = if has_value then equals else string_end
settle equals (b ∷ rest) has_value = stem_end
settle string_end rest has_value = string_end
settle stem_end rest has_value = stem_end
settle unequals rest has_value = unequals
settle no_entry rest has_value = no_entry

abbrev pub is_stem_end : StemCompareResult → Bool
is_stem_end stem_end = true
is_stem_end r = false

abbrev pub is_equals : StemCompareResult → Bool
is_equals equals = true
is_equals r = false

abbrev pub is_empty : List ℕ → Bool
is_empty [] = true
is_empty (b ∷ rest) = false

pub record Mismatch : Type 0 where
  pub result : StemCompareResult
  pub iter : TrieIterator
  pub rest : List ℕ

-- The rest of the walk, from an address.
abbrev pub Further : Type 0
Further = Option ℕ → TrieIterator → List ℕ → StemCompareResult → Option Mismatch

-- The trie, the position, and whether the key was there.
pub record Insertion (V : Type 0) : Type 0 where
  pub trie : Trie V
  pub iter : TrieIterator
  pub exists : Bool

module _ {V : Type 0} where
  -- The position at a byte of a node.
  abbrev pub enter : TrieIterator → Node V → ℕ → TrieIterator
  enter it node k = rat_key it k (λ p. record p {
    stem_size = none;
    has_data = has_value node k;
    has_child = has_child node k;
    version = node.version;
  })

  abbrev pub descend : TrieIterator → Node V → ℕ → Option ℕ → TrieIterator
  descend it node k child = if has_child node k then push it child else it

  -- Behind the comparison of a stem.
  pub behind_stem : Further → Node V → TrieIterator → ℕ → Option ℕ → Compared → Option Mismatch
  unfolding settle
  behind_stem further node at_key k child c =
      let behind = update_stem at_key c.matched in
      let r = settle c.result c.rest (has_value node k) in
      if is_stem_end r
      then further child (descend behind node k child) c.rest r
      else some (record { result = r; iter = behind; rest = c.rest })

  pub round : Further → Node V → TrieIterator → ℕ → List ℕ → Option Mismatch
  unfolding stem_compare behind_stem
  round further node at_key k rest =
      let compare_stem : Option Mismatch = elim (kv_get node k) [
        | none ↦ none
        | some e ↦
            (let d = e in
              behind_stem further node at_key k d.child (stem_compare (stem_chars d.stem) rest))
      ] in
      if not (has_value node k) && not (has_child node k)
      then some (record { result = no_entry; iter = at_key; rest = rest })
      else if not (has_value node k) && is_empty rest
      then some (record {
        result = string_end;
        iter = rat at_key (λ p. record p { stem_size = some 0 });
        rest = rest;
      })
      else compare_stem

  -- Each round takes at least one byte of the string.
  pub mismatch : ℕ → Trie V → Option ℕ → TrieIterator → List ℕ → StemCompareResult → Option Mismatch
  unfolding round
  mismatch zero t node_addr it begin result = none
  mismatch (suc fuel) t node_addr it [] result =
      some (record { result = result; iter = it; rest = [] })
  mismatch (suc fuel) t none it (k ∷ rest) result =
      some (record { result = result; iter = it; rest = k ∷ rest })
  mismatch (suc fuel) t (some a) it (k ∷ rest) result = elim (t.nodes a) [
    | none ↦ none
    | some node ↦ round (mismatch fuel t) node (enter it node k) k rest
  ]

  -- `navigation_mode` on the end iterator, then `mismatch`; an empty string is not looked for.
  pub common_prefix : Trie V → List ℕ → Option Mismatch
  common_prefix t [] = some (record { result = unequals; iter = end_iterator; rest = [] })
  common_prefix t (b ∷ rest) =
      mismatch (suc (length (b ∷ rest))) t (some t.root) (push end_iterator (some t.root))
        (b ∷ rest) equals

  pub check_exists : Trie V → List ℕ → Option Bool
  unfolding common_prefix
  check_exists t [] = some false
  check_exists t (b ∷ rest) = elim (common_prefix t (b ∷ rest)) [
    | none ↦ none
    | some m ↦ (let r = m in some (is_equals r.result))
  ]

  pub value_of : Trie V → TriePosition → Option (Value V)
  value_of t pos = do a ← pos.address; node ← t.nodes a; k ← pos.key; some (get_value node k)

  abbrev pub store_node : Trie V → ℕ → Node V → Trie V
  store_node t a n = record t { nodes = λ b. if b == a then some n else t.nodes b }

  -- One more terminal.
  abbrev pub counted : Trie V → Trie V
  counted t = record t { count = next_u64 t.count; version = next_u64 t.version }

  -- The characters of the stem are the last ones of the prefix.
  pub unconditional_insert : NodeData V → Trie V → TrieIterator → V → Option (Insertion V)
  unconditional_insert blank t it v = do
    a ← top_address it
    k ← top_key it
    size ← top_stem it
    node ← t.nodes a
    m ← insert blank node k (suffix it size) v
    some (record {
      trie = counted (store_node t a m);
      iter = rat it (λ p. record p { has_data = true; version = m.version });
      exists = false;
    })

  module _ (blank : NodeData V) (allocate : Trie V → ℕ) where
    pub new_node : Trie V → ℕ → Trie V
    unfolding init_node_size
    new_node t level =
        let u = store_node t (allocate t) (create_interior blank (init_node_size level)) in
        record u { nodes_allocated = next_u64 t.nodes_allocated }

    -- The rest of a stem goes under a new node.
    pub free_entry : Trie V → TrieIterator → Node V → ℕ → Option (List ℕ) → Option (Trie V × Node V)
    unfolding new_node
    free_entry t it node k none = some (t, node)
    free_entry t it node k (some stem) = do
      size ← top_stem it
      let u = new_node t (length it.position_stack + 1)
      let c = allocate t
      target ← u.nodes c
      pair ← move_from_entry blank node k size target c
      some (store_node u c pair.1, pair.0)

    -- The string ends inside the stem or at an entry with no value.
    pub insert_mismatch_string_end : Trie V → TrieIterator → V → Option (Insertion V)
    unfolding free_entry
    insert_mismatch_string_end t it v = do
      a ← top_address it
      k ← top_key it
      node ← t.nodes a
      e ← kv_get node k
      let d = e
      parts ← free_entry t it node k d.stem
      m ← set_value parts.1 k v
      some (record {
        trie = counted (store_node parts.0 a m);
        iter = rat it (λ p. record p { has_data = true; has_child = true; version = m.version });
        exists = false;
      })

    -- The stem ends before the string, at an entry with no child.
    pub hang_child : Trie V → TrieIterator → ℕ → List ℕ → V → Option (Insertion V)
    unfolding new_node unconditional_insert
    hang_child t it b rest v = do
      a ← top_address it
      k ← top_key it
      node ← t.nodes a
      let u = new_node t (length it.position_stack + 1)
      let c = allocate t
      m ← set_child node k c
      let back = rat it (λ p. record p { version = m.version })
      unconditional_insert blank (store_node u a m) (update_stem (push_key back b (some c)) rest) v

    -- The stem and the string differ.
    pub split_entry : Trie V → TrieIterator → ℕ → List ℕ → V → Option (Insertion V)
    unfolding new_node unconditional_insert
    split_entry t it b rest v = do
      a ← top_address it
      k ← top_key it
      size ← top_stem it
      node ← t.nodes a
      let u = new_node t (length it.position_stack + 1)
      let c = allocate t
      target ← u.nodes c
      pair ← move_from_entry blank node k size target c
      let m = pair.0
      let back = rat it (λ p. record p { has_child = true; version = m.version })
      unconditional_insert blank (store_node (store_node u c pair.1) a m)
          (update_stem (push_key back b (some c)) rest) v

    -- The cases of `insert_impl` behind `mismatch`.
    pub place : Trie V → StemCompareResult → TrieIterator → List ℕ → V → Option (Insertion V)
    unfolding unconditional_insert insert_mismatch_string_end hang_child split_entry
    place t equals it [] v = some (record { trie = t; iter = it; exists = true })
    place t equals it (b ∷ rest) v = split_entry t it b rest v
    place t no_entry it rest v = unconditional_insert blank t (update_stem it rest) v
    place t string_end it rest v = insert_mismatch_string_end t it v
    place t stem_end it [] v = none
    place t stem_end it (b ∷ rest) v = hang_child t it b rest v
    place t unequals it [] v = none
    place t unequals it (b ∷ rest) v = split_entry t it b rest v

    pub insert_impl : Trie V → TrieIterator → List ℕ → V → Option (Insertion V)
    unfolding place
    insert_impl t it begin v = do
      let start = if is_end it then push it (some t.root) else it
      m ← mismatch (suc (length begin)) t (top_address start) start begin equals
      let r = m
      place t r.result r.iter r.rest v

    -- `insert` of a range: the flag tells whether the key is new.
    pub insert_key : Trie V → List ℕ → V → Option (Trie V × TrieIterator × Bool)
    unfolding insert_impl
    insert_key t [] v = some (t, end_iterator, false)
    insert_key t (k ∷ rest) v = do
      done ← insert_impl t end_iterator (k ∷ rest) v
      let r = done
      some (r.trie, r.iter, not r.exists)

    -- A trie with an empty root; `residence` has the numbers of an empty header.
    pub create_new : Trie V
    unfolding new_node
    create_new =
        let residence : Trie V = record {
          nodes = λ a. none;
          root = 0;
          count = 0;
          nodes_allocated = 0;
          version = 0;
        } in
        let t = new_node residence 0 in record t { root = allocate residence }
