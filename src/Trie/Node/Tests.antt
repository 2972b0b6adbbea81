-- ===== src/Trie/Node/Tests.antt =====
-- Nodes of capacity 8 and 128 run on a few keys, and the theorems at these inputs.
use mathlib.Core.Option
use op_magic_trie.Prelude.{
  ℕ, ◌<◌, ◌≡◌, refl, sym, ap, ◌∙◌, inl, inr, Bool, true, false, ◌||◌, Option, none, some, List, [],
  ◌∷◌, take, drop, arith, ◌==◌,
}
use op_magic_trie.Common.Bitset.Scan.{LeastFrom}
use op_magic_trie.Trie.HashTable.Ring.{IsCapacity}
use op_magic_trie.Trie.HashTable
use op_magic_trie.Trie.HashTable.{insert_impl, create, hash, bitmask, max_hash_neighbors}
use op_magic_trie.Trie.Node.{
  Node, NodeData, presence, has_child, has_value, presence_next_set, presence_first_set, kv_get,
  grow, insert, insert_loop, store_insert, fresh, hashed_grow_from, plain_grow_from,
}
use op_magic_trie.Trie.Node.Scan.{IsNode, first-LeastFrom, next-LeastFrom}
use op_magic_trie.Trie.Node.Copy.{
  presence_marks, Copies, grow_from-Copies, CopiedPlain, plain_grow-copies,
}
use op_magic_trie.Trie.Node.Grow.{GrownFrom, grow-GrownFrom}
use op_magic_trie.Trie.Node.Insert.{Gains, insert-Gains}
use op_magic_trie.Trie.Node.Entries.{set_child, remove_child, get_value, set_value, erase, value}
use op_magic_trie.Trie.Node.Update.{Changes, set_child-Changes, get_value-set_value}
use op_magic_trie.Trie.Node.Create.{create_interior, create_interior-IsNode}
use op_magic_trie.Trie.Node.Split.{move_from_entry}
use op_magic_trie.Trie.Node.Moved.{Splits, move_from_entry-Splits}
use op_magic_trie.Trie.Node.Removal.{ChildGone, remove_child-ChildGone}
use op_magic_trie.Trie.Node.Erase.{Erased, erase-Erased}

program : Unit {0}
unfolding insert insert_loop store_insert create_interior insert_impl HashTable.insert_loop hash
    max_hash_neighbors bitmask create
program = tt

abbrev blank : NodeData ℕ
blank = record { child = none; stem = none; value = 0 }

abbrev eight : IsCapacity 8
eight = inl refl

abbrev sixteen : IsCapacity 16
sixteen = inr (inl refl)

abbrev empty_node : Node ℕ
empty_node = create_interior blank 8

create_interior-IsNode_example : IsNode empty_node × ((k : ℕ) → kv_get empty_node k ≡ none)
create_interior-IsNode_example = create_interior-IsNode blank 8 (inl eight)

empty_node-IsNode : IsNode empty_node
empty_node-IsNode = (create_interior-IsNode blank 8 (inl eight)).0

empty_node-unmarked : (k : ℕ) → k < 256 → presence empty_node k ≡ false
empty_node-unmarked k l =
    sym (empty_node-IsNode.agrees k l) ∙ rw ((create_interior-IsNode blank 8 (inl eight)).1 k) refl

-- `abc` is inserted: the entry of `a`, with the stem `bc`.
abbrev bc : List ℕ
bc = 98 ∷ 99 ∷ []

abbrev Inserted97 : Type 0
Inserted97 =
    (m : Node ℕ) × (insert blank empty_node 97 bc 7 ≡ some m) × Gains empty_node m 97 (fresh bc 7)

insert-Gains_example : Inserted97
insert-Gains_example =
    insert-Gains blank empty_node 97 bc 7 empty_node-IsNode (omega arith)
      (empty_node-unmarked 97 (omega arith)) (omega arith)

inserted : Inserted97
inserted =
    insert-Gains blank empty_node 97 bc 7 empty_node-IsNode (omega arith)
      (empty_node-unmarked 97 (omega arith)) (omega arith)

abbrev abc : Node ℕ
abc = inserted.0

abc-Gains : Gains empty_node abc 97 (fresh bc 7)
abc-Gains = let (m, run, g) = inserted in g

abc-IsNode : IsNode abc
abc-IsNode = let g = abc-Gains in g.node

abc_entry : kv_get abc 97 ≡ some (fresh bc 7)
abc_entry = let g = abc-Gains in g.reads 97 (omega arith)

first-LeastFrom_example : LeastFrom (presence abc) 0 256 (presence_first_set abc)
first-LeastFrom_example = first-LeastFrom abc abc-IsNode

next-LeastFrom_example : LeastFrom (presence abc) 98 256 (presence_next_set abc 97)
next-LeastFrom_example = next-LeastFrom abc abc-IsNode 97 (omega arith)

capacity_of : Option (Node ℕ) → ℕ
capacity_of none = 0
capacity_of (some m) = m.capacity

inserted-capacity : capacity_of (insert blank empty_node 97 bc 7) ≡ 8
unfolding program capacity_of
inserted-capacity = refl

abc-eight : abc.capacity ≡ 8
abc-eight =
    let (m, run, g) = inserted in
    let same : capacity_of (insert blank empty_node 97 bc 7) ≡ m.capacity =
      unfold capacity_of in ap capacity_of run in
    sym same ∙ inserted-capacity

abc-capacity : IsCapacity abc.capacity
abc-capacity = inl abc-eight

empty_leaf : has_child empty_node 97 ≡ false
empty_leaf = ground (arith, presence_marks empty_node 97, empty_node-unmarked 97 (omega arith))

abc_leaf : has_child abc 97 ≡ false
abc_leaf = let g = abc-Gains in g.children 97 ∙ empty_leaf

grow_from-Copies_example : Copies abc abc-IsNode 16 sixteen (hashed_grow_from 16 blank abc)
grow_from-Copies_example =
    grow_from-Copies abc abc-IsNode 16 sixteen blank (omega (arith, abc-eight))

plain_grow-copies_example :
    (w : ℕ → NodeData ℕ) × (plain_grow_from blank abc ≡ some w) × CopiedPlain abc abc-IsNode w 256
plain_grow-copies_example = plain_grow-copies abc abc-IsNode blank (omega (arith, abc-eight))

grow-GrownFrom_example : (m : Node ℕ) × (grow blank abc ≡ some m) × GrownFrom abc m
grow-GrownFrom_example = grow-GrownFrom abc abc-IsNode blank abc-capacity

get_value-set_value_example :
    (m : Node ℕ) × (set_value abc 97 9 ≡ some m)
    × Changes abc abc-IsNode 97 (omega arith) m (λ d. record d { value = 9 })
    × (get_value m 97 ≡ value 9)
    × ((k : ℕ) → has_value m k ≡ k == 97 || has_value abc k)
    × ((k : ℕ) → has_child m k ≡ has_child abc k)
get_value-set_value_example = get_value-set_value abc abc-IsNode 97 (omega arith) _ abc_entry 9

abbrev Child97 : Type 0
Child97 =
    (m : Node ℕ) × (set_child abc 97 5 ≡ some m)
    × Changes abc abc-IsNode 97 (omega arith) m (λ d. record d { child = some 5 })
    × ((k : ℕ) → has_child m k ≡ k == 97 || has_child abc k)
    × ((k : ℕ) → has_value m k ≡ has_value abc k)

set_child-Changes_example : Child97
set_child-Changes_example = set_child-Changes abc abc-IsNode 97 (omega arith) _ abc_entry 5 abc_leaf

hung : Child97
hung = set_child-Changes abc abc-IsNode 97 (omega arith) _ abc_entry 5 abc_leaf

abbrev parent : Node ℕ
parent = hung.0

parent-Changes : Changes abc abc-IsNode 97 (omega arith) parent (λ d. record d { child = some 5 })
parent-Changes = let (m, run, changes, children, values) = hung in changes

parent-IsNode : IsNode parent
parent-IsNode = let c = parent-Changes in c.node

abbrev parent_data : NodeData ℕ
parent_data = let d = fresh bc 7 in record d { child = some 5 }

map-fresh :
    Option.map {A = NodeData ℕ} {B = NodeData ℕ}
      (λ d. record d { child = some 5 })
      (some (fresh bc 7))
    ≡ some parent_data
unfolding Option.map
map-fresh = refl

parent_entry : kv_get parent 97 ≡ some parent_data
parent_entry =
    let c = parent-Changes in
    let with_child : NodeData ℕ → NodeData ℕ = λ d. record d { child = some 5 } in
    let read : kv_get parent 97 ≡ Option.map with_child (kv_get abc 97) =
      c.reads 97 (omega arith) in
    read ∙ ap (Option.map with_child) abc_entry ∙ map-fresh

parent_child : has_child parent 97 ≡ true
parent_child = let (m, run, changes, children, values) = hung in children 97

remove_child-ChildGone_example :
    (w : Node ℕ) × (remove_child parent 97 ≡ some w)
    × ChildGone parent parent-IsNode 97 (omega arith) parent_data parent_entry w
remove_child-ChildGone_example =
    remove_child-ChildGone parent parent-IsNode 97 (omega arith) parent_data parent_entry
      parent_child

erase-Erased_example :
    (w : Node ℕ) × (last : Bool) × (erase parent 97 true ≡ some (w, last))
    × Erased parent parent-IsNode 97 parent_data true w last
erase-Erased_example =
    erase-Erased parent parent-IsNode 97 (omega arith) parent_data parent_entry true

fresh-stem : (let d = fresh {V = ℕ} bc 7 in d.stem) ≡ some bc
unfolding fresh
fresh-stem = refl

-- `ab` is split off `abc`: the stem of `a` goes, and a new node gets the entry of `b`.
move_from_entry-Splits_example :
    (m : Node ℕ) × (u : Node ℕ) × (move_from_entry blank abc 97 0 (create_interior blank 8) 5
      ≡ some (m, u))
    × Splits blank abc 97 5 98 (fresh bc 7) [] (99 ∷ []) m u
unfolding take drop
move_from_entry-Splits_example =
    move_from_entry-Splits blank abc 97 0 5 8 98 (fresh bc 7) bc (99 ∷ []) abc-IsNode (omega arith)
      abc_entry fresh-stem refl (inl eight)
