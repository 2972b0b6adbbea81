-- ===== src/Trie/HashTable/Tests.antt =====
-- The table of eight slots run on keys that share a hash, and the theorems at these inputs.
use mathlib.Core.Option
use op_magic_trie.Prelude.{ℕ, ◌≡◌, ◌↔◌, refl, inl, none, some}
use op_magic_trie.Trie.HashTable.{
  max_hash_neighbors, hash, next_pos, next_atom_pos, less_pos, create, insert_loop, insert_impl,
  find_loop, find, payload_at, get, restore_loop, restore_on_erase, erase_loop, erase, Inserted,
}
use op_magic_trie.Trie.HashTable.Ring.{IsCapacity}
use op_magic_trie.Trie.HashTable.Probe.{HasKey, IsProbed, create-IsProbed, find_iff}
use op_magic_trie.Trie.HashTable.Added.{InsertLaw, insert-IsProbed, insert-InsertLaw}
use op_magic_trie.Trie.HashTable.Erased.{EraseLaw, erase-EraseLaw}

program : Unit {0}
unfolding max_hash_neighbors hash next_pos next_atom_pos less_pos create insert_loop insert_impl
    find_loop find payload_at get restore_loop restore_on_erase erase_loop erase
program = tt

-- Keys 1, 9 and 17 have hash 5.
abbrev one : Inserted ℕ
one = insert_impl 8 (create 0) 1 (λ _. 11)

abbrev two : Inserted ℕ
two = insert_impl 8 one.table 9 (λ _. 99)

abbrev three : Inserted ℕ
three = insert_impl 8 two.table 17 (λ _. 77)

abbrev eight : IsCapacity 8
eight = inl refl

two_pos : two.pos ≡ some 6
unfolding program
two_pos = refl

three_pos : three.pos ≡ none
unfolding program
three_pos = refl

-- The entry of 9 moves to the slot that the entry of 1 leaves.
erase_moves : Option.map (λ r. find 8 r.0 9) (erase 8 two.table 1) ≡ some (some 5)
unfolding program Option.map
erase_moves = refl

one-IsProbed : IsProbed 8 one.table
one-IsProbed = insert-IsProbed 8 eight (create 0) 1 (λ _. 11) (create-IsProbed 8 eight 0)

insert-IsProbed_example : IsProbed 8 two.table
insert-IsProbed_example = insert-IsProbed 8 eight one.table 9 (λ _. 99) one-IsProbed

two-IsProbed : IsProbed 8 two.table
two-IsProbed = insert-IsProbed 8 eight one.table 9 (λ _. 99) one-IsProbed

find_iff_example : (find 8 two.table 9 ≡ some 6) ↔ HasKey 8 two.table 6 9
find_iff_example = find_iff 8 eight two.table 9 6 two-IsProbed

insert-InsertLaw_example : InsertLaw 8 eight two.table 17 (λ _. 77) two-IsProbed three
insert-InsertLaw_example = insert-InsertLaw 8 eight two.table 17 (λ _. 77) two-IsProbed

erase-EraseLaw_example : EraseLaw 8 eight two.table two-IsProbed 1 (erase 8 two.table 1)
erase-EraseLaw_example = erase-EraseLaw 8 eight two.table two-IsProbed 1
