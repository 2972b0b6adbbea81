-- ===== src/Trie/Tree/Tests.antt =====
-- A trie made by one insertion.
use op_magic_trie.Prelude.{
  ℕ, ◌≡◌, ◌↔◌, refl, inl, inr, Bool, true, not, none, some, bind_some, List, [], ◌∷◌, arith,
  Bool-cases, if◌then◌else◌,
}
use op_magic_trie.Trie.Node.{NodeData}
use op_magic_trie.Trie.Node.Entries.{value}
use op_magic_trie.Trie.Iterator.{TrieIterator, TriePosition, end_iterator}
use op_magic_trie.Trie.Tree.{
  Trie, Insertion, new_node, create_new, insert_impl, insert_key, check_exists, value_of,
}
use op_magic_trie.Trie.Tree.View.{AllBytes, Stored, IsTrie}
use op_magic_trie.Trie.Tree.Lookup.{check_exists_lem}
use op_magic_trie.Trie.Tree.Navigate.{find}
use op_magic_trie.Trie.Tree.Navigate.Finds.{value_of-find}
use op_magic_trie.Trie.Tree.Ways.{EndsAtBranch}
use op_magic_trie.Trie.Tree.Update.{Upsertion, upsert}
use op_magic_trie.Trie.Tree.Update.Upserts.{Upserted, upsert-Upserted}
use op_magic_trie.Trie.Tree.Inserts.{Effect, insert_impl_lem}
use op_magic_trie.Trie.Tree.Built.{
  create_new-links, create_new-IsTrie, create_new-Stored, created, inserted, Agrees, Built-Agrees,
}

abbrev blank : NodeData ℕ
blank = record { child = none; stem = none; value = 0 }

-- Addresses are given out in order.
abbrev allocate : Trie ℕ → ℕ
allocate t = t.nodes_allocated

abbrev new_trie : Trie ℕ
new_trie = create_new blank allocate

abbrev key : List ℕ
key = 97 ∷ 98 ∷ []

key_bytes : AllBytes key
key_bytes = (omega arith, (omega arith, tt))

new_trie-IsTrie : IsTrie new_trie
new_trie-IsTrie = create_new-IsTrie blank allocate

new_trie-free : new_trie.nodes (allocate new_trie) ≡ none
unfolding create_new new_node
new_trie-free = refl

new_trie-branch : ¬ EndsAtBranch new_trie key
new_trie-branch b = ground (arith, create_new-links blank allocate b.address b.byte, b.link)

insert_impl_lem_example :
    (r : Insertion ℕ) × (insert_impl blank allocate new_trie end_iterator key 7 ≡ some r)
    × Effect (allocate new_trie) new_trie key 7 r
insert_impl_lem_example =
    insert_impl_lem new_trie new_trie-IsTrie blank allocate new_trie-free 97 (98 ∷ []) 7 key_bytes
      (omega arith) new_trie-branch

abbrev one :
    (r : Insertion ℕ) × (insert_impl blank allocate new_trie end_iterator key 7 ≡ some r)
    × Effect (allocate new_trie) new_trie key 7 r
one =
    insert_impl_lem new_trie new_trie-IsTrie blank allocate new_trie-free 97 (98 ∷ []) 7 key_bytes
      (omega arith) new_trie-branch

abbrev one_trie : Trie ℕ
one_trie = one.0.trie

one_trie-IsTrie : IsTrie one_trie
one_trie-IsTrie = one.2.0

check_exists_lem_example :
    (b : Bool) × (check_exists one_trie key ≡ some b)
    × ((b ≡ true) ↔ ((v : ℕ) × Stored one_trie key v))
check_exists_lem_example = check_exists_lem one_trie one_trie-IsTrie key key_bytes

one_trie-Stored : Stored one_trie key 7
one_trie-Stored = elim (Bool-cases one.0.exists) [
  | inl e ↦ let h = one.2.2.0 e in absurd (create_new-Stored blank allocate key h.0 h.1)
  | inr e ↦ (one.2.3 key 7).1 (inr (e, refl, refl))
]

value_of-find_example :
    (it : TrieIterator) × (top : TriePosition) × (below : List TriePosition) × (find 0 one_trie key
      ≡ some it)
    × (it.prefix ≡ key)
    × (it.position_stack ≡ top ∷ below)
    × (value_of one_trie top ≡ some (value 7))
value_of-find_example = value_of-find one_trie one_trie-IsTrie 0 key 7 key_bytes one_trie-Stored

one_key : insert_key blank allocate new_trie key 7 ≡ some (one_trie, one.0.iter, not one.0.exists)
unfolding insert_key
one_key = bind_some _ one.1 refl

abbrev one_entry : List (List ℕ × ℕ)
one_entry = if not one.0.exists then (key, 7) ∷ [] else []

Built-Agrees_example : Agrees one_trie one_entry
Built-Agrees_example = Built-Agrees blank allocate one_trie one_entry (
    inserted new_trie [] 97 (98 ∷ []) 7 one.0.iter (not one.0.exists) created new_trie-free
      key_bytes (omega arith) one_key)

upsert-Upserted_example :
    (u : Upsertion ℕ) × (upsert blank allocate new_trie key 7 ≡ some u) × Upserted new_trie key 7 u
upsert-Upserted_example =
    upsert-Upserted new_trie new_trie-IsTrie blank allocate new_trie-free 97 (98 ∷ []) 7 key_bytes
      (omega arith) new_trie-branch
