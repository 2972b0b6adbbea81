-- ===== src/Trie/Tree/Branch.antt =====
-- An insertion of a key that ends at the end of a link: the walk reaches the entry, and the step
-- fails.
use mathlib.Core.Path.{subst}
use op_magic_trie.Prelude.{
  ℕ, ◌+◌, ◌≡◌, ◌≢◌, refl, sym, ap, ◌∙◌, none, some, List, [], ◌∷◌, ◌++◌, length, length-append,
  arith,
}
use op_magic_trie.Trie.Node.{Node, NodeData, kv_get}
use op_magic_trie.Trie.Iterator.{
  string_end, TrieIterator, end_iterator, top_address, top_key, top_stem,
}
use op_magic_trie.Trie.Tree.{Trie, stem_chars, common_prefix, init_node_size, place, insert_impl}
use op_magic_trie.Trie.Tree.View.{IsTrie}
use op_magic_trie.Trie.Tree.Arrive.{Linked-entry, stops_at_branch}
use op_magic_trie.Trie.Tree.Walk.{Stands}
use op_magic_trie.Trie.Tree.Ways.{
  EndsAtBranch, insert_impl-place, entry_stem, moves_behind, place_faults,
}
use op_magic_trie.Trie.Node.Create.{create_interior}
use op_magic_trie.Trie.Node.Split.{move_from_entry}
use op_magic_trie.Trie.Tree.Divided.{move_from_entry-Divided}
use op_magic_trie.Trie.Tree.Place.{init_node_size-IsCapacity}

module _ {V : Type 0} (t : Trie V) (w : IsTrie t) where
  module _ (blank : NodeData V) (allocate : Trie V → ℕ) (free : t.nodes (allocate t) ≡ none) where
    abbrev new_target : TrieIterator → Node V
    new_target it = create_interior blank (init_node_size (length it.position_stack + 1))

    -- How the insertion of such a key fails: the walk stops at the entry with the place at the end of
    -- its stem, and of all places in the stem `move_from_entry` fails at this one only.
    pub record FailsBehind (q : List ℕ) (v : V) (b : EndsAtBranch t q) : Type 0 where
      pub iter : TrieIterator
      pub node : Node V
      pub entry : NodeData V
      pub walk : common_prefix t q ≡ some (record { result = string_end; iter = iter; rest = [] })
      pub at_address : top_address iter ≡ some b.address
      pub at_byte : top_key iter ≡ some b.byte
      pub in_stem_pos : top_stem iter ≡ some (length b.stem)
      pub there : t.nodes b.address ≡ some node
      pub at_entry : kv_get node b.byte ≡ some entry
      pub stem : entry.stem ≡ some b.stem
      pub behind :
          move_from_entry blank node b.byte (length b.stem) (new_target iter) (allocate t) ≡ none
      pub inside :
          (left : List ℕ) (x : ℕ) (tail : List ℕ)
          → b.stem ≡ left ++ x ∷ tail
          → (m : Node V) × (u : Node V) × (move_from_entry blank node b.byte
                (length left)
                (new_target iter)
                (allocate t)
              ≡ some (m, u))
      pub fails : insert_impl blank allocate t end_iterator q v ≡ none

    insert_impl-place_ne :
        (q : List ℕ) (v : V) (it : TrieIterator)
        → q ≢ []
        → common_prefix t q ≡ some (record { result = string_end; iter = it; rest = [] })
        → insert_impl blank allocate t end_iterator q v ≡ place blank allocate t string_end it [] v
    insert_impl-place_ne [] v it ne e = absurd (ne refl)
    insert_impl-place_ne (k ∷ rest) v it ne e =
        insert_impl-place blank allocate t w free k rest v string_end it [] e

    ne_nil : (p : List ℕ) (k : ℕ) (s q : List ℕ) → q ≡ p ++ k ∷ s → q ≢ []
    ne_nil p k s [] e z = omega (arith, ap length e, length-append p (k ∷ s))
    ne_nil p k s (x ∷ q) e z = cc z

    -- On a trie under the invariant, with an unused address from the allocator, for a key that ends
    -- exactly at the end of a link with a stem that is not empty, where no value is,
    -- `common_prefix` returns `string_end` with an iterator at the entry of the link whose stem
    -- size is the length of the whole stem; `move_from_entry` of this entry into a new node fails
    -- at that place and returns at every place inside the stem; and `insert_impl` from the root
    -- fails.
    pub insert_impl-EndsAtBranch : (q : List ℕ) (v : V) (b : EndsAtBranch t q) → FailsBehind q v b
    insert_impl-EndsAtBranch q v b =
        let l = Linked-entry t w b.address b.byte b.child b.stem b.link in
        let n = l.node in
        let (it, stop, stands) =
          stops_at_branch t w b.path b.stem b.address b.byte b.child l b.reach b.bare b.longer in
        let longer : stem_chars l.entry.stem ≢ [] = λ z. b.longer (sym l.stem ∙ z) in
        let stands_e =
          subst (λ s. Stands it b.address b.byte (some (length s)) (b.path ++ b.byte ∷ s))
            (sym l.stem) stands in
        let walk = ap (common_prefix t) b.spells ∙ stop in
        let is =
          entry_stem blank allocate t w free b.path b.address n b.byte b.reach l.at_node l.small v
            l.entry l.at_entry longer in
        let fault =
          moves_behind blank allocate t w free b.path b.address n b.byte b.reach l.at_node l.small v
            l.entry l.at_entry longer (new_target it) in
        record {
          iter = it;
          node = n;
          entry = l.entry;
          walk = walk;
          at_address = stands.address;
          at_byte = stands.key;
          in_stem_pos = stands.stem;
          there = l.at_node;
          at_entry = l.at_entry;
          stem = is ∙ ap some l.stem;
          behind =
              subst
                (λ s. move_from_entry blank n b.byte (length s) (new_target it) (allocate t) ≡ none)
                l.stem fault;
          inside = λ left x tail whole.
              let level = length it.position_stack + 1 in
              let (m, u, run, _) =
                move_from_entry-Divided blank n (w.good b.address n l.at_node) b.byte l.small
                  l.entry l.at_entry (init_node_size level) (init_node_size-IsCapacity level)
                  (allocate t) left x tail (l.stem ∙ whole) in
              (m, u, run);
          fails =
              insert_impl-place_ne q v it (ne_nil b.path b.byte b.stem q b.spells) walk
              ∙ place_faults blank allocate t w free b.path b.address n b.byte b.reach l.at_node
                  l.small v l.entry l.at_entry it longer stands_e;
        }
