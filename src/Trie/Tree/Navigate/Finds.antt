-- ===== src/Trie/Tree/Navigate/Finds.antt =====
-- `lower_bound` and `find` of a key that is stored.
use op_magic_trie.Prelude.{ℕ, ◌≡◌, refl, true, some, bind_some, List, [], ◌∷◌}
use op_magic_trie.Trie.Node.Entries.{value}
use op_magic_trie.Trie.Iterator.{equals, TriePosition, TrieIterator, end_iterator}
use op_magic_trie.Trie.Tree.{Trie, common_prefix, value_of}
use op_magic_trie.Trie.Tree.View.{AllBytes, Stored, IsTrie}
use op_magic_trie.Trie.Tree.Descent.{Down-ne_nil}
use op_magic_trie.Trie.Tree.Lookup.{Stored-Down}
use op_magic_trie.Trie.Tree.Inserts.{value_of-common_prefix}
use op_magic_trie.Trie.Tree.Navigate.{navigation_mode, bound_of, lower_bound_impl, find}

module _ {V : Type 0} (t : Trie V) where
  pub lower_bound_impl-equals :
      (fuel k : ℕ) (rest : List ℕ) (it : TrieIterator)
      → common_prefix t (k ∷ rest) ≡ some (record { result = equals; iter = it; rest = [] })
      → lower_bound_impl fuel t (k ∷ rest) end_iterator
        ≡ some (record { exact = true; iter = it; rest = [] })
  unfolding lower_bound_impl navigation_mode bound_of common_prefix
  lower_bound_impl-equals fuel k rest it out = bind_some _ out refl

  -- On a trie under the invariant, for a stored key of bytes, `find` returns an iterator whose
  -- prefix is the key, on any fuel, and `value_of` its last position is the stored value.
  pub value_of-find :
      IsTrie t
      → (fuel : ℕ) (q : List ℕ) (v : V) → AllBytes q
      → Stored t q v
      → (it : TrieIterator) × (top : TriePosition) × (below : List TriePosition) × (find fuel t q
          ≡ some it)
        × (it.prefix ≡ q)
        × (it.position_stack ≡ top ∷ below)
        × (value_of t top ≡ some (value v))
  unfolding find
  value_of-find w fuel [] v bytes h = absurd (Down-ne_nil t.root v (Stored-Down t w [] v h))
  value_of-find w fuel (k ∷ rest) v bytes h =
      let (it, top, below, out, spells, stack, got) =
        value_of-common_prefix t w (k ∷ rest) v bytes h in
      (
        it,
        top,
        below,
        bind_some _ (lower_bound_impl-equals fuel k rest it out) refl,
        spells,
        stack,
        got,
      )
