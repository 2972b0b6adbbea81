-- ===== src/Trie/Tree/Navigate/Tests.antt =====
-- The first key of a trie with one key.
use op_magic_trie.Prelude.{ℕ, ◌≡◌, refl, inr, true, some, arith, Option, [], ◌∷◌}
use op_magic_trie.Trie.Node.{presence_first_set}
use op_magic_trie.Trie.Iterator.{TrieIterator, end_iterator}
use op_magic_trie.Trie.Tree.Forked.{one_trie, one_trie-IsTrie, entry}
use op_magic_trie.Trie.Tree.Navigate.{enter_deep_until_terminal, next, begin, find, on_data}
use op_magic_trie.Trie.Tree.Navigate.OneKey.{one_trie-Within, at_key, at_key-Track, one_trie-Stored}
use op_magic_trie.Trie.Tree.Navigate.Lex.{LexLt}
use op_magic_trie.Trie.Tree.Navigate.Track.{Track}
use op_magic_trie.Trie.Tree.Navigate.Follows.{Follows}
use op_magic_trie.Trie.Tree.Navigate.Next.{next-Follows}
use op_magic_trie.Trie.Tree.Navigate.Begin.{begin-Follows}
use op_magic_trie.Trie.Tree.Navigate.Tracked.{find-Track}
use op_magic_trie.Trie.Tree.Navigate.First.{AtLeast, enter_deep_until_terminal-AtLeast}

enter_deep_until_terminal-AtLeast_example :
    (i : TrieIterator) × (enter_deep_until_terminal 1 one_trie
        (some 0)
        end_iterator
        presence_first_set
      ≡ some i)
    × AtLeast one_trie 0 end_iterator i
enter_deep_until_terminal-AtLeast_example =
    enter_deep_until_terminal-AtLeast one_trie one_trie-IsTrie 1 0 end_iterator one_trie-Within

next-Follows_example : Follows one_trie (LexLt at_key.prefix) (next 1 one_trie at_key true)
next-Follows_example =
    next-Follows one_trie one_trie-IsTrie 1 one_trie-Within at_key (let e = entry.0 in e.child)
      at_key-Track refl

begin-Follows_example : Follows one_trie (λ q. Unit) (begin 0 one_trie)
begin-Follows_example = begin-Follows one_trie one_trie-IsTrie 0 (inr one_trie-Within)

find-Track_example :
    (it : TrieIterator) × (c : Option ℕ) × (find 0 one_trie (97 ∷ 98 ∷ 120 ∷ []) ≡ some it)
    × (it.prefix ≡ 97 ∷ 98 ∷ 120 ∷ [])
    × (on_data it ≡ true)
    × Track one_trie it.position_stack c it.prefix
find-Track_example =
    find-Track one_trie one_trie-IsTrie 0 (97 ∷ 98 ∷ 120 ∷ []) 7
      (omega arith, (omega arith, (omega arith, tt))) one_trie-Stored
