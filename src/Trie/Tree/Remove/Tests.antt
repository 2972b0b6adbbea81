-- ===== src/Trie/Tree/Remove/Tests.antt =====
-- The removal of the key of a trie with one key.
use op_magic_trie.Prelude.{ℕ, ◌≡◌, some}
use op_magic_trie.Trie.Tree.Forked.{one_trie, one_trie-IsTrie, entry}
use op_magic_trie.Trie.Tree.Navigate.OneKey.{one_trie-Within, at_key, at_key-Track, at_key-value}
use op_magic_trie.Trie.Tree.Remove.{Removal, erase}
use op_magic_trie.Trie.Tree.Remove.Erases.{Erasure, erase-Erasure}

erase-Erasure_example :
    (r : Removal ℕ) × (erase 1 one_trie at_key ≡ some r) × Erasure one_trie one_trie-IsTrie at_key r
erase-Erasure_example =
    erase-Erasure one_trie one_trie-IsTrie 1 one_trie-Within at_key (let e = entry.0 in e.child)
      at_key-Track at_key-value
