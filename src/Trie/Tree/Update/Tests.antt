-- ===== src/Trie/Tree/Update/Tests.antt =====
-- The update of the key of a trie with one key.
use op_magic_trie.Prelude.{ℕ, ◌≡◌, some}
use op_magic_trie.Trie.Tree.Forked.{one_trie, one_trie-IsTrie, entry}
use op_magic_trie.Trie.Tree.Navigate.OneKey.{at_key, at_key-Track, at_key-value}
use op_magic_trie.Trie.Tree.Update.{Change, update_impl}
use op_magic_trie.Trie.Tree.Update.Updates.{Updated, update_impl-Updated}

update_impl-Updated_example :
    (u : Change ℕ) × (update_impl one_trie at_key 9 ≡ some u) × Updated one_trie at_key.prefix 9 u
update_impl-Updated_example =
    update_impl-Updated one_trie one_trie-IsTrie 9 at_key (let e = entry.0 in e.child) at_key-Track
      at_key-value
