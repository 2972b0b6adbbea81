-- ===== src/Trie/Mixed/Tests.antt =====
-- The keys of a trie with one key.
use mathlib.Core.List.{Memᴰ}
use op_magic_trie.Prelude.{ℕ, ◌≡◌, ◌↔◌, some, List, [], ◌∷◌, arith}
use op_magic_trie.Trie.Tree.View.{Stored}
use op_magic_trie.Trie.Tree.Forked.{one_trie, one_trie-IsTrie}
use op_magic_trie.Trie.Tree.Navigate.OneKey.{one_trie-Within, one_trie-keys}
use op_magic_trie.Trie.Mixed.{default_mixer, keys}
use op_magic_trie.Trie.Mixed.Visits.{IsAscending, keys-Reads}

keys-Reads_example :
    (ks : List (List ℕ)) × (keys 1 (default_mixer 0) one_trie ≡ some ks)
    × IsAscending ks
    × ((q : List ℕ) → Memᴰ q ks ↔ ((v : ℕ) × Stored one_trie q v))
keys-Reads_example =
    keys-Reads one_trie one_trie-IsTrie 0 one_trie-Within 1 ((97 ∷ 98 ∷ 120 ∷ []) ∷ [])
      (omega arith) (λ q v h. Memᴰ.head (one_trie-keys q v h))
