-- ===== src/Trie/Tree/Walk.antt =====
-- Where `mismatch` stops, on every way out.
use mathlib.Core.List.{append_cancel_left}
use op_magic_trie.Prelude.{
  ℕ, ◌<◌, ◌≡◌, ◌≢◌, ap, ◌⊎◌, true, false, Option, none, some, List, [], ◌∷◌, ◌++◌, length,
  length-append, arith, ◌==◌,
}
use op_magic_trie.Trie.Node.{Node, NodeData, has_value, kv_get, presence}
use op_magic_trie.Trie.Iterator.{
  equals, string_end, stem_end, unequals, no_entry, TrieIterator, top_address, top_key, top_stem,
}
use op_magic_trie.Trie.Shape.{Reach, Down}
use op_magic_trie.Trie.Tree.{Trie, stem_chars, Mismatch}
use op_magic_trie.Trie.Tree.View.{AllBytes, links, items}

-- The last position of the iterator, and its prefix.
pub record Stands (it : TrieIterator) (a k : ℕ) (size : Option ℕ) (prefix : List ℕ) : Type 0 where
  pub address : top_address it ≡ some a
  pub key : top_key it ≡ some k
  pub stem : top_stem it ≡ size
  pub spells : it.prefix ≡ prefix

pub cons_parts : (k j : ℕ) (s r : List ℕ) → k ∷ s ≡ j ∷ r → (k ≡ j) × (s ≡ r)
cons_parts k j s r e = (cc e, cc e)

pub longer_self : (s r : List ℕ) (b : ℕ) → s ≢ s ++ b ∷ r
longer_self s r b e = omega (arith, ap length e, length-append s (b ∷ r))

pub fork : (m r q : List ℕ) (x b : ℕ) → (x == b) ≡ false → m ++ x ∷ r ≢ m ++ b ∷ q
fork m r q x b ne e =
    let (same, _) = cons_parts x b r q (append_cancel_left m (x ∷ r) (b ∷ q) e) in
    ground (arith, ne, same)

module _ {V : Type 0} (t : Trie V) where
  -- The walk that had `whole` bytes to go from `start` with `q` left ends at a node `n`.
  pub data Walked (whole q : List ℕ) (start : ℕ) (o : Option Mismatch) : Type 0 where
    found :
        (it : TrieIterator) (p : List ℕ) (a : ℕ) (n : Node V) (k : ℕ) (e : NodeData V)
        → o ≡ some (record { result = equals; iter = it; rest = [] })
        → Reach (links t) t.root p a
        → t.nodes a ≡ some n
        → k < 256
        → kv_get n k ≡ some e
        → has_value n k ≡ true
        → whole ≡ p ++ k ∷ stem_chars e.stem
        → Stands it a k (some (length (stem_chars e.stem))) whole
        → Down (links t) (items t) start q e.value
        → ((v : V) → Down (links t) (items t) start q v → v ≡ e.value)
        → Walked whole q start o
    missing :
        (it : TrieIterator) (p : List ℕ) (a : ℕ) (n : Node V) (k : ℕ) (rest : List ℕ)
        → o ≡ some (record { result = no_entry; iter = it; rest = rest })
        → Reach (links t) t.root p a
        → t.nodes a ≡ some n
        → k < 256
        → presence n k ≡ false
        → whole ≡ p ++ k ∷ rest
        → AllBytes rest
        → Stands it a k none (p ++ k ∷ [])
        → ((v : V) → ¬ Down (links t) (items t) start q v)
        → Walked whole q start o
    inside :
        (it : TrieIterator) (p : List ℕ) (a : ℕ) (n : Node V) (k : ℕ) (e : NodeData V)
        (m tail : List ℕ)
        → o ≡ some (record { result = string_end; iter = it; rest = [] })
        → Reach (links t) t.root p a
        → t.nodes a ≡ some n
        → k < 256
        → kv_get n k ≡ some e
        → stem_chars e.stem ≡ m ++ tail
        → (tail ≢ []) ⊎ ((tail ≡ []) × (has_value n k ≡ false))
        → whole ≡ p ++ k ∷ m
        → Stands it a k (some (length m)) whole
        → ((v : V) → ¬ Down (links t) (items t) start q v)
        → Walked whole q start o
    short :
        (it : TrieIterator) (p : List ℕ) (a : ℕ) (n : Node V) (k : ℕ) (e : NodeData V) (b : ℕ)
        (rest : List ℕ)
        → o ≡ some (record { result = stem_end; iter = it; rest = b ∷ rest })
        → Reach (links t) t.root p a
        → t.nodes a ≡ some n
        → k < 256
        → kv_get n k ≡ some e
        → e.child ≡ none
        → whole ≡ (p ++ k ∷ stem_chars e.stem) ++ b ∷ rest
        → AllBytes (b ∷ rest)
        → Stands it a k (some (length (stem_chars e.stem))) (p ++ k ∷ stem_chars e.stem)
        → ((v : V) → ¬ Down (links t) (items t) start q v)
        → Walked whole q start o
    differs :
        (it : TrieIterator) (p : List ℕ) (a : ℕ) (n : Node V) (k : ℕ) (e : NodeData V) (m : List ℕ)
        (x b : ℕ) (tail rest : List ℕ)
        → o ≡ some (record { result = unequals; iter = it; rest = b ∷ rest })
        → Reach (links t) t.root p a
        → t.nodes a ≡ some n
        → k < 256
        → kv_get n k ≡ some e
        → stem_chars e.stem ≡ m ++ x ∷ tail
        → (x == b) ≡ false
        → whole ≡ (p ++ k ∷ m) ++ b ∷ rest
        → AllBytes (b ∷ rest)
        → Stands it a k (some (length m)) (p ++ k ∷ m)
        → ((v : V) → ¬ Down (links t) (items t) start q v)
        → Walked whole q start o
