-- ===== src/Trie/Tree/Navigate/Follows.antt =====
-- What a move of `_next` returns, and the levels below a position.
use mathlib.Core.Path.{subst}
use op_magic_trie.Prelude.{ℕ, zero, suc, ◌<◌, ◌≡◌, refl, sym, ap, ◌∙◌, true, Option, some, List, []}
use op_magic_trie.Trie.Node.{Node, NodeData, kv_get}
use op_magic_trie.Trie.Iterator.{TriePosition, TrieIterator}
use op_magic_trie.Trie.Shape.{stemmed}
use op_magic_trie.Trie.Tree.{Trie, stem_chars}
use op_magic_trie.Trie.Tree.View.{links, Stored, links_entry}
use op_magic_trie.Trie.Tree.Navigate.{on_data}
use op_magic_trie.Trie.Tree.Navigate.Lex.{LexLe}
use op_magic_trie.Trie.Tree.Navigate.Track.{Track, top, down}
use op_magic_trie.Trie.Tree.Navigate.First.{Within, level}

module _ {V : Type 0} (t : Trie V) where
  -- The iterator that is returned is at the least stored key with the property, or there is none
  -- and it is the end.
  pub data Follows (Past : List ℕ → Type 0) (o : Option TrieIterator) : Type 0 where
    found :
        (i : TrieIterator) (c : Option ℕ) (v : V)
        → o ≡ some i
        → Track t i.position_stack c i.prefix
        → on_data i ≡ true
        → Stored t i.prefix v
        → Past i.prefix
        → ((q : List ℕ) (x : V) → Stored t q x → Past q → LexLe i.prefix q)
        → Follows Past o
    finished :
        (i : TrieIterator)
        → o ≡ some i
        → i.position_stack ≡ []
        → ((q : List ℕ) (x : V) → Stored t q x → ¬ Past q)
        → Follows Past o

  pub Follows-same :
      (Past : List ℕ → Type 0) (o o' : Option TrieIterator)
      → o ≡ o'
      → Follows Past o'
      → Follows Past o
  Follows-same Past o o' e f = subst (Follows Past) (sym e) f

  Within-suc : (levels a : ℕ) → Within t levels a → Within t (suc levels) a
  Within-suc zero a below = elim below [ ]
  Within-suc (suc levels) a (level n k there first next) =
      level n k there first (λ j c s l. Within-suc levels c (next j c s l))

  pub child-Within :
      (levels a j c : ℕ) (s : List ℕ)
      → Within t levels a
      → links t a j ≡ some (s, c)
      → Within t levels c
  child-Within zero a j c s below l = elim below [ ]
  child-Within (suc levels) a j c s (level n k there first next) l =
      Within-suc levels c (next j c s l)

  pub entry-Within :
      (levels a : ℕ) (n : Node V) (k : ℕ) (e : NodeData V)
      → Within t levels a
      → t.nodes a ≡ some n
      → k < 256
      → kv_get n k ≡ some e
      → (c : ℕ) → e.child ≡ some c
      → Within t levels c
  entry-Within levels a n k e below there small entry c inner =
      child-Within levels a k c (stem_chars e.stem) below
        (links_entry t a n there k small e entry ∙ ap (stemmed (stem_chars e.stem)) inner)

  pub Track-Within :
      (levels : ℕ)
      → Within t levels t.root
      → (ps : List TriePosition) (c : Option ℕ) (w : List ℕ) → Track t ps c w
      → (a : ℕ) → c ≡ some a
      → Within t levels a
  Track-Within levels below ps c w top a e =
      let same : t.root ≡ a = cc e in subst (Within t levels) same below
  Track-Within levels below _ _ _ (down {ps} {w} {p} {a = b} {k} {n} {e = d} path at) a e =
      entry-Within levels b n k d (Track-Within levels below ps (some b) w path b refl) at.there
        at.small at.entry a e
