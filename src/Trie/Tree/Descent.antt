-- ===== src/Trie/Tree/Descent.antt =====
-- The steps of `mismatch`: the iterator, and what lies below an entry.
use mathlib.Core.List.{append_assoc}
use op_magic_trie.Prelude.{
  ℕ, ◌<◌, ◌≡◌, refl, sym, ap, ◌∙◌, inl, inr, true, false, none, some, List, [], ◌∷◌, ◌++◌, length,
  arith, Bool-cases,
}
use op_magic_trie.Common.Bitset.Scan.{to_dim_small}
use op_magic_trie.Trie.Node.{Node, NodeData, has_value, kv_get}
use op_magic_trie.Trie.Iterator.{TriePosition, TrieIterator, rat, update_stem, top_address}
use op_magic_trie.Trie.Shape.{Links, Items, Down, item, child, stemmed-some}
use op_magic_trie.Trie.Tree.{Trie, stem_chars, enter}
use op_magic_trie.Trie.Tree.View.{links, items, links_empty, items_empty, links_entry, items_entry}
use op_magic_trie.Trie.Tree.Walk.{Stands, cons_parts}

abbrev pub iterator : List TriePosition → List ℕ → TrieIterator
iterator ps pre = record { position_stack = ps; prefix = pre }

module _ {V : Type 0} (n : Node V) where
  pub enter-Stands :
      (ps : List TriePosition) (pre p : List ℕ) (a k : ℕ)
      → top_address (iterator ps pre) ≡ some a
      → pre ≡ p
      → Stands (enter (iterator ps pre) n k) a k none (p ++ k ∷ [])
  enter-Stands [] pre p a k e d = absurd (ground (arith, e))
  enter-Stands (x ∷ ps) pre p a k e d = record {
    address = e;
    key = refl;
    stem = refl;
    spells = ap (λ z. z ++ k ∷ []) d;
  }

pub stem-Stands :
    (ps : List TriePosition) (pre p m : List ℕ) (a k : ℕ)
    → length m < 0xFFFF
    → Stands (iterator ps pre) a k none (p ++ k ∷ [])
    → Stands (update_stem (iterator ps pre) m) a k (some (length m)) (p ++ k ∷ m)
stem-Stands [] pre p m a k fits s = absurd (ground (arith, s.address))
stem-Stands (x ∷ ps) pre p m a k fits s = record {
  address = s.address;
  key = s.key;
  stem = to_dim_small (length m) fits;
  spells = ap (λ z. z ++ m) s.spells ∙ append_assoc p (k ∷ []) m;
}

pub zero-Stands :
    (ps : List TriePosition) (pre whole : List ℕ) (a k : ℕ)
    → Stands (iterator ps pre) a k none whole
    → Stands (rat (iterator ps pre) (λ p. record p { stem_size = some 0 })) a k (some 0) whole
zero-Stands [] pre whole a k s = absurd (ground (arith, s.address))
zero-Stands (x ∷ ps) pre whole a k s = record {
  address = s.address;
  key = s.key;
  stem = refl;
  spells = s.spells;
}

module _ {V : Type 0} {links : Links} {items : Items V} where
  pub Down-ne_nil : (c : ℕ) (v : V) → ¬ Down links items c [] v
  Down-ne_nil c v (item k s _ e) = cc e
  Down-ne_nil c v (child k c' s r _ e _) = cc e

module _ {V : Type 0} (t : Trie V) (a : ℕ) (n : Node V) (here : t.nodes a ≡ some n) (k : ℕ)
    (rest : List ℕ) (v : V) where
  -- Nothing lies below a byte with no entry.
  pub Down-missing :
      kv_get n k ≡ none → has_value n k ≡ false → ¬ Down (links t) (items t) a (k ∷ rest) v
  Down-missing empty bare (item j s stored spells) =
      let (same, _) = cons_parts k j rest s spells in
      let gone : items t a j ≡ none =
        (λ i. items t a (sym same i)) ∙ items_empty t a n here k bare in
      ground (arith, gone, stored)
  Down-missing empty bare (child j c s r link spells below) =
      let (same, _) = cons_parts k j rest (s ++ r) spells in
      let gone : links t a j ≡ none =
        (λ i. links t a (sym same i)) ∙ links_empty t a n here k empty in
      ground (arith, gone, link)

  module _ (small : k < 256) (e : NodeData V) (entry : kv_get n k ≡ some e) where
    -- What lies below an entry: its own value, or what lies below its child.
    pub data Below : Type 0 where
      own : has_value n k ≡ true → rest ≡ stem_chars e.stem → v ≡ e.value → Below
      deeper :
          (c : ℕ) (r : List ℕ)
          → e.child ≡ some c
          → rest ≡ stem_chars e.stem ++ r
          → Down (links t) (items t) c r v
          → Below

    pub Down-Below : Down (links t) (items t) a (k ∷ rest) v → Below
    Down-Below (item j s stored spells) =
        let (same, tails) = cons_parts k j rest s spells in
        let at_k : items t a k ≡ some (s, v) = (λ i. items t a (same i)) ∙ stored in
        elim (Bool-cases (has_value n k)) [
          | inl valued ↦
              let got : some (stem_chars e.stem, e.value) ≡ some (s, v) =
                sym (items_entry t a n here k small e entry valued) ∙ at_k in
              let stems : s ≡ stem_chars e.stem = cc got in
              let same_value : v ≡ e.value = cc got in own valued (tails ∙ stems) same_value
          | inr bare ↦ absurd (ground (arith, items_empty t a n here k bare, at_k))
        ]
    Down-Below (child j c s r link spells below) =
        let (same, tails) = cons_parts k j rest (s ++ r) spells in
        let at_k : links t a k ≡ some (s, c) = (λ i. links t a (same i)) ∙ link in
        let (stems, there) =
          stemmed-some (stem_chars e.stem) e.child s c
            (sym (links_entry t a n here k small e entry) ∙ at_k) in
        deeper c r there (tails ∙ ap (λ z. z ++ r) stems) below
