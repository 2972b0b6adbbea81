-- ===== src/Trie/Shape/Split.antt =====
-- A graft stores no other keys: an item stays where it is, or moves down with the child.
use mathlib.Core.Path.{subst}
use mathlib.Core.List.{append_assoc}
use op_magic_trie.Prelude.{
  ℕ, ◌≡◌, ◌≢◌, ◌↔◌, refl, sym, ap, ◌∙◌, inl, inr, false, Option, none, some, List, ◌∷◌, ◌++◌, arith,
  if◌then◌else◌,
}
use op_magic_trie.Trie.Shape.Paths.{Links, Items, Reach, step, Holds, IsForest}
use op_magic_trie.Trie.Shape.Gain.{at_entry, at_entry_cases, at_entry_self}
use op_magic_trie.Trie.Shape.Graft.{
  IsFresh, stemmed, stemmed-some, Reach-ne_fresh, Reach-graft, Back, kept, fresh_at, Reach-Back,
}

module _ {V : Type 0} (items items' : Items V) (links links' : Links) (root : ℕ)
    (f : IsForest links root) (p : List ℕ) (a k : ℕ) (reach : Reach links root p a)
    (left rest : List ℕ) (new_key c : ℕ) (moved : Option ℕ)
    (before : links a k ≡ stemmed (left ++ new_key ∷ rest) moved) (fresh : IsFresh links root c)
    (no_items : (j : ℕ) → items c j ≡ none)
    (reads : (b j : ℕ)
      → links' b j ≡ (
          if at_entry a k b j
          then some (left, c)
          else if at_entry c new_key b j
          then stemmed rest moved
          else links b j)) where
  abbrev Reached : List ℕ → ℕ → Type 0
  Reached q x =
      Back links links' root f p a k reach left rest new_key c moved before fresh reads q x

  back : (q : List ℕ) (x : ℕ) → Reach links' root q x → Reached q x
  back = Reach-Back links links' root f p a k reach left rest new_key c moved before fresh reads

  forth : (q : List ℕ) (x : ℕ) → Reach links root q x → Reach links' root q x
  forth = Reach-graft links links' root f p a k reach left rest new_key c moved before fresh reads

  ne_fresh : (q : List ℕ) (b : ℕ) → Reach links root q b → b ≢ c
  ne_fresh =
      Reach-ne_fresh links links' root f p a k reach left rest new_key c moved before fresh reads

  -- Where no item moves, the same keys are stored.
  pub Holds-hang : (q : List ℕ) (w : V) → Holds links' items root q w ↔ Holds links items root q w
  Holds-hang q w = (
    λ h. elim (back h.path h.address h.reach) [
      | kept ne r ↦ record {
        path = h.path;
        address = h.address;
        byte = h.byte;
        stem = h.stem;
        reach = r;
        stored = h.stored;
        spells = h.spells;
      }
      | fresh_at same t r e ↦
          let gone : items h.address h.byte ≡ none =
            (λ i. items (same i) h.byte) ∙ no_items h.byte in
          absurd (ground (arith, gone, h.stored))
    ],
    λ h. record {
      path = h.path;
      address = h.address;
      byte = h.byte;
      stem = h.stem;
      reach = forth h.path h.address h.reach;
      stored = h.stored;
      spells = h.spells;
    },
  )

  module _ (value : Option V) (item_before : items a k ≡ stemmed (left ++ new_key ∷ rest) value)
      (item_reads : (b j : ℕ)
        → items' b j ≡ (
            if at_entry a k b j
            then none
            else if at_entry c new_key b j
            then stemmed rest value
            else items b j)) where
    split_back : (q : List ℕ) (w : V) → Holds links' items' root q w → Holds links items root q w
    split_back q w h = elim (at_entry_cases a k h.address h.byte) [
      | inl (_, _, e) ↦
          let gone : items' h.address h.byte ≡ none = item_reads h.address h.byte ∙ rw e refl in
          absurd (ground (arith, gone, h.stored))
      | inr other ↦ elim (back h.path h.address h.reach) [
        | kept ne r ↦
            let apart : at_entry c new_key h.address h.byte ≡ false = ground (arith, ne) in
            record {
              path = h.path;
              address = h.address;
              byte = h.byte;
              stem = h.stem;
              reach = r;
              stored = sym (item_reads h.address h.byte ∙ rw (other, apart) refl) ∙ h.stored;
              spells = h.spells;
            }
        | fresh_at same t r e ↦ elim (at_entry_cases c new_key h.address h.byte) [
          | inl (_, ej, d) ↦
              let got : stemmed rest value ≡ some (h.stem, w) =
                sym (item_reads h.address h.byte ∙ rw (other, d) refl) ∙ h.stored in
              let (stems, there) = stemmed-some rest value h.stem w got in
              record {
                path = t;
                address = a;
                byte = k;
                stem = left ++ new_key ∷ rest;
                reach = r;
                stored = item_before ∙ ap (stemmed (left ++ new_key ∷ rest)) there;
                spells =
                    h.spells
                    ∙ (λ i. e i ++ ej i ∷ stems i)
                    ∙ append_assoc t (k ∷ left) (new_key ∷ rest);
              }
          | inr d ↦
              let gone : items h.address h.byte ≡ none =
                (λ i. items (same i) h.byte) ∙ no_items h.byte in
              let still : items' h.address h.byte ≡ none =
                item_reads h.address h.byte ∙ rw (other, d) gone in
              absurd (ground (arith, still, h.stored))
        ]
      ]
    ]

    split_forth : (q : List ℕ) (w : V) → Holds links items root q w → Holds links' items' root q w
    split_forth q w h = elim (at_entry_cases a k h.address h.byte) [
      | inl (eb, ej, _) ↦
          let got : stemmed (left ++ new_key ∷ rest) value ≡ some (h.stem, w) =
            sym item_before ∙ (λ i. items (sym eb i) (sym ej i)) ∙ h.stored in
          let (stems, there) = stemmed-some (left ++ new_key ∷ rest) value h.stem w got in
          let at_a : Reach links root h.path a =
            subst (λ z. Reach links root h.path z) eb h.reach in
          let apart : at_entry a k c new_key ≡ false = ground (arith, ne_fresh p a reach) in
          record {
            path = h.path ++ k ∷ left;
            address = c;
            byte = new_key;
            stem = rest;
            reach =
                step h.path left a k (forth h.path a at_a) (reads a k ∙ rw (at_entry_self a k) refl)
                  refl;
            stored =
                item_reads c new_key
                ∙ rw (apart, at_entry_self c new_key) (ap (stemmed rest) there);
            spells =
                h.spells
                ∙ (λ i. h.path ++ ej i ∷ stems i)
                ∙ sym (append_assoc h.path (k ∷ left) (new_key ∷ rest));
          }
      | inr other ↦
          let ne = ne_fresh h.path h.address h.reach in
          let apart : at_entry c new_key h.address h.byte ≡ false = ground (arith, ne) in
          record {
            path = h.path;
            address = h.address;
            byte = h.byte;
            stem = h.stem;
            reach = forth h.path h.address h.reach;
            stored = item_reads h.address h.byte ∙ rw (other, apart) h.stored;
            spells = h.spells;
          }
    ]

    -- An entry that is split stores the same keys.
    pub Holds-split :
        (q : List ℕ) (w : V) → Holds links' items' root q w ↔ Holds links items root q w
    Holds-split q w = (split_back q w, split_forth q w)
