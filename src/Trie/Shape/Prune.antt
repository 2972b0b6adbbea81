-- ===== src/Trie/Shape/Prune.antt =====
-- An item that goes, and an address that goes with the link to it.
use mathlib.Core.Path.{subst}
use op_magic_trie.Prelude.{
  ℕ, ◌≡◌, ◌≢◌, ◌↔◌, refl, sym, ap, ◌∙◌, inl, inr, none, some, List, ◌∷◌, ◌++◌, arith, if◌then◌else◌,
}
use op_magic_trie.Trie.Shape.Paths.{Links, Items, Reach, here, step, Holds, IsForest, Reach-unique}
use op_magic_trie.Trie.Shape.Gain.{at_entry, at_entry_cases}

-- Fewer links.
pub Reach-fewer :
    (links links' : Links) (root : ℕ)
    → ((x j c : ℕ) (s : List ℕ) → links' x j ≡ some (s, c) → links x j ≡ some (s, c))
    → (q : List ℕ) (x : ℕ) → Reach links' root q x
    → Reach links root q x
Reach-fewer links links' root sub q x (here e r) = here e r
Reach-fewer links links' root sub q x (step p s b j r l e) =
    step p s b j (Reach-fewer links links' root sub p b r) (sub b j x s l) e

pub IsForest-fewer :
    (links links' : Links) (root : ℕ)
    → ((x j c : ℕ) (s : List ℕ) → links' x j ≡ some (s, c) → links x j ≡ some (s, c))
    → IsForest links root
    → IsForest links' root
IsForest-fewer links links' root sub f = record {
  single = λ a b k j c s r l m. f.single a b k j c s r (sub a k c s l) (sub b j c r m);
  top = λ a k s l. f.top a k s (sub a k root s l);
}

module _ {V : Type 0} (links : Links) (items items' : Items V) (root : ℕ) (f : IsForest links root)
    (p : List ℕ) (a k : ℕ) (s : List ℕ) (v : V) (reach : Reach links root p a)
    (stored : items a k ≡ some (s, v))
    (reads : (b j : ℕ) → items' b j ≡ (if at_entry a k b j then none else items b j)) where
  -- A key that is still stored was stored.
  pub Holds-lost : (q : List ℕ) (w : V) → Holds links items' root q w → Holds links items root q w
  Holds-lost q w h = record {
    path = h.path;
    address = h.address;
    byte = h.byte;
    stem = h.stem;
    reach = h.reach;
    stored = elim (at_entry_cases a k h.address h.byte) [
      | inl (_, _, e) ↦ absurd (ground (arith, reads h.address h.byte, e, h.stored))
      | inr e ↦ sym (reads h.address h.byte ∙ rw e refl) ∙ h.stored
    ];
    spells = h.spells;
  }

  -- A key other than the one of the item is still stored.
  pub Holds-kept :
      (q : List ℕ) (w : V)
      → q ≢ p ++ k ∷ s
      → Holds links items root q w
      → Holds links items' root q w
  Holds-kept q w other h = record {
    path = h.path;
    address = h.address;
    byte = h.byte;
    stem = h.stem;
    reach = h.reach;
    stored = reads h.address h.byte ∙ elim (at_entry_cases a k h.address h.byte) [
      | inl (ea, ek, e) ↦
          let at_a : Reach links root h.path a =
            subst (λ z. Reach links root h.path z) ea h.reach in
          let paths = Reach-unique links root f a h.path p at_a reach in
          let got : some (s, v) ≡ some (h.stem, w) =
            sym stored ∙ (λ i. items (sym ea i) (sym ek i)) ∙ h.stored in
          let stems : h.stem ≡ s = cc got in
          absurd (other (h.spells ∙ (λ i. paths i ++ ek i ∷ stems i)))
      | inr e ↦ rw e h.stored
    ];
    spells = h.spells;
  }

module _ {V : Type 0} (links links' : Links) (items items' : Items V) (root b k a : ℕ) (s : List ℕ)
    (link : links b k ≡ some (s, a)) (no_links : (j : ℕ) → links a j ≡ none)
    (no_items : (j : ℕ) → items a j ≡ none)
    (reads : (x j : ℕ) → links' x j ≡ (if at_entry b k x j then none else links x j))
    (same : (x j : ℕ) → items' x j ≡ items x j) where
  pub prune_fewer : (x j c : ℕ) (r : List ℕ) → links' x j ≡ some (r, c) → links x j ≡ some (r, c)
  prune_fewer x j c r l = elim (at_entry_cases b k x j) [
    | inl (_, _, e) ↦ absurd (ground (arith, reads x j, e, l))
    | inr e ↦ sym (reads x j ∙ rw e refl) ∙ l
  ]

  -- Every other address is reached as before.
  Reach-prune : (q : List ℕ) (x : ℕ) → x ≢ a → Reach links root q x → Reach links' root q x
  Reach-prune q x other (here e r) = here e r
  Reach-prune q x other (step p r y j reach l e) =
      let not_gone : y ≢ a = λ at_a.
        let gone : links y j ≡ none = ap (λ z. links z j) at_a ∙ no_links j in
        ground (arith, gone, l) in
      step p r y j (Reach-prune p y not_gone reach)
        (reads y j ∙ elim (at_entry_cases b k y j) [
          | inl (eb, ek, _) ↦
              let got : some (s, a) ≡ some (r, x) =
                sym link ∙ (λ i. links (sym eb i) (sym ek i)) ∙ l in
              let at_a : x ≡ a = cc got in absurd (other at_a)
          | inr apart ↦ rw apart l
        ])
        e

  -- The same keys are stored.
  pub Holds-prune : (q : List ℕ) (w : V) → Holds links' items' root q w ↔ Holds links items root q w
  Holds-prune q w = (
    λ h. record {
      path = h.path;
      address = h.address;
      byte = h.byte;
      stem = h.stem;
      reach = Reach-fewer links links' root prune_fewer h.path h.address h.reach;
      stored = sym (same h.address h.byte) ∙ h.stored;
      spells = h.spells;
    },
    λ h. record {
      path = h.path;
      address = h.address;
      byte = h.byte;
      stem = h.stem;
      reach =
          Reach-prune h.path h.address
            (λ at_a.
              let gone : items h.address h.byte ≡ none =
                ap (λ z. items z h.byte) at_a ∙ no_items h.byte in
              ground (arith, gone, h.stored))
            h.reach;
      stored = same h.address h.byte ∙ h.stored;
      spells = h.spells;
    },
  )
