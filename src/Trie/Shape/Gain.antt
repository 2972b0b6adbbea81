-- ===== src/Trie/Shape/Gain.antt =====
-- One more item, at an address that is reached.
use mathlib.Core.Path.{subst}
use op_magic_trie.Prelude.{
  ℕ, ◌≡◌, ◌↔◌, refl, sym, ap, ◌∙◌, ◌⊎◌, inl, inr, true, false, Bool, ◌&&◌, none, some, List, ◌∷◌,
  ◌++◌, arith, Bool-cases, ◌==◌, ==_refl, if◌then◌else◌,
}
use op_magic_trie.Trie.Shape.Paths.{Links, Items, Reach, Holds, IsForest, Reach-unique}

-- The entry of the byte `k` at the address `a`.
abbrev pub at_entry : ℕ → ℕ → ℕ → ℕ → Bool
at_entry a k b j = b == a && j == k

pub at_entry_cases :
    (a k b j : ℕ) → ((b ≡ a) × (j ≡ k) × (at_entry a k b j ≡ true)) ⊎ (at_entry a k b j ≡ false)
at_entry_cases a k b j = elim (Bool-cases (at_entry a k b j)) [
  | inl e ↦ inl (ground (arith, e), ground (arith, e), e)
  | inr e ↦ inr e
]

pub at_entry_self : (a k : ℕ) → at_entry a k a k ≡ true
at_entry_self a k = ground (arith, ==_refl a, ==_refl k)

module _ {V : Type 0} (links : Links) (items items' : Items V) (root : ℕ) (f : IsForest links root)
    (p : List ℕ) (a k : ℕ) (s : List ℕ) (v : V) (reach : Reach links root p a)
    (absent : items a k ≡ none)
    (reads : (b j : ℕ) → items' b j ≡ (if at_entry a k b j then some (s, v) else items b j)) where
  -- The keys that are stored are those of before and the new one.
  pub Holds-gain :
      (q : List ℕ) (w : V)
      → Holds links items' root q w ↔ (Holds links items root q w ⊎ ((q ≡ p ++ k ∷ s) × (w ≡ v)))
  Holds-gain q w = (
    λ h. elim (at_entry_cases a k h.address h.byte) [
      | inl (ea, ek, e) ↦
          let got : some (s, v) ≡ some (h.stem, w) =
            sym (reads h.address h.byte ∙ rw e refl) ∙ h.stored in
          let back : Reach links root h.path a =
            subst (λ z. Reach links root h.path z) ea h.reach in
          let paths = Reach-unique links root f a h.path p back reach in
          let stems : h.stem ≡ s = cc got in
          let values : w ≡ v = cc got in inr (h.spells ∙ (λ i. paths i ++ ek i ∷ stems i), values)
      | inr e ↦ inl (record {
        path = h.path;
        address = h.address;
        byte = h.byte;
        stem = h.stem;
        reach = h.reach;
        stored = sym (reads h.address h.byte ∙ rw e refl) ∙ h.stored;
        spells = h.spells;
      })
    ],
    λ r. elim r [
      | inl h ↦ record {
        path = h.path;
        address = h.address;
        byte = h.byte;
        stem = h.stem;
        reach = h.reach;
        stored = reads h.address h.byte ∙ elim (at_entry_cases a k h.address h.byte) [
          | inl (ea, ek, e) ↦
              let gone : items h.address h.byte ≡ none = rw (ea, ek) absent in
              absurd (ground (arith, gone, h.stored))
          | inr e ↦ rw e h.stored
        ];
        spells = h.spells;
      }
      | inr (eq, ew) ↦ record {
        path = p;
        address = a;
        byte = k;
        stem = s;
        reach = reach;
        stored = reads a k ∙ rw (at_entry_self a k) (ap (λ z. some (s, z)) (sym ew));
        spells = eq;
      }
    ],
  )
