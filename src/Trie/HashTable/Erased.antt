-- ===== src/Trie/HashTable/Erased.antt =====
-- The table after `erase`.
use op_magic_trie.Prelude.{
  ℕ, ◌≡◌, ◌≢◌, refl, sym, ◌∙◌, ◌⊎◌, inl, inr, Bool, true, false, Option, none, some, arith,
  Bool-cases, ◌==◌, ==_iff, if◌then◌else◌,
}
use op_magic_trie.Trie.HashTable.{Table, restore_on_erase, erase, find, payload_at, get}
use op_magic_trie.Trie.HashTable.Ring.{IsCapacity}
use op_magic_trie.Trie.HashTable.Probe.{
  HasKey, IsProbed, find_sound, get-HasKey, get-Absent, get_moved,
}
use op_magic_trie.Trie.HashTable.Erase.{Restored, restore_on_erase-Restored, erase-find}

module _ {ℓ} {P : Type ℓ} (c : ℕ) (cap : IsCapacity c) (t : Table P) (inv : IsProbed c t)
    (k : ℕ) where
  -- What `erase` promises: it finds no entry, or removes the one of the key and no other.
  abbrev pub EraseLaw : Option (Table P × Bool) → Type ℓ
  EraseLaw r =
      ((get c t k ≡ none) × (r ≡ some (t, false)))
      ⊎ ((u : Table P) × (r ≡ some (u, true))
          × (get c t k ≢ none)
          × IsProbed c u
          × ((q : ℕ) → get c u q ≡ (if q == k then none else get c t q)))

  module _ (p : ℕ) (held : HasKey c t p k) (u : Table P) (inv' : IsProbed c u) where
    get-restored :
        ((q j : ℕ)
          → j ≢ p
          → HasKey c t j q
          → (m : ℕ) × HasKey c u m q × ((u m).payload ≡ (t j).payload))
        → ((q m : ℕ) → HasKey c u m q → (j : ℕ) × (j ≢ p) × HasKey c t j q)
        → (q : ℕ) → get c u q ≡ (if q == k then none else get c t q)
    get-restored forward back q = elim (Bool-cases (q == k)) [
      | inl e ↦
          rw (e, (==_iff q k).0 e)
            (get-Absent c cap u inv' k λ m h.
              let (j, ne, h') = back k m h in
              ne (inv.once j p h'.below held.below h'.present held.present (h'.key ∙ sym held.key)))
      | inr e ↦ rw e (
          get_moved c cap t u inv inv' q
            (λ j h.
              let ne : j ≢ p = λ d. absurd (ground (arith, e, h.key, held.key, d)) in
              forward q j ne h)
            (λ m h. let (j, ne, h') = back q m h in (j, h')))
    ]

  erase_found :
      (p : ℕ)
      → find c t k ≡ some p
      → Restored c cap t p (restore_on_erase c t p)
      → EraseLaw (elim (restore_on_erase c t p) [ none ↦ none | some u ↦ some (u, true) ])
  unfolding Restored
  erase_found p e (u, run, inv', forward, back) =
      let held = find_sound c cap t k p e in
      rw run (
        inr (
          u,
          refl,
          (λ absent. cc (absent, get-HasKey c cap t inv p k held)),
          inv',
          get-restored p held u inv' forward back,
        ))

  -- Under the invariant, `erase` of a key returns a result: either the key reads as none and the
  -- table stays with the result false, or the key was stored, the result is true, the new table is
  -- under the invariant, the key reads as none in it and every other key reads as before.
  pub erase-EraseLaw : EraseLaw (erase c t k)
  unfolding get payload_at
  erase-EraseLaw = elim (erase-find c cap t k) [
    | inl (missing, e) ↦ rw e (inl (rw missing, refl))
    | inr (p, found, e) ↦
        let held = find_sound c cap t k p found in
        rw e (erase_found p found (restore_on_erase-Restored c cap t p inv held.below held.present))
  ]
