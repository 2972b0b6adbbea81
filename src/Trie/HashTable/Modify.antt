-- ===== src/Trie/HashTable/Modify.antt =====
-- A write through the pointer that `get` returns.
use mathlib.Core.Option
use op_magic_trie.Prelude.{
  ℕ, ◌≡◌, sym, ◌∙◌, inl, inr, false, arith, Bool-cases, Option-cases, ◌==◌, ==_iff, ==_refl,
  if◌then◌else◌,
}
use op_magic_trie.Trie.HashTable.{Table, write, find, get, modify}
use op_magic_trie.Trie.HashTable.Ring.{IsCapacity}
use op_magic_trie.Trie.HashTable.Probe.{
  HasKey, IsProbed, Absent, find_sound, get-HasKey, get-Absent, get_moved, stored_cases,
  find_complete,
}

-- Tables with the same keys in the same slots are under the invariant together.
IsProbed-same {ℓ} :
    {P : Type ℓ} (c : ℕ) (t u : Table P)
    → ((j : ℕ) → (u j).key ≡ (t j).key)
    → ((j : ℕ) → (u j).presence ≡ (t j).presence)
    → IsProbed c t
    → IsProbed c u
IsProbed-same c t u keys marks inv = record {
  near = λ j jc h. rw (keys j) (inv.near j jc (sym (marks j) ∙ h));
  chain = λ j q jc qc h l. marks q ∙ inv.chain j q jc qc (sym (marks j) ∙ h) (rw (keys j) at l);
  once = λ i j ic jc h g e.
      inv.once i j ic jc (sym (marks i) ∙ h) (sym (marks j) ∙ g) (sym (keys i) ∙ e ∙ keys j);
}

module _ {ℓ} {P : Type ℓ} (c : ℕ) (cap : IsCapacity c) (t : Table P) (inv : IsProbed c t) (k : ℕ)
    (f : P → P) where
  modify_missing : Absent c t k → modify c t k f ≡ t
  unfolding modify
  modify_missing a = elim (Option-cases (find c t k)) [
    | inl e ↦ rw (e, modify)
    | inr (j, e) ↦ absurd (a j (find_sound c cap t k j e))
  ]

  -- The slot of the key gets the new payload.
  module _ (i : ℕ) (h : HasKey c t i k) where
    changed : Table P
    changed =
        let v = t i in
        write t i (record { key = v.key; presence = v.presence; payload = f v.payload })

    modify_found : modify c t k f ≡ changed
    unfolding modify changed
    modify_found = rw (find_complete c cap t k inv i h, modify)

    changed-keys : (j : ℕ) → (changed j).key ≡ (t j).key
    unfolding changed
    changed-keys j = ground arith

    changed-marks : (j : ℕ) → (changed j).presence ≡ (t j).presence
    unfolding changed
    changed-marks j = ground arith

    changed-IsProbed : IsProbed c changed
    changed-IsProbed = IsProbed-same c t changed changed-keys changed-marks inv

    changed-HasKey : (j q : ℕ) → HasKey c t j q → HasKey c changed j q
    changed-HasKey j q g = record {
      below = g.below;
      present = changed-marks j ∙ g.present;
      key = changed-keys j ∙ g.key;
    }

    changed-back : (j q : ℕ) → HasKey c changed j q → HasKey c t j q
    changed-back j q g = record {
      below = g.below;
      present = sym (changed-marks j) ∙ g.present;
      key = sym (changed-keys j) ∙ g.key;
    }

    get-changed :
        (q : ℕ) → get c changed q ≡ (if q == k then Option.map f (get c t k) else get c t q)
    unfolding changed
    get-changed q = elim (Bool-cases (q == k)) [
      | inl e ↦
          rw (e, (==_iff q k).0 e, get-HasKey c cap t inv i k h)
            (get-HasKey c cap changed changed-IsProbed i k (changed-HasKey i k h) ∙ rw (==_refl i))
      | inr e ↦ rw e (
          get_moved c cap t changed inv changed-IsProbed q
            (λ j g.
              let off : (j == i) ≡ false = ground (arith, e, g.key, h.key) in
              (j, changed-HasKey j q g, rw off))
            (λ j g. (j, changed-back j q g)))
    ]

  pub modify-IsProbed : IsProbed c (modify c t k f)
  modify-IsProbed = elim (stored_cases c cap t inv k) [
    | inl a ↦ rw (modify_missing a) inv
    | inr (i, h) ↦ rw (modify_found i h) (changed-IsProbed i h)
  ]

  -- `get` reads the new payload at the key, and the old ones elsewhere.
  pub get-modify :
      (q : ℕ) → get c (modify c t k f) q ≡ (if q == k then Option.map f (get c t k) else get c t q)
  get-modify q = elim (stored_cases c cap t inv k) [
    | inl a ↦
        let empty = get-Absent c cap t inv k a in
        rw (modify_missing a, empty) (ground (arith, empty))
    | inr (i, h) ↦ rw (modify_found i h) (get-changed i h q)
  ]
