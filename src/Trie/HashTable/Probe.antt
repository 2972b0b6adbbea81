-- ===== src/Trie/HashTable/Probe.antt =====
-- The invariant of the table, and `find_impl` and `get` under it.
use native.Mathlib.Decide.{ℕ_discrete}
use op_magic_trie.Prelude.{
  ℕ, zero, suc, ◌+◌, ◌≤◌, ◌<◌, ◌≡◌, ◌≢◌, ◌↔◌, ◌⊎◌, inl, inr, true, false, sym, ap, ◌∙◌, none, some,
  arith, Option-cases, ◌==◌,
}
use op_magic_trie.Trie.HashTable.{
  Table, max_hash_neighbors, hash, next_pos, find_loop, find, payload_at, get, create,
}
use op_magic_trie.Trie.HashTable.Ring.{
  IsCapacity, hash-lt, dist, dist-lt, dist_self, dist-injective, dist-next_pos, next_pos-lt,
}

module _ {ℓ} {P : Type ℓ} (c : ℕ) (t : Table P) where
  abbrev pub home : ℕ → ℕ
  home j = let v = t j in hash v.key c

  -- Slot `j` is occupied.
  abbrev pub Present : ℕ → Type 0
  Present j = (t j).presence ≡ true

  -- Slot `j` is occupied by the key `k`.
  pub record HasKey (j k : ℕ) : Type 0 where
    pub below : j < c
    pub present : Present j
    pub key : (t j).key ≡ k

  -- An entry is near its hash, with no gap before it, and no key is stored twice.
  pub record IsProbed : Type 0 where
    pub near : (j : ℕ) → j < c → Present j → dist c (home j) j < max_hash_neighbors c
    pub chain :
        (j q : ℕ) → j < c → q < c → Present j → dist c (home j) q < dist c (home j) j → Present q
    pub once : (i j : ℕ) → i < c → j < c → Present i → Present j → (t i).key ≡ (t j).key → i ≡ j

module _ {ℓ} {P : Type ℓ} (c : ℕ) (cap : IsCapacity c) (t : Table P) (k : ℕ) where
  find_loop_sound :
      (rounds pos j : ℕ) → pos < c → find_loop rounds c t k pos ≡ some j → HasKey c t j k
  unfolding find_loop
  find_loop_sound zero pos j h e = absurd (ground arith)
  find_loop_sound (suc rounds) pos j h e =
      let step =
        find_loop_sound rounds (next_pos c pos) j
          (next_pos-lt c (hash k c) (hash-lt k c cap) pos h) in
      ground (arith, step)

  -- What `find` returns is a slot that the key occupies.
  pub find_sound : (j : ℕ) → find c t k ≡ some j → HasKey c t j k
  unfolding find
  find_sound j e = find_loop_sound (max_hash_neighbors c) (hash k c) j (hash-lt k c cap) e

  module _ (inv : IsProbed c t) (j : ℕ) (held : HasKey c t j k) where
    reach : dist c (hash k c) j < max_hash_neighbors c
    reach = rw held.key at (inv.near j held.below held.present)

    filled : (q : ℕ) → q < c → dist c (hash k c) q < dist c (hash k c) j → Present c t q
    filled q qc l = inv.chain j q held.below qc held.present (rw held.key l)

    -- Before it meets `j`, the search passes occupied slots of other keys.
    passes :
        (pos : ℕ)
        → pos < c
        → dist c (hash k c) pos ≤ dist c (hash k c) j
        → (pos ≡ j)
          ⊎ ((dist c (hash k c) pos < dist c (hash k c) j)
              × Present c t pos
              × (((t pos).key == k) ≡ false))
    passes pos pc l = elim (ℕ_discrete pos j) [
      | yes e ↦ inl e
      | no e ↦
          let apart : dist c (hash k c) pos ≢ dist c (hash k c) j =
            λ d. e (dist-injective c (hash k c) (hash-lt k c cap) pos j pc held.below d) in
          let closer : dist c (hash k c) pos < dist c (hash k c) j = omega arith in
          let there = filled pos pc closer in
          inr (closer, there, ground (arith, inv.once pos j pc held.below there held.present))
    ]

    find_loop_complete :
        (rounds pos : ℕ)
        → pos < c
        → dist c (hash k c) pos + rounds ≡ max_hash_neighbors c
        → dist c (hash k c) pos ≤ dist c (hash k c) j
        → find_loop rounds c t k pos ≡ some j
    unfolding find_loop
    find_loop_complete zero pos pc e l = absurd (omega (arith, reach))
    find_loop_complete (suc rounds) pos pc e l = elim (passes pos pc l) [
      | inl here ↦ ground (arith, held.present, held.key)
      | inr (closer, there, other) ↦
          let far = dist-lt c (hash k c) (hash-lt k c cap) j held.below in
          let further = dist-next_pos c (hash k c) (hash-lt k c cap) pos pc (omega arith) in
          rw (there, other)
            (find_loop_complete rounds (next_pos c pos)
              (next_pos-lt c (hash k c) (hash-lt k c cap) pos pc) (omega arith) (omega arith))
    ]

    -- Under the invariant `find` reaches the slot of every key that is stored.
    pub find_complete : find c t k ≡ some j
    unfolding find
    find_complete =
        let start = dist_self c (hash k c) (hash-lt k c cap) in
        find_loop_complete (max_hash_neighbors c) (hash k c) (hash-lt k c cap) (omega arith)
          (omega arith)

-- No slot is occupied by the key `k`.
abbrev pub Absent {ℓ} : {P : Type ℓ} (c : ℕ) (t : Table P) (k : ℕ) → Type 0
Absent c t k = (j : ℕ) → ¬ HasKey c t j k

module _ {ℓ} {P : Type ℓ} (c : ℕ) (cap : IsCapacity c) (t : Table P) (inv : IsProbed c t) where
  pub get-HasKey : (j k : ℕ) → HasKey c t j k → get c t k ≡ some (t j).payload
  unfolding get payload_at
  get-HasKey j k h = rw (find_complete c cap t k inv j h)

  pub get-Absent : (k : ℕ) → Absent c t k → get c t k ≡ none
  unfolding get payload_at
  get-Absent k a = elim (Option-cases (find c t k)) [
    | inl e ↦ rw e
    | inr (j, e) ↦ absurd (a j (find_sound c cap t k j e))
  ]

  -- The search decides whether a key is stored.
  pub stored_cases : (k : ℕ) → Absent c t k ⊎ ((j : ℕ) × HasKey c t j k)
  stored_cases k = elim (Option-cases (find c t k)) [
    | inl e ↦ inl (λ j h. cc (e, find_complete c cap t k inv j h))
    | inr (j, e) ↦ inr (j, find_sound c cap t k j e)
  ]

module _ {ℓ} {P : Type ℓ} (c : ℕ) (cap : IsCapacity c) where
  -- Two tables read alike at a key if its entry is in both, wherever it stands.
  pub get_moved :
      (t u : Table P)
      → IsProbed c t
      → IsProbed c u
      → (k : ℕ)
      → ((j : ℕ) → HasKey c t j k → (i : ℕ) × HasKey c u i k × ((u i).payload ≡ (t j).payload))
      → ((i : ℕ) → HasKey c u i k → (j : ℕ) × HasKey c t j k)
      → get c u k ≡ get c t k
  get_moved t u inv inv' k there back = elim (stored_cases c cap t inv k) [
    | inl a ↦
        let a' : Absent c u k = λ i h. a (back i h).0 (back i h).1 in
        get-Absent c cap u inv' k a' ∙ sym (get-Absent c cap t inv k a)
    | inr (j, h) ↦
        let (i, h', e) = there j h in
        get-HasKey c cap u inv' i k h' ∙ ap some e ∙ sym (get-HasKey c cap t inv j k h)
  ]

  pub create-IsProbed : (init : P) → IsProbed c (create init)
  unfolding create
  create-IsProbed init = record {
    near = λ j jc p. cc;
    chain = λ j q jc qc p l. cc;
    once = λ i j ic jc p q e. cc;
  }

  -- Under the invariant of a table of legal capacity, `find` returns a slot exactly when the slot
  -- is occupied by the key.
  pub find_iff : (t : Table P) (k j : ℕ) → IsProbed c t → (find c t k ≡ some j) ↔ HasKey c t j k
  find_iff t k j inv = (find_sound c cap t k j, find_complete c cap t k inv j)

  -- A new table holds no key.
  pub get-create : (init : P) (k : ℕ) → get c (create init) k ≡ none
  unfolding create
  get-create init k =
      get-Absent c cap (create init) (create-IsProbed init) k (λ j h. let p = h.present in cc p)
