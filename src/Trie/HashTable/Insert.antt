-- ===== src/Trie/HashTable/Insert.antt =====
-- `insert_impl` on every branch, the invariant and the payloads after it.
use native.Mathlib.Decide.{ℕ_discrete}
use op_magic_trie.Prelude.{
  ℕ, zero, suc, ◌+◌, ◌<◌, ◌≡◌, refl, inl, inr, true, false, none, some, arith, Bool-cases, ◌==◌,
}
use op_magic_trie.Trie.HashTable.{
  Table, Inserted, write, max_hash_neighbors, hash, next_pos, insert_loop, insert_impl,
}
use op_magic_trie.Trie.HashTable.Ring.{
  IsCapacity, hash-lt, neighbors-le, dist, dist_self, dist-injective, dist-next_pos, next_pos-lt,
  next_atom_pos-next_pos,
}
use op_magic_trie.Trie.HashTable.Probe.{Present, HasKey}

module _ {ℓ} {P : Type ℓ} (c : ℕ) (t : Table P) (k : ℕ) where
  -- The slots from the hash of `k` up to `pos` are occupied by other keys.
  abbrev pub Passed : ℕ → Type 0
  Passed d = (q : ℕ) → q < c → dist c (hash k c) q < d → Present c t q × (((t q).key == k) ≡ false)

  -- `k` went to the empty slot `p`.
  pub record Adds (f : P → P) (p : ℕ) (r : Inserted P) : Type ℓ where
    pub below : p < c
    pub free : (t p).presence ≡ false
    pub passed : Passed (dist c (hash k c) p)
    pub near : dist c (hash k c) p < max_hash_neighbors c
    pub result : r ≡ record {
      table = write t p (record { key = k; presence = true; payload = f (t p).payload });
      pos = some p;
      success = true;
    }

  -- The three ends of `insert_impl`: a new entry, an entry that was there, no room.
  pub data Outcome (f : P → P) (r : Inserted P) : Type ℓ where
    added : (p : ℕ) → Adds f p r → Outcome f r
    found :
        (p : ℕ)
        → HasKey c t p k
        → r ≡ record { table = t; pos = some p; success = false }
        → Outcome f r
    refused :
        Passed (max_hash_neighbors c)
        → r ≡ record { table = t; pos = none; success = false }
        → Outcome f r

module _ {ℓ} {P : Type ℓ} (c : ℕ) (cap : IsCapacity c) (t : Table P) (k : ℕ) (f : P → P) where
  extend :
      (pos : ℕ)
      → pos < c
      → Passed c t k (dist c (hash k c) pos)
      → Present c t pos
      → ((t pos).key == k) ≡ false
      → Passed c t k (suc (dist c (hash k c) pos))
  extend pos pc before here other q qc l =
      elim (ℕ_discrete (dist c (hash k c) q) (dist c (hash k c) pos)) [
        | yes e ↦
            let same = dist-injective c (hash k c) (hash-lt k c cap) q pos qc pc e in
            rw same (here, other)
        | no e ↦ before q qc (omega arith)
      ]

  insert_loop-Outcome :
      (rounds pos : ℕ)
      → pos < c
      → dist c (hash k c) pos + rounds ≡ max_hash_neighbors c
      → Passed c t k (dist c (hash k c) pos)
      → Outcome c t k f (insert_loop rounds c t k f pos)
  unfolding insert_loop
  insert_loop-Outcome zero pos pc e before = refused (λ q qc l. before q qc (omega arith)) refl
  insert_loop-Outcome (suc rounds) pos pc e before = elim (Bool-cases (t pos).presence) [
    | inl here ↦ elim (Bool-cases ((t pos).key == k)) [
      | inl same ↦
          found pos (record { below = pc; present = here; key = ground arith }) (rw (here, same))
      | inr other ↦
          let further =
            dist-next_pos c (hash k c) (hash-lt k c cap) pos pc
              (omega (arith, neighbors-le c cap)) in
          rw (here, other, next_atom_pos-next_pos c pos pc (omega arith))
            (insert_loop-Outcome rounds (next_pos c pos)
              (next_pos-lt c (hash k c) (hash-lt k c cap) pos pc) (omega arith)
              (rw further (extend pos pc before here other)))
    ]
    | inr free ↦
        added pos (record {
          below = pc;
          free = free;
          passed = before;
          near = omega arith;
          result = rw free;
        })
  ]

  -- `insert_impl` ends in one of the three ways.
  pub insert-Outcome : Outcome c t k f (insert_impl c t k f)
  unfolding insert_impl
  insert-Outcome =
      let start = dist_self c (hash k c) (hash-lt k c cap) in
      insert_loop-Outcome (max_hash_neighbors c) (hash k c) (hash-lt k c cap) (omega arith)
        (λ q qc l. absurd (omega arith))
