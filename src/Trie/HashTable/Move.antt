-- ===== src/Trie/HashTable/Move.antt =====
-- One move of `restore_on_erase`: an entry goes to the gap and leaves a gap behind.
use native.Mathlib.Decide.{ℕ_discrete}
use op_magic_trie.Prelude.{
  ℕ, ◌+◌, ◌≤◌, ◌<◌, ◌≡◌, ◌≢◌, sym, ◌∙◌, ◌⊎◌, inl, inr, false, arith, Bool-cases, ◌==◌, ==_iff,
  ==_refl,
}
use op_magic_trie.Trie.HashTable.{Table, write, max_hash_neighbors}
use op_magic_trie.Trie.HashTable.Ring.{IsCapacity, dist, dist_before}
use op_magic_trie.Trie.HashTable.Probe.{home, Present, HasKey}
use op_magic_trie.Trie.HashTable.Gap.{IsGapped, home-lt, ne_gap}

module _ {ℓ} {P : Type ℓ} (c : ℕ) (cap : IsCapacity c) (t : Table P) (p : ℕ) (g : IsGapped c t p)
    (i : ℕ) (ic : i < c) (away : 0 < dist c p i) where
  abbrev pub moved : Table P
  moved = write t p (t i)

  -- An entry whose hash is at the gap or before it moves there and leaves a gap behind.
  module _ (here : Present c t i) (needs : dist c p i ≤ dist c (home c t i) i) where
    pub moved_dist : dist c p i + dist c (home c t i) p ≡ dist c (home c t i) i
    moved_dist = dist_before c (home c t i) p i (home-lt c cap t i) g.below ic needs

    -- An entry of the new table stands where it stood, or came from `i` to the old gap.
    came : (j : ℕ) → j ≢ i → ((j ≡ p) × (moved j ≡ t i)) ⊎ ((j ≢ p) × (moved j ≡ t j))
    came j ne = elim (Bool-cases (j == p)) [
      | inl e ↦ inl ((==_iff j p).0 e, rw e)
      | inr e ↦ inr (ground arith, rw e)
    ]

    moved_near :
        (j : ℕ)
        → j < c
        → j ≢ i
        → Present c moved j
        → dist c (home c moved j) j < max_hash_neighbors c
    moved_near j jc ne h = elim (came j ne) [
      | inl (jp, e) ↦
          rw (e, jp) (omega (arith, moved_dist, g.near i ic (ne_gap c cap t p g i ic away) here))
      | inr (np, e) ↦ rw e (g.near j jc np (rw e at h))
    ]

    moved_chain :
        (j q : ℕ)
        → j < c
        → q < c
        → j ≢ i
        → q ≢ i
        → Present c moved j
        → dist c (home c moved j) q < dist c (home c moved j) j
        → Present c moved q
    moved_chain j q jc qc ne qi h l = elim (came q qi) [
      | inl (qp, e) ↦ rw e here
      | inr (nq, e) ↦ rw e (elim (came j ne) [
        | inl (jp, d) ↦
            let l' : dist c (home c t i) q < dist c (home c t i) p = rw (d, jp) at l in
            g.chain i q ic qc (ne_gap c cap t p g i ic away) nq here (omega (arith, moved_dist))
        | inr (np, d) ↦ g.chain j q jc qc np nq (rw d at h) (rw d at l)
      ])
    ]

    moved_once :
        (j k : ℕ)
        → j < c
        → k < c
        → j ≢ i
        → k ≢ i
        → Present c moved j
        → Present c moved k
        → (moved j).key ≡ (moved k).key
        → j ≡ k
    moved_once j k jc kc ne nk h m same = elim (came j ne) [
      | inl (jp, d) ↦ elim (came k nk) [
        | inl (kp, e) ↦ jp ∙ sym kp
        | inr (np, e) ↦ absurd (
            nk (
              sym (
                g.once i k ic kc (ne_gap c cap t p g i ic away) np here (rw e at m)
                  (rw (d, e) at same))))
      ]
      | inr (np, d) ↦ elim (came k nk) [
        | inl (kp, e) ↦ absurd (
            ne (
              g.once j i jc ic np (ne_gap c cap t p g i ic away) (rw d at h) here
                (rw (d, e) at same)))
        | inr (nkp, e) ↦ g.once j k jc kc np nkp (rw d at h) (rw e at m) (rw (d, e) at same)
      ]
    ]

    pub moved-IsGapped : IsGapped c moved i
    moved-IsGapped = record {
      below = ic;
      near = moved_near;
      chain = moved_chain;
      once = moved_once;
    }

module _ {ℓ} {P : Type ℓ} (c : ℕ) where
  -- The entries of `t` outside the gap `p` are those of `u` outside the gap `i`, with their payloads.
  pub record Keeps (t : Table P) (p : ℕ) (u : Table P) (i : ℕ) : Type ℓ where
    pub forward :
        (k j : ℕ)
        → j ≢ p
        → HasKey c t j k
        → (m : ℕ) × (m ≢ i) × HasKey c u m k × ((u m).payload ≡ (t j).payload)
    pub back : (k m : ℕ) → m ≢ i → HasKey c u m k → (j : ℕ) × (j ≢ p) × HasKey c t j k

  pub Keeps-trans : (t u v : Table P) (p i j : ℕ) → Keeps t p u i → Keeps u i v j → Keeps t p v j
  Keeps-trans t u v p i j a b = record {
    forward = λ k x n h.
        let (y, ny, hy, e) = a.forward k x n h in
        let (z, nz, hz, d) = b.forward k y ny hy in (z, nz, hz, d ∙ e);
    back = λ k z n h. let (y, ny, hy) = b.back k z n h in a.back k y ny hy;
  }

  pub moved-Keeps :
      (t : Table P) (p i : ℕ)
      → p < c
      → i < c
      → i ≢ p
      → Present c t i
      → Keeps t p (write t p (t i)) i
  moved-Keeps t p i pc ic ne here = record {
    forward = λ k j n h. elim (ℕ_discrete j i) [
      | yes e ↦ (
        p,
        (λ q. ne (sym q)),
        record { below = pc; present = rw (==_refl p) here; key = rw (==_refl p, ← e) h.key },
        rw (==_refl p, e),
      )
      | no e ↦
          let off : (j == p) ≡ false = ground arith in
          (j, e, record { below = h.below; present = rw off h.present; key = rw off h.key }, rw off)
    ];
    back = λ k m n h. elim (Bool-cases (m == p)) [
      | inl e ↦ (i, ne, record { below = ic; present = here; key = rw e at h.key })
      | inr e ↦ (
        m,
        (λ q. absurd (ground (arith, q))),
        record { below = h.below; present = rw e at h.present; key = rw e at h.key },
      )
    ];
  }
