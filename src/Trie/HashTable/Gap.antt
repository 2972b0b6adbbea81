-- ===== src/Trie/HashTable/Gap.antt =====
-- The table inside `restore_on_erase`: one slot is the gap, whose content no longer counts, and
-- the entries behind it are being moved up.
use mathlib.Core.Bool.{true≢false}
use native.Mathlib.Decide.{ℕ_discrete, dec_lt}
use op_magic_trie.Prelude.{ℕ, suc, ◌≤◌, ◌<◌, ◌≡◌, ◌≢◌, sym, ap, ◌∙◌, false, arith, ◌==◌}
use op_magic_trie.Trie.HashTable.{Table, write, max_hash_neighbors}
use op_magic_trie.Trie.HashTable.Ring.{
  IsCapacity, hash-lt, dist, dist-lt, dist_self, dist-injective, dist_between, dist_sum,
}
use op_magic_trie.Trie.HashTable.Probe.{home, Present, IsProbed}

module _ {ℓ} {P : Type ℓ} (c : ℕ) (t : Table P) where
  -- The invariant of the table but for the gap `p`.
  pub record IsGapped (p : ℕ) : Type 0 where
    pub below : p < c
    pub near :
        (j : ℕ) → j < c → j ≢ p → Present c t j → dist c (home c t j) j < max_hash_neighbors c
    pub chain :
        (j q : ℕ)
        → j < c
        → q < c
        → j ≢ p
        → q ≢ p
        → Present c t j
        → dist c (home c t j) q < dist c (home c t j) j
        → Present c t q
    pub once :
        (i j : ℕ)
        → i < c
        → j < c
        → i ≢ p
        → j ≢ p
        → Present c t i
        → Present c t j
        → (t i).key ≡ (t j).key
        → i ≡ j

  -- No entry less than `s` slots behind the gap has its hash at the gap or before it.
  abbrev pub Scanned : ℕ → ℕ → Type 0
  Scanned p s =
      (j : ℕ)
      → j < c
      → j ≢ p
      → Present c t j
      → dist c p j < s
      → dist c (home c t j) j ≤ dist c (home c t j) p

  pub IsProbed-IsGapped : IsProbed c t → (p : ℕ) → p < c → IsGapped p
  IsProbed-IsGapped inv p pc = record {
    below = pc;
    near = λ j jc _ h. inv.near j jc h;
    chain = λ j q jc qc _ _ h l. inv.chain j q jc qc h l;
    once = λ i j ic jc _ _ h g e. inv.once i j ic jc h g e;
  }

  -- `hash_data[p].presence = false`
  abbrev pub closed : ℕ → Table P
  closed p =
      let v = t p in write t p (record { key = v.key; presence = false; payload = v.payload })

pub home-lt {ℓ} : {P : Type ℓ} (c : ℕ) (cap : IsCapacity c) (t : Table P) (j : ℕ) → home c t j < c
home-lt c cap t j = let v = t j in hash-lt v.key c cap

module _ {ℓ} {P : Type ℓ} (c : ℕ) (cap : IsCapacity c) (t : Table P) (p : ℕ)
    (g : IsGapped c t p) where
  closed-Present : (j : ℕ) → Present c (closed c t p) j → (j ≢ p) × ((j == p) ≡ false)
  closed-Present j h = ground arith

  -- Once no entry has its hash at the gap or before it, the gap may be emptied.
  pub closed-IsProbed : Scanned c t p c → IsProbed c (closed c t p)
  closed-IsProbed all = record {
    near = λ j jc h. let (ne, e) = closed-Present j h in rw e (g.near j jc ne (rw e at h));
    chain = λ j q jc qc h l.
        let (ne, e) = closed-Present j h in
        let h' : Present c t j = rw e at h in
        let l' : dist c (home c t j) q < dist c (home c t j) j = rw e at l in
        elim (ℕ_discrete q p) [
          | yes qp ↦
              let l'' : dist c (home c t j) p < dist c (home c t j) j = rw qp at l' in
              absurd (omega (arith, all j jc ne h' (dist-lt c p g.below j jc), l''))
          | no qp ↦ let there = g.chain j q jc qc ne qp h' l' in ground (arith, there)
        ];
    once = λ i j ic jc h h' e.
        let (ne, e₁) = closed-Present i h in
        let (ne', e₂) = closed-Present j h' in
        g.once i j ic jc ne ne' (rw e₁ at h) (rw e₂ at h') (rw (e₁, e₂) at e);
  }

  -- The scan may stop after as many slots as an entry can be away from its hash.
  pub Scanned-by_limit : (s : ℕ) → Scanned c t p s → max_hash_neighbors c ≤ s → Scanned c t p c
  Scanned-by_limit s before n j jc ne h _ = elim (dec_lt (dist c p j) s) [
    | yes l ↦ before j jc ne h l
    | no l ↦ elim (dec_lt (dist c (home c t j) p) (dist c (home c t j) j)) [
      | no m ↦ omega arith
      | yes m ↦ absurd (
          omega (
            arith,
            g.near j jc ne h,
            dist_between c (home c t j) p j (home-lt c cap t j) g.below jc,
          ))
    ]
  ]

  pub ne_gap : (i : ℕ) → i < c → 0 < dist c p i → i ≢ p
  ne_gap i ic away e = absurd (omega (arith, dist_self c p g.below, ap (dist c p) e))

  module _ (i : ℕ) (ic : i < c) (away : 0 < dist c p i) (before : Scanned c t p (dist c p i)) where
    -- It may stop at an empty slot, which ends the chain of every entry before it.
    pub Scanned-by_end : (t i).presence ≡ false → Scanned c t p c
    Scanned-by_end empty j jc ne h _ = elim (dec_lt (dist c p j) (dist c p i)) [
      | yes l ↦ before j jc ne h l
      | no l ↦ elim (dec_lt (dist c (home c t j) p) (dist c (home c t j) j)) [
        | no m ↦ omega arith
        | yes m ↦
            let hc = home-lt c cap t j in
            let total = dist_between c (home c t j) p j hc g.below jc (omega arith) in
            let jl = dist-lt c (home c t j) hc j jc in
            let part = dist_sum c (home c t j) p i hc g.below ic (omega arith) in
            let apart : dist c (home c t j) i ≢ dist c (home c t j) j = λ d. true≢false (
              sym h
              ∙ ap (λ x. (t x).presence) (sym (dist-injective c (home c t j) hc i j ic jc d))
              ∙ empty) in
            let there = g.chain j i jc ic ne (ne_gap i ic away) h (omega arith) in
            absurd (true≢false (sym there ∙ empty))
      ]
    ]

    -- It goes on behind an entry whose hash is behind the gap.
    pub Scanned-by_skip : dist c (home c t i) i < dist c p i → Scanned c t p (suc (dist c p i))
    Scanned-by_skip near j jc ne h l = elim (dec_lt (dist c p j) (dist c p i)) [
      | yes m ↦ before j jc ne h m
      | no m ↦
          let same = dist-injective c p g.below j i jc ic (omega arith) in
          rw same (elim (dec_lt (dist c (home c t i) p) (dist c (home c t i) i)) [
            | no m ↦ omega arith
            | yes m ↦
                absurd
                  (omega (arith, dist_between c (home c t i) p i (home-lt c cap t i) g.below ic))
          ])
    ]
