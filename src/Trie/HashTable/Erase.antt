-- ===== src/Trie/HashTable/Erase.antt =====
-- `restore_on_erase` and `erase`: they end, keep the invariant, and remove the one entry.
use op_magic_trie.Prelude.{
  ℕ, zero, suc, ◌+◌, ◌-◌, ◌*◌, ◌≤◌, ◌<◌, ◌≡◌, ◌≢◌, refl, sym, ◌∙◌, ◌⊎◌, inl, inr, true, false,
  Option, none, some, arith, Bool-cases, ◌==◌, ==_iff, if◌then◌else◌,
}
use op_magic_trie.Trie.HashTable.{
  Table, write, max_hash_neighbors, hash, next_pos, less_pos, restore_loop, restore_on_erase,
  erase_loop, erase, find_loop, find,
}
use op_magic_trie.Trie.HashTable.Ring.{
  IsCapacity, neighbors_pos, neighbors-le, neighbors-le_four, dist, dist_self, dist-next_pos,
  next_pos-lt, less_pos-dist, dist-eq-zero,
}
use op_magic_trie.Trie.HashTable.Probe.{home, Present, HasKey, IsProbed}
use op_magic_trie.Trie.HashTable.Gap.{
  IsGapped, Scanned, closed, IsProbed-IsGapped, closed-IsProbed, home-lt, ne_gap, Scanned-by_limit,
  Scanned-by_end, Scanned-by_skip,
}
use op_magic_trie.Trie.HashTable.Move.{moved-IsGapped, moved-Keeps}
use op_magic_trie.Trie.HashTable.Weight.{weight, weight-le, weight-moved}

-- The position that the code compares with is the gap.
compared-gap :
    (c eh p : ℕ)
    → IsCapacity c
    → eh < c
    → p < c
    → dist c eh p < max_hash_neighbors c
    → (if less_pos eh p c then p else eh) ≡ p
compared-gap c eh p cap hc pc near =
    elim (less_pos-dist c (max_hash_neighbors c) p eh p (neighbors-le c cap) (neighbors_pos c) pc hc
      pc (omega (arith, dist_self c p pc, neighbors_pos c)) (omega arith)) [
        | inl (less, _) ↦ rw less
        | inr (same, l) ↦
            rw same (sym (dist-eq-zero c eh p hc pc (omega (arith, dist_self c p pc))))
      ]

module _ {ℓ} {P : Type ℓ} (c : ℕ) (cap : IsCapacity c) where
  -- The loop has scanned the slots between the gap `p` and `i`.
  record Loops (t : Table P) (p eh i limit : ℕ) : Type 0 where
    gapped : IsGapped c t p
    hash_below : eh < c
    hash_near : dist c eh p < max_hash_neighbors c
    below : i < c
    away : 0 < dist c p i
    scanned : Scanned c t p (dist c p i)
    enough : max_hash_neighbors c ≤ dist c p i + limit
    within : dist c p i + limit ≤ suc (max_hash_neighbors c)

  -- What it returns: a table under the invariant, with the entries outside the gap.
  unfoldable pub Restored : Table P → ℕ → Option (Table P) → Type ℓ
  Restored t p r =
      (u : Table P) × (r ≡ some u)
      × IsProbed c u
      × ((k j : ℕ)
          → j ≢ p
          → HasKey c t j k
          → (m : ℕ) × HasKey c u m k × ((u m).payload ≡ (t j).payload))
      × ((k m : ℕ) → HasKey c u m k → (j : ℕ) × (j ≢ p) × HasKey c t j k)

  module _ (t : Table P) (p : ℕ) (g : IsGapped c t p) where
    closed-Restored : Scanned c t p c → Restored t p (some (closed c t p))
    unfolding Restored
    closed-Restored all = (
      closed c t p,
      refl,
      closed-IsProbed c cap t p g all,
      (λ k j n h.
          let off : (j == p) ≡ false = ground arith in
          (j, record { below = h.below; present = rw off h.present; key = rw off h.key }, rw off)),
      (λ k m h. elim (Bool-cases (m == p)) [
        | inl e ↦ absurd (ground (arith, h.present))
        | inr e ↦ (
          m,
          ground arith,
          record { below = h.below; present = rw e at h.present; key = rw e at h.key },
        )
      ]),
    )

  module _ (t : Table P) (p eh i limit : ℕ) (s : Loops t p eh i limit) where
    far : suc (dist c p i) < c
    far = omega (arith, s.within, neighbors-le c cap, neighbors_pos c)

    skips :
        dist c (home c t i) i < dist c p i
        → (limit == 0) ≡ false
        → Loops t p eh (next_pos c i) (limit - 1)
    skips near nz =
        let further = dist-next_pos c p s.gapped.below i s.below far in
        record {
          gapped = s.gapped;
          hash_below = s.hash_below;
          hash_near = s.hash_near;
          below = next_pos-lt c p s.gapped.below i s.below;
          away = omega arith;
          scanned = rw further (Scanned-by_skip c cap t p s.gapped i s.below s.away s.scanned near);
          enough = ground arith;
          within = ground arith;
        }

    moves :
        Present c t i
        → dist c p i ≤ dist c (home c t i) i
        → Loops (write t p (t i)) i (home c t i) (next_pos c i) (max_hash_neighbors c - 1)
    moves here needs =
        let first =
          dist-next_pos c i s.below i s.below (omega (arith, dist_self c i s.below, far)) in
        let start = dist_self c i s.below in
        record {
          gapped = moved-IsGapped c cap t p s.gapped i s.below s.away here needs;
          hash_below = home-lt c cap t i;
          hash_near = s.gapped.near i s.below (ne_gap c cap t p s.gapped i s.below s.away) here;
          below = next_pos-lt c i s.below i s.below;
          away = omega arith;
          scanned = λ j jc ne h l. absurd (ne (dist-eq-zero c i j s.below jc (omega arith)));
          enough = omega (arith, neighbors_pos c);
          within = omega (arith, neighbors_pos c);
        }

    moves-weight :
        (fuel : ℕ)
        → Present c t i
        → dist c p i ≤ dist c (home c t i) i
        → weight c t p * 4 + limit < suc fuel
        → weight c (write t p (t i)) i * 4 + (max_hash_neighbors c - 1) < fuel
    moves-weight fuel here needs l = omega (
      arith,
      weight-moved c cap t p s.gapped i s.below s.away here needs
          (ne_gap c cap t p s.gapped i s.below s.away),
      neighbors-le_four c,
      neighbors_pos c,
      s.away,
    )

    moved-Restored :
        (r : Option (Table P)) → Present c t i → Restored (write t p (t i)) i r → Restored t p r
    unfolding Restored
    moved-Restored r here (u, e, inv, forward, back) =
        let step =
          moved-Keeps c t p i s.gapped.below s.below (ne_gap c cap t p s.gapped i s.below s.away)
            here in
        (
          u,
          e,
          inv,
          (λ k j n h.
              let (m, nm, hm, d) = step.forward k j n h in
              let (x, hx, d') = forward k m nm hm in (x, hx, d' ∙ d)),
          (λ k x h. let (m, nm, hm) = back k x h in step.back k m nm hm),
        )

    -- What the code's comparison says of the entry at `i`.
    judged :
        Present c t i
        → (limit == 0) ≡ false
        → ((less_pos p (home c t i) c ≡ true) × (dist c (home c t i) i < dist c p i))
          ⊎ ((less_pos p (home c t i) c ≡ false) × (dist c p i ≤ dist c (home c t i) i))
    judged here nz =
        less_pos-dist c (max_hash_neighbors c) (home c t i) p i (neighbors-le c cap)
          (neighbors_pos c) (home-lt c cap t i) s.gapped.below s.below
          (s.gapped.near i s.below (ne_gap c cap t p s.gapped i s.below s.away) here) (ground arith)

  -- With fuel for the weight and the limit the loop returns, and what it returns is restored.
  restore_loop-Restored :
      (fuel : ℕ) (t : Table P) (p eh i limit : ℕ)
      → Loops t p eh i limit
      → weight c t p * 4 + limit < fuel
      → Restored t p (restore_loop fuel c t p eh i limit)
  unfolding restore_loop
  restore_loop-Restored zero t p eh i limit s l = absurd (omega arith)
  restore_loop-Restored (suc fuel) t p eh i limit s l =
      let pc = s.gapped.below in
      let step_over = restore_loop-Restored fuel t p eh (next_pos c i) (limit - 1) in
      let move_up =
        restore_loop-Restored fuel (write t p (t i)) i (home c t i) (next_pos c i)
          (max_hash_neighbors c - 1) in
      elim (Bool-cases (limit == 0)) [
        | inl z ↦ rw z (
            closed-Restored t p s.gapped (
              Scanned-by_limit c cap t p s.gapped (dist c p i) s.scanned
                (omega (arith, (==_iff limit 0).0 z))))
        | inr nz ↦ elim (Bool-cases (t i).presence) [
          | inr empty ↦
              rw (nz, empty)
                (closed-Restored t p s.gapped
                  (Scanned-by_end c cap t p s.gapped i s.below s.away s.scanned empty))
          | inl here ↦
              let lighter : weight c t p * 4 + (limit - 1) < fuel = ground arith in
              let over : dist c (home c t i) i < dist c p i → Restored t p _ =
                λ near. step_over (skips t p eh i limit s near nz) lighter in
              elim (Bool-cases (i == home c t i)) [
                | inl same ↦
                    rw (nz, here, same)
                      (over (
                        rw (← (==_iff i (home c t i)).0 same)
                          (omega (arith, dist_self c i s.below))))
                | inr other ↦ elim (judged t p eh i limit s here nz) [
                  | inl (less, near) ↦
                      rw
                        (nz, here, other, compared-gap c eh p cap s.hash_below pc s.hash_near, less)
                        (over near)
                  | inr (more, needs) ↦
                      simp
                        (nz, here, other, compared-gap c eh p cap s.hash_below pc s.hash_near, more)
                        (moved-Restored t p eh i limit s _ here (
                          move_up (moves t p eh i limit s here needs)
                            (moves-weight t p eh i limit s fuel here needs l)))
                ]
              ]
        ]
      ]

  -- The body of `erase` at an occupied slot.
  pub restore_on_erase-Restored :
      (t : Table P) (p : ℕ)
      → IsProbed c t
      → p < c
      → Present c t p
      → Restored t p (restore_on_erase c t p)
  unfolding restore_on_erase
  restore_on_erase-Restored t p inv pc here =
      let g = IsProbed-IsGapped c t inv p pc in
      let start = dist_self c p pc in
      let first =
        dist-next_pos c p pc p pc (omega (arith, start, neighbors-le c cap, neighbors_pos c)) in
      restore_loop-Restored (16 * c) t p (home c t p) (next_pos c p) (max_hash_neighbors c)
        (record {
          gapped = g;
          hash_below = home-lt c cap t p;
          hash_near = inv.near p pc here;
          below = next_pos-lt c p pc p pc;
          away = omega arith;
          scanned = λ j jc ne h l. absurd (ne (dist-eq-zero c p j pc jc (omega arith)));
          enough = omega arith;
          within = omega arith;
        })
        (omega (arith, weight-le c t p g, neighbors-le_four c, neighbors-le c cap, neighbors_pos c))

  -- `erase` looks for the key as `find` does.
  erase_loop-find_loop :
      (rounds : ℕ) (t : Table P) (k pos : ℕ)
      → ((find_loop rounds c t k pos ≡ none) × (erase_loop rounds c t k pos ≡ some (t, false)))
        ⊎ ((j : ℕ) × (find_loop rounds c t k pos ≡ some j)
            × (erase_loop rounds c t k pos
                ≡ elim (restore_on_erase c t j) [ none ↦ none | some u ↦ some (u, true) ]))
  unfolding erase_loop find_loop
  erase_loop-find_loop zero t k pos = inl (refl, refl)
  erase_loop-find_loop (suc rounds) t k pos =
      ground (arith, erase_loop-find_loop rounds t k (next_pos c pos))

  pub erase-find :
      (t : Table P) (k : ℕ)
      → ((find c t k ≡ none) × (erase c t k ≡ some (t, false)))
        ⊎ ((j : ℕ) × (find c t k ≡ some j)
            × (erase c t k
                ≡ elim (restore_on_erase c t j) [ none ↦ none | some u ↦ some (u, true) ]))
  unfolding find erase
  erase-find t k = erase_loop-find_loop (max_hash_neighbors c) t k (hash k c)
