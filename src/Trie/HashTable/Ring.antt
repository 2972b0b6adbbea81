-- ===== src/Trie/HashTable/Ring.antt =====
-- Arithmetic on the positions of the table, which lie on a ring of `capacity` slots.
use op_magic_trie.Prelude.{
  ℕ, suc, ◌+◌, ◌-◌, ◌*◌, ◌≤◌, ◌<◌, ◌≡◌, ◌⊎◌, true, false, arith, leb, if◌then◌else◌,
}
use op_magic_trie.Common.Bits.{and-le}
use op_magic_trie.Trie.HashTable.{max_hash_neighbors, hash, next_pos, next_atom_pos, less_pos}

-- The capacities of `PersistedHashTable`: powers of two from 8 to 128.
abbrev pub IsCapacity : ℕ → Type 0
IsCapacity c = (c ≡ 8) ⊎ ((c ≡ 16) ⊎ ((c ≡ 32) ⊎ ((c ≡ 64) ⊎ (c ≡ 128))))

-- A hash is a position of the table.
pub hash-lt : (k c : ℕ) → IsCapacity c → hash k c < c
unfolding hash
hash-lt k c h = omega (arith, and-le (101 * k) (c - 1))

pub neighbors_pos : (c : ℕ) → 0 < max_hash_neighbors c
unfolding max_hash_neighbors
neighbors_pos c = ground arith

pub neighbors-le : (c : ℕ) → IsCapacity c → max_hash_neighbors c * 4 ≤ c
unfolding max_hash_neighbors
neighbors-le c h = ground arith

pub neighbors-le_four : (c : ℕ) → max_hash_neighbors c ≤ 4
unfolding max_hash_neighbors
neighbors-le_four c = ground arith

-- How far `j` stands behind `h` on the ring.
pub dist : ℕ → ℕ → ℕ → ℕ
dist c h j = if leb h j then j - h else j + c - h

-- The equations of `dist`, which arithmetic reads.
pub dist_cases :
    (c h j : ℕ)
    → h < c
    → j < c
    → ((h ≤ j) × (dist c h j + h ≡ j)) ⊎ ((j < h) × (dist c h j + h ≡ j + c))
unfolding dist
dist_cases c h j p q = ground arith

abbrev IsNext : ℕ → ℕ → ℕ → Type 0
IsNext c i j = ((suc i ≡ c) × (j ≡ 0)) ⊎ ((suc i < c) × (j ≡ suc i))

pub next_pos_cases : (c i : ℕ) → i < c → IsNext c i (next_pos c i)
unfolding next_pos
next_pos_cases c i h = grind arith

pub next_atom_pos_cases : (c i : ℕ) → i < c → c < 256 → IsNext c i (next_atom_pos c i)
unfolding next_atom_pos
next_atom_pos_cases c i h k = grind arith

-- The `atom_t` that counts a position up does not wrap below capacity 256.
pub next_atom_pos-next_pos : (c i : ℕ) → i < c → c < 256 → next_atom_pos c i ≡ next_pos c i
next_atom_pos-next_pos c i h k = omega (arith, next_pos_cases c i h, next_atom_pos_cases c i h k)

-- `less_pos` compares two positions that are both near behind `i`.
pub less_pos-dist :
    (c n h p i : ℕ)
    → n * 4 ≤ c
    → 0 < n
    → h < c
    → p < c
    → i < c
    → dist c h i < n
    → dist c p i ≤ n
    → ((less_pos p h c ≡ true) × (dist c h i < dist c p i))
      ⊎ ((less_pos p h c ≡ false) × (dist c p i ≤ dist c h i))
unfolding less_pos
less_pos-dist c n h p i a b hc pc ic u v =
    ground (arith, dist_cases c h i hc ic, dist_cases c p i pc ic)

module _ (c h : ℕ) (hc : h < c) where
  pub dist-lt : (j : ℕ) → j < c → dist c h j < c
  dist-lt j jc = omega (arith, dist_cases c h j hc jc)

  pub dist_self : dist c h h ≡ 0
  dist_self = omega (arith, dist_cases c h h hc hc)

  pub dist-injective : (i j : ℕ) → i < c → j < c → dist c h i ≡ dist c h j → i ≡ j
  dist-injective i j ic jc e = omega (arith, dist_cases c h i hc ic, dist_cases c h j hc jc)

  pub next_pos-lt : (i : ℕ) → i < c → next_pos c i < c
  next_pos-lt i ic = omega (arith, next_pos_cases c i ic)

  -- One step on the ring is one step further from `h`, until the ring closes.
  pub dist-next_pos :
      (i : ℕ) → i < c → suc (dist c h i) < c → dist c h (next_pos c i) ≡ suc (dist c h i)
  dist-next_pos i ic s = omega (
    arith,
    next_pos_cases c i ic,
    next_pos-lt i ic,
    dist_cases c h i hc ic,
    dist_cases c h (next_pos c i) hc (next_pos-lt i ic),
  )

module _ (c h p j : ℕ) (hc : h < c) (pc : p < c) (jc : j < c) where
  -- Distances add up, whichever of the three is known to fit on the ring.
  pub dist_between : dist c h p ≤ dist c h j → dist c p j + dist c h p ≡ dist c h j
  dist_between l =
      omega (arith, dist_cases c h p hc pc, dist_cases c p j pc jc, dist_cases c h j hc jc)

  pub dist_sum : dist c h p + dist c p j < c → dist c p j + dist c h p ≡ dist c h j
  dist_sum l = omega (arith, dist_cases c h p hc pc, dist_cases c p j pc jc, dist_cases c h j hc jc)

  pub dist_before : dist c p j ≤ dist c h j → dist c p j + dist c h p ≡ dist c h j
  dist_before l =
      omega (arith, dist_cases c h p hc pc, dist_cases c p j pc jc, dist_cases c h j hc jc)

pub dist-eq-zero : (c p j : ℕ) → p < c → j < c → dist c p j < 1 → j ≡ p
dist-eq-zero c p j pc jc l = omega (arith, dist_cases c p j pc jc)
