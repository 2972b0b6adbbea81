-- ===== src/Trie/HashTable/Added.antt =====
-- The table after `insert_impl`: the invariant, and what `get` reads.
use native.Mathlib.Decide.{ℕ_discrete, dec_lt}
use mathlib.Core.Bool.{true≢false}
use op_magic_trie.Prelude.{
  ℕ, ◌<◌, ◌≡◌, ◌≢◌, refl, sym, ◌∙◌, ◌⊎◌, inl, inr, true, false, none, some, arith, Bool-cases, ◌==◌,
  ==_iff, ==_refl, if◌then◌else◌,
}
use op_magic_trie.Trie.HashTable.{
  Table, Inserted, write, max_hash_neighbors, hash, insert_impl, find, get,
}
use op_magic_trie.Trie.HashTable.Ring.{IsCapacity, hash-lt, dist, dist-injective}
use op_magic_trie.Trie.HashTable.Probe.{
  Present, HasKey, IsProbed, Absent, find_complete, get-HasKey, get-Absent, get_moved,
}
use op_magic_trie.Trie.HashTable.Insert.{Passed, Adds, added, found, refused, insert-Outcome}

module _ {ℓ} {P : Type ℓ} (c : ℕ) (cap : IsCapacity c) (t : Table P) (k : ℕ) (f : P → P) where
  module _ (inv : IsProbed c t) where
    -- A key that occupies a slot is met before the search ends.
    Passed-Absent :
        (d : ℕ)
        → Passed c t k d
        → ((j : ℕ) → HasKey c t j k → dist c (hash k c) j < d)
        → Absent c t k
    Passed-Absent d before near j h =
        let (_, other) = before j h.below (near j h) in ground (arith, other, h.key)

    near_hash : (j : ℕ) → HasKey c t j k → dist c (hash k c) j < max_hash_neighbors c
    near_hash j h = rw h.key at (inv.near j h.below h.present)

    pub Adds-Absent : (p : ℕ) (r : Inserted P) → Adds c t k f p r → Absent c t k
    Adds-Absent p r a = Passed-Absent (dist c (hash k c) p) a.passed λ j h.
        elim (dec_lt (dist c (hash k c) j) (dist c (hash k c) p)) [
          | yes l ↦ l
          | no l ↦ elim (ℕ_discrete j p) [
            | yes e ↦ absurd (true≢false (sym (rw e at h.present) ∙ a.free))
            | no e ↦
                let apart : dist c (hash k c) j ≢ dist c (hash k c) p =
                  λ d. e (dist-injective c (hash k c) (hash-lt k c cap) j p h.below a.below d) in
                let beyond : dist c (hash k c) p < dist c (hash k c) j = omega arith in
                absurd (
                  true≢false
                    (sym (inv.chain j p h.below a.below h.present (rw h.key beyond)) ∙ a.free))
          ]
        ]

    refused-Absent : Passed c t k (max_hash_neighbors c) → Absent c t k
    refused-Absent before = Passed-Absent (max_hash_neighbors c) before near_hash

    -- The key `k` in the free slot `p`, where its search ended.
    module _ (p : ℕ) (r : Inserted P) (a : Adds c t k f p r) where
      abbrev pub grown : Table P
      grown = write t p (record { key = k; presence = true; payload = f (t p).payload })

      grown-Present : (q : ℕ) → Present c t q → Present c grown q
      grown-Present q h = ground arith

      grown_has :
          (q : ℕ)
          → q < c
          → Present c grown q
          → ((q ≡ p) × ((grown q).key ≡ k)) ⊎ (HasKey c t q (grown q).key × (grown q ≡ t q))
      grown_has q qc h = elim (Bool-cases (q == p)) [
        | inl e ↦ inl ((==_iff q p).0 e, rw e)
        | inr e ↦ inr (record { below = qc; present = rw e at h; key = rw e }, rw e)
      ]

      grown_once :
          (i j : ℕ)
          → i < c
          → j < c
          → Present c grown i
          → Present c grown j
          → (grown i).key ≡ (grown j).key
          → i ≡ j
      grown_once i j ic jc h g e = elim (grown_has i ic h) [
        | inl (ip, ik) ↦ elim (grown_has j jc g) [
          | inl (jp, jk) ↦ ip ∙ sym jp
          | inr (held, _) ↦ absurd (Adds-Absent p r a j (rw (sym e ∙ ik) at held))
        ]
        | inr (held, _) ↦ elim (grown_has j jc g) [
          | inl (jp, jk) ↦ absurd (Adds-Absent p r a i (rw (e ∙ jk) at held))
          | inr (held', _) ↦
              inv.once i j ic jc held.present held'.present (held.key ∙ e ∙ sym held'.key)
        ]
      ]

      pub grown-IsProbed : IsProbed c grown
      grown-IsProbed = record {
        near = λ j jc h. elim (Bool-cases (j == p)) [
          | inl e ↦ rw e (rw ((==_iff j p).0 e) a.near)
          | inr e ↦ rw e (inv.near j jc (rw e at h))
        ];
        chain = λ j q jc qc h l. elim (Bool-cases (j == p)) [
          | inl e ↦ grown-Present q (a.passed q qc (rw ((==_iff j p).0 e) at (rw e at l))).0
          | inr e ↦ grown-Present q (inv.chain j q jc qc (rw e at h) (rw e at l))
        ];
        once = grown_once;
      }

      grown_self : HasKey c grown p k
      grown_self = record { below = a.below; present = rw (==_refl p); key = rw (==_refl p) }

      pub get-grown :
          (q : ℕ) → get c grown q ≡ (if q == k then some (f (t p).payload) else get c t q)
      get-grown q = elim (Bool-cases (q == k)) [
        | inl e ↦
            rw (e, (==_iff q k).0 e)
              (get-HasKey c cap grown grown-IsProbed p k grown_self ∙ rw (==_refl p))
        | inr e ↦ rw e (
            get_moved c cap t grown inv grown-IsProbed q (λ j h. (j, kept j h, rw (missed j h)))
              (λ i h. elim (grown_has i h.below h.present) [
                | inl (ip, ik) ↦ absurd (ground (arith, e, h.key, ik))
                | inr (held, _) ↦ (i, rw h.key at held)
              ]))
      ]
        where
          missed : (j : ℕ) → HasKey c t j q → (j == p) ≡ false
          missed j h = ground (arith, a.free, h.present)

          kept : (j : ℕ) → HasKey c t j q → HasKey c grown j q
          kept j h = record {
            below = h.below;
            present = rw (missed j h) h.present;
            key = rw (missed j h) h.key;
          }

    -- `insert_impl` keeps the invariant of the table: each entry is near its hash with no gap
    -- before it, and no key is stored twice.
    pub insert-IsProbed : IsProbed c (insert_impl c t k f).table
    insert-IsProbed = elim (insert-Outcome c cap t k f) [
      | added p a ↦ rw a.result (grown-IsProbed p _ a)
      | found p h e ↦ rw e inv
      | refused h e ↦ rw e inv
    ]

    -- What `insert` promises: it adds the key to a free slot, or finds it, or has no room for it.
    abbrev pub InsertLaw : Inserted P → Type ℓ
    InsertLaw r =
        ((p : ℕ) × (p < c)
          × ((t p).presence ≡ false)
          × (r.pos ≡ some p)
          × (r.success ≡ true)
          × (get c t k ≡ none)
          × ((q : ℕ) → get c r.table q ≡ (if q == k then some (f (t p).payload) else get c t q)))
        ⊎ ((p : ℕ) × (find c t k ≡ some p)
            × (r ≡ record { table = t; pos = some p; success = false }))
        ⊎ ((get c t k ≡ none)
            × Passed c t k (max_hash_neighbors c)
            × (r ≡ record { table = t; pos = none; success = false }))

    -- Under the invariant, `insert_impl` of a key has one of three ends: it writes a free slot and
    -- returns its position with success, the key read as none before, and afterwards reads as what
    -- the factory makes while other keys read as before; or it returns the slot at which `find`
    -- finds the key and leaves the table; or the key reads as none, all slots that it may use hold
    -- other keys, and the table stays.
    pub insert-InsertLaw : InsertLaw (insert_impl c t k f)
    insert-InsertLaw = elim (insert-Outcome c cap t k f) [
      | added p a ↦ rw a.result (
          inl (
            p,
            a.below,
            a.free,
            refl,
            refl,
            get-Absent c cap t inv k (Adds-Absent p _ a),
            get-grown p _ a,
          ))
      | found p h e ↦ rw e (inr (inl (p, find_complete c cap t k inv p h, refl)))
      | refused h e ↦ rw e (inr (inr (get-Absent c cap t inv k (refused-Absent h), h, refl)))
    ]
