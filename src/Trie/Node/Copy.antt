-- ===== src/Trie/Node/Copy.antt =====
-- `grow_from` of both containers copies every entry of the node, or meets a full neighbourhood.
use native.Mathlib.Decide.{dec_lt, ℕ_discrete}
use op_magic_trie.Prelude.{
  ℕ, zero, suc, ◌+◌, ◌≤◌, ◌<◌, ◌≡◌, refl, ◌∙◌, ◌⊎◌, inl, inr, Bool, true, false, ◌||◌, Option, none,
  some, arith, Option-cases, ltb, ◌==◌, if◌then◌else◌,
}
use op_magic_trie.Common.Bitset.Scan.{LeastFrom}
use op_magic_trie.Trie.HashTable.{Table, create, get, max_hash_neighbors}
use op_magic_trie.Trie.HashTable.Ring.{IsCapacity}
use op_magic_trie.Trie.HashTable.Probe.{
  IsProbed, create-IsProbed, get-create, find_sound, get-HasKey,
}
use op_magic_trie.Trie.HashTable.Insert.{Passed}
use op_magic_trie.Trie.HashTable.Added.{insert-IsProbed, insert-InsertLaw}
use op_magic_trie.Trie.Node.{
  Node, NodeData, presence, presence_first_set, presence_next_set, has_child, has_value, kv_get,
  hashed_grow_loop, hashed_grow_from, plain_grow_loop, plain_grow_from,
}
use op_magic_trie.Trie.Node.Scan.{IsNode, first-LeastFrom, next-LeastFrom}

pub presence_marks :
    {V : Type 0} (n : Node V) (k : ℕ) → presence n k ≡ has_child n k || has_value n k
unfolding presence has_child has_value
presence_marks n k = refl

module _ {V : Type 0} (n : Node V) (v : IsNode n) where
  -- Where no bit set marks the key, the container has no entry, and the other way round.
  pub kv_get_cases :
      (k : ℕ)
      → k < 256
      → ((presence n k ≡ false) × (kv_get n k ≡ none))
        ⊎ ((e : NodeData V) × (presence n k ≡ true) × (kv_get n k ≡ some e))
  kv_get_cases k h = elim (Option-cases (kv_get n k)) [
    | inl e ↦ inl (ground (arith, v.agrees k h, e), e)
    | inr (x, e) ↦ inr (x, ground (arith, v.agrees k h, e), e)
  ]

  pub kv_get_unmarked : (k : ℕ) → k < 256 → presence n k ≡ false → kv_get n k ≡ none
  kv_get_unmarked k h bare = elim (kv_get_cases k h) [
    | inl (_, e) ↦ e
    | inr (_, marked, _) ↦ absurd (ground (arith, bare, marked))
  ]

  -- The keys before `from` are copied.
  abbrev Copied : (ℕ → Option (NodeData V)) → ℕ → Type 0
  Copied g from = (k : ℕ) → k < 256 → g k ≡ (if ltb k from then kv_get n k else none)

  -- One more key is copied, and the next one looked for behind it.
  Copied-next :
      (g h : ℕ → Option (NodeData V)) (from key : ℕ) (e : NodeData V)
      → key < 256
      → from ≤ key
      → ((j : ℕ) → from ≤ j → j < key → presence n j ≡ false)
      → kv_get n key ≡ some e
      → ((q : ℕ) → h q ≡ (if q == key then some e else g q))
      → Copied g from
      → Copied h (suc key)
  Copied-next g h from key e small lo before here writes old k kl = elim (dec_lt k from) [
    | yes l ↦ ground (arith, writes k, old k kl)
    | no l ↦ elim (dec_lt k key) [
      | yes m ↦ elim (kv_get_cases k kl) [
        | inl (_, empty) ↦ ground (arith, writes k, old k kl, empty)
        | inr (x, marked, _) ↦ absurd (ground (arith, marked, before k (omega arith) m))
      ]
      | no m ↦ elim (ℕ_discrete k key) [
        | yes q ↦ rw q (ground (arith, writes key, here))
        | no q ↦ ground (arith, writes k, old k kl)
      ]
    ]
  ]

  Copied-end :
      (g : ℕ → Option (NodeData V)) (from : ℕ)
      → LeastFrom (presence n) from 256 none
      → Copied g from
      → (k : ℕ) → k < 256
      → g k ≡ kv_get n k
  Copied-end g from rest old k kl = elim (dec_lt k from) [
    | yes l ↦ ground (arith, old k kl)
    | no l ↦ elim (kv_get_cases k kl) [
      | inl (_, empty) ↦ ground (arith, old k kl, empty)
      | inr (x, marked, _) ↦ absurd (ground (arith, marked, rest k (omega arith) kl))
    ]
  ]

  module _ (c : ℕ) (cap : IsCapacity c) where
    -- All entries are in the new table, or some key had no room.
    pub data Copies (r : Option (Table (NodeData V) × Bool)) : Type 0 where
      whole :
          (w : Table (NodeData V))
          → r ≡ some (w, true)
          → IsProbed c w
          → ((k : ℕ) → k < 256 → get c w k ≡ kv_get n k)
          → Copies r
      full :
          (w : Table (NodeData V)) (key : ℕ)
          → r ≡ some (w, false)
          → key < 256
          → presence n key ≡ true
          → IsProbed c w
          → ((k : ℕ) → k < 256 → get c w k ≡ (if ltb k key then kv_get n k else none))
          → Passed c w key (max_hash_neighbors c)
          → Copies r

    -- No key from `from` to the next marked one is copied.
    Copied-upto :
        (g : ℕ → Option (NodeData V)) (from key : ℕ)
        → from ≤ key
        → ((j : ℕ) → from ≤ j → j < key → presence n j ≡ false)
        → Copied g from
        → Copied g key
    Copied-upto g from key lo before old k kl = elim (dec_lt k from) [
      | yes l ↦ ground (arith, old k kl)
      | no l ↦ elim (dec_lt k key) [
        | yes m ↦ ground (arith, old k kl, kv_get_unmarked k kl (before k (omega arith) m))
        | no m ↦ ground (arith, old k kl)
      ]
    ]

    hashed_grow_loop-Copies :
        (rounds from : ℕ) (u : Table (NodeData V)) (i : Option ℕ)
        → 256 < rounds + from
        → from ≤ 256
        → IsProbed c u
        → LeastFrom (presence n) from 256 i
        → Copied (get c u) from
        → Copies (hashed_grow_loop rounds c n u i)
    unfolding hashed_grow_loop
    hashed_grow_loop-Copies zero from u i r lo inv l old = absurd (omega arith)
    hashed_grow_loop-Copies (suc rounds) from u none r lo inv l old =
        whole u refl inv (Copied-end (get c u) from l old)
    hashed_grow_loop-Copies (suc rounds) from u (some key) r lo inv (a, b, here, before) old =
        elim (kv_get_cases key b) [
          | inl (unmarked, _) ↦ absurd (ground (arith, unmarked, here))
          | inr (e, _, got) ↦ elim (insert-InsertLaw c cap u key (λ _. e) inv) [
            | inl (p, pl, free, pos, success, absent, reads) ↦
                let inv' = insert-IsProbed c cap u key (λ _. e) inv in
                rw (got, hashed_grow_loop, success)
                  (hashed_grow_loop-Copies rounds (suc key) _ (presence_next_set n key)
                    (omega arith) (omega arith) inv' (next-LeastFrom n v key b)
                    (Copied-next (get c u) _ from key e b a before got reads old))
            | inr other ↦ elim other [
              | inl (p, found, _) ↦ absurd (
                  ground (
                    arith,
                    old key b,
                    get-HasKey c cap u inv p key (find_sound c cap u key p found),
                  ))
              | inr (absent, passed, e') ↦
                  rw (got, hashed_grow_loop, e')
                    (full u key refl b here inv (Copied-upto (get c u) _ key a before old) passed)
            ]
          ]
        ]

    -- For a node under the invariant and a legal capacity greater than that of the node,
    -- `grow_from` of the hash table ends: either it reports success, and the new table is under the
    -- invariant and reads at every byte as the node does; or it reports failure, and there is a
    -- marked byte such that the table, under the invariant, has the entries of exactly the lesser
    -- bytes, and every slot that the byte may use holds another key.
    pub grow_from-Copies :
        (blank : NodeData V) → n.capacity < c → Copies (hashed_grow_from c blank n)
    unfolding hashed_grow_from
    grow_from-Copies blank larger =
        let inv = create-IsProbed c cap blank in
        let wide : ltb n.capacity c ≡ true = ground (arith, larger) in
        rw wide (
          hashed_grow_loop-Copies 257 0 (create blank) (presence_first_set n) (omega arith)
            (omega arith) inv (first-LeastFrom n v)
            (λ k _. get-create c cap blank k ∙ ground arith))

  -- The keys before `from` are copied to the array.
  abbrev pub CopiedPlain : (ℕ → NodeData V) → ℕ → Type 0
  CopiedPlain d from =
      (k : ℕ) → k < 256 → k < from → (if presence n k then some (d k) else none) ≡ kv_get n k

  plain_step :
      (u : ℕ → NodeData V) (from key : ℕ) (e : NodeData V)
      → key < 256
      → ((j : ℕ) → from ≤ j → j < key → presence n j ≡ false)
      → presence n key ≡ true
      → kv_get n key ≡ some e
      → CopiedPlain u from
      → CopiedPlain (λ j. if j == key then e else u j) (suc key)
  plain_step u from key e small before marked here old k kl l = elim (dec_lt k from) [
    | yes m ↦ elim (ℕ_discrete k key) [
      | yes q ↦ rw q (ground (arith, marked, here))
      | no q ↦ ground (arith, old k kl m)
    ]
    | no m ↦ elim (ℕ_discrete k key) [
      | yes q ↦ rw q (ground (arith, marked, here))
      | no q ↦ elim (kv_get_cases k kl) [
        | inl (off, empty) ↦ ground (arith, off, empty)
        | inr (x, on, _) ↦ absurd (ground (arith, on, before k (omega arith) (omega arith)))
      ]
    ]
  ]

  plain_grow_loop-copies :
      (rounds from : ℕ) (u : ℕ → NodeData V) (i : Option ℕ)
      → 256 < rounds + from
      → from ≤ 256
      → LeastFrom (presence n) from 256 i
      → CopiedPlain u from
      → (w : ℕ → NodeData V) × (plain_grow_loop rounds n u i ≡ some w) × CopiedPlain w 256
  unfolding plain_grow_loop
  plain_grow_loop-copies zero from u i r lo l old = absurd (omega arith)
  plain_grow_loop-copies (suc rounds) from u none r lo rest old = (
    u,
    refl,
    λ k kl _. elim (dec_lt k from) [
      | yes m ↦ old k kl m
      | no m ↦ elim (kv_get_cases k kl) [
        | inl (off, empty) ↦ ground (arith, off, empty)
        | inr (x, on, _) ↦ absurd (ground (arith, on, rest k (omega arith) kl))
      ]
    ],
  )
  plain_grow_loop-copies (suc rounds) from u (some key) r lo (a, b, here, before) old =
      elim (kv_get_cases key b) [
        | inl (off, _) ↦ absurd (ground (arith, off, here))
        | inr (e, on, got) ↦
            rw (got, plain_grow_loop)
              (plain_grow_loop-copies rounds (suc key) _ (presence_next_set n key) (omega arith)
                (omega arith) (next-LeastFrom n v key b)
                (plain_step u from key e b before on got old))
      ]

  -- For a node under the invariant with a capacity below 256, `grow_from` of the array container
  -- ends, and at every byte the new array under the marks of the node reads as the node does.
  pub plain_grow-copies :
      (blank : NodeData V)
      → n.capacity < 256
      → (w : ℕ → NodeData V) × (plain_grow_from blank n ≡ some w) × CopiedPlain w 256
  unfolding plain_grow_from
  plain_grow-copies blank smaller =
      let wide : ltb n.capacity 256 ≡ true = ground (arith, smaller) in
      rw wide (
        plain_grow_loop-copies 257 0 (λ _. blank) (presence_first_set n) (omega arith) (omega arith)
          (first-LeastFrom n v) (λ k _ l. absurd (omega arith)))
