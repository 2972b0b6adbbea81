-- ===== src/Trie/Node/Insert.antt =====
-- `insert` of a key that the node does not have.
use mathlib.Core.Path.{ap₂}
use op_magic_trie.Prelude.{
  ℕ, zero, suc, ◌≤◌, ◌<◌, ◌≡◌, refl, ap, ◌∙◌, ◌⊎◌, inl, inr, true, false, ◌||◌, none, some, List,
  length, ltb, arith, Option-cases, ◌==◌, if◌then◌else◌,
}
use op_magic_trie.Common.Bitset
use op_magic_trie.Common.Bitset.Access.{get-set, set-IsWords}
use op_magic_trie.Trie.HashTable
use op_magic_trie.Trie.HashTable.{Table, create, grow_size}
use op_magic_trie.Trie.HashTable.Ring.{IsCapacity}
use op_magic_trie.Trie.HashTable.Probe.{find_sound, get-HasKey}
use op_magic_trie.Trie.HashTable.Added.{insert-IsProbed, insert-InsertLaw}
use op_magic_trie.Trie.Node.{
  Node, NodeData, Store, hashed, plain, presence, kv_get, store_get, store_insert, has_child,
  has_value, fresh, insert_loop, insert, next_version,
}
use op_magic_trie.Trie.Node.Scan.{IsNode, HasStore, in_hash, in_array}
use op_magic_trie.Trie.Node.Grow.{GrownFrom, grow-GrownFrom}

-- The containers that are left from a capacity on.
growths : ℕ → ℕ
growths c =
    if c == 8
    then 6
    else if c == 16
    then 5
    else if c == 32
    then 4
    else if c == 64
    then 3
    else if c == 128
    then 2
    else 1

growths_pos : (c : ℕ) → 0 < growths c
unfolding growths
growths_pos c = ground arith

growths-le_six : (c : ℕ) → growths c ≤ 6
unfolding growths
growths-le_six c = ground arith

growths-lt : (c d : ℕ) → IsCapacity c → IsCapacity d ⊎ (d ≡ 256) → c < d → growths d < growths c
unfolding growths
growths-lt c d h k l = ground arith

module _ {V : Type 0} where
  -- `m` is `n` with the new entry `e` at `key`, which carries a value.
  pub record Gains (n m : Node V) (key : ℕ) (e : NodeData V) : Type 0 where
    pub node : IsNode m
    pub reads : (k : ℕ) → k < 256 → kv_get m k ≡ (if k == key then some e else kv_get n k)
    pub values : (k : ℕ) → has_value m k ≡ k == key || has_value n k
    pub children : (k : ℕ) → has_child m k ≡ has_child n k

  GrownFrom-Gains :
      (n m p : Node V) (key : ℕ) (e : NodeData V)
      → GrownFrom n m
      → Gains m p key e
      → Gains n p key e
  GrownFrom-Gains n m p key e g a = record {
    node = a.node;
    reads = λ k h. ground (arith, a.reads k h, g.same k h);
    values = λ k. ground (arith, a.values k, g.values k);
    children = λ k. a.children k ∙ g.children k;
  }

  module _ (n : Node V) (v : IsNode n) (key : ℕ) (small : key < 256)
      (absent : presence n key ≡ false) where
    abbrev stored_at : Store V → Node V
    stored_at s = record n {
      store = s;
      value_presence = Bitset.set n.value_presence key;
      version = next_version n.version;
    }

    presence-stored_at : (s : Store V) (k : ℕ) → presence (stored_at s) k ≡ k == key || presence n k
    unfolding presence
    presence-stored_at s k = ground (arith, get-set n.value_presence key k)

    stored-Gains :
        (s : Store V) (e : NodeData V)
        → HasStore (stored_at s)
        → ((k : ℕ) → k < 256 → kv_get (stored_at s) k ≡ (if k == key then some e else kv_get n k))
        → Gains n (stored_at s) key e
    unfolding has_value has_child
    stored-Gains s e h reads = record {
      node = record {
        child_words = v.child_words;
        value_words = set-IsWords n.value_presence key v.value_words;
        stored = h;
        agrees = λ k l. ground (arith, reads k l, v.agrees k l, presence-stored_at s k);
      };
      reads = reads;
      values = get-set n.value_presence key;
      children = λ k. refl;
    }

    -- The container has no entry for the key.
    kv_absent : kv_get n key ≡ none
    kv_absent = elim (Option-cases (kv_get n key)) [
      | inl e ↦ e
      | inr (x, e) ↦ absurd (ground (arith, v.agrees key small, absent, e))
    ]

  HasStore-capacity : (n : Node V) → HasStore n → IsCapacity n.capacity ⊎ (n.capacity ≡ 256)
  HasStore-capacity n (in_hash t c inv e) = inl c
  HasStore-capacity n (in_array d c e) = inr c

  GrownFrom-presence : (n m : Node V) → GrownFrom n m → (k : ℕ) → presence m k ≡ presence n k
  unfolding presence has_child has_value
  GrownFrom-presence n m g k = ap₂ ◌||◌ (g.children k) (g.values k)

  pub kv_get-plain :
      (n : Node V) (d : ℕ → NodeData V) (k : ℕ)
      → n.store ≡ plain d
      → kv_get n k ≡ (if presence n k then some (d k) else none)
  unfolding kv_get
  kv_get-plain n d k e = ap (λ s. store_get n s k) e

  pub kv_get-hashed :
      (n : Node V) (t : Table (NodeData V)) (k : ℕ)
      → n.store ≡ hashed t
      → kv_get n k ≡ HashTable.get n.capacity t k
  unfolding kv_get
  kv_get-hashed n t k e = ap (λ s. store_get n s k) e

  pub store_insert-hashed :
      (n : Node V) (t : Table (NodeData V)) (key : ℕ) (f : NodeData V → NodeData V)
      → n.store ≡ hashed t
      → store_insert n n.store key f
        ≡ (let r = HashTable.insert_impl n.capacity t key f in some (hashed r.table, r.success))
  unfolding store_insert
  store_insert-hashed n t key f e = ap (λ s. store_insert n s key f) e

  -- With rounds for the growths left, `insert` returns, and adds the one entry.
  insert_loop-Gains :
      (fuel : ℕ) (blank : NodeData V) (n : Node V) (key : ℕ) (rest : List ℕ) (x : V)
      → growths n.capacity ≤ fuel
      → IsNode n
      → key < 256
      → presence n key ≡ false
      → (m : Node V) × (insert_loop fuel blank n key rest x ≡ some m) × Gains n m key (fresh rest x)
  unfolding insert_loop kv_get
  insert_loop-Gains zero blank n key rest x w v small absent =
      absurd (omega (arith, growths_pos n.capacity))
  insert_loop-Gains (suc fuel) blank n key rest x w v small absent = elim v.stored [
    | in_array d full s ↦
        let e = fresh rest x in
        (
          stored_at n v key small absent (plain (λ j. if j == key then e else d j)),
          rw (s, insert_loop, absent),
          stored-Gains n v key small absent _ e (in_array _ full refl) (λ k l. ground (
            arith,
            kv_get-plain n d k s,
            presence-stored_at n v key small absent (plain (λ j. if j == key then e else d j)) k,
          )),
        )
    | in_hash t cap inv s ↦
        let e = fresh rest x in
        elim (insert-InsertLaw n.capacity cap t key (λ _. e) inv) [
          | inl (p, pl, free, pos, success, missing, reads) ↦
              let inv' = insert-IsProbed n.capacity cap t key (λ _. e) inv in
              (
                stored_at n v key small absent (hashed _),
                rw (s, insert_loop, success),
                stored-Gains n v key small absent _ e (in_hash _ cap inv' refl)
                    (λ k l. reads k ∙ rw (kv_get-hashed n t k s)),
              )
          | inr other ↦ elim other [
            | inl (p, found, _) ↦ absurd (
                ground (
                  arith,
                  kv_absent n v key small absent,
                  kv_get-hashed n t key s,
                  get-HasKey n.capacity cap t inv p key (find_sound n.capacity cap t key p found),
                ))
            | inr (missing, passed, result) ↦
                let (m, run, g) = grow-GrownFrom n v blank cap in
                let fewer =
                  growths-lt n.capacity m.capacity cap (HasStore-capacity m g.node.stored)
                    g.larger in
                let within : growths m.capacity ≤ fuel = omega arith in
                let (u, run', gained) =
                  insert_loop-Gains fuel blank m key rest x within g.node small
                    (GrownFrom-presence n m g key ∙ absent) in
                let kept : store_insert n n.store key (λ _. e) ≡ some (hashed t, false) =
                  store_insert-hashed n t key (λ _. e) s ∙ rw result in
                (u, rw (kept, insert_loop, run) run', GrownFrom-Gains n m u key e g gained)
          ]
        ]
  ]

  -- On a node under the invariant, `insert` of a byte that is not marked, with a rest of the key of
  -- fewer than 65534 bytes, returns a node under the invariant in which that byte reads as the new
  -- entry, all other bytes read as before, the byte is marked as a value and the child marks are as
  -- before, whatever growth it takes.
  pub insert-Gains :
      (blank : NodeData V) (n : Node V) (key : ℕ) (rest : List ℕ) (x : V)
      → IsNode n
      → key < 256
      → presence n key ≡ false
      → length rest < 0xFFFE
      → (m : Node V) × (insert blank n key rest x ≡ some m) × Gains n m key (fresh rest x)
  unfolding insert
  insert-Gains blank n key rest x v small absent short =
      let fits : ltb (length rest) 0xFFFE ≡ true = ground (arith, short) in
      let (m, run, g) =
        insert_loop-Gains 6 blank n key rest x (growths-le_six n.capacity) v small absent in
      (m, rw (insert, fits) run, g)
