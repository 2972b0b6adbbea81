-- ===== src/Trie/Node/Change.antt =====
-- Changing and dropping one entry of the container of a node.
use mathlib.Core.Option
use mathlib.Core.Path.{subst}
use op_magic_trie.Prelude.{
  ℕ, ◌<◌, ◌≡◌, refl, sym, ap, ◌∙◌, inl, inr, Bool, true, false, not, ◌&&◌, Option, none, some,
  arith, Bool-cases, ◌==◌, ==_iff, if◌then◌else◌,
}
use op_magic_trie.Trie.HashTable
use op_magic_trie.Trie.HashTable.{Table}
use op_magic_trie.Trie.HashTable.Ring.{IsCapacity}
use op_magic_trie.Trie.HashTable.Probe.{IsProbed}
use op_magic_trie.Trie.HashTable.Modify.{modify-IsProbed, get-modify}
use op_magic_trie.Trie.HashTable.Erased.{erase-EraseLaw}
use op_magic_trie.Trie.Node.{
  Node, NodeData, Store, hashed, plain, presence, kv_get, kv_modify, kv_erase, store_modify,
  store_erase,
}
use op_magic_trie.Trie.Node.Scan.{is_some, IsNode, HasStore, in_hash, in_array}
use op_magic_trie.Trie.Node.Insert.{kv_get-plain, kv_get-hashed}

is_some-map {ℓ κ} :
    {A : Type ℓ} {B : Type κ} (f : A → B) (o : Option A) → is_some (Option.map f o) ≡ is_some o
is_some-map f none = refl
is_some-map f (some a) = refl

module _ {V : Type 0} (n : Node V) (v : IsNode n) (key : ℕ) (small : key < 256) where
  -- `w` is `n` with another store; the bit sets may differ.
  module _ (f : NodeData V → NodeData V) where
    abbrev Reads : Node V → Type 0
    Reads w =
        HasStore w
        × ((k : ℕ)
            → k < 256
            → kv_get w k ≡ (if k == key then Option.map f (kv_get n key) else kv_get n k))

    modify_plain :
        (d : ℕ → NodeData V)
        → n.capacity ≡ 256
        → n.store ≡ plain d
        → Reads (record n { store = store_modify n (plain d) key f })
    unfolding store_modify kv_get presence
    modify_plain d full e =
        (in_array _ full refl, λ k l. ground (arith, kv_get-plain n d k e, kv_get-plain n d key e))

    modify_hashed :
        (t : Table (NodeData V))
        → IsCapacity n.capacity
        → IsProbed n.capacity t
        → n.store ≡ hashed t
        → Reads (record n { store = store_modify n (hashed t) key f })
    unfolding store_modify kv_get
    modify_hashed t c inv e = (
      in_hash _ c (modify-IsProbed n.capacity c t inv key f) refl,
      λ k l.
          get-modify n.capacity c t inv key f k
          ∙ rw (kv_get-hashed n t k e, kv_get-hashed n t key e),
    )

    kv_modify-Reads : Reads (kv_modify n key f)
    unfolding kv_modify
    kv_modify-Reads = elim v.stored [
      | in_array d full e ↦
          subst (λ s. Reads (record n { store = store_modify n s key f })) (sym e)
            (modify_plain d full e)
      | in_hash t c inv e ↦
          subst (λ s. Reads (record n { store = store_modify n s key f })) (sym e)
            (modify_hashed t c inv e)
    ]

    pub kv_modify-presence : (k : ℕ) → presence (kv_modify n key f) k ≡ presence n k
    unfolding kv_modify presence
    kv_modify-presence k = refl

    -- The entry is changed, and the node is otherwise as it was.
    pub kv_modify-IsNode : IsNode (kv_modify n key f)
    kv_modify-IsNode = record {
      child_words = unfold kv_modify in v.child_words;
      value_words = unfold kv_modify in v.value_words;
      stored = kv_modify-Reads.0;
      agrees = λ k l. ground (
        arith,
        kv_modify-Reads.1 k l,
        is_some-map f (kv_get n key),
        v.agrees k l,
        v.agrees key small,
        kv_modify-presence k,
      );
    }

    pub kv_get-modify :
        (k : ℕ)
        → k < 256
        → kv_get (kv_modify n key f) k
          ≡ (if k == key then Option.map f (kv_get n key) else kv_get n k)
    kv_get-modify = kv_modify-Reads.1

  -- A node whose bit sets no longer mark the key, over the store that `kv_erase` leaves.
  abbrev Unmarked : Node V → Type 0
  Unmarked w = (k : ℕ) → presence w k ≡ not (k == key) && presence n k

  -- `kv_erase` leaves the store `s`, in which the key has no entry.
  pub record Drops (s : Store V) : Type 0 where
    pub run : kv_erase n key ≡ some (record n { store = s })
    pub store : (w : Node V) → w.store ≡ s → w.capacity ≡ n.capacity → HasStore w
    pub reads :
        (w : Node V)
        → w.store ≡ s
        → w.capacity ≡ n.capacity
        → Unmarked w
        → (k : ℕ) → k < 256
        → kv_get w k ≡ (if k == key then none else kv_get n k)

  drop_plain : (d : ℕ → NodeData V) → n.capacity ≡ 256 → n.store ≡ plain d → Drops (plain d)
  drop_plain d full e = record {
    run = unfold kv_erase in ap after_erase e;
    store = λ w s c. in_array d (c ∙ full) s;
    reads = λ w s c unmarked k l.
        ground (arith, kv_get-plain w d k s, kv_get-plain n d k e, unmarked k);
  }
    where
      after_erase : Store V → Option (Node V)
      after_erase s = elim (store_erase n s key) [
        | none ↦ none
        | some r ↦ some (record n { store = r })
      ]

  -- The store of `n` is the table `t`, and `u` is the table without the key.
  drop_hashed :
      (t u : Table (NodeData V)) (done : Bool)
      → IsCapacity n.capacity
      → n.store ≡ hashed t
      → HashTable.erase n.capacity t key ≡ some (u, done)
      → IsProbed n.capacity u
      → ((q : ℕ)
          → HashTable.get n.capacity u q
            ≡ (if q == key then none else HashTable.get n.capacity t q))
      → Drops (hashed u)
  drop_hashed t u done c e erased inv reads = record {
    run =
        let step : kv_erase n key ≡ after_erase (hashed t) = unfold kv_erase in ap after_erase e in
        step ∙ unfold store_erase in (rw (erased));
    store = λ w s cw. in_hash u (rw cw c) (rw cw inv) s;
    reads = λ w s cw _ k l. kv_get-hashed w u k s ∙ rw cw (reads k ∙ rw (kv_get-hashed n t k e));
  }
    where
      after_erase : Store V → Option (Node V)
      after_erase s = elim (store_erase n s key) [
        | none ↦ none
        | some r ↦ some (record n { store = r })
      ]

  -- `kv_erase` returns, and drops the entry of the key.
  pub kv_erase-Drops : (s : Store V) × Drops s
  kv_erase-Drops = elim v.stored [
    | in_array d full e ↦ (plain d, drop_plain d full e)
    | in_hash t c inv e ↦ elim (erase-EraseLaw n.capacity c t inv key) [
      | inl (missing, erased) ↦ (
        hashed t,
        drop_hashed t t false c e erased inv (λ q. elim (Bool-cases (q == key)) [
          | inl same ↦ rw (same, (==_iff q key).0 same) missing
          | inr other ↦ rw other
        ]),
      )
      | inr (u, erased, _, inv', reads) ↦ (hashed u, drop_hashed t u true c e erased inv' reads)
    ]
  ]
