-- ===== src/Trie/Node/Filled.antt =====
-- The first entry of a new node.
use op_magic_trie.Prelude.{
  ℕ, ◌≡◌, refl, ap, ◌∙◌, ◌⊎◌, inl, inr, true, false, none, some, arith, ◌==◌, if◌then◌else◌,
}
use op_magic_trie.Trie.HashTable
use op_magic_trie.Trie.HashTable.{Table, create}
use op_magic_trie.Trie.HashTable.Ring.{IsCapacity, neighbors_pos, dist_self, hash-lt}
use op_magic_trie.Trie.HashTable.Probe.{IsProbed, create-IsProbed, get-create, find_sound}
use op_magic_trie.Trie.HashTable.Added.{insert-IsProbed, insert-InsertLaw}
use op_magic_trie.Trie.Node.{Node, NodeData, Store, hashed, plain, presence, kv_get, store_insert}
use op_magic_trie.Trie.Node.Scan.{HasStore, in_hash, in_array}
use op_magic_trie.Trie.Node.Insert.{kv_get-plain, kv_get-hashed, store_insert-hashed}
use op_magic_trie.Trie.Node.Create.{
  create_interior, create_interior-unmarked, small_store, full_store,
}

module _ {V : Type 0} (blank : NodeData V) (c new_key : ℕ) (d : NodeData V) where
  abbrev t : Node V
  t = create_interior blank c

  -- The store `s` has the one entry `d`.
  pub record Filled (s : Store V) : Type 0 where
    pub run : store_insert t t.store new_key (λ _. d) ≡ some (s, true)
    pub store : (w : Node V) → w.store ≡ s → w.capacity ≡ c → HasStore w
    pub reads :
        (w : Node V)
        → w.store ≡ s
        → w.capacity ≡ c
        → ((k : ℕ) → presence w k ≡ k == new_key)
        → (k : ℕ) → kv_get w k ≡ (if k == new_key then some d else none)

  Filled-plain : c ≡ 256 → Filled (plain (λ j. if j == new_key then d else blank))
  Filled-plain full = record {
    run =
        unfold store_insert in
        ap (λ u. store_insert t u new_key (λ _. d)) (full_store blank c full)
        ∙ rw (create_interior-unmarked blank c new_key) refl;
    store = λ w s e. in_array _ (e ∙ full) s;
    reads = λ w s e marks k. kv_get-plain w _ k s ∙ ground (arith, marks k);
  }

  create-absent : (p : ℕ) → (create blank p).presence ≡ false
  unfolding create
  create-absent p = refl

  Filled-hashed : IsCapacity c → (s : Store V) × Filled s
  unfolding create_interior
  Filled-hashed cap = elim (insert-InsertLaw c cap (create blank) new_key (λ _. d) inv) [
    | inl (p, pl, free, pos, success, absent, reads) ↦ (
      hashed (HashTable.insert_impl c (create blank) new_key (λ _. d)).table,
      record {
        run =
            store_insert-hashed t (create blank) new_key (λ _. d) (small_store blank c cap)
            ∙ rw success refl;
        store = λ w s e.
            in_hash _ (rw e cap) (rw e (insert-IsProbed c cap (create blank) new_key (λ _. d) inv))
              s;
        reads = λ w s e marks k.
            kv_get-hashed w _ k s ∙ rw e (reads k ∙ rw (get-create c cap blank k) refl);
      },
    )
    | inr (inl (p, found, same)) ↦
        let h = find_sound c cap (create blank) new_key p found in
        absurd (ground (arith, h.present, create-absent p))
    | inr (inr (absent, passed, same)) ↦
        let start = HashTable.hash new_key c in
        let l = hash-lt new_key c cap in
        let (present, other) =
          passed start l (omega (arith, dist_self c start l, neighbors_pos c)) in
        absurd (ground (arith, present, create-absent start))
  ]
    where
      inv : IsProbed c (create blank)
      inv = create-IsProbed c cap blank

  pub filled : IsCapacity c ⊎ (c ≡ 256) → (s : Store V) × Filled s
  filled (inl cap) = Filled-hashed cap
  filled (inr full) = (_, Filled-plain full)
