-- ===== src/Trie/Tree/Inserts.antt =====
-- What `insert_impl` and `insert` do to the keys of a trie, and what is found afterwards.
use mathlib.Core.Path.{subst}
use op_magic_trie.Prelude.{
  ℕ, ◌≡◌, ◌↔◌, refl, sym, ap, ◌∙◌, ◌⊎◌, inl, inr, true, false, none, some, bind_some, List, [], ◌∷◌,
  length, ◌<◌, arith, if◌then◌else◌, ◌≢◌,
}
use op_magic_trie.Trie.Node.{Node, NodeData, has_value, kv_get}
use op_magic_trie.Trie.Node.Entries.{value, get_value}
use op_magic_trie.Trie.Iterator.{
  TrieIterator, equals, TriePosition, end_iterator, top_address, top_key,
}
use op_magic_trie.Trie.Tree.{Trie, Insertion, next_u64, insert_impl, common_prefix, value_of}
use op_magic_trie.Trie.Tree.View.{AllBytes, Stored, IsTrie}
use op_magic_trie.Trie.Tree.Walk.{found, missing, inside, short, differs}
use op_magic_trie.Trie.Tree.Descent.{Down-ne_nil}
use op_magic_trie.Trie.Tree.Lookup.{common_prefix-Walked, Stored-Down}
use op_magic_trie.Trie.Tree.Ways.{EndsAtBranch, present, added, faults, insert_impl-Outcome}

-- What an insertion that returns did.
abbrev pub Effect : {V : Type 0} → ℕ → Trie V → List ℕ → V → Insertion V → Type 0
Effect {V} c t key v r =
    IsTrie r.trie
    × (r.iter.prefix ≡ key)
    × ((r.exists ≡ true) ↔ ((x : V) × Stored t key x))
    × ((q : List ℕ) (x : V)
        → Stored r.trie q x ↔ (Stored t q x ⊎ ((r.exists ≡ false) × (q ≡ key) × (x ≡ v))))
    × (r.trie.count ≡ (if r.exists then t.count else next_u64 t.count))
    × ((b : ℕ) → t.nodes b ≡ none → b ≢ c → r.trie.nodes b ≡ none)

module _ {V : Type 0} (t : Trie V) (w : IsTrie t) where
  value_of-top :
      (stack : List TriePosition) (prefix : List ℕ) (a k : ℕ) (n : Node V) (e : NodeData V)
      → top_address (record { position_stack = stack; prefix = prefix }) ≡ some a
      → top_key (record { position_stack = stack; prefix = prefix }) ≡ some k
      → t.nodes a ≡ some n
      → kv_get n k ≡ some e
      → has_value n k ≡ true
      → (top : TriePosition) × (below : List TriePosition) × (stack ≡ top ∷ below)
        × (value_of t top ≡ some (value e.value))
  unfolding value_of get_value
  value_of-top [] prefix a k n e at_a at_k there entry valued = absurd (ground (arith, at_a))
  value_of-top (top ∷ below) prefix a k n e at_a at_k there entry valued = (
    top,
    below,
    refl,
    bind_some _ at_a (bind_some _ there (bind_some _ at_k (rw (get_value, valued, entry) refl))),
  )

  -- On a trie under the invariant, for a stored key of bytes, `common_prefix` from the root returns
  -- `equals` with an iterator whose prefix is the key, and `value_of` its last position is the
  -- stored value.
  pub value_of-common_prefix :
      (q : List ℕ) (v : V)
      → AllBytes q
      → Stored t q v
      → (it : TrieIterator) × (top : TriePosition) × (below : List TriePosition) × (common_prefix t
            q
          ≡ some (record { result = equals; iter = it; rest = [] }))
        × (it.prefix ≡ q)
        × (it.position_stack ≡ top ∷ below)
        × (value_of t top ≡ some (value v))
  value_of-common_prefix [] v bytes h = absurd (Down-ne_nil t.root v (Stored-Down t w [] v h))
  value_of-common_prefix (k ∷ rest) v bytes h =
      let d = Stored-Down t w (k ∷ rest) v h in
      elim (common_prefix-Walked t w k rest bytes) [
        | found it p a n j e out _ there _ entry valued _ st _ only ↦
            let (top, below, stack, got) =
              value_of-top it.position_stack it.prefix a j n e st.address st.key there entry
                valued in
            (it, top, below, out, st.spells, stack, got ∙ ap (λ x. some (value x)) (sym (only v d)))
        | missing _ _ _ _ _ _ _ _ _ _ _ _ _ _ gone ↦ absurd (gone v d)
        | inside _ _ _ _ _ _ _ _ _ _ _ _ _ _ _ _ _ gone ↦ absurd (gone v d)
        | short _ _ _ _ _ _ _ _ _ _ _ _ _ _ _ _ _ gone ↦ absurd (gone v d)
        | differs _ _ _ _ _ _ _ _ _ _ _ _ _ _ _ _ _ _ _ _ _ gone ↦ absurd (gone v d)
      ]

  -- One value is stored for a key.
  pub Stored-unique : (q : List ℕ) (v x : V) → AllBytes q → Stored t q v → Stored t q x → v ≡ x
  Stored-unique [] v x bytes h d = absurd (Down-ne_nil t.root v (Stored-Down t w [] v h))
  Stored-unique (k ∷ rest) v x bytes h d =
      let below_v = Stored-Down t w (k ∷ rest) v h in
      let below_x = Stored-Down t w (k ∷ rest) x d in
      elim (common_prefix-Walked t w k rest bytes) [
        | found _ _ _ _ _ _ _ _ _ _ _ _ _ _ _ only ↦ only v below_v ∙ sym (only x below_x)
        | missing _ _ _ _ _ _ _ _ _ _ _ _ _ _ gone ↦ absurd (gone v below_v)
        | inside _ _ _ _ _ _ _ _ _ _ _ _ _ _ _ _ _ gone ↦ absurd (gone v below_v)
        | short _ _ _ _ _ _ _ _ _ _ _ _ _ _ _ _ _ gone ↦ absurd (gone v below_v)
        | differs _ _ _ _ _ _ _ _ _ _ _ _ _ _ _ _ _ _ _ _ _ gone ↦ absurd (gone v below_v)
      ]

  module _ (blank : NodeData V) (allocate : Trie V → ℕ) (free : t.nodes (allocate t) ≡ none) where
    effect_of :
        (k : ℕ) (rest : List ℕ) (v : V)
        → AllBytes (k ∷ rest)
        → length (k ∷ rest) < 0xFFFF
        → ((insert_impl blank allocate t end_iterator (k ∷ rest) v ≡ none)
            × EndsAtBranch t (k ∷ rest))
          ⊎ ((r : Insertion V) × (insert_impl blank allocate t end_iterator (k ∷ rest) v ≡ some r)
              × Effect (allocate t) t (k ∷ rest) v r)
    effect_of k rest v bytes limit =
        elim (insert_impl-Outcome blank allocate t w free k rest v bytes limit) [
          | faults out at_branch ↦ inl (out, at_branch)
          | present r out exists same spells stored ↦ inr (
            r,
            out,
            (
              subst IsTrie (sym same) w,
              spells,
              (λ _. stored, λ _. exists),
              λ q x. (
                λ h. inl (subst (λ u. Stored u q x) same h),
                λ h. elim h [
                  | inl old ↦ subst (λ u. Stored u q x) (sym same) old
                  | inr (new, _, _) ↦ absurd (ground (arith, new, exists))
                ],
              ),
              rw exists (ap (λ u. u.count) same),
              λ b e _. ap (λ u. u.nodes b) same ∙ e,
            ),
          )
          | added r out done absent ↦ inr (
            r,
            out,
            (
              done.trie,
              done.position,
              (λ e. absurd (ground (arith, e, done.new)), λ h. absurd (absent h.0 h.1)),
              λ q x. (
                λ h. elim ((done.keys q x).0 h) [
                  | inl old ↦ inl old
                  | inr (e, d) ↦ inr (done.new, e, d)
                ],
                λ h. (done.keys q x).1 (elim h [ inl old ↦ inl old | inr (_, e, d) ↦ inr (e, d) ]),
              ),
              rw done.new done.terminals,
              done.unused,
            ),
          )
        ]

    -- On a trie under the invariant, with an unused address from the allocator, for a key of fewer than
    -- 65535 bytes, if `insert_impl` from the root returns, then the trie is under the invariant, the iterator is
    -- at the key, `exists` tells whether the key was stored, and the keys and values are those of
    -- before and, if the key was not stored, the new one.
    pub insert_impl-Effect :
        (k : ℕ) (rest : List ℕ) (v : V) (r : Insertion V)
        → AllBytes (k ∷ rest)
        → length (k ∷ rest) < 0xFFFF
        → insert_impl blank allocate t end_iterator (k ∷ rest) v ≡ some r
        → Effect (allocate t) t (k ∷ rest) v r
    insert_impl-Effect k rest v r bytes limit run = elim (effect_of k rest v bytes limit) [
      | inl (out, _) ↦ absurd (ground (arith, out, run))
      | inr (s, out, effect) ↦
          let same : s ≡ r = cc (out, run) in subst (Effect (allocate t) t (k ∷ rest) v) same effect
    ]

    -- On a trie under the invariant, with an unused address from the allocator, for a key of fewer
    -- than 65535 bytes that does not end at the end of a link with a stem and no value,
    -- `insert_impl` from the root returns: the trie is under the invariant, the iterator is at the
    -- key, `exists` is true exactly when the key was stored, the keys and values are those of
    -- before and, if the key was not stored, the new one, the count grows by one for a new key, and
    -- no other address than the one from the allocator comes into use.
    pub insert_impl_lem :
        (k : ℕ) (rest : List ℕ) (v : V)
        → AllBytes (k ∷ rest)
        → length (k ∷ rest) < 0xFFFF
        → ¬ EndsAtBranch t (k ∷ rest)
        → (r : Insertion V) × (insert_impl blank allocate t end_iterator (k ∷ rest) v ≡ some r)
          × Effect (allocate t) t (k ∷ rest) v r
    insert_impl_lem k rest v bytes limit inner = elim (effect_of k rest v bytes limit) [
      | inl (_, at_branch) ↦ absurd (inner at_branch)
      | inr done ↦ done
    ]
