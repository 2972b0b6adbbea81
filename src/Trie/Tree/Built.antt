-- ===== src/Trie/Tree/Built.antt =====
-- A trie made by `create_new` and any sequence of `insert`s, against the list of its entries.
use Prim.Native.Nat.{◌^◌}
use mathlib.Core.Path.{subst}
use op_magic_trie.Prelude.{
  ℕ, suc, ◌%◌, ◌≡◌, ◌≢◌, ◌↔◌, ◌<◌, refl, sym, ap, ◌∙◌, ◌⊎◌, inl, inr, Bool, true, false, not, ◌&&◌,
  Option, none, some, bind_some, bind_none, List, [], ◌∷◌, length, arith, Bool-cases, Option-cases,
  ◌==◌, ==_refl, ==_iff, if◌then◌else◌,
}
use op_magic_trie.Trie.Node.{Node, NodeData}
use op_magic_trie.Trie.Node.Create.{create_interior}
use op_magic_trie.Trie.Iterator.{TrieIterator, end_iterator}
use op_magic_trie.Trie.Tree.{
  Trie, Insertion, next_u64, init_node_size, new_node, insert_impl, insert_key, create_new,
}
use op_magic_trie.Trie.Tree.View.{
  AllBytes, Stored, links, items, links_at, items_at, node_link, node_item, IsGood, IsTrie,
}
use op_magic_trie.Trie.Tree.Place.{init_node_size-IsCapacity}
use op_magic_trie.Trie.Tree.Divided.{Bare, create_interior-Bare}
use op_magic_trie.Trie.Tree.Inserts.{insert_impl-Effect}

same_key : List ℕ → List ℕ → Bool
same_key [] [] = true
same_key [] (b ∷ q) = false
same_key (a ∷ p) [] = false
same_key (a ∷ p) (b ∷ q) = a == b && same_key p q

same_key_iff : (p q : List ℕ) → (same_key p q ≡ true) ↔ (p ≡ q)
unfolding same_key
same_key_iff [] [] = (λ _. refl, λ _. refl)
same_key_iff [] (b ∷ q) = (λ e. absurd (ground (arith, e)), λ e. absurd (cc e))
same_key_iff (a ∷ p) [] = (λ e. absurd (ground (arith, e)), λ e. absurd (cc e))
same_key_iff (a ∷ p) (b ∷ q) = (
  λ e.
      let tails = (same_key_iff p q).0 (ground (arith, e)) in
      let heads = (==_iff a b).0 (ground (arith, e)) in (λ i. heads i ∷ tails i),
  λ e.
      let heads : a ≡ b = cc e in
      let tails : p ≡ q = cc e in ground (arith, (==_iff a b).1 heads, (same_key_iff p q).1 tails),
)

-- The value of the first entry with the key.
pub lookup : {V : Type 0} → List (List ℕ × V) → List ℕ → Option V
unfolding same_key
lookup [] q = none
lookup ((p, v) ∷ es) q = if same_key q p then some v else lookup es q

-- The trie is under the invariant, its keys and values are those of the list, and it counts them.
abbrev pub Agrees : {V : Type 0} → Trie V → List (List ℕ × V) → Type 0
Agrees {V} t es =
    IsTrie t
    × ((q : List ℕ) (v : V) → Stored t q v ↔ (lookup es q ≡ some v))
    × (t.count ≡ length es % 2 ^ 64)

module _ {V : Type 0} (blank : NodeData V) (allocate : Trie V → ℕ) where
  abbrev root_node : Node V
  root_node = create_interior blank (init_node_size 0)

  bare : Bare root_node
  bare = create_interior-Bare blank (init_node_size 0) (init_node_size-IsCapacity 0)

  root_nodes :
      (b : ℕ)
      → (create_new blank allocate).nodes b
        ≡ (if b == (create_new blank allocate).root then some root_node else none)
  unfolding create_new new_node
  root_nodes b = refl

  only_root : (b : ℕ) (n : Node V) → (create_new blank allocate).nodes b ≡ some n → n ≡ root_node
  only_root b n e = elim (Bool-cases (b == (create_new blank allocate).root)) [
    | inl same ↦ let got : some n ≡ some root_node = sym e ∙ root_nodes b ∙ rw same refl in cc got
    | inr apart ↦
        let got : some n ≡ none = sym e ∙ root_nodes b ∙ rw apart refl in
        absurd (ground (arith, got))
  ]

  pub create_new-links : (b j : ℕ) → links (create_new blank allocate) b j ≡ none
  create_new-links b j = elim (Option-cases ((create_new blank allocate).nodes b)) [
    | inl e ↦ ap (λ o. links_at o j) e
    | inr (n, e) ↦
        ap (λ o. links_at o j) e ∙ ap (λ m. node_link m j) (only_root b n e) ∙ bare.link j
  ]

  no_items : (b j : ℕ) → items (create_new blank allocate) b j ≡ none
  no_items b j = elim (Option-cases ((create_new blank allocate).nodes b)) [
    | inl e ↦ ap (λ o. items_at o j) e
    | inr (n, e) ↦
        ap (λ o. items_at o j) e ∙ ap (λ m. node_item m j) (only_root b n e) ∙ bare.item j
  ]

  pub create_new-IsTrie : IsTrie (create_new blank allocate)
  create_new-IsTrie = record {
    good = λ b n e. subst IsGood (sym (only_root b n e)) bare.good;
    rooted = (
      root_node,
      root_nodes (create_new blank allocate).root
          ∙ rw (==_refl (create_new blank allocate).root) refl,
    );
    closed = λ b k c s e. absurd (ground (arith, create_new-links b k, e));
    forest = record {
      single = λ b c k j d s r e _. absurd (ground (arith, create_new-links b k, e));
      top = λ b k s e. absurd (ground (arith, create_new-links b k, e));
    };
  }

  pub create_new-Stored : (q : List ℕ) (v : V) → ¬ Stored (create_new blank allocate) q v
  unfolding Stored
  create_new-Stored q v h = ground (arith, no_items h.address h.byte, h.stored)

  -- The entries of a trie after a sequence of insertions, of which those of present keys have no
  -- effect.
  pub data Built : Trie V → List (List ℕ × V) → Type 0 where
    created : Built (create_new blank allocate) []
    inserted :
        {u : Trie V} (t : Trie V) (es : List (List ℕ × V)) (k : ℕ) (rest : List ℕ) (v : V)
        (it : TrieIterator) (new : Bool)
        → Built t es
        → t.nodes (allocate t) ≡ none
        → AllBytes (k ∷ rest)
        → length (k ∷ rest) < 0xFFFF
        → insert_key blank allocate t (k ∷ rest) v ≡ some (u, it, new)
        → Built u (if new then (k ∷ rest, v) ∷ es else es)

  -- `insert` returns what `insert_impl` does.
  insert_key_same :
      (t u : Trie V) (k : ℕ) (rest : List ℕ) (v : V) (it : TrieIterator) (new : Bool)
      → insert_key blank allocate t (k ∷ rest) v ≡ some (u, it, new)
      → (r : Insertion V) × (insert_impl blank allocate t end_iterator (k ∷ rest) v ≡ some r)
        × (r.trie ≡ u)
        × (not r.exists ≡ new)
  unfolding insert_key
  insert_key_same t u k rest v it new out =
      elim (Option-cases (insert_impl blank allocate t end_iterator (k ∷ rest) v)) [
        | inl fails ↦ absurd (ground (arith, sym (bind_none _ fails) ∙ out))
        | inr (r, run) ↦
            let both : some (r.trie, r.iter, not r.exists) ≡ some (u, it, new) =
              sym (bind_some _ run refl) ∙ out in
            (r, run, cc both, cc both)
      ]

  count_step : (c n : ℕ) → c ≡ n % 2 ^ 64 → next_u64 c ≡ suc n % 2 ^ 64
  count_step c n e = omega (arith, e)

  lookup_other :
      (es : List (List ℕ × V)) (p q : List ℕ) (v : V) → q ≢ p → lookup ((p, v) ∷ es) q ≡ lookup es q
  unfolding lookup
  lookup_other es p q v ne = elim (Bool-cases (same_key q p)) [
    | inl e ↦ absurd (ne ((same_key_iff q p).0 e))
    | inr e ↦ rw e refl
  ]

  lookup_same : (es : List (List ℕ × V)) (p : List ℕ) (v : V) → lookup ((p, v) ∷ es) p ≡ some v
  unfolding lookup
  lookup_same es p v = rw ((same_key_iff p p).1 refl) refl

  -- A present key changes nothing.
  Agrees-kept :
      (t u : Trie V) (es : List (List ℕ × V)) (p : List ℕ) (v : V)
      → Agrees t es
      → IsTrie u
      → ((q : List ℕ) (x : V)
          → Stored u q x ↔ (Stored t q x ⊎ ((true ≡ false) × (q ≡ p) × (x ≡ v))))
      → u.count ≡ t.count
      → Agrees u es
  Agrees-kept t u es p v (w, keys, count) wu now same = (
    wu,
    λ q x. (
      λ h. elim ((now q x).0 h) [
        | inl old ↦ (keys q x).0 old
        | inr (no_case, _, _) ↦ absurd (ground (arith, no_case))
      ],
      λ e. (now q x).1 (inl ((keys q x).1 e)),
    ),
    same ∙ count,
  )

  Agrees-added :
      (t u : Trie V) (es : List (List ℕ × V)) (p : List ℕ) (v : V)
      → Agrees t es
      → IsTrie u
      → ((x : V) → ¬ Stored t p x)
      → ((q : List ℕ) (x : V)
          → Stored u q x ↔ (Stored t q x ⊎ ((false ≡ false) × (q ≡ p) × (x ≡ v))))
      → u.count ≡ next_u64 t.count
      → Agrees u ((p, v) ∷ es)
  Agrees-added t u es p v (w, keys, count) wu absent now more = (
    wu,
    λ q x. (
      λ h. elim ((now q x).0 h) [
        | inl old ↦
            let apart : q ≢ p = λ e. absent x (subst (λ z. Stored t z x) e old) in
            lookup_other es p q v apart ∙ (keys q x).0 old
        | inr (_, eq, ex) ↦ ap (lookup ((p, v) ∷ es)) eq ∙ lookup_same es p v ∙ ap some (sym ex)
      ],
      λ e. elim (Bool-cases (same_key q p)) [
        | inl same ↦
            let eq = (same_key_iff q p).0 same in
            let got : some v ≡ some x =
              sym (ap (lookup ((p, v) ∷ es)) eq ∙ lookup_same es p v) ∙ e in
            let ex : x ≡ v = cc got in (now q x).1 (inr (refl, eq, ex))
        | inr other ↦
            let apart : q ≢ p = λ d. ground (arith, other, (same_key_iff q p).1 d) in
            (now q x).1 (inl ((keys q x).1 (sym (lookup_other es p q v apart) ∙ e)))
      ],
    ),
    more ∙ count_step t.count (length es) count,
  )

  insert_key-Agrees :
      (t u : Trie V) (es : List (List ℕ × V)) (k : ℕ) (rest : List ℕ) (v : V) (it : TrieIterator)
      (new : Bool)
      → Agrees t es
      → t.nodes (allocate t) ≡ none
      → AllBytes (k ∷ rest)
      → length (k ∷ rest) < 0xFFFF
      → insert_key blank allocate t (k ∷ rest) v ≡ some (u, it, new)
      → Agrees u (if new then (k ∷ rest, v) ∷ es else es)
  insert_key-Agrees t u es k rest v it new before free bytes limit run =
      let (r, out, same, flag) = insert_key_same t u k rest v it new run in
      let (trie, _, exists, keys, count, _) =
        insert_impl-Effect t before.0 blank allocate free k rest v r bytes limit out in
      subst (λ y. Agrees y (if new then (k ∷ rest, v) ∷ es else es)) same
        (subst (λ b. Agrees r.trie (if b then (k ∷ rest, v) ∷ es else es)) flag
          (elim (Bool-cases r.exists) [
            | inl e ↦ rw e (
                Agrees-kept t r.trie es (k ∷ rest) v before trie
                  (subst
                    (λ b.
                      (q : List ℕ) (x : V)
                      → Stored r.trie q x
                        ↔ (Stored t q x ⊎ ((b ≡ false) × (q ≡ k ∷ rest) × (x ≡ v))))
                    e keys)
                  (count ∙ rw e refl))
            | inr e ↦ rw e (
                Agrees-added t r.trie es (k ∷ rest) v before trie
                  (λ x h. ground (arith, exists.1 (x, h), e))
                  (subst
                    (λ b.
                      (q : List ℕ) (x : V)
                      → Stored r.trie q x
                        ↔ (Stored t q x ⊎ ((b ≡ false) × (q ≡ k ∷ rest) × (x ≡ v))))
                    e keys)
                  (count ∙ rw e refl))
          ]))

  create_new-Agrees : Agrees (create_new blank allocate) []
  unfolding lookup create_new new_node
  create_new-Agrees = (
    create_new-IsTrie,
    λ q v. (λ h. absurd (create_new-Stored q v h), λ e. absurd (ground (arith, e))),
    refl,
  )

  -- A trie made by `create_new` and a sequence of calls of `insert` that return, with keys of fewer
  -- than 65535 bytes and unused addresses from the allocator, agrees with the list of the entries
  -- that were new: it is under the invariant, it stores exactly the keys and values that the list
  -- has, and its count is the number of entries, modulo 2 to the power of 64.
  pub Built-Agrees : (t : Trie V) (es : List (List ℕ × V)) → Built t es → Agrees t es
  Built-Agrees t es created = create_new-Agrees
  Built-Agrees u es (inserted t es' k rest v it new before free bytes limit run) =
      insert_key-Agrees t u es' k rest v it new (Built-Agrees t es' before) free bytes limit run
