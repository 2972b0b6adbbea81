-- ===== src/Trie/Tree/Update/Updates.antt =====
-- `update_impl` at the key of an iterator.
use mathlib.Core.Path.{subst, transport}
use native.Mathlib.Decide.{ℕ_discrete}
use op_magic_trie.Prelude.{
  ℕ, ◌≡◌, ◌≢◌, ◌↔◌, refl, sym, ◌∙◌, ◌⊎◌, inl, inr, true, Option, some, bind_some, List, [], ◌∷◌,
  ◌++◌, arith,
}
use op_magic_trie.Trie.Node.{Node, has_value}
use op_magic_trie.Trie.Node.Entries.{set_value}
use op_magic_trie.Trie.Iterator.{TriePosition, TrieIterator, rat, top_address, top_key}
use op_magic_trie.Trie.Tree.{Trie, stem_chars, store_node}
use op_magic_trie.Trie.Tree.View.{AllBytes, Stored, IsTrie, items_entry}
use op_magic_trie.Trie.Tree.Gained.{IsTrie-gain}
use op_magic_trie.Trie.Tree.Descent.{iterator}
use op_magic_trie.Trie.Tree.Inserts.{Stored-unique}
use op_magic_trie.Trie.Tree.Navigate.{on_data}
use op_magic_trie.Trie.Tree.Navigate.Track.{Track, top, down, Track-Reach}
use op_magic_trie.Trie.Tree.Update.{Change, update_impl}
use op_magic_trie.Trie.Tree.Update.Replaced.{
  set_value-Replaced, Stored-before, Stored-new, Stored-after,
}

keys_cases : (p q : List ℕ) → (p ≡ q) ⊎ (p ≢ q)
keys_cases [] [] = inl refl
keys_cases [] (b ∷ q) = inr (λ e. cc e)
keys_cases (a ∷ p) [] = inr (λ e. cc e)
keys_cases (a ∷ p) (b ∷ q) = elim (ℕ_discrete a b) [
  | no other ↦ inr (λ e. other (cc e))
  | yes same ↦ elim (keys_cases p q) [
    | inl rest ↦ inl (cc (same, rest))
    | inr other ↦ inr (λ e. other (cc e))
  ]
]

AllBytes-join : (p q : List ℕ) → AllBytes p → AllBytes q → AllBytes (p ++ q)
AllBytes-join [] q h k = k
AllBytes-join (b ∷ p) q h k = (h.0, AllBytes-join p q h.1 k)

-- The key of a track is made of bytes.
Track-AllBytes :
    {V : Type 0} (t : Trie V)
    → IsTrie t
    → (ps : List TriePosition) (c : Option ℕ) (w : List ℕ) → Track t ps c w
    → AllBytes w
Track-AllBytes t w _ _ _ top = tt
Track-AllBytes t w _ _ _ (down {ps} {w = pre} {p} {a} {k} {n} {e} path at) =
    AllBytes-join pre (k ∷ stem_chars e.stem) (Track-AllBytes t w ps (some a) pre path)
      (at.small, ((w.good a n at.there).bytes k e at.small at.entry).0)

-- What `update_impl` leaves.
pub record Updated {V : Type 0} (t : Trie V) (key : List ℕ) (x : V) (c : Change V) : Type 0 where
  pub trie : IsTrie c.trie
  pub stored :
      (q : List ℕ) (v : V)
      → Stored c.trie q v ↔ ((Stored t q v × (q ≢ key)) ⊎ ((q ≡ key) × (v ≡ x)))
  pub count : c.trie.count ≡ t.count
  pub position : c.pos.prefix ≡ key
  pub one : c.updated ≡ 1

module _ {V : Type 0} (t : Trie V) (w : IsTrie t) (x : V) where
  update_steps :
      (it : TrieIterator) (a k : ℕ) (n m : Node V)
      → on_data it ≡ true
      → top_address it ≡ some a
      → top_key it ≡ some k
      → t.nodes a ≡ some n
      → set_value n k x ≡ some m
      → update_impl t it x
        ≡ some (record {
          trie = store_node t a m;
          pos = rat it (λ p. record p { version = m.version });
          updated = 1;
        })
  unfolding update_impl
  update_steps it a k n m there address key node written =
      rw there (bind_some _ address (bind_some _ key (bind_some _ node (bind_some _ written refl))))

  Track-Updated :
      (ps : List TriePosition) (c : Option ℕ) (pre : List ℕ)
      → Track t ps c pre
      → on_data (iterator ps pre) ≡ true
      → (u : Change V) × (update_impl t (iterator ps pre) x ≡ some u) × Updated t pre x u
  Track-Updated _ _ _ top there = absurd (ground (arith, there))
  Track-Updated _ _ _ (down {ps} {w = pre} {p} {a} {k} {n} {e} path at) there =
      let stem = stem_chars e.stem in
      let key = pre ++ k ∷ stem in
      let valued : has_value n k ≡ true = sym at.valued ∙ there in
      let (m, run, r) = set_value-Replaced n (w.good a n at.there) k at.small e at.entry x in
      let u = store_node t a m in
      let trie : IsTrie u = IsTrie-gain t u w a n m at.there (λ b. refl) refl r.good r.link in
      let reach = Track-Reach t ps (some a) pre path a refl in
      let bytes = Track-AllBytes t w (p ∷ ps) e.child key (down path at) in
      let new = Stored-new t u w a n m at.there (λ b. refl) refl k stem x r pre reach in
      let before = Stored-before t u w a n m at.there (λ b. refl) refl k stem x r pre reach in
      let after =
        Stored-after t u w a n m at.there (λ b. refl) refl k stem x r pre reach e.value
          (items_entry t a n at.there k at.small e at.entry valued) in
      (
        _,
        update_steps (iterator (p ∷ ps) key) a k n m there at.address at.key at.there run,
        record {
          trie = trie;
          stored = λ q v. (
            λ h. elim (keys_cases q key) [
              | inl same ↦
                  let at_key = subst (λ z. Stored u z v) same h in
                  inr (same, sym (Stored-unique u trie key x v bytes new at_key))
              | inr other ↦ elim (before q v h) [
                | inl (same, _) ↦ absurd (other same)
                | inr held ↦ inl (held, other)
              ]
            ],
            λ h. elim h [
              | inl (held, other) ↦ after q v held other
              | inr (same, value) ↦ transport (λ i. Stored u (sym same i) (sym value i)) new
            ],
          );
          count = refl;
          position = refl;
          one = refl;
        },
      )

  -- On a trie under the invariant, for an iterator at a value whose positions lead from the root
  -- along its prefix, `update_impl` returns one, a trie under the invariant in which the prefix is
  -- stored with the new value and all other keys and values are those of before, with the same
  -- count, and the iterator at the same key.
  pub update_impl-Updated :
      (it : TrieIterator) (c : Option ℕ)
      → Track t it.position_stack c it.prefix
      → on_data it ≡ true
      → (u : Change V) × (update_impl t it x ≡ some u) × Updated t it.prefix x u
  update_impl-Updated it c track there = Track-Updated it.position_stack c it.prefix track there
