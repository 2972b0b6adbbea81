-- ===== src/Trie/Tree/Update/Upserts.antt =====
-- `upsert` of a key.
use mathlib.Core.Path.{subst}
use op_magic_trie.Prelude.{
  ℕ, ◌≡◌, ◌≢◌, ◌↔◌, refl, ◌∙◌, ◌⊎◌, inl, inr, true, false, none, some, bind_some, List, [], ◌∷◌,
  length, ◌<◌, arith, if◌then◌else◌,
}
use op_magic_trie.Trie.Node.{NodeData}
use op_magic_trie.Trie.Iterator.{TrieIterator, equals, end_iterator}
use op_magic_trie.Trie.Tree.{Trie, Insertion, next_u64, insert_impl, place}
use op_magic_trie.Trie.Tree.View.{AllBytes, Stored, IsTrie}
use op_magic_trie.Trie.Tree.Ways.{
  EndsAtBranch, present, added, faults, insert_impl-place, insert_impl-Outcome,
}
use op_magic_trie.Trie.Tree.Inserts.{value_of-common_prefix}
use op_magic_trie.Trie.Tree.Navigate.Tracked.{common_prefix-OnTrack}
use op_magic_trie.Trie.Tree.Update.{Change, Upsertion, update_impl, upsert}
use op_magic_trie.Trie.Tree.Update.Updates.{update_impl-Updated}

-- What `upsert` leaves: the key has the value.
pub record Upserted {V : Type 0} (t : Trie V) (key : List ℕ) (x : V) (u : Upsertion V)
    : Type 0 where
  pub trie : IsTrie u.trie
  pub stored :
      (q : List ℕ) (v : V)
      → Stored u.trie q v ↔ ((Stored t q v × (q ≢ key)) ⊎ ((q ≡ key) × (v ≡ x)))
  pub new : (u.inserted ≡ false) ↔ ((v : V) × Stored t key v)
  pub count : u.trie.count ≡ (if u.inserted then next_u64 t.count else t.count)
  pub position : u.iter.prefix ≡ key

module _ {V : Type 0} (t : Trie V) (w : IsTrie t) (blank : NodeData V) (allocate : Trie V → ℕ)
    (free : t.nodes (allocate t) ≡ none) (k : ℕ) (rest : List ℕ) (x : V) where
  abbrev key : List ℕ
  key = k ∷ rest

  upsert_new :
      (r : Insertion V)
      → insert_impl blank allocate t end_iterator key x ≡ some r
      → r.exists ≡ false
      → upsert blank allocate t key x
        ≡ some (record { trie = r.trie; iter = r.iter; inserted = true })
  unfolding upsert
  upsert_new r out new = bind_some _ out (rw new refl)

  upsert_old :
      (it : TrieIterator) (c : Change V)
      → insert_impl blank allocate t end_iterator key x
        ≡ some (record { trie = t; iter = it; exists = true })
      → update_impl t it x ≡ some c
      → upsert blank allocate t key x
        ≡ some (record { trie = c.trie; iter = c.pos; inserted = false })
  unfolding upsert
  upsert_old it c out run = bind_some _ out (bind_some _ run refl)

  overwrites :
      (v : V)
      → AllBytes key
      → Stored t key v
      → (u : Upsertion V) × (upsert blank allocate t key x ≡ some u) × Upserted t key x u
  unfolding place
  overwrites v bytes held =
      let (it, _, _, out, spells, _, _) = value_of-common_prefix t w key v bytes held in
      let (there, c, track) = common_prefix-OnTrack t w k rest bytes it out in
      let inserted = insert_impl-place blank allocate t w free k rest x equals it [] out in
      let (u, run, done) = update_impl-Updated t w x it c track there in
      (
        _,
        upsert_old it u inserted run,
        record {
          trie = done.trie;
          stored =
              subst
                (λ z.
                  (q : List ℕ) (y : V)
                  → Stored u.trie q y ↔ ((Stored t q y × (q ≢ z)) ⊎ ((q ≡ z) × (y ≡ x))))
                spells done.stored;
          new = (λ _. (v, held), λ _. refl);
          count = done.count;
          position = done.position ∙ spells;
        },
      )

  -- On a trie under the invariant, with an unused address from the allocator, for a key of fewer
  -- than 65535 bytes that does not end at the end of a link with a stem and no value, `upsert`
  -- returns: the trie is under the invariant and stores the key with the new value, and all other
  -- keys and values as before; the flag is false exactly when the key was stored; the count grows
  -- by one for a new key; and the iterator is at the key.
  pub upsert-Upserted :
      AllBytes (k ∷ rest)
      → length (k ∷ rest) < 0xFFFF
      → ¬ EndsAtBranch t (k ∷ rest)
      → (u : Upsertion V) × (upsert blank allocate t (k ∷ rest) x ≡ some u)
        × Upserted t (k ∷ rest) x u
  upsert-Upserted bytes limit inner =
      elim (insert_impl-Outcome blank allocate t w free k rest x bytes limit) [
        | faults _ at_branch ↦ absurd (inner at_branch)
        | present _ _ _ _ _ stored ↦ overwrites stored.0 bytes stored.1
        | added r out done absent ↦ (
          _,
          upsert_new r out done.new,
          record {
            trie = done.trie;
            stored = λ q v. (
              λ h. elim ((done.keys q v).0 h) [
                | inl old ↦ inl (old, λ same. absent v (subst (λ z. Stored t z v) same old))
                | inr new ↦ inr new
              ],
              λ h. (done.keys q v).1 (elim h [ inl old ↦ inl old.0 | inr new ↦ inr new ]),
            );
            new = (λ e. absurd (ground (arith, e)), λ h. absurd (absent h.0 h.1));
            count = done.terminals;
            position = done.position;
          },
        )
      ]
