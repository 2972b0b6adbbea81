-- ===== src/Trie/Tree/Update/Replaced.antt =====
-- A node, and the trie around it, in which a value is replaced.
use mathlib.Core.Path.{subst, transport}
use op_magic_trie.Prelude.{
  ℕ, ◌<◌, ◌≡◌, ◌≢◌, refl, sym, ap, ◌∙◌, ◌⊎◌, inl, inr, true, some, List, ◌∷◌, ◌++◌, arith, ◌==◌,
  ==_refl, if◌then◌else◌,
}
use op_magic_trie.Trie.Node.{Node, NodeData, has_child, has_value, kv_get}
use op_magic_trie.Trie.Node.Scan.{is_some}
use op_magic_trie.Trie.Node.Entries.{set_value}
use op_magic_trie.Trie.Node.Update.{get_value-set_value}
use op_magic_trie.Trie.Shape.{
  Reach, Reach-unique, Holds, at_entry, at_entry_cases, at_entry_self, stemmed,
}
use op_magic_trie.Trie.Tree.{Trie, stem_chars}
use op_magic_trie.Trie.Tree.View.{
  Stored, links, items, items_at, node_link, node_item, IsGood, IsTrie,
}
use op_magic_trie.Trie.Tree.Gained.{links_same, stored_node}
use op_magic_trie.Trie.Tree.Updated.{updated_link, updated_item, updated-IsGood}
use op_magic_trie.Trie.Tree.Written.{same_if, changed, entry_link}

-- `m` is `n` with the value `x` at the byte, where a value was.
pub record Replaced {V : Type 0} (n m : Node V) (key : ℕ) (s : List ℕ) (x : V) : Type 0 where
  pub good : IsGood m
  pub link : (j : ℕ) → node_link m j ≡ node_link n j
  pub item : (j : ℕ) → node_item m j ≡ (if j == key then some (s, x) else node_item n j)

module _ {V : Type 0} (n : Node V) (g : IsGood n) (key : ℕ) (small : key < 256) (e : NodeData V)
    (here : kv_get n key ≡ some e) where
  abbrev stem : List ℕ
  stem = stem_chars e.stem

  pub set_value-Replaced :
      (x : V) → (m : Node V) × (set_value n key x ≡ some m) × Replaced n m key stem x
  set_value-Replaced x =
      let (m, run, change, _, gains, keeps) = get_value-set_value n g.node key small e here x in
      let d = record e { value = x } in
      let reads = changed n g key small e here m (λ y. record y { value = x }) change in
      let values : (j : ℕ) → has_value m j ≡ (if j == key then true else has_value n j) =
        λ j. ground (arith, gains j) in
      let children : (j : ℕ)
          → has_child m j ≡ (if j == key then is_some d.child else has_child n j) =
        λ j.
          keeps j
          ∙ sym (same_if (has_child n) key j (is_some e.child) (g.linked key e small here)) in
      (
        m,
        run,
        record {
          good =
              updated-IsGood n m key small d true reads values children change.node g
                (g.bytes key e small here) (g.proper key e small here);
          link = λ j.
              updated_link n m key small d true reads values children j
              ∙ same_if (node_link n) key j (stemmed stem e.child)
                  (entry_link n g key small e here);
          item = updated_item n m key small d true reads values children;
        },
      )

module _ {V : Type 0} (t t' : Trie V) (w : IsTrie t) (a : ℕ) (n m : Node V)
    (there : t.nodes a ≡ some n)
    (nodes' : (b : ℕ) → t'.nodes b ≡ (if b == a then some m else t.nodes b))
    (root' : t'.root ≡ t.root) (k : ℕ) (s : List ℕ) (x : V) (r : Replaced n m k s x) where
  links_path : links t' ≡ links t
  links_path = λ i b j. links_same t t' w a n m there nodes' root' r.good r.link b j i

  items_replaced :
      (b j : ℕ) → items t' b j ≡ (if at_entry a k b j then some (s, x) else items t b j)
  items_replaced b j = elim (stored_node t t' w a n m there nodes' root' r.good r.link b) [
    | inl (same, e) ↦
        let before : items t b j ≡ node_item n j =
          ap (λ o. items_at o j) (ap t.nodes same ∙ there) in
        let at_a : (b == a) ≡ true = rw same (==_refl a) in
        ap (λ o. items_at o j) e ∙ r.item j ∙ rw (at_a, before) refl
    | inr (apart, e) ↦ ap (λ o. items_at o j) e ∙ rw apart refl
  ]

  as_held : (q : List ℕ) (v : V) → Stored t' q v ≡ Holds (links t) (items t') t.root q v
  unfolding Stored
  as_held q v = λ i. Holds (links_path i) (items t') (root' i) q v

  module _ (p : List ℕ) (reach : Reach (links t) t.root p a) where
    -- An entry that is reached there spells the key.
    at_key :
        (h_path : List ℕ) (b j : ℕ) (z : List ℕ)
        → Reach (links t) t.root h_path b
        → b ≡ a
        → j ≡ k
        → z ≡ s
        → h_path ++ j ∷ z ≡ p ++ k ∷ s
    at_key h_path b j z reached eb ej ez =
        let paths =
          Reach-unique (links t) t.root w.forest a h_path p
            (subst (Reach (links t) t.root h_path) eb reached) reach in
        λ i. paths i ++ ej i ∷ ez i

    -- What is stored was stored, or is the new value.
    pub Stored-before :
        (q : List ℕ) (v : V) → Stored t' q v → ((q ≡ p ++ k ∷ s) × (v ≡ x)) ⊎ Stored t q v
    unfolding Stored
    Stored-before q v held =
        let h = transport (λ i. as_held q v i) held in
        elim (at_entry_cases a k h.address h.byte) [
          | inl (ea, ek, e) ↦
              let got : some (s, x) ≡ some (h.stem, v) =
                sym (items_replaced h.address h.byte ∙ rw e refl) ∙ h.stored in
              let stems : h.stem ≡ s = cc got in
              inl (h.spells ∙ at_key h.path h.address h.byte h.stem h.reach ea ek stems, cc got)
          | inr e ↦ inr (record {
            path = h.path;
            address = h.address;
            byte = h.byte;
            stem = h.stem;
            reach = h.reach;
            stored = sym (items_replaced h.address h.byte ∙ rw e refl) ∙ h.stored;
            spells = h.spells;
          })
        ]

    pub Stored-new : Stored t' (p ++ k ∷ s) x
    unfolding Stored
    Stored-new =
        transport (λ i. sym (as_held (p ++ k ∷ s) x) i)
          (record {
            path = p;
            address = a;
            byte = k;
            stem = s;
            reach = reach;
            stored = items_replaced a k ∙ rw (at_entry_self a k) refl;
            spells = refl;
          })

    -- A key that was stored still is, but for its value.
    pub Stored-after :
        (old : V)
        → items t a k ≡ some (s, old)
        → (q : List ℕ) (v : V) → Stored t q v
        → q ≢ p ++ k ∷ s
        → Stored t' q v
    unfolding Stored
    Stored-after old stored q v h other =
        transport (λ i. sym (as_held q v) i)
          (record {
            path = h.path;
            address = h.address;
            byte = h.byte;
            stem = h.stem;
            reach = h.reach;
            stored = items_replaced h.address h.byte ∙ elim (at_entry_cases a k h.address h.byte) [
              | inl (ea, ek, e) ↦
                  let got : some (s, old) ≡ some (h.stem, v) =
                    sym stored ∙ (λ i. items t (sym ea i) (sym ek i)) ∙ h.stored in
                  let stems : h.stem ≡ s = cc got in
                  absurd
                    (other (h.spells ∙ at_key h.path h.address h.byte h.stem h.reach ea ek stems))
              | inr e ↦ rw e h.stored
            ];
            spells = h.spells;
          })
