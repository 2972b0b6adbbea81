-- ===== src/Trie/Tree/Written.antt =====
-- What `insert`, `set_value`, `set_child` and `move_from_entry` make of the links and items of a
-- node.
use mathlib.Core.Option
use op_magic_trie.Prelude.{
  ℕ, ◌<◌, ◌≡◌, refl, sym, ap, ◌∙◌, inl, inr, true, false, Option, none, some, List, [], ◌∷◌, length,
  arith, Bool-cases, ltb, ◌==◌, ==_iff, if◌then◌else◌,
}
use op_magic_trie.Trie.Node.{Node, NodeData, has_child, has_value, kv_get, presence, insert, fresh}
use op_magic_trie.Trie.Node.Scan.{is_some}
use op_magic_trie.Trie.Node.Copy.{presence_marks, kv_get_unmarked}
use op_magic_trie.Trie.Node.Insert.{insert-Gains}
use op_magic_trie.Trie.Node.Entries.{set_child, set_value}
use op_magic_trie.Trie.Node.Update.{Changes, set_child-Changes, get_value-set_value}
use op_magic_trie.Trie.Node.Split.{stem_of}
use op_magic_trie.Trie.Shape.{stemmed}
use op_magic_trie.Trie.Tree.{stem_chars}
use op_magic_trie.Trie.Tree.View.{
  AllBytes, link_of, item_of, node_link, node_item, node_link_inside, node_item_inside, IsGood,
}
use op_magic_trie.Trie.Tree.Updated.{updated_link, updated_item, updated-IsGood}

-- A write of what is there.
pub same_if {ℓ} :
    {A : Type ℓ} (f : ℕ → A) (key j : ℕ) (y : A) → f key ≡ y → (if j == key then y else f j) ≡ f j
same_if f key j y e = elim (Bool-cases (j == key)) [
  | inl same ↦ rw same (sym e ∙ ap f (sym ((==_iff j key).0 same)))
  | inr apart ↦ rw apart refl
]

-- `m` is `n` with the value `x` behind the byte `key` and the stem `s`, where no value was.
pub record Valued {V : Type 0} (n m : Node V) (key : ℕ) (s : List ℕ) (x : V) : Type 0 where
  pub good : IsGood m
  pub link : (j : ℕ) → node_link m j ≡ node_link n j
  pub absent : node_item n key ≡ none
  pub item : (j : ℕ) → node_item m j ≡ (if j == key then some (s, x) else node_item n j)

-- `m` is `n` with the link to `c` behind the byte `key` and the stem `s`.
pub record Hung {V : Type 0} (n m : Node V) (key : ℕ) (s : List ℕ) (c : ℕ) : Type 0 where
  pub good : IsGood m
  pub link : (j : ℕ) → node_link m j ≡ (if j == key then some (s, c) else node_link n j)
  pub item : (j : ℕ) → node_item m j ≡ node_item n j

fresh-stem : {V : Type 0} (s : List ℕ) (x : V) → stem_chars (fresh s x).stem ≡ s
unfolding fresh
fresh-stem [] x = refl
fresh-stem (b ∷ s) x = refl

fresh-child : {V : Type 0} (s : List ℕ) (x : V) → (fresh s x).child ≡ none
unfolding fresh
fresh-child [] x = refl
fresh-child (b ∷ s) x = refl

fresh-value : {V : Type 0} (s : List ℕ) (x : V) → (fresh s x).value ≡ x
unfolding fresh
fresh-value [] x = refl
fresh-value (b ∷ s) x = refl

fresh-proper :
    {V : Type 0} (s : List ℕ) (x : V) → (fresh s x).stem ≡ stem_of (stem_chars (fresh s x).stem)
unfolding fresh stem_of
fresh-proper [] x = refl
fresh-proper (b ∷ s) x = refl

module _ {V : Type 0} (n : Node V) (g : IsGood n) (key : ℕ) (small : key < 256) where
  node_link_at : (o : Option (NodeData V)) → kv_get n key ≡ o → node_link n key ≡ link_of o
  node_link_at o e =
      let inside : ltb key 256 ≡ true = ground arith in node_link_inside n key inside ∙ ap link_of e

  node_item_bare : has_value n key ≡ false → node_item n key ≡ none
  node_item_bare bare =
      let inside : ltb key 256 ≡ true = ground arith in node_item_inside n key inside ∙ rw bare refl

  pub insert-Valued :
      (blank : NodeData V) (s : List ℕ) (x : V)
      → presence n key ≡ false
      → AllBytes s
      → length s < 0xFFFE
      → (m : Node V) × (insert blank n key s x ≡ some m) × Valued n m key s x
  insert-Valued blank s x unmarked bytes short =
      let (m, run, gain) = insert-Gains blank n key s x g.node small unmarked short in
      let marks = presence_marks n key in
      let bare : has_value n key ≡ false = ground (arith, marks, unmarked) in
      let leaf : has_child n key ≡ false = ground (arith, marks, unmarked) in
      let d = fresh s x in
      let values : (j : ℕ) → has_value m j ≡ (if j == key then true else has_value n j) =
        λ j. ground (arith, gain.values j) in
      let children : (j : ℕ)
          → has_child m j ≡ (if j == key then is_some d.child else has_child n j) =
        λ j.
          gain.children j
          ∙ sym (
              (λ i. if j == key then is_some (fresh-child s x i) else has_child n j)
              ∙ same_if (has_child n) key j false leaf) in
      let empty = kv_get_unmarked n g.node key small unmarked in
      let link = updated_link n m key small d true gain.reads values children in
      let item = updated_item n m key small d true gain.reads values children in
      (
        m,
        run,
        record {
          good =
              updated-IsGood n m key small d true gain.reads values children gain.node g
                (rw (fresh-stem s x) (bytes, short)) (fresh-proper s x);
          link = λ j.
              link j
              ∙ (λ i.
                  if j == key
                  then stemmed (stem_chars d.stem) (fresh-child s x i)
                  else node_link n j)
              ∙ same_if (node_link n) key j none (node_link_at none empty);
          absent = node_item_bare bare;
          item = λ j. item j ∙ (λ i.
              if j == key then some (fresh-stem s x i, fresh-value s x i) else node_item n j);
        },
      )

  module _ (e : NodeData V) (here : kv_get n key ≡ some e) where
    abbrev stem : List ℕ
    stem = stem_chars e.stem

    pub entry_link : node_link n key ≡ stemmed stem e.child
    entry_link = node_link_at (some e) here

    pub entry_item : node_item n key ≡ (if has_value n key then some (stem, e.value) else none)
    entry_item =
        let inside : ltb key 256 ≡ true = ground arith in
        node_item_inside n key inside ∙ ap (λ o. if has_value n key then item_of o else none) here

    -- What a change of the entry leaves to read.
    pub changed :
        (m : Node V) (f : NodeData V → NodeData V)
        → Changes n g.node key small m f
        → (j : ℕ) → j < 256
        → kv_get m j ≡ (if j == key then some (f e) else kv_get n j)
    changed m f c j l =
        c.reads j l
        ∙ (λ i. if j == key then Option.map f (here i) else kv_get n j)
        ∙ unfold Option.map in refl

    pub set_value-Valued :
        (x : V)
        → has_value n key ≡ false
        → (m : Node V) × (set_value n key x ≡ some m) × Valued n m key stem x
    set_value-Valued x bare =
        let (m, run, change, _, gains, keeps) = get_value-set_value n g.node key small e here x in
        let d = record e { value = x } in
        let reads = changed m (λ y. record y { value = x }) change in
        let values : (j : ℕ) → has_value m j ≡ (if j == key then true else has_value n j) =
          λ j. ground (arith, gains j) in
        let children : (j : ℕ)
            → has_child m j ≡ (if j == key then is_some d.child else has_child n j) =
          λ j.
            keeps j
            ∙ sym (same_if (has_child n) key j (is_some e.child) (g.linked key e small here)) in
        (
          m,
          run,
          record {
            good =
                updated-IsGood n m key small d true reads values children change.node g
                  (g.bytes key e small here) (g.proper key e small here);
            link = λ j.
                updated_link n m key small d true reads values children j
                ∙ same_if (node_link n) key j (stemmed stem e.child) entry_link;
            absent = node_item_bare bare;
            item = updated_item n m key small d true reads values children;
          },
        )

    pub set_child-Hung :
        (c : ℕ)
        → has_child n key ≡ false
        → (m : Node V) × (set_child n key c ≡ some m) × Hung n m key stem c
    set_child-Hung c leaf =
        let (m, run, change, gains, keeps) = set_child-Changes n g.node key small e here c leaf in
        let d = record e { child = some c } in
        let reads = changed m (λ y. record y { child = some c }) change in
        let values : (j : ℕ)
            → has_value m j ≡ (if j == key then has_value n key else has_value n j) =
          λ j. keeps j ∙ sym (same_if (has_value n) key j (has_value n key) refl) in
        let children : (j : ℕ) → has_child m j ≡ (if j == key then true else has_child n j) =
          λ j. ground (arith, gains j) in
        (
          m,
          run,
          record {
            good =
                updated-IsGood n m key small d (has_value n key) reads values children change.node g
                  (g.bytes key e small here) (g.proper key e small here);
            link = updated_link n m key small d (has_value n key) reads values children;
            item = λ j.
                updated_item n m key small d (has_value n key) reads values children j
                ∙ same_if (node_item n) key j
                    (if has_value n key then some (stem, e.value) else none) entry_item;
          },
        )
