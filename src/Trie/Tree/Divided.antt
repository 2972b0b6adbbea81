-- ===== src/Trie/Tree/Divided.antt =====
-- What `create_interior` and `move_from_entry` make of the links and items of two nodes.
use mathlib.Core.Path.{subst}
use op_magic_trie.Prelude.{
  length-append, ℕ, ◌<◌, ◌≡◌, refl, sym, ap, ◌∙◌, ◌⊎◌, inl, inr, Bool, true, false, Option, none,
  some, List, [], ◌∷◌, ◌++◌, take-append, drop-append, length, arith, Bool-cases, ltb, ◌==◌,
  ==_refl, if◌then◌else◌,
}
use op_magic_trie.Trie.HashTable.Ring.{IsCapacity}
use op_magic_trie.Trie.Node.{Node, NodeData, has_child, has_value, kv_get, presence}
use op_magic_trie.Trie.Node.Scan.{is_some}
use op_magic_trie.Trie.Node.Copy.{presence_marks}
use op_magic_trie.Trie.Node.Create.{
  create_interior, create_interior-IsNode, create_interior-unmarked,
}
use op_magic_trie.Trie.Node.Split.{stem_of, target_data, move_from_entry}
use op_magic_trie.Trie.Node.Moved.{Splits, move_from_entry-Splits}
use op_magic_trie.Trie.Shape.{stemmed}
use op_magic_trie.Trie.Tree.{stem_chars}
use op_magic_trie.Trie.Tree.View.{
  IsStem, AllBytes, link_of, node_link, node_item, node_link_inside, node_item_inside,
  node_link_outside, node_item_outside, IsGood,
}
use op_magic_trie.Trie.Tree.Updated.{updated_link, updated_item, updated-IsGood, stem_chars-stem_of}
use op_magic_trie.Trie.Tree.Rounds.{AllBytes-append}
use op_magic_trie.Trie.Tree.Written.{entry_link, entry_item}

-- A node with no entry.
pub record Bare {V : Type 0} (u : Node V) : Type 0 where
  pub good : IsGood u
  pub unmarked : (j : ℕ) → presence u j ≡ false
  pub link : (j : ℕ) → node_link u j ≡ none
  pub item : (j : ℕ) → node_item u j ≡ none

pub create_interior-Bare :
    {V : Type 0} (blank : NodeData V) (capacity : ℕ)
    → IsCapacity capacity ⊎ (capacity ≡ 256)
    → Bare (create_interior blank capacity)
create_interior-Bare blank capacity cap =
    let u = create_interior blank capacity in
    let (node, bare_node) = create_interior-IsNode blank capacity cap in
    record {
      good = record {
        node = node;
        linked = λ k e l got. absurd (ground (arith, bare_node k, got));
        bytes = λ k e l got. absurd (ground (arith, bare_node k, got));
        proper = λ k e l got. absurd (ground (arith, bare_node k, got));
      };
      unmarked = create_interior-unmarked blank capacity;
      link = λ j. elim (Bool-cases (ltb j 256)) [
        | inl inside ↦ node_link_inside u j inside ∙ ap link_of (bare_node j)
        | inr outside ↦ node_link_outside u j outside
      ];
      item = λ j. elim (Bool-cases (ltb j 256)) [
        | inl inside ↦
            let marks = presence_marks u j in
            let bare : has_value u j ≡ false =
              ground (arith, marks, create_interior-unmarked blank capacity j) in
            node_item_inside u j inside ∙ rw bare refl
        | inr outside ↦ node_item_outside u j outside
      ];
    }

-- `m` is `n` with the entry at `key` split before the byte `x`, and `u` holds what was behind.
pub record Divided {V : Type 0} (n m u : Node V) (key c x : ℕ) (left rest : List ℕ)
    (moved : Option ℕ) (value : Option V) : Type 0 where
  pub good_source : IsGood m
  pub good_target : IsGood u
  pub link_before : node_link n key ≡ stemmed (left ++ x ∷ rest) moved
  pub link_source : (j : ℕ) → node_link m j ≡ (if j == key then some (left, c) else node_link n j)
  pub link_target : (j : ℕ) → node_link u j ≡ (if j == x then stemmed rest moved else none)
  pub item_before : node_item n key ≡ stemmed (left ++ x ∷ rest) value
  pub item_source : (j : ℕ) → node_item m j ≡ (if j == key then none else node_item n j)
  pub item_target : (j : ℕ) → node_item u j ≡ (if j == x then stemmed rest value else none)
  pub unmarked : (j : ℕ) → (j == x) ≡ false → presence u j ≡ false
  pub source_entry :
      (d : NodeData V) × (kv_get m key ≡ some d)
      × (stem_chars d.stem ≡ left)
      × (has_value m key ≡ false)

AllBytes-take : (left r : List ℕ) → AllBytes (left ++ r) → AllBytes left
AllBytes-take [] r h = tt
AllBytes-take (b ∷ left) r (l, h) = (l, AllBytes-take left r h)

module _ {V : Type 0} (blank : NodeData V) (n : Node V) (g : IsGood n) (key : ℕ) (small : key < 256)
    (e : NodeData V) (here : kv_get n key ≡ some e) (capacity : ℕ)
    (cap : IsCapacity capacity ⊎ (capacity ≡ 256)) (c : ℕ) (left : List ℕ) (x : ℕ) (rest : List ℕ)
    (whole : stem_chars e.stem ≡ left ++ x ∷ rest) (m u : Node V)
    (s : Splits blank n key c x e left rest m u) where
  abbrev valued : Bool
  valued = has_value n key

  abbrev source : NodeData V
  source = record { child = some c; stem = stem_of left; value = e.value }

  source_values : (j : ℕ) → has_value m j ≡ (if j == key then false else has_value n j)
  source_values j = ground (arith, s.source_values j)

  source_children : (j : ℕ) → has_child m j ≡ (if j == key then true else has_child n j)
  source_children j = ground (arith, s.source_children j)

  abbrev target : NodeData V
  target = target_data blank valued e rest

  abbrev bare_node : Node V
  bare_node = create_interior blank capacity

  bare : Bare bare_node
  bare = create_interior-Bare blank capacity cap

  target_reads :
      (j : ℕ) → j < 256 → kv_get u j ≡ (if j == x then some target else kv_get bare_node j)
  target_reads j l =
      s.target_reads j
      ∙ ap (λ o. if j == x then some target else o)
          (sym ((create_interior-IsNode blank capacity cap).1 j))

  target_values : (j : ℕ) → has_value u j ≡ (if j == x then valued else has_value bare_node j)
  target_values j = ground (arith, s.target_values j, presence_marks bare_node j, bare.unmarked j)

  target_children :
      (j : ℕ) → has_child u j ≡ (if j == x then is_some e.child else has_child bare_node j)
  target_children j = ground (
    arith,
    s.target_children j,
    presence_marks bare_node j,
    bare.unmarked j,
    g.linked key e small here,
  )

  whole_is : IsStem (left ++ x ∷ rest)
  whole_is = subst IsStem whole (g.bytes key e small here)

  whole_bytes : AllBytes (left ++ x ∷ rest)
  whole_bytes = whole_is.0

  abbrev moved_value : Option V
  moved_value = if valued then some e.value else none

  target_item :
      (v : Bool) (a : V)
      → (if v then some (rest, (if v then a else blank.value)) else none)
        ≡ stemmed rest (if v then some a else none)
  target_item true a = refl
  target_item false a = refl

  before_item :
      (v : Bool)
      → (if v then some (stem_chars e.stem, e.value) else none)
        ≡ stemmed (left ++ x ∷ rest) (if v then some e.value else none)
  before_item true = λ i. some (whole i, e.value)
  before_item false = refl

  pub Splits-Divided : Divided n m u key c x left rest e.child moved_value
  Splits-Divided = record {
    good_source =
        updated-IsGood n m key small source false s.source_reads source_values source_children
          s.source g
          (subst IsStem (sym (stem_chars-stem_of left)) (
            AllBytes-take left (x ∷ rest) whole_bytes,
            omega (arith, length-append left (x ∷ rest), whole_is.1),
          ))
          (ap stem_of (sym (stem_chars-stem_of left)));
    good_target =
        updated-IsGood bare_node u x (AllBytes-append left (x ∷ rest) whole_bytes).0 target valued
          target_reads target_values target_children s.target bare.good
          (subst IsStem (sym (stem_chars-stem_of rest)) (
            (AllBytes-append left (x ∷ rest) whole_bytes).1,
            omega (arith, length-append left (x ∷ rest), whole_is.1),
          ))
          (ap stem_of (sym (stem_chars-stem_of rest)));
    link_before = entry_link n g key small e here ∙ (λ i. stemmed (whole i) e.child);
    link_source = λ j.
        updated_link n m key small source false s.source_reads source_values source_children j
        ∙ (λ i. if j == key then some (stem_chars-stem_of left i, c) else node_link n j);
    link_target = λ j.
        updated_link bare_node u x (AllBytes-append left (x ∷ rest) whole_bytes).0 target valued
          target_reads target_values target_children j
        ∙ (λ i. if j == x then stemmed (stem_chars-stem_of rest i) e.child else bare.link j i);
    item_before = entry_item n g key small e here ∙ before_item valued;
    item_source =
        updated_item n m key small source false s.source_reads source_values source_children;
    item_target = λ j.
        updated_item bare_node u x (AllBytes-append left (x ∷ rest) whole_bytes).0 target valued
          target_reads target_values target_children j
        ∙ (λ i.
            if j == x
            then (if valued
                then some (stem_chars-stem_of rest i, (if valued then e.value else blank.value))
                else none)
            else bare.item j i)
        ∙ ap (λ o. if j == x then o else none) (target_item valued e.value);
    unmarked = λ j apart.
        ground (arith, presence_marks u j, s.target_children j, s.target_values j, apart);
    source_entry = (
      source,
      s.source_reads key small ∙ rw (==_refl key) refl,
      stem_chars-stem_of left,
      s.source_values key ∙ rw (==_refl key) refl,
    );
  }

stem_of-append :
    (l : List ℕ) (x : ℕ) (rest : List ℕ) → stem_of (l ++ x ∷ rest) ≡ some (l ++ x ∷ rest)
unfolding stem_of
stem_of-append [] x rest = refl
stem_of-append (b ∷ l) x rest = refl

pub whole_stem :
    {V : Type 0} (n : Node V) (g : IsGood n) (key : ℕ) (small : key < 256) (e : NodeData V)
    (here : kv_get n key ≡ some e) (left : List ℕ) (x : ℕ) (rest : List ℕ)
    → stem_chars e.stem ≡ left ++ x ∷ rest
    → e.stem ≡ some (left ++ x ∷ rest)
whole_stem n g key small e here left x rest whole =
    g.proper key e small here ∙ ap stem_of whole ∙ stem_of-append left x rest

module _ {V : Type 0} (blank : NodeData V) (n : Node V) (g : IsGood n) (key : ℕ) (small : key < 256)
    (e : NodeData V) (here : kv_get n key ≡ some e) (capacity : ℕ)
    (cap : IsCapacity capacity ⊎ (capacity ≡ 256)) (c : ℕ) (left : List ℕ) (x : ℕ) (rest : List ℕ)
    (whole : stem_chars e.stem ≡ left ++ x ∷ rest) where
  -- A stem that is split before one of its bytes.
  pub move_from_entry-Divided :
      (m : Node V) × (u : Node V) × (move_from_entry blank n key
          (length left)
          (create_interior blank capacity)
          c
        ≡ some (m, u))
      × Divided n m u key c x left rest e.child (if has_value n key then some e.value else none)
  move_from_entry-Divided =
      let stem : e.stem ≡ some (left ++ x ∷ rest) =
        whole_stem n g key small e here left x rest whole in
      let (m, u, run, s) =
        move_from_entry-Splits blank n key (length left) c capacity x e (left ++ x ∷ rest) rest
          g.node small here stem (drop-append left (x ∷ rest)) cap in
      let t = subst (λ l. Splits blank n key c x e l rest m u) (take-append left (x ∷ rest)) s in
      (m, u, run, Splits-Divided blank n g key small e here capacity cap c left x rest whole m u t)
