-- ===== src/Trie/Tree/Cut.antt =====
-- The steps of an insertion that split the stem of an entry.
use mathlib.Core.Path.{subst}
use op_magic_trie.Prelude.{
  ℕ, ◌+◌, ◌<◌, ◌≡◌, ◌↔◌, refl, ap, ◌∙◌, Bool, true, false, Option, none, some, bind_some, List, ◌∷◌,
  ◌++◌, length, arith, ◌==◌, ==_refl, if◌then◌else◌,
}
use op_magic_trie.Trie.Node.{Node, NodeData, has_value, kv_get}
use op_magic_trie.Trie.Node.Create.{create_interior}
use op_magic_trie.Trie.Iterator.{TriePosition, TrieIterator, rat, push_key, update_stem}
use op_magic_trie.Trie.Shape.{Reach}
use op_magic_trie.Trie.Tree.{
  Trie, Insertion, stem_chars, counted, next_u64, insert_mismatch_string_end, free_entry,
  init_node_size, new_node, store_node, split_entry,
}
use op_magic_trie.Trie.Tree.View.{AllBytes, Stored, links, IsGood, IsTrie}
use op_magic_trie.Trie.Tree.Walk.{Stands}
use op_magic_trie.Trie.Tree.Grafted.{grafted-Reach, grafted_kept, IsTrie-graft, Stored-split}
use op_magic_trie.Trie.Tree.Written.{Valued, set_value-Valued}
use op_magic_trie.Trie.Tree.Divided.{Divided, move_from_entry-Divided, whole_stem}
use op_magic_trie.Trie.Tree.Insert.{
  Inserted, Inserted-after, Valued-Inserted, unconditional_insert-Inserted,
}
use op_magic_trie.Trie.Tree.Place.{
  init_node_size-IsCapacity, new_node_at, new-Stands, c_ne_a, spare,
}

twice :
    {A : Type 0} (p q : Bool) (x y z o : A)
    → (if p then x else if q then y else if q then z else o) ≡ (if p then x else if q then y else o)
twice true q x y z o = refl
twice false true x y z o = refl
twice false false x y z o = refl

again :
    {A : Type 0} (p q : Bool) (x x' y o : A)
    → (if p then x' else if q then y else o)
      ≡ (if p then x' else if p then x else if q then y else o)
again true q x x' y o = refl
again false q x x' y o = refl

module _ {V : Type 0} (blank : NodeData V) (allocate : Trie V → ℕ) (t : Trie V) (w : IsTrie t)
    (free : t.nodes (allocate t) ≡ none) (p : List ℕ) (a : ℕ) (n : Node V) (k : ℕ) (e : NodeData V)
    (reach : Reach (links t) t.root p a) (there : t.nodes a ≡ some n) (small : k < 256)
    (entry : kv_get n k ≡ some e) where
  abbrev c : ℕ
  c = allocate t

  abbrev stem : List ℕ
  stem = stem_chars e.stem

  abbrev good : IsGood n
  good = w.good a n there

  module _ (it : TrieIterator) (left : List ℕ) (x : ℕ) (tail : List ℕ)
      (whole : stem ≡ left ++ x ∷ tail) where
    abbrev level : ℕ
    level = length it.position_stack + 1

    abbrev target : Node V
    target = create_interior blank (init_node_size level)

    abbrev value : Option V
    value = if has_value n k then some e.value else none

    -- The trie with both nodes in place.
    abbrev split_trie : Node V → Node V → Trie V
    split_trie m u = store_node (store_node (new_node blank allocate t level) c u) a m

    split_nodes :
        (m u : Node V) (b : ℕ)
        → (split_trie m u).nodes b
          ≡ (if b == a then some m else if b == c then some u else t.nodes b)
    unfolding new_node
    split_nodes m u b = twice (b == a) (b == c) (some m) (some u) (some target) (t.nodes b)

    split_root : (m u : Node V) → (split_trie m u).root ≡ t.root
    unfolding new_node
    split_root m u = refl

    split_count : (m u : Node V) → (split_trie m u).count ≡ t.count
    unfolding new_node
    split_count m u = refl

    -- Between the two steps the trie is under the invariant and stores the same keys.
    record Halfway (m u : Node V) : Type 0 where
      trie : IsTrie (split_trie m u)
      lower : Reach (links (split_trie m u)) (split_trie m u).root (p ++ k ∷ left) c
      upper : Reach (links (split_trie m u)) (split_trie m u).root p a
      keys : (q : List ℕ) (y : V) → Stored (split_trie m u) q y ↔ Stored t q y

    halfway : (m u : Node V) → Divided n m u k c x left tail e.child value → Halfway m u
    halfway m u d =
        let t1 = split_trie m u in
        record {
          trie =
              IsTrie-graft t t1 w a c n m u there free (split_nodes m u) (split_root m u)
                d.good_source d.good_target p k left tail x e.child reach d.link_before
                d.link_source d.link_target;
          lower =
              grafted-Reach t t1 w a c n m u there free (split_nodes m u) (split_root m u)
                d.good_source d.good_target p k left tail x e.child reach d.link_before
                d.link_source d.link_target;
          upper =
              grafted_kept t t1 w a c n m u there free (split_nodes m u) (split_root m u)
                d.good_source d.good_target p k left tail x e.child reach d.link_before
                d.link_source d.link_target;
          keys =
              Stored-split t t1 w a c n m u there free (split_nodes m u) (split_root m u)
                d.good_source d.good_target p k left tail x e.child reach d.link_before
                d.link_source d.link_target value d.item_before d.item_source d.item_target;
        }

    -- A string that differs from the stem.
    pub split_entry-Inserted :
        (b : ℕ) (rest : List ℕ) (v : V)
        → (x == b) ≡ false
        → b < 256
        → AllBytes rest
        → length rest < 0xFFFE
        → Stands it a k (some (length left)) (p ++ k ∷ left)
        → (r : Insertion V) × (split_entry blank allocate t it b rest v ≡ some r)
          × Inserted c t ((p ++ k ∷ left) ++ b ∷ rest) v r
    unfolding split_entry new_node
    split_entry-Inserted b rest v ne small_b bytes short st =
        let (m, u, run, d) =
          move_from_entry-Divided blank n good k small e entry (init_node_size level)
            (init_node_size-IsCapacity level) c left x tail whole in
        let half = halfway m u d in
        let apart : (c == a) ≡ false =
          c_ne_a blank allocate t w free p a n k e reach there small entry in
        let here1 : (split_trie m u).nodes c ≡ some u = rw (apart, ==_refl c) refl in
        let other : (b == x) ≡ false = ground (arith, ne) in
        let f : TriePosition → TriePosition =
          λ q. record q { has_child = true; version = m.version } in
        let i1 = update_stem (push_key (rat it f) b (some c)) rest in
        let (r, go, done) =
          unconditional_insert-Inserted blank (split_trie m u) half.trie (p ++ k ∷ left) c u b rest
            v half.lower here1 c i1 small_b (d.unmarked b other) bytes short
            (new-Stands it f (p ++ k ∷ left) c b rest st.spells (omega (arith, short))) in
        (
          r,
          bind_some _ st.address (
              bind_some _ st.key (
                bind_some _ st.stem (
                  bind_some _ there
                    (bind_some _ (new_node_at blank allocate t level) (bind_some _ run go))))),
          Inserted-after c t (split_trie m u) ((p ++ k ∷ left) ++ b ∷ rest) v r half.keys
              (split_count m u) (spare t (split_trie m u) a c n m u there (split_nodes m u)) done,
        )

    -- A string that ends inside the stem.
    pub string_end-Inserted :
        (v : V)
        → Stands it a k (some (length left)) (p ++ k ∷ left)
        → (r : Insertion V) × (insert_mismatch_string_end blank allocate t it v ≡ some r)
          × Inserted c t (p ++ k ∷ left) v r
    unfolding insert_mismatch_string_end free_entry
    string_end-Inserted v st =
        let (m, u, run, d) =
          move_from_entry-Divided blank n good k small e entry (init_node_size level)
            (init_node_size-IsCapacity level) c left x tail whole in
        let half = halfway m u d in
        let t1 = split_trie m u in
        let (e1, entry1, stem1, bare1) = d.source_entry in
        let (m2, run2, written) = set_value-Valued m d.good_source k small e1 entry1 v bare1 in
        let written_left = subst (λ s. Valued m m2 k s v) stem1 written in
        let here1 : t1.nodes a ≡ some m = rw (==_refl a) refl in
        let t2 = counted (store_node (store_node (new_node blank allocate t level) c u) a m2) in
        let nodes : (b : ℕ) → t2.nodes b ≡ (if b == a then some m2 else t1.nodes b) = λ b.
          again (b == a) (b == c) (some m) (some m2) (some u)
            ((new_node blank allocate t level).nodes b) in
        let stem_here : e.stem ≡ some (left ++ x ∷ tail) =
          whole_stem n good k small e entry left x tail whole in
        let free_run : free_entry blank allocate t it n k e.stem
            ≡ some (store_node (new_node blank allocate t level) c u, m) =
          ap (free_entry blank allocate t it n k) stem_here
          ∙ bind_some _ st.stem
              (bind_some _ (new_node_at blank allocate t level) (bind_some _ run refl)) in
        (
          _,
          bind_some _ st.address (
              bind_some _ st.key (
                bind_some _ there
                  (bind_some _ entry (bind_some _ free_run (bind_some _ run2 refl))))),
          Inserted-after c t t1 (p ++ k ∷ left) v _ half.keys (split_count m u)
              (spare t t1 a c n m u there (split_nodes m u))
              (Valued-Inserted blank t1 half.trie p a m k left v half.upper here1 c m2
                (rat it (λ q. record q { has_data = true; has_child = true; version = m2.version }))
                t2 nodes refl (ap next_u64 refl) st.spells written_left),
        )
