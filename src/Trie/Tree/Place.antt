-- ===== src/Trie/Tree/Place.antt =====
-- The steps of an insertion that make a new node.
use mathlib.Core.List.{append_assoc}
use op_magic_trie.Prelude.{
  sym, ℕ, ◌+◌, ◌<◌, ◌≡◌, refl, ap, ◌∙◌, ◌⊎◌, inl, inr, Bool, true, false, Option, none, some, List,
  [], ◌∷◌, ◌++◌, length, arith, Bool-cases, ◌==◌, ==_iff, ==_refl, if◌then◌else◌, ◌≢◌,
}
use op_magic_trie.Common.Bitset.Scan.{to_dim_small}
use op_magic_trie.Trie.HashTable.Ring.{IsCapacity}
use op_magic_trie.Trie.Node.{Node, NodeData, kv_get}
use op_magic_trie.Trie.Node.Scan.{is_some}
use op_magic_trie.Trie.Node.Create.{create_interior}
use op_magic_trie.Trie.Iterator.{TriePosition, TrieIterator, rat, push_key, update_stem}
use op_magic_trie.Trie.Shape.{Reach, stemmed}
use op_magic_trie.Trie.Tree.{
  Trie, Insertion, stem_chars, init_node_size, new_node, store_node, hang_child,
}
use op_magic_trie.Trie.Tree.View.{AllBytes, links, node_link, IsGood, IsTrie}
use op_magic_trie.Trie.Tree.Walk.{Stands}
use op_magic_trie.Trie.Tree.Grafted.{grafted-Reach, IsTrie-graft, Stored-hang}
use op_magic_trie.Trie.Tree.Written.{set_child-Hung, entry_link}
use op_magic_trie.Trie.Tree.Divided.{create_interior-Bare}
use op_magic_trie.Trie.Tree.Insert.{Inserted, Inserted-after, unconditional_insert-Inserted}

-- A new node has a capacity of 8 or 256.
pub init_node_size-IsCapacity :
    (level : ℕ) → IsCapacity (init_node_size level) ⊎ (init_node_size level ≡ 256)
unfolding init_node_size
init_node_size-IsCapacity level = elim (Bool-cases (level == 0)) [
  | inl e ↦ inr (rw e refl)
  | inr e ↦ inl (rw e (inl refl))
]

pub new_node_at :
    {V : Type 0} (blank : NodeData V) (allocate : Trie V → ℕ) (t : Trie V) (level : ℕ)
    → (new_node blank allocate t level).nodes (allocate t)
      ≡ some (create_interior blank (init_node_size level))
unfolding new_node
new_node_at blank allocate t level = rw (==_refl (allocate t)) refl

pub nowhere : {A : Type 0} (b : Bool) (o : Option A) → o ≡ (if b then o else o)
nowhere true o = refl
nowhere false o = refl

-- Two nodes are written, of which the second is new.
pub spare :
    {V : Type 0} (t u : Trie V) (a c : ℕ) (n x y : Node V)
    → t.nodes a ≡ some n
    → ((b : ℕ) → u.nodes b ≡ (if b == a then some x else if b == c then some y else t.nodes b))
    → (b : ℕ) → t.nodes b ≡ none
    → b ≢ c
    → u.nodes b ≡ none
spare t u a c n x y there nodes b e apart = elim (Bool-cases (b == a)) [
  | inl same ↦
      let at_a : t.nodes a ≡ none = ap t.nodes (sym ((==_iff b a).0 same)) ∙ e in
      absurd (ground (arith, at_a, there))
  | inr d ↦ elim (Bool-cases (b == c)) [
    | inl same ↦ absurd (apart ((==_iff b c).0 same))
    | inr f ↦ nodes b ∙ rw (d, f) e
  ]
]

-- The iterator in a new node.
pub new-Stands :
    (it : TrieIterator) (f : TriePosition → TriePosition) (q : List ℕ) (c b : ℕ) (rest : List ℕ)
    → it.prefix ≡ q
    → length rest < 0xFFFF
    → Stands
        (update_stem (push_key (rat it f) b (some c)) rest)
        c
        b
        (some (length rest))
        (q ++ b ∷ rest)
new-Stands it f q c b rest e fits = record {
  address = refl;
  key = refl;
  stem = to_dim_small (length rest) fits;
  spells = ap (λ z. (z ++ b ∷ []) ++ rest) e ∙ append_assoc q (b ∷ []) rest;
}

module _ {V : Type 0} (blank : NodeData V) (allocate : Trie V → ℕ) (t : Trie V) (w : IsTrie t)
    (free : t.nodes (allocate t) ≡ none) (p : List ℕ) (a : ℕ) (n : Node V) (k : ℕ) (e : NodeData V)
    (reach : Reach (links t) t.root p a) (there : t.nodes a ≡ some n) (small : k < 256)
    (entry : kv_get n k ≡ some e) where
  abbrev c : ℕ
  c = allocate t

  abbrev stem : List ℕ
  stem = stem_chars e.stem

  abbrev good : IsGood n
  good = w.good a n there

  pub c_ne_a : (c == a) ≡ false
  c_ne_a = elim (Bool-cases (c == a)) [
    | inl same ↦
        let at_c : t.nodes c ≡ some n = ap t.nodes ((==_iff c a).0 same) ∙ there in
        absurd (ground (arith, free, at_c))
    | inr apart ↦ apart
  ]

  module _ (it : TrieIterator) (b : ℕ) (rest : List ℕ) (v : V) (small_b : b < 256)
      (bytes : AllBytes rest) (short : length rest < 0xFFFE) where
    -- A stem that ends before the string, at an entry with no child.
    pub hang_child-Inserted :
        e.child ≡ none
        → Stands it a k (some (length stem)) (p ++ k ∷ stem)
        → (r : Insertion V) × (hang_child blank allocate t it b rest v ≡ some r)
          × Inserted c t ((p ++ k ∷ stem) ++ b ∷ rest) v r
    unfolding hang_child new_node
    hang_child-Inserted leaf st =
        let level = length it.position_stack + 1 in
        let u = create_interior blank (init_node_size level) in
        let empty =
          create_interior-Bare blank (init_node_size level) (init_node_size-IsCapacity level) in
        let (m, run, hung) =
          set_child-Hung n good k small e entry c (good.linked k e small entry ∙ ap is_some leaf) in
        let t1 = store_node (new_node blank allocate t level) a m in
        let before : node_link n k ≡ none =
          entry_link n good k small e entry ∙ ap (stemmed stem) leaf in
        let link_u : (j : ℕ) → node_link u j ≡ (if j == b then none else none) =
          λ j. empty.link j ∙ nowhere (j == b) none in
        let w1 =
          IsTrie-graft t t1 w a c n m u there free (λ x. refl) refl hung.good empty.good p k stem []
            b none reach before hung.link link_u in
        let reach1 =
          grafted-Reach t t1 w a c n m u there free (λ x. refl) refl hung.good empty.good p k stem
            [] b none reach before hung.link link_u in
        let keys =
          Stored-hang t t1 w a c n m u there free (λ x. refl) refl hung.good empty.good p k stem []
            b none reach before hung.link link_u hung.item empty.item in
        let here1 : t1.nodes c ≡ some u = rw (c_ne_a, ==_refl c) refl in
        let f : TriePosition → TriePosition = λ q. record q { version = m.version } in
        let i1 = update_stem (push_key (rat it f) b (some c)) rest in
        let (r, go, done) =
          unconditional_insert-Inserted blank t1 w1 (p ++ k ∷ stem) c u b rest v reach1 here1 c i1
            small_b (empty.unmarked b) bytes short
            (new-Stands it f (p ++ k ∷ stem) c b rest st.spells (omega (arith, short))) in
        (
          r,
          rw (hang_child, st.address, st.key, there, run) go,
          Inserted-after c t t1 ((p ++ k ∷ stem) ++ b ∷ rest) v r keys refl
              (spare t t1 a c n m u there (λ x. refl)) done,
        )
