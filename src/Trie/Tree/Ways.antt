-- ===== src/Trie/Tree/Ways.antt =====
-- `insert_impl` from the root, on each of its ways.
use mathlib.Core.List.{append-nil}
use mathlib.Core.Path.{subst, transport}
use op_magic_trie.Prelude.{
  ℕ, ◌+◌, ◌<◌, ◌≡◌, ◌≢◌, refl, sym, ap, ◌∙◌, ◌⊎◌, inl, inr, true, false, Option, none, some,
  bind_some, bind_none, List, [], ◌∷◌, ◌++◌, length, length-append, drop, drop-append, arith,
  Option-cases,
}
use op_magic_trie.Trie.Node.{Node, NodeData, presence, has_value, kv_get}
use op_magic_trie.Trie.Node.Scan.{is_some}
use op_magic_trie.Trie.Node.Copy.{presence_marks}
use op_magic_trie.Trie.Node.Create.{create_interior}
use op_magic_trie.Trie.Node.Split.{stem_of, move_from_entry, move_parts}
use op_magic_trie.Trie.Iterator.{
  StemCompareResult, equals, string_end, stem_end, unequals, no_entry, TrieIterator, end_iterator,
  rat, update_stem,
}
use op_magic_trie.Trie.Shape.{Reach, Down, stemmed}
use op_magic_trie.Trie.Tree.{
  Trie, Insertion, stem_chars, counted, store_node, init_node_size, common_prefix,
  insert_mismatch_string_end, free_entry, place, insert_impl,
}
use op_magic_trie.Trie.Tree.View.{AllBytes, Stored, links, items, IsTrie, links_entry, items_empty}
use op_magic_trie.Trie.Tree.Walk.{Stands, found, missing, inside, short, differs}
use op_magic_trie.Trie.Tree.Descent.{stem-Stands}
use op_magic_trie.Trie.Tree.Lookup.{common_prefix-Walked, Down-Stored, Stored-Down}
use op_magic_trie.Trie.Tree.Written.{Valued, set_value-Valued}
use op_magic_trie.Trie.Tree.Insert.{Inserted, Valued-Inserted, unconditional_insert-Inserted}
use op_magic_trie.Trie.Tree.Place.{new_node_at, hang_child-Inserted}
use op_magic_trie.Trie.Tree.Cut.{split_entry-Inserted, string_end-Inserted}

-- The key ends where a link with a stem ends, and no value is there.
pub record EndsAtBranch {V : Type 0} (t : Trie V) (q : List ℕ) : Type 0 where
  pub path : List ℕ
  pub address : ℕ
  pub byte : ℕ
  pub stem : List ℕ
  pub child : ℕ
  pub reach : Reach (links t) t.root path address
  pub link : links t address byte ≡ some (stem, child)
  pub bare : items t address byte ≡ none
  pub longer : stem ≢ []
  pub spells : q ≡ path ++ byte ∷ stem

-- The rest of a key is shorter than the key.
tail_short :
    (l : List ℕ) (b : ℕ) (s q : List ℕ) → q ≡ l ++ b ∷ s → length q < 0xFFFF → length s < 0xFFFE
tail_short l b s q e h = omega (arith, ap length e, length-append l (b ∷ s), h)

stem_of_longer : (s : List ℕ) → s ≢ [] → stem_of s ≡ some s
unfolding stem_of
stem_of_longer [] longer = absurd (longer refl)
stem_of_longer (b ∷ s) longer = refl

module _ {V : Type 0} (blank : NodeData V) (allocate : Trie V → ℕ) (t : Trie V) (w : IsTrie t)
    (free : t.nodes (allocate t) ≡ none) where
  -- The key was there, or is added, or the code fails.
  pub data Outcome (q : List ℕ) (v : V) (o : Option (Insertion V)) : Type 0 where
    present :
        (r : Insertion V)
        → o ≡ some r
        → r.exists ≡ true
        → r.trie ≡ t
        → r.iter.prefix ≡ q
        → ((x : V) × Stored t q x)
        → Outcome q v o
    added :
        (r : Insertion V)
        → o ≡ some r
        → Inserted (allocate t) t q v r
        → ((x : V) → ¬ Stored t q x)
        → Outcome q v o
    faults : o ≡ none → EndsAtBranch t q → Outcome q v o

  pub insert_impl-place :
      (k : ℕ) (rest : List ℕ) (v : V) (r : StemCompareResult) (it : TrieIterator) (tail : List ℕ)
      → common_prefix t (k ∷ rest) ≡ some (record { result = r; iter = it; rest = tail })
      → insert_impl blank allocate t end_iterator (k ∷ rest) v ≡ place blank allocate t r it tail v
  unfolding insert_impl common_prefix
  insert_impl-place k rest v r it tail e = bind_some _ e refl

  module _ (p : List ℕ) (a : ℕ) (n : Node V) (k : ℕ) (reach : Reach (links t) t.root p a)
      (there : t.nodes a ≡ some n) (small : k < 256) (v : V) where
    place_missing :
        (it : TrieIterator) (rest : List ℕ)
        → presence n k ≡ false
        → AllBytes rest
        → length rest < 0xFFFE
        → Stands it a k none (p ++ k ∷ [])
        → (r : Insertion V) × (place blank allocate t no_entry it rest v ≡ some r)
          × Inserted (allocate t) t (p ++ k ∷ rest) v r
    unfolding place
    place_missing it rest unmarked bytes few st =
        unconditional_insert-Inserted blank t w p a n k rest v reach there (allocate t)
          (update_stem it rest) small unmarked bytes few
          (stem-Stands it.position_stack it.prefix p rest a k (omega (arith, few)) st)

    module _ (e : NodeData V) (entry : kv_get n k ≡ some e) where
      -- An entry with an empty stem and no value takes the value.
      place_empty :
          (it : TrieIterator)
          → stem_chars e.stem ≡ []
          → has_value n k ≡ false
          → Stands it a k (some 0) (p ++ k ∷ [])
          → (r : Insertion V) × (place blank allocate t string_end it [] v ≡ some r)
            × Inserted (allocate t) t (p ++ k ∷ []) v r
      unfolding place insert_mismatch_string_end free_entry stem_of
      place_empty it empty bare st =
          let g = w.good a n there in
          let (m, run, written) = set_value-Valued n g k small e entry v bare in
          let nil : e.stem ≡ none = g.proper k e small entry ∙ ap stem_of empty in
          (
            _,
            bind_some _ st.address (
                bind_some _ st.key (
                  bind_some _ there (
                    bind_some _ entry (
                      bind_some _ (ap (free_entry blank allocate t it n k) nil)
                        (bind_some _ run refl))))),
            Valued-Inserted blank t w p a n k [] v reach there (allocate t) m
                (rat it (λ q. record q { has_data = true; has_child = true; version = m.version }))
                (counted (store_node t a m)) (λ b. refl) refl refl st.spells
                (subst (λ s. Valued n m k s v) empty written),
          )

      module _ (longer : stem_chars e.stem ≢ []) where
        pub entry_stem : e.stem ≡ some (stem_chars e.stem)
        entry_stem =
            (w.good a n there).proper k e small entry ∙ stem_of_longer (stem_chars e.stem) longer

        -- Nothing of a stem is behind it.
        pub nothing_behind : drop (length (stem_chars e.stem)) (stem_chars e.stem) ≡ []
        nothing_behind =
            let stem = stem_chars e.stem in
            ap (drop (length stem)) (sym (append-nil stem)) ∙ drop-append stem []

        -- At the end of a longer stem `move_from_entry` reads behind the stem.
        pub moves_behind :
            (u : Node V)
            → move_from_entry blank n k (length (stem_chars e.stem)) u (allocate t) ≡ none
        unfolding move_from_entry move_parts
        moves_behind u = rw (entry, move_from_entry, entry_stem, nothing_behind) refl

      pub place_faults :
          (it : TrieIterator)
          → stem_chars e.stem ≢ []
          → Stands it a k (some (length (stem_chars e.stem))) (p ++ k ∷ stem_chars e.stem)
          → place blank allocate t string_end it [] v ≡ none
      unfolding place insert_mismatch_string_end free_entry
      place_faults it longer st =
          let stem = stem_chars e.stem in
          let is = entry_stem longer in
          let moved =
            moves_behind longer
              (create_interior blank (init_node_size (length it.position_stack + 1))) in
          let freed : free_entry blank allocate t it n k e.stem ≡ none =
            ap (free_entry blank allocate t it n k) is
            ∙ bind_some _ st.stem (
                bind_some _ (new_node_at blank allocate t (length it.position_stack + 1))
                  (bind_none _ moved)) in
          bind_some _ st.address
            (bind_some _ st.key (bind_some _ there (bind_some _ entry (bind_none _ freed))))

      -- An entry with no value has a child.
      inner_child : has_value n k ≡ false → (c : ℕ) × (e.child ≡ some c)
      inner_child bare =
          let g = w.good a n there in
          let marked : presence n k ≡ true = sym (g.node.agrees k small) ∙ ap is_some entry in
          let linked : is_some e.child ≡ true =
            sym (g.linked k e small entry) ∙ ground (arith, presence_marks n k, marked, bare) in
          elim (Option-cases e.child) [
            | inl leaf ↦ absurd (ground (arith, linked, leaf))
            | inr child ↦ child
          ]

      ends_at_branch :
          stem_chars e.stem ≢ []
          → has_value n k ≡ false
          → EndsAtBranch t (p ++ k ∷ stem_chars e.stem)
      ends_at_branch longer bare =
          let (c, child) = inner_child bare in
          record {
            path = p;
            address = a;
            byte = k;
            stem = stem_chars e.stem;
            child = c;
            reach = reach;
            link = links_entry t a n there k small e entry ∙ ap (stemmed (stem_chars e.stem)) child;
            bare = items_empty t a n there k bare;
            longer = longer;
            spells = refl;
          }

  module _ (q : List ℕ) (v : V) (r : StemCompareResult) (it : TrieIterator) (tail : List ℕ)
      (run : insert_impl blank allocate t end_iterator q v
        ≡ place blank allocate t r it tail v) where
    Outcome-added :
        (whole : List ℕ)
        → q ≡ whole
        → ((x : V) → ¬ Stored t q x)
        → (i : Insertion V) × (place blank allocate t r it tail v ≡ some i)
          × Inserted (allocate t) t whole v i
        → Outcome q v (insert_impl blank allocate t end_iterator q v)
    Outcome-added whole e absent (i, out, done) =
        added i (run ∙ out) (subst (λ z. Inserted (allocate t) t z v i) (sym e) done) absent

  -- The string ends at the entry `e`, of which `m` is read.
  Outcome-inside :
      (q : List ℕ) (v : V) (it : TrieIterator) (p : List ℕ) (a : ℕ) (n : Node V) (k : ℕ)
      (e : NodeData V) (m tail : List ℕ)
      → insert_impl blank allocate t end_iterator q v ≡ place blank allocate t string_end it [] v
      → Reach (links t) t.root p a
      → t.nodes a ≡ some n
      → k < 256
      → kv_get n k ≡ some e
      → stem_chars e.stem ≡ m ++ tail
      → (tail ≢ []) ⊎ ((tail ≡ []) × (has_value n k ≡ false))
      → q ≡ p ++ k ∷ m
      → Stands it a k (some (length m)) q
      → ((x : V) → ¬ Stored t q x)
      → Outcome q v (insert_impl blank allocate t end_iterator q v)
  unfolding place
  Outcome-inside q v it p a n k e m [] run reach there small entry parts (inl ne) spells st absent =
      absurd (ne refl)
  Outcome-inside q v it p a n k e m (x ∷ tail) run reach there small entry parts stops spells st
        absent =
      Outcome-added q v string_end it [] run (p ++ k ∷ m) spells absent (
        string_end-Inserted blank allocate t w free p a n k e reach there small entry it m x tail
          parts v (subst (Stands it a k (some (length m))) spells st))
  Outcome-inside q v it p a n k e [] [] run reach there small entry parts (inr (_, bare)) spells st
        absent =
      Outcome-added q v string_end it [] run (p ++ k ∷ []) spells absent (
        place_empty p a n k reach there small v e entry it parts bare
          (subst (Stands it a k (some 0)) spells st))
  Outcome-inside q v it p a n k e (b ∷ m) [] run reach there small entry parts (inr (_, bare))
        spells st absent =
      let whole : stem_chars e.stem ≡ b ∷ m = parts ∙ append-nil (b ∷ m) in
      let longer : stem_chars e.stem ≢ [] = λ z. cc (z, whole) in
      let spells_e : q ≡ p ++ k ∷ stem_chars e.stem = spells ∙ ap (λ s. p ++ k ∷ s) (sym whole) in
      let st_e : Stands it a k (some (length (stem_chars e.stem))) (p ++ k ∷ stem_chars e.stem) =
        transport (λ i. Stands it a k (some (length (sym whole i))) (spells_e i)) st in
      faults (run ∙ place_faults p a n k reach there small v e entry it longer st_e) (
        subst (EndsAtBranch t) (sym spells_e)
          (ends_at_branch p a n k reach there small v e entry longer bare))

  -- For a trie under the invariant, an unused address and a key of bytes.
  pub insert_impl-Outcome :
      (k : ℕ) (rest : List ℕ) (v : V)
      → AllBytes (k ∷ rest)
      → length (k ∷ rest) < 0xFFFF
      → Outcome (k ∷ rest) v (insert_impl blank allocate t end_iterator (k ∷ rest) v)
  unfolding place
  insert_impl-Outcome k rest v bytes limit =
      let q = k ∷ rest in
      let absent : ((x : V) → ¬ Down (links t) (items t) t.root (k ∷ rest) x)
          → (x : V) → ¬ Stored t (k ∷ rest) x =
        λ gone x h. gone x (Stored-Down t w (k ∷ rest) x h) in
      elim (common_prefix-Walked t w k rest bytes) [
        | found it p a n j e out reach there small entry valued spells st d _ ↦
            present (record { trie = t; iter = it; exists = true })
              (insert_impl-place k rest v equals it [] out) refl refl st.spells
              (e.value, Down-Stored t w (k ∷ rest) e.value d)
        | missing it p a n j tail out reach there small unmarked spells tails st gone ↦
            Outcome-added q v no_entry it tail (insert_impl-place k rest v no_entry it tail out)
              (p ++ j ∷ tail) spells (absent gone)
              (place_missing p a n j reach there small v it tail unmarked tails
                (tail_short p j tail q spells limit) st)
        | inside it p a n j e m tail out reach there small entry parts stops spells st gone ↦
            Outcome-inside q v it p a n j e m tail (insert_impl-place k rest v string_end it [] out)
              reach there small entry parts stops spells st (absent gone)
        | short it p a n j e b tail out reach there small entry leaf spells tails st gone ↦
            Outcome-added q v stem_end it (b ∷ tail)
              (insert_impl-place k rest v stem_end it (b ∷ tail) out) _ spells (absent gone)
              (hang_child-Inserted blank allocate t w free p a n j e reach there small entry it b
                tail v tails.0 tails.1 (tail_short _ b tail q spells limit) leaf st)
        | differs it p a n j e m x b ms tail out reach there small entry parts ne spells tails st
              gone ↦
            Outcome-added q v unequals it (b ∷ tail)
              (insert_impl-place k rest v unequals it (b ∷ tail) out) _ spells (absent gone)
              (split_entry-Inserted blank allocate t w free p a n j e reach there small entry it m x
                ms parts b tail v ne tails.0 tails.1 (tail_short _ b tail q spells limit) st)
      ]
