-- ===== src/Trie/Tree/Arrive.antt =====
-- The walk of `common_prefix` to the end of a link.
use mathlib.Core.List.{append_assoc, append-nil}
use mathlib.Core.Path.{subst, transport}
use op_magic_trie.Prelude.{
  ℕ, zero, suc, ◌<◌, ◌≡◌, ◌≢◌, refl, sym, ap, ◌∙◌, inl, inr, true, false, none, some, List, [], ◌∷◌,
  ◌++◌, length, length-append, arith, Bool-cases, Option-cases, ltb, ==_refl, if◌then◌else◌,
}
use op_magic_trie.Trie.Node.{Node, NodeData, has_child, has_value, kv_get}
use op_magic_trie.Trie.Node.Scan.{is_some}
use op_magic_trie.Trie.Iterator.{
  StemCompareResult, equals, string_end, stem_end, TrieIterator, end_iterator, push, update_stem,
  top_address,
}
use op_magic_trie.Trie.Shape.{Reach, here, step, stemmed-some}
use op_magic_trie.Trie.Tree.{
  Trie, Further, stem_chars, stem_compare, mismatch, enter, round, behind_stem, common_prefix,
}
use op_magic_trie.Trie.Tree.View.{
  links, items, link_of, node_link, node_link_inside, node_link_outside, links_at, items_entry,
  IsTrie,
}
use op_magic_trie.Trie.Tree.Walk.{Stands}
use op_magic_trie.Trie.Tree.Descent.{enter-Stands, stem-Stands}
use op_magic_trie.Trie.Tree.Rounds.{round_valued, round_inner, behind_whole, behind_more}
use op_magic_trie.Trie.Tree.Lookup.{mismatch-round}

stem_compare-append :
    (s r : List ℕ) → stem_compare s (s ++ r) ≡ record { matched = s; rest = r; result = equals }
unfolding stem_compare
stem_compare-append [] r = refl
stem_compare-append (c ∷ s) r = rw (==_refl c) (
    ap (λ d. record { matched = c ∷ d.matched; rest = d.rest; result = d.result })
      (stem_compare-append s r))

-- The entry behind a link.
pub record Linked {V : Type 0} (t : Trie V) (a k : ℕ) (s : List ℕ) (c : ℕ) : Type 0 where
  pub node : Node V
  pub entry : NodeData V
  pub at_node : t.nodes a ≡ some node
  pub small : k < 256
  pub at_entry : kv_get node k ≡ some entry
  pub stem : stem_chars entry.stem ≡ s
  pub child : entry.child ≡ some c

module _ {V : Type 0} (t : Trie V) (w : IsTrie t) where
  pub Linked-entry : (a k c : ℕ) (s : List ℕ) → links t a k ≡ some (s, c) → Linked t a k s c
  Linked-entry a k c s link = elim (Option-cases (t.nodes a)) [
    | inl gone ↦ absurd (ground (arith, ap (λ o. links_at o k) gone, link))
    | inr (n, there) ↦
        let at_n : node_link n k ≡ some (s, c) = sym (ap (λ o. links_at o k) there) ∙ link in
        elim (Bool-cases (ltb k 256)) [
          | inr outside ↦ absurd (ground (arith, node_link_outside n k outside, at_n))
          | inl inside ↦
              let got : link_of (kv_get n k) ≡ some (s, c) =
                sym (node_link_inside n k inside) ∙ at_n in
              elim (Option-cases (kv_get n k)) [
                | inl none_here ↦ absurd (ground (arith, ap link_of none_here, got))
                | inr (e, entry) ↦
                    let (stems, child) =
                      stemmed-some (stem_chars e.stem) e.child s c (sym (ap link_of entry) ∙ got) in
                    record {
                      node = n;
                      entry = e;
                      at_node = there;
                      small = ground (arith, inside);
                      at_entry = entry;
                      stem = sym stems;
                      child = child;
                    }
              ]
        ]
  ]

  -- The length of the stem of a link fits `dim_t`.
  link_fits : (a c k : ℕ) (s : List ℕ) → Linked t a k s c → length s < 0xFFFF
  link_fits a c k s l =
      let sizes = ap length l.stem in
      omega (arith, sizes, ((w.good a l.node l.at_node).bytes k l.entry l.small l.at_entry).1)

  -- A round at an entry with a child, when the string goes on.
  round-Linked :
      (further : Further) (it : TrieIterator) (a k c : ℕ) (s rest : List ℕ) (x : ℕ) (xs : List ℕ)
      (l : Linked t a k s c)
      → rest ≡ x ∷ xs
      → round further l.node it k rest
        ≡ behind_stem further l.node it k (some c) (stem_compare s rest)
  round-Linked further it a k c s rest x xs l more =
      let n = l.node in
      let e = l.entry in
      let inner : has_child n k ≡ true =
        (w.good a n l.at_node).linked k e l.small l.at_entry ∙ ap is_some l.child in
      let same : behind_stem further n it k e.child (stem_compare (stem_chars e.stem) rest)
          ≡ behind_stem further n it k (some c) (stem_compare s rest) =
        λ i. behind_stem further n it k (l.child i) (stem_compare (l.stem i) rest) in
      elim (Bool-cases (has_value n k)) [
        | inl valued ↦ round_valued further n it k rest e l.at_entry valued ∙ same
        | inr bare ↦ round_inner further n it k rest e l.at_entry x xs bare inner more ∙ same
      ]

  -- The walk of `common_prefix` comes to the address with the rest of the string.
  record Arrives (p : List ℕ) (a k : ℕ) (rest : List ℕ) : Type 0 where
    fuel : ℕ
    iter : TrieIterator
    result : StemCompareResult
    enough : length (k ∷ rest) < fuel
    top : top_address iter ≡ some a
    spells : iter.prefix ≡ p
    run : common_prefix t (p ++ k ∷ rest) ≡ mismatch fuel t (some a) iter (k ∷ rest) result

  arrive_root : (k : ℕ) (rest : List ℕ) → Arrives [] t.root k rest
  unfolding common_prefix
  arrive_root k rest = record {
    fuel = suc (length (k ∷ rest));
    iter = push end_iterator (some t.root);
    result = equals;
    enough = omega arith;
    top = refl;
    spells = refl;
    run = refl;
  }

  front : (s : List ℕ) (k : ℕ) (rest : List ℕ) → (x : ℕ) × (xs : List ℕ) × (s ++ k ∷ rest ≡ x ∷ xs)
  front [] k rest = (k, rest, refl)
  front (y ∷ s) k rest = (y, s ++ k ∷ rest, refl)

  arrive_step :
      (q s : List ℕ) (b k a j : ℕ) (rest : List ℕ) (fuel : ℕ) (it : TrieIterator)
      (r : StemCompareResult)
      → links t b k ≡ some (s, a)
      → length (k ∷ (s ++ j ∷ rest)) < fuel
      → top_address it ≡ some b
      → it.prefix ≡ q
      → common_prefix t (q ++ k ∷ (s ++ j ∷ rest))
        ≡ mismatch fuel t (some b) it (k ∷ (s ++ j ∷ rest)) r
      → Arrives (q ++ k ∷ s) a j rest
  arrive_step q s b k a j rest zero it r link enough top spells run = absurd (omega (arith, enough))
  arrive_step q s b k a j rest (suc f) it r link enough top spells run =
      let l = Linked-entry b k a s link in
      let n = l.node in
      let at_key = enter it n k in
      let (x, xs, more) = front s j rest in
      let stands = enter-Stands n it.position_stack it.prefix q b k top spells in
      let further =
        stem-Stands at_key.position_stack at_key.prefix q s b k (link_fits b a k s l) stands in
      let behind = update_stem at_key s in
      let inner : has_child n k ≡ true =
        (w.good b n l.at_node).linked k l.entry l.small l.at_entry ∙ ap is_some l.child in
      record {
        fuel = f;
        iter = push behind (some a);
        result = stem_end;
        enough = omega (arith, enough, length-append s (j ∷ rest));
        top = refl;
        spells = further.spells;
        run =
            ap (common_prefix t) (append_assoc q (k ∷ s) (j ∷ rest))
            ∙ run
            ∙ mismatch-round t w f b n it k (s ++ j ∷ rest) r l.at_node
            ∙ round-Linked (mismatch f t) at_key b k a s (s ++ j ∷ rest) x xs l more
            ∙ ap (behind_stem (mismatch f t) n at_key k (some a)) (stem_compare-append s (j ∷ rest))
            ∙ behind_more (mismatch f t) n at_key k (some a) s j rest
            ∙ ap
                (λ h.
                  mismatch f t (some a) (if h then push behind (some a) else behind) (j ∷ rest)
                    stem_end)
                inner;
      }

  arrive :
      (p : List ℕ) (a : ℕ)
      → Reach (links t) t.root p a
      → (k : ℕ) (rest : List ℕ) → Arrives p a k rest
  arrive p a (here e r) k rest =
      transport (λ i. Arrives (sym e i) (sym r i) k rest) (arrive_root k rest)
  arrive p a (step q s b j reach link e) k rest =
      let before = arrive q b reach j (s ++ k ∷ rest) in
      subst (λ z. Arrives z a k rest) (sym e)
        (arrive_step q s b j a k rest before.fuel before.iter before.result link before.enough
          before.top before.spells before.run)

  -- At the end of the link the walk stops behind the whole stem.
  pub stops_at_branch :
      (p s : List ℕ) (a k c : ℕ) (l : Linked t a k s c)
      → Reach (links t) t.root p a
      → items t a k ≡ none
      → s ≢ []
      → (it : TrieIterator) × (common_prefix t (p ++ k ∷ s)
          ≡ some (record { result = string_end; iter = it; rest = [] }))
        × Stands it a k (some (length s)) (p ++ k ∷ s)
  stops_at_branch p [] a k c l reach bare longer = absurd (longer refl)
  stops_at_branch p (y ∷ ys) a k c l reach bare longer =
      let at_a = arrive p a reach k (y ∷ ys) in
      stops_in p y ys a k c l bare at_a.fuel at_a.iter at_a.result at_a.enough at_a.top at_a.spells
        at_a.run
    where
      unvalued :
          (p : List ℕ) (a k c : ℕ) (s : List ℕ) (l : Linked t a k s c)
          → items t a k ≡ none
          → has_value l.node k ≡ false
      unvalued p a k c s l bare = elim (Bool-cases (has_value l.node k)) [
        | inl valued ↦ absurd (
            ground
              (arith, items_entry t a l.node l.at_node k l.small l.entry l.at_entry valued, bare))
        | inr e ↦ e
      ]

      stops_in :
          (p : List ℕ) (y : ℕ) (ys : List ℕ) (a k c : ℕ) (l : Linked t a k (y ∷ ys) c)
          → items t a k ≡ none
          → (fuel : ℕ) (it : TrieIterator) (r : StemCompareResult) → length (k ∷ y ∷ ys) < fuel
          → top_address it ≡ some a
          → it.prefix ≡ p
          → common_prefix t (p ++ k ∷ y ∷ ys) ≡ mismatch fuel t (some a) it (k ∷ y ∷ ys) r
          → (i : TrieIterator) × (common_prefix t (p ++ k ∷ y ∷ ys)
              ≡ some (record { result = string_end; iter = i; rest = [] }))
            × Stands i a k (some (length (y ∷ ys))) (p ++ k ∷ y ∷ ys)
      stops_in p y ys a k c l bare zero it r enough top spells run = absurd (omega (arith, enough))
      stops_in p y ys a k c l bare (suc f) it r enough top spells run =
          let s = y ∷ ys in
          let at_key = enter it l.node k in
          let whole : stem_compare s s ≡ record { matched = s; rest = []; result = equals } =
            ap (stem_compare s) (sym (append-nil s)) ∙ stem_compare-append s [] in
          (
            update_stem at_key s,
            run
                ∙ mismatch-round t w f a l.node it k s r l.at_node
                ∙ round-Linked (mismatch f t) at_key a k c s s y ys l refl
                ∙ ap (behind_stem (mismatch f t) l.node at_key k (some c)) whole
                ∙ behind_whole (mismatch f t) l.node at_key k (some c) s false
                    (unvalued p a k c s l bare),
            stem-Stands at_key.position_stack at_key.prefix p s a k (link_fits a c k s l)
                (enter-Stands l.node it.position_stack it.prefix p a k top spells),
          )
