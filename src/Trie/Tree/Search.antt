-- ===== src/Trie/Tree/Search.antt =====
-- The round of `mismatch` that compares the stem of an entry.
use mathlib.Core.List.{append_assoc, append-nil, append_cancel_left}
use mathlib.Core.Path.{subst, transport}
use op_magic_trie.Prelude.{
  ℕ, ◌<◌, ◌≡◌, ◌≢◌, refl, sym, ap, ◌∙◌, inl, inr, true, false, none, some, List, [], ◌∷◌, ◌++◌,
  length, length-append, arith, Bool-cases, Option-cases, ◌==◌, if◌then◌else◌,
}
use op_magic_trie.Trie.Node.{Node, NodeData, has_child, has_value, kv_get}
use op_magic_trie.Trie.Node.Scan.{is_some}
use op_magic_trie.Trie.Iterator.{
  equals, string_end, stem_end, unequals, TrieIterator, push, update_stem,
}
use op_magic_trie.Trie.Shape.{Reach, Down, item, child, stemmed}
use op_magic_trie.Trie.Tree.{
  Trie, stem_chars, stem_compare, settle, Compared, descend, Further, behind_stem,
}
use op_magic_trie.Trie.Tree.View.{AllBytes, links, items, IsTrie, links_entry, items_entry}
use op_magic_trie.Trie.Tree.Compare.{full, ended, differ, stem_compare-Comparison}
use op_magic_trie.Trie.Tree.Walk.{Stands, longer_self, fork, Walked, found, inside, short, differs}
use op_magic_trie.Trie.Tree.Descent.{stem-Stands, Down-ne_nil, own, deeper, Down-Below}
use op_magic_trie.Trie.Tree.Rounds.{AllBytes-append, Walked-lift, behind_whole, behind_more}

module _ {V : Type 0} (t : Trie V) (w : IsTrie t) (further : Further) (p : List ℕ) (a : ℕ)
    (reach : Reach (links t) t.root p a) (n : Node V) (here : t.nodes a ≡ some n)
    (it : TrieIterator) (k : ℕ) (small : k < 256) (stands : Stands it a k none (p ++ k ∷ [])) where
  module _ (e : NodeData V) (entry : kv_get n k ≡ some e) where
    abbrev stem : List ℕ
    stem = stem_chars e.stem

    abbrev behind : List ℕ → TrieIterator
    behind m = update_stem it m

    -- What is matched of a stem is no longer than the stem.
    behind-Stands :
        (m r : List ℕ) → stem ≡ m ++ r → Stands (behind m) a k (some (length m)) (p ++ k ∷ m)
    behind-Stands m r es =
        let size = ((w.good a n here).bytes k e small entry).1 in
        stem-Stands it.position_stack it.prefix p m a k
          (omega (arith, size, ap length es, length-append m r)) stands

    linked : has_child n k ≡ is_some e.child
    linked = (w.good a n here).linked k e small entry

    -- The string ends at the entry, which has no value.
    ends_bare : has_value n k ≡ false → (v : V) → ¬ Down (links t) (items t) a (k ∷ stem) v
    ends_bare bare v d = elim (Down-Below t a n here k stem v small e entry d) [
      | own valued _ _ ↦ ground (arith, bare, valued)
      | deeper c r _ spells below ↦ Down-ne_nil c v (
          subst (λ z. Down (links t) (items t) c z v)
            (append_cancel_left stem r [] (sym spells ∙ sym (append-nil stem))) below)
    ]

    ends_once : (v : V) → Down (links t) (items t) a (k ∷ stem) v → v ≡ e.value
    ends_once v d = elim (Down-Below t a n here k stem v small e entry d) [
      | own _ _ same ↦ same
      | deeper c r _ spells below ↦
          let nothing = append_cancel_left stem r [] (sym spells ∙ sym (append-nil stem)) in
          absurd (Down-ne_nil c v (subst (λ z. Down (links t) (items t) c z v) nothing below))
    ]

    -- Nothing lies below the entry on a string that does not start with the stem.
    apart :
        (rest : List ℕ)
        → ((r : List ℕ) → rest ≢ stem ++ r)
        → (v : V) → ¬ Down (links t) (items t) a (k ∷ rest) v
    apart rest ne v d = elim (Down-Below t a n here k rest v small e entry d) [
      | own _ spells _ ↦ ne [] (spells ∙ sym (append-nil stem))
      | deeper c r _ spells _ ↦ ne r spells
    ]

    -- On a string that goes on behind the stem only the child matters.
    below_child :
        (b c : ℕ) (bs : List ℕ)
        → e.child ≡ some c
        → (v : V) → Down (links t) (items t) a (k ∷ (stem ++ b ∷ bs)) v
        → Down (links t) (items t) c (b ∷ bs) v
    below_child b c bs inner v d =
        elim (Down-Below t a n here k (stem ++ b ∷ bs) v small e entry d) [
          | own _ spells _ ↦ absurd (longer_self stem bs b (sym spells))
          | deeper x r there spells below ↦
              let same : x ≡ c = cc (there, inner) in
              let tails = append_cancel_left stem (b ∷ bs) r spells in
              subst (λ z. Down (links t) (items t) z (b ∷ bs) v) same
                (subst (λ z. Down (links t) (items t) x z v) (sym tails) below)
        ]

    no_child :
        (b : ℕ) (bs : List ℕ)
        → e.child ≡ none
        → (v : V) → ¬ Down (links t) (items t) a (k ∷ (stem ++ b ∷ bs)) v
    no_child b bs leaf v d = elim (Down-Below t a n here k (stem ++ b ∷ bs) v small e entry d) [
      | own _ spells _ ↦ absurd (longer_self stem bs b (sym spells))
      | deeper x r there spells below ↦ ground (arith, there, leaf)
    ]

    abbrev Answer : List ℕ → Compared → Type 0
    Answer rest c = Walked t (p ++ k ∷ rest) (k ∷ rest) a (behind_stem further n it k e.child c)

    Answer-whole : Answer stem (record { matched = stem; rest = []; result = equals })
    Answer-whole = elim (Bool-cases (has_value n k)) [
      | inl valued ↦
          found (behind stem) p a n k e (behind_whole further n it k e.child stem true valued) reach
            here small entry valued refl (behind-Stands stem [] (sym (append-nil stem)))
            (item k stem (items_entry t a n here k small e entry valued) refl) ends_once
      | inr bare ↦
          inside (behind stem) p a n k e stem []
            (behind_whole further n it k e.child stem false bare) reach here small entry
            (sym (append-nil stem)) (inr (refl, bare)) refl
            (behind-Stands stem [] (sym (append-nil stem))) (ends_bare bare)
    ]

    Answer-ended :
        (rest : List ℕ) (x : ℕ) (tail : List ℕ)
        → stem ≡ rest ++ x ∷ tail
        → Answer rest (record { matched = rest; rest = []; result = string_end })
    unfolding behind_stem settle
    Answer-ended rest x tail es =
        inside (behind rest) p a n k e rest (x ∷ tail) refl reach here small entry es
          (inl (λ z. cc z)) refl (behind-Stands rest (x ∷ tail) es)
          (apart rest (λ r er.
            longer_self rest (tail ++ r) x
              (er ∙ ap (λ z. z ++ r) es ∙ append_assoc rest (x ∷ tail) r)))

    Answer-differs :
        (m : List ℕ) (x b : ℕ) (tail bs : List ℕ)
        → stem ≡ m ++ x ∷ tail
        → (x == b) ≡ false
        → AllBytes (b ∷ bs)
        → Answer (m ++ b ∷ bs) (record { matched = m; rest = b ∷ bs; result = unequals })
    unfolding behind_stem settle
    Answer-differs m x b tail bs es ne bytes =
        differs (behind m) p a n k e m x b tail bs refl reach here small entry es ne
          (sym (append_assoc p (k ∷ m) (b ∷ bs))) bytes (behind-Stands m (x ∷ tail) es)
          (apart (m ++ b ∷ bs) (λ r er.
            fork m (tail ++ r) bs x b ne
              (sym (er ∙ ap (λ z. z ++ r) es ∙ append_assoc m (x ∷ tail) r))))

    Answer-leaf :
        (b : ℕ) (bs : List ℕ)
        → e.child ≡ none
        → AllBytes (b ∷ bs)
        → ((i : TrieIterator)
            → further none i (b ∷ bs) stem_end
              ≡ some (record { result = stem_end; iter = i; rest = b ∷ bs }))
        → Answer (stem ++ b ∷ bs) (record { matched = stem; rest = b ∷ bs; result = equals })
    Answer-leaf b bs leaf bytes stops =
        let unlinked : has_child n k ≡ false = linked ∙ ap is_some leaf in
        let out =
          behind_more further n it k e.child stem b bs
          ∙ ap (λ o. further o (descend (behind stem) n k o) (b ∷ bs) stem_end) leaf
          ∙ stops (descend (behind stem) n k none)
          ∙ ap
              (λ h. some (record {
                result = stem_end;
                iter = if h then push (behind stem) none else behind stem;
                rest = b ∷ bs;
              }))
              unlinked in
        short (behind stem) p a n k e b bs out reach here small entry leaf
          (sym (append_assoc p (k ∷ stem) (b ∷ bs))) bytes
          (behind-Stands stem [] (sym (append-nil stem))) (no_child b bs leaf)

    Answer-child :
        (b c : ℕ) (bs : List ℕ)
        → e.child ≡ some c
        → Walked t
            ((p ++ k ∷ stem) ++ b ∷ bs)
            (b ∷ bs)
            c
            (further (some c) (push (behind stem) (some c)) (b ∷ bs) stem_end)
        → Answer (stem ++ b ∷ bs) (record { matched = stem; rest = b ∷ bs; result = equals })
    Answer-child b c bs inner further_walk =
        let linked_c : has_child n k ≡ true = linked ∙ ap is_some inner in
        let link : links t a k ≡ some (stem, c) =
          links_entry t a n here k small e entry ∙ ap (stemmed stem) inner in
        let out : behind_stem further n it k e.child
              (record { matched = stem; rest = b ∷ bs; result = equals })
            ≡ further (some c) (push (behind stem) (some c)) (b ∷ bs) stem_end =
          behind_more further n it k e.child stem b bs
          ∙ ap (λ o. further o (descend (behind stem) n k o) (b ∷ bs) stem_end) inner
          ∙ ap
              (λ h.
                further (some c) (if h then push (behind stem) (some c) else behind stem) (b ∷ bs)
                  stem_end)
              linked_c in
        let whole = append_assoc p (k ∷ stem) (b ∷ bs) in
        Walked-lift t (p ++ k ∷ (stem ++ b ∷ bs)) (k ∷ (stem ++ b ∷ bs)) (b ∷ bs) a c _
          (λ v d. child k c stem (b ∷ bs) link refl d) (below_child b c bs inner)
          (transport (λ i. Walked t (whole i) (b ∷ bs) c (sym out i)) further_walk)

    abbrev Stops : Type 0
    Stops =
        (i : TrieIterator) (b : ℕ) (bs : List ℕ)
        → further none i (b ∷ bs) stem_end
          ≡ some (record { result = stem_end; iter = i; rest = b ∷ bs })

    -- The walk goes on below a child.
    abbrev Goes : List ℕ → Type 0
    Goes rest =
        (b c : ℕ) (bs : List ℕ)
        → rest ≡ stem ++ b ∷ bs
        → e.child ≡ some c
        → Walked t ((p ++ k ∷ stem) ++ b ∷ bs) (b ∷ bs) c
            (further (some c) (push (behind stem) (some c)) (b ∷ bs) stem_end)

    Answer-more :
        (b : ℕ) (bs : List ℕ)
        → AllBytes (stem ++ b ∷ bs)
        → Stops
        → Goes (stem ++ b ∷ bs)
        → Answer (stem ++ b ∷ bs) (record { matched = stem; rest = b ∷ bs; result = equals })
    Answer-more b bs bytes stops goes = elim (Option-cases e.child) [
      | inl leaf ↦ Answer-leaf b bs leaf (AllBytes-append stem (b ∷ bs) bytes) (λ i. stops i b bs)
      | inr (c, inner) ↦ Answer-child b c bs inner (goes b c bs refl inner)
    ]

    Answer-full :
        (r : List ℕ)
        → AllBytes (stem ++ r)
        → Stops
        → Goes (stem ++ r)
        → Answer (stem ++ r) (record { matched = stem; rest = r; result = equals })
    Answer-full [] bytes stops goes =
        subst (λ z. Answer z (record { matched = stem; rest = []; result = equals }))
          (sym (append-nil stem)) Answer-whole
    Answer-full (b ∷ bs) bytes stops goes = Answer-more b bs bytes stops goes

    -- The walk ends at the entry or below it.
    pub round-Walked_entry :
        (rest : List ℕ)
        → AllBytes rest
        → Stops
        → Goes rest
        → Walked t
            (p ++ k ∷ rest)
            (k ∷ rest)
            a
            (behind_stem further n it k e.child (stem_compare stem rest))
    round-Walked_entry rest bytes stops goes = elim (stem_compare-Comparison stem rest) [
      | full r er ec ↦
          let whole = Answer-full r (subst AllBytes er bytes) stops (subst Goes er goes) in
          transport (λ i. Answer (sym er i) (sym ec i)) whole
      | ended x tail es ec ↦ subst (Answer rest) (sym ec) (Answer-ended rest x tail es)
      | differ m x b tail bs es er ne ec ↦
          let other =
            Answer-differs m x b tail bs es ne
              (AllBytes-append m (b ∷ bs) (subst AllBytes er bytes)) in
          transport (λ i. Answer (sym er i) (sym ec i)) other
    ]
