-- ===== src/Trie/Tree/Navigate/Tracked.antt =====
-- The iterator that `mismatch`, and so `find`, leaves at a key.
use mathlib.Core.Path.{subst}
use mathlib.Core.List.{append_assoc}
use op_magic_trie.Prelude.{
  ℕ, zero, suc, ◌<◌, ◌≡◌, refl, sym, ap, ◌∙◌, inl, inr, true, false, Option, none, some, List, [],
  ◌∷◌, ◌++◌, length, arith, bind_some, Bool-cases, Option-cases, if◌then◌else◌,
}
use op_magic_trie.Common.Bitset.Scan.{to_dim_small}
use op_magic_trie.Trie.Node.{Node, NodeData, has_child, has_value, kv_get}
use op_magic_trie.Trie.Node.Scan.{is_some}
use op_magic_trie.Trie.Node.Copy.{kv_get_cases, presence_marks}
use op_magic_trie.Trie.Iterator.{
  StemCompareResult, equals, string_end, stem_end, unequals, no_entry, TriePosition, TrieIterator,
  push, update_stem,
}
use op_magic_trie.Trie.Tree.{
  Trie, stem_chars, mismatch, Mismatch, Further, enter, descend, round, behind_stem, stem_compare,
  settle, common_prefix,
}
use op_magic_trie.Trie.Tree.View.{AllBytes, Stored, IsTrie}
use op_magic_trie.Trie.Tree.Descent.{iterator, Down-ne_nil}
use op_magic_trie.Trie.Tree.Compare.{full, ended, differ, stem_compare-Comparison}
use op_magic_trie.Trie.Tree.Lookup.{mismatch-round, Stored-Down}
use op_magic_trie.Trie.Tree.Inserts.{value_of-common_prefix}
use op_magic_trie.Trie.Tree.Navigate.{find, on_data}
use op_magic_trie.Trie.Tree.Navigate.Finds.{lower_bound_impl-equals}
use op_magic_trie.Trie.Tree.Rounds.{
  AllBytes-append, round_missing, round_bare, round_valued, round_inner, behind_whole, behind_more,
}
use op_magic_trie.Trie.Tree.Navigate.Track.{Track, top, down}

abbrev pub ends_at : TrieIterator → Option Mismatch
ends_at it = some (record { result = equals; iter = it; rest = [] })

-- The walk, if it ends at a key, ends on a track.
abbrev pub OnTrack : {V : Type 0} → Trie V → Option Mismatch → Type 0
OnTrack t o =
    (it : TrieIterator)
    → o ≡ ends_at it
    → (on_data it ≡ true) × (c : Option ℕ) × Track t it.position_stack c it.prefix

is_match : StemCompareResult → ℕ
is_match equals = 0
is_match string_end = 1
is_match stem_end = 1
is_match unequals = 1
is_match no_entry = 1

result_of : Option Mismatch → ℕ
unfolding is_match
result_of none = 1
result_of (some m) = let d = m in is_match d.result

module _ {V : Type 0} (t : Trie V) where
  -- Nothing is to show of a walk that ends otherwise.
  off_key : (o o' : Option Mismatch) → o ≡ o' → result_of o' ≡ 1 → OnTrack t o
  unfolding result_of is_match
  off_key o o' e other it out =
      let one : result_of o ≡ 1 = ap result_of e ∙ other in
      let zero_there : result_of o ≡ 0 = ap result_of out in absurd (omega (arith, one, zero_there))

  on_same : (o o' : Option Mismatch) → o ≡ o' → OnTrack t o' → OnTrack t o
  on_same o o' e h = subst (OnTrack t) (sym e) h

module _ {V : Type 0} (t : Trie V) (w : IsTrie t) (ps : List TriePosition) (pre : List ℕ) (a : ℕ)
    (path : Track t ps (some a) pre) (n : Node V) (there : t.nodes a ≡ some n) (k : ℕ)
    (small : k < 256) (further : Further) where
  abbrev at_key : TrieIterator
  at_key = enter (push (iterator ps pre) (some a)) n k

  module _ (e : NodeData V) (entry : kv_get n k ≡ some e) where
    abbrev stem : List ℕ
    stem = stem_chars e.stem

    abbrev behind : TrieIterator
    behind = update_stem at_key stem

    behind-Track : Track t behind.position_stack e.child behind.prefix
    behind-Track =
        subst (λ z. Track t behind.position_stack e.child z) (sym (append_assoc pre (k ∷ []) stem))
          (down path (record {
            address = refl;
            there = there;
            key = refl;
            small = small;
            entry = entry;
            stem =
                to_dim_small (length stem)
                  (omega (arith, ((w.good a n there).bytes k e small entry).1));
            valued = refl;
            linked = refl;
          }))

    abbrev Goes : List ℕ → Type 0
    Goes rest =
        (c b : ℕ) (bs : List ℕ)
        → rest ≡ stem ++ b ∷ bs
        → e.child ≡ some c
        → OnTrack t (further (some c) (push behind (some c)) (b ∷ bs) stem_end)

    abbrev Stops : Type 0
    Stops = (b : ℕ) (bs : List ℕ) → result_of (further none behind (b ∷ bs) stem_end) ≡ 1

    full-OnTrack :
        (r : List ℕ)
        → Goes (stem ++ r)
        → Stops
        → OnTrack t (
            behind_stem further n at_key k e.child
              (record { matched = stem; rest = r; result = equals }))
    full-OnTrack [] goes stops = elim (Bool-cases (has_value n k)) [
      | inl valued ↦ λ it out.
          let run = behind_whole further n at_key k e.child stem true valued in
          let same : it ≡ behind = iter_same it behind (sym out ∙ run) in
          (
            ap on_data same ∙ valued,
            e.child,
            subst (λ z. Track t z.position_stack e.child z.prefix) (sym same) behind-Track,
          )
      | inr bare ↦
          off_key t _ _ (behind_whole further n at_key k e.child stem false bare)
            (unfold result_of is_match in refl)
    ]
      where
        iter_same : (i j : TrieIterator) → ends_at i ≡ ends_at j → i ≡ j
        iter_same i j e = cc e
    full-OnTrack (b ∷ bs) goes stops =
        let linked = (w.good a n there).linked k e small entry in
        let run = behind_more further n at_key k e.child stem b bs in
        elim (Option-cases e.child) [
          | inl leaf ↦
              let unlinked : has_child n k ≡ false = linked ∙ ap is_some leaf in
              let step : further e.child (descend behind n k e.child) (b ∷ bs) stem_end
                  ≡ further none behind (b ∷ bs) stem_end =
                (λ i. further (leaf i) (descend behind n k (leaf i)) (b ∷ bs) stem_end)
                ∙ ap (λ h. further none (if h then push behind none else behind) (b ∷ bs) stem_end)
                    unlinked in
              off_key t _ _ (run ∙ step) (stops b bs)
          | inr (c, inner) ↦
              let linked_c : has_child n k ≡ true = linked ∙ ap is_some inner in
              let step : further e.child (descend behind n k e.child) (b ∷ bs) stem_end
                  ≡ further (some c) (push behind (some c)) (b ∷ bs) stem_end =
                (λ i. further (inner i) (descend behind n k (inner i)) (b ∷ bs) stem_end)
                ∙ ap
                    (λ h.
                      further (some c) (if h then push behind (some c) else behind) (b ∷ bs)
                        stem_end)
                    linked_c in
              on_same t _ _ (run ∙ step) (goes c b bs refl inner)
        ]

    compared-OnTrack :
        (rest : List ℕ)
        → Goes rest
        → Stops
        → OnTrack t (behind_stem further n at_key k e.child (stem_compare stem rest))
    unfolding behind_stem settle
    compared-OnTrack rest goes stops = elim (stem_compare-Comparison stem rest) [
      | full r er ec ↦
          on_same t _ _ (ap (behind_stem further n at_key k e.child) ec)
            (full-OnTrack r (subst Goes er goes) stops)
      | ended x tail es ec ↦
          off_key t _ _ (ap (behind_stem further n at_key k e.child) ec)
            (unfold result_of is_match in refl)
      | differ m x b tail bs es er ne ec ↦
          off_key t _ _ (ap (behind_stem further n at_key k e.child) ec)
            (unfold result_of is_match in refl)
    ]

  round-OnTrack :
      (rest : List ℕ)
      → ((e : NodeData V) (c b : ℕ) (bs : List ℕ) (entry : kv_get n k ≡ some e)
          → rest ≡ stem_chars e.stem ++ b ∷ bs
          → e.child ≡ some c
          → OnTrack t (
              further
                (some c)
                (push (update_stem at_key (stem_chars e.stem)) (some c))
                (b ∷ bs)
                stem_end))
      → ((i : TrieIterator) (b : ℕ) (bs : List ℕ)
          → result_of (further none i (b ∷ bs) stem_end) ≡ 1)
      → OnTrack t (round further n at_key k rest)
  unfolding result_of is_match
  round-OnTrack rest goes stops = elim (kv_get_cases n (w.good a n there).node k small) [
    | inl (unmarked, _) ↦
        let marks = presence_marks n k in
        off_key t _ _
          (round_missing further n at_key k rest (ground (arith, marks, unmarked))
            (ground (arith, marks, unmarked)))
          refl
    | inr (e, marked, entry) ↦
        let marks = presence_marks n k in
        let compared =
          compared-OnTrack e entry rest (λ c b bs er inner. goes e c b bs entry er inner)
            (λ b bs. stops _ b bs) in
        elim (Bool-cases (has_value n k)) [
          | inl valued ↦
              on_same t _ _ (round_valued further n at_key k rest e entry valued) compared
          | inr bare ↦ bare_round e entry bare (ground (arith, marks, marked, bare)) rest compared
        ]
  ]
    where
      bare_round :
          (e : NodeData V)
          → kv_get n k ≡ some e
          → has_value n k ≡ false
          → has_child n k ≡ true
          → (rest : List ℕ)
          → OnTrack t
              (behind_stem further n at_key k e.child (stem_compare (stem_chars e.stem) rest))
          → OnTrack t (round further n at_key k rest)
      bare_round e entry bare inner [] compared =
          off_key t _ _ (round_bare further n at_key k [] bare inner refl) refl
      bare_round e entry bare inner (b ∷ bs) compared =
          on_same t _ _ (round_inner further n at_key k (b ∷ bs) e entry b bs bare inner refl)
            compared

module _ {V : Type 0} (t : Trie V) (w : IsTrie t) where
  off_trie :
      (fuel : ℕ) (it : TrieIterator) (b : ℕ) (bs : List ℕ)
      → result_of (mismatch fuel t none it (b ∷ bs) stem_end) ≡ 1
  unfolding mismatch result_of is_match
  off_trie zero it b bs = refl
  off_trie (suc fuel) it b bs = refl

  missing_node :
      (fuel a : ℕ) (it : TrieIterator) (k : ℕ) (rest : List ℕ) (r : StemCompareResult)
      → t.nodes a ≡ none
      → mismatch (suc fuel) t (some a) it (k ∷ rest) r ≡ none
  unfolding mismatch
  missing_node fuel a it k rest r e = rw (mismatch, e) refl

  pub mismatch-OnTrack :
      (fuel : ℕ) (ps : List TriePosition) (pre : List ℕ) (a k : ℕ) (rest : List ℕ)
      (r : StemCompareResult)
      → Track t ps (some a) pre
      → AllBytes (k ∷ rest)
      → OnTrack t (mismatch fuel t (some a) (push (iterator ps pre) (some a)) (k ∷ rest) r)
  unfolding mismatch
  mismatch-OnTrack zero ps pre a k rest r path bytes =
      off_key t none none refl (unfold result_of in refl)
  mismatch-OnTrack (suc fuel) ps pre a k rest r path bytes = elim (Option-cases (t.nodes a)) [
    | inl gone ↦
        off_key t _ none (missing_node fuel a (push (iterator ps pre) (some a)) k rest r gone)
          (unfold result_of in refl)
    | inr (n, there) ↦
        on_same t _ _ (mismatch-round t w fuel a n (push (iterator ps pre) (some a)) k rest r there)
          (round-OnTrack t w ps pre a path n there k bytes.0 (mismatch fuel t) rest
            (λ e c b bs entry er inner.
              let at = behind t w ps pre a path n there k bytes.0 (mismatch fuel t) e entry in
              let track =
                behind-Track t w ps pre a path n there k bytes.0 (mismatch fuel t) e entry in
              mismatch-OnTrack fuel at.position_stack at.prefix c b bs stem_end
                (subst (λ z. Track t at.position_stack z at.prefix) inner track)
                (AllBytes-append (stem_chars e.stem) (b ∷ bs) (subst AllBytes er bytes.1)))
            (off_trie fuel))
  ]

  pub common_prefix-OnTrack :
      (k : ℕ) (rest : List ℕ) → AllBytes (k ∷ rest) → OnTrack t (common_prefix t (k ∷ rest))
  unfolding common_prefix
  common_prefix-OnTrack k rest bytes =
      mismatch-OnTrack (suc (length (k ∷ rest))) [] [] t.root k rest equals top bytes

  -- On a trie under the invariant, for a stored key of bytes, `find` returns an iterator at a
  -- value, whose prefix is the key and whose positions lead from the root along it.
  pub find-Track :
      (fuel : ℕ) (q : List ℕ) (v : V)
      → AllBytes q
      → Stored t q v
      → (it : TrieIterator) × (c : Option ℕ) × (find fuel t q ≡ some it)
        × (it.prefix ≡ q)
        × (on_data it ≡ true)
        × Track t it.position_stack c it.prefix
  unfolding find
  find-Track fuel [] v bytes h = absurd (Down-ne_nil t.root v (Stored-Down t w [] v h))
  find-Track fuel (k ∷ rest) v bytes h =
      let (it, p, below, out, spells, stack, got) =
        value_of-common_prefix t w (k ∷ rest) v bytes h in
      let (there, c, track) = common_prefix-OnTrack k rest bytes it out in
      (it, c, bind_some _ (lower_bound_impl-equals t fuel k rest it out) refl, spells, there, track)
