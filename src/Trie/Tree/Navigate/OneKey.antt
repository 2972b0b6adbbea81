-- ===== src/Trie/Tree/Navigate/OneKey.antt =====
-- A trie with one key, and an iterator at it.
use mathlib.Core.Path.{subst}
use op_magic_trie.Prelude.{
  ℕ, ◌≡◌, refl, sym, ap, ◌∙◌, inl, inr, true, false, none, some, arith, Option-cases, Bool-cases,
  [], ◌∷◌, List, ◌++◌, ◌==◌, ==_iff,
}
use op_magic_trie.Common.Bitset.Scan.{LeastFrom}
use op_magic_trie.Trie.Node.{has_value, presence, presence_first_set}
use op_magic_trie.Trie.Node.Scan.{is_some, first-LeastFrom}
use op_magic_trie.Trie.Iterator.{TrieIterator}
use op_magic_trie.Trie.Shape.{Reach, here, step}
use op_magic_trie.Trie.Tree.View.{Stored, links, items, node_item, node_item_inside}
use op_magic_trie.Trie.Tree.Forked.{one_trie-IsTrie, written, one_trie, entry, empty-Bare}
use op_magic_trie.Trie.Tree.Navigate.{on_data}
use op_magic_trie.Trie.Tree.Navigate.Track.{Track, top}
use op_magic_trie.Trie.Tree.Navigate.Load.{landed_at, landed_at-Track}
use op_magic_trie.Trie.Tree.Navigate.First.{Within, level}

first_byte : (k : ℕ) × (presence_first_set written.0 ≡ some k)
first_byte = elim (Option-cases (presence_first_set written.0)) [
  | inl gone ↦
      let unmarked : LeastFrom (presence written.0) 0 256 none =
        subst (LeastFrom (presence written.0) 0 256) gone
          (first-LeastFrom written.0 written.1.good.node) in
      let marked : presence written.0 97 ≡ true =
        sym (written.1.good.node.agrees 97 (omega arith)) ∙ ap is_some entry.1 in
      let bare : presence written.0 97 ≡ false = unmarked 97 (omega arith) (omega arith) in
      absurd (ground (arith, marked, bare))
  | inr found ↦ found
]

pub one_trie-Within : Within one_trie 1 0
one_trie-Within =
    level written.0 first_byte.0 refl first_byte.1
      (λ j c s link. absurd (ground (arith, written.1.link j, empty-Bare.link j, link)))

-- An iterator at the key of the trie.
abbrev pub at_key : TrieIterator
at_key = landed_at one_trie 0 written.0 refl (λ n. none) 97 (omega arith) entry.0 entry.1 [] []

pub at_key-Track : Track one_trie at_key.position_stack (let e = entry.0 in e.child) at_key.prefix
at_key-Track =
    landed_at-Track one_trie 0 written.0 refl (λ n. none) 97 (omega arith) entry.0 entry.1 [] [] top
      ((one_trie-IsTrie.good 0 written.0 refl).bytes 97 entry.0 (omega arith) entry.1).1

pub one_trie-Stored : Stored one_trie (97 ∷ 98 ∷ 120 ∷ []) 7
unfolding Stored
one_trie-Stored = record {
  path = [];
  address = 0;
  byte = 97;
  stem = 98 ∷ 120 ∷ [];
  reach = here refl refl;
  stored = written.1.item 97;
  spells = refl;
}

pub at_key-value : on_data at_key ≡ true
at_key-value = elim (Bool-cases (has_value written.0 97)) [
  | inl valued ↦ valued
  | inr bare ↦
      let item : node_item written.0 97 ≡ some (98 ∷ 120 ∷ [], 7) = written.1.item 97 in
      let gone : node_item written.0 97 ≡ none =
        node_item_inside written.0 97 refl ∙ rw bare refl in
      absurd (ground (arith, item, gone))
]

no_links : (x j : ℕ) → links one_trie x j ≡ none
no_links x j = elim (Bool-cases (x == 0)) [
  | inl at_root ↦ rw at_root (written.1.link j ∙ empty-Bare.link j)
  | inr other ↦ rw other refl
]

no_steps : (p : List ℕ) (x : ℕ) → Reach (links one_trie) 0 p x → (p ≡ []) × (x ≡ 0)
no_steps p x (here e r) = (e, r)
no_steps p x (step q s b k _ link _) = absurd (ground (arith, no_links b k, link))

item_at_root :
    (k : ℕ) (s : List ℕ) (v : ℕ) → items one_trie 0 k ≡ some (s, v) → (k ≡ 97) × (s ≡ 98 ∷ 120 ∷ [])
item_at_root k s v e = elim (Bool-cases (k == 97)) [
  | inl at_byte ↦
      let got : some (98 ∷ 120 ∷ [], 7) ≡ some (s, v) =
        sym (written.1.item k ∙ rw at_byte refl) ∙ e in
      ((==_iff k 97).0 at_byte, cc got)
  | inr other ↦
      let gone : items one_trie 0 k ≡ none = written.1.item k ∙ rw other (empty-Bare.item k) in
      absurd (ground (arith, gone, e))
]

-- The only key.
pub one_trie-keys : (q : List ℕ) (v : ℕ) → Stored one_trie q v → q ≡ 97 ∷ 98 ∷ 120 ∷ []
unfolding Stored
one_trie-keys q v h =
    let (no_path, at_root) = no_steps h.path h.address h.reach in
    let at_item : items one_trie 0 h.byte ≡ some (h.stem, v) =
      ap (λ z. items one_trie z h.byte) (sym at_root) ∙ h.stored in
    let (at_byte, stems) = item_at_root h.byte h.stem v at_item in
    h.spells ∙ (λ i. no_path i ++ at_byte i ∷ stems i)
