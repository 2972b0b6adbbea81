-- ===== src/Trie/Mixed.antt =====
-- impl/op/trie/MixedAdapter.h: a sequence over the keys of a trie, of which the parts may be replaced.
-- `none` is an assertion that fails.
mod Drop
mod Visits
mod Tests
use op_magic_trie.Prelude.{
  ℕ, zero, suc, Bool, true, false, not, ◌&&◌, Option, none, some, ◌>>=◌, List, [], ◌∷◌, ◌==◌,
  if◌then◌else◌,
}
use op_magic_trie.Trie.Iterator.{TrieIterator, is_end}
use op_magic_trie.Trie.Tree.{Trie}
use op_magic_trie.Trie.Tree.Navigate
use op_magic_trie.Trie.Tree.Navigate.{begin, find}
use op_magic_trie.Trie.Tree.Navigate.Sibling.{next_sibling, first_child}

-- `in_range` of the trie: the iterator is not `end()`.
pub trie_in_range : TrieIterator → Bool
trie_in_range check = not (is_end check)

-- The predicate on a key.
pub start_with : List ℕ → List ℕ → Bool
start_with [] str = true
start_with (a ∷ prefix) [] = false
start_with (a ∷ prefix) (b ∷ str) = a == b && start_with prefix str

module _ (V : Type 0) where
  -- What the ingredients may replace; `_lower_bound` is left out.
  pub record Mixer : Type 0 where
    pub begin : Trie V → Option TrieIterator
    pub next : Trie V → TrieIterator → Option TrieIterator
    pub in_range : Trie V → TrieIterator → Bool

module _ {V : Type 0} where
  -- The methods of the trie.
  pub default_mixer : ℕ → Mixer V
  unfolding trie_in_range
  default_mixer fuel = record {
    begin = λ t. begin fuel t;
    next = λ t i. Navigate.next (suc fuel) t i true;
    in_range = λ t i. trie_in_range i;
  }

  -- `Ingredient::TakeWhileInRange` and `PrefixedInRange`
  pub take_while_in_range : (TrieIterator → Bool) → Mixer V → Mixer V
  unfolding trie_in_range
  take_while_in_range predicate base = record base {
    in_range = λ t i. trie_in_range i && predicate i;
  }

  -- `Ingredient::Find`
  pub find_begin : ℕ → List ℕ → Mixer V → Mixer V
  find_begin fuel key base = record base { begin = λ t. find fuel t key }

  -- `Ingredient::ChildBegin`
  pub child_begin : ℕ → TrieIterator → Mixer V → Mixer V
  child_begin fuel iterator base = record base { begin = λ t. first_child fuel t iterator }

  -- `Ingredient::SiblingNext`
  pub sibling_next : ℕ → Mixer V → Mixer V
  sibling_next fuel base = record base { next = λ t i. next_sibling fuel t i }

  pub sequence_start : Mixer V → Trie V → Option TrieIterator
  sequence_start m t = m.begin t

  pub sequence_in_range : Mixer V → Trie V → TrieIterator → Bool
  sequence_in_range m t pos = if is_end pos then false else m.in_range t pos

  pub sequence_next : Mixer V → Trie V → TrieIterator → Option TrieIterator
  sequence_next m t pos = m.next t pos

  -- The keys that a client reads, from a position on, in at most so many steps.
  pub keys_from : ℕ → Mixer V → Trie V → Option TrieIterator → Option (List (List ℕ))
  unfolding sequence_in_range sequence_next
  keys_from steps m t none = none
  keys_from zero m t (some pos) = if sequence_in_range m t pos then none else some []
  keys_from (suc steps) m t (some pos) =
      let rest = keys_from steps m t (sequence_next m t pos) >>= λ keys. some (pos.prefix ∷ keys) in
      if sequence_in_range m t pos then rest else some []

  pub keys : ℕ → Mixer V → Trie V → Option (List (List ℕ))
  unfolding keys_from sequence_start
  keys steps m t = keys_from steps m t (sequence_start m t)
