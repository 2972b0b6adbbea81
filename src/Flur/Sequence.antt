-- ===== src/Flur/Sequence.antt =====
-- impl/op/flur/Sequence.h: the interface of a sequence, and the list that one produces.
use op_magic_trie.Prelude.{ℕ, ◌≤◌, ◌≡◌, Bool, true, false, ◌||◌, List, [], ◌∷◌, ◌==◌}

-- The virtual functions of `Sequence`, on the state of an implementation.
pub record Sequence (S E : Type 0) : Type 0 where
  pub start : S → S
  pub in_range : S → Bool
  pub current : S → E
  pub next : S → S

-- From the state `s` the sequence produces the list.
pub data Yields {S E : Type 0} (q : Sequence S E) : S → List E → Type 0 where
  done : (s : S) → q.in_range s ≡ false → Yields q s []
  more :
      (s : S) (x : E) (xs : List E)
      → q.in_range s ≡ true
      → q.current s ≡ x
      → Yields q (q.next s) xs
      → Yields q s (x ∷ xs)

module _ {E : Type 0} (key : E → ℕ) where
  -- No key of the list is less than `k`.
  abbrev pub From : ℕ → List E → Type 0
  From k [] = Unit
  From k (x ∷ xs) = (k ≤ key x) × From k xs

  abbrev pub Sorted : List E → Type 0
  Sorted [] = Unit
  Sorted (x ∷ xs) = From (key x) xs × Sorted xs

  abbrev pub has_key : List E → ℕ → Bool
  has_key [] k = false
  has_key (x ∷ xs) k = key x == k || has_key xs k
