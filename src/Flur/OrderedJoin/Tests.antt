-- ===== src/Flur/OrderedJoin/Tests.antt =====
-- The join of 1, 3, 3, 5 with 3, 4, 5, run step by step and by the theorem.
use mathlib.Core.Option
use op_magic_trie.Prelude.{
  ℕ, ◌≤◌, leb, ◌≡◌, refl, Bool, true, false, Option, some, List, [], ◌∷◌, arith,
}
use op_magic_trie.Flur.Sequence.{Sequence, Yields, done, more}
use op_magic_trie.Flur.OrderedJoin.{OrderedJoin, opt_next, seek, start, current}
use op_magic_trie.Flur.OrderedJoin.Seek.{matches}
use op_magic_trie.Flur.OrderedJoin.Joined.{Produces, start-Produces}

abbrev not_empty : List ℕ → Bool
not_empty [] = false
not_empty (x ∷ xs) = true

abbrev head : List ℕ → ℕ
head [] = 0
head (x ∷ xs) = x

abbrev tail : List ℕ → List ℕ
tail [] = []
tail (x ∷ xs) = xs

-- The state is what is left of the items.
abbrev of_list : List ℕ → Sequence (List ℕ) ℕ
of_list items = record { start = λ _. items; in_range = not_empty; current = head; next = tail }

of_list-Yields : (items xs : List ℕ) → Yields (of_list items) xs xs
of_list-Yields items [] = done [] refl
of_list-Yields items (x ∷ xs) = more (x ∷ xs) x xs refl refl (of_list-Yields items xs)

abbrev lefts : List ℕ
lefts = 1 ∷ 3 ∷ 3 ∷ 5 ∷ []

abbrev rights : List ℕ
rights = 3 ∷ 4 ∷ 5 ∷ []

abbrev key : ℕ → ℕ
key k = k

abbrev joined : Option (OrderedJoin (List ℕ) (List ℕ))
joined = start (of_list lefts) (of_list rights) key key 10 (record { left = []; right = [] })

first_match :
    Option.map (λ j. current (of_list lefts) (of_list rights) key key 10 j) joined ≡ some 3
unfolding start seek opt_next current
first_match = refl

le : {a b : ℕ} → leb a b ≡ true → a ≤ b
le h = ground (arith, h)

start-Produces_example :
    Produces (of_list lefts) (of_list rights) key key 10 joined (matches key key lefts rights)
start-Produces_example =
    start-Produces (of_list lefts) (of_list rights) key key 10 [] [] lefts rights (omega arith)
      (of_list-Yields lefts lefts) (of_list-Yields rights rights)
      ((le refl, (le refl, (le refl, tt))), ((le refl, (le refl, tt)), ((le refl, tt), (tt, tt))))
      ((le refl, (le refl, tt)), ((le refl, tt), (tt, tt)))
