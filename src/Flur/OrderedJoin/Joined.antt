-- ===== src/Flur/OrderedJoin/Joined.antt =====
-- The list that a join produces.
use op_magic_trie.Prelude.{
  ℕ, zero, suc, ◌+◌, ◌<◌, ◌≡◌, refl, ap, true, false, Option, some, List, [], ◌∷◌, length, arith,
}
use op_magic_trie.Flur.Sequence.{Sequence, Yields, done, more, Sorted}
use op_magic_trie.Flur.OrderedJoin.{OrderedJoin, start, in_range, current, next}
use op_magic_trie.Flur.OrderedJoin.Seek.{matches, Stop, over, match, seek-Stop}

module _ {Left Right L R : Type 0} (left : Sequence Left L) (right : Sequence Right R)
    (left_key : L → ℕ) (right_key : R → ℕ) (fuel : ℕ) where
  -- A loop over the join, from the state `o`, returns at each step and reads the list.
  pub data Produces : Option (OrderedJoin Left Right) → List L → Type 0 where
    ended :
        (o : Option (OrderedJoin Left Right)) (j : OrderedJoin Left Right)
        → o ≡ some j
        → in_range left right left_key right_key fuel j ≡ false
        → Produces o []
    produced :
        (o : Option (OrderedJoin Left Right)) (j : OrderedJoin Left Right) (x : L) (xs : List L)
        → o ≡ some j
        → in_range left right left_key right_key fuel j ≡ true
        → current left right left_key right_key fuel j ≡ x
        → Produces (next left right left_key right_key fuel j) xs
        → Produces o (x ∷ xs)

  Stop-Produces :
      (n : ℕ) (zs : List L) (o : Option (OrderedJoin Left Right))
      → length zs < n
      → Stop left right left_key right_key fuel zs o
      → Produces o zs
  unfolding in_range current next
  Stop-Produces zero zs o l h = absurd (omega arith)
  Stop-Produces (suc n) zs o l (over j run out none_left) = rw none_left (ended o j run out)
  Stop-Produces (suc n) zs o l (match j x xs ys run inside here p q s t bound e) =
      let shorter : length zs ≡ suc (length (matches left_key right_key xs ys)) = ap length e in
      let stop =
        seek-Stop left right left_key right_key fuel fuel (left.next j.left) j.right xs ys bound
          bound p q s t in
      rw e (
        produced o j x (matches left_key right_key xs ys) run inside here
          (Stop-Produces n _ _ (omega arith) stop))

  -- With more fuel than the two sources have elements, when the started sources produce lists
  -- ordered by their keys, the join from `start` on returns at each step and produces the elements
  -- of the left list whose key stands in the right list, in their order and with repetitions.
  pub start-Produces :
      (l : Left) (r : Right) (xs : List L) (ys : List R)
      → length xs + length ys < fuel
      → Yields left (left.start l) xs
      → Yields right (right.start r) ys
      → Sorted left_key xs
      → Sorted right_key ys
      → Produces
          (start left right left_key right_key fuel (record { left = l; right = r }))
          (matches left_key right_key xs ys)
  unfolding start in_range
  start-Produces l r [] ys bound (done _ e) q s t =
      ended _ (record { left = left.start l; right = r }) (rw e refl) (rw e refl)
  start-Produces l r (x ∷ xs) ys bound (more _ _ _ e c p) q s t =
      let stop =
        seek-Stop left right left_key right_key fuel fuel (left.start l) (right.start r) (x ∷ xs) ys
          bound bound (more (left.start l) x xs e c p) q s t in
      rw e (
        Stop-Produces (suc (length (matches left_key right_key (x ∷ xs) ys))) _ _ (omega arith)
          stop)
