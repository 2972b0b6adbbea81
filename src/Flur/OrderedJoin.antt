-- ===== src/Flur/OrderedJoin.antt =====
-- impl/op/flur/OrderedJoin.h: the join of two ordered sequences, for sources without
-- `lower_bound` and `implement_exists_c` off. `_join_key_cmp` compares a number of each element.
mod Seek
mod Joined
mod Tests
use op_magic_trie.Prelude.{
  ℕ, zero, suc, Bool, true, false, ◌&&◌, Option, none, some, ltb, ◌==◌, if◌then◌else◌,
}
use op_magic_trie.Flur.Sequence.{Sequence}

-- `_optimize_right_forward` is set only by a join that implements `exists`.
pub record OrderedJoin (Left Right : Type 0) : Type 0 where
  pub left : Left
  pub right : Right

-- `opt_next` where the source has no `lower_bound`: it runs forward to the key `other_key`, with
-- fuel.
pub opt_next : {S E : Type 0} → ℕ → Sequence S E → (E → ℕ) → S → ℕ → Option S
opt_next zero q key src other_key = none
opt_next (suc fuel) q key src other_key =
    let s = q.next src in
    let rest = opt_next fuel q key s other_key in
    if q.in_range s && ltb (key (q.current s)) other_key then rest else some s

module _ {Left Right L R : Type 0} (left : Sequence Left L) (right : Sequence Right R)
    (left_key : L → ℕ) (right_key : R → ℕ) (fuel : ℕ) where
  pub seek : ℕ → OrderedJoin Left Right → Option (OrderedJoin Left Right)
  seek zero j = none
  seek (suc rounds) j =
      let k = left_key (left.current j.left) in
      let m = right_key (right.current j.right) in
      let on_left : Option (OrderedJoin Left Right) = elim (opt_next fuel left left_key j.left m) [
        | none ↦ none
        | some s ↦ seek rounds (record { left = s; right = j.right })
      ] in
      let on_right : Option (OrderedJoin Left Right) =
        elim (opt_next fuel right right_key j.right k) [
          | none ↦ none
          | some s ↦ seek rounds (record { left = j.left; right = s })
        ] in
      if left.in_range j.left && right.in_range j.right
      then (if ltb k m then on_left else if k == m then some j else on_right)
      else some j

  pub start : OrderedJoin Left Right → Option (OrderedJoin Left Right)
  start j =
      let l = left.start j.left in
      let both = seek fuel (record { left = l; right = right.start j.right }) in
      if left.in_range l then both else some (record { left = l; right = j.right })

  pub in_range : OrderedJoin Left Right → Bool
  in_range j = left.in_range j.left && right.in_range j.right

  pub current : OrderedJoin Left Right → L
  current j = left.current j.left

  pub next : OrderedJoin Left Right → Option (OrderedJoin Left Right)
  next j = seek fuel (record { left = left.next j.left; right = j.right })
