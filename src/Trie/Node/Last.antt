-- ===== src/Trie/Node/Last.antt =====
-- impl/op/trie/TrieNode.h: `presence_last_set`, the greatest key of a node.
use Prim.Native.Nat.{max}
use native.Mathlib.Decide.{dec_lt}
use op_magic_trie.Prelude.{ℕ, ◌≡◌, Bool, ◌||◌, Option, none, some, arith}
use op_magic_trie.Common.Log2.{last_set}
use op_magic_trie.Common.Log2.Last.{GreatestBelow, last_set-GreatestBelow}
use op_magic_trie.Trie.Node.{Node, presence}
use op_magic_trie.Trie.Node.Scan.{IsNode}

-- The greater of two indexes that may be nil.
pub furthest : Option ℕ → Option ℕ → Option ℕ
furthest none dt_res = dt_res
furthest (some c) none = some c
furthest (some c) (some d) = some (max d c)

pub presence_last_set : {V : Type 0} → Node V → Option ℕ
unfolding furthest
presence_last_set n = furthest (last_set 4 n.child_presence) (last_set 4 n.value_presence)

furthest-GreatestBelow :
    (p q : ℕ → Bool) (to : ℕ) (r s : Option ℕ)
    → GreatestBelow p to r
    → GreatestBelow q to s
    → GreatestBelow (λ j. p j || q j) to (furthest r s)
unfolding furthest
furthest-GreatestBelow p q to none none h k = λ j l. ground (arith, h j l, k j l)
furthest-GreatestBelow p q to none (some d) h (l, set_there, above) =
    (l, ground (arith, set_there), λ j m n. ground (arith, h j n, above j m n))
furthest-GreatestBelow p q to (some c) none (l, set_there, above) k =
    (l, ground (arith, set_there), λ j m n. ground (arith, k j n, above j m n))
furthest-GreatestBelow p q to (some c) (some d) (l, set_c, above_c) (m, set_d, above_d) =
    elim (dec_lt d c) [
      | yes less ↦
          let e : max d c ≡ c = omega (arith, less) in
          rw e (
            l,
            ground (arith, set_c),
            λ j u v. ground (arith, above_c j u v, above_d j (omega (arith, less, u)) v),
          )
      | no more ↦
          let e : max d c ≡ d = omega (arith, more) in
          rw e (
            m,
            ground (arith, set_d),
            λ j u v. ground (arith, above_d j u v, above_c j (omega (arith, more, u)) v),
          )
    ]

-- On a node under the invariant, `presence_last_set` returns the greatest marked byte, and none when
-- there is none.
pub presence_last_set-GreatestBelow :
    {V : Type 0} (n : Node V) → IsNode n → GreatestBelow (presence n) 256 (presence_last_set n)
unfolding presence_last_set presence
presence_last_set-GreatestBelow n v =
    furthest-GreatestBelow _ _ 256 _ _
      (last_set-GreatestBelow 4 n.child_presence (omega arith) v.child_words)
      (last_set-GreatestBelow 4 n.value_presence (omega arith) v.value_words)
