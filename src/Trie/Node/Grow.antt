-- ===== src/Trie/Node/Grow.antt =====
-- `grow` ends with a larger container of the same entries.
use op_magic_trie.Prelude.{
  ℕ, zero, suc, ◌<◌, ◌≡◌, refl, ap, ◌∙◌, ◌⊎◌, inl, inr, true, false, some, arith, ltb,
}
use op_magic_trie.Trie.HashTable.{Table, get, grow_size}
use op_magic_trie.Trie.HashTable.Ring.{IsCapacity}
use op_magic_trie.Trie.HashTable.Probe.{IsProbed}
use op_magic_trie.Trie.Node.{
  Node, NodeData, hashed, plain, presence, kv_get, has_child, has_value, grown, grow_to, grow,
  next_version,
}
use op_magic_trie.Trie.Node.Scan.{is_some, IsNode, in_hash, in_array}
use op_magic_trie.Trie.Node.Copy.{whole, full, grow_from-Copies, CopiedPlain, plain_grow-copies}

-- The rounds that suffice from a capacity on: one at 256, one more for each halving.
pub data Within : ℕ → ℕ → Type 0 where
  last : {c fuel : ℕ} → c ≡ 256 → 0 < fuel → Within c fuel
  more : {c fuel : ℕ} → IsCapacity c → Within (grow_size c) fuel → Within c (suc fuel)

-- Six rounds suffice from any capacity on.
module _ (f : ℕ) where
  from_256 : Within 256 (suc f)
  from_256 = last refl (omega arith)

  from_128 : Within 128 (suc (suc f))
  unfolding grow_size
  from_128 = more (inr (inr (inr (inr refl)))) from_256

  from_64 : Within 64 (suc (suc (suc f)))
  unfolding grow_size
  from_64 = more (inr (inr (inr (inl refl)))) from_128

  from_32 : Within 32 (suc (suc (suc (suc f))))
  unfolding grow_size
  from_32 = more (inr (inr (inl refl))) from_64

  from_16 : Within 16 (suc (suc (suc (suc (suc f)))))
  unfolding grow_size
  from_16 = more (inr (inl refl)) from_32

  from_8 : Within 8 (suc (suc (suc (suc (suc (suc f))))))
  unfolding grow_size
  from_8 = more (inl refl) from_16

pub capacity-Within : (c : ℕ) → IsCapacity c ⊎ (c ≡ 256) → Within c 6
capacity-Within c (inr e) = rw e (from_256 5)
capacity-Within c (inl (inl e)) = rw e (from_8 0)
capacity-Within c (inl (inr (inl e))) = rw e (from_16 1)
capacity-Within c (inl (inr (inr (inl e)))) = rw e (from_32 2)
capacity-Within c (inl (inr (inr (inr (inl e))))) = rw e (from_64 3)
capacity-Within c (inl (inr (inr (inr (inr e))))) = rw e (from_128 4)

grow_size-capacity : (c : ℕ) → IsCapacity c → IsCapacity (grow_size c) ⊎ (grow_size c ≡ 256)
unfolding grow_size
grow_size-capacity c (inl e) = inl (inr (inl (rw e)))
grow_size-capacity c (inr (inl e)) = inl (inr (inr (inl (rw e))))
grow_size-capacity c (inr (inr (inl e))) = inl (inr (inr (inr (inl (rw e)))))
grow_size-capacity c (inr (inr (inr (inl e)))) = inl (inr (inr (inr (inr (rw e)))))
grow_size-capacity c (inr (inr (inr (inr e)))) = inr (rw e)

grow_size-lt : (c : ℕ) → IsCapacity c → c < grow_size c
unfolding grow_size
grow_size-lt c h = ground arith

module _ {V : Type 0} where
  -- `m` is `n` with a larger container.
  pub record GrownFrom (n m : Node V) : Type 0 where
    pub node : IsNode m
    pub larger : n.capacity < m.capacity
    pub same : (k : ℕ) → k < 256 → kv_get m k ≡ kv_get n k
    pub children : (k : ℕ) → has_child m k ≡ has_child n k
    pub values : (k : ℕ) → has_value m k ≡ has_value n k
    pub version : m.version ≡ next_version n.version

  module _ (n : Node V) (v : IsNode n) where
    hashed-GrownFrom :
        (c : ℕ) (t : Table (NodeData V))
        → IsCapacity c
        → n.capacity < c
        → IsProbed c t
        → ((k : ℕ) → k < 256 → get c t k ≡ kv_get n k)
        → GrownFrom n (grown n c (hashed t))
    unfolding kv_get has_child has_value presence
    hashed-GrownFrom c t cap larger inv same = record {
      node = record {
        child_words = v.child_words;
        value_words = v.value_words;
        stored = in_hash t cap inv refl;
        agrees = λ k h. ap is_some (same k h) ∙ v.agrees k h;
      };
      larger = larger;
      same = same;
      children = λ k. refl;
      values = λ k. refl;
      version = refl;
    }

    plain-GrownFrom :
        (c : ℕ) (d : ℕ → NodeData V)
        → c ≡ 256
        → n.capacity < c
        → CopiedPlain n v d 256
        → GrownFrom n (grown n c (plain d))
    unfolding kv_get has_child has_value presence
    plain-GrownFrom c d cap larger copied = record {
      node = record {
        child_words = v.child_words;
        value_words = v.value_words;
        stored = in_array d cap refl;
        agrees = λ k h. ap is_some (copied k h h) ∙ v.agrees k h;
      };
      larger = larger;
      same = λ k h. copied k h h;
      children = λ k. refl;
      values = λ k. refl;
      version = refl;
    }

    grow_to-GrownFrom :
        (fuel : ℕ) (blank : NodeData V) (c : ℕ)
        → Within c fuel
        → n.capacity < c
        → (m : Node V) × (grow_to fuel blank n c ≡ some m) × GrownFrom n m
    unfolding grow_to
    grow_to-GrownFrom zero blank c (last e l') l = absurd (omega arith)
    grow_to-GrownFrom (suc fuel) blank c (last e l') l =
        let (d, run, copied) = plain_grow-copies n v blank (omega arith) in
        let wide : ltb c 256 ≡ false = ground arith in
        (grown n c (plain d), rw (wide, run), plain-GrownFrom c d e l copied)
    grow_to-GrownFrom (suc fuel) blank c (more cap w) l =
        let narrow : ltb c 256 ≡ true = ground arith in
        elim (grow_from-Copies n v c cap blank l) [
          | whole t run inv same ↦
              (grown n c (hashed t), rw (narrow, run), hashed-GrownFrom c t cap l inv same)
          | full t _ run _ _ _ _ _ ↦
              let (m, e, g) =
                grow_to-GrownFrom fuel blank (grow_size c) w (omega (arith, grow_size-lt c cap)) in
              (m, rw (narrow, run) e, g)
        ]

    -- On a node under the invariant with a hash table, `grow` ends with a node under the invariant
    -- of a larger capacity that reads as before at every byte, with the same marks and the version
    -- one higher modulo 2 ^ 32.
    pub grow-GrownFrom :
        (blank : NodeData V)
        → IsCapacity n.capacity
        → (m : Node V) × (grow blank n ≡ some m) × GrownFrom n m
    unfolding grow
    grow-GrownFrom blank cap =
        grow_to-GrownFrom 6 blank (grow_size n.capacity)
          (capacity-Within (grow_size n.capacity) (grow_size-capacity n.capacity cap))
          (grow_size-lt n.capacity cap)
