-- ===== src/Trie/Mixed/Drop.antt =====
-- A list of keys without one of them.
use mathlib.Core.List.{Memᴰ}
use op_magic_trie.Prelude.{suc, ◌≡◌, ◌≢◌, refl, sym, ap, ◌∙◌, List, [], ◌∷◌, length}

module _ {A : Type 0} where
  pub drop_one :
      (xs : List A) (a : A)
      → Memᴰ a xs
      → (ys : List A) × (length xs ≡ suc (length ys)) × ((b : A) → b ≢ a → Memᴰ b xs → Memᴰ b ys)
  drop_one [] a here_none = elim here_none [ ]
  drop_one (x ∷ xs) a (Memᴰ.head same) = (xs, refl, kept)
    where
      kept : (b : A) → b ≢ a → Memᴰ b (x ∷ xs) → Memᴰ b xs
      kept b other (Memᴰ.head at) = absurd (other (at ∙ sym same))
      kept b other (Memᴰ.tail behind) = behind
  drop_one (x ∷ xs) a (Memᴰ.tail behind) =
      let (ys, sizes, keep) = drop_one xs a behind in (x ∷ ys, ap suc sizes, kept ys keep)
    where
      kept :
          (ys : List A)
          → ((b : A) → b ≢ a → Memᴰ b xs → Memᴰ b ys)
          → (b : A) → b ≢ a
          → Memᴰ b (x ∷ xs)
          → Memᴰ b (x ∷ ys)
      kept ys keep b other (Memᴰ.head at) = Memᴰ.head at
      kept ys keep b other (Memᴰ.tail behind) = Memᴰ.tail (keep b other behind)
