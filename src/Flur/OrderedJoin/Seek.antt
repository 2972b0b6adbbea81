-- ===== src/Flur/OrderedJoin/Seek.antt =====
-- `opt_next` and `seek` on sources that produce ordered lists.
use mathlib.Core.Path.{subst}
use op_magic_trie.Prelude.{
  ℕ, zero, suc, ◌+◌, ◌≤◌, ◌<◌, ◌≡◌, refl, ◌∙◌, inl, inr, true, false, ◌&&◌, Option, some, List, [],
  ◌∷◌, length, arith, Bool-cases, ltb, ◌==◌, if◌then◌else◌,
}
use op_magic_trie.Flur.Sequence.{Sequence, Yields, done, more, From, Sorted, has_key}
use op_magic_trie.Flur.OrderedJoin.{OrderedJoin, opt_next, seek}

module _ {E : Type 0} (key : E → ℕ) (k : ℕ) where
  -- The list without its elements in front that are less than `k`.
  abbrev pub skip : List E → List E
  skip [] = []
  skip (x ∷ xs) = if ltb (key x) k then skip xs else x ∷ xs

  pub skip-length : (xs : List E) → length (skip xs) ≤ length xs
  skip-length [] = omega arith
  skip-length (x ∷ xs) = ground (arith, skip-length xs)

  pub skip-Sorted : (xs : List E) → Sorted key xs → Sorted key (skip xs)
  skip-Sorted [] h = h
  skip-Sorted (x ∷ xs) (h, t) = elim (Bool-cases (ltb (key x) k)) [
    | inl e ↦ rw e (skip-Sorted xs t)
    | inr e ↦ rw e (h, t)
  ]

module _ {S E : Type 0} (q : Sequence S E) (key : E → ℕ) (k : ℕ) where
  -- `opt_next` stops at the rest of the list behind the current element.
  pub opt_next-skip :
      (fuel : ℕ) (s : S) (xs : List E)
      → length xs < fuel
      → Yields q (q.next s) xs
      → (s' : S) × (opt_next fuel q key s k ≡ some s') × Yields q s' (skip key k xs)
  unfolding opt_next
  opt_next-skip zero s xs l y = absurd (omega arith)
  opt_next-skip (suc fuel) s [] l (done _ e) = (q.next s, rw e refl, done _ e)
  opt_next-skip (suc fuel) s (x ∷ xs) l (more _ _ _ e c y) = elim (Bool-cases (ltb (key x) k)) [
    | inl less ↦
        let (s', run, rest) = opt_next-skip fuel (q.next s) xs (omega arith) y in
        (s', rw (e, c, less) run, rw less rest)
    | inr at ↦ (q.next s, rw (e, c, at) refl, rw at (more _ x xs e c y))
  ]

module _ {E : Type 0} (key : E → ℕ) where
  From-weaken : (k m : ℕ) (xs : List E) → k ≤ m → From key m xs → From key k xs
  From-weaken k m [] l h = h
  From-weaken k m (x ∷ xs) l (a, t) = (omega arith, From-weaken k m xs l t)

  has_key-From : (m q : ℕ) (ys : List E) → From key m ys → q < m → has_key key ys q ≡ false
  has_key-From m q [] h l = refl
  has_key-From m q (y ∷ ys) (a, t) l = ground (arith, has_key-From m q ys t l)

  has_key-skip : (k q : ℕ) (ys : List E) → k ≤ q → has_key key (skip key k ys) q ≡ has_key key ys q
  has_key-skip k q [] l = refl
  has_key-skip k q (y ∷ ys) l = elim (Bool-cases (ltb (key y) k)) [
    | inl e ↦ rw e (has_key-skip k q ys l ∙ ground arith)
    | inr e ↦ rw e refl
  ]

module _ {L R : Type 0} (left_key : L → ℕ) (right_key : R → ℕ) where
  -- The elements of the left list whose key stands in the right one.
  abbrev pub matches : List L → List R → List L
  matches [] ys = []
  matches (x ∷ xs) ys =
      if has_key right_key ys (left_key x) then x ∷ matches xs ys else matches xs ys

  pub matches-none : (xs : List L) → matches xs [] ≡ []
  matches-none [] = refl
  matches-none (x ∷ xs) = matches-none xs

  matches-skip_left :
      (m : ℕ) (xs : List L) (ys : List R)
      → From right_key m ys
      → matches (skip left_key m xs) ys ≡ matches xs ys
  matches-skip_left m [] ys h = refl
  matches-skip_left m (x ∷ xs) ys h = elim (Bool-cases (ltb (left_key x) m)) [
    | inl e ↦
        let absent = has_key-From right_key m (left_key x) ys h (ground (arith, e)) in
        rw (e, absent) (matches-skip_left m xs ys h)
    | inr e ↦ rw e refl
  ]

  matches-skip_right :
      (k : ℕ) (xs : List L) (ys : List R)
      → From left_key k xs
      → matches xs (skip right_key k ys) ≡ matches xs ys
  matches-skip_right k [] ys h = refl
  matches-skip_right k (x ∷ xs) ys (a, t) =
      rw (has_key-skip right_key k (left_key x) ys a, matches-skip_right k xs ys t)

module _ {Left Right L R : Type 0} (left : Sequence Left L) (right : Sequence Right R)
    (left_key : L → ℕ) (right_key : R → ℕ) (fuel : ℕ) where
  -- `seek` stops at the end of a source, with no match left, or at the next match.
  pub data Stop (zs : List L) (o : Option (OrderedJoin Left Right)) : Type 0 where
    over :
        (j : OrderedJoin Left Right)
        → o ≡ some j
        → (left.in_range j.left && right.in_range j.right) ≡ false
        → zs ≡ []
        → Stop zs o
    match :
        (j : OrderedJoin Left Right) (x : L) (xs : List L) (ys : List R)
        → o ≡ some j
        → (left.in_range j.left && right.in_range j.right) ≡ true
        → left.current j.left ≡ x
        → Yields left (left.next j.left) xs
        → Yields right j.right ys
        → Sorted left_key xs
        → Sorted right_key ys
        → length xs + length ys < fuel
        → zs ≡ x ∷ matches left_key right_key xs ys
        → Stop zs o

  Stop-same :
      (zs ws : List L) (o : Option (OrderedJoin Left Right)) → zs ≡ ws → Stop zs o → Stop ws o
  Stop-same zs ws o e h = subst (λ vs. Stop vs o) e h

  abbrev SeekStops : ℕ → Type 0
  SeekStops rounds =
      (l : Left) (r : Right) (xs : List L) (ys : List R)
      → length xs + length ys < rounds
      → length xs + length ys < fuel
      → Yields left l xs
      → Yields right r ys
      → Sorted left_key xs
      → Sorted right_key ys
      → Stop (matches left_key right_key xs ys)
          (seek left right left_key right_key fuel rounds (record { left = l; right = r }))

  pub seek-Stop : (rounds : ℕ) → SeekStops rounds
  unfolding seek
  seek-Stop zero l r xs ys a b p q s t = absurd (omega arith)
  seek-Stop (suc rounds) l r [] ys a b (done _ e) q s t =
      over (record { left = l; right = r }) (rw e refl) (rw e refl) refl
  seek-Stop (suc rounds) l r (x ∷ xs) [] a b (more _ _ _ e c p) (done _ f) s t =
      over (record { left = l; right = r }) (rw (e, f) refl) (rw (e, f) refl)
        (matches-none left_key right_key xs)
  seek-Stop (suc rounds) l r (x ∷ xs) (y ∷ ys) a b (more _ _ _ e c p) (more _ _ _ f d q) (s, s')
        (t, t') =
      elim (Bool-cases (ltb (left_key x) (right_key y))) [
        | inl less ↦
            let m = right_key y in
            let (l', run, rest) = opt_next-skip left left_key m fuel l xs (omega arith) p in
            let shorter = skip-length left_key m xs in
            let ih =
              seek-Stop rounds l' r (skip left_key m xs) (y ∷ ys) (omega arith) (omega arith) rest
                (more r y ys f d q) (skip-Sorted left_key m xs s') (t, t') in
            let same = matches-skip_left left_key right_key m (x ∷ xs) (y ∷ ys) (omega arith, t) in
            rw (e, f, c, d, less, run) (Stop-same _ _ _ (rw less at same) ih)
        | inr not_less ↦ elim (Bool-cases (left_key x == right_key y)) [
          | inl equal ↦
              match (record { left = l; right = r }) x xs (y ∷ ys)
                (rw (e, f, c, d, not_less, equal) refl) (rw (e, f) refl) c p (more r y ys f d q) s'
                (t, t') (omega arith)
                (let at : (right_key y == left_key x) ≡ true = ground (arith, equal) in rw at refl)
          | inr other ↦
              let k = left_key x in
              let (r', run, rest) = opt_next-skip right right_key k fuel r ys (omega arith) q in
              let shorter = skip-length right_key k ys in
              let ih =
                seek-Stop rounds l r' (x ∷ xs) (skip right_key k ys) (omega arith) (omega arith)
                  (more l x xs e c p) rest (s, s') (skip-Sorted right_key k ys t') in
              let same =
                matches-skip_right left_key right_key k (x ∷ xs) (y ∷ ys) (omega arith, s) in
              let above : ltb (right_key y) k ≡ true = ground (arith, not_less, other) in
              rw (e, f, c, d, not_less, other, run) (Stop-same _ _ _ (rw above at same) ih)
        ]
      ]
