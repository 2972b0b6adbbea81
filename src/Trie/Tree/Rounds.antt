-- ===== src/Trie/Tree/Rounds.antt =====
-- One round of `mismatch` on each of its ways.
use op_magic_trie.Prelude.{
  ℕ, zero, suc, ◌<◌, ◌≡◌, refl, Bool, true, false, Option, none, some, List, [], ◌∷◌, ◌++◌, arith,
  if◌then◌else◌,
}
use op_magic_trie.Trie.Node.{Node, NodeData, has_child, has_value, kv_get}
use op_magic_trie.Trie.Iterator.{
  StemCompareResult, equals, string_end, stem_end, no_entry, TrieIterator, rat, update_stem,
}
use op_magic_trie.Trie.Shape.{Down}
use op_magic_trie.Trie.Tree.{
  Trie, stem_chars, stem_compare, settle, Compared, Mismatch, mismatch, descend, Further,
  behind_stem, round,
}
use op_magic_trie.Trie.Tree.View.{AllBytes, links, items}
use op_magic_trie.Trie.Tree.Walk.{Walked, found, missing, inside, short, differs}

pub AllBytes-append : (m r : List ℕ) → AllBytes (m ++ r) → AllBytes r
AllBytes-append [] r h = h
AllBytes-append (b ∷ m) r (_, h) = AllBytes-append m r h

module _ {V : Type 0} (t : Trie V) where
  -- A walk below the child of an entry is one from the entry.
  pub Walked-lift :
      (whole q r : List ℕ) (a c : ℕ) (o : Option Mismatch)
      → ((v : V) → Down (links t) (items t) c r v → Down (links t) (items t) a q v)
      → ((v : V) → Down (links t) (items t) a q v → Down (links t) (items t) c r v)
      → Walked t whole r c o
      → Walked t whole q a o
  Walked-lift whole q r a c o up down
        (found it p b n k e out reach here small entry valued spells st d only) =
      found it p b n k e out reach here small entry valued spells st (up e.value d)
        (λ v x. only v (down v x))
  Walked-lift whole q r a c o up down
        (missing it p b n k rest out reach here small bare spells bytes st gone) =
      missing it p b n k rest out reach here small bare spells bytes st (λ v d. gone v (down v d))
  Walked-lift whole q r a c o up down
        (inside it p b n k e m tail out reach here small entry parts stops spells st gone) =
      inside it p b n k e m tail out reach here small entry parts stops spells st
        (λ v d. gone v (down v d))
  Walked-lift whole q r a c o up down
        (short it p b n k e x rest out reach here small entry leaf spells bytes st gone) =
      short it p b n k e x rest out reach here small entry leaf spells bytes st
        (λ v d. gone v (down v d))
  Walked-lift whole q r a c o up down
        (differs it p b n k e m x y tail rest out reach here small entry parts ne spells bytes st
          gone) =
      differs it p b n k e m x y tail rest out reach here small entry parts ne spells bytes st
        (λ v d. gone v (down v d))

  pub mismatch-none :
      (fuel : ℕ) (it : TrieIterator) (b : ℕ) (bs : List ℕ) (r : StemCompareResult)
      → 0 < fuel
      → mismatch fuel t none it (b ∷ bs) r ≡ some (record { result = r; iter = it; rest = b ∷ bs })
  unfolding mismatch
  mismatch-none zero it b bs r h = absurd (omega (arith, h))
  mismatch-none (suc fuel) it b bs r h = refl

module _ {V : Type 0} (further : Further) (n : Node V) (it : TrieIterator) (k : ℕ)
    (rest : List ℕ) where
  pub round_missing :
      has_value n k ≡ false
      → has_child n k ≡ false
      → round further n it k rest ≡ some (record { result = no_entry; iter = it; rest = rest })
  unfolding round
  round_missing bare leaf = rw (bare, leaf) refl

  pub round_bare :
      has_value n k ≡ false
      → has_child n k ≡ true
      → rest ≡ []
      → round further n it k rest
        ≡ some (record {
          result = string_end;
          iter = rat it (λ p. record p { stem_size = some 0 });
          rest = [];
        })
  unfolding round
  round_bare bare inner e = rw (bare, inner, e) refl

  module _ (e : NodeData V) (entry : kv_get n k ≡ some e) where
    abbrev compared : Compared → Option Mismatch
    compared c = behind_stem further n it k e.child c

    pub round_valued :
        has_value n k ≡ true
        → round further n it k rest ≡ compared (stem_compare (stem_chars e.stem) rest)
    unfolding round
    round_valued valued = rw (entry, valued) refl

    pub round_inner :
        (b : ℕ) (bs : List ℕ)
        → has_value n k ≡ false
        → has_child n k ≡ true
        → rest ≡ b ∷ bs
        → round further n it k rest ≡ compared (stem_compare (stem_chars e.stem) rest)
    unfolding round
    round_inner b bs bare inner more = rw (entry, bare, inner, more) refl

module _ {V : Type 0} (further : Further) (n : Node V) (it : TrieIterator) (k : ℕ)
    (child : Option ℕ) (m : List ℕ) where
  abbrev behind : TrieIterator
  behind = update_stem it m

  pub behind_whole :
      (v : Bool)
      → has_value n k ≡ v
      → behind_stem further n it k child (record { matched = m; rest = []; result = equals })
        ≡ some (record { result = if v then equals else string_end; iter = behind; rest = [] })
  unfolding behind_stem settle
  behind_whole true valued = rw valued refl
  behind_whole false bare = rw bare refl

  pub behind_more :
      (b : ℕ) (bs : List ℕ)
      → behind_stem further n it k child (record { matched = m; rest = b ∷ bs; result = equals })
        ≡ further child (descend behind n k child) (b ∷ bs) stem_end
  unfolding behind_stem settle
  behind_more b bs = refl
