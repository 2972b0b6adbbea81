-- ===== src/Trie/Tree/Insert.antt =====
-- The last step of an insertion: a new entry with a value.
use mathlib.Core.List.{append_assoc}
use op_magic_trie.Prelude.{
  Bool-cases, ==_iff, ℕ, ◌-◌, ◌<◌, ◌≡◌, ◌↔◌, refl, sym, ap, ◌∙◌, ◌⊎◌, inl, inr, true, false, some,
  List, [], ◌∷◌, ◌++◌, length, length-append, drop, drop-append, arith, ◌==◌, if◌then◌else◌, ◌≢◌,
  none,
}
use op_magic_trie.Trie.Node.{Node, NodeData, presence}
use op_magic_trie.Trie.Iterator.{TrieIterator, suffix, rat}
use op_magic_trie.Trie.Shape.{Reach}
use op_magic_trie.Trie.Tree.{Trie, Insertion, unconditional_insert, counted, store_node, next_u64}
use op_magic_trie.Trie.Tree.View.{AllBytes, Stored, links, IsTrie}
use op_magic_trie.Trie.Tree.Walk.{Stands}
use op_magic_trie.Trie.Tree.Gained.{IsTrie-gain, Stored-gain}
use op_magic_trie.Trie.Tree.Written.{Valued, insert-Valued}

-- The trie has the new key, and all others as before; the iterator is at the key, and no address
-- but `c` comes into use.
pub record Inserted {V : Type 0} (c : ℕ) (t : Trie V) (q : List ℕ) (v : V) (r : Insertion V)
    : Type 0 where
  pub trie : IsTrie r.trie
  pub keys : (p : List ℕ) (x : V) → Stored r.trie p x ↔ (Stored t p x ⊎ ((p ≡ q) × (x ≡ v)))
  pub position : r.iter.prefix ≡ q
  pub new : r.exists ≡ false
  pub terminals : r.trie.count ≡ next_u64 t.count
  pub unused : (b : ℕ) → t.nodes b ≡ none → b ≢ c → r.trie.nodes b ≡ none

suffix_lem : (it : TrieIterator) (l s : List ℕ) → it.prefix ≡ l ++ s → suffix it (length s) ≡ s
suffix_lem it l s e =
    let size : length it.prefix - length s ≡ length l =
      omega (arith, ap length e, length-append l s) in
    (λ i. drop (size i) (e i)) ∙ drop-append l s

module _ {V : Type 0} (blank : NodeData V) (t : Trie V) (w : IsTrie t) (p : List ℕ) (a : ℕ)
    (n : Node V) (k : ℕ) (s : List ℕ) (v : V) (reach : Reach (links t) t.root p a)
    (here : t.nodes a ≡ some n) where
  -- A node with the value is stored.
  pub Valued-Inserted :
      (c : ℕ) (m : Node V) (it : TrieIterator) (u : Trie V)
      → ((b : ℕ) → u.nodes b ≡ (if b == a then some m else t.nodes b))
      → u.root ≡ t.root
      → u.count ≡ next_u64 t.count
      → it.prefix ≡ p ++ k ∷ s
      → Valued n m k s v
      → Inserted c t (p ++ k ∷ s) v (record { trie = u; iter = it; exists = false })
  Valued-Inserted c m it u nodes root count spells written = record {
    trie = IsTrie-gain t u w a n m here nodes root written.good written.link;
    keys = λ q x.
        Stored-gain t u w a n m here nodes root written.good written.link p k s v reach
          written.absent written.item q x;
    position = spells;
    new = refl;
    terminals = count;
    unused = λ b e _. elim (Bool-cases (b == a)) [
      | inl same ↦
          let at_a : t.nodes a ≡ none = ap t.nodes (sym ((==_iff b a).0 same)) ∙ e in
          absurd (ground (arith, at_a, here))
      | inr apart ↦ nodes b ∙ rw apart e
    ];
  }

  -- `unconditional_insert` at a byte that is not marked.
  pub unconditional_insert-Inserted :
      (c : ℕ) (it : TrieIterator)
      → k < 256
      → presence n k ≡ false
      → AllBytes s
      → length s < 0xFFFE
      → Stands it a k (some (length s)) (p ++ k ∷ s)
      → (r : Insertion V) × (unconditional_insert blank t it v ≡ some r)
        × Inserted c t (p ++ k ∷ s) v r
  unfolding unconditional_insert
  unconditional_insert-Inserted c it small unmarked bytes short st =
      let (m, run, written) =
        insert-Valued n (w.good a n here) k small blank s v unmarked bytes short in
      let spells : it.prefix ≡ (p ++ k ∷ []) ++ s = st.spells ∙ sym (append_assoc p (k ∷ []) s) in
      let chars = suffix_lem it (p ++ k ∷ []) s spells in
      (
        record {
          trie = counted (store_node t a m);
          iter = rat it (λ q. record q { has_data = true; version = m.version });
          exists = false;
        },
        rw (unconditional_insert, st.address, st.key, st.stem, here, chars, run) refl,
        Valued-Inserted c m _ _ (λ b. refl) refl refl st.spells written,
      )

-- A step that stores no other keys comes before.
pub Inserted-after :
    {V : Type 0} (c : ℕ) (t u : Trie V) (q : List ℕ) (v : V) (r : Insertion V)
    → ((p : List ℕ) (x : V) → Stored u p x ↔ Stored t p x)
    → u.count ≡ t.count
    → ((b : ℕ) → t.nodes b ≡ none → b ≢ c → u.nodes b ≡ none)
    → Inserted c u q v r
    → Inserted c t q v r
Inserted-after c t u q v r same count spare done = record {
  trie = done.trie;
  keys = λ p x. (
    λ h. elim ((done.keys p x).0 h) [ inl old ↦ inl ((same p x).0 old) | inr now ↦ inr now ],
    λ h. (done.keys p x).1 (elim h [ inl old ↦ inl ((same p x).1 old) | inr now ↦ inr now ]),
  );
  position = done.position;
  new = done.new;
  terminals = done.terminals ∙ ap next_u64 count;
  unused = λ b e apart. done.unused b (spare b e apart) apart;
}
