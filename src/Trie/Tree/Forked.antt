-- ===== src/Trie/Tree/Forked.antt =====
-- A trie with the keys "abx" and "aby" less the second: a branch behind "ab".
use op_magic_trie.Prelude.{
  ℕ, ◌≡◌, refl, sym, ◌∙◌, Bool, true, false, Option, none, some, List, [], ◌∷◌, arith, ◌==◌,
  if◌then◌else◌,
}
use op_magic_trie.Trie.Node.{Node, NodeData, has_value, kv_get}
use op_magic_trie.Trie.Node.Create.{create_interior}
use op_magic_trie.Trie.Shape.{here}
use op_magic_trie.Trie.Tree.{Trie, init_node_size, new_node, create_new, stem_chars}
use op_magic_trie.Trie.Tree.View.{item_of, node_item, node_item_inside, IsTrie}
use op_magic_trie.Trie.Tree.Gained.{IsTrie-gain}
use op_magic_trie.Trie.Tree.Grafted.{IsTrie-graft}
use op_magic_trie.Trie.Tree.Written.{Valued, insert-Valued}
use op_magic_trie.Trie.Tree.Divided.{Bare, create_interior-Bare, Divided, move_from_entry-Divided}
use op_magic_trie.Trie.Tree.Place.{init_node_size-IsCapacity}
use op_magic_trie.Trie.Tree.Built.{create_new-IsTrie}
use op_magic_trie.Trie.Tree.Ways.{EndsAtBranch}
use op_magic_trie.Trie.Tree.Branch.{FailsBehind, insert_impl-EndsAtBranch}

abbrev blank : NodeData ℕ
blank = record { child = none; stem = none; value = 0 }

-- The root is at 0, the other node at 1, and 2 is not in use.
abbrev allocate : Trie ℕ → ℕ
allocate t = if t.nodes_allocated == 0 then 0 else 2

abbrev empty_node : Node ℕ
empty_node = create_interior blank (init_node_size 0)

pub empty-Bare : Bare empty_node
empty-Bare = create_interior-Bare blank (init_node_size 0) (init_node_size-IsCapacity 0)

abbrev at_nodes : (ℕ → Option (Node ℕ)) → Trie ℕ
at_nodes nodes = record { nodes = nodes; root = 0; count = 1; nodes_allocated = 2; version = 1 }

abbrev new_trie : Trie ℕ
new_trie = create_new blank allocate

new_trie-IsTrie : IsTrie new_trie
new_trie-IsTrie = create_new-IsTrie blank allocate

new_root : new_trie.nodes 0 ≡ some empty_node
unfolding create_new new_node
new_root = refl

pub written : (m : Node ℕ) × Valued empty_node m 97 (98 ∷ 120 ∷ []) 7
written =
    let (m, run, v) =
      insert-Valued empty_node empty-Bare.good 97 (omega arith) blank (98 ∷ 120 ∷ []) 7
        (empty-Bare.unmarked 97) (omega arith, (omega arith, tt)) (omega arith) in
    (m, v)

abbrev pub one_trie : Trie ℕ
one_trie = at_nodes (λ b. if b == 0 then some written.0 else none)

pub one_trie-IsTrie : IsTrie one_trie
unfolding create_new new_node
one_trie-IsTrie =
    let v = written.1 in
    IsTrie-gain new_trie one_trie new_trie-IsTrie 0 empty_node written.0 new_root
      (λ b. again (b == 0) (some written.0) (some empty_node)) refl v.good v.link
  where
    again :
        (p : Bool) (x y : Option (Node ℕ))
        → (if p then x else none) ≡ (if p then x else if p then y else none)
    again true x y = refl
    again false x y = refl

item_entry :
    (v : Bool) (o : Option (NodeData ℕ)) (s : List ℕ) (x : ℕ)
    → (if v then item_of o else none) ≡ some (s, x)
    → (e : NodeData ℕ) × (o ≡ some e) × (stem_chars e.stem ≡ s)
item_entry false o s x e = absurd (ground (arith, e))
item_entry true none s x e = absurd (ground (arith, e))
item_entry true (some d) s x e = (d, refl, cc e)

-- The entry at the byte.
pub entry : (e : NodeData ℕ) × (kv_get written.0 97 ≡ some e) × (stem_chars e.stem ≡ 98 ∷ 120 ∷ [])
entry =
    let m = written.0 in
    let item : node_item m 97 ≡ some (98 ∷ 120 ∷ [], 7) = written.1.item 97 in
    item_entry (has_value m 97) (kv_get m 97) (98 ∷ 120 ∷ []) 7
      (sym (node_item_inside m 97 refl) ∙ item)

abbrev moved : Option ℕ
moved = (let e = entry.0 in e.child)

abbrev value : Option ℕ
value = if has_value written.0 97 then some (let e = entry.0 in e.value) else none

divided : (m : Node ℕ) × (u : Node ℕ) × Divided written.0 m u 97 1 120 (98 ∷ []) [] moved value
divided =
    let (m, u, run, d) =
      move_from_entry-Divided blank written.0 written.1.good 97 (omega arith) entry.0 entry.1
        (init_node_size 1) (init_node_size-IsCapacity 1) 1 (98 ∷ []) 120 [] entry.2 in
    (m, u, d)

abbrev forked_trie : Trie ℕ
forked_trie =
    at_nodes (λ b. if b == 0 then some divided.0 else if b == 1 then some divided.1 else none)

forked_trie-IsTrie : IsTrie forked_trie
forked_trie-IsTrie =
    let d = divided.2 in
    IsTrie-graft one_trie forked_trie one_trie-IsTrie 0 1 written.0 divided.0 divided.1 refl refl
      (λ b.
        again (b == 0) (some divided.0) (some written.0) (if b == 1 then some divided.1 else none)
          (b == 1) (some divided.1))
      refl d.good_source d.good_target [] 97 (98 ∷ []) [] 120 moved (here refl refl) d.link_before
      d.link_source d.link_target
  where
    again :
        (p : Bool) (x y z : Option (Node ℕ)) (q : Bool) (w : Option (Node ℕ))
        → (if p then x else if q then w else none)
          ≡ (if p then x else if q then w else if p then y else none)
    again true x y z q w = refl
    again false x y z true w = refl
    again false x y z false w = refl

ends_at_branch : EndsAtBranch forked_trie (97 ∷ 98 ∷ [])
ends_at_branch = record {
  path = [];
  address = 0;
  byte = 97;
  stem = 98 ∷ [];
  child = 1;
  reach = here refl refl;
  link = divided.2.link_source 97;
  bare = divided.2.item_source 97;
  longer = λ e. cc e;
  spells = refl;
}

insert_impl-EndsAtBranch_example :
    FailsBehind forked_trie forked_trie-IsTrie blank allocate refl (97 ∷ 98 ∷ []) 5 ends_at_branch
insert_impl-EndsAtBranch_example =
    insert_impl-EndsAtBranch forked_trie forked_trie-IsTrie blank allocate refl (97 ∷ 98 ∷ []) 5
      ends_at_branch
