-- ===== src/Trie/HashTable.antt =====
-- The open-addressing table of impl/op/trie/HashTable.h, which holds the entries of a trie node
-- of capacity 8 to 128. A table is the memory that `Content* hash_data` points to, read and
-- written by index; the code masks each index, and `Ring` proves that it stays below capacity.
pub mod Ring
pub mod Probe
pub mod Insert
pub mod Added
pub mod Gap
pub mod Move
pub mod Weight
pub mod Erase
pub mod Erased
pub mod Modify
pub mod Tests
use Prim.Native.Nat.{bit_and}
use op_magic_trie.Prelude.{
  ℕ, zero, suc, ◌+◌, ◌-◌, ◌*◌, ◌/◌, ◌%◌, Bool, true, false, not, ◌&&◌, ◌||◌, Option, none, some,
  ltb, leb, ◌==◌, if◌then◌else◌,
}

-- `dim_nil_c`, an index that is none, is `none`.
unfoldable pub max_hash_neighbors : ℕ → ℕ
max_hash_neighbors dim =
    if dim == 8 || dim == 128
    then 2
    else if dim == 16 || dim == 32
    then 3
    else if dim == 64
    then 4
    else 1

unfoldable pub grow_size : ℕ → ℕ
grow_size capacity = if leb capacity 128 then capacity * 2 else 256

unfoldable pub bitmask : ℕ → ℕ
bitmask capacity = capacity - 1

-- The cast to `atom_t` keeps the low eight bits.
unfoldable pub hash : ℕ → ℕ → ℕ
unfolding bitmask
hash k table_size = bit_and (101 * k) (bitmask table_size) % 256

-- One slot of the table.
pub record Content {ℓ} (P : Type ℓ) : Type ℓ where
  pub key : ℕ
  pub presence : Bool
  pub payload : P

abbrev pub Table {ℓ} : Type ℓ → Type ℓ
Table P = ℕ → Content P

-- `hash_data[i] = c`
abbrev pub write {ℓ} : {P : Type ℓ} → Table P → ℕ → Content P → Table P
write t i c j = if j == i then c else t j

-- The result of `insert_impl`: the table, the position and whether the key is new.
pub record Inserted {ℓ} (P : Type ℓ) : Type ℓ where
  pub table : Table P
  pub pos : Option ℕ
  pub success : Bool

-- `++hash %= _capacity`, on a `dim_t` and on an `atom_t`.
pub next_pos : ℕ → ℕ → ℕ
next_pos capacity pos = (pos + 1) % capacity

unfoldable pub next_atom_pos : ℕ → ℕ → ℕ
next_atom_pos capacity pos = (pos + 1) % 256 % capacity

-- `std::abs` of the difference of two `unsigned`s.
abs_diff : ℕ → ℕ → ℕ
abs_diff a b = if ltb a b then b - a else a - b

pub less_pos : ℕ → ℕ → ℕ → Bool
unfolding abs_diff
less_pos tst_min tst_max capacity =
    if ltb (capacity / 2) (abs_diff tst_min tst_max)
    then ltb tst_max tst_min
    else ltb tst_min tst_max

module _ {ℓ} {P : Type ℓ} where
  -- `create`: every slot is assigned `{}`, whose payload is `init`.
  unfoldable pub create : P → Table P
  create init i = record { key = 0; presence = false; payload = init }

  unfoldable pub insert_loop : ℕ → ℕ → Table P → ℕ → (P → P) → ℕ → Inserted P
  insert_loop zero capacity t key factory pos = record { table = t; pos = none; success = false }
  insert_loop (suc rounds) capacity t key factory pos =
      let rest = insert_loop rounds capacity t key factory (next_atom_pos capacity pos) in
      let v = t pos in
      if not v.presence
      then record {
        table = write t pos (record { key = key; presence = true; payload = factory v.payload });
        pos = some pos;
        success = true;
      }
      else if v.key == key
      then record { table = t; pos = some pos; success = false }
      else rest

  -- The payload factory fills the slot in place, so it is a function of what stands there.
  unfoldable pub insert_impl : ℕ → Table P → ℕ → (P → P) → Inserted P
  insert_impl capacity t key factory =
      insert_loop (max_hash_neighbors capacity) capacity t key factory (hash key capacity)

  find_loop : ℕ → ℕ → Table P → ℕ → ℕ → Option ℕ
  find_loop zero capacity t key pos = none
  find_loop (suc rounds) capacity t key pos =
      let rest = find_loop rounds capacity t key (next_pos capacity pos) in
      let v = t pos in if not v.presence then none else if v.key == key then some pos else rest

  pub find : ℕ → Table P → ℕ → Option ℕ
  find capacity t key = find_loop (max_hash_neighbors capacity) capacity t key (hash key capacity)

  -- `get` and `cget`: the payload at the position that `find_impl` collects.
  pub payload_at : Table P → Option ℕ → Option P
  payload_at t none = none
  payload_at t (some i) = let v = t i in some v.payload

  pub get : ℕ → Table P → ℕ → Option P
  get capacity t key = payload_at t (find capacity t key)

  -- A write through the pointer that `get` returns.
  pub modify : ℕ → Table P → ℕ → (P → P) → Table P
  modify capacity t key f = elim (find capacity t key) [
    | none ↦ t
    | some i ↦
        let v = t i in
        write t i (record { key = v.key; presence = v.presence; payload = f v.payload })
  ]

  -- The loop of `restore_on_erase`, with fuel; `none` means that the fuel ran out. A move sets
  -- `limit` anew, and the step of the loop takes one off it at once.
  restore_loop : ℕ → ℕ → Table P → ℕ → ℕ → ℕ → ℕ → Option (Table P)
  restore_loop zero capacity t erase_pos erased_hash i limit = none
  restore_loop (suc fuel) capacity t erase_pos erased_hash i limit =
      let item = t i in
      let local_hash = hash item.key capacity in
      let gap = t erase_pos in
      let finish =
        some
          (write t erase_pos (record { key = gap.key; presence = false; payload = gap.payload })) in
      let skip =
        restore_loop fuel capacity t erase_pos erased_hash (next_pos capacity i) (limit - 1) in
      let move =
        restore_loop fuel capacity (write t erase_pos item) i local_hash (next_pos capacity i)
          (max_hash_neighbors capacity - 1) in
      let x = if less_pos erased_hash erase_pos capacity then erase_pos else erased_hash in
      if limit == 0
      then finish
      else if not item.presence
      then finish
      else if i == local_hash
      then skip
      else if not (less_pos x local_hash capacity)
      then move
      else skip

  -- Each move takes an entry nearer to its hash, so that the loop ends within the fuel.
  pub restore_on_erase : ℕ → Table P → ℕ → Option (Table P)
  restore_on_erase capacity t erase_pos =
      let item = t erase_pos in
      restore_loop (16 * capacity) capacity t erase_pos (hash item.key capacity)
        (next_pos capacity erase_pos) (max_hash_neighbors capacity)

  erase_loop : ℕ → ℕ → Table P → ℕ → ℕ → Option (Table P × Bool)
  erase_loop zero capacity t key pos = some (t, false)
  erase_loop (suc rounds) capacity t key pos =
      let rest = erase_loop rounds capacity t key (next_pos capacity pos) in
      let v = t pos in
      let restored = restore_on_erase capacity t pos in
      if not v.presence
      then some (t, false)
      else if v.key == key
      then elim restored [ none ↦ none | some t' ↦ some (t', true) ]
      else rest

  pub erase : ℕ → Table P → ℕ → Option (Table P × Bool)
  erase capacity t key = erase_loop (max_hash_neighbors capacity) capacity t key (hash key capacity)
