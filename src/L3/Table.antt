-- ===== src/L3/Table.antt =====
-- The hash table of `L3Book` in include/crossbook/l3.hpp, from order ids to arena references: open
-- addressing with linear probing and tombstones. The vector is its size and a function of the index.
pub mod Probe
pub mod Valid
pub mod Write
pub mod Grow
pub mod Laws
use crossbook.Common.{ℕ, zero, suc, ◌+◌, ◌-◌, ◌*◌, ◌/◌, ◌%◌, ◌^◌, bit_and, bit_xor}
use crossbook.Common.{Bool, true, false, not, ◌&&◌, if◌then◌else◌, ltb, leb, ◌==◌}

-- `OrderRef` is a uint32_t; its greatest value stands for none.
abbrev pub no_order : ℕ
no_order = 2 ^ 32 - 1

pub record Slot : Type 0 where
  pub id : ℕ
  pub ref : ℕ
  pub occupied : Bool
  pub tombstone : Bool

abbrev pub blank_slot : Slot
blank_slot = record { id = 0; ref = no_order; occupied = false; tombstone = false }

-- `table_` with its size, and `table_used_`.
pub record IdTable : Type 0 where
  pub slots : ℕ → Slot
  pub size : ℕ
  pub used : ℕ

-- The loop doubles `p`, at most once for every unit of `n`.
unfoldable pub next_pow2_from : ℕ → ℕ → ℕ → ℕ
next_pow2_from zero n p = p
next_pow2_from (suc fuel) n p =
    let rest = next_pow2_from fuel n (p * 2) in if ltb p n then rest else p

unfoldable pub next_pow2 : ℕ → ℕ
unfolding next_pow2_from
next_pow2 n = next_pow2_from n n 16

-- splitmix64, on uint64_t.
unfoldable pub mix_id : ℕ → ℕ
mix_id id =
    let z = (id + 0x9E3779B97F4A7C15) % 2 ^ 64 in
    let z' = bit_xor z (z / 2 ^ 30) * 0xBF58476D1CE4E5B9 % 2 ^ 64 in
    let z'' = bit_xor z' (z' / 2 ^ 27) * 0x94D049BB133111EB % 2 ^ 64 in bit_xor z'' (z'' / 2 ^ 31)

abbrev pub is_fresh : Slot → Bool
is_fresh s = not s.occupied && not s.tombstone

abbrev pub is_of : ℕ → Slot → Bool
is_of x s = s.occupied && s.id == x

unfoldable pub home : IdTable → ℕ → ℕ
home t x = bit_and (mix_id x) (t.size - 1)

unfoldable pub next_slot : IdTable → ℕ → ℕ
next_slot t i = bit_and (i + 1) (t.size - 1)

-- The probe loop of `find_ref`, on the probes that are left.
unfoldable pub find_from : ℕ → IdTable → ℕ → ℕ → ℕ
find_from zero t x i = no_order
find_from (suc probes) t x i =
    let rest = find_from probes t x (next_slot t i) in
    if is_fresh (t.slots i) then no_order else if is_of x (t.slots i) then (t.slots i).ref else rest

unfoldable pub find_ref : IdTable → ℕ → ℕ
unfolding find_from home next_slot
find_ref t x = if t.size == 0 then no_order else find_from t.size t x (home t x)

abbrev pub write_slot : IdTable → ℕ → Slot → IdTable
write_slot t i s = record t { slots = λ j. if i == j then s else t.slots j }

-- `while (table_[i].occupied)`. A table with a vacant slot has one within `size` steps.
unfoldable pub vacant : ℕ → IdTable → ℕ → ℕ
vacant zero t i = i
vacant (suc fuel) t i =
    let rest = vacant fuel t (next_slot t i) in if (t.slots i).occupied then rest else i

abbrev pub occupied_slot : ℕ → ℕ → Slot
occupied_slot x r = record { id = x; ref = r; occupied = true; tombstone = false }

-- The body of `rehash`'s loop, for an occupied slot.
unfoldable pub replant : IdTable → ℕ → ℕ → IdTable
unfolding vacant home next_slot
replant t x r = record (write_slot t (vacant t.size t (home t x)) (occupied_slot x r)) {
  used = t.used + 1;
}

-- The first `n` slots of the old table have been moved.
unfoldable pub moved : ℕ → IdTable → IdTable → IdTable
moved zero old t = t
moved (suc n) old t =
    let t' = moved n old t in
    if (old.slots n).occupied then replant t' (old.slots n).id (old.slots n).ref else t'

-- `table_.assign(capacity, Slot{})`.
abbrev pub assign_slots : ℕ → IdTable
assign_slots capacity = record { slots = λ j. blank_slot; size = capacity; used = 0 }

unfoldable pub rehash : IdTable → ℕ → IdTable
unfolding moved replant
rehash t capacity = moved t.size t (assign_slots capacity)

unfoldable pub grow : IdTable → IdTable
unfolding rehash
grow t = if leb (t.size * 7) ((t.used + 1) * 10) then rehash t (t.size * 2) else t

unfoldable pub put_slot : IdTable → ℕ → ℕ → ℕ → IdTable
put_slot t i x r = record (write_slot t i (occupied_slot x r)) {
  used = if (t.slots i).tombstone then t.used else t.used + 1;
}

unfoldable pub insert_ref : IdTable → ℕ → ℕ → IdTable
unfolding grow vacant home next_slot put_slot
insert_ref t x r = let g = grow t in put_slot g (vacant g.size g (home g x)) x r

abbrev pub bury : IdTable → ℕ → IdTable
bury t i = write_slot t i (record (t.slots i) { occupied = false; tombstone = true })

unfoldable pub erase_from : ℕ → IdTable → ℕ → ℕ → IdTable
erase_from zero t x i = t
erase_from (suc probes) t x i =
    let rest = erase_from probes t x (next_slot t i) in
    if is_fresh (t.slots i) then t else if is_of x (t.slots i) then bury t i else rest

unfoldable pub erase_ref : IdTable → ℕ → IdTable
unfolding erase_from home next_slot
erase_ref t x = erase_from t.size t x (home t x)

-- The table's part of `clear`.
unfoldable pub clear_table : IdTable → IdTable
clear_table t = record t { slots = λ j. blank_slot; used = 0 }

-- The table's part of the constructor.
unfoldable pub make_table : ℕ → IdTable
unfolding next_pow2 rehash
make_table expected_orders =
    rehash (record { slots = λ j. blank_slot; size = 0; used = 0 })
      (next_pow2 (expected_orders * 2))
