-- ===== src/L3/Allocate.antt =====
-- `allocate` of l3.hpp hands out a reference that no live order has.
use crossbook.Common.{ℕ, ◌+◌, ◌%◌, ◌^◌, ◌≤◌, ◌<◌, ◌≡◌, refl, arith, All, subst}
use crossbook.Common.{false, ◌==◌, List, [], ◌∷◌}
use crossbook.Types.{Side, Price}
use crossbook.L3.Table.{no_order}
use crossbook.L3.{L3Book, allocate, allocate_from, find_level}
use crossbook.L3.Links.{IsFresh, IsDistinct, All-imp, All-and}
use crossbook.L3.LinkBack.{everywhere}
use crossbook.L3.Valid.{IsFiled}
use native.Mathlib.Nat.{mod-eq_of_lt}

pub record IsAllocated (b : L3Book) (rs : List ℕ) (r : ℕ) (b' : L3Book) : Type 0 where
  pub fresh : IsFresh r rs
  pub below : r < b'.arena_size
  pub same : All (λ j. b'.orders j ≡ b.orders j) rs
  pub free : All (λ x. (x < b'.arena_size) × IsFresh x rs × ((r == x) ≡ false)) b'.free_list
  pub free_distinct : IsDistinct b'.free_list
  pub bounded : b'.arena_size ≤ no_order
  pub grown : b.arena_size ≤ b'.arena_size
  pub one_more : b'.arena_size ≤ b.arena_size + 1
  pub table : b'.table ≡ b.table
  pub live_orders : b'.live_orders ≡ b.live_orders
  pub levels : (s : Side) (p : Price) → find_level b' s p ≡ find_level b s p

All-below : (n : ℕ) (xs : List ℕ) → All (λ x. x < n) xs → IsFresh n xs
All-below n [] h = tt
All-below n (x ∷ xs) (k, h) = (ground arith, All-below n xs h)

allocate_from-IsAllocated :
    {b : L3Book} {rs : List ℕ} (k : IsFiled b rs)
    → b.arena_size < no_order
    → (fs : List ℕ) → b.free_list ≡ fs
    → IsAllocated b rs (allocate_from fs b).0 (allocate_from fs b).1
unfolding allocate_from find_level
allocate_from-IsAllocated {b} {rs} k room (r ∷ fs) e =
    let ((below, fresh), others) = subst (All (λ x. (x < b.arena_size) × IsFresh x rs)) e k.free in
    let (new, distinct) = subst IsDistinct e k.free_distinct in
    record {
      fresh = fresh;
      below = below;
      same = everywhere _ rs (λ j. refl);
      free =
          All-imp (λ x. ((x < b.arena_size) × IsFresh x rs) × ((r == x) ≡ false)) _ fs
            (λ x h. (h.0.0, h.0.1, h.1)) (All-and _ (λ x. (r == x) ≡ false) fs others new);
      free_distinct = distinct;
      bounded = k.bounded;
      grown = omega arith;
      one_more = omega arith;
      table = refl;
      live_orders = refl;
      levels = λ s p. refl;
    }
allocate_from-IsAllocated {b} {rs} k room [] e =
    let wraps_not : b.arena_size % 2 ^ 32 ≡ b.arena_size = mod-eq_of_lt (omega arith) in
    let fresh : IsFresh b.arena_size rs =
      All-below b.arena_size rs (All-imp _ (λ x. x < b.arena_size) rs (λ x h. h.2) k.alive) in
    record {
      fresh = rw wraps_not fresh;
      below = rw wraps_not (omega arith);
      same = All-imp (λ x. (b.arena_size == x) ≡ false) _ rs (λ x h. rw h) fresh;
      free = rw e tt;
      free_distinct = k.free_distinct;
      bounded = omega arith;
      grown = omega arith;
      one_more = omega arith;
      table = refl;
      live_orders = refl;
      levels = λ s p. refl;
    }

-- One more order fits while the arena is below the sentinel.
pub allocate-IsAllocated :
    {b : L3Book} {rs : List ℕ} (k : IsFiled b rs)
    → b.arena_size < no_order
    → IsAllocated b rs (allocate b).0 (allocate b).1
unfolding allocate
allocate-IsAllocated {b} k room = allocate_from-IsAllocated k room b.free_list refl
