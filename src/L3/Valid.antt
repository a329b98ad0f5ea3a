-- ===== src/L3/Valid.antt =====
-- The invariant of `L3Book` in l3.hpp, and the abstract book that it stands for.
use crossbook.Common.{ℕ, ◌≤◌, ◌<◌, ◌≡◌, ◌≢◌, sym, ap, ◌∙◌, All, length, subst}
use crossbook.Common.{true, ◌⊎◌, inl, inr}
use crossbook.Common.{List, [], ◌∷◌, ◌++◌, map}
use crossbook.Types.{Side, Price}
use crossbook.L3.Table.{no_order, find_ref}
use crossbook.L3.Table.Valid.{IsTable}
use crossbook.L3.{Order, L3Book, is_positive, find_level}
use crossbook.L3.Links.{IsFresh, IsDistinct, All-imp, Linked-frame}
use crossbook.L3.Queues.{IsQueued, queue, in_queue, expected-same, All-select}
use crossbook.L3.LinkBack.{queue-same}
use crossbook.L3.Spec.{Resting}

abbrev pub Listed : ℕ → List ℕ → Type 0
Listed r [] = ⊥
Listed r (x ∷ xs) = (r ≡ x) ⊎ Listed r xs

abbrev pub resting : (ℕ → Order) → ℕ → Resting
resting orders r = record {
  id = (orders r).id;
  side = (orders r).side;
  price = (orders r).price;
  qty = (orders r).qty;
}

-- The table, the arena and the counters, for the live references `rs`.
pub record IsFiled (b : L3Book) (rs : List ℕ) : Type 0 where
  pub table : IsTable b.table
  pub indexed :
      (x : ℕ)
      → find_ref b.table x ≢ no_order
      → Listed (find_ref b.table x) rs × ((b.orders (find_ref b.table x)).id ≡ x)
  pub filed : All (λ r. find_ref b.table (b.orders r).id ≡ r) rs
  pub alive :
      All
        (λ r.
          ((b.orders r).live ≡ true) × (is_positive (b.orders r).qty ≡ true) × (r < b.arena_size))
        rs
  pub free : All (λ r. (r < b.arena_size) × IsFresh r rs) b.free_list
  pub free_distinct : IsDistinct b.free_list
  pub bounded : b.arena_size ≤ no_order
  pub counted : b.live_orders ≡ length rs

pub record IsBook (b : L3Book) (rs : List ℕ) : Type 0 where
  pub queued : IsQueued b rs
  pub on_file : IsFiled b rs

-- The live references of a book, in time priority, are the orders of the abstract book.
abbrev pub Represents : L3Book → List Resting → Type 0
Represents b os = (rs : List ℕ) × IsBook b rs × (os ≡ map (resting b.orders) rs)

pub Listed-All : (P : ℕ → Type 0) (r : ℕ) (rs : List ℕ) → Listed r rs → All P rs → P r
Listed-All P r [] h k = absurd h
Listed-All P r (x ∷ xs) (inl e) k = subst P (sym e) k.0
Listed-All P r (x ∷ xs) (inr h) k = Listed-All P r xs h k.1

pub Listed-split :
    (r : ℕ) (rs : List ℕ) → Listed r rs → (xs : List ℕ) × (ys : List ℕ) × (rs ≡ xs ++ r ∷ ys)
Listed-split r [] h = absurd h
Listed-split r (x ∷ xs) (inl e) = ([], xs, ap (λ y. y ∷ xs) (sym e))
Listed-split r (x ∷ xs) (inr h) =
    let (front, back, e) = Listed-split r xs h in (x ∷ front, back, ap (◌∷◌ x) e)

pub Listed-left : (r : ℕ) (xs ys : List ℕ) → Listed r xs → Listed r (xs ++ ys)
Listed-left r [] ys h = absurd h
Listed-left r (x ∷ xs) ys (inl e) = inl e
Listed-left r (x ∷ xs) ys (inr h) = inr (Listed-left r xs ys h)

pub Listed-right : (r : ℕ) (xs ys : List ℕ) → Listed r ys → Listed r (xs ++ ys)
Listed-right r [] ys h = h
Listed-right r (x ∷ xs) ys h = inr (Listed-right r xs ys h)

pub Listed-middle :
    (x : ℕ) (xs : List ℕ) (r : ℕ) (ys : List ℕ)
    → Listed x (xs ++ r ∷ ys)
    → (x ≡ r) ⊎ Listed x (xs ++ ys)
Listed-middle x [] r ys h = h
Listed-middle x (y ∷ xs) r ys (inl e) = inr (inl e)
Listed-middle x (y ∷ xs) r ys (inr h) = elim (Listed-middle x xs r ys h) [
  | inl e ↦ inl e
  | inr k ↦ inr (inr k)
]

-- An order outside the queues is written.
pub IsQueued-write :
    (b c : L3Book) (rs : List ℕ)
    → All (λ j. c.orders j ≡ b.orders j) rs
    → ((s : Side) (p : Price) → find_level c s p ≡ find_level b s p)
    → IsQueued b rs
    → IsQueued c rs
IsQueued-write b c rs same level v = record {
  links = λ s p. rw (queues s p) (
      Linked-frame (λ j. (b.orders j).prev) (λ j. (b.orders j).next) (λ j. (c.orders j).prev)
        (λ j. (c.orders j).next) no_order (queue b.orders s p rs) no_order
        (All-imp (λ j. c.orders j ≡ b.orders j) _ (queue b.orders s p rs)
          (λ j e. (ap (λ (o : Order). o.prev) e, ap (λ (o : Order). o.next) e)) (theirs s p))
        (v.links s p));
  levels = λ s p. rw (queues s p) (
      level s p
      ∙ v.levels s p
      ∙ sym (
          expected-same b.orders c.orders (queue b.orders s p rs) (
            All-imp (λ j. c.orders j ≡ b.orders j) _ (queue b.orders s p rs)
              (λ j e. ap (λ (o : Order). o.qty) e) (theirs s p))));
  distinct = v.distinct;
  nulls = v.nulls;
}
  where
    queues : (s : Side) (p : Price) → queue c.orders s p rs ≡ queue b.orders s p rs
    queues s p = queue-same b.orders c.orders s p rs (
        All-imp (λ j. c.orders j ≡ b.orders j) _ rs
          (λ j e. (ap (λ (o : Order). o.side) e, ap (λ (o : Order). o.price) e)) same)

    theirs : (s : Side) (p : Price) → All (λ j. c.orders j ≡ b.orders j) (queue b.orders s p rs)
    theirs s p =
        unfold queue in All-select (in_queue b.orders s p) (λ j. c.orders j ≡ b.orders j) rs same
