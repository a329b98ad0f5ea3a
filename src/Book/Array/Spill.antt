-- ===== src/Book/Array/Spill.antt =====
-- The spill list: its ordered insert and erase are the ladder's update, and its walk in book order.
use crossbook.Common.{◌≡◌, ◌⊎◌, inl, inr, refl, ap, ◌∙◌, arith}
use crossbook.Common.{
  true, false, List, [], ◌∷◌, All, Bool-cases, take, drop, length, length-reverse,
}
use crossbook.Common.Int.{ltb_ℤ}
use crossbook.Types.{Side, bid, ask, Price, Qty, Level, eq_ℤ, is_zero}
use crossbook.Book.Ladder.{update, IsLadder, qty_at, eq_of_eq_ℤ}
use crossbook.Book.Ladder.Reverse.{All-reverse, reverse-IsLadder, qty_at-reverse}
use crossbook.Book.Array.{
  overflow_lower_bound, insert_at, erase_at, overflow_set, overflow_erase, spill,
}

insert_at_cons :
    (l : Level) (front : List Level) (new : Level) (back : List Level)
    → insert_at (l ∷ front) new back ≡ l ∷ insert_at front new back
insert_at_cons l front new [] = refl
insert_at_cons l front new (m ∷ back) = elim (Bool-cases (eq_ℤ m.price new.price)) [
  | inl e ↦ rw e
  | inr e ↦ rw e
]

erase_at_cons :
    (l : Level) (front : List Level) (p : Price) (back : List Level)
    → erase_at (l ∷ front) p back ≡ l ∷ erase_at front p back
erase_at_cons l front p [] = refl
erase_at_cons l front p (m ∷ back) = elim (Bool-cases (eq_ℤ m.price p)) [
  | inl e ↦ rw e
  | inr e ↦ rw e
]

-- Where a level stands against a price, by the two tests of the list's search.
search_cases :
    (a p : Price)
    → ((eq_ℤ a p ≡ true) × (ltb_ℤ a p ≡ false) × (a ≡ p))
      ⊎ ((eq_ℤ a p ≡ false) × (ltb_ℤ a p ≡ false) × (ltb_ℤ p a ≡ true))
      ⊎ ((eq_ℤ a p ≡ false) × (ltb_ℤ a p ≡ true) × (ltb_ℤ p a ≡ false))
search_cases a p = ground (arith, eq_of_eq_ℤ a p)

pub overflow_set-update :
    (p : Price) (q : Qty) (ls : List Level)
    → is_zero q ≡ false
    → overflow_set p q ls ≡ update ask p q ls
unfolding overflow_set overflow_lower_bound update
overflow_set-update p q [] z = rw z
overflow_set-update p q (l ∷ ls) z = elim (search_cases l.price p) [
  | inl (e, f, same) ↦ rw (f, e, z) (ap (λ a. record { price = a; qty = q } ∷ ls) same)
  | inr (inl (e, f, g)) ↦ rw (f, e, g, z)
  | inr (inr (e, f, g)) ↦
      rw (e, f, g)
        (insert_at_cons l (take (overflow_lower_bound p ls) ls) (record { price = p; qty = q })
            (drop (overflow_lower_bound p ls) ls)
          ∙ ap (◌∷◌ l) (overflow_set-update p q ls z))
]

pub overflow_erase-update :
    (p : Price) (q : Qty) (ls : List Level)
    → is_zero q ≡ true
    → overflow_erase p ls ≡ update ask p q ls
unfolding overflow_erase overflow_lower_bound update
overflow_erase-update p q [] z = rw z
overflow_erase-update p q (l ∷ ls) z = elim (search_cases l.price p) [
  | inl (e, f, same) ↦ rw (f, e, z)
  | inr (inl (e, f, g)) ↦ rw (f, e, g, z)
  | inr (inr (e, f, g)) ↦
      rw (e, f, g)
        (erase_at_cons l (take (overflow_lower_bound p ls) ls) p
            (drop (overflow_lower_bound p ls) ls)
          ∙ ap (◌∷◌ l) (overflow_erase-update p q ls z))
]

pub All-spill {κ} :
    (P : Level → Type κ) (s : Side) (ls : List Level) → All P ls → All P (spill s ls)
All-spill P ask ls h = h
All-spill P bid ls h = All-reverse P ls h

-- In book order an ascending spill list is a ladder of its side, and the other way round.
pub spill-IsLadder : (s : Side) (ls : List Level) → IsLadder ask ls → IsLadder s (spill s ls)
spill-IsLadder ask ls h = h
spill-IsLadder bid ls h = reverse-IsLadder ask ls h

pub spill-IsLadder_ask : (s : Side) (ls : List Level) → IsLadder s ls → IsLadder ask (spill s ls)
spill-IsLadder_ask ask ls h = h
spill-IsLadder_ask bid ls h = reverse-IsLadder bid ls h

pub qty_at-spill :
    (s : Side) (t : Price) (ls : List Level) → IsLadder ask ls → qty_at t (spill s ls) ≡ qty_at t ls
qty_at-spill ask t ls h = refl
qty_at-spill bid t ls h = qty_at-reverse ask t ls h

pub length-spill : (s : Side) (ls : List Level) → length (spill s ls) ≡ length ls
length-spill ask ls = refl
length-spill bid ls = length-reverse ls

pub qty_at-spill_ask :
    (s : Side) (t : Price) (ls : List Level) → IsLadder s ls → qty_at t (spill s ls) ≡ qty_at t ls
qty_at-spill_ask ask t ls h = refl
qty_at-spill_ask bid t ls h = qty_at-reverse bid t ls h
