-- ===== src/Book/Array/Rebuild.antt =====
-- A rebuild around the touch keeps the invariant and the ladder.
use crossbook.Common.{
  ℕ, ◌<◌, ◌≡◌, inl, inr, refl, sym, ap, ◌∙◌, subst, arith, append_assoc, append-nil,
}
use crossbook.Common.{
  true, List, [], ◌∷◌, ◌++◌, Option, none, some, All, leb, ◌&&◌, if_cases, length,
}
use crossbook.Common.Int.{pos, IsInt64}
use crossbook.Types.{Price, Qty, Level, is_zero}
use crossbook.Sequence.{inc64}
use crossbook.Book.Visit.{visit}
use crossbook.Book.Ladder.{qty_at, IsLadder}
use crossbook.Book.Ladder.Laws.{is_zero-eq, ladder_ext}
use crossbook.Book.Array.{
  ArraySide, price_at, spill, clear_window_slots, recentred, for_each, push, settle, refill,
  place_all, rebuild_around_touch,
}
use crossbook.Book.Array.Order.{slot_of, IsSlot, slot_of-IsSlot, anchor_for-IsWindow}
use crossbook.Book.Array.Count.{count_none}
use crossbook.Book.Array.Spill.{All-spill, spill-IsLadder_ask, qty_at-spill_ask}
use crossbook.Book.Array.Valid.{
  IsWindowed, IsOutside, IsValid, levels, window_levels, lookup, levels-IsLadder, levels-IsInt64,
  qty_at-levels,
}
use crossbook.Book.Array.Loop.{for_each-levels}
use crossbook.Book.Array.Refill.{outside_of, after, IsRefilled, place_all-IsRefilled}
use crossbook.Book.Array.Outside.{
  All-outside_of, outside_of-IsOutside, outside_of-IsLadder, qty_at-outside_of,
}

-- The side is valid, and stands for the same ladder.
pub record IsRebuilt (x y : ArraySide) : Type 0 where
  pub valid : IsValid y
  pub side : y.side ≡ x.side
  pub same : levels y ≡ levels x

-- Every slot of the window is empty.
abbrev pub IsEmptied : ArraySide → Type 0
IsEmptied x = (k : ℕ) → is_zero (x.window k) ≡ true

pub clear_window_slots-IsEmptied : (x : ArraySide) → IsWindowed x → IsEmptied (clear_window_slots x)
clear_window_slots-IsEmptied x v k = elim (v.written k) [
  | inl z ↦
      if_cases (λ (w : ℕ → Qty). is_zero (w k) ≡ true) (leb x.dirty_lo x.dirty_hi) _ x.window
        (λ _.
          if_cases (λ q. is_zero q ≡ true) (leb x.dirty_lo k && leb k x.dirty_hi) (pos 0)
            (x.window k) (λ _. refl) (λ _. z))
        (λ _. z)
  | inr (a, b) ↦ ground arith
]

-- An anchored side with an empty window.
pub emptied-IsWindowed :
    (x : ArraySide) (touch : Price) → IsWindowed x → IsInt64 touch → IsWindowed (recentred x touch)
emptied-IsWindowed x touch v h = record {
  fits = anchor_for-IsWindow x.slots touch v.fits.1 h;
  counted = sym (count_none x.slots _ (λ k l. clear_window_slots-IsEmptied x v k));
  touch = inl refl;
  written = λ k. inl (clear_window_slots-IsEmptied x v k);
}

visit-push : (ls out : List Level) → visit push ls out ≡ out ++ ls
unfolding visit
visit-push [] out = sym (append-nil out)
visit-push (l ∷ ls) out = visit-push ls (out ++ l ∷ []) ∙ append_assoc out (l ∷ []) ls

-- What was placed into an empty side, with its spill list in ascending order.
module _ (y z : ArraySide) (ls : List Level) (n : ℕ) (e : IsEmptied y) (o : y.overflow ≡ [])
    (h : IsLadder y.side ls) (i : All (λ (l : Level). IsInt64 l.price) ls) (a : y.anchored ≡ true)
    (r : IsRefilled y ls z) where
  abbrev kept : List Level
  kept = outside_of z.base z.slots ls

  overflow_eq : z.overflow ≡ kept
  overflow_eq = rw (r.overflow, o, r.base, r.slots) refl

  side-IsLadder : IsLadder z.side ls
  side-IsLadder = subst (λ s. IsLadder s ls) (sym r.side) h

  kept-IsLadder : IsLadder z.side kept
  kept-IsLadder = outside_of-IsLadder z.side z.base z.slots ls side-IsLadder

  pub settle-IsValid : IsValid (settle n z)
  settle-IsValid = record {
    windowed = record {
      fits = r.windowed.fits;
      counted = r.windowed.counted;
      touch = r.windowed.touch;
      written = r.windowed.written;
    };
    ascending = rw overflow_eq (spill-IsLadder_ask z.side kept kept-IsLadder);
    outside = rw overflow_eq (
        All-spill (IsOutside z.base z.slots) z.side kept
          (outside_of-IsOutside z.base z.slots ls r.windowed.fits));
    int64 = rw overflow_eq (
        All-spill (λ (l : Level). IsInt64 l.price) z.side kept
          (All-outside_of (λ (l : Level). IsInt64 l.price) z.base z.slots ls i));
    unanchored = inl (r.anchored ∙ a);
  }

  lookup-settle : (t : Price) → lookup (settle n z) t ≡ qty_at t ls
  lookup-settle t = go (slot_of z.base z.slots t) (slot_of-IsSlot z.base z.slots t r.windowed.fits)
    where
      go :
          (s : Option ℕ)
          → IsSlot z.base z.slots t s
          → (elim s [ none ↦ qty_at t (spill z.side z.overflow) | some k ↦ z.window k ])
            ≡ qty_at t ls
      go none g =
          rw overflow_eq (qty_at-spill_ask z.side t kept kept-IsLadder)
          ∙ qty_at-outside_of z.base z.slots t ls r.windowed.fits g
      go (some k) (l, p) =
          r.stored k (subst (λ n. k < n) r.slots l)
          ∙ ap (λ b. after (price_at b k) ls (y.window k)) (sym r.base)
          ∙ ap (λ u. after u ls (y.window k)) p
          ∙ if_cases (λ q. q ≡ qty_at t ls) (is_zero (qty_at t ls)) (y.window k) (qty_at t ls)
              (λ c. is_zero-eq (y.window k) (e k) ∙ sym (is_zero-eq (qty_at t ls) c)) (λ c. refl)

  pub levels-settle : levels (settle n z) ≡ ls
  levels-settle =
      ladder_ext z.side (levels (settle n z)) ls (levels-IsLadder (settle n z) settle-IsValid)
        side-IsLadder (λ t. qty_at-levels (settle n z) t settle-IsValid ∙ lookup-settle t)

refill-IsRebuilt :
    (x : ArraySide) (ls : List Level)
    → IsValid x
    → levels x ≡ ls
    → IsRebuilt x (refill (record x { rebuild_count = inc64 x.rebuild_count }) ls)
unfolding levels window_levels
refill-IsRebuilt x [] v e = record {
  valid = record {
    windowed = record {
      fits = v.windowed.fits;
      counted = v.windowed.counted;
      touch = v.windowed.touch;
      written = v.windowed.written;
    };
    ascending = v.ascending;
    outside = v.outside;
    int64 = v.int64;
    unanchored = v.unanchored;
  };
  side = refl;
  same = refl;
}
refill-IsRebuilt x (l ∷ ls) v e = record {
  valid = settle-IsValid y _ (l ∷ ls) (length x.overflow) empty refl ladder ints refl refilled;
  side = refilled.side;
  same =
      levels-settle y _ (l ∷ ls) (length x.overflow) empty refl ladder ints refl refilled ∙ sym e;
}
  where
    y : ArraySide
    y = recentred (record x { rebuild_count = inc64 x.rebuild_count }) l.price

    ladder : IsLadder x.side (l ∷ ls)
    ladder = subst (IsLadder x.side) e (levels-IsLadder x v)

    ints : All (λ (m : Level). IsInt64 m.price) (l ∷ ls)
    ints = subst (All (λ (m : Level). IsInt64 m.price)) e (levels-IsInt64 x v)

    empty : IsEmptied y
    empty = clear_window_slots-IsEmptied x v.windowed

    w : IsWindowed y
    w =
        let w = emptied-IsWindowed x l.price v.windowed ints.0 in
        record { fits = w.fits; counted = w.counted; touch = w.touch; written = w.written }

    refilled : IsRefilled y (l ∷ ls) (place_all y (l ∷ ls))
    refilled = place_all-IsRefilled y (l ∷ ls) w ladder ints (λ k m. inl (empty k))

pub for_each-push : (x : ArraySide) → IsValid x → for_each (List Level) push x [] ≡ levels x
for_each-push x v = for_each-levels x v (List Level) push [] ∙ visit-push (levels x) []

-- A rebuild around the touch keeps a valid side valid, and its levels are the same in the same
-- order.
pub rebuild_around_touch-IsRebuilt :
    (x : ArraySide) → IsValid x → IsRebuilt x (rebuild_around_touch x)
unfolding rebuild_around_touch
rebuild_around_touch-IsRebuilt x v =
    refill-IsRebuilt x (for_each (List Level) push x []) v (sym (for_each-push x v))
