-- ===== src/Book/Map/Refines.antt =====
-- `MapSide` implements the ladder of its side.
use crossbook.Common.{◌≡◌, refl, ◌∙◌, sym, arith}
use crossbook.Common.{
  true, false, List, [], ◌∷◌, reverse, length, length-reverse, Bool-cases, inl, inr, All,
}
use crossbook.Common.Int.{IsInt64}
use crossbook.Types.{Side, bid, ask, Price, Qty, is_zero, Level}
use crossbook.Book.Ladder.{update, IsLadder, All-update}
use crossbook.Book.Ladder.Laws.{update-IsLadder, qty_at-update, ladder_ext}
use crossbook.Book.Ladder.Reverse.{All-reverse, reverse-IsLadder, qty_at-reverse}
use crossbook.Book.Visit.{SideImpl, IsSideImpl, head?}
use crossbook.Book.Map
use crossbook.Book.Map.{MapSide}

-- On the ascending entries the map's two mutations are the ladder's update.
erase-update :
    (p : Price) (q : Qty) (ls : List Level) → is_zero q ≡ true → Map.erase p ls ≡ update ask p q ls
unfolding Map.erase update
erase-update p q [] h = rw h
erase-update p q (l ∷ ls) h = rw (h, erase-update p q ls h)

assign-update :
    (p : Price) (q : Qty) (ls : List Level)
    → is_zero q ≡ false
    → Map.assign p q ls ≡ update ask p q ls
unfolding Map.assign update
assign-update p q [] h = rw h
assign-update p q (l ∷ ls) h = rw (h, assign-update p q ls h)

levels-apply :
    (m : MapSide) (p : Price) (q : Qty) → (Map.apply m p q).levels ≡ update ask p q m.levels
unfolding Map.apply
levels-apply m p q = elim (Bool-cases (is_zero q)) [
  | inl z ↦ rw z (erase-update p q m.levels z)
  | inr z ↦ rw z (assign-update p q m.levels z)
]

-- An update of the entries, read in book order, is an update of the book order.
pub iterate-update :
    (s : Side) (p : Price) (q : Qty) (ls : List Level)
    → IsLadder ask ls
    → Map.iterate s (update ask p q ls) ≡ update s p q (Map.iterate s ls)
unfolding Map.iterate
iterate-update ask p q ls h = refl
iterate-update bid p q ls h =
    ladder_ext bid (reverse (update ask p q ls)) (update bid p q (reverse ls))
      (reverse-IsLadder ask (update ask p q ls) (update-IsLadder ask p q ls h))
      (update-IsLadder bid p q (reverse ls) (reverse-IsLadder ask ls h))
      λ t.
        qty_at-reverse ask t (update ask p q ls) (update-IsLadder ask p q ls h)
        ∙ qty_at-update ask p q ls t h
        ∙ sym (
            qty_at-update bid p q (reverse ls) t (reverse-IsLadder ask ls h)
            ∙ rw (qty_at-reverse ask t ls h))

unfoldable pub map_impl : SideImpl
map_impl = record {
  State = MapSide;
  make = Map.make;
  apply = Map.apply;
  clear = Map.clear;
  size = Map.size;
  best = Map.best;
  for_each = Map.for_each;
}

-- The entries are a ladder of the ask side, whichever side the container serves, and every key is an int64_t.
abbrev IsValid : MapSide → Type 0
IsValid m = IsLadder ask m.levels × All (λ (l : Level). IsInt64 l.price) m.levels

iterate-IsLadder : (s : Side) (ls : List Level) → IsLadder ask ls → IsLadder s (Map.iterate s ls)
unfolding Map.iterate
iterate-IsLadder ask ls h = h
iterate-IsLadder bid ls h = reverse-IsLadder ask ls h

length-iterate : (s : Side) (ls : List Level) → length ls ≡ length (Map.iterate s ls)
unfolding Map.iterate
length-iterate ask ls = refl
length-iterate bid ls = sym (length-reverse ls)

first-head? : (ls : List Level) → Map.first ls ≡ head? ls
unfolding Map.first
first-head? [] = refl
first-head? (l ∷ ls) = refl

side-apply : (m : MapSide) (p : Price) (q : Qty) → (Map.apply m p q).side ≡ m.side
unfolding Map.apply
side-apply m p q = ground arith

apply-IsValid :
    (m : MapSide) (p : Price) (q : Qty) → IsValid m → IsInt64 p → IsValid (Map.apply m p q)
apply-IsValid m p q (h, k) r =
    rw (levels-apply m p q)
      (update-IsLadder ask p q m.levels h, All-update IsInt64 ask p q m.levels r k)

iterate-IsInt64 :
    (s : Side) (ls : List Level)
    → All (λ (l : Level). IsInt64 l.price) ls
    → All (λ (l : Level). IsInt64 l.price) (Map.iterate s ls)
unfolding Map.iterate
iterate-IsInt64 ask ls h = h
iterate-IsInt64 bid ls h = All-reverse (λ (l : Level). IsInt64 l.price) ls h

iterate-apply :
    (m : MapSide) (p : Price) (q : Qty)
    → IsValid m
    → Map.iterate (Map.apply m p q).side (Map.apply m p q).levels
      ≡ update m.side p q (Map.iterate m.side m.levels)
iterate-apply m p q h =
    rw (side-apply m p q, levels-apply m p q) (iterate-update m.side p q m.levels h.0)

iterate-nil : (s : Side) → Map.iterate s [] ≡ []
unfolding Map.iterate
iterate-nil bid = refl
iterate-nil ask = refl

-- The reference container implements the ladder of its side: the levels of a valid container are
-- sorted in book order with no price twice and no empty level, `apply` is the ladder's update, and
-- `make`, `clear`, `size`, `best` and `for_each` are what they are on the ladder. Each operation
-- keeps the container valid.
pub map_refines : IsSideImpl map_impl
unfolding map_impl Map.make Map.clear Map.size Map.best Map.for_each
map_refines = record {
  IsValid = IsValid;
  side = λ m. m.side;
  levels = λ m. Map.iterate m.side m.levels;
  levels-IsLadder = λ m h. iterate-IsLadder m.side m.levels h.0;
  levels-IsInt64 = λ m h. iterate-IsInt64 m.side m.levels h.1;
  make-IsValid = λ s. (tt, tt);
  side-make = λ s. refl;
  levels-make = iterate-nil;
  apply-IsValid = λ m p q h r _. apply-IsValid m p q h r;
  side-apply = side-apply;
  levels-apply = λ m p q h _ _. iterate-apply m p q h;
  clear-IsValid = λ m h. (tt, tt);
  side-clear = λ m. refl;
  levels-clear = λ m h. iterate-nil m.side;
  size-levels = λ m h. length-iterate m.side m.levels;
  best-levels = λ m h. first-head? (Map.iterate m.side m.levels);
  for_each-levels = λ A f m a h. refl;
}
