-- ===== src/Book/L2/Update.antt =====
-- What the operations of the book do, in terms of the levels of its two sides, for any container
-- that keeps the laws.
use crossbook.Common.{◌≡◌, refl, ap, subst, ◌∙◌, ◌⊎◌, inl, inr}
use crossbook.Common.{Bool, true, false, not, ◌&&◌, ◌||◌, List, [], ◌∷◌, Option, none, some, All}
use crossbook.Common.{if◌then◌else◌, Bool-cases}
use crossbook.Common.Int.{pos, IsInt64}
use crossbook.Types.{Side, bid, ask, Price, Qty, Level, InstrumentSpec, eq_ℤ, Before}
use crossbook.Book.Ladder.{update, IsLadder, qty_at, eq_ℤ-refl, eq_of_eq_ℤ}
use crossbook.Book.Ladder.Laws.{qty_at-update}
use crossbook.Book.Visit.{SideImpl, IsSideImpl, head?}
use crossbook.Book.L2
use crossbook.Book.L2.{L2Book}

abbrev pub same_side : Side → Side → Bool
same_side bid bid = true
same_side ask ask = true
same_side bid ask = false
same_side ask bid = false

-- What rests behind the first level comes after it.
rests_after :
    (s : Side) (a : Price) (ls : List Level) (t : Price)
    → All (λ (m : Level). Before s a m.price) ls
    → (qty_at t ls ≡ pos 0) ⊎ Before s a t
unfolding qty_at
rests_after s a [] t h = inl refl
rests_after s a (l ∷ ls) t (h, hs) = elim (Bool-cases (eq_ℤ l.price t)) [
  | inl e ↦ inr (subst (Before s a) (eq_of_eq_ℤ l.price t e) h)
  | inr e ↦ rw e (rests_after s a ls t hs)
]

-- What the first level of the list says of the quantity at the price `t`.
abbrev pub IsFirst : Side → List Level → Option Level → Price → Type 0
IsFirst s ls none t = qty_at t ls ≡ pos 0
IsFirst s ls (some l) t =
    (qty_at l.price ls ≡ l.qty) × ((l.price ≡ t) ⊎ Before s l.price t ⊎ (qty_at t ls ≡ pos 0))

head?-IsFirst : (s : Side) (ls : List Level) (t : Price) → IsLadder s ls → IsFirst s ls (head? ls) t
unfolding qty_at
head?-IsFirst s [] t h = refl
head?-IsFirst s (l ∷ ls) t (z, b, h) = elim (Bool-cases (eq_ℤ l.price t)) [
  | inl e ↦ (rw (eq_ℤ-refl l.price), inl (eq_of_eq_ℤ l.price t e))
  | inr e ↦ (
    rw (eq_ℤ-refl l.price),
    inr (elim (rests_after s l.price ls t b) [ inl z ↦ inr (rw e z) | inr o ↦ inl o ]),
  )
]

module _ (I : SideImpl) (L : IsSideImpl I) where
  open I use {State}
  open L use {IsValid, levels}

  -- The levels of one side of a book, in book order.
  abbrev pub book_levels : L2Book State → Side → List Level
  book_levels b s = levels (L2.side I b s)

  -- Both containers are valid and each serves its own side.
  pub record IsBook (b : L2Book State) : Type 0 where
    pub bids_valid : IsValid b.bids
    pub asks_valid : IsValid b.asks
    pub bids_side : L.side b.bids ≡ bid
    pub asks_side : L.side b.asks ≡ ask

  pub side-IsValid : (b : L2Book State) (s : Side) → IsBook b → IsValid (L2.side I b s)
  side-IsValid b bid v = v.bids_valid
  side-IsValid b ask v = v.asks_valid

  pub side-side : (b : L2Book State) (s : Side) → IsBook b → L.side (L2.side I b s) ≡ s
  side-side b bid v = v.bids_side
  side-side b ask v = v.asks_side

  pub book-IsLadder : (b : L2Book State) (s : Side) → IsBook b → IsLadder s (book_levels b s)
  book-IsLadder b bid v =
      subst (λ s. IsLadder s (levels b.bids)) v.bids_side (L.levels-IsLadder b.bids v.bids_valid)
  book-IsLadder b ask v =
      subst (λ s. IsLadder s (levels b.asks)) v.asks_side (L.levels-IsLadder b.asks v.asks_valid)

  pub make-IsBook : (spec : InstrumentSpec) → IsBook (L2.make I spec)
  unfolding L2.make
  make-IsBook spec = record {
    bids_valid = L.make-IsValid bid;
    asks_valid = L.make-IsValid ask;
    bids_side = L.side-make bid;
    asks_side = L.side-make ask;
  }

  pub book_levels-make : (spec : InstrumentSpec) (s : Side) → book_levels (L2.make I spec) s ≡ []
  unfolding L2.make
  book_levels-make spec bid = L.levels-make bid
  book_levels-make spec ask = L.levels-make ask

  -- What the guard of `apply` lets through.
  abbrev pub accepts : Price → Qty → Bool
  accepts p q = not (L2.is_negative p || L2.is_negative q)

  abbrev pub book_qty : L2Book State → Side → Price → Qty
  book_qty b s t = qty_at t (book_levels b s)

  pub accepted_IsBook :
      (b : L2Book State) (s : Side) (p : Price) (q : Qty)
      → IsBook b
      → IsInt64 p
      → IsInt64 q
      → IsBook (L2.with_side I b s (I.apply (L2.side I b s) p q))
  accepted_IsBook b bid p q v hp hq = record {
    bids_valid = L.apply-IsValid b.bids p q v.bids_valid hp hq;
    asks_valid = v.asks_valid;
    bids_side = L.side-apply b.bids p q ∙ v.bids_side;
    asks_side = v.asks_side;
  }
  accepted_IsBook b ask p q v hp hq = record {
    bids_valid = v.bids_valid;
    asks_valid = L.apply-IsValid b.asks p q v.asks_valid hp hq;
    bids_side = v.bids_side;
    asks_side = L.side-apply b.asks p q ∙ v.asks_side;
  }

  pub accepted_levels :
      (b : L2Book State) (s s' : Side) (p : Price) (q : Qty)
      → IsBook b
      → IsInt64 p
      → IsInt64 q
      → book_levels (L2.with_side I b s (I.apply (L2.side I b s) p q)) s'
        ≡ (if same_side s s' then update s p q (book_levels b s) else book_levels b s')
  accepted_levels b bid bid p q v hp hq =
      L.levels-apply b.bids p q v.bids_valid hp hq
      ∙ ap (λ s. update s p q (levels b.bids)) v.bids_side
  accepted_levels b ask ask p q v hp hq =
      L.levels-apply b.asks p q v.asks_valid hp hq
      ∙ ap (λ s. update s p q (levels b.asks)) v.asks_side
  accepted_levels b bid ask p q v hp hq = refl
  accepted_levels b ask bid p q v hp hq = refl

  accepted_qty :
      (b : L2Book State) (s s' : Side) (p : Price) (q : Qty) (t : Price)
      → IsBook b
      → IsInt64 p
      → IsInt64 q
      → book_qty (L2.with_side I b s (I.apply (L2.side I b s) p q)) s' t
        ≡ (if same_side s s' && eq_ℤ p t then q else book_qty b s' t)
  accepted_qty b bid bid p q t v hp hq =
      ap (qty_at t) (accepted_levels b bid bid p q v hp hq)
      ∙ qty_at-update bid p q (levels b.bids) t (book-IsLadder b bid v)
  accepted_qty b ask ask p q t v hp hq =
      ap (qty_at t) (accepted_levels b ask ask p q v hp hq)
      ∙ qty_at-update ask p q (levels b.asks) t (book-IsLadder b ask v)
  accepted_qty b bid ask p q t v hp hq = refl
  accepted_qty b ask bid p q t v hp hq = refl

  pub apply-IsBook :
      (b : L2Book State) (s : Side) (p : Price) (q : Qty)
      → IsBook b
      → IsInt64 p
      → IsInt64 q
      → IsBook (L2.apply I b s p q).0
  unfolding L2.apply
  apply-IsBook b s p q v hp hq = elim (Bool-cases (L2.is_negative p || L2.is_negative q)) [
    | inl e ↦ rw e v
    | inr e ↦ rw e (accepted_IsBook b s p q v hp hq)
  ]

  pub book_levels-apply :
      (b : L2Book State) (s s' : Side) (p : Price) (q : Qty)
      → accepts p q ≡ true
      → IsBook b
      → IsInt64 p
      → IsInt64 q
      → book_levels (L2.apply I b s p q).0 s'
        ≡ (if same_side s s' then update s p q (book_levels b s) else book_levels b s')
  unfolding L2.apply
  book_levels-apply b s s' p q a v hp hq =
      elim (Bool-cases (L2.is_negative p || L2.is_negative q)) [
        | inl e ↦ cc
        | inr e ↦ rw e (accepted_levels b s s' p q v hp hq)
      ]

  -- `apply` of an int64_t price and quantity to a valid book, on every branch. If the price or the
  -- quantity is negative, the answer is false and the book is as it was. If not, the answer is
  -- true, the book stays valid, and the quantity at that price of that side is the new one, while
  -- every other quantity of both sides is as it was.
  pub apply_lem :
      (b : L2Book State) (s : Side) (p : Price) (q : Qty)
      → IsBook b
      → IsInt64 p
      → IsInt64 q
      → ((accepts p q ≡ false) × (L2.apply I b s p q ≡ (b, false)))
        ⊎ ((accepts p q ≡ true)
            × ((L2.apply I b s p q).1 ≡ true)
            × IsBook (L2.apply I b s p q).0
            × ((s' : Side) (t : Price)
                → book_qty (L2.apply I b s p q).0 s' t
                  ≡ (if same_side s s' && eq_ℤ p t then q else book_qty b s' t)))
  unfolding L2.apply
  apply_lem b s p q v hp hq = elim (Bool-cases (L2.is_negative p || L2.is_negative q)) [
    | inl e ↦ inl (ap not e, rw e)
    | inr e ↦ inr (
      ap not e,
      rw e,
      rw e (accepted_IsBook b s p q v hp hq),
      λ s' t. rw e (accepted_qty b s s' p q t v hp hq),
    )
  ]

  pub best-head? :
      (b : L2Book State) (s : Side) → IsBook b → L2.best I b s ≡ head? (book_levels b s)
  unfolding L2.best
  best-head? b s v = L.best-levels (L2.side I b s) (side-IsValid b s v)

  -- The best level of a valid book's side is its first in book order: the quantity that rests at
  -- its price is its own, and every other price of the side either comes after it or holds nothing.
  -- A side without a best level holds nothing at any price.
  pub best_lem :
      (b : L2Book State) (s : Side) (t : Price)
      → IsBook b
      → IsFirst s (book_levels b s) (L2.best I b s) t
  unfolding L2.best
  best_lem b s t v =
      rw (L.best-levels (L2.side I b s) (side-IsValid b s v))
        (head?-IsFirst s (book_levels b s) t (book-IsLadder b s v))
