-- ===== src/Book/Ladder/Laws.antt =====
-- An update keeps a ladder a ladder, and changes the quantity at its own price only; a ladder is
-- determined by its quantities.
use crossbook.Common.{◌≡◌, refl, ap₂, ◌∙◌, sym, subst, inl, inr, arith}
use crossbook.Common.{true, false, List, [], ◌∷◌, if◌then◌else◌, All, Bool-cases}
use crossbook.Common.Int.{ℤ, pos}
use crossbook.Types.{Side, bid, ask, Price, Qty, eq_ℤ, is_zero, Level, precedes, Before}
use crossbook.Book.Ladder.{qty_at, update, IsLadder, price_cases, All-update, All-Before, eq_ℤ-refl}
use crossbook.Book.Ladder.{eq_of_eq_ℤ}

pub Before-irrefl : (s : Side) (a b : ℤ) → Before s a b → eq_ℤ a b ≡ false
Before-irrefl bid a b h = ground arith
Before-irrefl ask a b h = ground arith

pub Before-ne : (s : Side) (a b : ℤ) → Before s a b → eq_ℤ b a ≡ false
Before-ne bid a b h = ground arith
Before-ne ask a b h = ground arith

pub Before-asym : (s : Side) (a b : ℤ) → Before s a b → precedes s b a ≡ false
Before-asym bid a b h = ground arith
Before-asym ask a b h = ground arith

pub update-IsLadder :
    (s : Side) (p : Price) (q : Qty) (ls : List Level)
    → IsLadder s ls
    → IsLadder s (update s p q ls)
unfolding update
update-IsLadder s p q [] h = ground arith
update-IsLadder s p q (l ∷ ls) (z, b, h) = elim (price_cases s l.price p) [
  | inl (e, same) ↦ rw e (elim (Bool-cases (is_zero q)) [
    | inl zero ↦ rw zero h
    | inr nonzero ↦ rw nonzero (nonzero, rw (sym same) b, h)
  ])
  | inr (inl (e, c, before)) ↦
      rw (e, c)
        (elim (Bool-cases (is_zero q)) [
          | inl zero ↦ rw zero (z, b, h)
          | inr nonzero ↦
              rw nonzero (nonzero, (before, All-Before s p l.price ls before b), (z, b, h))
        ])
  | inr (inr (e, c, after)) ↦
      rw (e, c) (z, All-update (Before s l.price) s p q ls after b, update-IsLadder s p q ls h)
]

-- Behind a level that comes after `p` nothing rests at `p`.
pub qty_at-after :
    (s : Side) (p : Price) (ls : List Level)
    → All (λ (m : Level). Before s p m.price) ls
    → qty_at p ls ≡ pos 0
unfolding qty_at
qty_at-after s p [] h = refl
qty_at-after s p (l ∷ ls) (b, h) = rw (Before-ne s p l.price b) (qty_at-after s p ls h)

pub is_zero-eq : (q : Qty) → is_zero q ≡ true → q ≡ pos 0
is_zero-eq q h = eq_of_eq_ℤ q (pos 0) h

-- An update of a ladder sets the quantity at its price, and leaves that at every other price as it
-- was.
pub qty_at-update :
    (s : Side) (p : Price) (q : Qty) (ls : List Level) (t : Price)
    → IsLadder s ls
    → qty_at t (update s p q ls) ≡ (if eq_ℤ p t then q else qty_at t ls)
unfolding qty_at update
qty_at-update s p q [] t h = ground (arith, is_zero-eq q)
qty_at-update s p q (l ∷ ls) t (z, b, h) = elim (price_cases s l.price p) [
  | inl (e, same) ↦ rw e (ground (arith, is_zero-eq q, qty_at-after s l.price ls b, eq_of_eq_ℤ p t))
  | inr (inl (e, c, before)) ↦
      rw (e, c)
        (ground (
          arith,
          is_zero-eq q,
          qty_at-after s p ls (All-Before s p l.price ls before b),
          eq_of_eq_ℤ p t,
        ))
  | inr (inr (e, c, after)) ↦ rw (e, c, qty_at-update s p q ls t h) (ground (arith, eq_of_eq_ℤ p t))
]

nonzero-ne : (q : Qty) → is_zero q ≡ false → pos 0 ≡ q → ⊥
nonzero-ne q h e = ground arith

-- Two ladders with the same quantity at every price are one.
pub ladder_ext :
    (s : Side) (xs ys : List Level)
    → IsLadder s xs
    → IsLadder s ys
    → ((t : Price) → qty_at t xs ≡ qty_at t ys)
    → xs ≡ ys
unfolding qty_at
ladder_ext s [] [] g h e = refl
ladder_ext s [] (b ∷ ys) g h e =
    absurd (nonzero-ne b.qty h.0 (ground (arith, e b.price, eq_ℤ-refl b.price)))
ladder_ext s (a ∷ xs) [] g h e =
    absurd (nonzero-ne a.qty g.0 (ground (arith, e a.price, eq_ℤ-refl a.price)))
ladder_ext s (a ∷ xs) (b ∷ ys) (za, ba, g) (zb, bb, h) e = elim (price_cases s a.price b.price) [
  | inl (_, same) ↦ ap₂ ◌∷◌ (level_eq same) (ladder_ext s xs ys g h (tails same))
  | inr (inl (_, _, before)) ↦ absurd (
      nonzero-ne b.qty zb (
        ground (
          arith,
          e b.price,
          eq_ℤ-refl b.price,
          Before-ne s b.price a.price before,
          qty_at-after s b.price xs (All-Before s b.price a.price xs before ba),
        )))
  | inr (inr (_, _, before)) ↦ absurd (
      nonzero-ne a.qty za (
        ground (
          arith,
          e a.price,
          eq_ℤ-refl a.price,
          Before-ne s a.price b.price before,
          qty_at-after s a.price ys (All-Before s a.price b.price ys before bb),
        )))
]
  where
    level_eq : a.price ≡ b.price → a ≡ b
    level_eq same = ground (arith, e a.price, eq_ℤ-refl a.price, eq_ℤ-refl b.price)

    after :
        (t : Price)
        → a.price ≡ b.price
        → a.price ≡ t
        → (qty_at t xs ≡ pos 0) × (qty_at t ys ≡ pos 0)
    after t same et = (
      subst (λ p. qty_at p xs ≡ pos 0) et (qty_at-after s a.price xs ba),
      subst (λ p. qty_at p ys ≡ pos 0) (sym same ∙ et) (qty_at-after s b.price ys bb),
    )

    tails : a.price ≡ b.price → (t : Price) → qty_at t xs ≡ qty_at t ys
    tails same t = elim (Bool-cases (eq_ℤ a.price t)) [
      | inl q ↦ let (l, r) = after t same (eq_of_eq_ℤ a.price t q) in l ∙ sym r
      | inr q ↦ ground (arith, e t)
    ]
