-- ===== src/L3/Entries.antt =====
-- The price maps of l3.hpp: what a lookup finds behind each write and each erasure.
use crossbook.Common.{◌≡◌, refl, ap, arith}
use crossbook.Common.{
  Bool, ◌&&◌, true, false, inl, inr, Bool-cases, if◌then◌else◌, List, [], ◌∷◌, Option, none, some,
}
use crossbook.Common.Int.{ltb_ℤ}
use crossbook.Types.{Side, bid, ask, Price, eq_ℤ}
use crossbook.Book.Ladder.{eq_of_eq_ℤ}
use crossbook.L3.{
  Entry, L3Level, L3Book, find_entry, set_entry, erase_entry, find_level, set_level, with_levels,
  side_levels,
}

eq_at : (a b c : Price) → eq_ℤ a b ≡ true → eq_ℤ a c ≡ eq_ℤ b c
eq_at a b c h = ap (λ z. eq_ℤ z c) (eq_of_eq_ℤ a b h)

pub find_entry-set_entry :
    (p : Price) (l : L3Level) (es : List Entry) (t : Price)
    → find_entry t (set_entry p l es) ≡ (if eq_ℤ p t then some l else find_entry t es)
unfolding find_entry set_entry
find_entry-set_entry p l [] t = refl
find_entry-set_entry p l (e ∷ es) t = elim (Bool-cases (eq_ℤ e.ticks p)) [
  | inl here ↦
      rw (here, eq_at e.ticks p t here)
        (elim (Bool-cases (eq_ℤ p t)) [ inl e ↦ rw e | inr e ↦ rw e ])
  | inr there ↦ rw there (elim (Bool-cases (ltb_ℤ p e.ticks)) [
    | inl before ↦ rw before
    | inr behind ↦
        rw (behind, find_entry-set_entry p l es t)
          (elim (Bool-cases (eq_ℤ e.ticks t)) [
            | inr e ↦ rw e
            | inl e' ↦ rw (e', eq_other p e.ticks t there e')
          ])
  ])
]
  where
    eq_other : (p a t : Price) → eq_ℤ a p ≡ false → eq_ℤ a t ≡ true → eq_ℤ p t ≡ false
    eq_other p a t h k = ground arith

pub find_entry-erase_entry :
    (p : Price) (es : List Entry) (t : Price)
    → find_entry t (erase_entry p es) ≡ (if eq_ℤ p t then none else find_entry t es)
unfolding find_entry erase_entry
find_entry-erase_entry p [] t = elim (Bool-cases (eq_ℤ p t)) [ inl e ↦ rw e | inr e ↦ rw e ]
find_entry-erase_entry p (e ∷ es) t = elim (Bool-cases (eq_ℤ e.ticks p)) [
  | inl here ↦
      rw (here, eq_at e.ticks p t here, find_entry-erase_entry p es t)
        (elim (Bool-cases (eq_ℤ p t)) [ inl e ↦ rw e | inr e ↦ rw e ])
  | inr there ↦ rw there (elim (Bool-cases (eq_ℤ e.ticks t)) [
    | inl e' ↦ rw (e', eq_other p e.ticks t there e')
    | inr e' ↦ rw (e', find_entry-erase_entry p es t)
  ])
]
  where
    eq_other : (p a t : Price) → eq_ℤ a p ≡ false → eq_ℤ a t ≡ true → eq_ℤ p t ≡ false
    eq_other p a t h k = ground arith

unfoldable pub same_side : Side → Side → Bool
same_side bid bid = true
same_side ask ask = true
same_side bid ask = false
same_side ask bid = false

abbrev pub is_at : Side → Price → Side → Price → Bool
is_at s p s' p' = same_side s s' && eq_ℤ p p'

-- A map of one side is written by `f`, which changes what is found at one price.
pub find_level-with_levels :
    (b : L3Book) (s : Side) (p : Price) (es : List Entry) (o : Option L3Level)
    → ((t : Price) → find_entry t es ≡ (if eq_ℤ p t then o else find_entry t (side_levels b s)))
    → (s' : Side) (t : Price)
    → find_level (with_levels b s es) s' t ≡ (if is_at s p s' t then o else find_level b s' t)
unfolding find_level same_side
find_level-with_levels b bid p es o h bid t = h t
find_level-with_levels b ask p es o h ask t = h t
find_level-with_levels b bid p es o h ask t = refl
find_level-with_levels b ask p es o h bid t = refl

pub find_level-set_level :
    (b : L3Book) (s : Side) (p : Price) (l : L3Level) (s' : Side) (t : Price)
    → find_level (set_level b s p l) s' t ≡ (if is_at s p s' t then some l else find_level b s' t)
unfolding set_level
find_level-set_level b s p l =
    find_level-with_levels b s p (set_entry p l (side_levels b s)) (some l)
      (find_entry-set_entry p l (side_levels b s))

pub find_level-erase_entry :
    (b : L3Book) (s : Side) (p : Price) (s' : Side) (t : Price)
    → find_level (with_levels b s (erase_entry p (side_levels b s))) s' t
      ≡ (if is_at s p s' t then none else find_level b s' t)
find_level-erase_entry b s p =
    find_level-with_levels b s p (erase_entry p (side_levels b s)) none
      (find_entry-erase_entry p (side_levels b s))
