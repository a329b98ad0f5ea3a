-- ===== src/Book/Visit.antt =====
-- The visitor loop that every `for_each` of book.hpp runs over its levels in book order, and the
-- interface between the book and its side containers.
use crossbook.Common.{ℕ, ◌≡◌, Bool, true, false, List, [], ◌∷◌, Option, none, some, length, All}
use crossbook.Common.Int.{IsInt64}
use crossbook.Types.{Side, Price, Qty, Level}
use crossbook.Book.Ladder.{update, IsLadder}

-- Visit the levels until the visitor answers false; the visitor's captured state is threaded.
abbrev pub resume : {A : Type 0} → A × Bool → (A → A) → A
resume (a, true) k = k a
resume (a, false) k = a

unfoldable pub visit : {A : Type 0} → (A → Level → A × Bool) → List Level → A → A
visit f [] a = a
visit f (l ∷ ls) a = resume (f a l) (visit f ls)

-- What BasicL2Book uses of a side container.
pub record SideImpl : Type 1 where
  pub State : Type 0
  pub make : Side → State
  pub apply : State → Price → Qty → State
  pub clear : State → State
  pub size : State → ℕ
  pub best : State → Option Level
  pub for_each : (A : Type 0) → (A → Level → A × Bool) → State → A → A

abbrev pub head? : List Level → Option Level
head? [] = none
head? (l ∷ ls) = some l

-- What a container promises: it implements the ladder that it stands for.
pub record IsSideImpl (i : SideImpl) : Type 1 where
  pub IsValid : i.State → Type 0
  pub side : i.State → Side
  pub levels : i.State → List Level
  pub levels-IsLadder : (x : i.State) → IsValid x → IsLadder (side x) (levels x)
  pub levels-IsInt64 : (x : i.State) → IsValid x → All (λ (l : Level). IsInt64 l.price) (levels x)
  pub make-IsValid : (s : Side) → IsValid (i.make s)
  pub side-make : (s : Side) → side (i.make s) ≡ s
  pub levels-make : (s : Side) → levels (i.make s) ≡ []
  pub apply-IsValid :
      (x : i.State) (p : Price) (q : Qty)
      → IsValid x
      → IsInt64 p
      → IsInt64 q
      → IsValid (i.apply x p q)
  pub side-apply : (x : i.State) (p : Price) (q : Qty) → side (i.apply x p q) ≡ side x
  pub levels-apply :
      (x : i.State) (p : Price) (q : Qty)
      → IsValid x
      → IsInt64 p
      → IsInt64 q
      → levels (i.apply x p q) ≡ update (side x) p q (levels x)
  pub clear-IsValid : (x : i.State) → IsValid x → IsValid (i.clear x)
  pub side-clear : (x : i.State) → side (i.clear x) ≡ side x
  pub levels-clear : (x : i.State) → IsValid x → levels (i.clear x) ≡ []
  pub size-levels : (x : i.State) → IsValid x → i.size x ≡ length (levels x)
  pub best-levels : (x : i.State) → IsValid x → i.best x ≡ head? (levels x)
  pub for_each-levels :
      (A : Type 0) (f : A → Level → A × Bool) (x : i.State) (a : A)
      → IsValid x
      → i.for_each A f x a ≡ visit f (levels x) a

-- One round of the loop, by the visitor's answer.
module _ {A : Type 0} (f : A → Level → A × Bool) (l : Level) (ls : List Level) (a b : A) where
  pub visit-go_on : f a l ≡ (b, true) → visit f (l ∷ ls) a ≡ visit f ls b
  unfolding visit
  visit-go_on e = rw (e, visit)

  pub visit-stop : f a l ≡ (b, false) → visit f (l ∷ ls) a ≡ b
  unfolding visit
  visit-stop e = rw (e, visit)
