-- ===== src/Book/L2/Act.antt =====
-- The calls that change a book, and a run of them.
use crossbook.Common.{ℕ, ◌+◌, ◌≡◌, ap, ◌∙◌}
use crossbook.Common.{List, [], ◌∷◌, Option, none, some, if◌then◌else◌}
use crossbook.Common.Int.{IsInt64}
use crossbook.Types.{Side, bid, ask, Price, Qty}
use crossbook.Book.Visit.{SideImpl}
use crossbook.Book.L2
use crossbook.Book.L2.{L2Book}

-- The calls that change a book.
pub data Act : Type 0 where
  put : Side → Price → Qty → Act
  wipe : Act
  cut : ℕ → Act

abbrev pub IsFit : Act → Type 0
IsFit (put s p q) = IsInt64 p × IsInt64 q
IsFit wipe = Unit {0}
IsFit (cut n) = Unit {0}

module _ (I : SideImpl) where
  open I use {State}

  -- One call, with what it answers: 1 and 0 for true and false, or the number of levels removed.
  abbrev pub call : Act → L2Book State → Option (L2Book State × ℕ)
  call (put s p q) b = let (c, taken) = L2.apply I b s p q in some (c, if taken then 1 else 0)
  call wipe b = some (L2.clear I b, 0)
  call (cut n) b = L2.trim I b n

  abbrev pub after_call :
      Option (L2Book State × ℕ)
      → (L2Book State → Option (L2Book State × List ℕ))
      → Option (L2Book State × List ℕ)
  after_call none next = none
  after_call (some (b, answer)) next = elim (next b) [
    | none ↦ none
    | some (c, answers) ↦ some (c, answer ∷ answers)
  ]

  unfoldable pub run : List Act → L2Book State → Option (L2Book State × List ℕ)
  run [] b = some (b, [])
  run (a ∷ acts) b = after_call (call a b) (run acts)

  pub trim_of :
      (b : L2Book State) (n : ℕ) (x z : State) (k j : ℕ)
      → L2.trim_side I (L2.side I b bid) n ≡ some (x, k)
      → L2.trim_side I (L2.side I b ask) n ≡ some (z, j)
      → L2.trim I b n ≡ some (record b { bids = x; asks = z }, k + j)
  unfolding L2.trim
  trim_of b n x z k j e p =
      ap
        (λ o. elim o [
          | none ↦ none
          | some (x, k) ↦ elim (L2.trim_side I b.asks n) [
            | none ↦ none
            | some (y, m) ↦ some (record b { bids = x; asks = y }, k + m)
          ]
        ])
        e
      ∙ ap
          (λ o. elim o [
            | none ↦ none
            | some (y, m) ↦ some (record b { bids = x; asks = y }, k + m)
          ])
          p
