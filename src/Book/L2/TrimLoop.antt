-- ===== src/Book/L2/TrimLoop.antt =====
-- The `for (;;)` of `trim` ends, and what it leaves.
use crossbook.Common.{ℕ, zero, suc, ◌+◌, ◌-◌, ◌<◌, ◌≡◌, refl, ap, ◌∙◌, sym, arith, min}
use crossbook.Common.{false, List, ◌++◌, some, length, take, drop, inl, inr, ==_iff}
use crossbook.Common.{
  ◌==◌, Bool-cases, length-append, length-take, length-drop, take-append, take_all,
}
use crossbook.Types.{Level}
use crossbook.Book.Ladder.Remove.{prices}
use crossbook.Book.Visit.{SideImpl, IsSideImpl}
use crossbook.Book.L2
use crossbook.Book.L2.Trim.{doomed-levels, pass-levels, length-prices}

-- The levels past the kept ones.
abbrev excess : ℕ → List Level → ℕ
excess m ls = length ls - m

length-doomed :
    (m : ℕ) (ls : List Level) → length (prices (take 64 (drop m ls))) ≡ min 64 (excess m ls)
length-doomed m ls =
    length-prices (take 64 (drop m ls))
    ∙ length-take 64 (drop m ls)
    ∙ ap (min 64) (length-drop m ls)

kept-take : (m : ℕ) (ls rs : List Level) → 0 < excess m ls → take m (take m ls ++ rs) ≡ take m ls
kept-take m ls rs h = take-append m (take m ls) rs (omega (arith, length-take m ls))

length-kept :
    (m : ℕ) (ls : List Level)
    → 0 < excess m ls
    → length (take m ls ++ drop 64 (drop m ls)) + min 64 (excess m ls) ≡ length ls
length-kept m ls h = omega (
  arith,
  length-append (take m ls) (drop 64 (drop m ls)),
  length-take m ls,
  length-drop 64 (drop m ls),
  length-drop m ls,
)

suc_ne : (m : ℕ) → (suc m == 0) ≡ false
suc_ne m = ground arith

-- What a subscription of depth `m` covers; 0 stands for the full book.
abbrev pub kept : ℕ → List Level → List Level
kept zero ls = ls
kept (suc m) ls = take (suc m) ls

module _ (I : SideImpl) (L : IsSideImpl I) where
  open I use {State}
  open L use {IsValid, levels}

  -- What `trim` promises of its result.
  abbrev pub Trimmed : State → ℕ → ℕ → State → Type 0
  Trimmed x m n y =
      IsValid y × (L.side y ≡ L.side x) × (levels y ≡ take m (levels x)) × (n ≡ excess m (levels x))

  trim_loop-Trimmed :
      (fuel : ℕ) (x : State) (m removed : ℕ)
      → IsValid x
      → length (levels x) < fuel
      → (y : State) × (n : ℕ) × (L2.trim_loop I fuel x m removed ≡ some (y, removed + n))
        × Trimmed x m n y
  unfolding L2.trim_loop
  trim_loop-Trimmed zero x m removed v h = absurd (omega arith)
  trim_loop-Trimmed (suc fuel) x m removed v h = elim (Bool-cases (length (L2.doomed I x m) == 0)) [
    | inl done ↦
        let none_left : excess m ls ≡ 0 = omega (arith, count, (==_iff _ 0).0 done) in
        (
          x,
          0,
          rw done (ap (λ k. some (x, k)) (omega arith)),
          (v, refl, sym (take_all m ls (omega arith)), sym none_left),
        )
    | inr more ↦
        let some_left : 0 < excess m ls = ground (arith, count) in
        let (v', s', l') = pass-levels I L x m v in
        let shorter = ap length l' in
        let (y, n, e, (vy, sy, ly, ny)) =
          trim_loop-Trimmed fuel (L2.remove_all I x (L2.doomed I x m)) m
            (removed + length (L2.doomed I x m)) v'
            (omega (arith, shorter, length-kept m ls some_left)) in
        (
          y,
          length (L2.doomed I x m) + n,
          rw more (e ∙ ap (λ k. some (y, k)) (omega arith)),
          (
            vy,
            sy ∙ s',
            ly ∙ ap (take m) l' ∙ kept-take m ls (drop 64 (drop m ls)) some_left,
            omega (arith, ny, shorter, length-kept m ls some_left, count),
          ),
        )
  ]
    where
      ls : List Level
      ls = levels x

      count : length (L2.doomed I x m) ≡ min 64 (excess m ls)
      count = ap length (doomed-levels I L x m v) ∙ length-doomed m ls

  -- `trim` of the side `x` returns, with the levels that a depth of `m` covers and the number of
  -- those that it dropped.
  abbrev pub Trims : State → ℕ → Type 0
  Trims x m =
      (y : State) × (n : ℕ) × (L2.trim_side I x m ≡ some (y, n))
      × IsValid y
      × (L.side y ≡ L.side x)
      × (levels y ≡ kept m (levels x))
      × (n + length (levels y) ≡ length (levels x))

  -- `trim` of a valid side always returns. It leaves a valid side that holds exactly the first `m`
  -- levels in book order, all of them where `m` is 0, and it returns the number of levels dropped.
  pub trim_side-Trimmed : (x : State) (m : ℕ) → IsValid x → Trims x m
  unfolding L2.trim_side
  trim_side-Trimmed x zero v = (x, 0, refl, v, refl, refl, omega arith)
  trim_side-Trimmed x (suc m) v =
      let (y, n, e, (vy, sy, ly, ny)) =
        trim_loop-Trimmed (suc (I.size x)) x (suc m) 0 v (omega (arith, L.size-levels x v)) in
      (
        y,
        n,
        rw (suc_ne m) (e ∙ ap (λ k. some (y, k)) (omega arith)),
        vy,
        sy,
        ly,
        omega (arith, ny, ap length ly, length-take (suc m) (levels x)),
      )
