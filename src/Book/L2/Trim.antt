-- ===== src/Book/L2/Trim.antt =====
-- `trim` keeps the levels nearest the touch and drops the rest.
use crossbook.Common.{ℕ, zero, suc, ◌+◌, ◌≤◌, ◌<◌, ◌≡◌, refl, ap, ◌∙◌, sym, arith}
use crossbook.Common.{true, List, [], ◌∷◌, ◌++◌, append-nil, append_assoc}
use crossbook.Common.{
  ltb, length, take, drop, All, length-append, All-take, All-drop, take-append-drop, lt→ltb, le→ltb,
}
use crossbook.Common.Int.{pos, IsInt64}
use crossbook.Types.{Price, Level}
use crossbook.Book.Ladder.Remove.{prices, remove_prices, remove_prices-stretch}
use crossbook.Book.Visit.{SideImpl, IsSideImpl, visit, visit-go_on, visit-stop}
use crossbook.Book.L2

collect-keep :
    (m n : ℕ) (ds : List Price) (l : Level) → n < m → L2.collect m (n, ds) l ≡ ((n + 1, ds), true)
collect-keep m n ds l h = rw (lt→ltb n m h)

collect-name :
    (m n : ℕ) (ds : List Price) (l : Level)
    → m ≤ n
    → L2.collect m (n, ds) l ≡ ((n + 1, ds ++ l.price ∷ []), ltb (length ds + 1) 64)
collect-name m n ds l h = rw (le→ltb n m h)

-- Past the kept levels the visitor collects prices until its buffer is full.
visit-full :
    (m k n : ℕ) (ds : List Price) (ls : List Level)
    → m ≤ n
    → length ds + suc k ≡ 64
    → (visit (L2.collect m) ls (n, ds)).1 ≡ ds ++ prices (take (suc k) ls)
visit-full m k n ds [] h e = unfold visit in sym (append-nil ds)
visit-full m zero n ds (l ∷ ls) h e =
    ap (λ (r : ℕ × List Price). r.1)
      (visit-stop (L2.collect m) l ls (n, ds) (n + 1, ds ++ l.price ∷ [])
        (collect-name m n ds l h ∙ rw (le→ltb (length ds + 1) 64 (omega arith))))
visit-full m (suc k) n ds (l ∷ ls) h e =
    ap (λ (r : ℕ × List Price). r.1)
      (visit-go_on (L2.collect m) l ls (n, ds) (n + 1, ds ++ l.price ∷ [])
        (collect-name m n ds l h ∙ rw (lt→ltb (length ds + 1) 64 (omega arith))))
    ∙ visit-full m k (n + 1) (ds ++ l.price ∷ []) ls (omega arith)
        (omega (arith, length-append ds (l.price ∷ [])))
    ∙ append_assoc ds (l.price ∷ []) (prices (take (suc k) ls))

visit-skip :
    (m n j : ℕ) (ls : List Level)
    → n + j ≡ m
    → (visit (L2.collect m) ls (n, [])).1 ≡ prices (take 64 (drop j ls))
visit-skip m n zero ls h = visit-full m 63 n [] ls (omega arith) (omega arith)
visit-skip m n (suc j) [] h = unfold visit in refl
visit-skip m n (suc j) (l ∷ ls) h =
    ap (λ (r : ℕ × List Price). r.1)
      (visit-go_on (L2.collect m) l ls (n, []) (n + 1, []) (collect-keep m n [] l (omega arith)))
    ∙ visit-skip m (n + 1) j ls (omega arith)

zero_IsInt64 : IsInt64 (pos 0)
zero_IsInt64 = omega arith

abbrev AllInt64 : List Price → Type 0
AllInt64 [] = Unit {0}
AllInt64 (p ∷ ps) = IsInt64 p × AllInt64 ps

prices-AllInt64 : (ls : List Level) → All (λ (l : Level). IsInt64 l.price) ls → AllInt64 (prices ls)
prices-AllInt64 [] h = tt
prices-AllInt64 (l ∷ ls) (p, h) = (p, prices-AllInt64 ls h)

pub length-prices : (ls : List Level) → length (prices ls) ≡ length ls
length-prices [] = refl
length-prices (l ∷ ls) = ap suc (length-prices ls)

-- For any container that keeps the laws.
module _ (I : SideImpl) (L : IsSideImpl I) where
  open I use {State}
  open L use {IsValid, levels}

  remove_all-IsValid :
      (x : State) (ps : List Price)
      → IsValid x
      → AllInt64 ps
      → IsValid (L2.remove_all I x ps)
        × (L.side (L2.remove_all I x ps) ≡ L.side x)
        × (levels (L2.remove_all I x ps) ≡ remove_prices (L.side x) ps (levels x))
  unfolding L2.remove_all
  remove_all-IsValid x [] v h = (v, refl, unfold remove_prices in refl)
  remove_all-IsValid x (p ∷ ps) v (h, hs) =
      let (v', s', l') =
        remove_all-IsValid (I.apply x p (pos 0)) ps (L.apply-IsValid x p (pos 0) v h zero_IsInt64)
          hs in
      (
        v',
        s' ∙ L.side-apply x p (pos 0),
        l'
            ∙ unfold remove_prices in
              rw (L.side-apply x p (pos 0), L.levels-apply x p (pos 0) v h zero_IsInt64) refl,
      )

  -- What one pass names.
  pub doomed-levels :
      (x : State) (m : ℕ) → IsValid x → L2.doomed I x m ≡ prices (take 64 (drop m (levels x)))
  unfolding L2.doomed
  doomed-levels x m v =
      ap (λ (r : ℕ × List Price). r.1)
        (L.for_each-levels (ℕ × List Price) (L2.collect m) x (0, []) v)
      ∙ visit-skip m 0 m (levels x) (omega arith)

  -- One pass that names something cuts that stretch out.
  pub pass-levels :
      (x : State) (m : ℕ)
      → IsValid x
      → let y = L2.remove_all I x (L2.doomed I x m) in
        IsValid y
        × (L.side y ≡ L.side x)
        × (levels y ≡ take m (levels x) ++ drop 64 (drop m (levels x)))
  pass-levels x m v = rw (doomed-levels x m v) (
      let (v', s', l') = remove_all-IsValid x (prices ds) v named in
      (
        v',
        s',
        l'
            ∙ ap (remove_prices (L.side x) (prices ds)) (sym split)
            ∙ remove_prices-stretch (L.side x) (take m ls) ds (drop 64 (drop m ls))
                (rw split (L.levels-IsLadder x v)),
      ))
    where
      ls : List Level
      ls = levels x

      ds : List Level
      ds = take 64 (drop m ls)

      split : take m ls ++ (ds ++ drop 64 (drop m ls)) ≡ ls
      split = rw (take-append-drop 64 (drop m ls)) (take-append-drop m ls)

      named : AllInt64 (prices ds)
      named = prices-AllInt64 ds (
          All-take (λ (l : Level). IsInt64 l.price) 64 (drop m ls)
            (All-drop (λ (l : Level). IsInt64 l.price) m ls (L.levels-IsInt64 x v)))
