-- ===== src/Book/L2/Agree.antt =====
-- Two books that differ only in their containers: `ArrayBook` and `MapBook` of book.hpp, and the
-- differential test that compares them after every step.
use crossbook.Common.{ℕ, ◌<◌, ◌^◌, ◌≡◌, refl, ap₂}
use crossbook.Common.{List, [], ◌∷◌, Option, none, some, All}
use crossbook.Types.{InstrumentSpec}
use crossbook.Book.Visit.{SideImpl, IsSideImpl}
use crossbook.Book.Map.Refines.{map_impl, map_refines}
use crossbook.Book.Array.Refines.{array_impl, array_refines}
use crossbook.Book.L2
use crossbook.Book.L2.{L2Book}
use crossbook.Book.L2.Act.{Act, IsFit, call, after_call, run}
use crossbook.Book.L2.Alike.{IsReadAlike, Agree, Agree-IsReadAlike}
use crossbook.Book.L2.Calls.{make-Agree, Alike, call-Alike}

module _ (I J : SideImpl) (L : IsSideImpl I) (M : IsSideImpl J) where
  -- Both runs end, with the same answers and with two books that agree.
  abbrev Ends : Option (L2Book I.State × List ℕ) → Option (L2Book J.State × List ℕ) → Type 0
  Ends (some (b, ns)) (some (c, ms)) = (ns ≡ ms) × Agree I J L M b c
  Ends (some (b, ns)) none = ⊥
  Ends none o = ⊥

  run-Ends :
      (acts : List Act) (b : L2Book I.State) (c : L2Book J.State)
      → All IsFit acts
      → Agree I J L M b c
      → Ends (run I acts b) (run J acts c)
  unfolding run
  run-Ends [] b c h g = (refl, g)
  run-Ends (a ∷ acts) b c (f, fs) g =
      called (call I a b) (call J a c) (call-Alike I J L M a b c f g) (λ b c. run-Ends acts b c fs)
    where
      cons :
          (n m : ℕ) (o : Option (L2Book I.State × List ℕ)) (o' : Option (L2Book J.State × List ℕ))
          → n ≡ m
          → Ends o o'
          → Ends
              (elim o [ none ↦ none | some (c, answers) ↦ some (c, n ∷ answers) ])
              (elim o' [ none ↦ none | some (c, answers) ↦ some (c, m ∷ answers) ])
      cons n m (some (b, ns)) (some (c, ms)) e (h, g) = (ap₂ ◌∷◌ e h, g)
      cons n m none o e x = absurd x
      cons n m (some (b, ns)) none e x = absurd x

      called :
          (o : Option (L2Book I.State × ℕ)) (o' : Option (L2Book J.State × ℕ))
          → Alike I J L M o o'
          → ((b : L2Book I.State) (c : L2Book J.State)
              → Agree I J L M b c
              → Ends (run I acts b) (run J acts c))
          → Ends (after_call I o (run I acts)) (after_call J o' (run J acts))
      called (some (b, n)) (some (c, m)) (e, g) next =
          cons n m (run I acts b) (run J acts c) e (next b c g)
      called none o x next = absurd x
      called (some (b, n)) none x next = absurd x

-- Both runs end, with the same answers and with two books that are read alike.
abbrev pub IsRunAlike :
    (I J : SideImpl) → Option (L2Book I.State × List ℕ) → Option (L2Book J.State × List ℕ) → Type 0
IsRunAlike I J (some (b, ns)) (some (c, ms)) = (ns ≡ ms) × IsReadAlike I J b c
IsRunAlike I J (some (b, ns)) none = ⊥
IsRunAlike I J none o = ⊥

-- `ArrayBook` with fewer than 2^63 slots and `MapBook`, both made for the same instrument, after
-- any calls of `apply`, `clear` and `trim` with int64_t prices and quantities: both runs end, the
-- two books have answered every call alike, and they have the same size and best level on each
-- side, the same top levels for any count, the same checksum and the same state hash.
pub run-IsRunAlike :
    (slots : ℕ) (spec : InstrumentSpec) (acts : List Act)
    → slots < 2 ^ 63
    → All IsFit acts
    → IsRunAlike
        (array_impl slots)
        map_impl
        (run (array_impl slots) acts (L2.make (array_impl slots) spec))
        (run map_impl acts (L2.make map_impl spec))
run-IsRunAlike slots spec acts h f =
    read (run (array_impl slots) acts (L2.make (array_impl slots) spec))
      (run map_impl acts (L2.make map_impl spec))
      (run-Ends (array_impl slots) map_impl (array_refines slots h) map_refines acts
        (L2.make (array_impl slots) spec) (L2.make map_impl spec) f
        (make-Agree (array_impl slots) map_impl (array_refines slots h) map_refines spec))
  where
    read :
        (o : Option (L2Book (array_impl slots).State × List ℕ))
        (o' : Option (L2Book map_impl.State × List ℕ))
        → Ends (array_impl slots) map_impl (array_refines slots h) map_refines o o'
        → IsRunAlike (array_impl slots) map_impl o o'
    read (some (b, ns)) (some (c, ms)) (e, g) =
        (e, Agree-IsReadAlike (array_impl slots) map_impl (array_refines slots h) map_refines b c g)
    read none o x = absurd x
    read (some (b, ns)) none x = absurd x
