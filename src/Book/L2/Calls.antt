-- ===== src/Book/L2/Calls.antt =====
-- Two books that agree answer a call alike, and agree after it.
use crossbook.Common.{ℕ, ◌+◌, ◌≡◌, refl, sym, ap, ap₂, ◌∙◌, subst, arith}
use crossbook.Common.{◌||◌, Option, none, some, if◌then◌else◌, Bool-cases, inl, inr, length}
use crossbook.Common.Int.{IsInt64}
use crossbook.Book.Ladder.{update}
use crossbook.Types.{Side, bid, ask, Price, Qty, InstrumentSpec}
use crossbook.Book.Visit.{SideImpl, IsSideImpl}
use crossbook.Book.L2
use crossbook.Book.L2.{L2Book}
use crossbook.Book.L2.Update.{
  book_levels, side-IsValid, side-side, make-IsBook, book_levels-make, accepted_IsBook,
  accepted_levels, same_side,
}
use crossbook.Book.L2.TrimLoop.{trim_side-Trimmed, kept}
use crossbook.Book.L2.Act.{Act, put, wipe, cut, IsFit, call, trim_of}
use crossbook.Book.L2.Alike.{Agree}

module _ (I J : SideImpl) (L : IsSideImpl I) (M : IsSideImpl J) where
  pub make-Agree : (spec : InstrumentSpec) → Agree I J L M (L2.make I spec) (L2.make J spec)
  make-Agree spec = record {
    left = make-IsBook I L spec;
    right = make-IsBook J M spec;
    same = λ s. book_levels-make I L spec s ∙ sym (book_levels-make J M spec s);
  }

  -- Two calls answer the same, and leave two books that agree.
  abbrev pub Alike : Option (L2Book I.State × ℕ) → Option (L2Book J.State × ℕ) → Type 0
  Alike (some (b, n)) (some (c, m)) = (n ≡ m) × Agree I J L M b c
  Alike (some (b, n)) none = ⊥
  Alike none o = ⊥

  put-Agree :
      (s : Side) (p : Price) (q : Qty) (b : L2Book I.State) (c : L2Book J.State)
      → IsInt64 p
      → IsInt64 q
      → Agree I J L M b c
      → Agree I J L M
          (L2.with_side I b s (I.apply (L2.side I b s) p q))
          (L2.with_side J c s (J.apply (L2.side J c s) p q))
  put-Agree s p q b c hp hq g = record {
    left = accepted_IsBook I L b s p q g.left hp hq;
    right = accepted_IsBook J M c s p q g.right hp hq;
    same = λ s'.
        accepted_levels I L b s s' p q g.left hp hq
        ∙ ap₂ (λ xs ys. if same_side s s' then update s p q xs else ys) (g.same s) (g.same s')
        ∙ sym (accepted_levels J M c s s' p q g.right hp hq);
  }

  clear-Agree :
      (b : L2Book I.State) (c : L2Book J.State)
      → Agree I J L M b c
      → Agree I J L M (L2.clear I b) (L2.clear J c)
  unfolding L2.clear
  clear-Agree b c g =
      let l = g.left in
      let r = g.right in
      record {
        left = record {
          bids_valid = L.clear-IsValid b.bids l.bids_valid;
          asks_valid = L.clear-IsValid b.asks l.asks_valid;
          bids_side = L.side-clear b.bids ∙ l.bids_side;
          asks_side = L.side-clear b.asks ∙ l.asks_side;
        };
        right = record {
          bids_valid = M.clear-IsValid c.bids r.bids_valid;
          asks_valid = M.clear-IsValid c.asks r.asks_valid;
          bids_side = M.side-clear c.bids ∙ r.bids_side;
          asks_side = M.side-clear c.asks ∙ r.asks_side;
        };
        same = same;
      }
    where
      same :
          (s : Side) → L.levels (L2.side I (L2.clear I b) s) ≡ M.levels (L2.side J (L2.clear J c) s)
      same bid =
          L.levels-clear b.bids g.left.bids_valid ∙ sym (M.levels-clear c.bids g.right.bids_valid)
      same ask =
          L.levels-clear b.asks g.left.asks_valid ∙ sym (M.levels-clear c.asks g.right.asks_valid)

  -- One side of the two books is trimmed alike.
  trim_side-alike :
      (b : L2Book I.State) (c : L2Book J.State) (s : Side) (n : ℕ)
      → Agree I J L M b c
      → (x : I.State) × (y : J.State) × (k : ℕ) × (L2.trim_side I (L2.side I b s) n ≡ some (x, k))
        × (L2.trim_side J (L2.side J c s) n ≡ some (y, k))
        × L.IsValid x
        × M.IsValid y
        × (L.side x ≡ s)
        × (M.side y ≡ s)
        × (L.levels x ≡ M.levels y)
  trim_side-alike b c s n g =
      let (x, k, e, v, d, l, t) =
        trim_side-Trimmed I L (L2.side I b s) n (side-IsValid I L b s g.left) in
      let (y, j, e', v', d', l', t') =
        trim_side-Trimmed J M (L2.side J c s) n (side-IsValid J M c s g.right) in
      let alike = l ∙ ap (kept n) (g.same s) ∙ sym l' in
      let same : j ≡ k = omega (arith, t, t', ap length alike, ap length (g.same s)) in
      (
        x,
        y,
        k,
        e,
        e' ∙ ap (λ k. some (y, k)) same,
        v,
        v',
        d ∙ side-side I L b s g.left,
        d' ∙ side-side J M c s g.right,
        alike,
      )

  pub call-Alike :
      (a : Act) (b : L2Book I.State) (c : L2Book J.State)
      → IsFit a
      → Agree I J L M b c
      → Alike (call I a b) (call J a c)
  unfolding L2.apply
  call-Alike (put s p q) b c (hp, hq) g = elim (Bool-cases (L2.is_negative p || L2.is_negative q)) [
    | inl e ↦ rw e (refl, g)
    | inr e ↦ rw e (refl, put-Agree s p q b c hp hq g)
  ]
  call-Alike wipe b c f g = (refl, clear-Agree b c g)
  call-Alike (cut n) b c f g =
      let (x, y, k, e, e', v, v', d, d', l) = trim_side-alike b c bid n g in
      let (z, w, j, p, p', u, u', h, h', m) = trim_side-alike b c ask n g in
      subst (λ o. Alike o (L2.trim J c n)) (sym (trim_of I b n x z k j e p))
        (subst (Alike (some (record b { bids = x; asks = z }, k + j)))
          (sym (trim_of J c n y w k j e' p'))
          (
            refl,
            record {
              left = record { bids_valid = v; asks_valid = u; bids_side = d; asks_side = h };
              right = record { bids_valid = v'; asks_valid = u'; bids_side = d'; asks_side = h' };
              same = both (record b { bids = x; asks = z }) (record c { bids = y; asks = w }) l m;
            },
          ))
    where
      both :
          (b' : L2Book I.State) (c' : L2Book J.State)
          → L.levels b'.bids ≡ M.levels c'.bids
          → L.levels b'.asks ≡ M.levels c'.asks
          → (s : Side) → book_levels I L b' s ≡ book_levels J M c' s
      both b' c' h k bid = h
      both b' c' h k ask = k
