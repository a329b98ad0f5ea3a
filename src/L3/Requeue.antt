-- ===== src/L3/Requeue.antt =====
-- What l3.hpp keeps outside the queues, where orders change their links or their places only.
use crossbook.Common.{ℕ, ◌<◌, ◌≡◌, sym, ap, ◌∙◌, arith, All, All-append, length-append, subst}
use crossbook.Common.{true, false, ◌⊎◌, inl, inr, List, [], ◌∷◌, ◌++◌, ◌==◌}
use crossbook.L3.Table.{find_ref}
use crossbook.L3.Table.Valid.{IsTable}
use crossbook.L3.{L3Book, is_positive, link_back, unlink}
use crossbook.L3.Links.{IsFresh, IsDistinct, All-imp, All-and, IsDistinct-without}
use crossbook.L3.LinkBack.{SameButQueues, SameButLinks, link_back_kept, link_back_rest, everywhere}
use crossbook.L3.Append.{link_back-IsQueued}
use crossbook.L3.Leave.{unlink-IsQueued, unlink_rest, unlink_kept}
use crossbook.L3.Valid.{
  IsFiled, IsBook, resting, Listed, Listed-All, Listed-left, Listed-right, Listed-middle,
}
use crossbook.L3.Enter.{resting_eq}
use crossbook.L3.Release.{All-middle}

pub IsFiled-frame :
    {b c : L3Book} {rs : List ℕ} (k : IsFiled b rs)
    → SameButQueues c b
    → All
        (λ j.
          (((c.orders j).id ≡ (b.orders j).id) × ((c.orders j).live ≡ (b.orders j).live))
          × (is_positive (c.orders j).qty ≡ true))
        rs
    → IsFiled c rs
IsFiled-frame {b} {c} {rs} k (t, a, f, l) same = record {
  table = subst IsTable (sym t) k.table;
  indexed = λ x ne.
      let e = ap (λ u. find_ref u x) t in
      let (listed, own) = k.indexed x (λ h. ne (e ∙ h)) in
      rw e (listed, (Listed-All _ (find_ref b.table x) rs listed same).0.0 ∙ own);
  filed =
      All-imp
        (λ j.
          ((((c.orders j).id ≡ (b.orders j).id) × ((c.orders j).live ≡ (b.orders j).live))
            × (is_positive (c.orders j).qty ≡ true))
          × (find_ref b.table (b.orders j).id ≡ j))
        _ rs (λ j h. rw (t, h.0.0.0) h.1) (All-and _ _ rs same k.filed);
  alive =
      All-imp
        (λ j.
          ((((c.orders j).id ≡ (b.orders j).id) × ((c.orders j).live ≡ (b.orders j).live))
            × (is_positive (c.orders j).qty ≡ true))
          × (((b.orders j).live ≡ true)
              × (is_positive (b.orders j).qty ≡ true)
              × (j < b.arena_size)))
        _ rs (λ j h. (h.0.0.1 ∙ h.1.0, h.0.1, rw a h.1.2)) (All-and _ _ rs same k.alive);
  free = subst (λ n. All (λ x. (x < n) × IsFresh x rs) c.free_list) (sym a) (rw f k.free);
  free_distinct = subst IsDistinct (sym f) k.free_distinct;
  bounded = rw a k.bounded;
  counted = l ∙ k.counted;
}

-- The reference at `r` moves to the back.
to_back :
    (P : ℕ → Type 0) (xs : List ℕ) (r : ℕ) (ys : List ℕ)
    → All P (xs ++ r ∷ ys)
    → All P ((xs ++ ys) ++ r ∷ [])
to_back P xs r ys h =
    let (l, p) = All-middle P xs r ys h in All-append P (xs ++ ys) (r ∷ []) l (p, tt)

IsFiled-to_back :
    {b : L3Book} (xs : List ℕ) (r : ℕ) (ys : List ℕ) (k : IsFiled b (xs ++ r ∷ ys))
    → IsFiled b ((xs ++ ys) ++ r ∷ [])
IsFiled-to_back {b} xs r ys k = record {
  table = k.table;
  indexed = λ x ne.
      let (listed, own) = k.indexed x ne in
      (moved (find_ref b.table x) (Listed-middle (find_ref b.table x) xs r ys listed), own);
  filed = to_back _ xs r ys k.filed;
  alive = to_back _ xs r ys k.alive;
  free =
      All-imp (λ x. (x < b.arena_size) × IsFresh x (xs ++ r ∷ ys)) _ b.free_list
        (λ x h. (h.0, to_back (λ y. (x == y) ≡ false) xs r ys h.1)) k.free;
  free_distinct = k.free_distinct;
  bounded = k.bounded;
  counted = omega (
    arith,
    k.counted,
    length-append xs (r ∷ ys),
    length-append xs ys,
    length-append (xs ++ ys) (r ∷ []),
  );
}
  where
    moved : (x : ℕ) → (x ≡ r) ⊎ Listed x (xs ++ ys) → Listed x ((xs ++ ys) ++ r ∷ [])
    moved x (inl e) = Listed-right x (xs ++ ys) (r ∷ []) (inl e)
    moved x (inr h) = Listed-left x (xs ++ ys) (r ∷ []) h

-- An order that is unlinked and linked again is the last of its queue.
module _ {b : L3Book} (xs : List ℕ) (r : ℕ) (ys : List ℕ) (k : IsBook b (xs ++ r ∷ ys)) where
  abbrev u : L3Book
  u = unlink b r

  abbrev c : L3Book
  c = link_back u r

  c_rest : (j : ℕ) → SameButLinks (c.orders j) (b.orders j)
  c_rest j =
      let (i, p, q, s, l) = link_back_rest u r j in
      let (i', p', q', s', l') = unlink_rest r xs ys k.queued j in
      (i ∙ i', p ∙ p', q ∙ q', s ∙ s', l ∙ l')

  c_kept : SameButQueues c b
  c_kept =
      let (t, a, f, l) = link_back_kept u r in
      let (t', a', f', l') = unlink_kept r xs ys k.queued in (t ∙ t', a ∙ a', f ∙ f', l ∙ l')

  pub requeue-IsBook : IsBook (link_back (unlink b r) r) ((xs ++ ys) ++ r ∷ [])
  requeue-IsBook = record {
    queued =
        link_back-IsQueued (unlink-IsQueued r xs ys k.queued) r
          (IsDistinct-without xs r ys k.queued.distinct).1 (All-middle _ xs r ys k.queued.nulls).1;
    on_file = IsFiled-frame (IsFiled-to_back xs r ys k.on_file) c_kept (
        All-imp
          (λ j.
            ((b.orders j).live ≡ true) × (is_positive (b.orders j).qty ≡ true) × (j < b.arena_size))
          _ ((xs ++ ys) ++ r ∷ [])
          (λ j h. (((c_rest j).0, (c_rest j).4), ap is_positive (c_rest j).2 ∙ h.1))
          (to_back _ xs r ys k.on_file.alive));
  }

  pub requeue_view : (zs : List ℕ) → All (λ j. resting c.orders j ≡ resting b.orders j) zs
  requeue_view zs = everywhere _ zs (λ j. resting_eq b.orders c.orders j (c_rest j))

  pub requeue-arena : c.arena_size ≡ b.arena_size
  requeue-arena = c_kept.1
