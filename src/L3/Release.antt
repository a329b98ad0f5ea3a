-- ===== src/L3/Release.antt =====
-- `remove` of l3.hpp for an order that is live: it is gone, and its reference is free again.
use crossbook.Common.{
  ℕ, ◌+◌, ◌-◌, ◌≤◌, ◌<◌, ◌≡◌, ◌≢◌, refl, sym, ap, ◌∙◌, arith, All, All-append, length-append, subst,
}
use crossbook.Common.{true, false, ◌⊎◌, inl, inr, Bool-cases, if◌then◌else◌, ◌==◌, ==_iff}
use crossbook.Common.{List, ◌∷◌, ◌++◌, map}
use crossbook.L3.Table.{no_order, find_ref, erase_ref}
use crossbook.L3.Table.Valid.{IsTable}
use crossbook.L3.Table.Laws.{erase_ref-IsTable, find_ref-erase_ref}
use crossbook.L3.{L3Book, is_positive, unlink, find_level, release}
use crossbook.L3.Links.{
  IsFresh, IsDistinct, All-imp, All-and, All-split, eq_sym, IsDistinct-without,
}
use crossbook.L3.Queues.{IsQueued}
use crossbook.L3.LinkBack.{SameButLinks}
use crossbook.L3.Leave.{unlink-IsQueued, unlink_rest, unlink_kept}
use crossbook.L3.Valid.{IsBook, resting, Listed, Listed-All, Listed-middle, IsQueued-write}
use crossbook.L3.Lookup.{Lacks, map-same}
use crossbook.L3.Enter.{resting_eq}

pub All-middle :
    (P : ℕ → Type 0) (xs : List ℕ) (r : ℕ) (ys : List ℕ)
    → All P (xs ++ r ∷ ys)
    → All P (xs ++ ys) × P r
All-middle P xs r ys h = let (l, m) = All-split P xs (r ∷ ys) h in (All-append P xs ys l m.1, m.0)

module _ {b : L3Book} (xs : List ℕ) (r : ℕ) (ys : List ℕ) (k : IsBook b (xs ++ r ∷ ys)) (id : ℕ)
    (own : (b.orders r).id ≡ id) (lacks : Lacks b.orders id (xs ++ ys)) where
  abbrev rest : List ℕ
  rest = xs ++ ys

  abbrev u : L3Book
  u = unlink b r

  abbrev c : L3Book
  c = release b id r

  fresh : IsFresh r rest
  fresh = (IsDistinct-without xs r ys k.queued.distinct).1

  left_alone : All (λ j. c.orders j ≡ u.orders j) rest
  unfolding release
  left_alone = All-imp (λ j. (r == j) ≡ false) _ rest (λ j h. rw h) fresh

  c-IsQueued : IsQueued c rest
  unfolding find_level
  c-IsQueued =
      IsQueued-write u c rest left_alone (λ s p. unfold release in refl)
        (unlink-IsQueued r xs ys k.queued)

  c_rest : All (λ j. SameButLinks (c.orders j) (b.orders j)) rest
  c_rest =
      All-imp (λ j. c.orders j ≡ u.orders j) _ rest
        (λ j h. subst (λ o. SameButLinks o (b.orders j)) (sym h) (unlink_rest r xs ys k.queued j))
        left_alone

  c_table : c.table ≡ erase_ref b.table id
  unfolding release
  c_table = ap (λ t. erase_ref t id) (unlink_kept r xs ys k.queued).0

  c_arena : c.arena_size ≡ b.arena_size
  unfolding release
  c_arena = (unlink_kept r xs ys k.queued).1

  c_free : c.free_list ≡ r ∷ b.free_list
  unfolding release
  c_free = ap (◌∷◌ r) (unlink_kept r xs ys k.queued).2

  c_live : c.live_orders ≡ b.live_orders - 1
  unfolding release
  c_live = ap (λ n. n - 1) (unlink_kept r xs ys k.queued).3

  lookup_c : (x : ℕ) → find_ref c.table x ≡ (if id == x then no_order else find_ref b.table x)
  lookup_c x = ap (λ t. find_ref t x) c_table ∙ find_ref-erase_ref k.on_file.table id x

  c_indexed :
      (x : ℕ)
      → find_ref c.table x ≢ no_order
      → Listed (find_ref c.table x) rest × ((c.orders (find_ref c.table x)).id ≡ x)
  c_indexed x ne = elim (Bool-cases (id == x)) [
    | inl same ↦ absurd (ne (lookup_c x ∙ rw same))
    | inr other ↦
        let as_before : find_ref c.table x ≡ find_ref b.table x = lookup_c x ∙ rw other in
        let (listed, owner) = k.on_file.indexed x (λ h. ne (as_before ∙ h)) in
        rw as_before (found other owner (Listed-middle (find_ref b.table x) xs r ys listed))
  ]
    where
      found :
          (id == x) ≡ false
          → (b.orders (find_ref b.table x)).id ≡ x
          → (find_ref b.table x ≡ r) ⊎ Listed (find_ref b.table x) rest
          → Listed (find_ref b.table x) rest × ((c.orders (find_ref b.table x)).id ≡ x)
      found other owner (inl e) =
          cc (other, (==_iff id x).1 (sym own ∙ ap (λ j. (b.orders j).id) (sym e) ∙ owner))
      found other owner (inr listed) =
          (listed, (Listed-All _ (find_ref b.table x) rest listed c_rest).0 ∙ owner)

  c_filed : All (λ x. find_ref c.table (c.orders x).id ≡ x) rest
  c_filed =
      All-imp
        (λ x.
          SameButLinks (c.orders x) (b.orders x)
          × ((find_ref b.table (b.orders x).id ≡ x) × (((b.orders x).id == id) ≡ false)))
        _ rest
        (λ x h.
          ap (find_ref c.table) h.0.0
          ∙ lookup_c (b.orders x).id
          ∙ rw (eq_sym (b.orders x).id id h.1.1) h.1.0)
        (All-and _ _ rest c_rest (
          All-and _ (λ x. ((b.orders x).id == id) ≡ false) rest
            (All-middle _ xs r ys k.on_file.filed).0 lacks))

  c_alive :
      All
        (λ x.
          ((c.orders x).live ≡ true) × (is_positive (c.orders x).qty ≡ true) × (x < c.arena_size))
        rest
  c_alive =
      All-imp
        (λ x.
          SameButLinks (c.orders x) (b.orders x)
          × (((b.orders x).live ≡ true)
              × (is_positive (b.orders x).qty ≡ true)
              × (x < b.arena_size)))
        _ rest (λ x h. (h.0.4 ∙ h.1.0, ap is_positive h.0.2 ∙ h.1.1, rw c_arena h.1.2))
        (All-and _ _ rest c_rest (All-middle _ xs r ys k.on_file.alive).0)

  c_free_fresh : All (λ x. (x < c.arena_size) × IsFresh x rest) c.free_list
  c_free_fresh =
      subst (λ n. All (λ x. (x < n) × IsFresh x rest) c.free_list) (sym c_arena)
        (rw c_free (
          ((All-middle _ xs r ys k.on_file.alive).1.2, fresh),
          All-imp (λ x. (x < b.arena_size) × IsFresh x (xs ++ r ∷ ys)) _ b.free_list
              (λ x h. (h.0, (All-middle _ xs r ys h.1).0)) k.on_file.free,
        ))

  c_free_distinct : IsDistinct c.free_list
  c_free_distinct = rw c_free (
    All-imp (λ x. (x < b.arena_size) × IsFresh x (xs ++ r ∷ ys)) _ b.free_list
        (λ x h. eq_sym x r (All-middle _ xs r ys h.1).1) k.on_file.free,
    k.on_file.free_distinct,
  )

  pub release-IsBook : IsBook (release b id r) (xs ++ ys)
  release-IsBook = record {
    queued = c-IsQueued;
    on_file = record {
      table = subst IsTable (sym c_table) (erase_ref-IsTable k.on_file.table id);
      indexed = c_indexed;
      filed = c_filed;
      alive = c_alive;
      free = c_free_fresh;
      free_distinct = c_free_distinct;
      bounded = rw c_arena k.on_file.bounded;
      counted =
          omega (arith, c_live, k.on_file.counted, length-append xs (r ∷ ys), length-append xs ys);
    };
  }

  pub release_view : map (resting c.orders) rest ≡ map (resting b.orders) rest
  release_view =
      map-same b.orders c.orders rest
        (All-imp _ _ rest (λ x h. resting_eq b.orders c.orders x h) c_rest)

  pub release-arena : c.arena_size ≤ b.arena_size + 1
  release-arena = omega (arith, c_arena)
