-- ===== src/L3/Table/Laws.antt =====
-- The hash table of l3.hpp as a map: what a lookup finds behind each operation.
use crossbook.Common.{ℕ, zero, suc, ◌+◌, ◌*◌, ◌≤◌, ◌<◌, ◌≡◌, ◌≢◌, refl, sym, ap, ◌∙◌, arith}
use crossbook.Common.{
  true, false, ◌↔◌, ◌⊎◌, inl, inr, Bool-cases, if◌then◌else◌, ◌==◌, leb, ltb, ==_iff,
}
use crossbook.L3.Table.{
  IdTable, is_of, moved, no_order, is_fresh, home, vacant, rehash, next_pow2_from, next_pow2, grow,
  insert_ref, erase_ref, find_ref, make_table, clear_table, bury,
}
use crossbook.L3.Table.Probe.{IsPower}
use crossbook.L3.Table.Valid.{
  IsTable, Held, Absent, present, missing, table-Verdict, find_ref-Held, find_ref-Absent,
  Absent-find_ref, Held-find_ref,
}
use crossbook.L3.Table.Write.{planted-Held, planted-IsTable, bury-Held, bury-IsTable}
use crossbook.L3.Table.Grow.{vacancy, moved-IsMoved, assign_slots-IsTable, assign_slots-Absent}
use native.Mathlib.Nat.{pow-suc}

-- Two tables that hold the same of an id find the same.
find_ref-same :
    {t u : IdTable} (v : IsTable t) (w : IsTable u) (y : ℕ)
    → ((s : ℕ) → Held u y s ↔ Held t y s)
    → find_ref u y ≡ find_ref t y
find_ref-same {t} {u} v w y same = elim (Bool-cases (find_ref u y == no_order)) [
  | inl gone ↦ elim (Bool-cases (find_ref t y == no_order)) [
    | inl gone' ↦
        (==_iff (find_ref u y) no_order).0 gone ∙ sym ((==_iff (find_ref t y) no_order).0 gone')
    | inr there ↦
        let h = Held-find_ref v y (λ e. cc (there, (==_iff (find_ref t y) no_order).1 e)) in
        find_ref-Held w y (find_ref t y) ((same (find_ref t y)).1 h)
  ]
  | inr there ↦
      let h = Held-find_ref w y (λ e. cc (there, (==_iff (find_ref u y) no_order).1 e)) in
      sym (find_ref-Held v y (find_ref u y) ((same (find_ref u y)).0 h))
]

-- A table that has a spare slot even when one more is used, and holds what `t` holds.
abbrev Roomy : IdTable → IdTable → Type 0
Roomy t g = IsTable g × (g.used + 1 < g.size) × ((y s : ℕ) → Held g y s ↔ Held t y s)

rehash-Roomy : {t : IdTable} (v : IsTable t) → Roomy t (rehash t (t.size * 2))
unfolding rehash
rehash-Roomy {t} v =
    let m =
      moved-IsMoved v.index (t.size * 2) (double v.power) (omega (arith, v.large))
        (omega (arith, v.large)) t.size (omega arith) in
    (m.table, omega (arith, m.used_le, m.size_eq, v.large), m.held)
  where
    double : IsPower t.size → IsPower (t.size * 2)
    double (k, e) = (suc k, ap (λ n. n * 2) e ∙ sym (pow-suc 2 k))

grow-Roomy : {t : IdTable} (v : IsTable t) → Roomy t (grow t)
unfolding grow
grow-Roomy {t} v = elim (Bool-cases (leb (t.size * 7) ((t.used + 1) * 10))) [
  | inl full ↦ rw full (rehash-Roomy v)
  | inr room ↦ rw room (v, ground arith, λ y s. (λ h. h, λ h. h))
]

module _ {t : IdTable} (v : IsTable t) (x r : ℕ) (named : r ≢ no_order)
    (new : find_ref t x ≡ no_order) where
  absent : Absent (grow t) x
  absent =
      let (g, room, same) = grow-Roomy v in Absent-find_ref g x (find_ref-same v g x (same x) ∙ new)

  slot : ℕ
  slot = vacant (grow t).size (grow t) (home (grow t) x)

  used_more : ℕ
  used_more = if ((grow t).slots slot).tombstone then (grow t).used else (grow t).used + 1

  grows : (if is_fresh ((grow t).slots slot) then 1 else 0) + (grow t).used ≤ used_more
  unfolding used_more
  grows = ground arith

  spare : used_more < (grow t).size
  unfolding used_more
  spare = let (g, room, same) = grow-Roomy v in ground (arith, room)

  pub insert_ref-IsTable : IsTable (insert_ref t x r)
  unfolding insert_ref slot used_more
  insert_ref-IsTable =
      let (g, room, same) = grow-Roomy v in
      planted-IsTable g x r slot used_more named absent (vacancy g x) grows spare

  insert_ref-Held :
      (y s : ℕ) → Held (insert_ref t x r) y s ↔ (((y ≡ x) × (s ≡ r)) ⊎ Held (grow t) y s)
  unfolding insert_ref slot used_more
  insert_ref-Held =
      let (g, room, same) = grow-Roomy v in
      planted-Held g x r slot used_more named absent (vacancy g x) grows spare

  -- In a valid table that does not find an id, after that id is inserted with a reference that is not
  -- the sentinel it is found with it, and every other id is found as before, whether or not the
  -- insertion grows and rehashes the table.
  pub find_ref-insert_ref :
      (y : ℕ) → find_ref (insert_ref t x r) y ≡ (if x == y then r else find_ref t y)
  find_ref-insert_ref y = elim (Bool-cases (x == y)) [
    | inl here ↦ rw here (
        find_ref-Held insert_ref-IsTable y r
          ((insert_ref-Held y r).1 (inl (sym ((==_iff x y).0 here), refl))))
    | inr other ↦ rw other (find_ref-same v insert_ref-IsTable y (λ s. (forth other s, back s)))
  ]
    where
      forth : (x == y) ≡ false → (s : ℕ) → Held (insert_ref t x r) y s → Held t y s
      forth other s h = elim ((insert_ref-Held y s).0 h) [
        | inl (same, e) ↦ cc (other, (==_iff x y).1 (sym same))
        | inr h' ↦ let (g, room, same) = grow-Roomy v in (same y s).0 h'
      ]

      back : (s : ℕ) → Held t y s → Held (insert_ref t x r) y s
      back s h =
          let (g, room, same) = grow-Roomy v in (insert_ref-Held y s).1 (inr ((same y s).1 h))

pub erase_ref-IsTable : {t : IdTable} (v : IsTable t) (x : ℕ) → IsTable (erase_ref t x)
erase_ref-IsTable {t} v x = elim (table-Verdict v x) [
  | present i below match _ eu ↦ rw eu (bury-IsTable v x i below match)
  | missing _ _ eu ↦ rw eu v
]

-- In a valid table, after an id is erased it is not found, and every other id is found as before.
pub find_ref-erase_ref :
    {t : IdTable} (v : IsTable t) (x y : ℕ)
    → find_ref (erase_ref t x) y ≡ (if x == y then no_order else find_ref t y)
find_ref-erase_ref {t} v x y = elim (table-Verdict v x) [
  | present i below match _ eu ↦ rw eu (buried i below match (Bool-cases (x == y)))
  | missing absent er eu ↦ rw eu (elim (Bool-cases (x == y)) [
    | inl here ↦ rw here (ap (find_ref t) (sym ((==_iff x y).0 here)) ∙ find_ref-Absent v x absent)
    | inr other ↦ rw other refl
  ])
]
  where
    buried :
        (i : ℕ) (below : i < t.size) (match : is_of x (t.slots i) ≡ true)
        → ((x == y) ≡ true) ⊎ ((x == y) ≡ false)
        → find_ref (bury t i) y ≡ (if x == y then no_order else find_ref t y)
    buried i below match (inr other) = rw other (
        find_ref-same v (bury-IsTable v x i below match) y λ s. (
          (λ h. ((bury-Held v x i below match y s).0 h).0),
          (λ h.
              (bury-Held v x i below match y s).1
                (h, λ same. cc (other, (==_iff x y).1 (sym same)))),
        ))
    buried i below match (inl here) =
        rw here (elim (Bool-cases (find_ref (bury t i) y == no_order)) [
          | inl gone ↦ (==_iff (find_ref (bury t i) y) no_order).0 gone
          | inr there ↦ absurd (
              ((bury-Held v x i below match y (find_ref (bury t i) y)).0 (
                  Held-find_ref (bury-IsTable v x i below match) y
                    (λ e. cc (there, (==_iff (find_ref (bury t i) y) no_order).1 e)))).1
                (sym ((==_iff x y).0 here)))
        ])

pub clear_table-IsTable : {t : IdTable} (v : IsTable t) → IsTable (clear_table t)
unfolding clear_table
clear_table-IsTable {t} v = assign_slots-IsTable t.size v.power v.large

pub find_ref-clear_table :
    {t : IdTable} (v : IsTable t) (y : ℕ) → find_ref (clear_table t) y ≡ no_order
unfolding clear_table
find_ref-clear_table {t} v y =
    find_ref-Absent (assign_slots-IsTable t.size v.power v.large) y (assign_slots-Absent t.size y)

next_pow2_from-IsPower :
    (fuel n p : ℕ)
    → IsPower p
    → 16 ≤ p
    → IsPower (next_pow2_from fuel n p) × (16 ≤ next_pow2_from fuel n p)
unfolding next_pow2_from
next_pow2_from-IsPower zero n p h l = (h, l)
next_pow2_from-IsPower (suc fuel) n p (k, e) l = elim (Bool-cases (ltb p n)) [
  | inl small ↦ rw small (
      next_pow2_from-IsPower fuel n (p * 2) (suc k, ap (λ m. m * 2) e ∙ sym (pow-suc 2 k))
        (omega arith))
  | inr enough ↦ rw enough ((k, e), l)
]

next_pow2-IsPower : (n : ℕ) → IsPower (next_pow2 n) × (16 ≤ next_pow2 n)
unfolding next_pow2
next_pow2-IsPower n = next_pow2_from-IsPower n n 16 (4, refl) (omega arith)

pub make_table-IsTable : (n : ℕ) → IsTable (make_table n)
unfolding make_table rehash moved
make_table-IsTable n =
    let (p, l) = next_pow2-IsPower (n * 2) in assign_slots-IsTable (next_pow2 (n * 2)) p l

pub find_ref-make_table : (n y : ℕ) → find_ref (make_table n) y ≡ no_order
unfolding make_table rehash moved
find_ref-make_table n y =
    let (p, l) = next_pow2-IsPower (n * 2) in
    find_ref-Absent (assign_slots-IsTable (next_pow2 (n * 2)) p l) y
      (assign_slots-Absent (next_pow2 (n * 2)) y)

le-next_pow2_from : (fuel n p : ℕ) → n ≤ p + fuel → 0 < p → n ≤ next_pow2_from fuel n p
unfolding next_pow2_from
le-next_pow2_from zero n p h l = omega arith
le-next_pow2_from (suc fuel) n p h l = elim (Bool-cases (ltb p n)) [
  | inl small ↦ rw small (le-next_pow2_from fuel n (p * 2) (omega arith) (omega arith))
  | inr enough ↦ rw enough (ground arith)
]

-- The loop ends by its test: the table has room for what was asked.
pub le-next_pow2 : (n : ℕ) → n ≤ next_pow2 n
unfolding next_pow2
le-next_pow2 n = le-next_pow2_from n n 16 (omega arith) (omega arith)
