-- ===== src/L3/Table/Grow.antt =====
-- `rehash` of l3.hpp: what the old table held moves to the new one, and nothing else.
use crossbook.Common.{ℕ, zero, suc, ◌+◌, ◌≤◌, ◌<◌, ◌≡◌, refl, sym, ap, ◌∙◌, arith}
use crossbook.Common.{
  Bool, true, false, ◌↔◌, ◌⊎◌, inl, inr, Bool-cases, if◌then◌else◌, ◌==◌, ==_iff,
}
use crossbook.L3.Table.{
  IdTable, Slot, is_fresh, is_of, home, vacant, replant, moved, assign_slots, blank_slot,
}
use crossbook.L3.Table.Probe.{
  IsPower, IsPower-pos, seat_onto, slot_at, Vacancy, vacant-Vacancy, home-eq-seat,
}
use crossbook.L3.Table.Valid.{
  used_below, fresh_slot, IsIndex, IsTable, Held, Absent, is_of-occupied, is_of-id,
}
use crossbook.L3.Table.Write.{planted-Held, planted-IsTable}

-- A table with a spare slot has a vacancy for every id, which the loop finds.
pub vacancy : {t : IdTable} (v : IsTable t) (x : ℕ) → Vacancy t x (vacant t.size t (home t x))
vacancy {t} v x =
    let (j, below, fresh) = fresh_slot t.size t.slots (omega (arith, v.counted, v.spare)) in
    let (d, short, lands) = seat_onto t x j v.power below in
    rw (home-eq-seat t x v.power) (
      vacant-Vacancy t x v.power t.size 0 d (omega arith) (omega arith) short
        (unused (slot_at t x d) (ap (λ k. is_fresh (t.slots k)) lands ∙ fresh))
        (λ e h. absurd (let h' : ⊥ = omega arith in h')))
  where
    unused : (s : Slot) → is_fresh s ≡ true → s.occupied ≡ false
    unused s h = ground arith

used_below_blank : (n : ℕ) → used_below n (λ j. blank_slot) ≡ 0
unfolding used_below
used_below_blank zero = refl
used_below_blank (suc n) = omega (arith, used_below_blank n)

pub assign_slots-IsTable : (n : ℕ) → IsPower n → 16 ≤ n → IsTable (assign_slots n)
assign_slots-IsTable n p l = record {
  power = p;
  large = l;
  index = record { distinct = λ i j x bi bj mi mj. cc mi; named = λ i b o. cc o };
  reached = λ i b o. cc o;
  counted = omega (arith, used_below_blank n);
  spare = IsPower-pos n p;
}

pub assign_slots-Absent : (n x : ℕ) → Absent (assign_slots n) x
assign_slots-Absent n x i h = refl

-- What an old table holds in its first `n` slots.
abbrev pub HeldBelow : ℕ → IdTable → ℕ → ℕ → Type 0
HeldBelow n old y s = (i : ℕ) × (i < n) × (is_of y (old.slots i) ≡ true) × ((old.slots i).ref ≡ s)

-- The new table after `n` slots.
pub record IsMoved (n capacity : ℕ) (old t : IdTable) : Type 0 where
  pub table : IsTable t
  pub size_eq : t.size ≡ capacity
  pub used_le : t.used ≤ n
  pub held : (y s : ℕ) → Held t y s ↔ HeldBelow n old y s

one_more : (b : Bool) (n : ℕ) → (if b then 1 else 0) + n ≤ n + 1
one_more b n = ground arith

module _ {old : IdTable} (index : IsIndex old) (n capacity : ℕ) (below : n < old.size)
    (room : old.size < capacity) where
  -- A slot that holds nothing adds nothing.
  skipped :
      {t : IdTable}
      → IsMoved n capacity old t
      → (old.slots n).occupied ≡ false
      → IsMoved (suc n) capacity old t
  skipped {t} m o = record {
    table = m.table;
    size_eq = m.size_eq;
    used_le = omega (arith, m.used_le);
    held = λ y s. (
      (λ h. let (i, b, match, e) = (m.held y s).0 h in (i, omega arith, match, e)),
      (λ h. let (i, b, match, e) = h in (m.held y s).1 (i, lower y i b match, match, e)),
    );
  }
    where
      lower : (y i : ℕ) → i < suc n → is_of y (old.slots i) ≡ true → i < n
      lower y i b match = elim (Bool-cases (i == n)) [
        | inl same ↦ cc (o, is_of-occupied y (old.slots i) match, (==_iff i n).0 same)
        | inr other ↦ ground arith
      ]

  module _ {t : IdTable} (m : IsMoved n capacity old t) (o : (old.slots n).occupied ≡ true) where
    own : is_of (old.slots n).id (old.slots n) ≡ true
    own = rw o ((==_iff (old.slots n).id (old.slots n).id).1 refl)

    new_id : Absent t (old.slots n).id
    new_id i b = elim (Bool-cases (is_of (old.slots n).id (t.slots i))) [
      | inr e ↦ e
      | inl match ↦
          let (j, early, same, e) =
            (m.held (old.slots n).id (t.slots i).ref).0 (i, b, match, refl) in
          let equal = index.distinct j n (old.slots n).id (omega arith) below same own in
          absurd (omega (arith, equal))
    ]

    room_left : t.used + 1 < t.size
    room_left = omega (arith, m.used_le, m.size_eq)

    replanted : IsMoved (suc n) capacity old (replant t (old.slots n).id (old.slots n).ref)
    unfolding replant
    replanted = record {
      table =
          planted-IsTable m.table (old.slots n).id (old.slots n).ref i (t.used + 1)
            (index.named n below o) new_id free (one_more (is_fresh (t.slots i)) t.used) room_left;
      size_eq = m.size_eq;
      used_le = omega (arith, m.used_le);
      held = λ y s. (forth y s, back y s);
    }
      where
        i : ℕ
        i = vacant t.size t (home t (old.slots n).id)

        free : Vacancy t (old.slots n).id i
        free = vacancy m.table (old.slots n).id

        law :
            (y s : ℕ)
            → Held (replant t (old.slots n).id (old.slots n).ref) y s
              ↔ (((y ≡ (old.slots n).id) × (s ≡ (old.slots n).ref)) ⊎ Held t y s)
        law =
            planted-Held m.table (old.slots n).id (old.slots n).ref i (t.used + 1)
              (index.named n below o) new_id free (one_more (is_fresh (t.slots i)) t.used) room_left

        forth :
            (y s : ℕ)
            → Held (replant t (old.slots n).id (old.slots n).ref) y s
            → HeldBelow (suc n) old y s
        forth y s h = elim ((law y s).0 h) [
          | inl (same, e) ↦ (n, omega arith, rw same own, sym e)
          | inr h' ↦ let (j, b, match, e) = (m.held y s).0 h' in (j, omega arith, match, e)
        ]

        back :
            (y s : ℕ)
            → HeldBelow (suc n) old y s
            → Held (replant t (old.slots n).id (old.slots n).ref) y s
        back y s (j, b, match, e) = elim (Bool-cases (j == n)) [
          | inl same ↦
              let here = ap old.slots ((==_iff j n).0 same) in
              (law y s).1 (
                inl (
                  sym (is_of-id y (old.slots j) match) ∙ ap (λ (z : Slot). z.id) here,
                  sym e ∙ ap (λ (z : Slot). z.ref) here,
                ))
          | inr other ↦ (law y s).1 (inr ((m.held y s).1 (j, ground arith, match, e)))
        ]

pub moved-IsMoved :
    {old : IdTable} (index : IsIndex old) (capacity : ℕ) (p : IsPower capacity)
    (room : old.size < capacity) (l : 16 ≤ capacity) (n : ℕ)
    → n ≤ old.size
    → IsMoved n capacity old (moved n old (assign_slots capacity))
unfolding moved
moved-IsMoved index capacity p room l zero h = record {
  table = assign_slots-IsTable capacity p l;
  size_eq = refl;
  used_le = omega arith;
  held = λ y s. (
    (λ h. let (i, b, match, e) = h in cc match),
    (λ h. let (i, b, match, e) = h in absurd (omega arith)),
  );
}
moved-IsMoved {old} index capacity p room l (suc n) h =
    let m = moved-IsMoved index capacity p room l n (omega arith) in
    elim (Bool-cases (old.slots n).occupied) [
      | inl o ↦ rw o (replanted index n capacity (omega arith) room m o)
      | inr o ↦ rw o (skipped index n capacity (omega arith) room m o)
    ]
