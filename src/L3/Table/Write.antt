-- ===== src/L3/Table/Write.antt =====
-- One slot of the table of l3.hpp is written: an entry is planted in the first vacant slot of its
-- probe, or an entry is buried under a tombstone.
use crossbook.Common.{ℕ, zero, suc, ◌+◌, ◌≤◌, ◌<◌, ◌≡◌, ◌≢◌, refl, sym, ap, subst, ◌∙◌, arith}
use crossbook.Common.{true, false, ◌↔◌, ◌⊎◌, inl, inr, Bool-cases, if◌then◌else◌, ◌==◌, ltb, ==_iff}
use crossbook.L3.Table.{IdTable, Slot, no_order, is_fresh, is_of, write_slot, occupied_slot, bury}
use crossbook.L3.Table.Probe.{seat, seat-lt, slot_at, Vacancy}
use crossbook.L3.Table.Valid.{
  used_below, Reached, IsIndex, IsTable, Held, Absent, is_of-occupied, is_of-id,
}

-- Used slots stay used.
used-write :
    (f : ℕ → Slot) (i : ℕ) (s : Slot) (k : ℕ)
    → is_fresh s ≡ false
    → is_fresh (f k) ≡ false
    → is_fresh (if i == k then s else f k) ≡ false
used-write f i s k h g = elim (Bool-cases (i == k)) [ inl e ↦ rw e h | inr e ↦ rw e g ]

occupied-used : (s : Slot) → s.occupied ≡ true → is_fresh s ≡ false
occupied-used s h = ground arith

used_below-write_slot :
    (n : ℕ) (f : ℕ → Slot) (i : ℕ) (s : Slot)
    → is_fresh s ≡ false
    → (used_below n (λ j. if i == j then s else f j)
        ≤ used_below n f + (if ltb i n then (if is_fresh (f i) then 1 else 0) else 0))
unfolding used_below
used_below-write_slot zero f i s h = omega arith
used_below-write_slot (suc n) f i s h = elim (Bool-cases (i == n)) [
  | inl same ↦ rw same (
      ground
        (arith, used_below-write_slot n f i s h, (==_iff i n).0 same, ap f ((==_iff i n).0 same)))
  | inr other ↦ rw other (ground (arith, used_below-write_slot n f i s h))
]

module _ {t : IdTable} (v : IsTable t) (x r i w : ℕ) (named : r ≢ no_order) (absent : Absent t x)
    (vacancy : Vacancy t x i) (grows : (if is_fresh (t.slots i) then 1 else 0) + t.used ≤ w)
    (spare : w < t.size) where
  abbrev planted : IdTable
  planted = record (write_slot t i (occupied_slot x r)) { used = w }

  i_below : i < t.size
  i_below = let (d, short, e, free, full) = vacancy in rw e (seat-lt t x d v.power)

  not_here : (j y : ℕ) → is_of y (t.slots j) ≡ true → (i == j) ≡ false
  not_here j y m = elim (Bool-cases (i == j)) [
    | inr e ↦ e
    | inl e ↦
        let (d, short, _, free, full) = vacancy in
        cc (free, ap t.slots ((==_iff i j).0 e), is_of-occupied y (t.slots j) m)
  ]

  pub planted-Held : (y s : ℕ) → Held planted y s ↔ (((y ≡ x) × (s ≡ r)) ⊎ Held t y s)
  planted-Held y s = (forth, back)
    where
      forth : Held planted y s → ((y ≡ x) × (s ≡ r)) ⊎ Held t y s
      forth (j, below, match, e) = elim (Bool-cases (i == j)) [
        | inl here ↦
            inl (sym (is_of-id y (occupied_slot x r) (rw here at match)), sym (rw here at e))
        | inr there ↦ inr (j, below, rw there at match, rw there at e)
      ]

      back : ((y ≡ x) × (s ≡ r)) ⊎ Held t y s → Held planted y s
      back (inl (same, e)) = (i, i_below, ground (arith, same), ground (arith, e))
      back (inr (j, below, match, e)) =
          (j, below, rw (not_here j y match) match, rw (not_here j y match) e)

  planted-IsIndex : IsIndex planted
  planted-IsIndex = record { distinct = distinct; named = names }
    where
      distinct :
          (j k y : ℕ)
          → j < t.size
          → k < t.size
          → is_of y (planted.slots j) ≡ true
          → is_of y (planted.slots k) ≡ true
          → j ≡ k
      distinct j k y bj bk mj mk = elim (Bool-cases (i == j)) [
        | inl hj ↦ elim (Bool-cases (i == k)) [
          | inl hk ↦ sym ((==_iff i j).0 hj) ∙ (==_iff i k).0 hk
          | inr hk ↦ cc (absent k bk, is_of-id y (occupied_slot x r) (rw hj at mj), rw hk at mk)
        ]
        | inr hj ↦ elim (Bool-cases (i == k)) [
          | inl hk ↦ cc (absent j bj, is_of-id y (occupied_slot x r) (rw hk at mk), rw hj at mj)
          | inr hk ↦ v.index.distinct j k y bj bk (rw hj at mj) (rw hk at mk)
        ]
      ]

      names :
          (j : ℕ)
          → j < t.size
          → (planted.slots j).occupied ≡ true
          → (planted.slots j).ref ≢ no_order
      names j b o = elim (Bool-cases (i == j)) [
        | inl h ↦ rw h named
        | inr h ↦ rw h (v.index.named j b (rw h at o))
      ]

  planted-Reached : (j : ℕ) → j < t.size → (planted.slots j).occupied ≡ true → Reached planted j
  planted-Reached j b o = elim (Bool-cases (i == j)) [
    | inl h ↦
        let (d, short, e, free, full) = vacancy in
        rw h (
          d,
          short,
          sym e ∙ (==_iff i j).0 h,
          λ k early.
              used-write t.slots i (occupied_slot x r) (seat t.size x k) refl
                (occupied-used (slot_at t x k) (full k early)),
        )
    | inr h ↦
        let (d, short, lands, way) = v.reached j b (rw h at o) in
        rw h (
          d,
          short,
          lands,
          λ k early.
              used-write t.slots i (occupied_slot x r) (seat t.size (t.slots j).id k) refl
                (way k early),
        )
  ]

  pub planted-IsTable : IsTable planted
  planted-IsTable = record {
    power = v.power;
    large = v.large;
    index = planted-IsIndex;
    reached = planted-Reached;
    counted = ground (
      arith,
      used_below-write_slot t.size t.slots i (occupied_slot x r) refl,
      v.counted,
      i_below,
    );
    spare = spare;
  }

module _ {t : IdTable} (v : IsTable t) (x i : ℕ) (i_below : i < t.size)
    (here : is_of x (t.slots i) ≡ true) where
  abbrev tomb : Slot
  tomb = record (t.slots i) { occupied = false; tombstone = true }

  -- What is still held stood in another slot.
  kept : (j : ℕ) → (if i == j then tomb else t.slots j).occupied ≡ true → (i == j) ≡ false
  kept j o = elim (Bool-cases (i == j)) [ inr e ↦ e | inl e ↦ cc (rw e at o) ]

  kept_of : (j y : ℕ) → is_of y (if i == j then tomb else t.slots j) ≡ true → (i == j) ≡ false
  kept_of j y m = kept j (is_of-occupied y (if i == j then tomb else t.slots j) m)

  pub bury-Held : (y s : ℕ) → Held (bury t i) y s ↔ (Held t y s × (y ≢ x))
  bury-Held y s = (forth, back)
    where
      forth : Held (bury t i) y s → Held t y s × (y ≢ x)
      forth (j, below, match, e) =
          let there = kept_of j y match in
          (
            (j, below, rw there at match, rw there at e),
            λ same. cc (
              there,
              (==_iff i j).1 (
                  v.index.distinct i j x i_below below here
                    (subst (λ z. is_of z (t.slots j) ≡ true) same (rw there at match))),
            ),
          )

      back : Held t y s × (y ≢ x) → Held (bury t i) y s
      back ((j, below, match, e), ne) = elim (Bool-cases (i == j)) [
        | inr there ↦ (j, below, rw there match, rw there e)
        | inl same ↦ absurd (
            ne (
              sym (is_of-id y (t.slots j) match)
              ∙ ap (λ k. (t.slots k).id) (sym ((==_iff i j).0 same))
              ∙ is_of-id x (t.slots i) here))
      ]

  pub bury-IsTable : IsTable (bury t i)
  bury-IsTable = record {
    power = v.power;
    large = v.large;
    index = record {
      distinct = λ j k y bj bk mj mk.
          v.index.distinct j k y bj bk (rw (kept_of j y mj) at mj) (rw (kept_of k y mk) at mk);
      named = λ j b o. rw (kept j o) (v.index.named j b (rw (kept j o) at o));
    };
    reached = λ j b o.
        let (d, short, lands, way) = v.reached j b (rw (kept j o) at o) in
        rw (kept j o) (
          d,
          short,
          lands,
          λ k early. used-write t.slots i tomb (seat t.size (t.slots j).id k) refl (way k early),
        );
    counted = ground (
      arith,
      used_below-write_slot t.size t.slots i tomb refl,
      v.counted,
      occupied-used (t.slots i) (is_of-occupied x (t.slots i) here),
    );
    spare = v.spare;
  }
