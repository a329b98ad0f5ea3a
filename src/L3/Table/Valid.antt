-- ===== src/L3/Table/Valid.antt =====
-- The invariant of the hash table of l3.hpp, what it holds, and lookups in a table that keeps it.
use crossbook.Common.{ℕ, zero, suc, ◌+◌, ◌≤◌, ◌<◌, ◌≡◌, ◌≢◌, sym, ap, subst, ◌∙◌, arith}
use crossbook.Common.{true, false, inl, inr, Bool-cases, if◌then◌else◌, ◌==◌, ltb, ltb→lt}
use crossbook.L3.Table.{IdTable, Slot, no_order, is_fresh, is_of, find_ref, erase_ref, bury}
use crossbook.L3.Table.Probe.{
  IsPower, IsPower-pos, seat, slot_at, seat_onto, Outcome, hit, miss, over, probe-Outcome,
  home-eq-seat, seat-lt,
}

-- How many of the first `n` slots have ever been used.
unfoldable pub used_below : ℕ → (ℕ → Slot) → ℕ
used_below zero f = 0
used_below (suc n) f = used_below n f + (if is_fresh (f n) then 0 else 1)

-- The probe for the id in slot `i` reaches it: no slot on the way is unused.
abbrev pub Reached : IdTable → ℕ → Type 0
Reached t i =
    (d : ℕ) × (d < t.size)
    × (seat t.size (t.slots i).id d ≡ i)
    × ((e : ℕ) → e < d → is_fresh (slot_at t (t.slots i).id e) ≡ false)

-- An id stands in one slot at most, and its reference is not the sentinel.
pub record IsIndex (t : IdTable) : Type 0 where
  pub distinct :
      (i j x : ℕ)
      → i < t.size
      → j < t.size
      → is_of x (t.slots i) ≡ true
      → is_of x (t.slots j) ≡ true
      → i ≡ j
  pub named : (i : ℕ) → i < t.size → (t.slots i).occupied ≡ true → (t.slots i).ref ≢ no_order

pub record IsTable (t : IdTable) : Type 0 where
  pub power : IsPower t.size
  pub large : 16 ≤ t.size
  pub index : IsIndex t
  pub reached : (i : ℕ) → i < t.size → (t.slots i).occupied ≡ true → Reached t i
  pub counted : used_below t.size t.slots ≤ t.used
  pub spare : t.used < t.size

abbrev pub Held : IdTable → ℕ → ℕ → Type 0
Held t x r = (i : ℕ) × (i < t.size) × (is_of x (t.slots i) ≡ true) × ((t.slots i).ref ≡ r)

abbrev pub Absent : IdTable → ℕ → Type 0
Absent t x = (i : ℕ) → i < t.size → is_of x (t.slots i) ≡ false

pub is_of-occupied : (x : ℕ) (s : Slot) → is_of x s ≡ true → s.occupied ≡ true
is_of-occupied x s h = ground arith

pub is_of-id : (x : ℕ) (s : Slot) → is_of x s ≡ true → s.id ≡ x
is_of-id x s h = ground arith

pub fresh_slot :
    (n : ℕ) (f : ℕ → Slot) → used_below n f < n → (j : ℕ) × (j < n) × (is_fresh (f j) ≡ true)
unfolding used_below
fresh_slot zero f h = absurd (omega arith)
fresh_slot (suc n) f h = elim (Bool-cases (is_fresh (f n))) [
  | inl fresh ↦ (n, omega arith, fresh)
  | inr used ↦
      let (j, below, fresh) = fresh_slot n f (omega (arith, rw used at h)) in
      (j, omega arith, fresh)
]

-- A probe that stops, stops where the id is, or the id is nowhere.
pub data Verdict (t : IdTable) (x r : ℕ) (u : IdTable) : Type 0 where
  present :
      (i : ℕ)
      → i < t.size
      → is_of x (t.slots i) ≡ true
      → r ≡ (t.slots i).ref
      → u ≡ bury t i
      → Verdict t x r u
  missing : Absent t x → r ≡ no_order → u ≡ t → Verdict t x r u

-- The slot of an id is reached before any unused slot.
blocked :
    {t : IdTable} (v : IsTable t) (x d : ℕ)
    → is_fresh (slot_at t x d) ≡ true
    → ((e : ℕ) → e < d → is_of x (slot_at t x e) ≡ false)
    → Absent t x
blocked {t} v x d fresh before i below = elim (Bool-cases (is_of x (t.slots i))) [
  | inr no_match ↦ no_match
  | inl match ↦
      let same = is_of-id x (t.slots i) match in
      let (e, short, lands, open_way) = v.reached i below (is_of-occupied x (t.slots i) match) in
      let lands' : seat t.size x e ≡ i = subst (λ y. seat t.size y e ≡ i) same lands in
      absurd (
        meets e lands'
          (subst (λ y. (j : ℕ) → j < e → is_fresh (slot_at t y j) ≡ false) same open_way) match)
]
  where
    meets :
        (e : ℕ)
        → seat t.size x e ≡ i
        → ((j : ℕ) → j < e → is_fresh (slot_at t x j) ≡ false)
        → is_of x (t.slots i) ≡ true
        → ⊥
    meets e lands open_way match = elim (Bool-cases (ltb e d)) [
      | inl early ↦ cc (before e (ltb→lt e d early), match)
      | inr late ↦ elim (Bool-cases (ltb d e)) [
        | inl past ↦ cc (open_way d (ltb→lt d e past), fresh)
        | inr here ↦
            let same : d ≡ e = ground arith in
            let there : is_fresh (t.slots i) ≡ true =
              sym (ap (λ j. is_fresh (t.slots j)) (ap (seat t.size x) same ∙ lands)) ∙ fresh in
            ground (arith, there, match)
      ]
    ]

all_probed :
    {t : IdTable} (v : IsTable t) (x : ℕ)
    → ((e : ℕ) → e < t.size → is_of x (slot_at t x e) ≡ false)
    → Absent t x
all_probed {t} v x before i below =
    let (d, short, lands) = seat_onto t x i v.power below in
    sym (ap (λ j. is_of x (t.slots j)) lands) ∙ before d short

pub table-Verdict :
    {t : IdTable} (v : IsTable t) (x : ℕ) → Verdict t x (find_ref t x) (erase_ref t x)
unfolding find_ref erase_ref
table-Verdict {t} v x =
    let nonempty : (t.size == 0) ≡ false = ground (arith, IsPower-pos t.size v.power) in
    rw (nonempty, home-eq-seat t x v.power)
      (told (
        probe-Outcome t x v.power t.size 0 (omega arith)
          (λ e h. absurd (let h' : ⊥ = omega arith in h'))))
  where
    told : {r : ℕ} {u : IdTable} → Outcome t x r u → Verdict t x r u
    told (hit d short match er eu) = present (seat t.size x d) (seat-lt t x d v.power) match er eu
    told (miss d short before fresh er eu) =
        missing (blocked v x d fresh (λ e h. (before e h).1)) er eu
    told (over before er eu) = missing (all_probed v x (λ e h. (before e h).1)) er eu

-- What the table holds is found.
pub find_ref-Held : {t : IdTable} (v : IsTable t) (x r : ℕ) → Held t x r → find_ref t x ≡ r
find_ref-Held {t} v x r (i, below, match, e) = elim (table-Verdict v x) [
  | present j below' match' er _ ↦
      er ∙ ap (λ k. (t.slots k).ref) (v.index.distinct j i x below' below match' match) ∙ e
  | missing absent er _ ↦ cc (absent i below, match)
]

pub find_ref-Absent : {t : IdTable} (v : IsTable t) (x : ℕ) → Absent t x → find_ref t x ≡ no_order
find_ref-Absent {t} v x absent = elim (table-Verdict v x) [
  | present i below match _ _ ↦ cc (absent i below, match)
  | missing _ er _ ↦ er
]

-- An id is found or absent.
pub Absent-find_ref : {t : IdTable} (v : IsTable t) (x : ℕ) → find_ref t x ≡ no_order → Absent t x
Absent-find_ref {t} v x e = elim (table-Verdict v x) [
  | missing absent _ _ ↦ absent
  | present i below match er _ ↦
      absurd (v.index.named i below (is_of-occupied x (t.slots i) match) (sym er ∙ e))
]

pub Held-find_ref :
    {t : IdTable} (v : IsTable t) (x : ℕ) → find_ref t x ≢ no_order → Held t x (find_ref t x)
Held-find_ref {t} v x ne = elim (table-Verdict v x) [
  | missing _ er _ ↦ absurd (ne er)
  | present i below match er _ ↦ (i, below, match, sym er)
]
