-- ===== src/L3/Table/Probe.antt =====
-- The order in which l3.hpp probes the slots for an id, and where a probe stops.
use crossbook.Common.{
  ℕ, zero, suc, ◌+◌, ◌-◌, ◌%◌, ◌^◌, ◌≤◌, ◌<◌, ◌≡◌, refl, sym, ap, subst, ◌∙◌, arith,
}
use crossbook.Common.{true, false, ◌⊎◌, inl, inr, Bool-cases, leb, ◌==◌, ==_iff}
use crossbook.Common.Bits.{mask_lem}
use crossbook.L3.Table.{
  IdTable, Slot, no_order, mix_id, is_fresh, is_of, home, next_slot, find_from, erase_from, vacant,
  bury,
}
use native.Mathlib.Nat.{mod-lt, mod-add-mod, one-le-pow, mod-eq_of_lt, add-mod_right}

abbrev pub IsPower : ℕ → Type 0
IsPower n = (k : ℕ) × (n ≡ 2 ^ k)

-- The slot that is probed after `d` others.
pub seat : ℕ → ℕ → ℕ → ℕ
seat size x d = (mix_id x + d) % size

abbrev pub slot_at : IdTable → ℕ → ℕ → Slot
slot_at t x d = t.slots (seat t.size x d)

pub IsPower-pos : (n : ℕ) → IsPower n → 0 < n
IsPower-pos n (k, e) = rw e (one-le-pow k 2 (omega arith))

pub home-eq-seat : (t : IdTable) (x : ℕ) → IsPower t.size → home t x ≡ seat t.size x 0
unfolding home seat
home-eq-seat t x (k, e) = rw e (mask_lem k (mix_id x) ∙ ap (λ m. m % 2 ^ k) (omega arith))

pub next_slot-seat :
    (t : IdTable) (x d : ℕ) → IsPower t.size → next_slot t (seat t.size x d) ≡ seat t.size x (suc d)
unfolding next_slot seat
next_slot-seat t x d (k, e) = rw e (
    mask_lem k ((mix_id x + d) % 2 ^ k + 1)
    ∙ mod-add-mod (mix_id x + d) (2 ^ k) 1
    ∙ ap (λ m. m % 2 ^ k) (omega arith))

pub seat-lt : (t : IdTable) (x d : ℕ) → IsPower t.size → seat t.size x d < t.size
unfolding seat
seat-lt t x d p = mod-lt (mix_id x + d) (IsPower-pos t.size p)

turn : (m s j : ℕ) → j < s → m < s → (d : ℕ) × (d < s) × ((m + d ≡ j) ⊎ (m + d ≡ j + s))
turn m s j h k = elim (Bool-cases (leb m j)) [
  | inl le ↦ (j - m, ground arith, inl (ground arith))
  | inr gt ↦ (j + s - m, ground arith, inr (ground arith))
]

-- Every slot is probed.
pub seat_onto :
    (t : IdTable) (x j : ℕ)
    → IsPower t.size
    → j < t.size
    → (d : ℕ) × (d < t.size) × (seat t.size x d ≡ j)
unfolding seat
seat_onto t x j p h =
    let below = mod-lt (mix_id x) (IsPower-pos t.size p) in
    let (d, short, lands) = turn (mix_id x % t.size) t.size j h below in
    (d, short, sym (mod-add-mod (mix_id x) t.size d) ∙ landed d lands)
  where
    landed :
        (d : ℕ)
        → (mix_id x % t.size + d ≡ j) ⊎ (mix_id x % t.size + d ≡ j + t.size)
        → (mix_id x % t.size + d) % t.size ≡ j
    landed d (inl e) = ap (λ m. m % t.size) e ∙ mod-eq_of_lt h
    landed d (inr e) = ap (λ m. m % t.size) e ∙ add-mod_right j t.size ∙ mod-eq_of_lt h

-- The first `d` probes go on.
abbrev pub Passes : IdTable → ℕ → ℕ → Type 0
Passes t x d =
    (e : ℕ) → e < d → (is_fresh (slot_at t x e) ≡ false) × (is_of x (slot_at t x e) ≡ false)

-- What `find_ref` and `erase_ref` answer, by where the probe stops.
pub data Outcome (t : IdTable) (x r : ℕ) (u : IdTable) : Type 0 where
  hit :
      (d : ℕ)
      → d < t.size
      → is_of x (slot_at t x d) ≡ true
      → r ≡ (slot_at t x d).ref
      → u ≡ bury t (seat t.size x d)
      → Outcome t x r u
  miss :
      (d : ℕ)
      → d < t.size
      → Passes t x d
      → is_fresh (slot_at t x d) ≡ true
      → r ≡ no_order
      → u ≡ t
      → Outcome t x r u
  over : Passes t x t.size → r ≡ no_order → u ≡ t → Outcome t x r u

-- A statement about all numbers below `d`, and `d`.
pub below_suc : (P : ℕ → Type 0) (d : ℕ) → ((e : ℕ) → e < d → P e) → P d → (e : ℕ) → e < suc d → P e
below_suc P d h p e k = elim (Bool-cases (e == d)) [
  | inl same ↦ subst P (sym ((==_iff e d).0 same)) p
  | inr other ↦ h e (ground arith)
]

pub probe-Outcome :
    (t : IdTable) (x : ℕ) (p : IsPower t.size) (n d : ℕ)
    → n + d ≡ t.size
    → Passes t x d
    → Outcome t x (find_from n t x (seat t.size x d)) (erase_from n t x (seat t.size x d))
unfolding find_from erase_from
probe-Outcome t x p zero d h g =
    over (subst (Passes t x) (let e : d ≡ t.size = omega arith in e) g) refl refl
probe-Outcome t x p (suc n) d h g = elim (Bool-cases (is_fresh (slot_at t x d))) [
  | inl fresh ↦ rw fresh (miss d (omega arith) g fresh refl refl)
  | inr used_below ↦ rw used_below (elim (Bool-cases (is_of x (slot_at t x d))) [
    | inl same ↦ rw same (hit d (omega arith) same refl refl)
    | inr other ↦
        rw (other, next_slot-seat t x d p)
          (probe-Outcome t x p n (suc d) (omega arith) (below_suc _ d g (used_below, other)))
  ])
]

-- Where the search for a vacant slot stops.
abbrev pub Vacancy : IdTable → ℕ → ℕ → Type 0
Vacancy t x i =
    (d : ℕ) × (d < t.size)
    × (i ≡ seat t.size x d)
    × ((t.slots i).occupied ≡ false)
    × ((e : ℕ) → e < d → (slot_at t x e).occupied ≡ true)

-- The search ends before a slot that is known to be vacant.
pub vacant-Vacancy :
    (t : IdTable) (x : ℕ) (p : IsPower t.size) (n d v : ℕ)
    → d ≤ v
    → v < n + d
    → v < t.size
    → (slot_at t x v).occupied ≡ false
    → ((e : ℕ) → e < d → (slot_at t x e).occupied ≡ true)
    → Vacancy t x (vacant n t (seat t.size x d))
unfolding vacant
vacant-Vacancy t x p zero d v h k b f g = absurd (omega arith)
vacant-Vacancy t x p (suc n) d v h k b f g = elim (Bool-cases (slot_at t x d).occupied) [
  | inr free ↦ rw free (d, omega arith, refl, free, g)
  | inl full ↦
      rw (full, next_slot-seat t x d p)
        (vacant-Vacancy t x p n (suc d) v (later (Bool-cases (d == v)) full) (omega arith) b f
          (below_suc _ d g full))
]
  where
    later : ((d == v) ≡ true) ⊎ ((d == v) ≡ false) → (slot_at t x d).occupied ≡ true → suc d ≤ v
    later (inl same) full =
        cc (sym full, ap (λ e. (slot_at t x e).occupied) ((==_iff d v).0 same), f)
    later (inr other) full = ground arith
