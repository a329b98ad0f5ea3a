-- ===== src/Sequence/Coverage.antt =====
-- No sequence id is lost between the snapshot and the last applied update (Binance spot).
use crossbook.Common.{ℕ, suc, ◌^◌, ◌≤◌, ◌<◌, ◌≡◌, ◌⊎◌, inl, inr, refl, subst, arith}
use crossbook.Common.{false, List, [], ◌∷◌, All, Bool-cases, leb, leb→le}
use crossbook.Sequence.{binance_spot}
use crossbook.Sequence.{UpdateIds}
use crossbook.Sequence.{SequenceTracker, on_snapshot, on_update}
use crossbook.Sequence.Stream.{run, applied, Chain, Stream, applied-Stream}
use crossbook.Sequence.Stream.{keep-apply, keep-ne_apply, on_update-Stepped}

-- Some update of the list carries the id `k` in its range.
abbrev pub Covers : ℕ → List UpdateIds → Type 0
Covers k [] = ⊥
Covers k (u ∷ us) = ((u.first_id ≤ k) × (k ≤ u.final_id)) ⊎ Covers k us

abbrev pub last_of : ℕ → List UpdateIds → ℕ
last_of d [] = d
last_of d (u ∷ us) = last_of u.final_id us

-- Ids that have not reached the end of uint64_t.
abbrev pub IsInRange : UpdateIds → Type 0
IsInRange u = suc u.final_id < 2 ^ 64

Chain-Covers :
    (last : ℕ) (us : List UpdateIds) (k : ℕ)
    → suc last < 2 ^ 64
    → All IsInRange us
    → Chain binance_spot last us
    → last < k
    → k ≤ last_of last us
    → Covers k us
Chain-Covers last [] k r a c lo hi = omega arith
Chain-Covers last (u ∷ us) k r (b, bs) (c, cs) lo hi = elim (Bool-cases (leb k u.final_id)) [
  | inl e ↦ inl (omega arith, leb→le k u.final_id e)
  | inr e ↦ inr (Chain-Covers u.final_id us k b bs cs (ground arith) hi)
]

applied-Covers :
    (t : SequenceTracker) (us : List UpdateIds) (k : ℕ)
    → t.policy ≡ binance_spot
    → t.straddled ≡ false
    → suc t.snapshot_id < 2 ^ 64
    → All IsInRange (applied t us)
    → t.snapshot_id < k
    → k ≤ last_of 0 (applied t us)
    → Covers k (applied t us)
applied-Covers t us k p e r a lo hi =
    from (applied t us)
      (subst (λ q. Stream q t.snapshot_id (applied t us)) p (applied-Stream t us e)) a hi
  where
    from :
        (vs : List UpdateIds)
        → Stream binance_spot t.snapshot_id vs
        → All IsInRange vs
        → k ≤ last_of 0 vs
        → Covers k vs
    from [] s b h = omega arith
    from (v ∷ vs) ((first, final), cs) (b, bs) h = elim (Bool-cases (leb k v.final_id)) [
      | inl i ↦ inl (omega arith, leb→le k v.final_id i)
      | inr i ↦ inr (Chain-Covers v.final_id vs k b bs cs (ground arith) h)
    ]

last_final_id-run :
    (t : SequenceTracker) (us : List UpdateIds)
    → (run t us).last_final_id ≡ last_of t.last_final_id (applied t us)
unfolding run applied
last_final_id-run t [] = refl
last_final_id-run t (u ∷ us) = elim (on_update-Stepped t.policy t u refl) [
  | inl (a, p, b, l) ↦
      rw (keep-apply _ u (applied (on_update t u).0 us) a)
        (rw l at (last_final_id-run (on_update t u).0 us))
  | inr (a, p, s, b, l) ↦
      rw (keep-ne_apply _ u (applied (on_update t u).0 us) a)
        (rw l at (last_final_id-run (on_update t u).0 us))
]

-- On Binance spot no id is skipped: whatever arrives behind a snapshot, every id above the
-- snapshot's, up to the last id that the tracker reports as applied, lies in the range of an applied
-- update, as long as no id reaches the end of uint64_t.
pub applied-on_snapshot-Covers :
    (t : SequenceTracker) (s : ℕ) (us : List UpdateIds) (k : ℕ)
    → t.policy ≡ binance_spot
    → suc s < 2 ^ 64
    → All IsInRange (applied (on_snapshot t s) us)
    → s < k
    → k ≤ (run (on_snapshot t s) us).last_final_id
    → Covers k (applied (on_snapshot t s) us)
unfolding on_snapshot
applied-on_snapshot-Covers t s us k p r a lo hi =
    applied-Covers (on_snapshot t s) us k p refl r a lo
      (rw (last_final_id-run (on_snapshot t s) us) at hi)
