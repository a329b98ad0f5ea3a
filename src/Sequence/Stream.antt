-- ===== src/Sequence/Stream.antt =====
-- Whole streams of updates behind one snapshot, as a feed hands them to `on_update` one by one.
use crossbook.Common.{ℕ, ◌+◌, ◌^◌, ◌<◌, ◌≡◌, ◌≢◌, ◌⊎◌, inl, inr, refl, sym, subst, arith}
use crossbook.Common.{true, false, List, [], ◌∷◌, ap, ◌∙◌}
use crossbook.Sequence.{SequencePolicy, binance_spot, binance_futures, strict_increment}
use crossbook.Sequence.{UpdateIds, SequenceAction, apply, discard_stale, resync_required}
use crossbook.Sequence.{SequenceTracker, SequenceStats, on_snapshot, on_update}
use crossbook.Sequence.Continuity.{Continues, Straddles, Next, on_update-apply_iff}

unfoldable pub run : SequenceTracker → List UpdateIds → SequenceTracker
run t [] = t
run t (u ∷ us) = run (on_update t u).0 us

abbrev pub keep : SequenceAction → UpdateIds → List UpdateIds → List UpdateIds
keep apply u us = u ∷ us
keep discard_stale u us = us
keep resync_required u us = us

-- The updates that `on_update` lets through.
unfoldable pub applied : SequenceTracker → List UpdateIds → List UpdateIds
applied t [] = []
applied t (u ∷ us) = keep (on_update t u).1 u (applied (on_update t u).0 us)

-- Each update continues the one before it.
abbrev pub Chain : SequencePolicy → ℕ → List UpdateIds → Type 0
Chain p last [] = Unit {0}
Chain p last (u ∷ us) = Continues p last u × Chain p u.final_id us

-- The first update straddles the snapshot, and the others continue it.
abbrev pub Stream : SequencePolicy → ℕ → List UpdateIds → Type 0
Stream p snapshot [] = Unit {0}
Stream p snapshot (u ∷ us) = Straddles p snapshot u × Chain p u.final_id us

-- One step, seen from the fields that continuity turns on.
abbrev pub Stepped : SequenceTracker → UpdateIds → SequenceTracker × SequenceAction → Type 0
Stepped t u (t', a) =
    ((a ≡ apply) × (t'.policy ≡ t.policy) × (t'.straddled ≡ true) × (t'.last_final_id ≡ u.final_id))
    ⊎ ((a ≢ apply)
        × (t'.policy ≡ t.policy)
        × (t'.snapshot_id ≡ t.snapshot_id)
        × (t'.straddled ≡ t.straddled)
        × (t'.last_final_id ≡ t.last_final_id))

pub on_update-Stepped :
    (p : SequencePolicy) (t : SequenceTracker) (u : UpdateIds)
    → t.policy ≡ p
    → Stepped t u (on_update t u)
unfolding on_update
on_update-Stepped binance_spot t u e = ground arith
on_update-Stepped binance_futures t u e = ground arith
on_update-Stepped strict_increment t u e = ground arith

pub keep-apply :
    (a : SequenceAction) (u : UpdateIds) (us : List UpdateIds) → a ≡ apply → keep a u us ≡ u ∷ us
keep-apply a u us e = ground arith

pub keep-ne_apply :
    (a : SequenceAction) (u : UpdateIds) (us : List UpdateIds) → a ≢ apply → keep a u us ≡ us
keep-ne_apply a u us e = ground arith

-- Behind an applied update every later applied update continues the one before it.
applied-Chain :
    (t : SequenceTracker) (us : List UpdateIds)
    → t.straddled ≡ true
    → Chain t.policy t.last_final_id (applied t us)
unfolding applied
applied-Chain t [] e = tt
applied-Chain t (u ∷ us) e = elim (on_update-Stepped t.policy t u refl) [
  | inl (a, p, b, l) ↦ rw (keep-apply _ u (applied (on_update t u).0 us) a) (
    subst (λ s. Next t.policy s t u) e ((on_update-apply_iff t u).0 a).1,
    rw (p, l) at (applied-Chain (on_update t u).0 us b),
  )
  | inr (a, p, s, b, l) ↦
      rw (keep-ne_apply _ u (applied (on_update t u).0 us) a)
        (rw (p, l) at (applied-Chain (on_update t u).0 us (b ∙ e)))
]

pub applied-Stream :
    (t : SequenceTracker) (us : List UpdateIds)
    → t.straddled ≡ false
    → Stream t.policy t.snapshot_id (applied t us)
unfolding applied
applied-Stream t [] e = tt
applied-Stream t (u ∷ us) e = elim (on_update-Stepped t.policy t u refl) [
  | inl (a, p, b, l) ↦ rw (keep-apply _ u (applied (on_update t u).0 us) a) (
    subst (λ s. Next t.policy s t u) e ((on_update-apply_iff t u).0 a).1,
    rw (p, l) at (applied-Chain (on_update t u).0 us b),
  )
  | inr (a, p, s, b, l) ↦
      rw (keep-ne_apply _ u (applied (on_update t u).0 us) a)
        (rw (p, s) at (applied-Stream (on_update t u).0 us (b ∙ e)))
]

-- An applied update leaves a tracker that still holds its snapshot.
on_update-have_snapshot :
    (p : SequencePolicy) (t : SequenceTracker) (u : UpdateIds)
    → t.policy ≡ p
    → (on_update t u).1 ≡ apply
    → (on_update t u).0.have_snapshot ≡ true
unfolding on_update
on_update-have_snapshot binance_spot t u e h = ground arith
on_update-have_snapshot binance_futures t u e h = ground arith
on_update-have_snapshot strict_increment t u e h = ground arith

-- The converse: a stream that leaves nothing out is applied whole.
Chain-applied :
    (t : SequenceTracker) (us : List UpdateIds)
    → t.have_snapshot ≡ true
    → t.straddled ≡ true
    → Chain t.policy t.last_final_id us
    → applied t us ≡ us
unfolding applied
Chain-applied t [] h e c = refl
Chain-applied t (u ∷ us) h e (c, cs) =
    let a = (on_update-apply_iff t u).1 (h, subst (λ s. Next t.policy s t u) (sym e) c) in
    elim (on_update-Stepped t.policy t u refl) [
      | inl (_, p, b, l) ↦
          keep-apply _ u _ a
          ∙ ap (◌∷◌ u) (
              Chain-applied (on_update t u).0 us (on_update-have_snapshot t.policy t u refl a) b
                (rw (p, l) cs))
      | inr (n, _, _, _, _) ↦ absurd (n a)
    ]

Stream-applied :
    (t : SequenceTracker) (us : List UpdateIds)
    → t.have_snapshot ≡ true
    → t.straddled ≡ false
    → Stream t.policy t.snapshot_id us
    → applied t us ≡ us
unfolding applied
Stream-applied t [] h e c = refl
Stream-applied t (u ∷ us) h e (c, cs) =
    let a = (on_update-apply_iff t u).1 (h, subst (λ s. Next t.policy s t u) (sym e) c) in
    elim (on_update-Stepped t.policy t u refl) [
      | inl (_, p, b, l) ↦
          keep-apply _ u _ a
          ∙ ap (◌∷◌ u) (
              Chain-applied (on_update t u).0 us (on_update-have_snapshot t.policy t u refl a) b
                (rw (p, l) cs))
      | inr (n, _, _, _, _) ↦ absurd (n a)
    ]

-- Whatever arrives behind a snapshot, the updates that are applied form one stream from it: the
-- first straddles the snapshot and each later one continues the one before, as the venue's policy
-- demands.
pub applied-on_snapshot-Stream :
    (t : SequenceTracker) (s : ℕ) (us : List UpdateIds)
    → Stream t.policy s (applied (on_snapshot t s) us)
unfolding on_snapshot
applied-on_snapshot-Stream t s us = applied-Stream (on_snapshot t s) us refl

-- Under any of the three policies, a list of updates whose first straddles the snapshot and whose
-- others each continue the one before is applied whole.
pub applied-on_snapshot_all :
    (t : SequenceTracker) (s : ℕ) (us : List UpdateIds)
    → Stream t.policy s us
    → applied (on_snapshot t s) us ≡ us
unfolding on_snapshot
applied-on_snapshot_all t s us c = Stream-applied (on_snapshot t s) us refl refl c

-- A tracker without a snapshot stays as it is, and lets nothing through.
unsynced :
    (t : SequenceTracker) (us : List UpdateIds)
    → t.have_snapshot ≡ false
    → (run t us ≡ t) × (applied t us ≡ [])
unfolding run applied on_update
unsynced t [] h = (refl, refl)
unsynced t (u ∷ us) h = simp h (unsynced t us h)

gap-have_snapshot :
    (p : SequencePolicy) (t : SequenceTracker) (u : UpdateIds)
    → t.policy ≡ p
    → (on_update t u).1 ≡ resync_required
    → (on_update t u).0.have_snapshot ≡ false
unfolding on_update
gap-have_snapshot binance_spot t u e h = ground arith
gap-have_snapshot binance_futures t u e h = ground arith
gap-have_snapshot strict_increment t u e h = ground arith

-- Once `on_update` has demanded a resync, nothing that arrives before the next snapshot is applied
-- or changes the tracker.
pub applied-resync_required :
    (t : SequenceTracker) (u : UpdateIds) (us : List UpdateIds)
    → (on_update t u).1 ≡ resync_required
    → (run t (u ∷ us) ≡ (on_update t u).0) × (applied t (u ∷ us) ≡ [])
unfolding run applied
applied-resync_required t u us h =
    let (r, n) = unsynced (on_update t u).0 us (gap-have_snapshot t.policy t u refl h) in
    (r, rw (h, n))

-- Updates that have been given an answer while a snapshot was held.
abbrev pub answered : SequenceTracker → ℕ
answered t = t.stats.applied + t.stats.discarded_stale + t.stats.gaps_detected

-- What the counters of `stats` are after an answer: one of them is higher by one.
abbrev pub counted : SequenceAction → SequenceStats → SequenceStats
counted apply s = record s { applied = s.applied + 1 }
counted discard_stale s = record s { discarded_stale = s.discarded_stale + 1 }
counted resync_required s = record s { gaps_detected = s.gaps_detected + 1 }

counted_step :
    (p : SequencePolicy) (t : SequenceTracker) (u : UpdateIds)
    → t.policy ≡ p
    → t.have_snapshot ≡ true
    → answered t + 1 < 2 ^ 64
    → (on_update t u).0.stats ≡ counted (on_update t u).1 t.stats
unfolding on_update
counted_step binance_spot t u e h b = ground arith
counted_step binance_futures t u e h b = ground arith
counted_step strict_increment t u e h b = ground arith

-- Every update that meets a held snapshot is counted exactly once, under the answer that it is
-- given: one that is to be applied as applied, one that is to be discarded as stale, one that
-- demands a resync as a gap; the other counters stay as they are. The sum of the three counters is
-- assumed not to have reached the end of uint64_t.
pub on_update-stats :
    (t : SequenceTracker) (u : UpdateIds)
    → t.have_snapshot ≡ true
    → answered t + 1 < 2 ^ 64
    → (on_update t u).0.stats ≡ counted (on_update t u).1 t.stats
on_update-stats t u h b = counted_step t.policy t u refl h b
