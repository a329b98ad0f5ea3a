-- ===== src/Sequence/Tests.antt =====
-- Concrete runs of the tracker, and its theorems at concrete inputs.
use crossbook.Common.{ℕ, ◌≡◌, refl, arith, List, [], ◌∷◌}
use crossbook.Sequence.{binance_spot, binance_futures, strict_increment}
use crossbook.Sequence.{UpdateIds, apply, resync_required}
use crossbook.Sequence.{tracker, on_snapshot, on_update}
use crossbook.Sequence.Coverage.{Covers, applied-on_snapshot-Covers}
use crossbook.Sequence.Stream.{run, applied, Stream}
use crossbook.Sequence.Stream.{applied-on_snapshot-Stream, applied-on_snapshot_all}
use crossbook.Sequence.Stream.{applied-resync_required, on_update-stats, counted}
use crossbook.Sequence.Continuity.{on_update-apply_iff}

abbrev ids : ℕ → ℕ → ℕ → UpdateIds
ids first final prev = record { first_id = first; final_id = final; prev_id = prev }

-- A stale update, the straddling one, its successor, a duplicate, a gap, and what follows it.
abbrev arrivals : List UpdateIds
arrivals =
    ids 90 95 89
    ∷ ids 99 104 98
    ∷ ids 105 106 104
    ∷ ids 105 106 104
    ∷ ids 110 112 109
    ∷ ids 113 114 112
    ∷ []

abbrev continuous : List UpdateIds
continuous = ids 99 104 98 ∷ ids 105 106 104 ∷ []

spot_applied : applied (on_snapshot (tracker binance_spot) 100) arrivals ≡ continuous
unfolding applied on_snapshot tracker on_update
spot_applied = refl

-- The same event after the same snapshot: spot takes it, futures demands a resync.
spot_first : (on_update (on_snapshot (tracker binance_spot) 100) (ids 101 103 100)).1 ≡ apply
unfolding on_snapshot tracker on_update
spot_first = refl

futures_first :
    (on_update (on_snapshot (tracker binance_futures) 100) (ids 101 103 100)).1 ≡ resync_required
unfolding on_snapshot tracker on_update
futures_first = refl

on_update-apply_iff_example :
    (on_update (on_snapshot (tracker strict_increment) 7) (ids 8 8 0)).1 ≡ apply
unfolding on_snapshot tracker
on_update-apply_iff_example =
    (on_update-apply_iff (on_snapshot (tracker strict_increment) 7) (ids 8 8 0)).1
      (refl, (omega arith, refl))

applied-on_snapshot-Stream_example :
    Stream binance_spot 100 (applied (on_snapshot (tracker binance_spot) 100) arrivals)
unfolding tracker
applied-on_snapshot-Stream_example = applied-on_snapshot-Stream (tracker binance_spot) 100 arrivals

applied-on_snapshot_all_example :
    applied (on_snapshot (tracker binance_spot) 100) continuous ≡ continuous
unfolding tracker
applied-on_snapshot_all_example =
    applied-on_snapshot_all (tracker binance_spot) 100 continuous
      ((omega arith, omega arith), (refl, tt))

applied-on_snapshot-Covers_example :
    Covers 105 (applied (on_snapshot (tracker binance_spot) 100) continuous)
unfolding tracker run applied on_snapshot on_update
applied-on_snapshot-Covers_example =
    applied-on_snapshot-Covers (tracker binance_spot) 100 continuous 105 refl (omega arith)
      (omega arith) (omega arith) (omega arith)

applied-resync_required_example :
    applied (on_snapshot (tracker binance_spot) 100) (ids 103 104 102 ∷ continuous) ≡ []
unfolding on_snapshot tracker on_update
applied-resync_required_example =
    (applied-resync_required (on_snapshot (tracker binance_spot) 100) (ids 103 104 102) continuous
      refl).1

on_update-stats_example :
    (on_update (on_snapshot (tracker binance_spot) 100) (ids 90 95 89)).0.stats
    ≡ counted
        (on_update (on_snapshot (tracker binance_spot) 100) (ids 90 95 89)).1
        (on_snapshot (tracker binance_spot) 100).stats
unfolding on_snapshot tracker
on_update-stats_example =
    on_update-stats (on_snapshot (tracker binance_spot) 100) (ids 90 95 89) refl (omega arith)
