-- ===== src/Sequence.antt =====
-- include/crossbook/sequence.hpp: the state machine that decides whether an update continues the
-- stream. Sequence ids and counters are uint64_t and wrap.
pub mod Continuity
pub mod Stream
pub mod Coverage
mod Tests
use crossbook.Common.{ℕ, ◌+◌, ◌%◌, ◌^◌, ltb, leb, ◌==◌, if◌then◌else◌}
use crossbook.Common.{Bool, true, false, not, ◌&&◌}

pub data SequencePolicy : Type 0 where
  binance_spot binance_futures strict_increment : SequencePolicy

pub record UpdateIds : Type 0 where
  pub first_id : ℕ
  pub final_id : ℕ
  pub prev_id : ℕ

pub data SequenceAction : Type 0 where
  apply discard_stale resync_required : SequenceAction

pub record SequenceStats : Type 0 where
  pub applied : ℕ
  pub discarded_stale : ℕ
  pub gaps_detected : ℕ
  pub snapshots_applied : ℕ

pub record SequenceTracker : Type 0 where
  pub policy : SequencePolicy
  pub snapshot_id : ℕ
  pub last_final_id : ℕ
  pub have_snapshot : Bool
  pub straddled : Bool
  pub stats : SequenceStats

-- `x + 1` on uint64_t.
abbrev pub inc64 : ℕ → ℕ
inc64 x = (x + 1) % 2 ^ 64

pub tracker : SequencePolicy → SequenceTracker
tracker p = record {
  policy = p;
  snapshot_id = 0;
  last_final_id = 0;
  have_snapshot = false;
  straddled = false;
  stats = record { applied = 0; discarded_stale = 0; gaps_detected = 0; snapshots_applied = 0 };
}

pub on_snapshot : SequenceTracker → ℕ → SequenceTracker
on_snapshot t snapshot_id = record t {
  snapshot_id = snapshot_id;
  have_snapshot = true;
  straddled = false;
  last_final_id = 0;
  stats = record stats { snapshots_applied = inc64 stats.snapshots_applied };
}
  where
    open t use {stats}

-- The three endings that the branches of `on_update` share.
discard : SequenceTracker → SequenceTracker × SequenceAction
discard t = (
  record t { stats = record stats { discarded_stale = inc64 stats.discarded_stale } },
  discard_stale,
)
  where
    open t use {stats}

gap : SequenceTracker → SequenceTracker × SequenceAction
gap t = (
  record t {
    stats = record stats { gaps_detected = inc64 stats.gaps_detected };
    have_snapshot = false;
  },
  resync_required,
)
  where
    open t use {stats}

accept : SequenceTracker → UpdateIds → SequenceTracker × SequenceAction
accept t ids = (
  record t {
    straddled = true;
    last_final_id = ids.final_id;
    stats = record stats { applied = inc64 stats.applied };
  },
  apply,
)
  where
    open t use {stats}

on_update_strict : SequenceTracker → UpdateIds → SequenceTracker × SequenceAction
on_update_strict t ids =
    if not t.straddled
    then if leb ids.final_id t.snapshot_id
      then discard t
      else if not (ids.final_id == inc64 t.snapshot_id)
      then gap t
      else accept t ids
    else if not (ids.final_id == inc64 t.last_final_id)
    then if leb ids.final_id t.last_final_id then discard t else gap t
    else accept t ids

-- `anchor` and `continuous` are the two places where spot and futures differ.
on_update_binance : ℕ → Bool → SequenceTracker → UpdateIds → SequenceTracker × SequenceAction
on_update_binance anchor continuous t ids =
    if not t.straddled
    then if ltb ids.final_id anchor
      then discard t
      else if not (leb ids.first_id anchor && leb anchor ids.final_id)
      then gap t
      else accept t ids
    else if not continuous
    then if leb ids.final_id t.last_final_id then discard t else gap t
    else accept t ids

classify : SequencePolicy → SequenceTracker → UpdateIds → SequenceTracker × SequenceAction
unfolding on_update_strict on_update_binance discard gap accept
classify strict_increment t ids = on_update_strict t ids
classify binance_spot t ids =
    on_update_binance (inc64 t.snapshot_id) (ids.first_id == inc64 t.last_final_id) t ids
classify binance_futures t ids =
    on_update_binance t.snapshot_id (ids.prev_id == t.last_final_id) t ids

pub on_update : SequenceTracker → UpdateIds → SequenceTracker × SequenceAction
unfolding classify
on_update t ids = if not t.have_snapshot then (t, resync_required) else classify t.policy t ids

pub invalidate : SequenceTracker → SequenceTracker
invalidate t = record t { have_snapshot = false; straddled = false }
