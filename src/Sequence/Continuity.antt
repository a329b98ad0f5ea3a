-- ===== src/Sequence/Continuity.antt =====
-- What a stream of updates looks like behind `on_update`: which are applied, that the applied ones
-- leave nothing out, and that a continuous stream is applied whole.
use crossbook.Common.{ℕ, ◌≤◌, ◌<◌, ◌≡◌, ◌↔◌, refl, arith}
use crossbook.Common.{Bool, true, false}
use crossbook.Sequence.{SequencePolicy, binance_spot, binance_futures, strict_increment}
use crossbook.Sequence.{UpdateIds, apply}
use crossbook.Sequence.{SequenceTracker, inc64, on_update}

-- The documented continuity contract of each venue, once an update has been applied.
abbrev pub Continues : SequencePolicy → ℕ → UpdateIds → Type 0
Continues binance_spot last ids = ids.first_id ≡ inc64 last
Continues binance_futures last ids = ids.prev_id ≡ last
Continues strict_increment last ids = ids.final_id ≡ inc64 last

-- And its contract for the first update behind a snapshot.
abbrev pub Straddles : SequencePolicy → ℕ → UpdateIds → Type 0
Straddles binance_spot snapshot ids =
    (ids.first_id ≤ inc64 snapshot) × (inc64 snapshot ≤ ids.final_id)
Straddles binance_futures snapshot ids = (ids.first_id ≤ snapshot) × (snapshot ≤ ids.final_id)
Straddles strict_increment snapshot ids =
    (snapshot < ids.final_id) × (ids.final_id ≡ inc64 snapshot)

abbrev pub Next : SequencePolicy → Bool → SequenceTracker → UpdateIds → Type 0
Next p true t ids = Continues p t.last_final_id ids
Next p false t ids = Straddles p t.snapshot_id ids

Next-apply :
    (p : SequencePolicy) (b : Bool) (t : SequenceTracker) (ids : UpdateIds)
    → t.policy ≡ p
    → t.straddled ≡ b
    → t.have_snapshot ≡ true
    → Next p b t ids
    → (on_update t ids).1 ≡ apply
unfolding on_update
Next-apply binance_spot true t ids e b h n = ground arith
Next-apply binance_spot false t ids e b h n = ground arith
Next-apply binance_futures true t ids e b h n = ground arith
Next-apply binance_futures false t ids e b h n = ground arith
Next-apply strict_increment true t ids e b h n = ground arith
Next-apply strict_increment false t ids e b h n = ground arith

apply-Next :
    (p : SequencePolicy) (b : Bool) (t : SequenceTracker) (ids : UpdateIds)
    → t.policy ≡ p
    → t.straddled ≡ b
    → (on_update t ids).1 ≡ apply
    → (t.have_snapshot ≡ true) × Next p b t ids
unfolding on_update
apply-Next binance_spot true t ids e b h = ground arith
apply-Next binance_spot false t ids e b h = ground arith
apply-Next binance_futures true t ids e b h = ground arith
apply-Next binance_futures false t ids e b h = ground arith
apply-Next strict_increment true t ids e b h = ground arith
apply-Next strict_increment false t ids e b h = ground arith

-- `on_update` answers `apply` exactly when a snapshot is held and the update meets the contract of
-- the tracker's venue: `Straddles` for the first update behind the snapshot, `Continues` after it.
pub on_update-apply_iff :
    (t : SequenceTracker) (ids : UpdateIds)
    → ((on_update t ids).1 ≡ apply) ↔ ((t.have_snapshot ≡ true) × Next t.policy t.straddled t ids)
on_update-apply_iff t ids = (
  apply-Next t.policy t.straddled t ids refl refl,
  λ (h, n). Next-apply t.policy t.straddled t ids refl refl h n,
)
