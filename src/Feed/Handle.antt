-- ===== src/Feed/Handle.antt =====
-- `handle`, `apply_snapshot`, `invalidate`, `check_staleness` and the constructor of a feed.
use crossbook.Common.{ℕ, Bool, true, false, not, ◌||◌, List}
use crossbook.Common.{if◌then◌else◌, codes}
use crossbook.Common.Int.{ℤ, pos, ltb_ℤ, ◌-ℤ◌}
use crossbook.Types.{InstrumentSpec, eq_ℤ}
use crossbook.Sequence.{
  SequencePolicy, SequenceAction, apply, discard_stale, resync_required, inc64,
}
use crossbook.Sequence
use crossbook.Divergence.{Divergence, DivergenceKind, DivergenceLog, record_divergence}
use crossbook.Divergence.{sequence_gap, malformed_message, stale_feed}
use crossbook.Divergence
use crossbook.Venue.{MessageKind, DecodedMessage, is_ok, to_string}
use crossbook.Book.Visit.{SideImpl}
use crossbook.Book.L2
use crossbook.Feed.State.{FeedStatus, ignored, needs_snapshot, Decoder, FeedOf, is_spelling}
use crossbook.Feed.Step

module _ (I : SideImpl) (D : Decoder) where
  unfoldable pub apply_snapshot : FeedOf I D → DecodedMessage → FeedOf I D × FeedStatus
  apply_snapshot f m =
      if not (is_ok m)
      then Step.reject I D f malformed_message f.book.spec.symbol m (to_string m.error)
      else Step.check I D
          (Step.mark_synced I D (Step.settle I D (Step.apply_levels I D cleared m m.levels) m) m) m
    where
      cleared : FeedOf I D
      cleared = record f { book = L2.clear I f.book }

  unfoldable pub count_applied : FeedOf I D → FeedOf I D
  count_applied f = record f { stats = record stats { applied = inc64 stats.applied } }
    where
      open f use {stats}

  unfoldable pub count_ignored : FeedOf I D → FeedOf I D × FeedStatus
  count_ignored f = (record f { stats = record stats { ignored = inc64 stats.ignored } }, ignored)
    where
      open f use {stats}

  -- An update that continuity lets through.
  unfoldable pub continue_update : FeedOf I D → DecodedMessage → FeedOf I D × FeedStatus
  continue_update f m =
      Step.check I D (count_applied (Step.settle I D (Step.apply_levels I D f m m.levels) m)) m

  -- The three answers of the sequence tracker, whose state has moved on already.
  unfoldable pub act : SequenceAction → FeedOf I D → DecodedMessage → FeedOf I D × FeedStatus
  act discard_stale f m = count_ignored f
  act resync_required f m = Step.request_resync I D (
      Step.note I D f sequence_gap m.symbol m f.tracker.last_final_id m.ids.first_id
        (codes "continuity broken; book must be rebuilt"))
  act apply f m = continue_update f m

  unfoldable pub apply_update : FeedOf I D → DecodedMessage → FeedOf I D × FeedStatus
  apply_update f m =
      if not f.synced
      then (f, needs_snapshot)
      else if m.has_ids
      then act (Sequence.on_update f.tracker m.ids).1
          (record f { tracker = (Sequence.on_update f.tracker m.ids).0 }) m
      else continue_update f m

  unfoldable pub venue_error : FeedOf I D → DecodedMessage → FeedOf I D × FeedStatus
  venue_error f m =
      Step.reject I D
        (record f { stats = record stats { venue_errors = inc64 stats.venue_errors } })
        Divergence.venue_error f.book.spec.symbol m (codes "venue reported an error")
    where
      open f use {stats}

  unfoldable pub dispatch : MessageKind → FeedOf I D → DecodedMessage → FeedOf I D × FeedStatus
  dispatch MessageKind.ignored f m = count_ignored f
  dispatch MessageKind.venue_error f m = venue_error f m
  dispatch MessageKind.snapshot f m = apply_snapshot f m
  dispatch MessageKind.update f m = apply_update f m

  -- `handle` behind the decoder.
  unfoldable pub handle_message : FeedOf I D → DecodedMessage → FeedOf I D × FeedStatus
  handle_message f m =
      if not (is_ok m)
      then Step.reject I D f (is_spelling m.error) m.symbol m (to_string m.error)
      else dispatch m.kind f m

  unfoldable pub handle : FeedOf I D → List ℕ → FeedOf I D × FeedStatus
  handle f frame =
      let (d, m) = D.decode f.decoder frame in
      handle_message
        (record f { decoder = d; stats = record stats { frames = inc64 stats.frames } }) m
    where
      open f use {stats}

  -- The note that `invalidate` leaves, of a feed that was synced.
  unfoldable pub invalidation : FeedOf I D → DivergenceKind → DivergenceLog
  invalidation f reason =
      if f.synced
      then record_divergence f.log (record {
        kind = reason;
        venue = f.venue;
        symbol = f.book.spec.symbol;
        ts = f.last_ts;
        sequence = f.tracker.last_final_id;
        expected = 0;
        actual = 0;
        detail = codes "feed invalidated";
      })
      else f.log

  unfoldable pub invalidate : FeedOf I D → DivergenceKind → FeedOf I D
  unfolding invalidation
  invalidate f reason = record f {
    log = invalidation f reason;
    synced = false;
    tracker = Sequence.invalidate f.tracker;
    stats = record stats { resyncs_requested = inc64 stats.resyncs_requested };
  }
    where
      open f use {stats}

  -- Timestamps lie so that their difference is an int64_t, as the subtraction supposes.
  unfoldable pub check_staleness : FeedOf I D → ℤ → ℤ → FeedOf I D × Bool
  check_staleness f now max_gap_ns =
      if not f.synced || eq_ℤ f.last_ts (pos 0) || not (ltb_ℤ (pos 0) max_gap_ns)
      then (f, false)
      else if ltb_ℤ max_gap_ns (now -ℤ f.last_ts)
      then (invalidate f stale_feed, true)
      else (f, false)

  unfoldable pub make : List ℕ → D.State → InstrumentSpec → SequencePolicy → ℕ → FeedOf I D
  make venue decoder spec policy depth = record {
    venue = venue;
    decoder = decoder;
    book = L2.make I spec;
    tracker = Sequence.tracker policy;
    depth = depth;
    log = Divergence.log 4096;
    stats = record {
      frames = 0;
      applied = 0;
      ignored = 0;
      rejected = 0;
      resyncs_requested = 0;
      snapshots_applied = 0;
      checksums_verified = 0;
      checksum_mismatches = 0;
      venue_errors = 0;
      levels_trimmed = 0;
      levels_rejected = 0;
    };
    last_ts = pos 0;
    synced = false;
  }
