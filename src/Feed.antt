-- ===== src/Feed.antt =====
-- include/crossbook/feed.hpp: decode, check continuity, apply, verify, recover. The decoder is the
-- class's template parameter, and the book stands over any side container. Counters are uint64_t.
pub mod State
pub mod Step
pub mod Handle
pub mod Rule
mod Tests
pub use State.{
  FeedStatus, applied, ignored, needs_snapshot, rejected, FeedStats, Decoder, Feed, FeedOf,
  is_spelling,
}
unfoldable pub use Step.{
  note, record_rejected_level, request_resync, verify_checksum, apply_level, apply_levels, trimmed,
  settle, check, reject, snapshot_tracker, mark_synced,
}
unfoldable pub use Handle.{
  apply_snapshot, count_applied, count_ignored, continue_update, act, apply_update, venue_error,
  dispatch, handle_message, handle, invalidation, invalidate, check_staleness, make,
}
