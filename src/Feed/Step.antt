-- ===== src/Feed/Step.antt =====
-- The steps that the handlers of a feed are built from.
use crossbook.Common.{ℕ, ◌+◌, ◌%◌, ◌^◌, Bool, true, false, List, [], ◌∷◌, Option, none, some}
use crossbook.Common.{if◌then◌else◌, ◌==◌, codes}
use crossbook.Fixed.{to_u64}
use crossbook.Sequence.{SequenceTracker, apply, inc64}
use crossbook.Sequence
use crossbook.Divergence.{DivergenceKind, record_divergence, record_verified}
use crossbook.Divergence.{checksum_mismatch, malformed_message}
use crossbook.Venue.{LevelUpdate, DecodedMessage}
use crossbook.Book.Visit.{SideImpl}
use crossbook.Book.L2
use crossbook.Book.L2.{L2Book}
use crossbook.Checksum.{kraken_checksum, kraken_checksum_payload}
use crossbook.Feed.State.{FeedStatus, applied, needs_snapshot, rejected, Decoder, FeedOf, token_or}

module _ (I : SideImpl) (D : Decoder) where
  unfoldable pub note :
      FeedOf I D → DivergenceKind → List ℕ → DecodedMessage → ℕ → ℕ → List ℕ → FeedOf I D
  note f k symbol m expected actual detail = record f {
    log = record_divergence f.log (record {
      kind = k;
      venue = f.venue;
      symbol = symbol;
      ts = m.ts;
      sequence = m.ids.final_id;
      expected = expected;
      actual = actual;
      detail = detail;
    });
  }

  unfoldable pub record_rejected_level : FeedOf I D → DecodedMessage → LevelUpdate → FeedOf I D
  unfolding note
  record_rejected_level f m l =
      note (record f { stats = record stats { levels_rejected = inc64 stats.levels_rejected } })
        malformed_message f.book.spec.symbol m (to_u64 l.price) (to_u64 l.qty)
        (codes "book refused level")
    where
      open f use {stats}

  unfoldable pub request_resync : FeedOf I D → FeedOf I D × FeedStatus
  request_resync f = (
    record f {
      synced = false;
      tracker = Sequence.invalidate f.tracker;
      stats = record stats { resyncs_requested = inc64 stats.resyncs_requested };
    },
    needs_snapshot,
  )
    where
      open f use {stats}

  unfoldable pub verify_checksum : FeedOf I D → DecodedMessage → FeedOf I D × Bool
  unfolding note
  verify_checksum f m =
      let local = kraken_checksum I f.book in
      if local == m.checksum
      then (
        record f {
          stats = record stats { checksums_verified = inc64 stats.checksums_verified };
          log = record_verified f.log;
        },
        true,
      )
      else (
        note
            (record f {
              stats = record stats {
                checksums_verified = inc64 stats.checksums_verified;
                checksum_mismatches = inc64 stats.checksum_mismatches;
              };
            })
            checksum_mismatch m.symbol m m.checksum local (kraken_checksum_payload I f.book),
        false,
      )
    where
      open f use {stats}

  unfoldable pub apply_level : FeedOf I D → DecodedMessage → LevelUpdate → FeedOf I D
  unfolding record_rejected_level
  apply_level f m l =
      let (b, done) = L2.apply I f.book l.side l.price l.qty in
      if done then record f { book = b } else record_rejected_level f m l

  unfoldable pub apply_levels : FeedOf I D → DecodedMessage → List LevelUpdate → FeedOf I D
  apply_levels f m [] = f
  apply_levels f m (l ∷ ls) = apply_levels (apply_level f m l) m ls

  -- `trim` always returns, so the first case is never taken.
  unfoldable pub trimmed : L2Book I.State → Option (L2Book I.State × ℕ) → L2Book I.State × ℕ
  trimmed b none = (b, 0)
  trimmed b (some r) = r

  -- Trim, and note the time of the message.
  unfoldable pub settle : FeedOf I D → DecodedMessage → FeedOf I D
  unfolding trimmed
  settle f m =
      let (b, n) = trimmed f.book (L2.trim I f.book f.depth) in
      record f {
        book = L2.set_last_update I b m.ts;
        last_ts = m.ts;
        stats = record stats { levels_trimmed = (stats.levels_trimmed + n) % 2 ^ 64 };
      }
    where
      open f use {stats}

  -- The last step of a snapshot and of an update.
  unfoldable pub check : FeedOf I D → DecodedMessage → FeedOf I D × FeedStatus
  unfolding verify_checksum request_resync
  check f m =
      let (g, matched) = verify_checksum f m in
      if m.has_checksum then if matched then (g, applied) else request_resync g else (f, applied)

  unfoldable pub reject :
      FeedOf I D → DivergenceKind → List ℕ → DecodedMessage → List ℕ → FeedOf I D × FeedStatus
  unfolding note
  reject f k symbol m other = (
    note (record f { stats = record stats { rejected = inc64 stats.rejected } }) k symbol m 0 0
        (token_or m.bad_token other),
    rejected,
  )
    where
      open f use {stats}

  unfoldable pub snapshot_tracker : FeedOf I D → DecodedMessage → SequenceTracker
  snapshot_tracker f m =
      if m.has_ids then Sequence.on_snapshot f.tracker m.ids.final_id else f.tracker

  -- The bookkeeping between the levels of a snapshot and its checksum.
  unfoldable pub mark_synced : FeedOf I D → DecodedMessage → FeedOf I D
  unfolding snapshot_tracker
  mark_synced f m = record f {
    tracker = snapshot_tracker f m;
    synced = true;
    stats = record stats {
      snapshots_applied = inc64 stats.snapshots_applied;
      applied = inc64 stats.applied;
    };
  }
    where
      open f use {stats}
