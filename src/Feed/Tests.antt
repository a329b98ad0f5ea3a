-- ===== src/Feed/Tests.antt =====
-- Concrete runs of a feed over a decoder of one-byte frames, and the theorems of the feed at
-- concrete inputs.
use crossbook.Common.{ℕ, ◌≡◌, refl, true, false, List, [], ◌∷◌, codes, ◌+◌, ◌==◌, if◌then◌else◌}
use crossbook.Common.Int.{pos}
use crossbook.Types.{ask, InstrumentSpec}
use crossbook.Sequence.{binance_spot}
use crossbook.Divergence.{stale_feed}
use crossbook.Venue.{DecodedMessage, MessageKind, DecodeError, blank}
use crossbook.Book.Map.Refines.{map_impl}
use crossbook.Feed
use crossbook.Feed.{Decoder, needs_snapshot, rejected, applied}
use crossbook.Feed.Rule.{run, Answered, run_unsynced, handle_message-Answered}

abbrev spec : InstrumentSpec
spec = record { symbol = codes "BTC/USD"; price_scale = 1; qty_scale = 8 }

abbrev snapshot : DecodedMessage
snapshot = record blank {
  kind = MessageKind.snapshot;
  ts = pos 5;
  levels = record { side = ask; price = pos 7; qty = pos 2 } ∷ [];
}

abbrev update : DecodedMessage
update = record blank {
  kind = MessageKind.update;
  ts = pos 6;
  has_ids = true;
  ids = record { first_id = 1; final_id = 2; prev_id = 0 };
}

abbrev broken : DecodedMessage
broken = record blank { error = DecodeError.malformed }

-- 's' is a snapshot, 'u' an update, all else is malformed; the state counts the frames.
abbrev decode : ℕ → List ℕ → ℕ × DecodedMessage
decode n [] = (n + 1, broken)
decode n (c ∷ cs) = (n + 1, if c == b's' then snapshot else if c == b'u' then update else broken)

abbrev decoder : Decoder
decoder = record { State = ℕ; decode = decode }

abbrev fresh : Feed.FeedOf map_impl decoder
fresh = Feed.make map_impl decoder (codes "binance") 0 spec binance_spot 10

first_update : (Feed.handle map_impl decoder fresh (codes "u")).1 ≡ needs_snapshot
unfolding Feed.handle Feed.make Feed.handle_message Feed.dispatch Feed.apply_update
first_update = refl

first_broken : (Feed.handle map_impl decoder fresh (codes "x")).1 ≡ rejected
unfolding Feed.handle Feed.make Feed.handle_message Feed.reject
first_broken = refl

first_snapshot :
    ((Feed.handle map_impl decoder fresh (codes "s")).1 ≡ applied)
    × ((Feed.handle map_impl decoder fresh (codes "s")).0.synced ≡ true)
unfolding Feed.handle Feed.make Feed.handle_message Feed.dispatch Feed.apply_snapshot Feed.check
    Feed.mark_synced
first_snapshot = (refl, refl)

never_stale : (Feed.check_staleness map_impl decoder fresh (pos 100) (pos 10)).1 ≡ false
unfolding Feed.check_staleness Feed.make
never_stale = refl

invalidated : (Feed.invalidate map_impl decoder fresh stale_feed).synced ≡ false
unfolding Feed.invalidate Feed.make
invalidated = refl

run_unsynced_example :
    ((run map_impl decoder fresh (codes "u" ∷ codes "x" ∷ [])).book ≡ fresh.book)
    × ((run map_impl decoder fresh (codes "u" ∷ codes "x" ∷ [])).synced ≡ false)
unfolding Feed.make
run_unsynced_example =
    run_unsynced map_impl decoder fresh (codes "u" ∷ codes "x" ∷ []) refl (refl, (refl, tt))

handle_message-Answered_example :
    Answered map_impl decoder fresh snapshot (Feed.handle_message map_impl decoder fresh snapshot)
handle_message-Answered_example = handle_message-Answered map_impl decoder fresh snapshot
