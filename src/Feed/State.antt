-- ===== src/Feed/State.antt =====
-- The state of a feed, its statistics and its answers.
use crossbook.Common.{ℕ, Bool, List, [], ◌∷◌}
use crossbook.Common.Int.{ℤ}
use crossbook.Sequence.{SequenceTracker}
use crossbook.Divergence.{DivergenceKind, DivergenceLog}
use crossbook.Divergence.{precision_loss, malformed_message}
use crossbook.Venue.{DecodeError, DecodedMessage}
use crossbook.Book.Visit.{SideImpl}
use crossbook.Book.L2.{L2Book}

pub data FeedStatus : Type 0 where
  applied ignored needs_snapshot rejected : FeedStatus

pub record FeedStats : Type 0 where
  pub frames : ℕ
  pub applied : ℕ
  pub ignored : ℕ
  pub rejected : ℕ
  pub resyncs_requested : ℕ
  pub snapshots_applied : ℕ
  pub checksums_verified : ℕ
  pub checksum_mismatches : ℕ
  pub venue_errors : ℕ
  pub levels_trimmed : ℕ
  pub levels_rejected : ℕ

-- What the feed uses of its decoder: `decode`, which may change the decoder's own state.
pub record Decoder : Type 1 where
  pub State : Type 0
  pub decode : State → List ℕ → State × DecodedMessage

pub record Feed (D S : Type 0) : Type 0 where
  pub venue : List ℕ
  pub decoder : D
  pub book : L2Book S
  pub tracker : SequenceTracker
  pub depth : ℕ
  pub log : DivergenceLog
  pub stats : FeedStats
  pub last_ts : ℤ
  pub synced : Bool

-- `bad_token.empty() ? other : bad_token`.
abbrev pub token_or : List ℕ → List ℕ → List ℕ
token_or [] other = other
token_or (c ∷ cs) other = c ∷ cs

abbrev pub is_spelling : DecodeError → DivergenceKind
is_spelling DecodeError.precision_loss = precision_loss
is_spelling DecodeError.non_canonical = precision_loss
is_spelling _ = malformed_message

module _ (I : SideImpl) (D : Decoder) where
  abbrev pub FeedOf : Type 0
  FeedOf = Feed D.State I.State
