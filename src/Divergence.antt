-- ===== src/Divergence.antt =====
-- include/crossbook/divergence.hpp: the bounded log of disagreements. Counters are uint64_t and
-- wrap; the array of counters has a field for each kind. Texts are byte strings. `match_rate` is
-- given by the two integers whose quotient it is.
pub mod Account
mod Tests
use crossbook.Common.{ℕ, ◌+◌, ◌%◌, ◌^◌, Bool, List, [], ◌∷◌, ◌++◌, if◌then◌else◌, ltb, ◌==◌, length}
use crossbook.Common.Int.{ℤ}
use crossbook.Sequence.{inc64}

pub data DivergenceKind : Type 0 where
  checksum_mismatch sequence_gap precision_loss malformed_message stale_feed venue_error :
      DivergenceKind

pub record Divergence : Type 0 where
  pub kind : DivergenceKind
  pub venue : List ℕ
  pub symbol : List ℕ
  pub ts : ℤ
  pub sequence : ℕ
  pub expected : ℕ
  pub actual : ℕ
  pub detail : List ℕ

pub record Counts : Type 0 where
  pub checksum_mismatches : ℕ
  pub sequence_gaps : ℕ
  pub precision_losses : ℕ
  pub malformed_messages : ℕ
  pub stale_feeds : ℕ
  pub venue_errors : ℕ

pub record DivergenceLog : Type 0 where
  pub capacity : ℕ
  pub entries : List Divergence
  pub counts : Counts
  pub verified : ℕ
  pub total_recorded : ℕ
  pub dropped : ℕ

abbrev no_counts : Counts
no_counts = record {
  checksum_mismatches = 0;
  sequence_gaps = 0;
  precision_losses = 0;
  malformed_messages = 0;
  stale_feeds = 0;
  venue_errors = 0;
}

pub log : ℕ → DivergenceLog
log capacity = record {
  capacity = capacity;
  entries = [];
  counts = no_counts;
  verified = 0;
  total_recorded = 0;
  dropped = 0;
}

bump : DivergenceKind → Counts → Counts
bump checksum_mismatch c = record c { checksum_mismatches = inc64 c.checksum_mismatches }
bump sequence_gap c = record c { sequence_gaps = inc64 c.sequence_gaps }
bump precision_loss c = record c { precision_losses = inc64 c.precision_losses }
bump malformed_message c = record c { malformed_messages = inc64 c.malformed_messages }
bump stale_feed c = record c { stale_feeds = inc64 c.stale_feeds }
bump venue_error c = record c { venue_errors = inc64 c.venue_errors }

-- `counts_[k]`.
abbrev counter : DivergenceKind → Counts → ℕ
counter checksum_mismatch c = c.checksum_mismatches
counter sequence_gap c = c.sequence_gaps
counter precision_loss c = c.precision_losses
counter malformed_message c = c.malformed_messages
counter stale_feed c = c.stale_feeds
counter venue_error c = c.venue_errors

unfoldable pub record_divergence : DivergenceLog → Divergence → DivergenceLog
unfolding bump
record_divergence l d =
    let counted = record l {
      counts = bump d.kind l.counts;
      total_recorded = inc64 l.total_recorded;
    } in
    if ltb (length l.entries) l.capacity
    then record counted { entries = l.entries ++ d ∷ [] }
    else record counted { dropped = inc64 l.dropped }

unfoldable pub record_verified : DivergenceLog → DivergenceLog
record_verified l = record l { verified = inc64 l.verified }

pub count : DivergenceLog → DivergenceKind → ℕ
count l k = counter k l.counts

-- The numerator and the denominator of `match_rate`; without a check it is 1.
pub match_rate : DivergenceLog → ℕ × ℕ
unfolding count
match_rate l =
    let total = (l.verified + count l checksum_mismatch) % 2 ^ 64 in
    if total == 0 then (1, 1) else (l.verified, total)

pub is_empty : DivergenceLog → Bool
is_empty l = l.total_recorded == 0

pub clear : DivergenceLog → DivergenceLog
clear l = record l {
  entries = [];
  counts = no_counts;
  verified = 0;
  total_recorded = 0;
  dropped = 0;
}
