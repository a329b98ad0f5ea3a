-- ===== src/Divergence/Tests.antt =====
-- Concrete runs of the log, and its theorems at concrete inputs.
use crossbook.Common.{◌≡◌, refl, arith, true, [], ◌∷◌, codes, length}
use crossbook.Common.Int.{pos}
use crossbook.Divergence.{
  Divergence, DivergenceKind, checksum_mismatch, sequence_gap, DivergenceLog,
}
use crossbook.Divergence.{log, record_divergence, record_verified, match_rate, is_empty, clear}
use crossbook.Divergence.Account.{
  IsAccounted, log-IsAccounted, record_divergence-IsAccounted, match_rate-record_divergence,
}

abbrev noted : DivergenceKind → Divergence
noted k = record {
  kind = k;
  venue = codes "kraken";
  symbol = codes "BTC/USD";
  ts = pos 1;
  sequence = 7;
  expected = 2;
  actual = 3;
  detail = [];
}

-- A log of one entry, with a gap in it, three checks done and one of them failed.
abbrev full : DivergenceLog
full =
    record_divergence
      (record_verified (record_verified (record_divergence (log 1) (noted sequence_gap))))
      (noted checksum_mismatch)

match_rate-full : match_rate full ≡ (2, 3)
unfolding match_rate record_divergence record_verified log
match_rate-full = refl

full_dropped : (full.dropped ≡ 1) × (length full.entries ≡ 1)
unfolding record_divergence record_verified log
full_dropped = (refl, refl)

cleared : is_empty (clear full) ≡ true
unfolding is_empty clear
cleared = refl

record_divergence-IsAccounted_example :
    IsAccounted (record_divergence (log 1) (noted sequence_gap)) (noted sequence_gap ∷ [])
record_divergence-IsAccounted_example =
    record_divergence-IsAccounted (log 1) [] (noted sequence_gap) (omega arith) (log-IsAccounted 1)

match_rate-record_divergence_example :
    match_rate (record_divergence (log 1) (noted sequence_gap)) ≡ match_rate (log 1)
match_rate-record_divergence_example =
    match_rate-record_divergence (log 1) (noted sequence_gap) (λ e. cc)
