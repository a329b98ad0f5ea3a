-- ===== src/Divergence/Account.antt =====
-- Every recorded divergence is accounted for.
use crossbook.Common.{
  ℕ, zero, suc, ◌+◌, ◌-◌, ◌^◌, ◌≤◌, ◌<◌, ◌≡◌, ◌≢◌, refl, sym, ap, ◌∙◌, arith, min,
}
use crossbook.Common.{
  List, [], ◌∷◌, ◌++◌, length, length-append, take, take_all, length-take, if◌then◌else◌, ◌==◌, ltb,
  if_cases,
}
use crossbook.Sequence.{inc64}
use crossbook.Divergence.{
  Divergence, DivergenceKind, DivergenceLog, Counts, no_counts, log, bump, counter,
  record_divergence, count, match_rate,
}
use crossbook.Divergence.{
  checksum_mismatch, sequence_gap, precision_loss, malformed_message, stale_feed, venue_error,
}

abbrev kind_code : DivergenceKind → ℕ
kind_code checksum_mismatch = 0
kind_code sequence_gap = 1
kind_code precision_loss = 2
kind_code malformed_message = 3
kind_code stale_feed = 4
kind_code venue_error = 5

-- How many of the divergences are of a kind.
pub of_kind : DivergenceKind → List Divergence → ℕ
of_kind k [] = 0
of_kind k (d ∷ ds) =
    let rest = of_kind k ds in if kind_code d.kind == kind_code k then suc rest else rest

-- What a log shows of all that has been recorded in it, oldest first: the number of each kind, as
-- many of the oldest as it holds, the number of all, and of those that it had no room for.
pub record IsAccounted (l : DivergenceLog) (ds : List Divergence) : Type 0 where
  pub counts : (k : DivergenceKind) → count l k ≡ of_kind k ds
  pub entries : l.entries ≡ take l.capacity ds
  pub total_recorded : l.total_recorded ≡ length ds
  pub dropped : l.dropped ≡ length ds - l.capacity

no_count : (k : DivergenceKind) → counter k no_counts ≡ 0
no_count checksum_mismatch = refl
no_count sequence_gap = refl
no_count precision_loss = refl
no_count malformed_message = refl
no_count stale_feed = refl
no_count venue_error = refl

take_nil : (n : ℕ) → take {A = Divergence} n [] ≡ []
take_nil zero = refl
take_nil (suc n) = refl

pub log-IsAccounted : (capacity : ℕ) → IsAccounted (log capacity) []
unfolding log count of_kind
log-IsAccounted capacity = record {
  counts = no_count;
  entries = sym (take_nil capacity);
  total_recorded = refl;
  dropped = omega arith;
}

of_kind-le : (k : DivergenceKind) (ds : List Divergence) → of_kind k ds ≤ length ds
unfolding of_kind
of_kind-le k [] = omega arith
of_kind-le k (d ∷ ds) = ground (arith, of_kind-le k ds)

of_kind-append :
    (k : DivergenceKind) (ds : List Divergence) (d : Divergence)
    → of_kind k (ds ++ d ∷ []) ≡ of_kind k ds + (if kind_code d.kind == kind_code k then 1 else 0)
unfolding of_kind
of_kind-append k [] d = ground arith
of_kind-append k (x ∷ ds) d = ground (arith, of_kind-append k ds d)

counter-bump :
    (j k : DivergenceKind) (c : Counts)
    → counter k c + 1 < 2 ^ 64
    → counter k (bump j c) ≡ counter k c + (if kind_code j == kind_code k then 1 else 0)
unfolding bump
counter-bump checksum_mismatch checksum_mismatch c h = omega arith
counter-bump checksum_mismatch sequence_gap c h = omega arith
counter-bump checksum_mismatch precision_loss c h = omega arith
counter-bump checksum_mismatch malformed_message c h = omega arith
counter-bump checksum_mismatch stale_feed c h = omega arith
counter-bump checksum_mismatch venue_error c h = omega arith
counter-bump sequence_gap checksum_mismatch c h = omega arith
counter-bump sequence_gap sequence_gap c h = omega arith
counter-bump sequence_gap precision_loss c h = omega arith
counter-bump sequence_gap malformed_message c h = omega arith
counter-bump sequence_gap stale_feed c h = omega arith
counter-bump sequence_gap venue_error c h = omega arith
counter-bump precision_loss checksum_mismatch c h = omega arith
counter-bump precision_loss sequence_gap c h = omega arith
counter-bump precision_loss precision_loss c h = omega arith
counter-bump precision_loss malformed_message c h = omega arith
counter-bump precision_loss stale_feed c h = omega arith
counter-bump precision_loss venue_error c h = omega arith
counter-bump malformed_message checksum_mismatch c h = omega arith
counter-bump malformed_message sequence_gap c h = omega arith
counter-bump malformed_message precision_loss c h = omega arith
counter-bump malformed_message malformed_message c h = omega arith
counter-bump malformed_message stale_feed c h = omega arith
counter-bump malformed_message venue_error c h = omega arith
counter-bump stale_feed checksum_mismatch c h = omega arith
counter-bump stale_feed sequence_gap c h = omega arith
counter-bump stale_feed precision_loss c h = omega arith
counter-bump stale_feed malformed_message c h = omega arith
counter-bump stale_feed stale_feed c h = omega arith
counter-bump stale_feed venue_error c h = omega arith
counter-bump venue_error checksum_mismatch c h = omega arith
counter-bump venue_error sequence_gap c h = omega arith
counter-bump venue_error precision_loss c h = omega arith
counter-bump venue_error malformed_message c h = omega arith
counter-bump venue_error stale_feed c h = omega arith
counter-bump venue_error venue_error c h = omega arith

take-append_le : (n : ℕ) (xs ys : List Divergence) → n ≤ length xs → take n (xs ++ ys) ≡ take n xs
take-append_le zero xs ys h = refl
take-append_le (suc n) [] ys h = absurd (omega arith)
take-append_le (suc n) (x ∷ xs) ys h = ap (◌∷◌ x) (take-append_le n xs ys (omega arith))

-- `record` keeps the account of all divergences that have been recorded, as long as their number
-- does not reach the end of uint64_t: each is counted under its own kind and in the total, the list
-- holds the oldest, in order, up to the capacity, and the rest is counted as dropped.
pub record_divergence-IsAccounted :
    (l : DivergenceLog) (ds : List Divergence) (d : Divergence)
    → length ds + 1 < 2 ^ 64
    → IsAccounted l ds
    → IsAccounted (record_divergence l d) (ds ++ d ∷ [])
unfolding record_divergence count
record_divergence-IsAccounted l ds d b h =
    if_cases (λ r. IsAccounted r (ds ++ d ∷ [])) (ltb (length l.entries) l.capacity) _ _
      (λ e. record {
        counts = counts;
        entries =
            ap (λ xs. xs ++ d ∷ []) (h.entries ∙ take_all l.capacity ds (ground (arith, held)))
            ∙ sym (take_all l.capacity (ds ++ d ∷ []) (ground (arith, held, longer)));
        total_recorded = total;
        dropped = ground (arith, held, longer, h.dropped);
      })
      (λ e. record {
        counts = counts;
        entries = h.entries ∙ sym (take-append_le l.capacity ds (d ∷ []) (ground (arith, held)));
        total_recorded = total;
        dropped = ground (arith, held, longer, h.dropped);
      })
  where
    held : length l.entries ≡ min l.capacity (length ds)
    held = ap length h.entries ∙ length-take l.capacity ds

    longer : length (ds ++ d ∷ []) ≡ length ds + 1
    longer = length-append ds (d ∷ [])

    total : inc64 l.total_recorded ≡ length (ds ++ d ∷ [])
    total = omega (arith, h.total_recorded, longer)

    counts : (k : DivergenceKind) → counter k (bump d.kind l.counts) ≡ of_kind k (ds ++ d ∷ [])
    counts k =
        counter-bump d.kind k l.counts (omega (arith, h.counts k, of_kind-le k ds))
        ∙ ap (λ n. n + (if kind_code d.kind == kind_code k then 1 else 0)) (h.counts k)
        ∙ sym (of_kind-append k ds d)

match_rate_step :
    (k : DivergenceKind) (l : DivergenceLog) (d : Divergence)
    → d.kind ≡ k
    → k ≢ checksum_mismatch
    → match_rate (record_divergence l d) ≡ match_rate l
unfolding match_rate record_divergence
match_rate_step checksum_mismatch l d e n = absurd (n refl)
match_rate_step sequence_gap l d e n = ground arith
match_rate_step precision_loss l d e n = ground arith
match_rate_step malformed_message l d e n = ground arith
match_rate_step stale_feed l d e n = ground arith
match_rate_step venue_error l d e n = ground arith

-- Only a checksum mismatch moves the published match rate: recording any other kind leaves both its
-- numerator and its denominator as they were.
pub match_rate-record_divergence :
    (l : DivergenceLog) (d : Divergence)
    → d.kind ≢ checksum_mismatch
    → match_rate (record_divergence l d) ≡ match_rate l
match_rate-record_divergence l d n = match_rate_step d.kind l d refl n
