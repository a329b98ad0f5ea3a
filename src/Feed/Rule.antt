-- ===== src/Feed/Rule.antt =====
-- The rule that the feed exists for: a book that is known to be wrong is not updated further, and a
-- book that is reported as applied agrees with the evidence that came with it.
use crossbook.Common.{
  ℕ, ◌≡◌, ◌≢◌, ◌⊎◌, inl, inr, refl, sym, ◌∙◌, subst, arith, ==_iff, Bool-cases, if_cases,
}
use crossbook.Common.{Bool, true, false, not, ◌&&◌, List, [], ◌∷◌, if◌then◌else◌, ◌==◌}
use crossbook.Common.{not-true, not-false}
use crossbook.Sequence.{SequenceAction, apply, discard_stale, resync_required}
use crossbook.Sequence
use crossbook.Venue.{MessageKind, DecodedMessage, LevelUpdate, is_ok}
use crossbook.Book.Visit.{SideImpl}
use crossbook.Book.L2
use crossbook.Checksum.{kraken_checksum}
use crossbook.Feed
use crossbook.Feed.{Decoder, FeedStatus, applied, ignored, needs_snapshot, rejected}

abbrev kind_is_snapshot : MessageKind → Bool
kind_is_snapshot MessageKind.snapshot = true
kind_is_snapshot _ = false

-- A message that decoded, and is a full image of the book.
abbrev pub is_snapshot : DecodedMessage → Bool
is_snapshot m = is_ok m && kind_is_snapshot m.kind

module _ (I : SideImpl) (D : Decoder) where
  abbrev F : Type 0
  F = Feed.FeedOf I D

  -- What a step leaves alone.
  abbrev Frozen : F → F × FeedStatus → Type 0
  Frozen f (g, s) =
      (g.book ≡ f.book) × (g.synced ≡ f.synced) × (g.last_ts ≡ f.last_ts) × (s ≢ applied)

  dispatch-Frozen :
      (k : MessageKind) (f : F) (m : DecodedMessage)
      → f.synced ≡ false
      → kind_is_snapshot k ≡ false
      → Frozen f (Feed.dispatch I D k f m)
  unfolding Feed.dispatch Feed.count_ignored Feed.venue_error Feed.reject Feed.apply_update
  dispatch-Frozen MessageKind.ignored f m h n = ground arith
  dispatch-Frozen MessageKind.venue_error f m h n = ground arith
  dispatch-Frozen MessageKind.snapshot f m h n = ground arith
  dispatch-Frozen MessageKind.update f m h n = ground arith

  handle-Frozen :
      (f : F) (m : DecodedMessage)
      → f.synced ≡ false
      → is_snapshot m ≡ false
      → Frozen f (Feed.handle_message I D f m)
  unfolding Feed.handle_message Feed.reject
  handle-Frozen f m h n = elim (Bool-cases (is_ok m)) [
    | inl e ↦ rw e (dispatch-Frozen m.kind f m h (rw e at n))
    | inr e ↦ rw e (refl, refl, refl, λ p. cc)
  ]

  -- One frame through the whole of `handle`.
  abbrev decoded : F → List ℕ → DecodedMessage
  decoded f frame = (D.decode f.decoder frame).1

  pub run : F → List (List ℕ) → F
  run f [] = f
  run f (x ∷ xs) = run (Feed.handle I D f x).0 xs

  -- No frame of the list decodes to a snapshot, as the decoder's state moves on.
  abbrev pub NoSnapshot : D.State → List (List ℕ) → Type 0
  NoSnapshot d [] = Unit {0}
  NoSnapshot d (x ∷ xs) = (is_snapshot (D.decode d x).1 ≡ false) × NoSnapshot (D.decode d x).0 xs

  dispatch-decoder :
      (k : MessageKind) (f : F) (m : DecodedMessage)
      → f.synced ≡ false
      → kind_is_snapshot k ≡ false
      → (Feed.dispatch I D k f m).0.decoder ≡ f.decoder
  unfolding Feed.dispatch Feed.count_ignored Feed.venue_error Feed.reject Feed.apply_update
  dispatch-decoder MessageKind.ignored f m h n = ground arith
  dispatch-decoder MessageKind.venue_error f m h n = ground arith
  dispatch-decoder MessageKind.snapshot f m h n = ground arith
  dispatch-decoder MessageKind.update f m h n = ground arith

  handle-decoder :
      (f : F) (m : DecodedMessage)
      → f.synced ≡ false
      → is_snapshot m ≡ false
      → (Feed.handle_message I D f m).0.decoder ≡ f.decoder
  unfolding Feed.handle_message Feed.reject
  handle-decoder f m h n = elim (Bool-cases (is_ok m)) [
    | inl e ↦ rw e (dispatch-decoder m.kind f m h (rw e at n))
    | inr e ↦ rw e
  ]

  -- A feed that is not synced neither changes its book nor becomes synced, whatever frames arrive,
  -- as long as none of them decodes to a snapshot.
  pub run_unsynced :
      (f : F) (frames : List (List ℕ))
      → f.synced ≡ false
      → NoSnapshot f.decoder frames
      → ((run f frames).book ≡ f.book) × ((run f frames).synced ≡ false)
  unfolding run Feed.handle
  run_unsynced f [] h n = (refl, h)
  run_unsynced f (x ∷ xs) h (n, ns) =
      let (b, s, _, _) = handle-Frozen g (decoded f x) h n in
      let (b', s') =
        run_unsynced (Feed.handle_message I D g (decoded f x)).0 xs (s ∙ h)
          (subst (λ d. NoSnapshot d xs) (sym (handle-decoder g (decoded f x) h n)) ns) in
      (b' ∙ b, s')
    where
      g : F
      g = record f {
        decoder = (D.decode f.decoder x).0;
        stats = record (f.stats) { frames = Sequence.inc64 f.stats.frames };
      }

  -- What a checksum that came with the message says of the book.
  abbrev pub Agrees : F → DecodedMessage → Type 0
  Agrees f m = (m.has_checksum ≡ false) ⊎ (kraken_checksum I f.book ≡ m.checksum)

  -- What each answer of a step that runs the final check means.
  abbrev Checked : DecodedMessage → F × FeedStatus → Type 0
  Checked m (g, s) =
      ((s ≡ applied) × (g.synced ≡ true) × Agrees g m) ⊎ ((s ≡ needs_snapshot) × (g.synced ≡ false))

  verified-Checked :
      (f : F) (m : DecodedMessage)
      → f.synced ≡ true
      → Checked m (
          if (Feed.verify_checksum I D f m).1
          then ((Feed.verify_checksum I D f m).0, applied)
          else Feed.request_resync I D (Feed.verify_checksum I D f m).0)
  unfolding Feed.verify_checksum Feed.request_resync
  verified-Checked f m h = elim (Bool-cases (kraken_checksum I f.book == m.checksum)) [
    | inl e ↦ rw e (inl (refl, h, inr ((==_iff _ _).0 e)))
    | inr e ↦ rw e (inr (refl, refl))
  ]

  check-Checked : (f : F) (m : DecodedMessage) → f.synced ≡ true → Checked m (Feed.check I D f m)
  unfolding Feed.check
  check-Checked f m h =
      if_cases (Checked m) m.has_checksum
        (if (Feed.verify_checksum I D f m).1
          then ((Feed.verify_checksum I D f m).0, applied)
          else Feed.request_resync I D (Feed.verify_checksum I D f m).0)
        (f, applied) (λ _. verified-Checked f m h) (λ c. inl (refl, h, inl c))

  apply_levels-synced :
      (f : F) (m : DecodedMessage) (ls : List LevelUpdate)
      → (Feed.apply_levels I D f m ls).synced ≡ f.synced
  unfolding Feed.apply_levels
  apply_levels-synced f m [] = refl
  apply_levels-synced f m (l ∷ ls) = apply_levels-synced (Feed.apply_level I D f m l) m ls ∙ one f l
    where
      one : (g : F) (k : LevelUpdate) → (Feed.apply_level I D g m k).synced ≡ g.synced
      one g k =
          unfold Feed.apply_level in
          elim (Bool-cases (L2.apply I g.book k.side k.price k.qty).1) [
            | inl e ↦ rw e
            | inr e ↦ rw e
          ]

  -- What each answer of `handle` promises of the feed that it leaves.
  abbrev pub Answered : F → DecodedMessage → F × FeedStatus → Type 0
  Answered f m (g, s) =
      ((s ≡ applied) × (g.synced ≡ true) × Agrees g m)
      ⊎ ((s ≡ needs_snapshot) × (g.synced ≡ false))
      ⊎ (((s ≡ ignored) ⊎ (s ≡ rejected)) × (g.book ≡ f.book) × (g.synced ≡ f.synced))

  Checked-Answered :
      (f : F) (m : DecodedMessage) (r : F × FeedStatus) → Checked m r → Answered f m r
  Checked-Answered f m (g, s) (inl h) = inl h
  Checked-Answered f m (g, s) (inr h) = inr (inl h)

  continue_update-Answered :
      (f g : F) (m : DecodedMessage) → f.synced ≡ true → Answered g m (Feed.continue_update I D f m)
  unfolding Feed.continue_update Feed.count_applied Feed.settle
  continue_update-Answered f g m h =
      Checked-Answered g m (Feed.continue_update I D f m)
        (check-Checked _ m (apply_levels-synced f m m.levels ∙ h))

  act-Answered :
      (a : SequenceAction) (f g : F) (m : DecodedMessage)
      → f.synced ≡ true
      → f.synced ≡ g.synced
      → f.book ≡ g.book
      → Answered g m (Feed.act I D a f m)
  unfolding Feed.act Feed.count_ignored
  act-Answered discard_stale f g m h e b = inr (inr (inl refl, b, e))
  act-Answered resync_required f g m h e b = unfold Feed.request_resync in inr (inl (refl, refl))
  act-Answered apply f g m h e b = continue_update-Answered f g m h

  apply_update-Answered : (f : F) (m : DecodedMessage) → Answered f m (Feed.apply_update I D f m)
  unfolding Feed.apply_update
  apply_update-Answered f m =
      if_cases (Answered f m) (not f.synced) (f, needs_snapshot) _
        (λ e. inr (inl (refl, not-true f.synced e)))
        λ e.
          if_cases (Answered f m) m.has_ids _ (Feed.continue_update I D f m)
            (λ _.
              act-Answered (Sequence.on_update f.tracker m.ids).1 _ f m (not-false f.synced e) refl
                refl)
            (λ _. continue_update-Answered f f m (not-false f.synced e))

  apply_snapshot-Answered :
      (f : F) (m : DecodedMessage) → Answered f m (Feed.apply_snapshot I D f m)
  unfolding Feed.apply_snapshot Feed.reject Feed.mark_synced
  apply_snapshot-Answered f m =
      if_cases (Answered f m) (not (is_ok m)) _ (Feed.check I D g m)
        (λ _. inr (inr (inr refl, refl, refl)))
        (λ _. Checked-Answered f m (Feed.check I D g m) (check-Checked g m refl))
    where
      g : F
      g =
          Feed.mark_synced I D
            (Feed.settle I D
              (Feed.apply_levels I D (record f { book = L2.clear I f.book }) m m.levels) m)
            m

  dispatch-Answered :
      (k : MessageKind) (f : F) (m : DecodedMessage) → Answered f m (Feed.dispatch I D k f m)
  unfolding Feed.dispatch Feed.count_ignored Feed.venue_error Feed.reject
  dispatch-Answered MessageKind.ignored f m = inr (inr (inl refl, refl, refl))
  dispatch-Answered MessageKind.venue_error f m = inr (inr (inr refl, refl, refl))
  dispatch-Answered MessageKind.snapshot f m = apply_snapshot-Answered f m
  dispatch-Answered MessageKind.update f m = apply_update-Answered f m

  -- What `handle` answers to a decoded message, on every branch. Either it answers `applied`, the
  -- feed is synced, and if the message carried a checksum the local checksum of the book equals
  -- it; or it answers `needs_snapshot` and the feed is not synced; or it answers `ignored` or
  -- `rejected`, and the book and the synced flag are as they were.
  pub handle_message-Answered :
      (f : F) (m : DecodedMessage) → Answered f m (Feed.handle_message I D f m)
  unfolding Feed.handle_message Feed.reject
  handle_message-Answered f m = elim (Bool-cases (is_ok m)) [
    | inl e ↦ rw e (dispatch-Answered m.kind f m)
    | inr e ↦ rw e (inr (inr (inr refl, refl, refl)))
  ]
