-- ===== src/Net/Reader/Tests.antt =====
-- Concrete runs of the reader, and its theorems at concrete inputs.
use crossbook.Common.{ℕ, ◌≡◌, refl, false, List, [], ◌∷◌, All}
use crossbook.Net.Frame.{text, parse_frame_header}
use crossbook.Net.Reader.{ReadStatus, need_more, message, protocol_error, Event, plain, compact}
use crossbook.Net.Reader.{reader, append, writable_tail, commit, reset, failed, next, latch}
use crossbook.Net.Reader.Failure.{receive, pull, answers, answers-failure}

abbrev no_event : Event
no_event = plain text []

-- Two fragments of a text with a ping between them.
abbrev fragments : List ℕ
fragments = 0x01 ∷ 2 ∷ b'h' ∷ b'e' ∷ 0x89 ∷ 0 ∷ 0x80 ∷ 1 ∷ b'y' ∷ []

fragments_pulled :
    answers (reader 100) no_event (receive fragments ∷ pull ∷ pull ∷ pull ∷ [])
    ≡ ReadStatus.ping ∷ message ∷ need_more ∷ []
unfolding answers reader append next compact parse_frame_header
fragments_pulled = refl

-- A close frame with one byte is refused, but the refusal is not latched: the next pull goes on.
one_byte_close :
    answers (reader 100) no_event (receive (0x88 ∷ 1 ∷ 3 ∷ []) ∷ pull ∷ pull ∷ [])
    ≡ protocol_error ∷ need_more ∷ []
unfolding answers reader append next compact parse_frame_header
one_byte_close = refl

tail_committed : (commit (writable_tail (reader 100) (1 ∷ 2 ∷ 3 ∷ [])) 1 3).buf ≡ 1 ∷ []
unfolding commit writable_tail reader append compact
tail_committed = refl

reset_works : failed (reset (latch (reader 100) protocol_error no_event).0) ≡ false
unfolding failed reset
reset_works = refl

answers-failure_example :
    All
      (λ (s : ReadStatus). s ≡ protocol_error)
      (answers
        (latch (reader 100) protocol_error no_event).0
        no_event
        (receive (1 ∷ []) ∷ pull ∷ []))
unfolding latch reader
answers-failure_example =
    answers-failure (latch (reader 100) protocol_error no_event).0 no_event
      (receive (1 ∷ []) ∷ pull ∷ []) refl
