-- ===== src/Net/Reader/Failure.antt =====
-- `next` returns, and what becomes of a stream that it has refused.
use crossbook.Common.{ℕ, ◌≡◌, ◌⊎◌, refl, sym, ap, ◌∙◌, arith}
use crossbook.Common.{Bool, true, false, List, [], ◌∷◌, Option, none, some}
use crossbook.Common.{length, All, subst}
use crossbook.Net.Frame.{is_control}
use crossbook.Net.Reader.{ReadStatus, protocol_error, message_too_large}
use crossbook.Net.Reader.{FrameReader, Event, Answer, has_failed, next}
use crossbook.Net.Reader.{consume_pending}
use crossbook.Net.Reader.{append, compact, reclaim}

-- The answers after which the connection is to be closed.
abbrev pub is_refusal : ReadStatus → Bool
is_refusal protocol_error = true
is_refusal message_too_large = true
is_refusal _ = false

-- A refusal is latched, unless it is that of a close frame whose payload is one byte.
abbrev pub Settled : Answer → Type 0
Settled (r, s, e) =
    (is_refusal s ≡ false)
    ⊎ (r.failure ≡ s)
    ⊎ ((s ≡ protocol_error) × (is_control e.opcode ≡ true) × (length e.payload ≡ 1))

abbrev pub Returns : Option Answer → Type 0
Returns o = (a : Answer) × (o ≡ some a) × Settled a

-- What a caller does with a reader: hand it bytes, or pull an event.
pub data Call : Type 0 where
  receive : List ℕ → Call
  pull : Call

abbrev after : Option Answer → (Answer → List ReadStatus) → List ReadStatus
after none k = []
after (some (r, s, e)) k = s ∷ k (r, s, e)

-- The answers to the pulls.
unfoldable pub answers : FrameReader → Event → List Call → List ReadStatus
answers r out [] = []
answers r out (receive bytes ∷ cs) = answers (append r bytes) out cs
answers r out (pull ∷ cs) = after (next r out) (λ a. answers a.0 a.2 cs)

append-failure : (r : FrameReader) (bytes : List ℕ) → (append r bytes).failure ≡ r.failure
unfolding append compact reclaim consume_pending
append-failure r bytes = ground arith

next-failed :
    (r : FrameReader) (out : Event)
    → has_failed r.failure ≡ true
    → next r out ≡ some (r, r.failure, out)
unfolding next
next-failed r out h = rw h

-- A reader that has latched a failure answers every later pull with that failure, whatever bytes
-- arrive in between.
pub answers-failure :
    (r : FrameReader) (out : Event) (cs : List Call)
    → has_failed r.failure ≡ true
    → All (λ (s : ReadStatus). s ≡ r.failure) (answers r out cs)
unfolding answers
answers-failure r out [] h = tt
answers-failure r out (receive bytes ∷ cs) h =
    subst (λ f. All (λ (s : ReadStatus). s ≡ f) (answers (append r bytes) out cs))
      (append-failure r bytes)
      (answers-failure (append r bytes) out cs (ap has_failed (append-failure r bytes) ∙ h))
answers-failure r out (pull ∷ cs) h =
    subst (λ o. All (λ (s : ReadStatus). s ≡ r.failure) (after o (λ a. answers a.0 a.2 cs)))
      (sym (next-failed r out h)) (refl, answers-failure r out cs h)
