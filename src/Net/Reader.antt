-- ===== src/Net/Reader.antt =====
-- `FrameReader` of include/crossbook/net/ws_frame.hpp: bytes in, messages out. A view into a buffer
-- is the bytes that it shows at that time; `control_` with `control_len_` is a list. The event that
-- the caller passes by reference is an argument and a result. Reserved capacity is left out.
pub mod Failure
mod Tests
use crossbook.Common.{ℕ, zero, suc, ◌+◌, ◌-◌, ◌*◌, ◌%◌, ◌^◌}
use crossbook.Common.{Bool, true, false, not, ◌&&◌, ◌||◌, List, [], ◌∷◌, ◌++◌, Option, none, some}
use crossbook.Common.{if◌then◌else◌, ltb, ◌==◌, length, take, drop}
use crossbook.Net.Frame.{Opcode, continuation, text, is_control, FrameHeader, FrameResult, ok}
use crossbook.Net.Frame.{incomplete, parse_frame_header}

pub data ReadStatus : Type 0 where
  need_more message ping pong close protocol_error message_too_large : ReadStatus

pub record Event : Type 0 where
  pub opcode : Opcode
  pub payload : List ℕ
  pub close_code : ℕ

-- CloseCode::kNoStatus.
abbrev pub no_status : ℕ
no_status = 1005

pub record FrameReader : Type 0 where
  pub max_message_bytes : ℕ
  pub buf : List ℕ
  pub assembled : List ℕ
  pub control : List ℕ
  pub read_pos : ℕ
  pub pending_consume : ℕ
  pub failure : ReadStatus
  pub message_opcode : Opcode
  pub pending_clear_assembled : Bool
  pub assembling : Bool

pub reader : ℕ → FrameReader
reader max_message_bytes = record {
  max_message_bytes = max_message_bytes;
  buf = [];
  assembled = [];
  control = [];
  read_pos = 0;
  pending_consume = 0;
  failure = need_more;
  message_opcode = text;
  pending_clear_assembled = false;
  assembling = false;
}

-- `failure_ != kNeedMore`.
abbrev pub has_failed : ReadStatus → Bool
has_failed need_more = false
has_failed _ = true

pub failed : FrameReader → Bool
failed r = has_failed r.failure

pub consume_pending : FrameReader → FrameReader
consume_pending r = record r {
  read_pos = r.read_pos + r.pending_consume;
  pending_consume = 0;
  assembled = if r.pending_clear_assembled then [] else r.assembled;
  pending_clear_assembled = false;
}

abbrev pub compact_threshold : ℕ
compact_threshold = 32 * 1024

-- What `compact` does behind `consume_pending`.
pub reclaim : FrameReader → FrameReader
reclaim r =
    if r.read_pos == 0
    then r
    else if r.read_pos == length r.buf
    then record r { buf = []; read_pos = 0 }
    else if ltb r.read_pos compact_threshold
    then r
    else record r { buf = drop r.read_pos r.buf; read_pos = 0 }

pub compact : FrameReader → FrameReader
unfolding consume_pending reclaim
compact r = reclaim (consume_pending r)

pub append : FrameReader → List ℕ → FrameReader
append r bytes = record c { buf = c.buf ++ bytes }
  where
    c : FrameReader
    c = compact r

-- `writable_tail`, with the bytes that stand in the tail once the caller has written it; and
-- `commit`.
pub writable_tail : FrameReader → List ℕ → FrameReader
writable_tail r tail = append r tail

pub commit : FrameReader → ℕ → ℕ → FrameReader
commit r written requested = record r { buf = take (length r.buf - (requested - written)) r.buf }

pub reset : FrameReader → FrameReader
reset r = record r {
  buf = [];
  assembled = [];
  read_pos = 0;
  pending_consume = 0;
  pending_clear_assembled = false;
  assembling = false;
  failure = need_more;
}

abbrev pub Answer : Type 0
Answer = FrameReader × ReadStatus × Event

pub latch : FrameReader → ReadStatus → Event → Answer
latch r status out = (record r { failure = status }, status, out)

abbrev pub plain : Opcode → List ℕ → Event
plain op payload = record { opcode = op; payload = payload; close_code = no_status }

-- The close payload: empty, or a two-byte code and what follows it. One byte is malformed.
abbrev pub emit_close : FrameReader → Opcode → List ℕ → Answer
emit_close r op [] = (r, close, plain op [])
emit_close r op (b ∷ []) = (r, protocol_error, plain op (b ∷ []))
emit_close r op (b ∷ c ∷ cs) = (r, close, record (plain op cs) { close_code = b * 2 ^ 8 + c })

abbrev pub emit_control : FrameReader → Opcode → List ℕ → Answer
emit_control r Opcode.ping payload =
    (record r { control = payload }, ping, plain Opcode.ping payload)
emit_control r Opcode.pong payload =
    (record r { control = payload }, pong, plain Opcode.pong payload)
emit_control r op payload = emit_close (record r { control = payload }) op payload

abbrev is_continuation : Opcode → Bool
is_continuation continuation = true
is_continuation _ = false

abbrev frame_total : FrameHeader → ℕ
frame_total h = h.header_size + h.payload_len

-- `message_opcode_`, which a data frame that is no continuation sets.
abbrev opened : FrameReader → FrameHeader → FrameReader
opened r h = record r {
  message_opcode = if is_continuation h.opcode then r.message_opcode else h.opcode;
}

-- A fragment joins the message under assembly.
abbrev joined : FrameReader → FrameHeader → List ℕ → FrameReader
joined r h payload = record (opened r h) {
  assembled = r.assembled ++ payload;
  assembling = true;
  read_pos = r.read_pos + frame_total h;
}

abbrev view : FrameReader → List ℕ
view r = drop r.read_pos r.buf

abbrev payload_of : FrameReader → FrameHeader → List ℕ
payload_of r h = take h.payload_len (drop h.header_size (view r))

-- A data frame; `again` is what the loop answers after it.
deliver_data : Option Answer → FrameReader → FrameHeader → List ℕ → Option Answer
deliver_data again r h payload =
    if h.fin && not r.assembling
    then some (
      record (opened r h) { pending_consume = frame_total h },
      message,
      plain (opened r h).message_opcode payload,
    )
    else if h.fin
    then some (
      record (joined r h payload) { assembling = false; pending_clear_assembled = true },
      message,
      plain (opened r h).message_opcode (r.assembled ++ payload),
    )
    else again

-- A complete frame.
deliver : Option Answer → FrameReader → FrameHeader → List ℕ → Event → Option Answer
unfolding deliver_data latch
deliver again r h payload out =
    if is_control h.opcode
    then some (emit_control (record r { read_pos = r.read_pos + frame_total h }) h.opcode payload)
    else if is_continuation h.opcode
    then if not r.assembling
      then some (latch r protocol_error out)
      else deliver_data again r h payload
    else if r.assembling
    then some (latch r protocol_error out)
    else deliver_data again r h payload

-- A header that was read.
on_header : Option Answer → FrameReader → FrameHeader → Event → Option Answer
unfolding deliver latch
on_header again r h out =
    if h.masked
    then some (latch r protocol_error out)
    else if ltb r.max_message_bytes h.payload_len
        || ltb r.max_message_bytes ((length r.assembled + h.payload_len) % 2 ^ 64)
    then some (latch r message_too_large out)
    else if ltb (length (view r)) (frame_total h)
    then some (r, need_more, out)
    else deliver again r h (payload_of r h) out

on_parsed : (FrameHeader → Option Answer) → FrameReader → FrameResult → Event → Option Answer
unfolding on_header latch
on_parsed again r incomplete out = some (r, need_more, out)
on_parsed again r FrameResult.protocol_error out = some (latch r protocol_error out)
on_parsed again r (ok h) out = on_header (again h) r h out

-- The `for (;;)` of `next` on fuel; `none` means that the fuel ran out.
next_loop : ℕ → FrameReader → Event → Option Answer
unfolding on_parsed
next_loop zero r out = none
next_loop (suc fuel) r out =
    on_parsed (λ h. next_loop fuel (joined r h (payload_of r h)) out) r
      (parse_frame_header (view r)) out

-- Each round of the loop consumes bytes of the buffer.
pub next : FrameReader → Event → Option Answer
unfolding next_loop
next r out =
    if has_failed r.failure
    then some (r, r.failure, out)
    else next_loop (suc (length r.buf)) (consume_pending r) out
