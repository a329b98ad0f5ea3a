-- ===== src/Net/Frame.antt =====
-- The frame header codec of include/crossbook/net/ws_frame.hpp. Bytes are numbers below 256; a mask
-- is spelled out with division where the source writes shifts and masks. `kOk` with its header,
-- `kIncomplete` and `kProtocolError` are the three results of the parser. Machines are
-- little-endian, which fixes the bytes of a mask key.
pub mod RoundTrip
pub mod Bounds
mod Tests
use crossbook.Common.{ℕ, zero, suc, ◌+◌, ◌*◌, ◌/◌, ◌%◌, ◌^◌}
use crossbook.Common.{Bool, not, ◌&&◌, ◌||◌, List, [], ◌∷◌, ◌++◌, Option, none, some}
use crossbook.Common.{if◌then◌else◌, ltb, leb, ◌==◌}

pub data Opcode : Type 0 where
  continuation text binary close ping pong : Opcode

-- The value of an enumerator, and `is_known_opcode` with the cast behind it.
abbrev pub code : Opcode → ℕ
code continuation = 0x0
code text = 0x1
code binary = 0x2
code close = 0x8
code ping = 0x9
code pong = 0xA

abbrev pub known_opcode : ℕ → Option Opcode
known_opcode raw =
    if raw == 0x0
    then some continuation
    else if raw == 0x1
    then some text
    else if raw == 0x2
    then some binary
    else if raw == 0x8
    then some close
    else if raw == 0x9
    then some ping
    else if raw == 0xA
    then some pong
    else none

-- `(op & 0x08) != 0`.
abbrev pub is_control : Opcode → Bool
is_control op = not (code op / 8 % 2 == 0)

abbrev pub max_control_payload : ℕ
max_control_payload = 125

abbrev pub max_header_size : ℕ
max_header_size = 14

pub record FrameHeader : Type 0 where
  pub opcode : Opcode
  pub payload_len : ℕ
  pub mask_key : ℕ
  pub header_size : ℕ
  pub fin : Bool
  pub masked : Bool

pub data FrameResult : Type 0 where
  ok : FrameHeader → FrameResult
  incomplete protocol_error : FrameResult

-- The length field: its value, how many bytes it takes behind the first two, and what follows it.
pub data Field : Type 0 where
  field : ℕ → ℕ → List ℕ → Field
  short illegal : Field

-- The loop over eight bytes, on uint64_t.
unfoldable pub load_be : ℕ → ℕ → List ℕ → Option (ℕ × List ℕ)
load_be acc zero cs = some (acc, cs)
load_be acc (suc n) [] = none
load_be acc (suc n) (c ∷ cs) = load_be ((acc * 2 ^ 8 + c) % 2 ^ 64) n cs

abbrev check_long : Option (ℕ × List ℕ) → Field
check_long none = short
check_long (some (len, cs)) = if leb (2 ^ 63) len || ltb len 65536 then illegal else field len 8 cs

abbrev pub read_word : List ℕ → Field
read_word [] = short
read_word (b ∷ []) = short
read_word (b ∷ c ∷ rest) = if ltb (b * 2 ^ 8 + c) 126 then illegal else field (b * 2 ^ 8 + c) 2 rest

unfoldable pub read_length : ℕ → List ℕ → Field
unfolding load_be
read_length short_len cs =
    if ltb short_len 126
    then field short_len 0 cs
    else if short_len == 126
    then read_word cs
    else check_long (load_be 0 8 cs)

-- The four bytes of the key, which are read behind the length if the frame is masked.
unfoldable pub read_mask : FrameHeader → ℕ → List ℕ → FrameResult
read_mask h pos (b0 ∷ b1 ∷ b2 ∷ b3 ∷ cs) =
    ok (record h { mask_key = b0 + b1 * 2 ^ 8 + b2 * 2 ^ 16 + b3 * 2 ^ 24; header_size = pos + 4 })
read_mask h pos _ = incomplete

-- What follows the length field.
unfoldable pub finish_header : Opcode → Bool → Bool → Field → FrameResult
unfolding read_mask
finish_header op fin masked short = incomplete
finish_header op fin masked illegal = protocol_error
finish_header op fin masked (field len used cs) =
    if is_control op && (not fin || ltb max_control_payload len)
    then protocol_error
    else if masked
    then read_mask header (2 + used) cs
    else ok header
  where
    header : FrameHeader
    header = record {
      opcode = op;
      payload_len = len;
      mask_key = 0;
      header_size = 2 + used;
      fin = fin;
      masked = masked;
    }

abbrev pub high_bit : ℕ → Bool
high_bit b = not (b / 128 % 2 == 0)

unfoldable pub parse_frame_header : List ℕ → FrameResult
unfolding read_length finish_header
parse_frame_header [] = incomplete
parse_frame_header (b0 ∷ []) = incomplete
parse_frame_header (b0 ∷ b1 ∷ cs) =
    if not (b0 / 16 % 8 == 0) then protocol_error else elim (known_opcode (b0 % 16)) [
      | none ↦ protocol_error
      | some op ↦ finish_header op (high_bit b0) (high_bit b1) (read_length (b1 % 128) cs)
    ]

-- `(payload_len >> shift) & 0xFF` for the shifts from 8 * (n - 1) down to 0.
pub write_be : ℕ → ℕ → List ℕ
write_be zero len = []
write_be (suc n) len = len / 2 ^ (8 * n) % 256 ∷ write_be n len

-- The length byte with the mask bit set, and the extended length.
pub write_length : ℕ → List ℕ
unfolding write_be
write_length len =
    if ltb len 126
    then (0x80 + len) ∷ []
    else if leb len 0xFFFF
    then (0x80 + 126) ∷ write_be 2 len
    else (0x80 + 127) ∷ write_be 8 len

-- The key as it lies in memory.
abbrev pub key_bytes : ℕ → List ℕ
key_bytes k = k % 256 ∷ k / 2 ^ 8 % 256 ∷ k / 2 ^ 16 % 256 ∷ k / 2 ^ 24 % 256 ∷ []

abbrev pub first_byte : Opcode → Bool → ℕ
first_byte op fin = (if fin then 0x80 else 0) + code op

pub write_frame_header : Opcode → ℕ → ℕ → Bool → List ℕ
unfolding write_length
write_frame_header op len mask_key fin =
    first_byte op fin ∷ (write_length len ++ key_bytes mask_key)
