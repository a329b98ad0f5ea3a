-- ===== src/Net/Frame/Tests.antt =====
-- Concrete runs of the header codec, and its theorems at concrete inputs.
use crossbook.Common.{ℕ, ◌≡◌, ◌++◌, refl, arith, true, false, List, [], ◌∷◌, length}
use crossbook.Net.Frame.{text, ok, protocol_error}
use crossbook.Net.Frame.{parse_frame_header, write_frame_header}
use crossbook.Net.Frame.RoundTrip.{parse_frame_header-write_frame_header}
use crossbook.Net.Frame.Bounds.{IsSound, parse_frame_header-IsSound}

-- A text frame of five bytes from a server.
server_text :
    parse_frame_header (0x81 ∷ 5 ∷ [])
    ≡ ok (record {
      opcode = text;
      payload_len = 5;
      mask_key = 0;
      header_size = 2;
      fin = true;
      masked = false;
    })
unfolding parse_frame_header
server_text = refl

-- A length of five in the two-byte form is refused.
padded_length : parse_frame_header (0x81 ∷ 126 ∷ 0 ∷ 5 ∷ []) ≡ protocol_error
unfolding parse_frame_header
padded_length = refl

fragmented_ping : parse_frame_header (0x09 ∷ 0 ∷ []) ≡ protocol_error
unfolding parse_frame_header
fragmented_ping = refl

parse_frame_header-write_frame_header_example :
    parse_frame_header (write_frame_header text 300 0xDEADBEEF true ++ 1 ∷ 2 ∷ [])
    ≡ ok (record {
      opcode = text;
      payload_len = 300;
      mask_key = 0xDEADBEEF;
      header_size = length (write_frame_header text 300 0xDEADBEEF true);
      fin = true;
      masked = true;
    })
parse_frame_header-write_frame_header_example =
    parse_frame_header-write_frame_header text 300 0xDEADBEEF true (1 ∷ 2 ∷ []) (omega arith)
      (omega arith) refl

-- A masked text frame of 300 bytes, as far as its key.
abbrev masked_text : List ℕ
masked_text = 0x81 ∷ 0xFE ∷ 1 ∷ 44 ∷ 1 ∷ 2 ∷ 3 ∷ 4 ∷ []

parse_frame_header-IsSound_example : IsSound masked_text (parse_frame_header masked_text)
parse_frame_header-IsSound_example = parse_frame_header-IsSound masked_text (omega arith)
