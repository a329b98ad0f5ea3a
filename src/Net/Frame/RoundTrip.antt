-- ===== src/Net/Frame/RoundTrip.antt =====
-- A header that was written is read back.
use crossbook.Common.{ℕ, ◌+◌, ◌*◌, ◌/◌, ◌%◌, ◌^◌, ◌≤◌, ◌<◌, ◌≡◌, inl, inr, refl, ap, ◌∙◌, arith}
use crossbook.Common.{Bool, true, false, not, ◌&&◌, ◌||◌, List, [], ◌∷◌, ◌++◌, some, Bool-cases}
use crossbook.Common.{if◌then◌else◌, ltb, leb, length, lt→ltb, le→ltb, append_assoc, length-append}
use crossbook.Common.{not-true, lt→leb}
use crossbook.Net.Frame.{Opcode, continuation, text, binary, close, ping, pong, is_control}
use crossbook.Net.Frame.{FrameResult, ok, field, load_be, read_length, read_mask}
use crossbook.Net.Frame.{
  finish_header, high_bit, parse_frame_header, write_be, write_length, key_bytes,
}
use crossbook.Net.Frame.{first_byte, write_frame_header}

-- How many bytes the length takes behind the first two.
abbrev pub extra : ℕ → ℕ
extra len = if ltb len 126 then 0 else if leb len 0xFFFF then 2 else 8

long_value : (n : ℕ) (cs : List ℕ) → n < 2 ^ 63 → load_be 0 8 (write_be 8 n ++ cs) ≡ some (n, cs)
unfolding load_be write_be
long_value n cs h = ap (λ k. some (k, cs)) (omega arith)

-- The parser's view of the bytes behind the first one.
parse_rest : Opcode → Bool → List ℕ → FrameResult
parse_rest op fin [] = FrameResult.incomplete
parse_rest op fin (b ∷ cs) = finish_header op fin (high_bit b) (read_length (b % 128) cs)

first_byte-parse :
    (op : Opcode) (fin : Bool) (b : ℕ) (cs : List ℕ)
    → parse_frame_header (first_byte op fin ∷ b ∷ cs) ≡ parse_rest op fin (b ∷ cs)
unfolding parse_frame_header parse_rest
first_byte-parse continuation true b cs = refl
first_byte-parse continuation false b cs = refl
first_byte-parse text true b cs = refl
first_byte-parse text false b cs = refl
first_byte-parse binary true b cs = refl
first_byte-parse binary false b cs = refl
first_byte-parse close true b cs = refl
first_byte-parse close false b cs = refl
first_byte-parse ping true b cs = refl
first_byte-parse ping false b cs = refl
first_byte-parse pong true b cs = refl
first_byte-parse pong false b cs = refl

length_bits : (n : ℕ) → n < 128 → (128 + n) % 128 ≡ n
length_bits n h = omega arith

word_value : (n : ℕ) → n < 65536 → n / 2 ^ 8 % 256 * 2 ^ 8 + n / 2 ^ 0 % 256 ≡ n
word_value n h = omega arith

high_bit_set : (n : ℕ) → n < 128 → high_bit (128 + n) ≡ true
high_bit_set n h = ground arith

short_length :
    (op : Opcode) (fin : Bool) (n : ℕ) (cs : List ℕ)
    → n < 126
    → parse_rest op fin ((128 + n) ∷ cs) ≡ finish_header op fin true (field n 0 cs)
unfolding parse_rest read_length
short_length op fin n cs h =
    rw (high_bit_set n (omega arith), length_bits n (omega arith), lt→ltb n 126 h)

word_length :
    (op : Opcode) (fin : Bool) (n : ℕ) (cs : List ℕ)
    → 126 ≤ n
    → n < 65536
    → parse_rest op fin (254 ∷ (write_be 2 n ++ cs)) ≡ finish_header op fin true (field n 2 cs)
unfolding parse_rest read_length write_be
word_length op fin n cs h k = rw (word_value n k, le→ltb n 126 h)

long_length :
    (op : Opcode) (fin : Bool) (n : ℕ) (cs : List ℕ)
    → 65536 ≤ n
    → n < 2 ^ 63
    → parse_rest op fin (255 ∷ (write_be 8 n ++ cs)) ≡ finish_header op fin true (field n 8 cs)
unfolding parse_rest read_length
long_length op fin n cs h k = rw (long_value n cs k, lt→leb n (2 ^ 63) k, le→ltb n 65536 h)

write_length-parse :
    (op : Opcode) (fin : Bool) (n : ℕ) (cs : List ℕ)
    → n < 2 ^ 63
    → parse_rest op fin (write_length n ++ cs) ≡ finish_header op fin true (field n (extra n) cs)
unfolding write_length
write_length-parse op fin n cs h = elim (Bool-cases (ltb n 126)) [
  | inl a ↦ rw a (short_length op fin n cs (ground arith))
  | inr a ↦ elim (Bool-cases (leb n 0xFFFF)) [
    | inl b ↦ rw (a, b) (word_length op fin n cs (ground arith) (ground arith))
    | inr b ↦ rw (a, b) (long_length op fin n cs (ground arith) h)
  ]
]

key_value :
    (k : ℕ)
    → k < 2 ^ 32
    → k % 256 + k / 2 ^ 8 % 256 * 2 ^ 8 + k / 2 ^ 16 % 256 * 2 ^ 16 + k / 2 ^ 24 % 256 * 2 ^ 24 ≡ k
key_value k h = omega arith

first_byte-rest :
    (op : Opcode) (fin : Bool) (cs : List ℕ)
    → parse_frame_header (first_byte op fin ∷ cs) ≡ parse_rest op fin cs
unfolding parse_frame_header parse_rest
first_byte-rest op fin [] = refl
first_byte-rest op fin (b ∷ cs) = first_byte-parse op fin b cs

length-write_length : (n : ℕ) → length (write_length n) ≡ 1 + extra n
unfolding write_length write_be
length-write_length n = elim (Bool-cases (ltb n 126)) [
  | inl a ↦ rw a
  | inr a ↦ elim (Bool-cases (leb n 0xFFFF)) [ inl b ↦ rw (a, b) | inr b ↦ rw (a, b) ]
]

-- A control frame must not be a fragment, nor longer than 125 bytes.
abbrev pub is_legal : Opcode → ℕ → Bool → Bool
is_legal op n fin = not (is_control op && (not fin || ltb 125 n))

finish_header-key :
    (op : Opcode) (n key used : ℕ) (fin : Bool) (cs : List ℕ)
    → key < 2 ^ 32
    → is_legal op n fin ≡ true
    → finish_header op fin true (field n used (key_bytes key ++ cs))
      ≡ ok (record {
        opcode = op;
        payload_len = n;
        mask_key = key;
        header_size = 2 + used + 4;
        fin = fin;
        masked = true;
      })
unfolding finish_header read_mask
finish_header-key op n key used fin cs k l =
    rw (not-true (is_control op && (not fin || ltb 125 n)) l, key_value key k)

-- A header that `write_frame_header` wrote is read back by `parse_frame_header` as it was, whatever
-- bytes follow it: for every opcode, payload lengths below 2 ^ 63, keys of 32 bits, and control
-- frames that are whole and at most 125 bytes long. The size that is read is the number of bytes
-- that were written.
pub parse_frame_header-write_frame_header :
    (op : Opcode) (n key : ℕ) (fin : Bool) (cs : List ℕ)
    → n < 2 ^ 63
    → key < 2 ^ 32
    → is_legal op n fin ≡ true
    → parse_frame_header (write_frame_header op n key fin ++ cs)
      ≡ ok (record {
        opcode = op;
        payload_len = n;
        mask_key = key;
        header_size = length (write_frame_header op n key fin);
        fin = fin;
        masked = true;
      })
unfolding write_frame_header
parse_frame_header-write_frame_header op n key fin cs h k l =
    rw (size, append_assoc (write_length n) (key_bytes key) cs)
      (first_byte-rest op fin (write_length n ++ (key_bytes key ++ cs))
        ∙ write_length-parse op fin n (key_bytes key ++ cs) h
        ∙ finish_header-key op n key (extra n) fin cs k l)
  where
    size : length (first_byte op fin ∷ (write_length n ++ key_bytes key)) ≡ 2 + extra n + 4
    size = omega (arith, length-append (write_length n) (key_bytes key), length-write_length n)
