-- ===== src/Net/Frame/Bounds.antt =====
-- What the parser of frame headers promises of its result.
use crossbook.Common.{
  ℕ, zero, suc, ◌+◌, ◌*◌, ◌/◌, ◌%◌, ◌^◌, ◌≤◌, ◌<◌, ◌≡◌, ◌⊎◌, inl, inr, refl, arith, ap, ◌∙◌,
}
use crossbook.Common.{Bool, true, false, not, ◌&&◌, ◌||◌, List, [], ◌∷◌, none, some}
use crossbook.Common.{if◌then◌else◌, ltb, leb, ◌==◌, length, if_cases, subst, All, Option-cases}
use crossbook.Net.Frame.{Opcode, code, known_opcode, is_control}
use crossbook.Net.Frame.{
  FrameHeader, FrameResult, ok, incomplete, protocol_error, Field, field, short, illegal, load_be,
  check_long, read_length, read_mask, read_word,
}
use crossbook.Net.Frame.{finish_header, high_bit, parse_frame_header}

-- How many bytes the shortest form of a length takes behind the first two.
abbrev pub extended : ℕ → ℕ
extended len = if ltb len 126 then 0 else if ltb len 65536 then 2 else 8

-- A header lies within the `n` bytes of the buffer, its length is in the shortest form and has no
-- top bit, it has no other bytes than its key, and a control frame is whole and short. More bytes
-- are asked for only where there are less than fourteen.
abbrev pub IsLegal : ℕ → FrameResult → Type 0
IsLegal n (ok h) =
    (h.header_size ≡ 2 + extended h.payload_len + (if h.masked then 4 else 0))
    × (h.header_size ≤ n)
    × (h.header_size ≤ 14)
    × (h.payload_len < 2 ^ 63)
    × ((is_control h.opcode ≡ false) ⊎ ((h.fin ≡ true) × (h.payload_len ≤ 125)))
IsLegal n incomplete = n < 14
IsLegal n protocol_error = Unit {0}

-- What the first two bytes say of a header that is read: the reserved bits are clear, the low four
-- bits are the opcode, and the top bits are FIN and MASK.
abbrev pub Begins : List ℕ → FrameResult → Type 0
Begins (a ∷ b ∷ cs) (ok h) =
    (a / 16 % 8 ≡ 0) × (code h.opcode ≡ a % 16) × (h.fin ≡ high_bit a) × (h.masked ≡ high_bit b)
Begins [] (ok h) = ⊥
Begins (a ∷ []) (ok h) = ⊥
Begins buf incomplete = Unit {0}
Begins buf protocol_error = Unit {0}

abbrev pub IsSound : List ℕ → FrameResult → Type 0
IsSound buf r = IsLegal (length buf) r × Begins buf r

-- The same of the length field, for the `n` bytes behind the first two.
abbrev Fits : ℕ → Field → Type 0
Fits n (field len used cs) = (used ≡ extended len) × (used + length cs ≡ n) × (len < 2 ^ 63)
Fits n short = n < 12
Fits n illegal = Unit {0}

load_be-length :
    (acc n : ℕ) (cs : List ℕ)
    → ((load_be acc n cs ≡ none) × (length cs < n))
      ⊎ ((v : ℕ) × (rest : List ℕ) × (load_be acc n cs ≡ some (v, rest))
          × (n + length rest ≡ length cs))
unfolding load_be
load_be-length acc zero cs = inr (acc, cs, refl, omega arith)
load_be-length acc (suc n) [] = inl (refl, omega arith)
load_be-length acc (suc n) (c ∷ cs) = elim (load_be-length ((acc * 2 ^ 8 + c) % 2 ^ 64) n cs) [
  | inl (e, l) ↦ inl (e, omega arith)
  | inr (v, rest, e, l) ↦ inr (v, rest, e, omega arith)
]

check_long-Fits : (cs : List ℕ) → Fits (length cs) (check_long (load_be 0 8 cs))
check_long-Fits cs = elim (load_be-length 0 8 cs) [
  | inl (e, l) ↦ rw e (omega arith)
  | inr (v, rest, e, l) ↦ rw e (go v rest l)
]
  where
    go :
        (v : ℕ) (rest : List ℕ)
        → 8 + length rest ≡ length cs
        → Fits (length cs) (check_long (some (v, rest)))
    go v rest l =
        if_cases (Fits (length cs)) (leb (2 ^ 63) v || ltb v 65536) illegal (field v 8 rest)
          (λ _. tt) (λ e. (ground arith, l, ground arith))

abbrev pub IsByte : ℕ → Type 0
IsByte b = b < 256

read_word-Fits : (cs : List ℕ) → All IsByte cs → Fits (length cs) (read_word cs)
read_word-Fits [] h = omega arith
read_word-Fits (b ∷ []) h = omega arith
read_word-Fits (b ∷ c ∷ cs) (hb, (hc, h)) =
    if_cases (Fits (length (b ∷ c ∷ cs))) (ltb (b * 2 ^ 8 + c) 126) illegal
      (field (b * 2 ^ 8 + c) 2 cs) (λ _. tt)
      (λ e. (ground (arith, hb, hc), omega arith, omega arith))

read_length-Fits : (n : ℕ) (cs : List ℕ) → All IsByte cs → Fits (length cs) (read_length n cs)
unfolding read_length
read_length-Fits n cs h =
    if_cases (Fits (length cs)) (ltb n 126) (field n 0 cs)
      (if n == 126 then read_word cs else check_long (load_be 0 8 cs))
      (λ e. (ground arith, omega arith, ground arith))
      (λ _.
        if_cases (Fits (length cs)) (n == 126) (read_word cs) (check_long (load_be 0 8 cs))
          (λ _. read_word-Fits cs h) (λ _. check_long-Fits cs))

read_mask-IsLegal :
    (h : FrameHeader) (used : ℕ) (cs : List ℕ)
    → used ≡ extended h.payload_len
    → h.masked ≡ true
    → h.payload_len < 2 ^ 63
    → (is_control h.opcode ≡ false) ⊎ ((h.fin ≡ true) × (h.payload_len ≤ 125))
    → IsLegal (2 + used + length cs) (read_mask h (2 + used) cs)
unfolding read_mask
read_mask-IsLegal h used [] u m l c = ground arith
read_mask-IsLegal h used (_ ∷ []) u m l c = ground arith
read_mask-IsLegal h used (_ ∷ _ ∷ []) u m l c = ground arith
read_mask-IsLegal h used (_ ∷ _ ∷ _ ∷ []) u m l c = ground arith
read_mask-IsLegal h used (_ ∷ _ ∷ _ ∷ _ ∷ cs) u m l c =
    (rw m (omega (arith, u)), omega arith, ground arith, l, c)

legal_cases :
    (control fin : Bool) (len : ℕ)
    → (control && (not fin || ltb 125 len)) ≡ false
    → (control ≡ false) ⊎ ((fin ≡ true) × (len ≤ 125))
legal_cases false fin len e = inl refl
legal_cases true true len e = inr (refl, ground arith)
legal_cases true false len e = cc

finish_header-IsLegal :
    (op : Opcode) (fin masked : Bool) (n : ℕ) (f : Field)
    → Fits n f
    → IsLegal (2 + n) (finish_header op fin masked f)
unfolding finish_header
finish_header-IsLegal op fin masked n short h = omega arith
finish_header-IsLegal op fin masked n illegal h = tt
finish_header-IsLegal op fin masked n (field len used cs) (u, s, l) =
    if_cases (IsLegal (2 + n)) (is_control op && (not fin || ltb 125 len)) protocol_error
      (if masked then read_mask header (2 + used) cs else ok header) (λ _. tt)
      (λ e.
        if_cases (IsLegal (2 + n)) masked (read_mask header (2 + used) cs) (ok header)
          (λ m.
            subst (λ k. IsLegal k (read_mask header (2 + used) cs)) (omega arith)
              (read_mask-IsLegal header used cs u m l (legal_cases (is_control op) fin len e)))
          (λ m. (
            rw m (omega (arith, u)),
            omega arith,
            ground arith,
            l,
            legal_cases (is_control op) fin len e,
          )))
  where
    header : FrameHeader
    header = record {
      opcode = op;
      payload_len = len;
      mask_key = 0;
      header_size = 2 + used;
      fin = fin;
      masked = masked;
    }

-- The fields that the first two bytes fix.
abbrev Has : Opcode → Bool → Bool → FrameResult → Type 0
Has op fin masked (ok h) = (h.opcode ≡ op) × (h.fin ≡ fin) × (h.masked ≡ masked)
Has op fin masked incomplete = Unit {0}
Has op fin masked protocol_error = Unit {0}

read_mask-Has :
    (h : FrameHeader) (pos : ℕ) (cs : List ℕ) → Has h.opcode h.fin h.masked (read_mask h pos cs)
unfolding read_mask
read_mask-Has h pos [] = tt
read_mask-Has h pos (_ ∷ []) = tt
read_mask-Has h pos (_ ∷ _ ∷ []) = tt
read_mask-Has h pos (_ ∷ _ ∷ _ ∷ []) = tt
read_mask-Has h pos (_ ∷ _ ∷ _ ∷ _ ∷ cs) = (refl, refl, refl)

finish_header-Has :
    (op : Opcode) (fin masked : Bool) (f : Field)
    → Has op fin masked (finish_header op fin masked f)
unfolding finish_header
finish_header-Has op fin masked short = tt
finish_header-Has op fin masked illegal = tt
finish_header-Has op fin masked (field len used cs) =
    if_cases (Has op fin masked) (is_control op && (not fin || ltb 125 len)) protocol_error _
      (λ _. tt)
      (λ _.
        if_cases (Has op fin masked) masked _ _ (λ _. read_mask-Has header (2 + used) cs)
          (λ _. (refl, refl, refl)))
  where
    header : FrameHeader
    header = record {
      opcode = op;
      payload_len = len;
      mask_key = 0;
      header_size = 2 + used;
      fin = fin;
      masked = masked;
    }

known_opcode-code : (raw : ℕ) (op : Opcode) → known_opcode raw ≡ some op → code op ≡ raw
known_opcode-code raw op e = ground arith

Has-Begins :
    (a b : ℕ) (cs : List ℕ) (op : Opcode) (r : FrameResult)
    → a / 16 % 8 ≡ 0
    → code op ≡ a % 16
    → Has op (high_bit a) (high_bit b) r
    → Begins (a ∷ b ∷ cs) r
Has-Begins a b cs op (ok h) z c (o, f, m) = (z, ap code o ∙ c, f, m)
Has-Begins a b cs op incomplete z c k = tt
Has-Begins a b cs op protocol_error z c k = tt

-- Whatever bytes a buffer holds: of a header that `parse_frame_header` reads, the reserved bits are
-- clear in the first byte, the opcode is that byte's low four bits, and FIN and MASK are the top
-- bits of the first two bytes; its size is that of the shortest form of its payload length and of
-- the key, if it is masked, so it has at most 14 bytes, and it lies within the buffer; the payload
-- length has no top bit; and a control frame is whole and at most 125 bytes long. More bytes are
-- asked for only where there are less than 14.
pub parse_frame_header-IsSound :
    (buf : List ℕ) → All IsByte buf → IsSound buf (parse_frame_header buf)
unfolding parse_frame_header
parse_frame_header-IsSound [] h = (omega arith, tt)
parse_frame_header-IsSound (a ∷ []) h = (omega arith, tt)
parse_frame_header-IsSound (a ∷ b ∷ cs) (ha, (hb, h)) =
    if_cases (IsSound (a ∷ b ∷ cs)) (not (a / 16 % 8 == 0)) protocol_error _ (λ _. (tt, tt))
      (λ z. elim (Option-cases (known_opcode (a % 16))) [
        | inl e ↦ rw e (tt, tt)
        | inr (op, e) ↦ rw e (
          legal op,
          Has-Begins a b cs op _ (ground (arith, z)) (known_opcode-code (a % 16) op e)
              (finish_header-Has op (high_bit a) (high_bit b) (read_length (b % 128) cs)),
        )
      ])
  where
    legal :
        (op : Opcode)
        → IsLegal
            (length (a ∷ b ∷ cs))
            (finish_header op (high_bit a) (high_bit b) (read_length (b % 128) cs))
    legal op =
        subst
          (λ k. IsLegal k (finish_header op (high_bit a) (high_bit b) (read_length (b % 128) cs)))
          (omega arith)
          (finish_header-IsLegal op (high_bit a) (high_bit b) (length cs) (read_length (b % 128) cs)
            (read_length-Fits (b % 128) cs h))
