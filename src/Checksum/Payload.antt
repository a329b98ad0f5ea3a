-- ===== src/Checksum/Payload.antt =====
-- The bytes that the checksum is computed over, against Kraken's description of them.
use crossbook.Common.{
  ℕ, zero, suc, ◌+◌, ◌*◌, ◌/◌, ◌^◌, ◌≤◌, ◌<◌, ◌≡◌, refl, sym, ap, ap₂, ◌∙◌, arith,
}
use crossbook.Common.{
  List, [], ◌∷◌, ◌++◌, reverse, append-nil, append_assoc, length, length-append, take, All,
  All-take,
}
use crossbook.Common.{Bool, true, false, if◌then◌else◌, ◌==◌, lt→ltb, le→ltb, length-take}
use crossbook.Common.Int.{ℤ, pos, negsuc, pos_part, IsInt64}
use crossbook.Types.{Side, bid, ask, Level, InstrumentSpec}
use crossbook.Fixed.{magnitude, digit_char, format_fixed, checksum_token}
use crossbook.Fixed.Digits.{decimal, decimal_fuel, lt-pow_ten, format_integer_lem}
use crossbook.Fixed.Token.{wire_token, wire_token-format_fixed, length-decimal_bound}
use crossbook.Book.Visit.{SideImpl, IsSideImpl, visit, visit-go_on, visit-stop}
use crossbook.Book.L2
use crossbook.Book.L2.{L2Book}
use crossbook.Book.L2.Update.{IsBook, book_levels, side-IsValid}
use crossbook.Checksum.{write_tmp, write_digits, write_level, write_side, kraken_checksum_payload}
use mathlib.Core.List.{reverse-cons}

reverse-write_tmp : (f m : ℕ) → reverse (write_tmp f m) ≡ decimal f m
unfolding write_tmp decimal
reverse-write_tmp zero m = refl
reverse-write_tmp (suc f) m = go (m / 10 == 0) (reverse-write_tmp f (m / 10))
  where
    go :
        (b : Bool)
        → reverse (write_tmp f (m / 10)) ≡ decimal f (m / 10)
        → reverse (elim b as (λ _. List ℕ) [
          | true ↦ digit_char m ∷ []
          | false ↦ digit_char m ∷ write_tmp f (m / 10)
        ])
          ≡ (if b then digit_char m ∷ [] else decimal f (m / 10) ++ digit_char m ∷ [])
    go true h = refl
    go false h =
        reverse-cons (digit_char m) (write_tmp f (m / 10)) ∙ ap (λ ds. ds ++ digit_char m ∷ []) h

magnitude_bound : (v : ℤ) → magnitude v < 10 ^ 20
magnitude_bound (pos n) = ground arith
magnitude_bound (negsuc n) = ground arith

-- The loop of `write_digits` has as many rounds as it needs.
write_digits-decimal : (v : ℤ) → write_digits v ≡ decimal 20 (magnitude v)
unfolding write_digits
write_digits-decimal v =
    reverse-write_tmp (suc (magnitude v)) (magnitude v)
    ∙ decimal_fuel (magnitude v) 19 (magnitude v) (lt-pow_ten (magnitude v)) (magnitude_bound v)

-- For every mantissa, the digits that the checksum's buffer loop writes are the token of
-- fixed.hpp.
pub write_digits-checksum_token : (v : ℤ) → write_digits v ≡ checksum_token v
unfolding checksum_token
write_digits-checksum_token v =
    write_digits-decimal v
    ∙ sym (append-nil (decimal 20 (magnitude v)))
    ∙ sym (format_integer_lem 20 (magnitude v) [])

-- The bytes of some levels, in order.
abbrev pub tokens : List Level → List ℕ
tokens [] = []
tokens (l ∷ ls) = (write_digits l.price ++ write_digits l.qty) ++ tokens ls

visit-write_level :
    (k n : ℕ) (buf : List ℕ) (ls : List Level)
    → n + suc k ≡ 10
    → (visit write_level ls (n, buf)).1 ≡ buf ++ tokens (take (suc k) ls)
visit-write_level k n buf [] h = unfold visit in sym (append-nil buf)
visit-write_level zero n buf (l ∷ ls) h =
    ap (λ (r : ℕ × List ℕ). r.1)
      (visit-stop write_level l ls (n, buf)
        (n + 1, buf ++ (write_digits l.price ++ write_digits l.qty))
        (ap (λ b. ((n + 1, buf ++ (write_digits l.price ++ write_digits l.qty)), b))
          (le→ltb (n + 1) 10 (omega arith))))
    ∙ ap (◌++◌ buf) (sym (append-nil (write_digits l.price ++ write_digits l.qty)))
visit-write_level (suc k) n buf (l ∷ ls) h =
    ap (λ (r : ℕ × List ℕ). r.1)
      (visit-go_on write_level l ls (n, buf)
        (n + 1, buf ++ (write_digits l.price ++ write_digits l.qty))
        (ap (λ b. ((n + 1, buf ++ (write_digits l.price ++ write_digits l.qty)), b))
          (lt→ltb (n + 1) 10 (omega arith))))
    ∙ visit-write_level k (n + 1) (buf ++ (write_digits l.price ++ write_digits l.qty)) ls
        (omega arith)
    ∙ append_assoc buf (write_digits l.price ++ write_digits l.qty) (tokens (take (suc k) ls))

-- Kraken's description: for each level the two spellings on the wire, point removed, leading zeros
-- stripped, price before quantity.
abbrev pub wire_tokens : InstrumentSpec → List Level → List ℕ
wire_tokens spec [] = []
wire_tokens spec (l ∷ ls) =
    (wire_token (format_fixed l.price spec.price_scale)
      ++ wire_token (format_fixed l.qty spec.qty_scale))
    ++ wire_tokens spec ls

-- A level as venues send them: both mantissas positive and representable.
abbrev pub IsQuoted : Level → Type 0
IsQuoted l = IsInt64 l.price × IsInt64 l.qty × (0 < pos_part l.price) × (0 < pos_part l.qty)

tokens-wire_tokens :
    (spec : InstrumentSpec) (ls : List Level) → All IsQuoted ls → tokens ls ≡ wire_tokens spec ls
tokens-wire_tokens spec [] h = refl
tokens-wire_tokens spec (l ∷ ls) ((hp, hq, pp, pq), h) =
    ap₂ ◌++◌
      (ap₂ ◌++◌
        (write_digits-checksum_token l.price
          ∙ sym (wire_token-format_fixed l.price spec.price_scale hp pp))
        (write_digits-checksum_token l.qty
          ∙ sym (wire_token-format_fixed l.qty spec.qty_scale hq pq)))
      (tokens-wire_tokens spec ls h)

-- The digits are counted from the magnitude, whatever number of rounds the loop may take.
length-write_digits : (v : ℤ) → length (write_digits v) ≤ 20
unfolding write_digits
length-write_digits v =
    rw (reverse-write_tmp (suc (magnitude v)) (magnitude v))
      (length-decimal_bound (suc (magnitude v)) 19 (magnitude v) (magnitude_bound v))

length-tokens : (ls : List Level) → length (tokens ls) ≤ 40 * length ls
length-tokens [] = omega arith
length-tokens (l ∷ ls) = omega (
  arith,
  length-append (write_digits l.price ++ write_digits l.qty) (tokens ls),
  length-append (write_digits l.price) (write_digits l.qty),
  length-write_digits l.price,
  length-write_digits l.qty,
  length-tokens ls,
)

module _ (I : SideImpl) (L : IsSideImpl I) where
  open I use {State}

  write_side_lem :
      (b : L2Book State) (s : Side) (buf : List ℕ)
      → IsBook I L b
      → write_side I b s buf ≡ buf ++ tokens (take 10 (book_levels I L b s))
  unfolding write_side
  write_side_lem b s buf v =
      ap (λ (r : ℕ × List ℕ). r.1)
        (L.for_each-levels (ℕ × List ℕ) write_level (L2.side I b s) (0, buf)
          (side-IsValid I L b s v))
      ∙ visit-write_level 9 0 buf (book_levels I L b s) (omega arith)

  pub kraken_checksum_payload_lem :
      (b : L2Book State)
      → IsBook I L b
      → kraken_checksum_payload I b
        ≡ tokens (take 10 (book_levels I L b ask)) ++ tokens (take 10 (book_levels I L b bid))
  unfolding kraken_checksum_payload
  kraken_checksum_payload_lem b v =
      write_side_lem b bid (write_side I b ask []) v
      ∙ ap (λ buf. buf ++ tokens (take 10 (book_levels I L b bid))) (write_side_lem b ask [] v)

  -- On a valid book whose levels all have positive int64_t prices and quantities, the payload is
  -- what Kraken describes, at any scales: of the ten best asks and then of the ten best bids, each
  -- in book order, the canonical spelling of the price and that of the quantity, with the point
  -- removed and leading zeros stripped.
  pub kraken_checksum_payload-wire_tokens :
      (b : L2Book State) (spec : InstrumentSpec)
      → IsBook I L b
      → All IsQuoted (book_levels I L b ask)
      → All IsQuoted (book_levels I L b bid)
      → kraken_checksum_payload I b
        ≡ wire_tokens spec (take 10 (book_levels I L b ask))
          ++ wire_tokens spec (take 10 (book_levels I L b bid))
  kraken_checksum_payload-wire_tokens b spec v ha hb =
      kraken_checksum_payload_lem b v
      ∙ ap₂ ◌++◌
          (tokens-wire_tokens spec (take 10 (book_levels I L b ask))
            (All-take IsQuoted 10 (book_levels I L b ask) ha))
          (tokens-wire_tokens spec (take 10 (book_levels I L b bid))
            (All-take IsQuoted 10 (book_levels I L b bid) hb))

  -- The checksum payload of any valid book has at most 800 bytes.
  pub length-kraken_checksum_payload :
      (b : L2Book State) → IsBook I L b → length (kraken_checksum_payload I b) ≤ 800
  length-kraken_checksum_payload b v = rw (kraken_checksum_payload_lem b v) (
      omega (
        arith,
        length-append (tokens (take 10 asks)) (tokens (take 10 bids)),
        length-tokens (take 10 asks),
        length-tokens (take 10 bids),
        length-take 10 asks,
        length-take 10 bids,
      ))
    where
      asks : List Level
      asks = book_levels I L b ask

      bids : List Level
      bids = book_levels I L b bid
