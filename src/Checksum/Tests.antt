-- ===== src/Checksum/Tests.antt =====
-- The published check vector of CRC-32, and the theorems of the checksum at concrete inputs.
use crossbook.Common.{◌≡◌, ◌≤◌, ◌++◌, refl, arith, codes, take, length}
use crossbook.Common.Int.{pos}
use crossbook.Types.{bid, ask, InstrumentSpec}
use crossbook.Common.{All, ap, ◌∙◌, subst, sym}
use crossbook.Fixed.{checksum_token}
use crossbook.Book.Map.Refines.{map_impl, map_refines}
use crossbook.Book.L2
use crossbook.Book.L2.{L2Book}
use crossbook.Book.L2.Update.{
  IsBook, make-IsBook, apply-IsBook, book_levels, book_levels-apply, book_levels-make,
}
use crossbook.Book.Ladder.{update}
use crossbook.Checksum.Payload.{IsQuoted}
use crossbook.Checksum.{crc32, write_digits, write_tmp}
use crossbook.Checksum.{kraken_checksum_payload}
use crossbook.Checksum.Payload.{write_digits-checksum_token, wire_tokens}
use crossbook.Checksum.Payload.{kraken_checksum_payload-wire_tokens, length-kraken_checksum_payload}

-- Sixteen bits of slice and a tail of one byte.
check_vector : crc32 (codes "123456789") ≡ 0xCBF43926
unfolding crc32
check_vector = refl

digits_small : write_digits (pos 5005000) ≡ codes "5005000"
unfolding write_digits write_tmp
digits_small = refl

write_digits-checksum_token_example : write_digits (pos 5005000) ≡ checksum_token (pos 5005000)
write_digits-checksum_token_example = write_digits-checksum_token (pos 5005000)

abbrev spec : InstrumentSpec
spec = record { symbol = codes "BTC/USD"; price_scale = 1; qty_scale = 8 }

-- A book with one ask.
abbrev one_ask : L2Book map_impl.State
one_ask = (L2.apply map_impl (L2.make map_impl spec) ask (pos 45285210) (pos 100000)).0

one_ask-IsBook : IsBook map_impl map_refines one_ask
one_ask-IsBook =
    apply-IsBook map_impl map_refines (L2.make map_impl spec) ask (pos 45285210) (pos 100000)
      (make-IsBook map_impl map_refines spec) (omega arith) (omega arith)

asks_IsQuoted : All IsQuoted (book_levels map_impl map_refines one_ask ask)
unfolding update
asks_IsQuoted =
    subst (All IsQuoted)
      (sym (
        book_levels-apply map_impl map_refines (L2.make map_impl spec) ask ask (pos 45285210)
          (pos 100000) refl (make-IsBook map_impl map_refines spec) (omega arith) (omega arith)
        ∙ ap (update ask (pos 45285210) (pos 100000))
            (book_levels-make map_impl map_refines spec ask)))
      ((omega arith, omega arith, omega arith, omega arith), tt)

bids_IsQuoted : All IsQuoted (book_levels map_impl map_refines one_ask bid)
bids_IsQuoted =
    subst (All IsQuoted)
      (sym (
        book_levels-apply map_impl map_refines (L2.make map_impl spec) ask bid (pos 45285210)
          (pos 100000) refl (make-IsBook map_impl map_refines spec) (omega arith) (omega arith)
        ∙ book_levels-make map_impl map_refines spec bid))
      tt

kraken_checksum_payload-wire_tokens_example :
    kraken_checksum_payload map_impl one_ask
    ≡ wire_tokens spec (take 10 (book_levels map_impl map_refines one_ask ask))
      ++ wire_tokens spec (take 10 (book_levels map_impl map_refines one_ask bid))
kraken_checksum_payload-wire_tokens_example =
    kraken_checksum_payload-wire_tokens map_impl map_refines one_ask spec one_ask-IsBook
      asks_IsQuoted bids_IsQuoted

length-kraken_checksum_payload_example : length (kraken_checksum_payload map_impl one_ask) ≤ 800
length-kraken_checksum_payload_example =
    length-kraken_checksum_payload map_impl map_refines one_ask one_ask-IsBook
