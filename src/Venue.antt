-- ===== src/Venue.antt =====
-- include/crossbook/venue.hpp: the normalised result of decoding one frame.
use crossbook.Common.{ℕ, Bool, true, false, List, [], codes}
use crossbook.Common.Int.{ℤ, pos}
use crossbook.Types.{Side, Price, Qty}
use crossbook.Sequence.{UpdateIds}

pub data MessageKind : Type 0 where
  ignored snapshot update venue_error : MessageKind

pub data DecodeError : Type 0 where
  ok malformed precision_loss bad_sequence too_many_levels non_canonical bad_checksum
        bad_timestamp :
      DecodeError

abbrev pub to_string : DecodeError → List ℕ
to_string ok = codes "ok"
to_string malformed = codes "malformed"
to_string precision_loss = codes "precision_loss"
to_string bad_sequence = codes "bad_sequence"
to_string too_many_levels = codes "too_many_levels"
to_string non_canonical = codes "non_canonical"
to_string bad_checksum = codes "bad_checksum"
to_string bad_timestamp = codes "bad_timestamp"

pub record LevelUpdate : Type 0 where
  pub side : Side
  pub price : Price
  pub qty : Qty

pub record DecodedMessage : Type 0 where
  pub kind : MessageKind
  pub error : DecodeError
  pub symbol : List ℕ
  pub ts : ℤ
  pub ids : UpdateIds
  pub has_ids : Bool
  pub checksum : ℕ
  pub has_checksum : Bool
  pub levels : List LevelUpdate
  pub bad_token : List ℕ

abbrev pub no_error : DecodeError → Bool
no_error ok = true
no_error _ = false

-- `DecodedMessage::ok`.
abbrev pub is_ok : DecodedMessage → Bool
is_ok m = no_error m.error

-- `DecodedMessage::reset`; the initial state of a message is the same.
abbrev pub blank : DecodedMessage
blank = record {
  kind = ignored;
  error = ok;
  symbol = [];
  ts = pos 0;
  ids = record { first_id = 0; final_id = 0; prev_id = 0 };
  has_ids = false;
  checksum = 0;
  has_checksum = false;
  levels = [];
  bad_token = [];
}
