-- ===== src/Interpretation/Decode.antt =====
-- The transfer that a raw capture denotes: `decodeTransferFromRaw` and `decodeNativeTransferFromRaw`
-- (src/application/ingestion/event-interpretation-service.ts).
use oscar_payment_gateway.Prelude.{
  ℕ, zero, suc, Bool, true, false, ◌&&◌, Option, none, some, List, [], ◌∷◌, ◌==◌, length,
  if◌then◌else◌,
}
use oscar_payment_gateway.Store.{Text, Unknown, string, other, RawEvent}
use oscar_payment_gateway.Texts.{
  text_eq, to_lower, slice, matches_hex, evm_address_pattern, big_int, integer_text,
}

pub record DecodedTransfer : Type 0 where
  pub from_address : Text
  pub to_address : Text
  pub amount : Text

-- 0xddf252ad1be2c89b69c2b068fc378daa952ba7f163c4a11628f55a4df523b3ef
abbrev pub transfer_topic : Text
transfer_topic =
    b'0' ∷ b'x' ∷ b'd' ∷ b'd' ∷ b'f' ∷ b'2' ∷ b'5' ∷ b'2' ∷ b'a' ∷ b'd' ∷ b'1' ∷ b'b' ∷ b'e' ∷ b'2'
    ∷ b'c' ∷ b'8' ∷ b'9' ∷ b'b' ∷ b'6' ∷ b'9' ∷ b'c' ∷ b'2' ∷ b'b' ∷ b'0' ∷ b'6' ∷ b'8' ∷ b'f'
    ∷ b'c' ∷ b'3' ∷ b'7' ∷ b'8' ∷ b'd' ∷ b'a' ∷ b'a' ∷ b'9' ∷ b'5' ∷ b'2' ∷ b'b' ∷ b'a' ∷ b'7'
    ∷ b'f' ∷ b'1' ∷ b'6' ∷ b'3' ∷ b'c' ∷ b'4' ∷ b'a' ∷ b'1' ∷ b'1' ∷ b'6' ∷ b'2' ∷ b'8' ∷ b'f'
    ∷ b'5' ∷ b'5' ∷ b'a' ∷ b'4' ∷ b'd' ∷ b'f' ∷ b'5' ∷ b'2' ∷ b'3' ∷ b'b' ∷ b'3' ∷ b'e' ∷ b'f' ∷ []

abbrev is_zero_digit : ℕ → Bool
is_zero_digit c = c == b'0'

abbrev leading_zeros : ℕ → Text → Bool
leading_zeros zero t = true
leading_zeros (suc n) [] = false
leading_zeros (suc n) (c ∷ t) = is_zero_digit c && leading_zeros n t

-- `addressTopicPattern`: 24 zeros and 40 digits.
abbrev pub address_topic_pattern : Text → Bool
address_topic_pattern t = matches_hex 64 t && leading_zeros 24 (slice 2 t)

-- `wordPattern`.
abbrev pub word_pattern : Text → Bool
word_pattern = matches_hex 64

abbrev pub amount_text : Text → Option Text
amount_text t = elim (big_int t) [ none ↦ none | some n ↦ some (integer_text n) ]

-- The topics as strings, when there are three.
abbrev pub three_topics : Option (List Unknown) → Option (Text × Text × Text)
three_topics (some (string a ∷ string b ∷ string c ∷ [])) = some (a, b, c)
three_topics _ = none

abbrev prefix_address : Text → Text
prefix_address t = b'0' ∷ b'x' ∷ slice 26 t

abbrev with_amount : Text → Text → Option Text → Option DecodedTransfer
with_amount from to none = none
with_amount from to (some amount) =
    some (record { from_address = from; to_address = to; amount = amount })

abbrev decode_log : Option (Text × Text × Text) → Unknown → Option DecodedTransfer
decode_log none data_ = none
decode_log (some topics) other = none
decode_log (some (topic0, topic1, topic2)) (string data_) =
    if text_eq (to_lower topic0) transfer_topic
      && address_topic_pattern topic1
      && address_topic_pattern topic2
      && word_pattern data_
      && length data_ == 66
    then with_amount (prefix_address topic1) (prefix_address topic2) (amount_text data_)
    else none

unfoldable pub decode_transfer_from_raw : RawEvent → Option DecodedTransfer
unfolding to_lower matches_hex big_int integer_text
decode_transfer_from_raw raw = decode_log (three_topics raw.topics) raw.data_

abbrev decode_transaction : Unknown → Unknown → Unknown → Option DecodedTransfer
decode_transaction (string value) (string from) (string to) =
    if evm_address_pattern from && evm_address_pattern to
    then with_amount (to_lower from) (to_lower to) (amount_text value)
    else none
decode_transaction _ _ _ = none

unfoldable pub decode_native_transfer_from_raw : RawEvent → Option DecodedTransfer
unfolding to_lower matches_hex big_int integer_text
decode_native_transfer_from_raw raw = decode_transaction raw.value raw.from raw.to
