-- ===== src/Creation/Uri.antt =====
-- EIP-681 payment links: `buildEip681Uri` (src/domain/chain/payment-uri.ts).
use oscar_payment_gateway.Prelude.{ℕ, ◌&&◌, Option, none, some, [], ◌∷◌, ◌++◌, if◌then◌else◌, leb}
use oscar_payment_gateway.Money.{is_positive_base_unit_string, format_base_units}
use oscar_payment_gateway.Store.{Text, AssetType, erc20, native}

pub record PaymentUriInput : Type 0 where
  pub network_chain_id : ℕ
  pub asset_type : AssetType
  pub contract_address : Option Text
  pub recipient_address : Text
  pub amount : Text

-- `Number.MAX_SAFE_INTEGER`.
abbrev pub max_safe_integer : ℕ
max_safe_integer = 9007199254740991

abbrev ethereum_part : Text
ethereum_part = b'e' ∷ b't' ∷ b'h' ∷ b'e' ∷ b'r' ∷ b'e' ∷ b'u' ∷ b'm' ∷ b':' ∷ []

abbrev transfer_part : Text
transfer_part =
    b'/' ∷ b't' ∷ b'r' ∷ b'a' ∷ b'n' ∷ b's' ∷ b'f' ∷ b'e' ∷ b'r' ∷ b'?' ∷ b'a' ∷ b'd' ∷ b'd' ∷ b'r'
    ∷ b'e' ∷ b's' ∷ b's' ∷ b'=' ∷ []

abbrev uint256_part : Text
uint256_part = b'&' ∷ b'u' ∷ b'i' ∷ b'n' ∷ b't' ∷ b'2' ∷ b'5' ∷ b'6' ∷ b'=' ∷ []

abbrev value_part : Text
value_part = b'?' ∷ b'v' ∷ b'a' ∷ b'l' ∷ b'u' ∷ b'e' ∷ b'=' ∷ []

abbrev on_chain : ℕ → Text
on_chain n = b'@' ∷ format_base_units n

abbrev token_uri : PaymentUriInput → Text → Option Text → Option Text
token_uri i recipient none = none
token_uri i recipient (some contract) = some (
    ethereum_part
    ++ (contract
        ++ (on_chain i.network_chain_id
            ++ (transfer_part ++ (recipient ++ (uint256_part ++ i.amount))))))

abbrev checksummed : (Text → Option Text) → Option Text → Option Text
checksummed get_address none = none
checksummed get_address (some t) = get_address t

abbrev uri_to : (Text → Option Text) → PaymentUriInput → Option Text → Option Text
uri_to get_address i none = none
uri_to get_address i (some recipient) = elim i.asset_type [
  | erc20 ↦ token_uri i recipient (checksummed get_address i.contract_address)
  | native ↦
      some
        (ethereum_part ++ (recipient ++ (on_chain i.network_chain_id ++ (value_part ++ i.amount))))
]

-- `none`: the call throws. `getAddress` of the library viem, which may throw too, is a parameter.
unfoldable pub build_eip681_uri : (Text → Option Text) → PaymentUriInput → Option Text
unfolding is_positive_base_unit_string format_base_units
build_eip681_uri get_address i =
    if leb 1 i.network_chain_id
      && leb i.network_chain_id max_safe_integer
      && is_positive_base_unit_string i.amount
    then uri_to get_address i (get_address i.recipient_address)
    else none
