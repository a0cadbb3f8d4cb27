-- ===== src/Creation/Reserve.antt =====
-- Reserving the registry's configuration (`reservePaymentConfiguration` of
-- src/application/registry/registry-service.ts) and a derivation index of the merchant's wallet
-- (src/application/payments/payment-service.ts).
use oscar_payment_gateway.Prelude.{
  ℕ, ◌+◌, Bool, ◌&&◌, Option, none, some, ◌==◌, find, update_first, if◌then◌else◌, leb, is_some,
}
use oscar_payment_gateway.Store.{Key, Text, AssetType}
use oscar_payment_gateway.Registry.{
  ChainDocument, TokenDocument, VerificationPolicy, is_enabled_chain, is_listed_status,
}
use oscar_payment_gateway.Creation.Documents.{Books, MerchantWallet}
use oscar_payment_gateway.Creation.Effect.{Step, Ran, returned, raised, validation, unavailable}

pub record PaymentRegistrySnapshot : Type 0 where
  pub chain_id : Key
  pub token_id : Key
  pub token_asset_type : AssetType
  pub required_confirmations : ℕ
  pub token_verification_policy : VerificationPolicy
  pub chain_configuration_version : ℕ
  pub token_configuration_version : ℕ
  pub network_chain_id : ℕ
  pub token_contract_address : Option Text
  pub token_min_amount : ℕ
  pub token_max_amount : ℕ

abbrev pub is_usable_chain : Key → ChainDocument → Bool
is_usable_chain id c = c.chain_id == id && is_enabled_chain c

abbrev pub is_usable_token : Key → Key → TokenDocument → Bool
is_usable_token chain id t =
    t.token_id == id
    && t.chain == chain
    && t.enabled
    && is_listed_status t.verification_status
    && is_some t.verified_at

abbrev next_chain : ChainDocument → ChainDocument
next_chain c = record c { allocation_sequence = c.allocation_sequence + 1 }

abbrev next_token : TokenDocument → TokenDocument
next_token t = record t { allocation_sequence = t.allocation_sequence + 1 }

abbrev pub snapshot_of : Key → Key → ChainDocument → TokenDocument → PaymentRegistrySnapshot
snapshot_of chain_id token_id c t = record {
  chain_id = chain_id;
  token_id = token_id;
  token_asset_type = t.asset_type;
  required_confirmations = c.required_confirmations;
  token_verification_policy = t.verification_policy;
  chain_configuration_version = c.version;
  token_configuration_version = t.version;
  network_chain_id = c.network_chain_id;
  token_contract_address = t.contract_address;
  token_min_amount = t.min_amount;
  token_max_amount = t.max_amount;
}

abbrev pub reserve_token :
    Key → Key → ChainDocument → Option TokenDocument → Books → Ran PaymentRegistrySnapshot
reserve_token chain_id token_id c none b = raised validation
reserve_token chain_id token_id c (some t) b =
    returned (snapshot_of chain_id token_id c t) (record b {
      chains = update_first (is_usable_chain chain_id) next_chain b.chains;
      tokens = update_first (is_usable_token chain_id token_id) next_token b.tokens;
    })

abbrev pub reserve_chain : Key → Key → Option ChainDocument → Books → Ran PaymentRegistrySnapshot
reserve_chain chain_id token_id none b = raised validation
reserve_chain chain_id token_id (some c) b =
    reserve_token chain_id token_id c (find (is_usable_token chain_id token_id) b.tokens) b

-- `reservePaymentConfiguration`.
unfoldable pub reserve_payment_configuration : Key → Key → Step PaymentRegistrySnapshot
reserve_payment_configuration chain_id token_id b =
    reserve_chain chain_id token_id (find (is_usable_chain chain_id) b.chains) b

-- The largest index that BIP-32 derives without hardening.
abbrev pub maximum_derivation_index : ℕ
maximum_derivation_index = 2147483647

abbrev pub is_active_wallet : Key → Key → MerchantWallet → Bool
is_active_wallet merchant chain w = w.merchant_id == merchant && w.chain == chain && w.active

abbrev pub has_index_left : Key → Key → MerchantWallet → Bool
has_index_left merchant chain w =
    is_active_wallet merchant chain w && leb w.next_derivation_index maximum_derivation_index

abbrev pub next_index : MerchantWallet → MerchantWallet
next_index w = record w { next_derivation_index = w.next_derivation_index + 1 }

abbrev pub allocate : Key → Key → Option MerchantWallet → Books → Ran MerchantWallet
allocate merchant chain (some w) b = returned (next_index w) (record b {
  merchant_wallets = update_first (has_index_left merchant chain) next_index b.merchant_wallets;
})
allocate merchant chain none b =
    if is_some (find (is_active_wallet merchant chain) b.merchant_wallets)
    then raised unavailable
    else raised validation

-- The wallet after the increment.
unfoldable pub allocate_wallet : Key → Key → Step MerchantWallet
allocate_wallet merchant chain b =
    allocate merchant chain (find (has_index_left merchant chain) b.merchant_wallets) b
