-- ===== src/Registry.antt =====
-- The enabled registry: EnabledRegistryReader (src/application/registry/registry-reader.ts), over the
-- chain and token documents of src/infrastructure/mongodb/models.ts.
pub mod Membership
pub mod Laws
use oscar_payment_gateway.Prelude.{
  ℕ, Bool, true, false, not, ◌&&◌, ◌||◌, Option, none, some, List, [], ◌∷◌, ◌==◌, any, filter, map,
  if◌then◌else◌, is_some, leb, ltb,
}
use oscar_payment_gateway.Store.{Key, Text, AssetType}

pub data VerificationPolicy : Type 0 where
  event_only balance_delta_required : VerificationPolicy

pub data VerificationStatus : Type 0 where
  unverified verified manual_review failed : VerificationStatus

pub data NetworkFamily : Type 0 where
  evm : NetworkFamily

-- A chain's document; `rpc_providers` are pairs of provider and operator.
pub record ChainDocument : Type 0 where
  pub chain_id : Key
  pub network_family : NetworkFamily
  pub network_chain_id : ℕ
  pub rpc_providers : List (Key × Key)
  pub required_confirmations : ℕ
  pub version : ℕ
  pub enabled : Bool
  pub allocation_sequence : ℕ
  pub verified_at : Option ℕ

pub record TokenDocument : Type 0 where
  pub token_id : Key
  pub chain : Key
  pub asset_type : AssetType
  pub symbol : Text
  pub contract_address : Option Text
  pub normalized_contract_address : Option Text
  pub decimals : ℕ
  pub min_amount : ℕ
  pub max_amount : ℕ
  pub verification_policy : VerificationPolicy
  pub version : ℕ
  pub enabled : Bool
  pub allocation_sequence : ℕ
  pub verification_status : VerificationStatus
  pub verified_at : Option ℕ

pub record RegistryChainRecord : Type 0 where
  pub chain_id : Key
  pub network_family : NetworkFamily
  pub network_chain_id : ℕ
  pub rpc_providers : List (Key × Key)
  pub required_confirmations : ℕ
  pub version : ℕ
  pub verified_at : ℕ

pub record RegistryTokenRecord : Type 0 where
  pub token_id : Key
  pub chain : Key
  pub asset_type : AssetType
  pub symbol : Text
  pub contract_address : Option Text
  pub normalized_contract_address : Option Text
  pub decimals : ℕ
  pub verification_policy : VerificationPolicy
  pub version : ℕ
  pub verified_at : ℕ

-- Both snapshots of the registry, with the digest of the versions.
pub record RegistrySnapshot : Type 0 where
  pub revision : Key
  pub loaded_at : ℕ
  pub chains : List RegistryChainRecord
  pub tokens : List RegistryTokenRecord

-- The digest of the revision payload, and whether an identifier comes no later than another.
pub record Collation : Type 0 where
  pub digest : List (Key × ℕ) → List (Key × ℕ) → Key
  pub no_later : Key → Key → Bool

abbrev pub insert_by : {A : Type 0} → (A → A → Bool) → A → List A → List A
insert_by no_later a [] = a ∷ []
insert_by no_later a (b ∷ bs) =
    let rest = insert_by no_later a bs in if no_later a b then a ∷ b ∷ bs else b ∷ rest

abbrev pub sort_by : {A : Type 0} → (A → A → Bool) → List A → List A
sort_by no_later [] = []
sort_by no_later (a ∷ as') = insert_by no_later a (sort_by no_later as')

abbrev pub is_enabled_chain : ChainDocument → Bool
is_enabled_chain c = c.enabled && is_some c.verified_at

abbrev pub is_listed_status : VerificationStatus → Bool
is_listed_status verified = true
is_listed_status manual_review = true
is_listed_status _ = false

abbrev pub is_enabled_token : List ChainDocument → TokenDocument → Bool
is_enabled_token chains t =
    any (λ (c : ChainDocument). c.chain_id == t.chain) chains
    && t.enabled
    && is_listed_status t.verification_status
    && is_some t.verified_at

abbrev pub chain_record : ChainDocument → ℕ → RegistryChainRecord
chain_record c verified_at = record {
  chain_id = c.chain_id;
  network_family = c.network_family;
  network_chain_id = c.network_chain_id;
  rpc_providers = c.rpc_providers;
  required_confirmations = c.required_confirmations;
  version = c.version;
  verified_at = verified_at;
}

-- `chains.push`, where `verifiedAt` is a date.
abbrev pub chain_records : List ChainDocument → List RegistryChainRecord
chain_records [] = []
chain_records (c ∷ cs) =
    let rest = chain_records cs in
    elim c.verified_at [ none ↦ rest | some at ↦ chain_record c at ∷ rest ]

abbrev pub token_record : TokenDocument → ℕ → RegistryTokenRecord
token_record t verified_at = record {
  token_id = t.token_id;
  chain = t.chain;
  asset_type = t.asset_type;
  symbol = t.symbol;
  contract_address = t.contract_address;
  normalized_contract_address = t.normalized_contract_address;
  decimals = t.decimals;
  verification_policy = t.verification_policy;
  version = t.version;
  verified_at = verified_at;
}

-- `tokens.push`, where `verifiedAt` is a date.
abbrev pub token_records : List TokenDocument → List RegistryTokenRecord
token_records [] = []
token_records (t ∷ ts) =
    let rest = token_records ts in
    elim t.verified_at [ none ↦ rest | some at ↦ token_record t at ∷ rest ]

abbrev pub chain_no_later : Collation → ChainDocument → ChainDocument → Bool
chain_no_later o a b = o.no_later a.chain_id b.chain_id

abbrev pub token_no_later : Collation → TokenDocument → TokenDocument → Bool
token_no_later o a b =
    if a.chain == b.chain then o.no_later a.token_id b.token_id else o.no_later a.chain b.chain

abbrev pub chain_documents : Collation → List ChainDocument → List ChainDocument
chain_documents o chains = sort_by (chain_no_later o) (filter is_enabled_chain chains)

-- `refresh`, whose two queries may see the database at two times.
unfoldable pub refresh : Collation → ℕ → List ChainDocument → List TokenDocument → RegistrySnapshot
refresh o now chain_docs token_docs =
    let found_chains = chain_documents o chain_docs in
    let found_tokens =
      sort_by (token_no_later o) (filter (is_enabled_token found_chains) token_docs) in
    let chains = chain_records found_chains in
    let tokens = token_records found_tokens in
    record {
      revision =
          o.digest (map (λ (c : RegistryChainRecord). (c.chain_id, c.version)) chains)
            (map (λ (t : RegistryTokenRecord). (t.token_id, t.version)) tokens);
      loaded_at = now;
      chains = chains;
      tokens = tokens;
    }
