-- ===== src/Interpretation/Acceptance.antt =====
-- What an accepted interpretation rests on (src/application/ingestion/event-interpretation-service.ts).
use oscar_payment_gateway.Prelude.{
  ℕ, zero, suc, ◌<◌, ◌≡◌, refl, sym, ap, ◌∙◌, subst, Bool, true, false, Option, none, some, List,
  ◌==◌, any, find, Bool-cases, inl, inr, arith,
}
use oscar_payment_gateway.Store.{
  Key, Text, AssetType, erc20, native, accepted, rejected, Event, WalletAddress,
  InterpretationReason, unknown_recipient, disabled_or_unknown_chain, malformed_log,
  malformed_transaction, nonzero_value_missing,
}
use oscar_payment_gateway.Texts.{pos, negsuc}
use oscar_payment_gateway.Registry.{
  RegistrySnapshot, RegistryTokenRecord, RegistryChainRecord, VerificationPolicy,
  balance_delta_required, event_only,
}
use oscar_payment_gateway.Interpretation.{
  BalanceDeltaRead, agreeing, disagreement, unavailable, ReadDelta, Judgement, refuse, judge_delta,
  judge_policy, judge_token, is_known_recipient, is_token_of, is_native_token_of, fields_match,
  native_fields_match, matches, judge, judge_native, judge_erc20, judge_asset,
}
use oscar_payment_gateway.Interpretation.Decode.{
  decode_transfer_from_raw, decode_native_transfer_from_raw,
}

-- By the kind of asset: the capture agrees with the event's fields.
abbrev pub is_captured : AssetType → Event → Bool
is_captured native e = matches (native_fields_match e) (decode_native_transfer_from_raw e.raw_event)
is_captured erc20 e = matches (fields_match e) (decode_transfer_from_raw e.raw_event)

-- By the kind of asset: the registry's record that the event is about.
abbrev pub is_about : AssetType → Event → RegistryTokenRecord → Bool
is_about native = is_native_token_of
is_about erc20 = is_token_of

abbrev pub contract_of : AssetType → Event → Option Text
contract_of native e = none
contract_of erc20 e = e.normalized_contract_address

-- By the token's policy: what was received.
abbrev pub IsReceived : VerificationPolicy → BalanceDeltaRead → Option ℕ → Type 0
IsReceived event_only read received = received ≡ none
IsReceived balance_delta_required read received =
    (n : ℕ) × (read ≡ agreeing (some (pos n))) × (0 < n) × (received ≡ some n)

-- What is known of an event that is accepted, by the kind of asset: its capture agrees with its
-- fields, the registry lists its token, a wallet of the gateway receives it, and the providers agree
-- on a positive delta where the token's policy wants one.
pub record Supports (asset : AssetType) (read_delta : ReadDelta) (registry : RegistrySnapshot)
    (wallets : List WalletAddress) (e : Event) (j : Judgement) : Type 0 where
  pub captured : is_captured asset e ≡ true
  pub token : RegistryTokenRecord
  pub listed : find (is_about asset e) registry.tokens ≡ some token
  pub token_set : j.token_id ≡ some token.token_id
  pub recipient : is_known_recipient e.chain e.normalized_to_address wallets ≡ true
  pub received :
      IsReceived token.verification_policy
        (read_delta e.chain (contract_of asset e) e.normalized_to_address e.block_number)
        j.verified_received_amount

judge_delta-accepted :
    (id : Key) (read : BalanceDeltaRead)
    → (judge_delta id read).status ≡ accepted
    → ((judge_delta id read).token_id ≡ some id)
      × IsReceived balance_delta_required read (judge_delta id read).verified_received_amount
judge_delta-accepted id disagreement h = absurd (ground arith)
judge_delta-accepted id unavailable h = absurd (ground arith)
judge_delta-accepted id (agreeing none) h = absurd (ground arith)
judge_delta-accepted id (agreeing (some (negsuc n))) h = absurd (ground arith)
judge_delta-accepted id (agreeing (some (pos zero))) h = absurd (ground arith)
judge_delta-accepted id (agreeing (some (pos (suc n)))) h =
    let positive : (suc n == 0) ≡ false = ground arith in
    (rw positive refl, (suc n, refl, omega arith, rw positive refl))

judge_policy-accepted :
    (id : Key) (policy : VerificationPolicy) (read : BalanceDeltaRead)
    → (judge_policy id policy read).status ≡ accepted
    → ((judge_policy id policy read).token_id ≡ some id)
      × IsReceived policy read (judge_policy id policy read).verified_received_amount
judge_policy-accepted id event_only read h = (refl, refl)
judge_policy-accepted id balance_delta_required read h = judge_delta-accepted id read h

refused :
    {A : Type 0} (reason : InterpretationReason) (token_id : Option Key) (j : Judgement)
    → j ≡ refuse reason token_id
    → j.status ≡ accepted
    → A
refused reason token_id j same h =
    let wrong : rejected ≡ accepted = ap (λ (k : Judgement). k.status) (sym same) ∙ h in
    absurd (ground (arith, wrong))

-- What the token's part of an acceptance rests on.
record TokenSupports (read : BalanceDeltaRead) (known : Bool) (found : Option RegistryTokenRecord)
    (j : Judgement) : Type 0 where
  token : RegistryTokenRecord
  listed : found ≡ some token
  token_set : j.token_id ≡ some token.token_id
  recipient : known ≡ true
  received : IsReceived token.verification_policy read j.verified_received_amount

module _ (rd : ReadDelta) (ws : List WalletAddress) (e : Event) where
  judge_token-accepted :
      (contract : Option Text) (found : Option RegistryTokenRecord)
      → (judge_token rd ws e contract found).status ≡ accepted
      → TokenSupports
          (rd e.chain contract e.normalized_to_address e.block_number)
          (is_known_recipient e.chain e.normalized_to_address ws)
          found
          (judge_token rd ws e contract found)
  unfolding judge_token
  judge_token-accepted contract none h = absurd (ground arith)
  judge_token-accepted contract (some token) h =
      let read = rd e.chain contract e.normalized_to_address e.block_number in
      elim (Bool-cases (is_known_recipient e.chain e.normalized_to_address ws)) [
        | inr stranger ↦
            refused unknown_recipient (some token.token_id)
              (judge_token rd ws e contract (some token)) (rw (stranger, judge_token) refl) h
        | inl ours ↦
            let judged : judge_token rd ws e contract (some token)
                ≡ judge_policy token.token_id token.verification_policy read =
              rw (ours, judge_token) refl in
            let (token_set, received) =
              judge_policy-accepted token.token_id token.verification_policy read
                (ap (λ (k : Judgement). k.status) (sym judged) ∙ h) in
            record {
              token = token;
              listed = refl;
              token_set = ap (λ (k : Judgement). k.token_id) judged ∙ token_set;
              recipient = ours;
              received =
                  subst
                    (λ (k : Judgement).
                      IsReceived token.verification_policy read k.verified_received_amount)
                    (sym judged) received;
            }
      ]

module _ (rd : ReadDelta) (registry : RegistrySnapshot) (ws : List WalletAddress) (e : Event) where
  Supports-of :
      (asset : AssetType) (j : Judgement)
      → is_captured asset e ≡ true
      → j ≡ judge_token rd ws e (contract_of asset e) (find (is_about asset e) registry.tokens)
      → j.status ≡ accepted
      → Supports asset rd registry ws e j
  Supports-of asset j captured judged h =
      let s =
        judge_token-accepted rd ws e (contract_of asset e) (find (is_about asset e) registry.tokens)
          (ap (λ (k : Judgement). k.status) (sym judged) ∙ h) in
      subst (Supports asset rd registry ws e) (sym judged) (record {
        captured = captured;
        token = s.token;
        listed = s.listed;
        token_set = s.token_set;
        recipient = s.recipient;
        received = s.received;
      })

  judge_erc20-accepted :
      (judge_erc20 rd registry ws e).status ≡ accepted
      → Supports erc20 rd registry ws e (judge_erc20 rd registry ws e)
  unfolding judge_erc20 judge_token
  judge_erc20-accepted h = elim (Bool-cases (is_captured erc20 e)) [
    | inl captured ↦
        Supports-of erc20 (judge_erc20 rd registry ws e) captured (rw (captured, judge_erc20) refl)
          h
    | inr wrong ↦
        refused malformed_log none (judge_erc20 rd registry ws e) (rw (wrong, judge_erc20) refl) h
  ]

  judge_native-accepted :
      (judge_native rd registry ws e).status ≡ accepted
      → Supports native rd registry ws e (judge_native rd registry ws e)
  unfolding judge_native
  judge_native-accepted h = elim (Bool-cases (is_captured native e)) [
    | inr wrong ↦
        refused malformed_transaction none (judge_native rd registry ws e)
          (rw (wrong, judge_native) refl) h
    | inl captured ↦ elim (Bool-cases (e.amount == 0)) [
      | inl nothing ↦
          refused nonzero_value_missing none (judge_native rd registry ws e)
            (rw (captured, judge_native) (rw nothing refl)) h
      | inr positive ↦
          Supports-of native (judge_native rd registry ws e) captured
            (rw (captured, judge_native) (rw positive refl)) h
    ]
  ]

  judge_asset-accepted :
      (asset : AssetType)
      → (judge_asset asset rd registry ws e).status ≡ accepted
      → Supports asset rd registry ws e (judge_asset asset rd registry ws e)
  unfolding judge_asset
  judge_asset-accepted native h = judge_native-accepted h
  judge_asset-accepted erc20 h = judge_erc20-accepted h

  -- The event's chain is among those that the registry lists.
  abbrev pub is_on_enabled_chain : Bool
  is_on_enabled_chain = any (λ (c : RegistryChainRecord). c.chain_id == e.chain) registry.chains

  -- An event is judged to be accepted only on an enabled chain, with a capture that agrees with its
  -- fields, a token that the registry lists, a wallet of the gateway that receives it, and, where the
  -- token's policy wants it, a positive delta that the providers agree on and that is what is recorded.
  pub judge-accepted :
      (judge rd registry ws e).status ≡ accepted
      → (is_on_enabled_chain ≡ true)
        × Supports e.asset_type rd registry ws e (judge rd registry ws e)
  unfolding judge judge_asset
  judge-accepted h = elim (Bool-cases is_on_enabled_chain) [
    | inr off ↦
        refused disabled_or_unknown_chain none (judge rd registry ws e) (rw (off, judge) refl) h
    | inl on ↦
        let judged : judge rd registry ws e ≡ judge_asset e.asset_type rd registry ws e =
          rw (on, judge) refl in
        (
          on,
          subst (Supports e.asset_type rd registry ws e) (sym judged) (
              judge_asset-accepted e.asset_type
                (ap (λ (k : Judgement). k.status) (sym judged) ∙ h)),
        )
  ]
