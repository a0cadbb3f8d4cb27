-- ===== src/Creation/Allocation.antt =====
-- Derivation indexes are handed out once (src/application/payments/payment-service.ts).
use oscar_payment_gateway.Prelude.{
  ◌-◌, ◌<◌, ◌≡◌, refl, sym, ap, ◌∙◌, subst, Bool, true, false, Option, none, some, [], ◌∷◌, ◌++◌,
  any, find, update_first, is_some, if◌then◌else◌, arith,
}
use oscar_payment_gateway.Store.{Key, Text}
use oscar_payment_gateway.Creation.Documents.{
  Books, MerchantWallet, AddressRow, CreatePaymentInput, IdempotencyKey, StoredPaymentResponse,
}
use oscar_payment_gateway.Registry.{ChainDocument, TokenDocument}
use oscar_payment_gateway.Creation.Effect.{
  returned, raised, raised≢returned, returned-value, returned-books, unavailable, validation,
}
use oscar_payment_gateway.Creation.Reserve.{
  PaymentRegistrySnapshot, reserve_payment_configuration, allocate_wallet, allocate, reserve_token,
  reserve_chain, has_index_left, next_index, is_usable_chain, is_usable_token, is_active_wallet,
}
use oscar_payment_gateway.Creation.Insert.{same_index, is_key_of, insert_key, with_key}
use oscar_payment_gateway.Screening.{screening_status_for_verdict}
use oscar_payment_gateway.Creation.Created.{KeyWritten, create_in_transaction-Created}
use oscar_payment_gateway.Creation.Idempotency.{create_payment-create_once, create_once-responded}
use oscar_payment_gateway.Creation.Stored.{guarded-some, insert_address-done, insert_payment-done}
use oscar_payment_gateway.Creation.{
  Services, Fresh, create_payment, responded, new_address, new_payment,
}
use oscar_payment_gateway.Creation.Indexes.{
  IndexesBelow, AreUnique, All-map, update-IndexesBelow, handed_out, update-AreUnique,
  append-IndexesBelow, unused_index,
}

-- What the reservation of the registry's configuration leaves.
reserved_only :
    (chain token : Key) (b mid : Books) (s : PaymentRegistrySnapshot)
    → reserve_payment_configuration chain token b ≡ returned s mid
    → (mid.merchant_wallets ≡ b.merchant_wallets) × (mid.addresses ≡ b.addresses)
unfolding reserve_payment_configuration
reserved_only chain token b mid s h = go (find (is_usable_chain chain) b.chains) h
  where
    go_token :
        (c : ChainDocument) (t : Option TokenDocument)
        → reserve_token chain token c t b ≡ returned s mid
        → (mid.merchant_wallets ≡ b.merchant_wallets) × (mid.addresses ≡ b.addresses)
    go_token c none h = absurd (raised≢returned h)
    go_token c (some t) h =
        let left = sym (returned-books h) in
        (ap (λ (k : Books). k.merchant_wallets) left, ap (λ (k : Books). k.addresses) left)

    go :
        (c : Option ChainDocument)
        → reserve_chain chain token c b ≡ returned s mid
        → (mid.merchant_wallets ≡ b.merchant_wallets) × (mid.addresses ≡ b.addresses)
    go none h = absurd (raised≢returned h)
    go (some c) h = go_token c (find (is_usable_token chain token) b.tokens) h

-- The wallet that the allocation has taken, before its increment.
allocated_from :
    (merchant chain : Key) (b mid : Books) (w : MerchantWallet)
    → allocate_wallet merchant chain b ≡ returned w mid
    → (taken : MerchantWallet) × (find (has_index_left merchant chain) b.merchant_wallets
        ≡ some taken)
      × (w ≡ next_index taken)
      × (mid.merchant_wallets
          ≡ update_first (has_index_left merchant chain) next_index b.merchant_wallets)
      × (mid.addresses ≡ b.addresses)
unfolding allocate_wallet
allocated_from merchant chain b mid w h =
    go (find (has_index_left merchant chain) b.merchant_wallets) refl h
  where
    go :
        (o : Option MerchantWallet)
        → find (has_index_left merchant chain) b.merchant_wallets ≡ o
        → allocate merchant chain o b ≡ returned w mid
        → (taken : MerchantWallet) × (find (has_index_left merchant chain) b.merchant_wallets
            ≡ some taken)
          × (w ≡ next_index taken)
          × (mid.merchant_wallets
              ≡ update_first (has_index_left merchant chain) next_index b.merchant_wallets)
          × (mid.addresses ≡ b.addresses)
    go none e h =
        absurd (no_wallet (is_some (find (is_active_wallet merchant chain) b.merchant_wallets)) h)
      where
        no_wallet :
            (t : Bool) → (if t then raised unavailable else raised validation) ≡ returned w mid → ⊥
        no_wallet true h = raised≢returned h
        no_wallet false h = raised≢returned h
    go (some taken) e h =
        let left = sym (returned-books h) in
        (
          taken,
          e,
          sym (returned-value h),
          ap (λ (k : Books). k.merchant_wallets) left,
          ap (λ (k : Books). k.addresses) left,
        )

KeyWritten-elsewhere :
    (k : Option IdempotencyKey) (b after : Books)
    → KeyWritten k b after
    → (after.merchant_wallets ≡ b.merchant_wallets) × (after.addresses ≡ b.addresses)
unfolding insert_key
KeyWritten-elsewhere none b after h =
    (ap (λ (c : Books). c.merchant_wallets) (sym h), ap (λ (c : Books). c.addresses) (sym h))
KeyWritten-elsewhere (some k) b after h =
    let (free, stored) =
      guarded-some (any (is_key_of k.scope k.key) b.idempotency_keys) (with_key k b) after h in
    (ap (λ (c : Books). c.merchant_wallets) stored, ap (λ (c : Books). c.addresses) stored)

-- A creation that responds, and not by a replay, adds one address, at an index that no address of
-- the same extended key has, and leaves the extended keys of the wallets unique and every index
-- below the next one of its wallet, where both were so before.
pub creation_indexes :
    (w : Services) (f : Fresh) (merchant : Key) (i : CreatePaymentInput) (key : Option Text)
    (seen b after : Books) (r : StoredPaymentResponse)
    → AreUnique b.merchant_wallets
    → IndexesBelow b.merchant_wallets b.addresses
    → create_payment w (some true) f merchant i key seen b ≡ (responded r false, after)
    → (a : AddressRow) × (after.addresses ≡ b.addresses ++ a ∷ [])
      × (any (same_index a) b.addresses ≡ false)
      × AreUnique after.merchant_wallets
      × IndexesBelow after.merchant_wallets after.addresses
creation_indexes w f merchant i key seen b after r unique below h =
    let (amount, body, parsed, ran, same) =
      create_once-responded w f merchant i (w.fingerprint i) key b r after
        (create_payment-create_once w f merchant i key seen b r after h) in
    let c =
      create_in_transaction-Created w f merchant i amount _ (w.fingerprint i) key b after body
        ran in
    let a = new_address w f merchant i c.wallet c.recipient in
    let p = new_payment f merchant i amount _ c.snapshot (screening_status_for_verdict c.verdict) in
    let (ws1, as1) = reserved_only i.chain i.token b c.reserved c.snapshot c.reserves in
    let (taken, found, took, ws2, as2) =
      allocated_from merchant i.chain c.reserved c.allocated c.wallet c.allocates in
    let (_, addressed) =
      insert_address-done a c.allocated c.written.addressed c.written.address_inserted in
    let (_, paid) =
      insert_payment-done p c.written.addressed c.written.paid c.written.payment_inserted in
    let (ws3, as3) = KeyWritten-elsewhere _ _ after c.written.key_written in
    let p_left = has_index_left merchant i.chain in
    let wallets : after.merchant_wallets ≡ update_first p_left next_index b.merchant_wallets =
      ws3
      ∙ ap (λ (k : Books). k.merchant_wallets) paid
      ∙ ap (λ (k : Books). k.merchant_wallets) addressed
      ∙ ws2
      ∙ ap (update_first p_left next_index) ws1 in
    let rows : after.addresses ≡ b.addresses ++ a ∷ [] =
      as3
      ∙ ap (λ (k : Books). k.addresses) paid
      ∙ ap (λ (k : Books). k.addresses) addressed
      ∙ ap (λ k. k ++ a ∷ []) (as2 ∙ as1) in
    let found_before : find p_left b.merchant_wallets ≡ some taken =
      ap (find p_left) (sym ws1) ∙ found in
    let owner : a.xpub_id ≡ taken.xpub_id = ap (λ (k : MerchantWallet). k.xpub_id) took in
    let index : a.derivation_index ≡ taken.next_derivation_index =
      ap (λ (k : MerchantWallet). k.next_derivation_index - 1) took ∙ omega arith in
    let handed =
      All-map
        (λ (v : MerchantWallet) h same.
          let low = h (same ∙ owner) in subst (λ n. n < v.next_derivation_index) (sym index) low)
        (update_first p_left next_index b.merchant_wallets)
        (handed_out p_left b.merchant_wallets taken unique found_before) in
    (
      a,
      rows,
      unused_index b.merchant_wallets p_left taken a b.addresses found_before owner index below,
      subst AreUnique (sym wallets) (update-AreUnique p_left b.merchant_wallets unique),
      subst (λ ws. IndexesBelow ws after.addresses) (sym wallets)
          (subst (IndexesBelow (update_first p_left next_index b.merchant_wallets)) (sym rows) (
            append-IndexesBelow (update_first p_left next_index b.merchant_wallets) b.addresses a
              (update-IndexesBelow p_left b.merchant_wallets b.addresses below) handed)),
    )
