-- ===== src/Creation/Transaction.antt =====
-- The transaction that creates a payment: the callback of `#createPayment`
-- (src/application/payments/payment-service.ts).
use oscar_payment_gateway.Prelude.{ℕ, ◌-◌, Bool, ◌&&◌, Option, none, some, ◌==◌, any, leb}
use oscar_payment_gateway.Store.{Key, Text, Payment}
use oscar_payment_gateway.Screening.{ScreeningVerdict, screening_status_for_verdict}
use oscar_payment_gateway.Creation.Documents.{
  Books, MerchantWallet, AddressRow, IdempotencyKey, PaymentBody, CreatePaymentInput, CreationAudit,
}
use oscar_payment_gateway.Creation.Effect.{
  Step, validation, not_found, internal, compliance_hold, type_error, duplicate_key, ok, require,
  some_or, write_or, get_books, ◌>>=◌, ◌>>◌,
}
use oscar_payment_gateway.Creation.Uri.{build_eip681_uri}
use oscar_payment_gateway.Creation.Reserve.{
  PaymentRegistrySnapshot, reserve_payment_configuration, allocate_wallet,
}
use oscar_payment_gateway.Creation.Insert.{
  insert_address, insert_payment, insert_key, with_creation_audit,
}
use oscar_payment_gateway.Creation.Terms.{
  Services, Fresh, new_payment, new_address, new_audit, new_body, new_key, uri_input, key_row,
}

-- The inserts of the transaction, in their order.
unfoldable pub write_key : Option IdempotencyKey → PaymentBody → Step PaymentBody
unfolding ◌>>=◌ insert_key
write_key none body = ok body
write_key (some k) body = write_or duplicate_key (insert_key k) >> ok body

abbrev pub write_payment :
    Payment → CreationAudit → Option IdempotencyKey → PaymentBody → Step PaymentBody
write_payment p audit k body = do
  write_or duplicate_key (insert_payment p)
  write_or internal (λ b. some (with_creation_audit audit b))
  write_key k body

unfoldable pub write_creation :
    AddressRow → Payment → CreationAudit → Option IdempotencyKey → PaymentBody → Step PaymentBody
unfolding ◌>>=◌ insert_address insert_payment write_key
write_creation a p audit k body =
    write_or duplicate_key (insert_address a) >> write_payment p audit k body

-- The callback of the transaction, from its last step to its first.
module _ (w : Services) (f : Fresh) (merchant : Key) (i : CreatePaymentInput)
    (amount expiry_sec : ℕ) (fingerprint : Text) (key : Option Text) where
  abbrev pub store_payment :
      PaymentRegistrySnapshot → MerchantWallet → Text → ScreeningVerdict → Text → Step PaymentBody
  store_payment s wallet recipient verdict uri =
      let p = new_payment f merchant i amount expiry_sec s (screening_status_for_verdict verdict) in
      let body = new_body p recipient uri f.now in
      write_creation (new_address w f merchant i wallet recipient) p (new_audit p)
        (key_row (λ answer k. new_key w f.now merchant k fingerprint answer) body key) body

  abbrev pub link_payment :
      PaymentRegistrySnapshot → MerchantWallet → Text → ScreeningVerdict → Step PaymentBody
  link_payment s wallet recipient verdict = do
    uri ← some_or (build_eip681_uri w.get_address (uri_input s i recipient)) type_error
    store_payment s wallet recipient verdict uri

  abbrev pub screen_recipient : PaymentRegistrySnapshot → MerchantWallet → Text → Step PaymentBody
  screen_recipient s wallet recipient = do
    verdict ← some_or (w.screen recipient i.chain) compliance_hold
    link_payment s wallet recipient verdict

  abbrev pub derive_recipient :
      PaymentRegistrySnapshot → MerchantWallet → Key → Text → Step PaymentBody
  derive_recipient s wallet network xpub = do
    recipient ← some_or (w.derive xpub network (wallet.next_derivation_index - 1)) internal
    screen_recipient s wallet recipient

  abbrev pub with_network : PaymentRegistrySnapshot → MerchantWallet → Key → Step PaymentBody
  with_network s wallet network = do
    xpub ← some_or wallet.public_extended_key internal
    derive_recipient s wallet network xpub

  abbrev pub with_wallet : PaymentRegistrySnapshot → MerchantWallet → Step PaymentBody
  with_wallet s wallet = do
    network ← some_or (w.network_of i.chain) validation
    with_network s wallet network

  abbrev pub for_active : PaymentRegistrySnapshot → Step PaymentBody
  for_active s = do wallet ← allocate_wallet merchant i.chain; with_wallet s wallet

  abbrev pub for_merchant : PaymentRegistrySnapshot → Bool → Step PaymentBody
  for_merchant s active = require active not_found >> for_active s

  abbrev is_active_merchant : Books → Bool
  is_active_merchant b = any (λ m. m == merchant) b.active_merchants

  abbrev pub in_bounds : PaymentRegistrySnapshot → Step PaymentBody
  in_bounds s = do active ← get_books is_active_merchant; for_merchant s active

  abbrev pub with_snapshot : PaymentRegistrySnapshot → Step PaymentBody
  with_snapshot s =
      require (leb s.token_min_amount amount && leb amount s.token_max_amount) validation
      >> in_bounds s

  unfoldable pub create_in_transaction : Step PaymentBody
  unfolding ◌>>=◌ reserve_payment_configuration allocate_wallet build_eip681_uri write_creation
  create_in_transaction = do s ← reserve_payment_configuration i.chain i.token; with_snapshot s
