-- ===== src/Creation/Created.antt =====
-- What a transaction that creates a payment has read, checked and written
-- (src/application/payments/payment-service.ts).
use oscar_payment_gateway.Prelude.{
  ℕ, ◌-◌, ◌≡◌, sym, ap, ◌∙◌, subst, true, ◌&&◌, Option, none, some, ◌==◌, any, leb,
}
use mathlib.Core.Option.{some-injective}
use oscar_payment_gateway.Store.{Key, Text, Payment}
use oscar_payment_gateway.Screening.{ScreeningVerdict, screening_status_for_verdict}
use oscar_payment_gateway.Creation.Documents.{
  Books, MerchantWallet, IdempotencyKey, PaymentBody, CreatePaymentInput, AddressRow, CreationAudit,
}
use oscar_payment_gateway.Creation.Effect.{
  returned, step-returned, some_or-returned, get_books-returned, require-returned,
  write_or-returned, ok-returned, ok, write_or, ◌>>◌, validation, not_found, internal,
  compliance_hold, type_error, duplicate_key,
}
use oscar_payment_gateway.Creation.Uri.{build_eip681_uri}
use oscar_payment_gateway.Creation.Reserve.{
  PaymentRegistrySnapshot, reserve_payment_configuration, allocate_wallet,
}
use oscar_payment_gateway.Creation.Insert.{
  insert_address, insert_payment, insert_key, with_creation_audit,
}
use oscar_payment_gateway.Creation.{
  Services, Fresh, uri_input, new_payment, new_address, new_audit, new_body, new_key, key_row,
  write_key, write_payment, write_creation, create_in_transaction, with_snapshot, in_bounds,
  for_merchant, for_active, with_wallet, with_network, derive_recipient, screen_recipient,
  link_payment, store_payment,
}

-- The key's row, if there is a key, was inserted last.
abbrev pub KeyWritten : Option IdempotencyKey → Books → Books → Type 0
KeyWritten none b after = b ≡ after
KeyWritten (some k) b after = insert_key k b ≡ some after

-- The inserts that succeeded.
pub record Written (a : AddressRow) (p : Payment) (audit : CreationAudit)
    (k : Option IdempotencyKey) (b after : Books) : Type 0 where
  pub addressed : Books
  pub address_inserted : insert_address a b ≡ some addressed
  pub paid : Books
  pub payment_inserted : insert_payment p addressed ≡ some paid
  pub key_written : KeyWritten k (with_creation_audit audit paid) after

write_key-KeyWritten :
    (k : Option IdempotencyKey) (body answer : PaymentBody) (b after : Books)
    → write_key k body b ≡ returned answer after
    → (body ≡ answer) × KeyWritten k b after
unfolding write_key
write_key-KeyWritten none body answer b after h = ok-returned body answer b after h
write_key-KeyWritten (some k) body answer b after h =
    let (keyed, kt, h1) =
      write_or-returned (ok body) b after answer duplicate_key (insert_key k) h in
    let (same, done) = ok-returned body answer keyed after h1 in (same, kt ∙ ap some done)

write_creation-Written :
    (a : AddressRow) (p : Payment) (audit : CreationAudit) (k : Option IdempotencyKey)
    (body answer : PaymentBody) (b after : Books)
    → write_creation a p audit k body b ≡ returned answer after
    → (body ≡ answer) × Written a p audit k b after
unfolding write_creation
write_creation-Written a p audit k body answer b after h =
    let audited : Books → Option Books = λ c. some (with_creation_audit audit c) in
    let (addressed, at, h1) =
      write_or-returned (write_payment p audit k body) b after answer duplicate_key
        (insert_address a) h in
    let (paid, pt, h2) =
      write_or-returned (write_or internal audited >> write_key k body) addressed after answer
        duplicate_key (insert_payment p) h1 in
    let (last, lt, h3) =
      write_or-returned (write_key k body) paid after answer internal audited h2 in
    let (same, done) = write_key-KeyWritten k body answer last after h3 in
    (
      same,
      record {
        addressed = addressed;
        address_inserted = at;
        paid = paid;
        payment_inserted = pt;
        key_written = subst (λ c. KeyWritten k c after) (sym (some-injective _ _ lt)) done;
      },
    )

-- A creation that returned.
pub record Created (w : Services) (f : Fresh) (merchant : Key) (i : CreatePaymentInput)
    (amount expiry_sec : ℕ) (fingerprint : Text) (key : Option Text) (b after : Books)
    (answer : PaymentBody) : Type 0 where
  pub snapshot : PaymentRegistrySnapshot
  pub reserved : Books
  pub reserves : reserve_payment_configuration i.chain i.token b ≡ returned snapshot reserved
  pub bounded :
      (leb snapshot.token_min_amount amount && leb amount snapshot.token_max_amount) ≡ true
  pub active : any (λ m. m == merchant) reserved.active_merchants ≡ true
  pub wallet : MerchantWallet
  pub allocated : Books
  pub allocates : allocate_wallet merchant i.chain reserved ≡ returned wallet allocated
  pub network : Key
  pub allowed : w.network_of i.chain ≡ some network
  pub xpub : Text
  pub has_xpub : wallet.public_extended_key ≡ some xpub
  pub recipient : Text
  pub derived : w.derive xpub network (wallet.next_derivation_index - 1) ≡ some recipient
  pub verdict : ScreeningVerdict
  pub screened : w.screen recipient i.chain ≡ some verdict
  pub uri : Text
  pub linked : build_eip681_uri w.get_address (uri_input snapshot i recipient) ≡ some uri
  pub answered :
      new_body
        (new_payment f merchant i amount expiry_sec snapshot (screening_status_for_verdict verdict))
        recipient
        uri
        f.now
      ≡ answer
  pub written :
      let p =
        new_payment f merchant i amount expiry_sec snapshot
          (screening_status_for_verdict verdict) in
      Written
        (new_address w f merchant i wallet recipient)
        p
        (new_audit p)
        (key_row
          (λ body k. new_key w f.now merchant k fingerprint body)
          (new_body p recipient uri f.now)
          key)
        allocated
        after

-- A transaction that returns has passed every check and made every write.
pub create_in_transaction-Created :
    (w : Services) (f : Fresh) (merchant : Key) (i : CreatePaymentInput) (amount expiry_sec : ℕ)
    (fingerprint : Text) (key : Option Text) (b after : Books) (answer : PaymentBody)
    → create_in_transaction w f merchant i amount expiry_sec fingerprint key b
      ≡ returned answer after
    → Created w f merchant i amount expiry_sec fingerprint key b after answer
unfolding create_in_transaction
create_in_transaction-Created w f merchant i amount expiry_sec fingerprint key b after answer h =
    let (s, reserved, reserves, h1) =
      step-returned (with_snapshot w f merchant i amount expiry_sec fingerprint key) b after answer
        (reserve_payment_configuration i.chain i.token) h in
    let (bounded, h2) =
      require-returned (in_bounds w f merchant i amount expiry_sec fingerprint key s) reserved after
        answer (leb s.token_min_amount amount && leb amount s.token_max_amount) validation h1 in
    let is_active = λ (c : Books). any (λ m. m == merchant) c.active_merchants in
    let h3 =
      get_books-returned (for_merchant w f merchant i amount expiry_sec fingerprint key s) reserved
        after answer is_active h2 in
    let (active, h4) =
      require-returned (for_active w f merchant i amount expiry_sec fingerprint key s) reserved
        after answer (is_active reserved) not_found h3 in
    let (wallet, allocated, allocates, h5) =
      step-returned (with_wallet w f merchant i amount expiry_sec fingerprint key s) reserved after
        answer (allocate_wallet merchant i.chain) h4 in
    let (network, allowed, h6) =
      some_or-returned (with_network w f merchant i amount expiry_sec fingerprint key s wallet)
        allocated after answer (w.network_of i.chain) validation h5 in
    let (xpub, has_xpub, h7) =
      some_or-returned
        (derive_recipient w f merchant i amount expiry_sec fingerprint key s wallet network)
        allocated after answer wallet.public_extended_key internal h6 in
    let (recipient, derived, h8) =
      some_or-returned (screen_recipient w f merchant i amount expiry_sec fingerprint key s wallet)
        allocated after answer (w.derive xpub network (wallet.next_derivation_index - 1)) internal
        h7 in
    let (verdict, screened, h9) =
      some_or-returned
        (link_payment w f merchant i amount expiry_sec fingerprint key s wallet recipient) allocated
        after answer (w.screen recipient i.chain) compliance_hold h8 in
    let (uri, linked, h10) =
      some_or-returned
        (store_payment w f merchant i amount expiry_sec fingerprint key s wallet recipient verdict)
        allocated after answer (build_eip681_uri w.get_address (uri_input s i recipient)) type_error
        h9 in
    let p = new_payment f merchant i amount expiry_sec s (screening_status_for_verdict verdict) in
    let body = new_body p recipient uri f.now in
    let (answered, written) =
      write_creation-Written (new_address w f merchant i wallet recipient) p (new_audit p)
        (key_row (λ body k. new_key w f.now merchant k fingerprint body) body key) body answer
        allocated after h10 in
    record {
      snapshot = s;
      reserved = reserved;
      reserves = reserves;
      bounded = bounded;
      active = active;
      wallet = wallet;
      allocated = allocated;
      allocates = allocates;
      network = network;
      allowed = allowed;
      xpub = xpub;
      has_xpub = has_xpub;
      recipient = recipient;
      derived = derived;
      verdict = verdict;
      screened = screened;
      uri = uri;
      linked = linked;
      answered = answered;
      written = written;
    }
