-- ===== src/Creation/Insert.antt =====
-- The inserts of a creation under their unique indexes (src/infrastructure/mongodb/models.ts).
use oscar_payment_gateway.Prelude.{
  Bool, ◌&&◌, ◌||◌, Option, none, some, [], ◌∷◌, ◌++◌, ◌==◌, any, put, is_some, if◌then◌else◌,
}
use oscar_payment_gateway.Store.{Key, Text, Payment, WalletAddress, assigned}
use oscar_payment_gateway.Texts.{text_eq}
use oscar_payment_gateway.Creation.Documents.{Books, AddressRow, IdempotencyKey, CreationAudit}

abbrev pub same_index : AddressRow → AddressRow → Bool
same_index a r = r.xpub_id == a.xpub_id && r.derivation_index == a.derivation_index

abbrev pub same_address : AddressRow → AddressRow → Bool
same_address a r = r.chain == a.chain && text_eq r.normalized_address a.normalized_address

-- The four unique indexes of the wallet addresses.
abbrev pub address_taken : AddressRow → AddressRow → Bool
address_taken a r =
    r.wallet_address_id == a.wallet_address_id
    || same_address a r
    || same_index a r
    || r.assigned_payment_id == a.assigned_payment_id

-- What matching reads of the address.
abbrev pub wallet_of : AddressRow → WalletAddress
wallet_of a = record {
  chain = a.chain;
  normalized_address = a.normalized_address;
  status = assigned;
  assigned_payment_id = some a.assigned_payment_id;
}

abbrev pub with_address : AddressRow → Books → Books
with_address a b = record b {
  addresses = b.addresses ++ a ∷ [];
  db = record b.db { wallets = b.db.wallets ++ wallet_of a ∷ [] };
}

-- `WalletAddress.create`; `none`: a duplicate key.
unfoldable pub insert_address : AddressRow → Books → Option Books
insert_address a b = if any (address_taken a) b.addresses then none else some (with_address a b)

abbrev pub with_payment : Payment → Books → Books
with_payment p b = record b {
  db = record b.db { payments = put p.payment_id p b.db.payments };
  paid_addresses = b.paid_addresses ++ p.wallet_address_id ∷ [];
}

-- The unique indexes on the payment's identifier and on its wallet address; the entries of the latter
-- are `paid_addresses`.
abbrev pub payment_taken : Payment → Books → Bool
payment_taken p b =
    is_some (b.db.payments p.payment_id) || any (λ id. id == p.wallet_address_id) b.paid_addresses

-- `Payment.create`.
unfoldable pub insert_payment : Payment → Books → Option Books
insert_payment p b = if payment_taken p b then none else some (with_payment p b)

abbrev pub is_key_of : Key → Text → IdempotencyKey → Bool
is_key_of scope key k = k.scope == scope && text_eq k.key key

abbrev pub with_key : IdempotencyKey → Books → Books
with_key k b = record b { idempotency_keys = b.idempotency_keys ++ k ∷ [] }

-- `IdempotencyKey.create`.
unfoldable pub insert_key : IdempotencyKey → Books → Option Books
insert_key k b =
    if any (is_key_of k.scope k.key) b.idempotency_keys then none else some (with_key k b)

abbrev pub with_creation_audit : CreationAudit → Books → Books
with_creation_audit a b = record b { creation_audits = b.creation_audits ++ a ∷ [] }
