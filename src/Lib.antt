-- ===== src/Lib.antt =====
-- The payment core of the Oscar payment gateway: how payments are created, how on-chain transfers are
-- persisted, interpreted and claimed by payments, how a payment goes from pending to confirmed, expired or
-- failed, what a chain reorganisation does to it, and the audit log, the webhook deliveries and the
-- screening cache beside it.
--
-- The parts and their files
--   Payments        the guarded state machine, domain/payments/payment-state-machine.ts:
--                   `evaluate_payment_transition`; Payments/Table has the transition table as a
--                   relation, Payments/Graph the paths of the state diagram.
--   Store           the documents of infrastructure/mongodb/models.ts (Store/Documents), the
--                   transactions of infrastructure/mongodb/transactions.ts (Store/Transaction), and the
--                   writes that the services share, with the outbox of
--                   application/webhooks/webhook-outbox.ts (Store/Writes).
--   Money           domain/money/base-unit.ts; Texts has the patterns and integers that the services read
--                   from strings.
--   Ingestion       application/ingestion/event-ingestion-service.ts: `derive_event_id` and `ingest`, over
--                   the unique indexes of the on-chain events.
--   Registry        application/registry/registry-reader.ts: the snapshot of enabled chains and tokens.
--   Interpretation  application/ingestion/event-interpretation-service.ts: `judge` decides on an event,
--                   `finalize` writes the outcome once; Interpretation/Decode reads the raw captures.
--   Creation        application/payments/payment-service.ts: `create_payment` and `get_payment` (Creation/View),
--                   over `Books`, which is `Db` with the collections that only a creation uses;
--                   the transaction is in Creation/Transaction, its error monad in Creation/Effect;
--                   Creation/Reserve has `reservePaymentConfiguration` of
--                   application/registry/registry-service.ts, Creation/Uri domain/chain/payment-uri.ts.
--   Watcher         infrastructure/chain/mongo-cursor-storage.ts (Watcher/Cursor) and
--                   application/watcher/reorg-resolution-service.ts: `resolve` searches the fork point,
--                   orphans what is above it, settles the payments and rewinds the cursor.
--   Lifecycle       what every operation keeps of the database, and the rules that compose it.
--   Screening       the verdicts of domain/compliance/screening-provider.ts.
--   Matching        application/processing/payment-matching-service.ts: `match_event` reads and routes,
--                   `apply_claim` (Matching/Apply) is the claim transaction, its routes are in
--                   Matching/Routes, the claim and its total in Matching/Claims.
--   Confirmation    application/processing/payment-confirmation-service.ts: `advance_payment` is one
--                   step; its writes are in Confirmation/Transitions.
--   Audit           the hash chain of infrastructure/mongodb/audit-service.ts: `append_audit_entry` and
--                   `verify_audit_chain`. The services above write their audit rows through a plain
--                   log (`append_audit`), which leaves the chain to this part.
--   Delivery        the worker of infrastructure/queue/webhook-delivery-queue.ts: `process` is one run on
--                   an outbox row, `run_job` the runs of one queue job.
--   ScreeningCache  application/compliance/screening-service.ts: `screen` behind the cache of verdicts.
--                   The confirmation step takes its screening from outside (`World`).
--   Scheduler       application/scheduler/scheduler-service.ts: the expiry sweep and the recheck of the
--                   confirmations.
--   Examples        the theorems at concrete documents.
-- All these paths start with src/ of the repository.
--
-- How state is modelled
--   `Db` is the database: payments by identifier, and the other collections as lists. A transaction is a
--   function from a database to a commit or an abort; an abort restores the database, as MongoDB does.
--   The reads before a transaction see a database of their own (`seen`), and the writes run on `db`, so
--   that other workers may have written in between. The clock, fresh identifiers, the confirmation
--   readers, the review decisions and the screening provider are fields of `Env` and `World`; what
--   `Math.random` gives is a numerator over 2 ^ 53 (`Tick`).
--   Amounts and times are natural numbers, as the base-unit strings and dates of the source are never
--   negative; identifiers are numbers, addresses lists of characters. A duplicate key is a write that
--   changes nothing, as the source means it, also in a transaction. There is no fuel and no
--   unbounded loop: the runs of a delivery job are a list, and what they meet is arbitrary; the search of
--   a fork point takes `reorgMaxScanBlocks` as its bound, as the source does; a number is printed with one
--   digit more of fuel than it can need.
--
-- What is not modelled
--   The patterns of identifiers and of block hashes, which are keys here;
--   the retry of transient transaction errors, which repeats the whole transaction; the payment lock,
--   which the source names a mere reduction of contention; log lines and notes; the text of audit rows
--   beyond entity, action, states and event; lower case beyond ASCII; the watcher's polling, the services for
--   merchants and the registry's upkeep, authentication, HTTP, queues and Redis, which
--   are I/O or stand outside the life of a payment that is modelled here.
mod Prelude
pub mod Money
pub mod Texts
pub mod Registry
pub mod Ingestion
pub mod Interpretation
pub mod Creation
pub mod Watcher
pub mod Payments
pub mod Store
pub mod Lifecycle
pub mod Screening
pub mod Matching
pub mod Confirmation
pub mod Audit
pub mod Delivery
pub mod Scheduler
pub mod ScreeningCache
pub mod Examples
