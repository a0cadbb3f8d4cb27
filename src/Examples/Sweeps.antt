-- ===== src/Examples/Sweeps.antt =====
-- The expiry sweep at concrete payments.
use oscar_payment_gateway.Prelude.{◌≡◌, refl, true, some, [], ◌∷◌, arith}
use oscar_payment_gateway.Payments.{pending, matched, expired}
use oscar_payment_gateway.Store.{Db, Payment}
use oscar_payment_gateway.Lifecycle.{DbEvolves, DbEvolves-refl}
use oscar_payment_gateway.Scheduler.{sweep_one, expire_due_payments}
use oscar_payment_gateway.Scheduler.Sweeps.{expire_due_payments-DbEvolves}
use oscar_payment_gateway.Scheduler.Expiry.{due_payment_expires}
use oscar_payment_gateway.Examples.Samples.{invoice, deposit, database, settings, at_time}

abbrev part_paid : Db
part_paid = database (invoice pending) (deposit 10 60 (some 7) true ∷ [])

abbrev meanwhile_matched : Db
meanwhile_matched = database (invoice matched) (deposit 10 60 (some 7) true ∷ [])

due_payment_expires_example :
    (q : Payment) × ((sweep_one settings (at_time 2000) (invoice pending) part_paid part_paid).0
      ≡ some true)
    × ((sweep_one settings (at_time 2000) (invoice pending) part_paid part_paid).1.payments 7
        ≡ some q)
    × (q.status ≡ expired)
    × (q.terminal_at ≡ some 2000)
    × (q.partial_amount_received ≡ some 60)
    × (q.underpayment_flag ≡ true)
    × (q.version ≡ 5)
due_payment_expires_example =
    due_payment_expires settings (at_time 2000) (invoice pending) part_paid part_paid refl refl
      (omega arith) (omega arith)

expire_due_payments-DbEvolves_example :
    DbEvolves part_paid
      (expire_due_payments settings
        (at_time 2000)
        ((invoice pending, part_paid, λ db. db) ∷ [])
        part_paid
        0).1
expire_due_payments-DbEvolves_example =
    expire_due_payments-DbEvolves settings (at_time 2000)
      ((invoice pending, part_paid, λ db. db) ∷ []) part_paid 0 ((λ db. DbEvolves-refl db), tt)
