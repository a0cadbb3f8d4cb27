-- ===== src/Matching/Notify.antt =====
-- What the outbox row of a transition leaves alone.
use oscar_payment_gateway.Prelude.{any, ◌≡◌, refl, List, [], ◌∷◌, Bool-cases, inl, inr, arith}
use oscar_payment_gateway.Store.{has_key, Key, Db, Env, WebhookPayload, commit, ◌>>=◌, write_outbox}
use oscar_payment_gateway.Matching.Outcomes.{Config, notify}

-- Notifying never aborts, and touches neither payments nor events.
pub notify_commits :
    (cfg : Config) (env : Env) (w : WebhookPayload) (db : Db)
    → (ids : List Key) × (mid : Db) × (notify cfg env w db ≡ commit ids mid)
      × (mid.payments ≡ db.payments)
      × (mid.events ≡ db.events)
unfolding notify ◌>>=◌ write_outbox
notify_commits cfg env w db = elim (Bool-cases cfg.has_outbox) [
  | inr off ↦ ([], db, rw off, refl, refl)
  | inl on ↦ elim (Bool-cases (any (has_key w) db.deliveries)) [
    | inl old ↦ ([], db, rw on (rw old), refl, refl)
    | inr new ↦
        (env.uuid ∷ [], (write_outbox env w db).1, rw on (ground arith), ground arith, ground arith)
  ]
]
