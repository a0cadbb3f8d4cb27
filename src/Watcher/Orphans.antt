-- ===== src/Watcher/Orphans.antt =====
-- What a resolution does to events and payments
-- (src/application/watcher/reorg-resolution-service.ts).
use oscar_payment_gateway.Prelude.{
  ℕ, ◌≡◌, refl, sym, subst, Bool, true, Option, none, some, List, [], ◌∷◌, ◌==◌, any, update_all,
  if◌then◌else◌, if-elim, Bool-cases, Option-cases, inl, inr, arith,
}
use oscar_payment_gateway.Payments.{pending, confirmed, is}
use oscar_payment_gateway.Payments.Graph.{here}
use oscar_payment_gateway.Store.{Key, Text, Db, Event, Payment, append_audit, update_payment}
use oscar_payment_gateway.Lifecycle.{
  EventEvolves, EventEvolves-refl, EventsEvolve, DbEvolves, DbEvolves-refl, DbEvolves-trans,
  PaymentEvolves-refl,
}
use oscar_payment_gateway.Lifecycle.Rules.{
  IsChange, update_payment-DbEvolves, append_audit-DbEvolves,
}
use oscar_payment_gateway.Watcher.Cursor.{
  Watch, ChainCursorState, ReorgRecord, update_cursor, move_cursor, rewound, rewind,
}
use oscar_payment_gateway.Watcher.{
  Runtime, Scan, fork_at, no_fork, unclear, scan, is_orphaned_event, is_orphaned_block,
  orphan_event, orphan_history, payment_effect, or_same, hold, set_recomputed, recomputed_total,
  has_version, is_pending_at, incident, resolve_one, resolve_payment_effects, affected_payment_ids,
  resolve_from, resolve_cursor, resolve, new_reorg,
}

orphan_event-EventEvolves : (e : Event) → EventEvolves e (orphan_event e)
orphan_event-EventEvolves e = ground arith

orphan_events-EventsEvolve :
    (chain : Key) (fork : ℕ) (es : List Event)
    → EventsEvolve es (update_all (is_orphaned_event chain fork) orphan_event es)
orphan_events-EventsEvolve chain fork [] = tt
orphan_events-EventsEvolve chain fork (e ∷ es) = (
  if-elim (EventEvolves e) (is_orphaned_event chain fork e) (orphan_event e) e
      (λ _. orphan_event-EventEvolves e) (λ _. EventEvolves-refl e),
  orphan_events-EventsEvolve chain fork es,
)

or_same-DbEvolves :
    (id : Key) (accepts : Payment → Bool) (change : Payment → Payment) (db : Db)
    → ((p : Payment) → db.payments id ≡ some p → accepts p ≡ true → IsChange change p)
    → DbEvolves db (or_same db (update_payment id accepts change db))
or_same-DbEvolves id accepts change db allowed =
    elim (Option-cases (update_payment id accepts change db)) [
      | inl nothing ↦ rw (nothing, or_same) (DbEvolves-refl db)
      | inr (db', e) ↦ rw (e, or_same) (update_payment-DbEvolves id accepts change db allowed db' e)
    ]

hold-IsChange : (reorg : Key) (p : Payment) → IsChange (hold reorg) p
hold-IsChange reorg p = record { same_terms = refl; along = here }

set_recomputed-IsChange : (total : ℕ) (p : Payment) → IsChange (set_recomputed total) p
set_recomputed-IsChange total p = record { same_terms = refl; along = here }

payment_effect-DbEvolves :
    (reorg : Key) (seen : Db) (id : Key) (p : Payment) (db : Db)
    → DbEvolves db (payment_effect reorg seen id p db)
unfolding payment_effect
payment_effect-DbEvolves reorg seen id p db =
    let held = or_same db (update_payment id (has_version p.version) (hold reorg) db) in
    let recomputed = or_same db (
      update_payment id (is_pending_at p.version) (set_recomputed (recomputed_total id seen.events))
        db) in
    if-elim (DbEvolves db) (is p.status confirmed) (append_audit (incident id) held)
      (if is p.status pending then recomputed else db)
      (λ _.
        DbEvolves-trans
          (or_same-DbEvolves id (has_version p.version) (hold reorg) db
            (λ q _ _. hold-IsChange reorg q))
          (append_audit-DbEvolves (incident id) held))
      (λ _.
        if-elim (DbEvolves db) (is p.status pending) recomputed db
          (λ _.
            or_same-DbEvolves id (is_pending_at p.version)
              (set_recomputed (recomputed_total id seen.events)) db
              (λ q _ _. set_recomputed-IsChange (recomputed_total id seen.events) q))
          (λ _. DbEvolves-refl db))

resolve_one-DbEvolves :
    (reorg : Key) (seen : Db) (id : Key) (o : Option Payment) (w : Watch)
    → DbEvolves w.db (resolve_one reorg seen id o w).db
resolve_one-DbEvolves reorg seen id none w = DbEvolves-refl w.db
resolve_one-DbEvolves reorg seen id (some p) w = payment_effect-DbEvolves reorg seen id p w.db

resolve_payment_effects-DbEvolves :
    (reorg : Key) (seen : Db) (ids : List Key) (w : Watch)
    → DbEvolves w.db (resolve_payment_effects reorg seen ids w).db
unfolding resolve_payment_effects
resolve_payment_effects-DbEvolves reorg seen [] w = DbEvolves-refl w.db
resolve_payment_effects-DbEvolves reorg seen (id ∷ ids) w =
    DbEvolves-trans (resolve_one-DbEvolves reorg seen id (seen.payments id) w) (
      resolve_payment_effects-DbEvolves reorg seen ids
        (resolve_one reorg seen id (seen.payments id) w))

orphan_history-DbEvolves :
    (reorg : ReorgRecord) (chain : Key) (fork : ℕ) (w : Watch)
    → DbEvolves w.db (orphan_history reorg chain fork w).db
unfolding orphan_history
orphan_history-DbEvolves reorg chain fork w = record {
  payments = λ id. PaymentEvolves-refl (w.db.payments id);
  events = orphan_events-EventsEvolve chain fork w.db.events;
}

rewind-db :
    (chain : Key) (expected block : ℕ) (hash : Text) (w : Watch)
    → (rewind chain expected block hash w).1.db ≡ w.db
unfolding rewind update_cursor
rewind-db chain expected block hash w = go (w.cursors chain)
  where
    go :
        (c : Option ChainCursorState)
        → (rewound w (move_cursor chain expected block hash c w)).1.db ≡ w.db
    go none = refl
    go (some c) = elim (Bool-cases (c.version == expected)) [
      | inl same ↦ rw same refl
      | inr moved ↦ rw moved refl
    ]

-- A resolution keeps every payment's terms, moves its status only along the state diagram and only
-- with a higher version, deletes no payment or event, and changes no place, amount, claim or
-- outcome that an event has.
pub resolve-DbEvolves :
    (r : Runtime) (max_scan : ℕ) (reorg : Key) (seen w : Watch)
    → DbEvolves w.db (resolve r max_scan reorg seen w).1.db
unfolding resolve
resolve-DbEvolves r max_scan reorg seen w = go (seen.cursors r.chain_id)
  where
    settled-DbEvolves :
        (row : ReorgRecord) (fork : ℕ) (ids : List Key) (version : ℕ) (hash : Text)
        → DbEvolves w.db
            (rewind r.chain_id version fork hash (
              resolve_payment_effects reorg
                (orphan_history row r.chain_id fork w).db
                ids
                (orphan_history row r.chain_id fork w))).1.db
    settled-DbEvolves row fork ids version hash =
        let orphaned = orphan_history row r.chain_id fork w in
        subst (DbEvolves w.db)
          (sym (
            rewind-db r.chain_id version fork hash
              (resolve_payment_effects reorg orphaned.db ids orphaned)))
          (DbEvolves-trans (orphan_history-DbEvolves row r.chain_id fork w)
            (resolve_payment_effects-DbEvolves reorg orphaned.db ids orphaned))

    from_scan :
        (c : ChainCursorState) (s : Scan) → DbEvolves w.db (resolve_from r reorg c s seen w).1.db
    from_scan c no_fork = DbEvolves-refl w.db
    from_scan c unclear = DbEvolves-refl w.db
    from_scan c (fork_at s) = elim (Bool-cases (s.block_number == c.last_processed_block)) [
      | inl transient ↦ rw transient (DbEvolves-refl w.db)
      | inr real ↦
          elim (Bool-cases (any (is_orphaned_block r.chain_id s.block_number) seen.blocks)) [
            | inr nothing ↦ rw (real, nothing) (DbEvolves-refl w.db)
            | inl above ↦
                rw (real, above)
                  (settled-DbEvolves (new_reorg reorg r.now r.chain_id s.block_number seen)
                    s.block_number (affected_payment_ids r.chain_id s.block_number seen.db.events)
                    c.version s.block_hash)
          ]
    ]

    go :
        (c : Option ChainCursorState)
        → DbEvolves w.db (resolve_cursor r max_scan reorg c seen w).1.db
    go none = DbEvolves-refl w.db
    go (some c) = from_scan c (scan r seen.blocks max_scan c.last_processed_block)
