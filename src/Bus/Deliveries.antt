-- ===== src/Bus/Deliveries.antt =====
-- An event that the bus (packages/shared/src/adapters/kafka-event-bus.ts) delivers any number of times to
-- the subscriber of completed transactions (packages/customer-service/src/subscribers/index.ts). Kafka
-- takes a message as consumed if `eachMessage` returns, and delivers it again if that throws.
use banking_platform.Base.{
  ◌≡◌, inl, inr, refl, sym, ap, ◌∙◌, subst, Bool, true, false, ◌||◌, List, [], ◌∷◌, some,
}
use banking_platform.Shared.Errors.{Result, ok, err}
use banking_platform.Shared.Events.{TransactionCompletedPayload, DomainEvent}
use banking_platform.Shared.Database.{Session, throw, or_catch}
use banking_platform.Shared.Tracker.{member}
use banking_platform.Customer.Repository.{Bank}
use banking_platform.Customer.Subscriber.{Env, on_transaction_completed}
use banking_platform.Customer.Ledger.{settle, Handles, on_transaction_completed-Handles}
use banking_platform.Customer.Redelivery.{handled-marks, handled-again}
use banking_platform.Bus.Kafka.{each_message}

-- One delivery: what `uuid()` and the clock return in it, and which of its statements fail.
pub record Delivery : Type 0 where
  pub env : Env
  pub faults : List Bool

-- A connection to the committed tables.
abbrev pub connection : Delivery → Bank → Session Bank
connection d db = record { db = db; view = db; aborted = false; faults = d.faults }

abbrev pub deliver :
    DomainEvent TransactionCompletedPayload → Delivery → Bank → Result (Unit {0}) × Session Bank
deliver event d db = each_message (on_transaction_completed d.env) (some event) (connection d db)

-- How the deliveries end, in their order, and the tables after them.
abbrev pub deliver_all :
    DomainEvent TransactionCompletedPayload → List Delivery → Bank → List (Result (Unit {0})) × Bank
deliver_all event [] db = ([], db)
deliver_all event (d ∷ ds) db =
    let first = deliver event d db in
    let rest = deliver_all event ds first.1.db in (first.0 ∷ rest.0, rest.1)

abbrev pub is_consumed : Result (Unit {0}) → Bool
is_consumed (ok _) = true
is_consumed (err _) = false

abbrev pub any_consumed : List (Result (Unit {0})) → Bool
any_consumed [] = false
any_consumed (r ∷ rs) = is_consumed r || any_consumed rs

-- What the subscriber promises: the change of the event, or nothing.
abbrev pub Promise : DomainEvent TransactionCompletedPayload → Bank → Bool → Bank → Type 0
Promise event db false db' = db' ≡ db
Promise event db true db' = (env : Env) × (settle env event db ≡ some (tt, db'))

rethrow_lem : (p : Result (Unit {0}) × Session Bank) → or_catch p (λ e. throw e) ≡ p
rethrow_lem (ok tt, s) = refl
rethrow_lem (err e, s) = refl

module _ (event : DomainEvent TransactionCompletedPayload) where
  deliver_lem :
      (d : Delivery) (db : Bank)
      → deliver event d db ≡ on_transaction_completed d.env event (connection d db)
  unfolding each_message
  deliver_lem d db = rethrow_lem (on_transaction_completed d.env event (connection d db))

  settled_stays :
      (ds : List Delivery) (db : Bank)
      → member event.id db.processed ≡ true
      → (deliver_all event ds db).1 ≡ db
  settled_stays [] db seen = refl
  settled_stays (d ∷ ds) db seen =
      let same =
        handled-again d.env event (on_transaction_completed d.env event (connection d db)) db
          (on_transaction_completed-Handles d.env event (connection d db)) seen in
      let same' = ap (λ p. p.1.db) (deliver_lem d db) ∙ same in
      settled_stays ds _ (rw same' seen) ∙ same'

  first_delivery :
      (d : Delivery) (ds : List Delivery) (db : Bank) (p : Result (Unit {0}) × Session Bank)
      → member event.id db.processed ≡ false
      → Handles d.env event db p
      → ((db' : Bank)
          → db' ≡ db
          → Promise event db
              (any_consumed (deliver_all event ds db').0)
              (deliver_all event ds db').1)
      → Promise event db
          (is_consumed p.0 || any_consumed (deliver_all event ds p.1.db).0)
          (deliver_all event ds p.1.db).1
  first_delivery d ds db (err e, s') new h again = again s'.db h
  first_delivery d ds db (ok tt, s') new (inl (seen, _)) again =
      (let clash : true ≡ false = sym seen ∙ new in cc)
  first_delivery d ds db (ok tt, s') new (inr (_, ran)) again =
      let marked = handled-marks d.env event (ok tt, s') db (inr (new, ran)) refl in
      (d.env, ran ∙ ap (λ db'. some (tt, db')) (sym (settled_stays ds s'.db marked)))

  -- However often the bus delivers an event that was not processed before, and whatever statements
  -- fail in each delivery, the tables are in the end those of the event's change made exactly once
  -- if the message was ever taken as consumed, and else those before.
  pub deliver_all-refines :
      (ds : List Delivery) (db : Bank)
      → member event.id db.processed ≡ false
      → Promise event db (any_consumed (deliver_all event ds db).0) (deliver_all event ds db).1
  deliver_all-refines [] db new = refl
  deliver_all-refines (d ∷ ds) db new = rw (deliver_lem d db) (
      first_delivery d ds db (on_transaction_completed d.env event (connection d db)) new
        (on_transaction_completed-Handles d.env event (connection d db))
        (λ db' same.
          subst
            (λ b.
              Promise event db (any_consumed (deliver_all event ds b).0) (deliver_all event ds b).1)
            (sym same) (deliver_all-refines ds db new)))
