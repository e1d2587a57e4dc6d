-- ===== src/Dlq/Attempts.antt =====
-- How `DLQHandler` (packages/shared/src/dlq/dlq.handler.ts) counts failures, gives an event up, and
-- takes it back.
use banking_platform.Base.{
  ℕ, ◌+◌, ◌≤◌, ◌==◌, ==_refl, leb, ◌≡◌, refl, sym, ap, ◌∙◌, subst, true, false, not, Option, none,
  some, List, [], ◌∷◌, ◌++◌, map, length, update_where, find-update_where, if◌then◌else◌, arith,
}
use banking_platform.Shared.Errors.{Error, Result, ok, err}
use banking_platform.Shared.Events.{Payload, DomainEvent}
use banking_platform.Shared.Database.{Session, on_pool}
use banking_platform.Shared.Database.Progress.{calm}
use banking_platform.Dlq.Repository.{
  DlqEvent, Desk, UpdateDlqEventInput, resolved, new_letter, letter_of, amend, is_failed, add,
  update, exists, find_by_event_id,
}
use banking_platform.Dlq.Handler.{
  Config, attempts_of, without, move_to_dlq, wrap, event_of, retry_from_dlq,
}

attempts_of-without : (id : ℕ) (ps : List (ℕ × ℕ)) → attempts_of id (without id ps) ≡ 0
attempts_of-without id [] = refl
attempts_of-without id (p ∷ ps) = ground (arith, attempts_of-without id ps)

without-without : (id : ℕ) (ps : List (ℕ × ℕ)) → without id (without id ps) ≡ without id ps
without-without id [] = refl
without-without id (p ∷ ps) = ground (arith, without-without id ps)

module _ (config : Config) (event : DomainEvent Payload) (id now : ℕ) where
  -- Deliveries in which the handler throws these errors: what the wrapped handler answers to the bus
  -- in each, and the session after them.
  abbrev pub failing : List Error → Session Desk → List (Result (Unit {0})) × Session Desk
  failing [] s = ([], s)
  failing (e ∷ es) s =
      let first = wrap config event id now (some e) s in
      let rest = failing es first.1 in (first.0 ∷ rest.0, rest.1)

  abbrev pub counted : ℕ → Desk → Desk
  counted n d = record d { attempts = (event.id, n) ∷ without event.id d.attempts }

  abbrev pub letter : Error → DlqEvent
  letter e = new_letter id now (record {
    event_id = event.id;
    event_data = event.payload;
    original_error = e;
    failure_count = config.max_retries;
    correlation_id = event.correlation_id;
    service_name = config.service_name;
    consumer_group = config.consumer_group;
  })

  abbrev pub given_up : Error → Desk → Desk
  given_up e d = record {
    letters = d.letters ++ (letter e ∷ []);
    attempts = without event.id d.attempts;
  }

  wrap-throws :
      (e : Error) (d v : Desk) (n : ℕ)
      → attempts_of event.id d.attempts ≡ n
      → leb config.max_retries (n + 1) ≡ false
      → wrap config event id now (some e) (calm d v)
        ≡ (err e, calm (counted (n + 1) d) (counted (n + 1) v))
  unfolding wrap
  wrap-throws e d v n now_n few = rw (now_n, few) refl

  wrap-gives_up :
      (e : Error) (d v : Desk) (n : ℕ)
      → attempts_of event.id d.attempts ≡ n
      → leb config.max_retries (n + 1) ≡ true
      → letter_of event.id d.letters ≡ none
      → wrap config event id now (some e) (calm d v) ≡ (ok tt, calm (given_up e d) (given_up e v))
  unfolding wrap move_to_dlq exists add on_pool
  wrap-gives_up e d v n now_n many first = rw (now_n, many, first) refl

  abbrev counted_all : List Error → ℕ → Desk → Desk
  counted_all [] n d = d
  counted_all (e ∷ es) n d = counted_all es (n + 1) (counted (n + 1) d)

  failing_lem :
      (es : List Error) (d v : Desk) (n : ℕ)
      → attempts_of event.id d.attempts ≡ n
      → n + length es + 1 ≤ config.max_retries
      → failing es (calm d v) ≡ (map err es, calm (counted_all es n d) (counted_all es n v))
  failing_lem [] d v n now_n few = refl
  failing_lem (e ∷ es) d v n now_n few =
      ap (λ p. (p.0 ∷ (failing es p.1).0, (failing es p.1).1))
        (wrap-throws e d v n now_n (ground arith))
      ∙ ap (λ q. (err e ∷ q.0, q.1))
          (failing_lem es (counted (n + 1) d) (counted (n + 1) v) (n + 1)
            (ap (λ b. if b then n + 1 else attempts_of event.id (without event.id d.attempts))
              (==_refl event.id))
            (omega arith))

  letters-counted_all :
      (es : List Error) (n : ℕ) (d : Desk) → (counted_all es n d).letters ≡ d.letters
  letters-counted_all [] n d = refl
  letters-counted_all (e ∷ es) n d = letters-counted_all es (n + 1) (counted (n + 1) d)

  attempts-counted_all :
      (es : List Error) (n : ℕ) (d : Desk)
      → attempts_of event.id d.attempts ≡ n
      → attempts_of event.id (counted_all es n d).attempts ≡ n + length es
  attempts-counted_all [] n d h = omega (arith, h)
  attempts-counted_all (e ∷ es) n d h =
      let first =
        ap (λ b. if b then n + 1 else attempts_of event.id (without event.id d.attempts))
          (==_refl event.id) in
      omega (arith, attempts-counted_all es (n + 1) (counted (n + 1) d) first)

  without-counted_all :
      (es : List Error) (n : ℕ) (d : Desk)
      → without event.id (counted_all es n d).attempts ≡ without event.id d.attempts
  without-counted_all [] n d = refl
  without-counted_all (e ∷ es) n d =
      without-counted_all es (n + 1) (counted (n + 1) d)
      ∙ ap
          (λ b.
            if not b
            then (event.id, n + 1) ∷ without event.id (without event.id d.attempts)
            else without event.id (without event.id d.attempts))
          (==_refl event.id)
      ∙ without-without event.id d.attempts

  given_up-counted_all :
      (es : List Error) (n : ℕ) (e : Error) (d : Desk)
      → given_up e (counted_all es n d) ≡ given_up e d
  given_up-counted_all es n e d =
      ap
        (λ rows. record {
          letters = rows ++ (letter e ∷ []);
          attempts = without event.id (counted_all es n d).attempts;
        })
        (letters-counted_all es n d)
      ∙ ap (λ ps. record { letters = d.letters ++ (letter e ∷ []); attempts = ps })
          (without-counted_all es n d)

-- The letter that a query finds is found again, amended, once its row is.
letter_of-amend :
    (event_id now : ℕ) (input : UpdateDlqEventInput) (rows : List DlqEvent) (row : DlqEvent)
    → letter_of event_id rows ≡ some row
    → letter_of event_id (update_where (λ r. r.id == row.id) (amend now input) rows)
      ≡ some (amend now input row)
letter_of-amend event_id now input rows row h =
    find-update_where (λ r. r.event_id == event_id) (λ r. r.id == row.id) (amend now input) rows row
      (λ y. refl) (==_refl row.id) h

abbrev pub resolution : UpdateDlqEventInput
resolution = record {
  status = some resolved;
  resolution_notes = some "Successfully retried from DLQ";
  resolved_by = some "system";
}

-- The table after a letter is taken back.
abbrev pub taken_back : ℕ → DlqEvent → Desk → Desk
taken_back now row d = record d {
  letters = update_where (λ r. r.id == row.id) (amend now resolution) d.letters;
}

-- If no statement fails, the letter of the event is open and the handler accepts it, then a retry
-- succeeds and resolves the letter, and a second retry is refused without a change, so that the
-- handler gets the event just once.
pub retry_from_dlq-once :
    (config : Config) (handle handle' : DomainEvent Payload → Option Error) (now now' : ℕ)
    (event_id : ℕ) (row : DlqEvent) (d v v' : Desk)
    → letter_of event_id d.letters ≡ some row
    → is_failed row.status ≡ true
    → handle (event_of config handle now row) ≡ none
    → (retry_from_dlq config handle now event_id (calm d v)
        ≡ (ok true, calm (taken_back now row d) (taken_back now row v)))
      × (retry_from_dlq config handle' now' event_id (calm (taken_back now row d) v')
          ≡ (ok false, calm (taken_back now row d) v'))
unfolding retry_from_dlq find_by_event_id update on_pool
retry_from_dlq-once config handle handle' now now' event_id row d v v' found is_open accepted = (
  rw (found, is_open, accepted) refl,
  rw (letter_of-amend event_id now resolution d.letters row found) refl,
)

-- If no statement fails, an event without earlier failures and without a dead letter that the bus
-- delivers again while the handler throws is given up with just the failure that makes their number
-- `maxRetries`: to each failure before it the wrapped handler answers the bus with the handler's own
-- error, and the table stays as it is; with the last one it returns, the event is the one new dead
-- letter, and its counter is dropped.
pub wrap-gives_up_after :
    (config : Config) (event : DomainEvent Payload) (id now : ℕ) (earlier : List Error)
    (last : Error) (d v : Desk)
    → attempts_of event.id d.attempts ≡ 0
    → letter_of event.id d.letters ≡ none
    → length earlier + 1 ≡ config.max_retries
    → let before = failing config event id now earlier (calm d v) in
      (before.0 ≡ map err earlier)
      × (before.1.db.letters ≡ d.letters)
      × (wrap config event id now (some last) before.1 ≡ (
        ok tt,
        calm (given_up config event id now last d) (given_up config event id now last v),
      ))
wrap-gives_up_after config event id now earlier last d v zero first enough =
    let ran = failing_lem config event id now earlier d v 0 zero (omega arith) in
    let before = counted_all config event id now earlier 0 d in
    let before_v = counted_all config event id now earlier 0 v in
    let same = letters-counted_all config event id now earlier 0 d in
    (
      ap (λ p. p.0) ran,
      ap (λ p. p.1.db.letters) ran ∙ same,
      ap (λ p. wrap config event id now (some last) p.1) ran
          ∙ wrap-gives_up config event id now last before before_v (length earlier)
              (omega (arith, attempts-counted_all config event id now earlier 0 d zero))
              (ground arith) (subst (λ rows. letter_of event.id rows ≡ none) (sym same) first)
          ∙ ap (λ d'. (ok tt, calm d' (given_up config event id now last before_v)))
              (given_up-counted_all config event id now earlier 0 last d)
          ∙ ap (λ v'. (ok tt, calm (given_up config event id now last d) v'))
              (given_up-counted_all config event id now earlier 0 last v),
    )
