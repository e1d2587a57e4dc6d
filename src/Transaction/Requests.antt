-- ===== src/Transaction/Requests.antt =====
-- `requestTransaction` (packages/transaction-service/src/services/transaction.service.ts): its answer
-- and what it leaves in the tables, on every branch, and what a failure of the outbox leaves. What is
-- against a request is written out here, apart from the checks of the code.
use Prim.Native.String.{count}
use text.Mathlib.Text.{◌==◌ as str_eq}
use text.Mathlib.TextEquality.{eq_iff}
use banking_platform.Base.{
  ℕ, ◌==◌, ltb, ◌≡◌, refl, ap, ◌∙◌, String, Bool, true, false, Option, none, some, List, [], ◌∷◌,
  ◌++◌, ◌||◌, if◌then◌else◌, arith, Bool-cases, inl, inr,
}
use banking_platform.Base.Int.{pos, leb_ℤ}
use banking_platform.Shared.Errors.{
  Error, Resource, not_found, validation, database, duplicate_transaction, Result, ok, err,
}
use banking_platform.Shared.Events.{TransactionType, deposit, withdrawal, transfer, Payload}
use banking_platform.Shared.Database.{
  Session, on_pool, on_client, in_transaction, connect, begin, commit, rollback,
}
use banking_platform.Shared.Database.Progress.{calm}
use banking_platform.Outbox.Repository.{new_message, has_message, insert}
use banking_platform.Transaction.Repository.{
  Transaction, pending, Ledger, ledger_outbox, clashes, create, transaction_of_key,
  find_by_idempotency_key,
}
use banking_platform.Transaction.Service.{
  CreateTransactionInput, Env, Response, response_ok, response_not_ok, no_response, validate,
  account_ids, given, or_default, validate_accounts, requested, row_of, duplicate,
  request_transaction,
}
use banking_platform.Transaction.Storing.{
  reply, first_error, checks, by_checks, row_refused, stored_or_not, request_transaction-checks,
}

abbrev pub unless_given : Option ℕ → String → Option Error
unless_given none message = some (validation message)
unless_given (some id) message = none

abbrev pub if_same : Option ℕ → Option ℕ → Option Error
if_same (some m) (some n) =
    if m == n then some (validation "Cannot transfer to the same account") else none
if_same (some m) none = none
if_same none n = none

-- A deposit needs a target, a withdrawal a source, and a transfer both, which differ.
abbrev pub fields_objection : TransactionType → Option ℕ → Option ℕ → Option Error
fields_objection deposit source target = unless_given target "Deposit requires a target account"
fields_objection withdrawal source target =
    unless_given source "Withdrawal requires a source account"
fields_objection transfer source target =
    first_error (unless_given source "Transfer requires both source and target accounts") (
      first_error (unless_given target "Transfer requires both source and target accounts")
        (if_same source target))

abbrev pub is_taken : String → List Transaction → Bool
is_taken key [] = false
is_taken key (t ∷ ts) = str_eq t.idempotency_key key || is_taken key ts

abbrev pub key_objection : String → List Transaction → Option Error
key_objection key ts = if is_taken key ts then some (duplicate_transaction key) else none

-- Only an answer that says that the account is not there is held against it.
abbrev pub missing_by : Response → ℕ → Option Error
missing_by response_ok id = none
missing_by response_not_ok id = some (not_found Resource.account id)
missing_by no_response id = none

abbrev pub account_objection : (ℕ → Response) → Option ℕ → Option Error
account_objection fetch none = none
account_objection fetch (some id) = missing_by (fetch id) id

abbrev pub has_id : ℕ → List Transaction → Bool
has_id id [] = false
has_id id (t ∷ ts) = t.id == id || has_id id ts

-- 'PEN' unless a currency is given.
abbrev pub currency_of : Option String → String
currency_of none = "PEN"
currency_of (some c) = if str_eq c "" then "PEN" else c

-- What is against a request before anything is written, in the order of the checks.
abbrev pub objection : (ℕ → Response) → CreateTransactionInput → Ledger → Option Error
objection fetch input db =
    first_error (fields_objection input.type input.source_account_id input.target_account_id) (
      first_error (key_objection input.idempotency_key db.transactions) (
        first_error (account_objection fetch input.source_account_id)
          (account_objection fetch input.target_account_id)))

module _ (env : Env) (input : CreateTransactionInput) where
  -- The new row.
  abbrev pub pending_row : Transaction
  pending_row = record {
    id = env.transaction_id;
    type = input.type;
    status = pending;
    amount = input.amount;
    currency = currency_of input.currency;
    source_account_id = input.source_account_id;
    target_account_id = input.target_account_id;
    idempotency_key = input.idempotency_key;
    description = input.description;
    reason = none;
    created_at = env.now;
    completed_at = none;
  }

  -- What the message about it carries.
  abbrev pub request_event : Payload
  request_event = Payload.transaction_requested (record {
    transaction_id = env.transaction_id;
    type = input.type;
    amount = input.amount;
    currency = currency_of input.currency;
    source_account_id = input.source_account_id;
    target_account_id = input.target_account_id;
    idempotency_key = input.idempotency_key;
    description = input.description;
  })

  abbrev pub with_row : Ledger → Ledger
  with_row db = record db { transactions = db.transactions ++ (pending_row ∷ []) }

  -- What the table itself refuses: an amount that is not positive, a text that is too long, and a
  -- key that a row has.
  abbrev pub is_refused : Ledger → Bool
  is_refused db =
      leb_ℤ input.amount (pos 0)
      || ltb 3 (count (currency_of input.currency))
      || ltb 255 (count input.idempotency_key)
      || (has_id env.transaction_id db.transactions
          || is_taken input.idempotency_key db.transactions)

  module _ (correlation_id : Option ℕ) where
    abbrev pub with_request : Ledger → Ledger
    with_request db = record db {
      transactions = db.transactions ++ (pending_row ∷ []);
      outbox = db.outbox ++ (new_message env.message_id request_event correlation_id env.now ∷ []);
    }

    abbrev pub stored : Bool → Ledger → Result Transaction × Ledger
    stored true db = (err database, db)
    stored false db = (ok pending_row, with_request db)

    abbrev pub answer : Option Error → Ledger → Result Transaction × Ledger
    answer (some e) db = (err e, db)
    answer none db = stored (is_refused db) db

fields_lem :
    (type : TransactionType) (source target : Option ℕ)
    → validate type source target ≡ fields_objection type source target
unfolding validate
fields_lem deposit source none = refl
fields_lem deposit source (some t) = refl
fields_lem withdrawal none target = refl
fields_lem withdrawal (some s) target = refl
fields_lem transfer none target = refl
fields_lem transfer (some s) none = refl
fields_lem transfer (some s) (some t) = refl

key_lem :
    (key : String) (ts : List Transaction)
    → duplicate key (transaction_of_key key ts) ≡ key_objection key ts
key_lem key [] = refl
key_lem key (t ∷ ts) = elim (Bool-cases (str_eq t.idempotency_key key)) [
  | inl hit ↦ rw (hit) refl
  | inr miss ↦ rw (miss) (key_lem key ts)
]

second_lem :
    (fetch : ℕ → Response) (target : Option ℕ)
    → validate_accounts fetch (given target []) ≡ account_objection fetch target
unfolding validate_accounts
second_lem fetch none = refl
second_lem fetch (some id) = go (fetch id) refl
  where
    go :
        (r : Response)
        → fetch id ≡ r
        → validate_accounts fetch (given (some id) []) ≡ account_objection fetch (some id)
    go response_ok h = rw (h) refl
    go response_not_ok h = rw (h) refl
    go no_response h = rw (h) refl

accounts_lem :
    (fetch : ℕ → Response) (source target : Option ℕ)
    → validate_accounts fetch (given source (given target []))
      ≡ first_error (account_objection fetch source) (account_objection fetch target)
unfolding validate_accounts
accounts_lem fetch none target = second_lem fetch target
accounts_lem fetch (some id) target = go (fetch id) refl
  where
    go :
        (r : Response)
        → fetch id ≡ r
        → validate_accounts fetch (given (some id) (given target []))
          ≡ first_error (account_objection fetch (some id)) (account_objection fetch target)
    go response_ok h = rw (h) (second_lem fetch target)
    go response_not_ok h = rw (h) refl
    go no_response h = rw (h) (second_lem fetch target)

currency_lem : (c : Option String) → or_default c "PEN" ≡ currency_of c
currency_lem none = refl
currency_lem (some c) = refl

clashes_lem :
    (t : Transaction) (ts : List Transaction)
    → clashes t ts ≡ has_id t.id ts || is_taken t.idempotency_key ts
clashes_lem t [] = refl
clashes_lem t (u ∷ us) = ground (arith, clashes_lem t us)

-- The checks of the code find what is against the request.
checks_lem :
    (fetch : ℕ → Response) (env : Env) (input : CreateTransactionInput) (correlation_id : Option ℕ)
    (db : Ledger)
    → checks fetch env input correlation_id db ≡ objection fetch input db
checks_lem fetch env input correlation_id db =
    ap
      (λ v. first_error v (
        first_error
          (duplicate input.idempotency_key
            (transaction_of_key input.idempotency_key db.transactions))
          (validate_accounts fetch (account_ids input))))
      (fields_lem input.type input.source_account_id input.target_account_id)
    ∙ ap
        (λ k.
          first_error (fields_objection input.type input.source_account_id input.target_account_id)
            (first_error k (validate_accounts fetch (account_ids input))))
        (key_lem input.idempotency_key db.transactions)
    ∙ ap
        (λ a.
          first_error (fields_objection input.type input.source_account_id input.target_account_id)
            (first_error (key_objection input.idempotency_key db.transactions) a))
        (accounts_lem fetch input.source_account_id input.target_account_id)

module _ (fetch : ℕ → Response) (env : Env) (input : CreateTransactionInput)
    (correlation_id : Option ℕ) where
  row_lem : row_of env input ≡ pending_row env input
  row_lem =
      ap (λ (c : String). record (pending_row env input) { currency = c })
        (currency_lem input.currency)

  refused_lem :
      (db : Ledger) → row_refused fetch env input correlation_id db ≡ is_refused env input db
  refused_lem db =
      ap
        (λ c.
          leb_ℤ input.amount (pos 0)
          || ltb 3 (count c)
          || ltb 255 (count input.idempotency_key)
          || clashes (row_of env input) db.transactions)
        (currency_lem input.currency)
      ∙ ap
          (λ b.
            leb_ℤ input.amount (pos 0)
            || ltb 3 (count (currency_of input.currency))
            || ltb 255 (count input.idempotency_key)
            || b)
          (clashes_lem (row_of env input) db.transactions)

  stored_lem :
      (b : Bool) (db : Ledger)
      → stored_or_not fetch env input correlation_id b db ≡ stored env input correlation_id b db
  stored_lem true db = refl
  stored_lem false db =
      ap
        (λ (t : Transaction). (
          ok t,
          record db {
            transactions = db.transactions ++ (t ∷ []);
            outbox =
                db.outbox ++ (new_message env.message_id (requested t) correlation_id env.now ∷ []);
          },
        ))
        row_lem

  by_checks_lem :
      (o : Option Error) (db : Ledger)
      → by_checks fetch env input correlation_id o db ≡ answer env input correlation_id o db
  by_checks_lem (some e) db = refl
  by_checks_lem none db =
      ap (λ b. stored_or_not fetch env input correlation_id b db) (refused_lem db)
      ∙ stored_lem (is_refused env input db) db

-- If no statement fails for reasons of its own and the message's identifier is unused, then a
-- request that its own fields, a row with its key or the customer service speaks against is answered
-- with the first such error, one that the table refuses with a database error, both without a
-- change; any other is answered with its new row, pending, and exactly this row and the one message
-- that asks for it are added.
pub request_transaction-answers :
    (fetch : ℕ → Response) (env : Env) (input : CreateTransactionInput) (correlation_id : Option ℕ)
    (db view : Ledger)
    → has_message env.message_id db.outbox ≡ false
    → reply (request_transaction fetch env input correlation_id (calm db view))
      ≡ answer env input correlation_id (objection fetch input db) db
request_transaction-answers fetch env input correlation_id db view fresh =
    request_transaction-checks fetch env input correlation_id db view fresh
    ∙ by_checks_lem fetch env input correlation_id (checks fetch env input correlation_id db) db
    ∙ ap (λ o. answer env input correlation_id o db) (checks_lem fetch env input correlation_id db)

first_error-none : (a b : Option Error) → first_error a b ≡ none → (a ≡ none) × (b ≡ none)
first_error-none none b h = (refl, h)
first_error-none (some e) b h = ground arith

duplicate-none : (key : String) (x : Option Transaction) → duplicate key x ≡ none → x ≡ none
duplicate-none key none h = refl
duplicate-none key (some t) h = ground arith

-- A row is found by its key once it is appended, if no other has the key.
transaction_of_key-append :
    (key : String) (t : Transaction) (ts : List Transaction)
    → t.idempotency_key ≡ key
    → transaction_of_key key ts ≡ none
    → transaction_of_key key (ts ++ (t ∷ [])) ≡ some t
transaction_of_key-append key t [] same h =
    ap (λ b. if b then some t else none) ((eq_iff t.idempotency_key key).1 same)
transaction_of_key-append key t (u ∷ us) same h =
    ground (arith, transaction_of_key-append key t us same)

-- The connection, `BEGIN` and the row go through, and the insertion of the message fails.
abbrev pub outbox_fails : Ledger → Ledger → Session Ledger
outbox_fails db view = record {
  db = db;
  view = view;
  aborted = false;
  faults = false ∷ false ∷ false ∷ false ∷ true ∷ [];
}

-- `create` is not part of the transaction that is rolled back. If nothing speaks against a request
-- and the insertion of its message fails, the caller gets the database error, yet the pending row
-- stays committed without any message; and every later request with the same key, of any fields
-- that are valid, is refused as a duplicate and changes nothing.
pub request_transaction-orphans :
    (fetch : ℕ → Response) (env env' : Env) (input retry : CreateTransactionInput)
    (correlation_id : Option ℕ) (db view view' : Ledger)
    → objection fetch input db ≡ none
    → is_refused env input db ≡ false
    → fields_objection retry.type retry.source_account_id retry.target_account_id ≡ none
    → retry.idempotency_key ≡ input.idempotency_key
    → (reply (request_transaction fetch env input correlation_id (outbox_fails db view))
        ≡ (err database, with_row env input db))
      × (reply (
            request_transaction fetch env' retry correlation_id
              (calm (with_row env input db) view'))
          ≡ (err (duplicate_transaction input.idempotency_key), with_row env input db))
unfolding request_transaction find_by_idempotency_key in_transaction connect begin commit rollback
    create on_pool on_client insert
request_transaction-orphans fetch env env' input retry correlation_id db view view' fine accepted
      valid same =
    let earlier =
      duplicate input.idempotency_key (transaction_of_key input.idempotency_key db.transactions) in
    let accounts = validate_accounts fetch (account_ids input) in
    let (hv, rest) =
      first_error-none (validate input.type input.source_account_id input.target_account_id)
        (first_error earlier accounts) (checks_lem fetch env input correlation_id db ∙ fine) in
    let (hd, ha) = first_error-none earlier accounts rest in
    let hx =
      duplicate-none input.idempotency_key
        (transaction_of_key input.idempotency_key db.transactions) hd in
    let accepted' = refused_lem fetch env input correlation_id db ∙ accepted in
    let valid' = fields_lem retry.type retry.source_account_id retry.target_account_id ∙ valid in
    let found =
      transaction_of_key-append input.idempotency_key (pending_row env input) db.transactions refl
        hx in
    let row = row_lem fetch env input correlation_id in
    (
      rw (hv, hx, ha, accepted')
          (ap
            (λ (t : Transaction).
              (err database, record db { transactions = db.transactions ++ (t ∷ []) }))
            row),
      rw (valid', same, found) refl,
    )
