-- ===== src/Customer/Opening.antt =====
-- `createClient` and `createAccount` (packages/customer-service/src/services/customer.service.ts):
-- their answers and what they leave in the tables, on every branch. The new account and what is
-- announced of it are written out here.
use Prim.Native.String.{count}
use text.Mathlib.Text.{◌==◌ as str_eq}
use banking_platform.Base.{
  ℕ, ◌==◌, ◌≡◌, refl, Bool, true, false, Option, none, some, [], ◌∷◌, ◌++◌, find, Bool-cases, inl,
  inr, ltb, ◌||◌, String, ap, ◌∙◌, List, if◌then◌else◌,
}
use banking_platform.Base.Int.{ℤ, pos}
use banking_platform.Shared.Events.{Payload}
use banking_platform.Shared.Errors.{Resource, not_found, conflict, database, Result, ok, err}
use banking_platform.Shared.Database.{
  Session, and_then, on_pool, on_client, in_transaction, connect, begin, commit, rollback,
}
use banking_platform.Shared.Database.Progress.{calm}
use banking_platform.Outbox.Repository.{new_message, has_message, insert}
use banking_platform.Customer.Repository.{
  Bank, bank_outbox, Client, Account, any, active, client_refused, account_refused, create_client,
  create_account_row, find_client_by_id, find_client_by_email,
}
use banking_platform.Customer.Service.{
  CreateClientInput, CreateAccountInput, Env, client_row, client_created, store_client,
  unless_exists, register_client, account_row, account_created, store_account, open_account,
  some_or_throw, currency_or_default, initial_or_zero,
}

-- An action's answer and the tables that it leaves.
abbrev pub reply : {A : Type 0} → Result A × Session Bank → Result A × Bank
reply (r, s) = (r, s.db)

module _ (env : Env) (input : CreateClientInput) (correlation_id : Option ℕ) where
  abbrev pub with_client : Bank → Bank
  with_client db = record db {
    clients = db.clients ++ (client_row env input ∷ []);
    outbox =
        db.outbox
        ++ (new_message env.message_id (client_created (client_row env input)) correlation_id
              env.now
            ∷ []);
  }

  -- By whether the table refuses the row.
  abbrev pub client_stored : Bool → Bank → Result Client × Bank
  client_stored true db = (err database, db)
  client_stored false db = (ok (client_row env input), with_client db)

  -- By the client that has the email.
  abbrev pub client_answer : Option Client → Bank → Result Client × Bank
  client_answer (some _) db = (err (conflict input.email), db)
  client_answer none db = client_stored (client_refused (client_row env input) db) db

  store_client-answers :
      (db view : Bank)
      → has_message env.message_id db.outbox ≡ false
      → reply (store_client env input correlation_id (calm db view))
        ≡ client_stored (client_refused (client_row env input) db) db
  unfolding in_transaction connect begin commit rollback create_client on_pool on_client insert
  store_client-answers db view fresh =
      elim (Bool-cases (client_refused (client_row env input) db)) [
        | inl bad ↦ rw (bad) refl
        | inr good ↦ rw (good, fresh) refl
      ]

-- If no statement fails for reasons of its own and the message's identifier is unused, `createClient`
-- answers a taken email with a conflict and a row that the table refuses with a database error, both without a
-- change, and else returns the new client, with exactly this row and the one message about it added.
pub register_client-answers :
    (env : Env) (input : CreateClientInput) (correlation_id : Option ℕ) (db view : Bank)
    → has_message env.message_id db.outbox ≡ false
    → reply (register_client env input correlation_id (calm db view))
      ≡ client_answer env input correlation_id
          (find (λ c. str_eq c.email input.email) db.clients)
          db
unfolding register_client find_client_by_email on_pool
register_client-answers env input correlation_id db view fresh =
    go (find (λ c. str_eq c.email input.email) db.clients)
  where
    go :
        (o : Option Client)
        → reply (unless_exists env input correlation_id o (calm db view))
          ≡ client_answer env input correlation_id o db
    go (some c) = refl
    go none = store_client-answers env input correlation_id db view fresh

-- 'PEN' unless a currency is given.
abbrev pub currency_of : Option String → String
currency_of none = "PEN"
currency_of (some c) = if str_eq c "" then "PEN" else c

-- Nothing unless an initial balance is given.
abbrev pub deposit_of : Option ℤ → ℤ
deposit_of none = pos 0
deposit_of (some n) = n

module _ (env : Env) (input : CreateAccountInput) where
  -- The new account: active, and with nothing on it.
  abbrev pub opened : Account
  opened = record {
    id = env.id;
    client_id = input.client_id;
    account_number = env.account_number;
    balance = pos 0;
    currency = currency_of input.currency;
    status = active;
    created_at = env.now;
  }

  -- What the message about it carries: the balance that it is to get.
  abbrev pub opening_event : Payload
  opening_event = Payload.account_created (record {
    account_id = env.id;
    client_id = input.client_id;
    account_number = env.account_number;
    currency = currency_of input.currency;
    initial_balance = deposit_of input.initial_balance;
  })

  -- The identifier or the number is taken, or the number or the currency is too long.
  abbrev pub is_refused : Bank → Bool
  is_refused db =
      any (λ b. b.id == env.id || str_eq b.account_number env.account_number) db.accounts
      || ltb 20 (count env.account_number)
      || ltb 3 (count (currency_of input.currency))

  module _ (correlation_id : Option ℕ) where
    abbrev pub with_account : Bank → Bank
    with_account db = record db {
      accounts = db.accounts ++ (opened ∷ []);
      outbox = db.outbox ++ (new_message env.message_id opening_event correlation_id env.now ∷ []);
    }

    abbrev pub account_stored : Bool → Bank → Result Account × Bank
    account_stored true db = (err database, db)
    account_stored false db = (ok opened, with_account db)

    -- By the client that is named.
    abbrev pub account_answer : Option Client → Bank → Result Account × Bank
    account_answer none db = (err (not_found Resource.client input.client_id), db)
    account_answer (some _) db = account_stored (is_refused db) db

currency_lem : (c : Option String) → currency_or_default c ≡ currency_of c
currency_lem none = refl
currency_lem (some c) = refl

initial_lem : (n : Option ℤ) → initial_or_zero n ≡ deposit_of n
initial_lem none = refl
initial_lem (some n) = refl

any-find :
    (id : ℕ) (cs : List Client) {c : Client}
    → find (λ d. d.id == id) cs ≡ some c
    → any (λ d. d.id == id) cs ≡ true
any-find id [] h = cc
any-find id (d ∷ ds) {c} h = elim (Bool-cases (d.id == id)) [
  | inl hit ↦ rw (hit) refl
  | inr miss ↦ rw (miss) (any-find id ds (rw (miss) at h))
]

without_false : (a b c : Bool) → a || false || false || b || c ≡ a || b || c
without_false true b c = refl
without_false false b c = refl

module _ (env : Env) (input : CreateAccountInput) (correlation_id : Option ℕ) where
  row_lem : account_row env input ≡ opened env input
  row_lem =
      ap (λ (c : String). record (opened env input) { currency = c }) (currency_lem input.currency)

  event_lem : account_created input (opened env input) ≡ opening_event env input
  event_lem =
      ap
        (λ (n : ℤ). Payload.account_created (record {
          account_id = env.id;
          client_id = input.client_id;
          account_number = env.account_number;
          currency = currency_of input.currency;
          initial_balance = n;
        }))
        (initial_lem input.initial_balance)

  refused_lem :
      (db : Bank)
      → any (λ c. c.id == input.client_id) db.clients ≡ true
      → account_refused (opened env input) db ≡ is_refused env input db
  refused_lem db there =
      let taken =
        any (λ b. b.id == env.id || str_eq b.account_number env.account_number) db.accounts in
      rw (there) (
        without_false taken (ltb 20 (count env.account_number))
          (ltb 3 (count (currency_of input.currency))))

  abbrev row_stored : Bool → Account → Payload → Bank → Result Account × Bank
  row_stored true a event db = (err database, db)
  row_stored false a event db = (
    ok a,
    record db {
      accounts = db.accounts ++ (a ∷ []);
      outbox = db.outbox ++ (new_message env.message_id event correlation_id env.now ∷ []);
    },
  )

  store_account-runs :
      (db view : Bank)
      → has_message env.message_id db.outbox ≡ false
      → reply (store_account env input correlation_id (calm db view))
        ≡ row_stored
            (account_refused (account_row env input) db)
            (account_row env input)
            (account_created input (account_row env input))
            db
  unfolding in_transaction connect begin commit rollback create_account_row on_pool on_client insert
  store_account-runs db view fresh =
      elim (Bool-cases (account_refused (account_row env input) db)) [
        | inl bad ↦ rw (bad) refl
        | inr good ↦ rw (good, fresh) refl
      ]

  stored_lem :
      (b : Bool) (db : Bank)
      → row_stored b (opened env input) (opening_event env input) db
        ≡ account_stored env input correlation_id b db
  stored_lem true db = refl
  stored_lem false db = refl

  store_account-answers :
      (db view : Bank)
      → has_message env.message_id db.outbox ≡ false
      → any (λ c. c.id == input.client_id) db.clients ≡ true
      → reply (store_account env input correlation_id (calm db view))
        ≡ account_stored env input correlation_id (is_refused env input db) db
  store_account-answers db view fresh there =
      store_account-runs db view fresh
      ∙ ap (λ a. row_stored (account_refused a db) a (account_created input a) db) row_lem
      ∙ ap (λ e. row_stored (account_refused (opened env input) db) (opened env input) e db)
          event_lem
      ∙ ap (λ b. row_stored b (opened env input) (opening_event env input) db)
          (refused_lem db there)
      ∙ stored_lem (is_refused env input db) db

-- If no statement fails for reasons of its own and the message's identifier is unused,
-- `createAccount` answers an unknown client with "not found" and a row that the table refuses with a
-- database error, both without a change, and else returns the new account, active and with balance
-- zero, with exactly this row and the one message about it, which has the initial balance, added.
pub open_account-answers :
    (env : Env) (input : CreateAccountInput) (correlation_id : Option ℕ) (db view : Bank)
    → has_message env.message_id db.outbox ≡ false
    → reply (open_account env input correlation_id (calm db view))
      ≡ account_answer env input correlation_id (find (λ c. c.id == input.client_id) db.clients) db
unfolding open_account find_client_by_id on_pool
open_account-answers env input correlation_id db view fresh =
    go (find (λ c. c.id == input.client_id) db.clients) refl
  where
    go :
        (o : Option Client)
        → find (λ c. c.id == input.client_id) db.clients ≡ o
        → reply (
            and_then
              (some_or_throw (not_found Resource.client input.client_id) o (calm db view))
              (λ _. store_account env input correlation_id))
          ≡ account_answer env input correlation_id o db
    go none h = refl
    go (some c) h =
        store_account-answers env input correlation_id db view fresh
          (any-find input.client_id db.clients h)
