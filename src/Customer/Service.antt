-- ===== src/Customer/Service.antt =====
-- `CustomerService` (packages/customer-service/src/services/customer.service.ts).
use text.Mathlib.Text.{◌==◌ as str_eq}
use banking_platform.Base.{ℕ, String, Option, none, some, List, if◌then◌else◌}
use banking_platform.Base.Int.{ℤ, pos}
use banking_platform.Shared.Errors.{Error, Resource, not_found, conflict}
use banking_platform.Shared.Events.{Payload}
use banking_platform.Shared.Database.{
  Action, pure, throw, ◌>>=◌, ◌>>◌, client, in_transaction, commit,
}
use banking_platform.Outbox.Repository.{insert}
use banking_platform.Customer.Repository.{
  Bank, bank_outbox, Client, Account, active, create_client, find_client_by_id,
  find_client_by_email, find_all_clients, create_account_row, find_account_by_id,
  find_accounts_by_client_id, get_account_balance,
}

pub record CreateClientInput : Type 0 where
  pub name : String
  pub email : String
  pub document_number : String

pub record CreateAccountInput : Type 0 where
  pub client_id : ℕ
  pub currency : Option String
  pub initial_balance : Option ℤ

-- What `uuid()` returns for the row and for its message, what `generateAccountNumber()` returns, and
-- the time.
pub record Env : Type 0 where
  pub id : ℕ
  pub message_id : ℕ
  pub account_number : String
  pub now : ℕ

abbrev pub currency_or_default : Option String → String
currency_or_default none = "PEN"
currency_or_default (some c) = if str_eq c "" then "PEN" else c

abbrev pub initial_or_zero : Option ℤ → ℤ
initial_or_zero none = pos 0
initial_or_zero (some b) = b

abbrev pub some_or_throw : {A : Type 0} → Error → Option A → Action Bank A
some_or_throw e none = throw e
some_or_throw e (some a) = pure a

abbrev pub client_row : Env → CreateClientInput → Client
client_row env input = record {
  id = env.id;
  name = input.name;
  email = input.email;
  document_number = input.document_number;
  created_at = env.now;
}

abbrev pub client_created : Client → Payload
client_created c = Payload.client_created (record {
  client_id = c.id;
  name = c.name;
  email = c.email;
  document_number = c.document_number;
})

-- `BEGIN` to `COMMIT`; the row is created on the pool.
abbrev pub store_client : Env → CreateClientInput → Option ℕ → Action Bank Client
store_client env input correlation_id = in_transaction (do
  created ← create_client (client_row env input)
  _ ← insert env.message_id env.now (client_created created) client correlation_id
  commit
  pure created)

abbrev pub unless_exists : Env → CreateClientInput → Option ℕ → Option Client → Action Bank Client
unless_exists env input correlation_id (some _) = throw (conflict input.email)
unless_exists env input correlation_id none = store_client env input correlation_id

-- `createClient`.
unfoldable pub register_client : Env → CreateClientInput → Option ℕ → Action Bank Client
unfolding find_client_by_email in_transaction create_client insert
register_client env input correlation_id = do
  existing ← find_client_by_email input.email
  unless_exists env input correlation_id existing

unfoldable pub get_client : ℕ → Action Bank Client
unfolding find_client_by_id
get_client id = do found ← find_client_by_id id; some_or_throw (not_found Resource.client id) found

unfoldable pub list_clients : Action Bank (List Client)
unfolding find_all_clients
list_clients = find_all_clients

abbrev pub account_row : Env → CreateAccountInput → Account
account_row env input = record {
  id = env.id;
  client_id = input.client_id;
  account_number = env.account_number;
  balance = pos 0;
  currency = currency_or_default input.currency;
  status = active;
  created_at = env.now;
}

abbrev pub account_created : CreateAccountInput → Account → Payload
account_created input a = Payload.account_created (record {
  account_id = a.id;
  client_id = a.client_id;
  account_number = a.account_number;
  currency = a.currency;
  initial_balance = initial_or_zero input.initial_balance;
})

abbrev pub store_account : Env → CreateAccountInput → Option ℕ → Action Bank Account
store_account env input correlation_id = in_transaction (do
  created ← create_account_row (account_row env input)
  _ ← insert env.message_id env.now (account_created input created) client correlation_id
  commit
  pure created)

-- `createAccount`.
unfoldable pub open_account : Env → CreateAccountInput → Option ℕ → Action Bank Account
unfolding find_client_by_id in_transaction create_account_row insert
open_account env input correlation_id = do
  found ← find_client_by_id input.client_id
  _ ← some_or_throw (not_found Resource.client input.client_id) found
  store_account env input correlation_id

unfoldable pub get_account : ℕ → Action Bank Account
unfolding find_account_by_id
get_account id = do
  found ← find_account_by_id id
  some_or_throw (not_found Resource.account id) found

unfoldable pub get_client_accounts : ℕ → Action Bank (List Account)
unfolding find_client_by_id find_accounts_by_client_id
get_client_accounts client_id = do
  found ← find_client_by_id client_id
  _ ← some_or_throw (not_found Resource.client client_id) found
  find_accounts_by_client_id client_id

unfoldable pub get_balance : ℕ → Action Bank (ℕ × ℤ)
unfolding get_account_balance
get_balance account_id = do
  balance ← get_account_balance account_id
  b ← some_or_throw (not_found Resource.account account_id) balance
  pure (account_id, b)
