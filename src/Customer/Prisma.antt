-- ===== src/Customer/Prisma.antt =====
-- The second implementation of the repositories, with Prisma
-- (packages/customer-service/src/repositories/prisma.repository.ts), on the tables that
-- packages/customer-service/src/models/database.ts creates. Prisma itself is not part of this code:
-- each of its calls is the statement that it documents. Nothing in the repository uses these classes.
use banking_platform.Base.{
  ℕ, ◌==◌, String, Bool, Option, none, some, List, find, select, update_where, if◌then◌else◌,
}
use text.Mathlib.Text.{◌==◌ as str_eq}
use banking_platform.Base.Int.{ℤ, pos, ltb_ℤ}
use banking_platform.Shared.Database.{Statement, Action, pure, on_pool, try_catch}
use banking_platform.Shared.Tracker.{select_processed, insert_processed}
use banking_platform.Customer.Repository.{
  Bank, bank_processed, Client, Account, AccountStatus, Operation, change, insert_client,
  insert_account, newest_first, newest_accounts_first, balance_of,
}

-- `Omit<Client, 'createdAt'> & { createdAt?: string }`.
pub record ClientData : Type 0 where
  pub id : ℕ
  pub name : String
  pub email : String
  pub document_number : String
  pub created_at : Option ℕ

pub record AccountData : Type 0 where
  pub id : ℕ
  pub client_id : ℕ
  pub account_number : String
  pub balance : ℤ
  pub currency : String
  pub status : AccountStatus
  pub created_at : Option ℕ

-- `DEFAULT NOW()`.
abbrev pub or_now : ℕ → Option ℕ → ℕ
or_now now none = now
or_now now (some t) = t

-- `PrismaClientRepository`.
unfoldable pub create_client : ℕ → ClientData → Action Bank Client
create_client now c = on_pool (
    insert_client (record {
      id = c.id;
      name = c.name;
      email = c.email;
      document_number = c.document_number;
      created_at = or_now now c.created_at;
    }))

unfoldable pub find_client_by_id : ℕ → Action Bank (Option Client)
find_client_by_id id = on_pool (λ db. some (find (λ c. c.id == id) db.clients, db))

unfoldable pub find_client_by_email : String → Action Bank (Option Client)
find_client_by_email email = on_pool (λ db. some (find (λ c. str_eq c.email email) db.clients, db))

unfoldable pub find_all_clients : Action Bank (List Client)
find_all_clients = on_pool (λ db. some (newest_first db.clients, db))

-- `PrismaAccountRepository`.
unfoldable pub create_account : ℕ → AccountData → Action Bank Account
create_account now a = on_pool (
    insert_account (record {
      id = a.id;
      client_id = a.client_id;
      account_number = a.account_number;
      balance = a.balance;
      currency = a.currency;
      status = a.status;
      created_at = or_now now a.created_at;
    }))

unfoldable pub find_account_by_id : ℕ → Action Bank (Option Account)
find_account_by_id id = on_pool (λ db. some (find (λ a. a.id == id) db.accounts, db))

unfoldable pub find_accounts_by_client_id : ℕ → Action Bank (List Account)
find_accounts_by_client_id id =
    on_pool (λ db. some (newest_accounts_first (select (λ a. a.client_id == id) db.accounts), db))

-- `account.update` of one row: refused without the row, and by `CHECK (balance >= 0)`.
abbrev pub update_row : Operation → ℕ → ℤ → Option Account → Statement Bank (Option Account)
update_row op id amount none db = none
update_row op id amount (some a) db =
    if ltb_ℤ (change op amount a).balance (pos 0)
    then none
    else some (
      some (change op amount a),
      record db { accounts = update_where (λ b. b.id == id) (change op amount) db.accounts },
    )

abbrev pub update_by_key : ℕ → ℤ → Operation → Statement Bank (Option Account)
update_by_key id amount op db = update_row op id amount (find (λ a. a.id == id) db.accounts) db

-- `updateBalance`: every error becomes `null`.
unfoldable pub update_balance : ℕ → ℤ → Operation → Action Bank (Option Account)
update_balance id amount op = try_catch (on_pool (update_by_key id amount op)) (λ _. pure none)

unfoldable pub get_balance : ℕ → Action Bank (Option ℤ)
get_balance id = on_pool (λ db. some (balance_of (find (λ a. a.id == id) db.accounts), db))

-- `PrismaEventTracker`.
unfoldable pub is_processed : ℕ → Action Bank Bool
is_processed event_id = on_pool (select_processed event_id)

unfoldable pub mark_processed : ℕ → Action Bank (Unit {0})
mark_processed event_id = on_pool (insert_processed event_id)
