-- ===== src/Customer/Repository.antt =====
-- The tables of packages/customer-service/src/models/database.ts and the repositories of
-- packages/customer-service/src/repositories/index.ts. Balances are whole cents (`DECIMAL(15,2)`).
use banking_platform.Base.{
  ℕ, ◌==◌, leb, ltb, refl, String, Bool, true, false, not, ◌&&◌, ◌||◌, Option, none, some, List, [],
  ◌∷◌, ◌++◌, select, find, update_where, if◌then◌else◌,
}
use Prim.Native.String.{count}
use text.Mathlib.Text.{◌==◌ as str_eq}
use banking_platform.Base.Int.{ℤ, pos, ◌+ℤ◌, ◌-ℤ◌, leb_ℤ, ltb_ℤ}
use banking_platform.Shared.Database.{Statement, Action, Executor, on, on_pool}
use banking_platform.Shared.Tracker.{HasProcessed}
use banking_platform.Outbox.Repository.{OutboxMessage, HasOutbox}

pub record Client : Type 0 where
  pub id : ℕ
  pub name : String
  pub email : String
  pub document_number : String
  pub created_at : ℕ

pub data AccountStatus : Type 0 where
  active inactive frozen : AccountStatus

pub record Account : Type 0 where
  pub id : ℕ
  pub client_id : ℕ
  pub account_number : String
  pub balance : ℤ
  pub currency : String
  pub status : AccountStatus
  pub created_at : ℕ

-- The database of the service.
pub record Bank : Type 0 where
  pub clients : List Client
  pub accounts : List Account
  pub processed : List ℕ
  pub outbox : List OutboxMessage

instance abbrev pub bank_processed : HasProcessed Bank
bank_processed = record {
  processed = λ db. db.processed;
  set_processed = λ ids db. record db { processed = ids };
  processed-set = λ ids db. refl;
}

instance abbrev pub bank_outbox : HasOutbox Bank
bank_outbox = record {
  outbox = λ db. db.outbox;
  set_outbox = λ rows db. record db { outbox = rows };
  outbox-set = λ rows db. refl;
}

-- The unique keys of `clients`: `id`, `email` and `document_number`.
abbrev pub client_clashes : Client → Client → Bool
client_clashes c d =
    d.id == c.id || str_eq d.email c.email || str_eq d.document_number c.document_number

abbrev pub any : {A : Type 0} → (A → Bool) → List A → Bool
any test [] = false
any test (x ∷ xs) = test x || any test xs

-- What the table refuses: a text that is longer than its `VARCHAR(100)`, `VARCHAR(255)` or
-- `VARCHAR(20)`, and a key that a row has.
abbrev pub client_refused : Client → Bank → Bool
client_refused c db =
    ltb 100 (count c.name)
    || ltb 255 (count c.email)
    || ltb 20 (count c.document_number)
    || any (client_clashes c) db.clients

abbrev pub insert_client : Client → Statement Bank Client
insert_client c db =
    if client_refused c db then none else some (c, record db { clients = db.clients ++ (c ∷ []) })

unfoldable pub create_client : Client → Action Bank Client
create_client c = on_pool (insert_client c)

unfoldable pub find_client_by_id : ℕ → Action Bank (Option Client)
find_client_by_id id = on_pool (λ db. some (find (λ c. c.id == id) db.clients, db))

unfoldable pub find_client_by_email : String → Action Bank (Option Client)
find_client_by_email email = on_pool (λ db. some (find (λ c. str_eq c.email email) db.clients, db))

-- `ORDER BY created_at DESC`, stable.
abbrev pub insert_newest : Client → List Client → List Client
insert_newest c [] = c ∷ []
insert_newest c (d ∷ ds) =
    let rest = insert_newest c ds in if leb d.created_at c.created_at then c ∷ d ∷ ds else d ∷ rest

abbrev pub newest_first : List Client → List Client
newest_first [] = []
newest_first (c ∷ cs) = insert_newest c (newest_first cs)

unfoldable pub find_all_clients : Action Bank (List Client)
find_all_clients = on_pool (λ db. some (newest_first db.clients, db))

-- The unique keys `id` and `account_number`, the foreign key and `CHECK (balance >= 0)`.
abbrev pub account_refused : Account → Bank → Bool
account_refused a db =
    any (λ b. b.id == a.id || str_eq b.account_number a.account_number) db.accounts
    || not (any (λ c. c.id == a.client_id) db.clients)
    || ltb_ℤ a.balance (pos 0)
    || ltb 20 (count a.account_number)
    || ltb 3 (count a.currency)

abbrev pub insert_account : Account → Statement Bank Account
insert_account a db =
    if account_refused a db
    then none
    else some (a, record db { accounts = db.accounts ++ (a ∷ []) })

unfoldable pub create_account_row : Account → Action Bank Account
create_account_row a = on_pool (insert_account a)

unfoldable pub find_account_by_id : ℕ → Action Bank (Option Account)
find_account_by_id id = on_pool (λ db. some (find (λ a. a.id == id) db.accounts, db))

abbrev pub insert_newest_account : Account → List Account → List Account
insert_newest_account a [] = a ∷ []
insert_newest_account a (b ∷ bs) =
    let rest = insert_newest_account a bs in
    if leb b.created_at a.created_at then a ∷ b ∷ bs else b ∷ rest

abbrev pub newest_accounts_first : List Account → List Account
newest_accounts_first [] = []
newest_accounts_first (a ∷ rest) = insert_newest_account a (newest_accounts_first rest)

unfoldable pub find_accounts_by_client_id : ℕ → Action Bank (List Account)
find_accounts_by_client_id id =
    on_pool (λ db. some (newest_accounts_first (select (λ a. a.client_id == id) db.accounts), db))

pub data Operation : Type 0 where
  credit debit : Operation

abbrev pub is_active : AccountStatus → Bool
is_active active = true
is_active inactive = false
is_active frozen = false

-- The `WHERE` of `updateBalance`.
abbrev pub matches : Operation → ℕ → ℤ → Account → Bool
matches credit id amount a = a.id == id && is_active a.status
matches debit id amount a = a.id == id && is_active a.status && leb_ℤ amount a.balance

-- The `SET` of `updateBalance`.
abbrev pub change : Operation → ℤ → Account → Account
change credit amount a = record a { balance = a.balance +ℤ amount }
change debit amount a = record a { balance = a.balance -ℤ amount }

-- The update of the one row that the primary key allows: the row returned, `undefined` without one,
-- and a refusal by `CHECK (balance >= 0)`.
abbrev pub apply_update : Operation → ℕ → ℤ → Option Account → Statement Bank (Option Account)
apply_update op id amount none db = some (none, db)
apply_update op id amount (some a) db =
    if ltb_ℤ (change op amount a).balance (pos 0)
    then none
    else some (
      some (change op amount a),
      record db { accounts = update_where (matches op id amount) (change op amount) db.accounts },
    )

abbrev pub update_statement : ℕ → ℤ → Operation → Statement Bank (Option Account)
update_statement id amount op db =
    apply_update op id amount (find (matches op id amount) db.accounts) db

unfoldable pub update_balance : ℕ → ℤ → Operation → Executor → Action Bank (Option Account)
update_balance id amount op executor = on executor (update_statement id amount op)

abbrev pub balance_of : Option Account → Option ℤ
balance_of none = none
balance_of (some a) = some a.balance

unfoldable pub get_account_balance : ℕ → Action Bank (Option ℤ)
get_account_balance id = on_pool (λ db. some (balance_of (find (λ a. a.id == id) db.accounts), db))
