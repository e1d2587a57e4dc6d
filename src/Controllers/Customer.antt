-- ===== src/Controllers/Customer.antt =====
-- `ClientsController` and `AccountsController` (packages/customer-service/src/clients, accounts) and
-- their DTO classes. Whether a text is an e-mail address is a parameter; identifiers are UUIDs.
use Prim.Native.String.{count}
use banking_platform.Base.{ℕ, leb, String, Bool, true, not, ◌&&◌, Option, none, some, List}
use text.Mathlib.Text.{◌==◌ as str_eq}
use banking_platform.Base.Int.{ℤ, pos, leb_ℤ}
use banking_platform.Shared.Database.{Session}
use banking_platform.Customer.Repository.{Bank, Client, Account}
use banking_platform.Customer.Service.{
  Env, CreateClientInput, CreateAccountInput, register_client, list_clients, get_client,
  get_client_accounts, open_account, get_account, get_balance,
}
use banking_platform.Controllers.{HttpAnswer, respond, validated, is_currency}

-- `CreateClientDto`.
abbrev pub is_client_dto : (is_email : String → Bool) → CreateClientInput → Bool
is_client_dto is_email dto =
    leb 2 (count dto.name) && is_email dto.email && not (str_eq dto.document_number "")

abbrev pub is_amount : Option ℤ → Bool
is_amount none = true
is_amount (some n) = leb_ℤ (pos 0) n

-- `CreateAccountDto`.
abbrev pub is_account_dto : CreateAccountInput → Bool
is_account_dto dto = is_currency dto.currency && is_amount dto.initial_balance

module _ (is_email : String → Bool) where
  unfoldable pub post_client :
      Env → CreateClientInput → Session Bank → HttpAnswer Client × Session Bank
  post_client env dto =
      validated (is_client_dto is_email dto) (respond 201 (register_client env dto none))

unfoldable pub find_all_clients : Session Bank → HttpAnswer (List Client) × Session Bank
find_all_clients = respond 200 list_clients

unfoldable pub find_one_client : ℕ → Session Bank → HttpAnswer Client × Session Bank
find_one_client id = respond 200 (get_client id)

unfoldable pub get_accounts : ℕ → Session Bank → HttpAnswer (List Account) × Session Bank
get_accounts id = respond 200 (get_client_accounts id)

unfoldable pub post_account :
    Env → CreateAccountInput → Session Bank → HttpAnswer Account × Session Bank
post_account env dto = validated (is_account_dto dto) (respond 201 (open_account env dto none))

unfoldable pub find_one_account : ℕ → Session Bank → HttpAnswer Account × Session Bank
find_one_account id = respond 200 (get_account id)

unfoldable pub get_account_balance : ℕ → Session Bank → HttpAnswer (ℕ × ℤ) × Session Bank
get_account_balance id = respond 200 (get_balance id)
