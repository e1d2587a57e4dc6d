-- ===== src/Cache/Entities.antt =====
-- The operations of `CacheService` (packages/shared/src/cache/cache-service.ts) for each kind of entry,
-- with the times to live that are their defaults.
use banking_platform.Base.{ℕ, Option}
use banking_platform.Shared.Database.{Action}
use banking_platform.Cache.Redis.{Redis, balance, client, session, account}
use banking_platform.Cache.Service.{Codec, get_entry, set_entry, delete_entry}

abbrev pub balance_ttl : ℕ
balance_ttl = 30

abbrev pub client_ttl : ℕ
client_ttl = 300

abbrev pub account_ttl : ℕ
account_ttl = 120

abbrev pub session_ttl : ℕ
session_ttl = 3600

module _ (r : Redis) where
  module _ {A : Type 0} (c : Codec A) (now : ℕ) where
    -- `c` is `toString` and `parseFloat` for balances, and JSON for the others.
    unfoldable pub get_balance : ℕ → Action r.Store (Option A)
    unfolding get_entry
    get_balance account_id = get_entry r c now balance account_id

    unfoldable pub set_balance : ℕ → A → ℕ → Action r.Store (Unit {0})
    unfolding set_entry
    set_balance account_id value ttl = set_entry r c now balance ttl account_id value

    unfoldable pub get_client : ℕ → Action r.Store (Option A)
    unfolding get_entry
    get_client client_id = get_entry r c now client client_id

    unfoldable pub set_client : ℕ → A → ℕ → Action r.Store (Unit {0})
    unfolding set_entry
    set_client client_id value ttl = set_entry r c now client ttl client_id value

    unfoldable pub get_account : ℕ → Action r.Store (Option A)
    unfolding get_entry
    get_account account_id = get_entry r c now account account_id

    unfoldable pub set_account : ℕ → A → ℕ → Action r.Store (Unit {0})
    unfolding set_entry
    set_account account_id value ttl = set_entry r c now account ttl account_id value

    unfoldable pub get_session : ℕ → Action r.Store (Option A)
    unfolding get_entry
    get_session session_id = get_entry r c now session session_id

    unfoldable pub set_session : ℕ → A → ℕ → Action r.Store (Unit {0})
    unfolding set_entry
    set_session session_id value ttl = set_entry r c now session ttl session_id value

  unfoldable pub invalidate_balance : ℕ → Action r.Store (Unit {0})
  unfolding delete_entry
  invalidate_balance account_id = delete_entry r balance account_id

  unfoldable pub invalidate_client : ℕ → Action r.Store (Unit {0})
  unfolding delete_entry
  invalidate_client client_id = delete_entry r client client_id

  unfoldable pub delete_session : ℕ → Action r.Store (Unit {0})
  unfolding delete_entry
  delete_session session_id = delete_entry r session session_id
