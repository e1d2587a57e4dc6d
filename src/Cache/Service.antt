-- ===== src/Cache/Service.antt =====
-- `CacheService` (packages/shared/src/cache/cache-service.ts). A command of Redis is a statement that
-- commits by itself and may fail. How values are written as texts and read back is a parameter; a
-- text that cannot be read throws. The statistics are left out.
use text.Mathlib.Text.{◌==◌ as str_eq}
use banking_platform.Base.{ℕ, ◌-◌, ◌*◌, ltb, String, Bool, true, Option, none, some, if◌then◌else◌}
use banking_platform.Shared.Errors.{type_error}
use banking_platform.Shared.Database.{
  Statement, Action, pure, throw, ◌>>=◌, ◌>>◌, on_pool, try_catch,
}
use banking_platform.Cache.Redis.{Redis, Key, Kind, balance, account, rate_limit}

pub record Codec (A : Type 0) : Type 0 where
  pub print : A → String
  pub parse : String → Option A

-- `{ allowed, remaining }`.
pub record Verdict : Type 0 where
  pub allowed : Bool
  pub remaining : ℕ

abbrev pub key : Kind → ℕ → Key
key kind id = record { kind = kind; id = id }

abbrev pub verdict : ℕ → ℕ → Verdict
verdict max_requests count = record {
  allowed = ltb count max_requests;
  remaining = max_requests - count - 1;
}

module _ (r : Redis) where
  abbrev pub command : (r.Store → r.Store) → Action r.Store (Unit {0})
  command f = on_pool (λ s. some (tt, f s))

  module _ {A : Type 0} (c : Codec A) (now : ℕ) where
    abbrev pub read_or_throw : Option A → Action r.Store (Option A)
    read_or_throw none = throw type_error
    read_or_throw (some a) = pure (some a)

    -- `if (cached)`: an empty text counts as missing.
    abbrev pub read_cached : Option String → Action r.Store (Option A)
    read_cached none = pure none
    read_cached (some text) = if str_eq text "" then pure none else read_or_throw (c.parse text)

    -- `getBalance`, `getClient`, `getAccount` and `getSession`.
    unfoldable pub get_entry : Kind → ℕ → Action r.Store (Option A)
    get_entry kind id =
        try_catch
          (do cached ← on_pool (λ s. some (r.get now (key kind id) s, s)); read_cached cached)
          (λ _. pure none)

    -- `setBalance`, `setClient`, `setAccount` and `setSession`.
    unfoldable pub set_entry : Kind → ℕ → ℕ → A → Action r.Store (Unit {0})
    set_entry kind ttl id a =
        try_catch (command (r.set_ex now (key kind id) ttl (c.print a))) (λ _. pure tt)

  -- `invalidateBalance`, `invalidateClient` and `deleteSession`.
  unfoldable pub delete_entry : Kind → ℕ → Action r.Store (Unit {0})
  delete_entry kind id = try_catch (command (r.del (key kind id))) (λ _. pure tt)

  -- An account goes with its balance.
  unfoldable pub invalidate_account : ℕ → Action r.Store (Unit {0})
  invalidate_account id =
      try_catch (do command (r.del (key account id)); command (r.del (key balance id)))
        (λ _. pure tt)

  unfoldable pub flush_all : Action r.Store (Unit {0})
  flush_all = try_catch (command r.flush_db) (λ _. pure tt)

  -- The commands of `multi`, which run at one time; the answer is that of `zCard`.
  abbrev pub multi : (now window_seconds : ℕ) → Key → Statement r.Store ℕ
  multi now window_seconds k s =
      let s₁ = r.z_rem_before now (window_seconds * 1000) k s in
      some (r.z_card now k s₁, r.expire now window_seconds k (r.z_add now now k s₁))

  -- `checkRateLimit`; without an answer of Redis everything is allowed.
  unfoldable pub check_rate_limit :
      (now id max_requests window_seconds : ℕ) → Action r.Store Verdict
  check_rate_limit now id max_requests window_seconds =
      try_catch
        (do
          count ← on_pool (multi now window_seconds (key rate_limit id))
          pure (verdict max_requests count))
        (λ _. pure (record { allowed = true; remaining = max_requests }))
