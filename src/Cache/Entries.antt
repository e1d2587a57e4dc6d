-- ===== src/Cache/Entries.antt =====
-- Entries of the cache (packages/shared/src/cache/cache-service.ts): what is read back, until when,
-- and what remains when Redis fails.
use text.Mathlib.Text.{◌==◌ as str_eq}
use banking_platform.Base.{
  ℕ, ◌+◌, ◌*◌, ltb, ◌≡◌, ◌≢◌, refl, ap, false, none, some, if◌then◌else◌, Bool-cases, inl, inr,
}
use banking_platform.Shared.Errors.{ok}
use banking_platform.Shared.Database.{on_pool}
use banking_platform.Shared.Database.Progress.{calm}
use banking_platform.Cache.Redis.{Redis, Key, Kind, account, balance}
use banking_platform.Cache.Service.{Codec, key, get_entry, set_entry, invalidate_account}

other_kind : (id : ℕ) → key account id ≢ key balance id
other_kind id e = (let clash = ap (λ k. Key.kind k) e in cc)

module _ (r : Redis) {A : Type 0} (c : Codec A) where
  -- What is set is read back until its time to live is over, if Redis answers and the value can be
  -- read from its text; from then on it is missing.
  pub get_entry-set_entry :
      (now now' ttl id : ℕ) (kind : Kind) (a : A) (s view : r.Store)
      → c.parse (c.print a) ≡ some a
      → str_eq (c.print a) "" ≡ false
      → (get_entry r c now' kind id (set_entry r c now kind ttl id a (calm s view)).1).0
        ≡ ok (if ltb now' (now + ttl * 1000) then some a else none)
  unfolding get_entry set_entry on_pool
  get_entry-set_entry now now' ttl id kind a s view reads full =
      elim (Bool-cases (ltb now' (now + ttl * 1000))) [
        | inl early ↦
            rw (r.get-set_ex now now' (key kind id) ttl (c.print a) s, early, full, reads) refl
        | inr late ↦ rw (r.get-set_ex now now' (key kind id) ttl (c.print a) s, late) refl
      ]

  -- If Redis answers, an invalidated account is missing, and so is its balance.
  pub invalidate_account-clears :
      (now id : ℕ) (s view : r.Store)
      → ((get_entry r c now account id (invalidate_account r id (calm s view)).1).0 ≡ ok none)
        × ((get_entry r c now balance id (invalidate_account r id (calm s view)).1).0 ≡ ok none)
  unfolding get_entry invalidate_account on_pool
  invalidate_account-clears now id s view = (
    rw
        (
          r.get-del_other now (key balance id) (key account id) (r.del (key account id) s)
              (other_kind id),
          r.get-del now (key account id) s,
        )
        refl,
    rw (r.get-del now (key balance id) (r.del (key account id) s)) refl,
  )
