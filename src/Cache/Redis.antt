-- ===== src/Cache/Redis.antt =====
-- What packages/shared/src/cache/cache-service.ts uses of Redis, which is not part of this code: its
-- commands and their documented behaviour. Times are milliseconds; a command is given the server's
-- time. In a text of the form `kind:id` the kind tells the keys apart.
use banking_platform.Base.{
  ℕ, ◌+◌, ◌*◌, ◌≤◌, ◌==◌, ltb, ◌≡◌, ◌≢◌, String, Bool, false, ◌||◌, Option, none, some, List, [],
  ◌∷◌, ◌++◌, select, length, if◌then◌else◌,
}

pub data Kind : Type 0 where
  balance client account session rate_limit : Kind

pub record Key : Type 0 where
  pub kind : Kind
  pub id : ℕ

abbrev pub has_score : ℕ → List ℕ → Bool
has_score u [] = false
has_score u (v ∷ vs) = v == u || has_score u vs

-- A sorted set of numbers, each its own score.
abbrev pub add_score : ℕ → List ℕ → List ℕ
add_score u us = if has_score u us then us else us ++ (u ∷ [])

pub record Redis : Type 1 where
  pub Store : Type 0
  pub get : ℕ → Key → Store → Option String
  -- `SETEX` with a time to live in seconds
  pub set_ex : ℕ → Key → ℕ → String → Store → Store
  pub del : Key → Store → Store
  pub flush_db : Store → Store
  pub get-set_ex :
      (now now' : ℕ) (k : Key) (ttl : ℕ) (v : String) (s : Store)
      → get now' k (set_ex now k ttl v s) ≡ (if ltb now' (now + ttl * 1000) then some v else none)
  pub get-set_ex_other :
      (now now' : ℕ) (k j : Key) (ttl : ℕ) (v : String) (s : Store)
      → j ≢ k
      → get now' j (set_ex now k ttl v s) ≡ get now' j s
  pub get-del : (now : ℕ) (k : Key) (s : Store) → get now k (del k s) ≡ none
  pub get-del_other : (now : ℕ) (k j : Key) (s : Store) → j ≢ k → get now j (del k s) ≡ get now j s
  pub get-flush_db : (now : ℕ) (k : Key) (s : Store) → get now k (flush_db s) ≡ none
  -- the scores of a sorted set at a time
  pub scores : ℕ → Key → Store → List ℕ
  -- `ZREMRANGEBYSCORE` from 0 to `now - window`
  pub z_rem_before : (now window : ℕ) → Key → Store → Store
  pub z_card : ℕ → Key → Store → ℕ
  pub z_add : (now score : ℕ) → Key → Store → Store
  -- `EXPIRE` in seconds
  pub expire : (now ttl : ℕ) → Key → Store → Store
  pub scores-z_rem_before :
      (now window : ℕ) (k : Key) (s : Store)
      → scores now k (z_rem_before now window k s)
        ≡ select (λ u. ltb now (u + window)) (scores now k s)
  pub z_card_lem : (now : ℕ) (k : Key) (s : Store) → z_card now k s ≡ length (scores now k s)
  pub scores-z_add :
      (now score : ℕ) (k : Key) (s : Store)
      → scores now k (z_add now score k s) ≡ add_score score (scores now k s)
  pub scores-expire :
      (now now' ttl : ℕ) (k : Key) (s : Store)
      → now ≤ now'
      → scores now' k (expire now ttl k s)
        ≡ (if ltb now' (now + ttl * 1000) then scores now k s else [])
