-- ===== src/Tests/MemoryRedis.antt =====
-- A Redis in memory, with the behaviour that Cache.Redis names.
use banking_platform.Base.{
  ℕ, ◌+◌, ◌*◌, ◌==◌, ==_refl, ltb, ◌≡◌, ◌≢◌, refl, ap, ◌∙◌, sym, String, Bool, true, false, ◌&&◌,
  Option, none, some, List, [], select, length, Bool-cases, inl, inr, if◌then◌else◌, arith,
}
use banking_platform.Cache.Redis.{
  Redis, Key, Kind, balance, client, account, session, rate_limit, add_score,
}

abbrev pub kind_code : Kind → ℕ
kind_code balance = 0
kind_code client = 1
kind_code account = 2
kind_code session = 3
kind_code rate_limit = 4

abbrev pub kind_at : ℕ → Kind
kind_at n =
    if n == 0
    then balance
    else if n == 1
    then client
    else if n == 2
    then account
    else if n == 3
    then session
    else rate_limit

kind_at-kind_code : (k : Kind) → kind_at (kind_code k) ≡ k
kind_at-kind_code balance = refl
kind_at-kind_code client = refl
kind_at-kind_code account = refl
kind_at-kind_code session = refl
kind_at-kind_code rate_limit = refl

abbrev pub same_key : Key → Key → Bool
same_key j k = kind_code j.kind == kind_code k.kind && j.id == k.id

same_key_refl : (k : Key) → same_key k k ≡ true
same_key_refl k = rw (==_refl (kind_code k.kind), ==_refl k.id) refl

same_key-eq : (j k : Key) → same_key j k ≡ true → j ≡ k
same_key-eq j k h =
    let kinds : kind_code j.kind ≡ kind_code k.kind = ground arith in
    let ids : j.id ≡ k.id = ground arith in
    let same : j.kind ≡ k.kind =
      sym (kind_at-kind_code j.kind) ∙ ap kind_at kinds ∙ kind_at-kind_code k.kind in
    λ i. record { kind = same i; id = ids i }

same_key_ne : (j k : Key) → j ≢ k → same_key j k ≡ false
same_key_ne j k ne = elim (Bool-cases (same_key j k)) [
  | inl same ↦ absurd (ne (same_key-eq j k same))
  | inr differ ↦ differ
]

pub record Memory : Type 0 where
  pub value_at : ℕ → Key → Option String
  pub scores_at : ℕ → Key → List ℕ

abbrev pub put : Key → (ℕ → Option String) → Memory → Memory
put k f m = record m { value_at = λ now j. if same_key j k then f now else m.value_at now j }

abbrev pub put_scores : Key → (ℕ → List ℕ) → Memory → Memory
put_scores k f m = record m {
  scores_at = λ now j. if same_key j k then f now else m.scores_at now j;
}

abbrev pub empty_memory : Memory
empty_memory = record { value_at = λ now k. none; scores_at = λ now k. [] }

pub put_lem :
    (k : Key) (f : ℕ → Option String) (m : Memory) (now : ℕ) → (put k f m).value_at now k ≡ f now
put_lem k f m now = rw (same_key_refl k) refl

pub put_other :
    (k j : Key) (f : ℕ → Option String) (m : Memory) (now : ℕ)
    → j ≢ k
    → (put k f m).value_at now j ≡ m.value_at now j
put_other k j f m now ne = rw (same_key_ne j k ne) refl

pub put_scores_lem :
    (k : Key) (f : ℕ → List ℕ) (m : Memory) (now : ℕ) → (put_scores k f m).scores_at now k ≡ f now
put_scores_lem k f m now = rw (same_key_refl k) refl

abbrev pub memory_redis : Redis
memory_redis = record {
  Store = Memory;
  get = λ now k m. m.value_at now k;
  set_ex = λ now k ttl v m. put k (λ now'. if ltb now' (now + ttl * 1000) then some v else none) m;
  del = λ k m. put k (λ now. none) m;
  flush_db = λ m. empty_memory;
  get-set_ex = λ now now' k ttl v m.
      put_lem k (λ later. if ltb later (now + ttl * 1000) then some v else none) m now';
  get-set_ex_other = λ now now' k j ttl v m ne.
      put_other k j (λ later. if ltb later (now + ttl * 1000) then some v else none) m now' ne;
  get-del = λ now k m. put_lem k (λ later. none) m now;
  get-del_other = λ now k j m ne. put_other k j (λ later. none) m now ne;
  get-flush_db = λ now k m. refl;
  scores = λ now k m. m.scores_at now k;
  z_rem_before = λ now window k m.
      put_scores k (λ later. select (λ u. ltb now (u + window)) (m.scores_at later k)) m;
  z_card = λ now k m. length (m.scores_at now k);
  z_add = λ now score k m. put_scores k (λ later. add_score score (m.scores_at later k)) m;
  expire = λ now ttl k m.
      put_scores k (λ later. if ltb later (now + ttl * 1000) then m.scores_at now k else []) m;
  scores-z_rem_before = λ now window k m.
      put_scores_lem k (λ later. select (λ u. ltb now (u + window)) (m.scores_at later k)) m now;
  z_card_lem = λ now k m. refl;
  scores-z_add =
      λ now score k m. put_scores_lem k (λ later. add_score score (m.scores_at later k)) m now;
  scores-expire = λ now now' ttl k m le.
      put_scores_lem k (λ later. if ltb later (now + ttl * 1000) then m.scores_at now k else []) m
        now';
}
