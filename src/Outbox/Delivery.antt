-- ===== src/Outbox/Delivery.antt =====
-- Messages between the table and the bus (packages/shared/src/outbox/outbox.poller.ts), whatever
-- fails.
use banking_platform.Base.{
  ℕ, ◌==◌, ==_refl, ==_iff, ◌≡◌, refl, ap, ◌∙◌, subst, Bool, true, false, ◌&&◌, ◌||◌, Option, none,
  some, List, [], ◌∷◌, ◌++◌, arith, Bool-cases, inl, inr,
}
use banking_platform.Shared.Errors.{Error, Result, ok, err}
use banking_platform.Shared.Database.{
  Session, Action, pure, and_then, or_catch, ◌>>=◌, ◌>>◌, next_fault, step_pool, on_pool, try_catch,
}
use banking_platform.Outbox.Repository.{
  OutboxMessage, is_pending, get_pending, mark_published, record_failure, delete_published,
}
use banking_platform.Outbox.Poller.{
  Relay, accept, change_outbox, answer, relay, relay_all, cycle, poll,
}

abbrev pub waits : ℕ → List OutboxMessage → Bool
waits id [] = false
waits id (m ∷ ms) = (m.id == id && is_pending m) || waits id ms

abbrev pub occurs : ℕ → List OutboxMessage → Bool
occurs id [] = false
occurs id (m ∷ ms) = m.id == id || occurs id ms

-- A message is pending in the table, or the bus has accepted it.
abbrev pub is_safe : ℕ → Relay → Bool
is_safe id r = waits id r.outbox || occurs id r.delivered

occurs-last : (m : OutboxMessage) (ms : List OutboxMessage) → occurs m.id (ms ++ (m ∷ [])) ≡ true
occurs-last m [] = ground (arith, ==_refl m.id)
occurs-last m (n ∷ ns) = ground (arith, occurs-last m ns)

occurs-append :
    (id : ℕ) (m : OutboxMessage) (ms : List OutboxMessage)
    → occurs id ms ≡ true
    → occurs id (ms ++ (m ∷ [])) ≡ true
occurs-append id m [] h = ground arith
occurs-append id m (n ∷ ns) h = ground (arith, occurs-append id m ns)

-- A change of another row, or one that leaves the row pending, keeps a message waiting.
waits-mark_published :
    (id now i : ℕ) (ms : List OutboxMessage)
    → (i == id) ≡ false
    → waits id (mark_published now i ms) ≡ waits id ms
unfolding mark_published
waits-mark_published id now i [] h = refl
waits-mark_published id now i (m ∷ ms) h = ground (arith, waits-mark_published id now i ms h)

waits-record_failure :
    (id i : ℕ) (e : Error) (ms : List OutboxMessage)
    → waits id (record_failure i e ms) ≡ waits id ms
unfolding record_failure
waits-record_failure id i e [] = refl
waits-record_failure id i e (m ∷ ms) = ground (arith, waits-record_failure id i e ms)

waits-delete_published :
    (id now hours : ℕ) (ms : List OutboxMessage)
    → waits id (delete_published now hours ms).1 ≡ waits id ms
unfolding delete_published
waits-delete_published id now hours [] = refl
waits-delete_published id now hours (m ∷ ms) =
    ground (arith, waits-delete_published id now hours ms)

module _ (id : ℕ) where
  Keeps : {A : Type 0} → Action Relay A → Type 0
  Keeps m = (s : Session Relay) → is_safe id s.db ≡ true → is_safe id (m s).1.db ≡ true

  -- A statement either fails or changes the table.
  on_pool-safe :
      {A : Type 0} (a : Relay → A) (g : Relay → Relay) (s : Session Relay)
      → is_safe id s.db ≡ true
      → is_safe id (g s.db) ≡ true
      → is_safe id (on_pool (λ r. some (a r, g r)) s).1.db ≡ true
  unfolding on_pool
  on_pool-safe a g s safe then_safe = go (next_fault s.faults)
    where
      go : (p : Bool × List Bool) → is_safe id (step_pool p (λ r. some (a r, g r)) s).1.db ≡ true
      go (true, rest) = safe
      go (false, rest) = then_safe

  pure-Keeps : {A : Type 0} (a : A) → Keeps (pure a)
  unfolding Keeps
  pure-Keeps a s safe = safe

  >>=-Keeps :
      {A B : Type 0} (m : Action Relay A) (k : A → Action Relay B)
      → Keeps m
      → ((a : A) → Keeps (k a))
      → Keeps (m >>= k)
  unfolding Keeps
  >>=-Keeps m k hm hk s safe = go (m s) (hm s safe)
    where
      go :
          (p : Result _ × Session Relay)
          → is_safe id p.1.db ≡ true
          → is_safe id (and_then p k).1.db ≡ true
      go (ok a, s') h = hk a s' h
      go (err e, s') h = h

  try_catch-Keeps :
      {A : Type 0} (m : Action Relay A) (k : Error → Action Relay A)
      → Keeps m
      → ((e : Error) → Keeps (k e))
      → Keeps (try_catch m k)
  unfolding Keeps
  try_catch-Keeps m k hm hk s safe = go (m s) (hm s safe)
    where
      go :
          (p : Result _ × Session Relay)
          → is_safe id p.1.db ≡ true
          → is_safe id (or_catch p k).1.db ≡ true
      go (ok a, s') h = h
      go (err e, s') h = hk e s' h

  -- A change of the table after which the message waits just as before.
  change-Keeps :
      {A : Type 0} (a : Relay → A) (f : List OutboxMessage → List OutboxMessage)
      → ((ms : List OutboxMessage) → waits id (f ms) ≡ waits id ms)
      → Keeps (on_pool (λ r. some (a r, record r { outbox = f r.outbox })))
  unfolding Keeps
  change-Keeps a f same s safe =
      on_pool-safe a (λ r. record r { outbox = f r.outbox }) s safe
        (ap (λ b. b || occurs id s.db.delivered) (same s.db.outbox) ∙ safe)

  accept-safe :
      (m : OutboxMessage) (r : Relay) → is_safe id r ≡ true → is_safe id (accept m r) ≡ true
  accept-safe m r safe = ground (arith, occurs-append id m r.delivered)

  -- Whether or not it is this message that the bus has just accepted.
  mark-safe :
      (now : ℕ) (m : OutboxMessage) (r : Relay)
      → is_safe id (accept m r) ≡ true
      → waits id (mark_published now m.id r.outbox) || occurs id (r.delivered ++ (m ∷ [])) ≡ true
  mark-safe now m r safe = elim (Bool-cases (m.id == id)) [
    | inl same ↦ ground (
      arith,
      subst (λ i. occurs i (r.delivered ++ (m ∷ [])) ≡ true) ((==_iff m.id id).0 same)
          (occurs-last m r.delivered),
    )
    | inr other ↦ ground (arith, waits-mark_published id now m.id r.outbox other)
  ]

  published-Keeps :
      (publish : OutboxMessage → Option Error) (now : ℕ) (m : OutboxMessage)
      → Keeps (do answer (publish m) m; on_pool (change_outbox (mark_published now m.id)))
  unfolding Keeps
  published-Keeps publish now m s safe = go (publish m)
    where
      go :
          (o : Option Error)
          → is_safe id
              (and_then
                (answer o m s)
                (λ _. on_pool (change_outbox (mark_published now m.id)))).1.db
            ≡ true
      go (some e) = safe
      go none =
          on_pool-safe (λ r. tt) (λ r. record r { outbox = mark_published now m.id r.outbox })
            (record s { db = accept m s.db; view = accept m s.view }) (accept-safe m s.db safe)
            (mark-safe now m s.db (accept-safe m s.db safe))

  module _ (publish : OutboxMessage → Option Error) (now : ℕ) where
    relay-Keeps : (m : OutboxMessage) → Keeps (relay publish now m)
    relay-Keeps m =
        try_catch-Keeps _ _ (published-Keeps publish now m)
          (λ e. change-Keeps (λ r. tt) (record_failure m.id e) (waits-record_failure id m.id e))

    relay_all-Keeps : (ms : List OutboxMessage) → Keeps (relay_all publish now ms)
    relay_all-Keeps [] = pure-Keeps tt
    relay_all-Keeps (m ∷ ms) = >>=-Keeps _ _ (relay-Keeps m) (λ _. relay_all-Keeps ms)

    cycle-Keeps : (ms : List OutboxMessage) → Keeps (cycle publish now ms)
    cycle-Keeps [] = pure-Keeps tt
    cycle-Keeps (m ∷ ms) = >>=-Keeps _ _ (relay_all-Keeps (m ∷ ms)) (λ _.
        >>=-Keeps _ _
          (change-Keeps (λ r. (delete_published now 24 r.outbox).0)
            (λ rows. (delete_published now 24 rows).1) (waits-delete_published id now 24))
          (λ _. pure-Keeps tt))

    poll_safe : (is_running : Bool) → Keeps (poll publish now is_running)
    unfolding poll
    poll_safe true = pure-Keeps tt
    poll_safe false =
        try_catch-Keeps _ _
          (>>=-Keeps _ _ (change-Keeps (λ r. get_pending 50 r.outbox) (λ rows. rows) (λ rows. refl))
            cycle-Keeps)
          (λ e. pure-Keeps tt)

-- Whichever statements fail and whichever messages the bus refuses, a message that is pending in
-- the table or accepted by the bus before a poll is one of the two after it: no message is lost.
pub poll-keeps :
    (publish : OutboxMessage → Option Error) (now : ℕ) (is_running : Bool) (id : ℕ)
    (s : Session Relay)
    → is_safe id s.db ≡ true
    → is_safe id (poll publish now is_running s).1.db ≡ true
unfolding Keeps
poll-keeps publish now is_running id s safe = poll_safe id publish now is_running s safe
