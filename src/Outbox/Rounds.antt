-- ===== src/Outbox/Rounds.antt =====
-- A poll (packages/shared/src/outbox/outbox.poller.ts) during which no statement fails: what the bus
-- gets from it.
use banking_platform.Base.{
  ℕ, ◌≡◌, refl, sym, ap, ◌∙◌, Bool, false, not, Option, none, some, List, [], ◌∷◌, ◌++◌, append-nil,
  append_assoc, select, is_some,
}
use banking_platform.Shared.Errors.{Error, ok}
use banking_platform.Shared.Database.{pure, and_then, or_catch, ◌>>=◌, on_pool}
use banking_platform.Shared.Database.Progress.{calm}
use banking_platform.Outbox.Repository.{
  OutboxMessage, get_pending, mark_published, record_failure, delete_published,
}
use banking_platform.Outbox.Oldest.{IsBatch, get_pending-IsBatch}
use banking_platform.Outbox.Poller.{Relay, accept, delete_statement, relay, relay_all, cycle, poll}

module _ (publish : OutboxMessage → Option Error) (now : ℕ) where
  abbrev pub after_answer : Option Error → OutboxMessage → Relay → Relay
  after_answer none m r = record (accept m r) { outbox = mark_published now m.id r.outbox }
  after_answer (some e) m r = record r { outbox = record_failure m.id e r.outbox }

  abbrev pub after_all : List OutboxMessage → Relay → Relay
  after_all [] r = r
  after_all (m ∷ ms) r = after_all ms (after_answer (publish m) m r)

  abbrev pub cleaned : Relay → Relay
  cleaned r = record r { outbox = (delete_published now 24 r.outbox).1 }

  -- Without a message nothing happens.
  abbrev pub after_cycle : List OutboxMessage → Relay → Relay
  after_cycle [] r = r
  after_cycle (m ∷ ms) r = cleaned (after_all (m ∷ ms) r)

  abbrev is_accepted : OutboxMessage → Bool
  is_accepted m = not (is_some (publish m))

  relay_lem :
      (m : OutboxMessage) (r v : Relay)
      → relay publish now m (calm r v)
        ≡ (ok tt, calm (after_answer (publish m) m r) (after_answer (publish m) m v))
  unfolding on_pool
  relay_lem m r v = go (publish m) refl
    where
      go :
          (o : Option Error)
          → publish m ≡ o
          → relay publish now m (calm r v)
            ≡ (ok tt, calm (after_answer (publish m) m r) (after_answer (publish m) m v))
      go none h = rw (h) refl
      go (some e) h = rw (h) refl

  relay_all_lem :
      (ms : List OutboxMessage) (r v : Relay)
      → relay_all publish now ms (calm r v) ≡ (ok tt, calm (after_all ms r) (after_all ms v))
  relay_all_lem [] r v = refl
  relay_all_lem (m ∷ ms) r v =
      ap (λ p. and_then p (λ _. relay_all publish now ms)) (relay_lem m r v)
      ∙ relay_all_lem ms (after_answer (publish m) m r) (after_answer (publish m) m v)

  cycle_lem :
      (ms : List OutboxMessage) (r v : Relay)
      → cycle publish now ms (calm r v) ≡ (ok tt, calm (after_cycle ms r) (after_cycle ms v))
  unfolding on_pool
  cycle_lem [] r v = refl
  cycle_lem (m ∷ ms) r v =
      ap (λ p. and_then p (λ _. do _ ← on_pool (delete_statement now 24); pure tt))
        (relay_all_lem (m ∷ ms) r v)

  delivered-after_answer :
      (m : OutboxMessage) (ms : List OutboxMessage) (r : Relay)
      → (after_answer (publish m) m r).delivered ++ select is_accepted ms
        ≡ r.delivered ++ select is_accepted (m ∷ ms)
  delivered-after_answer m ms r = go (publish m) refl
    where
      go :
          (o : Option Error)
          → publish m ≡ o
          → (after_answer (publish m) m r).delivered ++ select is_accepted ms
            ≡ r.delivered ++ select is_accepted (m ∷ ms)
      go none h = rw (h) (append_assoc r.delivered (m ∷ []) (select is_accepted ms))
      go (some e) h = rw (h) refl

  delivered-after_all :
      (ms : List OutboxMessage) (r : Relay)
      → (after_all ms r).delivered ≡ r.delivered ++ select is_accepted ms
  delivered-after_all [] r = sym (append-nil r.delivered)
  delivered-after_all (m ∷ ms) r =
      delivered-after_all ms (after_answer (publish m) m r) ∙ delivered-after_answer m ms r

  delivered-after_cycle :
      (ms : List OutboxMessage) (r : Relay)
      → (after_cycle ms r).delivered ≡ r.delivered ++ select is_accepted ms
  delivered-after_cycle [] r = sym (append-nil r.delivered)
  delivered-after_cycle (m ∷ ms) r = delivered-after_all (m ∷ ms) r

-- If no statement fails, a poll returns, and the bus has got from it, after what it had before, just
-- those of the fifty oldest messages that are not published (of all, if there are fewer) that it does
-- not refuse, oldest first and each once; how often a message was refused before makes no difference.
pub poll-delivers :
    (publish : OutboxMessage → Option Error) (now : ℕ) (r v : Relay)
    → (batch : List OutboxMessage) × IsBatch 50 r.outbox batch
      × (poll publish now false (calm r v)
          ≡ (ok tt, calm (after_cycle publish now batch r) (after_cycle publish now batch v)))
      × ((after_cycle publish now batch r).delivered
          ≡ r.delivered ++ select (λ m. not (is_some (publish m))) batch)
unfolding poll on_pool
poll-delivers publish now r v = (
  get_pending 50 r.outbox,
  get_pending-IsBatch 50 r.outbox,
  ap (λ p. or_catch p (λ _. pure tt)) (cycle_lem publish now (get_pending 50 r.outbox) r v),
  delivered-after_cycle publish now (get_pending 50 r.outbox) r,
)
