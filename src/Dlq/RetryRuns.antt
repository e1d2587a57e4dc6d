-- ===== src/Dlq/RetryRuns.antt =====
-- What a retry from the topic of dead letters handles and counts, and what the statistics can show
-- (packages/shared/src/dlq/kafka-dlq.handler.ts).
use banking_platform.Base.{
  ℕ, zero, suc, ◌+◌, ◌-◌, leb, ◌≡◌, refl, sym, ap, ◌∙◌, Option, none, some, List, [], ◌∷◌, ◌++◌,
  take, length, length-append, All, append-nil, append_assoc, arith, Bool-cases, inl, inr,
}
use banking_platform.Base.Int.{ℤ, pos, ◌+ℤ◌, ◌-ℤ◌, ◌≤ℤ◌, +ℤ_parts, -ℤ_parts}
use banking_platform.Shared.Errors.{Error, Result, ok, err}
use banking_platform.Shared.Events.{Payload, DomainEvent}
use banking_platform.Dlq.KafkaRetries.{
  RetryRun, new_run, handled_by, counted, high_or_zero, retry_message, retry_from_dlq,
  PartitionOffset, total_from, Stats, get_stats,
}

-- The counters agree with each other and with the events that were handled.
abbrev pub IsTallied : RetryRun → Type 0
IsTallied r = (r.succeeded + r.failed ≡ r.processed) × (length r.handled ≡ r.processed)

take-nil : (n : ℕ) → take {A = DomainEvent Payload} n [] ≡ []
take-nil zero = refl
take-nil (suc n) = refl

module _ (handler : DomainEvent Payload → Option Error) (limit : ℕ) where
  counted_lem :
      (outcome : Option Error) (r : RetryRun)
      → (counted outcome r).succeeded + (counted outcome r).failed ≡ r.succeeded + r.failed + 1
  counted_lem none r = omega arith
  counted_lem (some e) r = omega arith

  handled_by-IsTallied :
      (event : DomainEvent Payload) (r : RetryRun)
      → IsTallied r
      → IsTallied (handled_by handler limit event r)
  handled_by-IsTallied event r h = (
    omega (arith, counted_lem (handler event) r, h.0),
    omega (arith, length-append r.handled (event ∷ []), h.1),
  )

  retry_message-IsTallied :
      (event : DomainEvent Payload) (r : RetryRun)
      → IsTallied r
      → IsTallied (retry_message handler limit event r)
  unfolding retry_message
  retry_message-IsTallied event r h = elim (Bool-cases (leb limit r.processed)) [
    | inl full ↦ rw full h
    | inr free ↦ rw free (handled_by-IsTallied event r h)
  ]

  retry_from_dlq-IsTallied :
      (events : List (DomainEvent Payload)) (r : RetryRun)
      → IsTallied r
      → IsTallied (retry_from_dlq handler limit events r)
  unfolding retry_from_dlq
  retry_from_dlq-IsTallied [] r h = h
  retry_from_dlq-IsTallied (event ∷ events) r h =
      retry_from_dlq-IsTallied events (retry_message handler limit event r)
        (retry_message-IsTallied event r h)

  take_full : (n : ℕ) (events : List (DomainEvent Payload)) → n ≡ 0 → take n events ≡ []
  take_full n events h = rw h refl

  take_free :
      (n m : ℕ) (event : DomainEvent Payload) (events : List (DomainEvent Payload))
      → n ≡ suc m
      → take n (event ∷ events) ≡ event ∷ take m events
  take_free n m event events h = rw h refl

  retry_message-take :
      (event : DomainEvent Payload) (events : List (DomainEvent Payload)) (r : RetryRun)
      → (retry_message handler limit event r).handled
          ++ take (limit - (retry_message handler limit event r).processed) events
        ≡ r.handled ++ take (limit - r.processed) (event ∷ events)
  unfolding retry_message
  retry_message-take event events r = elim (Bool-cases (leb limit r.processed)) [
    | inl full ↦
        rw
          (
            full,
            take_full (limit - r.processed) events (ground (arith, full)),
            take_full (limit - r.processed) (event ∷ events) (ground (arith, full)),
          )
          refl
    | inr free ↦
        rw
          (
            free,
            take_free (limit - r.processed) (limit - (r.processed + 1)) event events
                (ground (arith, free)),
          )
          (append_assoc r.handled (event ∷ []) (take (limit - (r.processed + 1)) events))
  ]

  retry_from_dlq-take :
      (events : List (DomainEvent Payload)) (r : RetryRun)
      → (retry_from_dlq handler limit events r).handled
        ≡ r.handled ++ take (limit - r.processed) events
  unfolding retry_from_dlq
  retry_from_dlq-take [] r = rw (take-nil (limit - r.processed)) (sym (append-nil r.handled))
  retry_from_dlq-take (event ∷ events) r =
      retry_from_dlq-take events (retry_message handler limit event r)
      ∙ retry_message-take event events r

  no_less : limit - 0 ≡ limit
  no_less = omega arith

  -- Whatever the handler answers, a retry hands exactly the first `limit` of the delivered events to
  -- it, in their order, and the successes and failures that it reports are as many together.
  pub retry_from_dlq-limits :
      (events : List (DomainEvent Payload))
      → let r = retry_from_dlq handler limit events new_run in
        (r.handled ≡ take limit events) × (r.succeeded + r.failed ≡ length (take limit events))
  retry_from_dlq-limits events =
      let tallied = retry_from_dlq-IsTallied events new_run (refl, refl) in
      let first = retry_from_dlq-take events new_run ∙ ap (λ n. take n events) no_less in
      (first, tallied.0 ∙ sym tallied.1 ∙ ap length first)

-- No partition tells its high mark, and no offset is negative.
abbrev pub IsUnmarked : PartitionOffset → Type 0
IsUnmarked p = (p.high ≡ none) × (pos 0 ≤ℤ p.offset)

total_from-nonpos :
    (total : ℤ) (partitions : List PartitionOffset)
    → total ≤ℤ pos 0
    → All IsUnmarked partitions
    → total_from total partitions ≤ℤ pos 0
total_from-nonpos total [] h unmarked = h
total_from-nonpos total (p ∷ ps) h unmarked =
    total_from-nonpos (total +ℤ (high_or_zero p.high -ℤ p.offset)) ps
      (rw unmarked.0.0 (
        omega
          (arith, h, unmarked.0.1, -ℤ_parts (pos 0) p.offset, +ℤ_parts total (pos 0 -ℤ p.offset))))
      unmarked.1

-- The number that `getStats` reports.
abbrev pub reported : Result Stats → ℤ
reported (ok stats) = stats.total_messages
reported (err e) = pos 0

-- Where no partition tells its high mark, the statistics never show a dead letter.
get_stats-nonpos :
    (partitions : List PartitionOffset)
    → All IsUnmarked partitions
    → reported (get_stats (ok partitions)) ≤ℤ pos 0
unfolding get_stats
get_stats-nonpos partitions unmarked = total_from-nonpos (pos 0) partitions (omega arith) unmarked
