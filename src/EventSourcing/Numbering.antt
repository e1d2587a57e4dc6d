-- ===== src/EventSourcing/Numbering.antt =====
-- How an aggregate numbers the events that it raises (packages/shared/src/event-sourcing/
-- aggregate.ts): its version runs ahead of the stored one by its uncommitted events.
use banking_platform.Base.{ℕ, ◌+◌, ◌≡◌, List, [], ◌∷◌, ◌++◌, length, arith}
use banking_platform.EventSourcing.Aggregate.{DomainEvent, Aggregate}

-- The events are numbered one by one, from the version after `base` on.
abbrev pub Numbered : {D : Type 0} → ℕ → List (DomainEvent D) → Type 0
Numbered base [] = Unit {0}
Numbered base (e ∷ es) = (e.version ≡ base + 1) × Numbered (base + 1) es

-- `base` is the version that the store has.
pub record IsTracked {S D : Type 0} (base : ℕ) (a : Aggregate S D) : Type 0 where
  pub counted : a.version ≡ base + length a.uncommitted_events
  pub numbered : Numbered base a.uncommitted_events

pub Numbered-append :
    {D : Type 0} (base : ℕ) (es : List (DomainEvent D)) (e : DomainEvent D)
    → Numbered base es
    → e.version ≡ base + length es + 1
    → Numbered base (es ++ (e ∷ []))
Numbered-append base [] e h v = (omega arith, tt)
Numbered-append base (f ∷ es) e h v = (h.0, Numbered-append (base + 1) es e h.1 (omega arith))
