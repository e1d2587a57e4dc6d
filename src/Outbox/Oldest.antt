-- ===== src/Outbox/Oldest.antt =====
-- What `getPending` (packages/shared/src/outbox/outbox.repository.ts) reads: the oldest messages that are
-- not published.
use mathlib.Core.List.{Perm}
use mathlib.Core.List.Perm
use banking_platform.Base.{
  ℕ, ◌≤◌, leb, ◌≡◌, refl, subst, Option, none, some, List, [], ◌∷◌, select, take, All, arith,
  Bool-cases, inl, inr, not, is_some, if◌then◌else◌,
}
use banking_platform.Outbox.Repository.{
  OutboxMessage, is_pending, insert_by_time, sort_by_time, get_pending,
}

abbrev pub if_unpublished : Option ℕ → OutboxMessage → List OutboxMessage → List OutboxMessage
if_unpublished none m ms = m ∷ ms
if_unpublished (some t) m ms = ms

abbrev pub unpublished : List OutboxMessage → List OutboxMessage
unpublished [] = []
unpublished (m ∷ ms) = if_unpublished m.published_at m (unpublished ms)

abbrev pub IsOldestFirst : List OutboxMessage → Type 0
IsOldestFirst [] = Unit {0}
IsOldestFirst (m ∷ ms) = All (λ n. m.created_at ≤ n.created_at) ms × IsOldestFirst ms

-- The first so many of the unpublished rows, oldest first.
pub record IsBatch (limit : ℕ) (rows batch : List OutboxMessage) : Type 0 where
  pub queue : List OutboxMessage
  pub same : Perm queue (unpublished rows)
  pub oldest_first : IsOldestFirst queue
  pub first : batch ≡ take limit queue

keep_lem :
    (p : Option ℕ) (m : OutboxMessage) (ms : List OutboxMessage)
    → (if not (is_some p) then m ∷ ms else ms) ≡ if_unpublished p m ms
keep_lem none m ms = refl
keep_lem (some t) m ms = refl

select-pending : (rows : List OutboxMessage) → select is_pending rows ≡ unpublished rows
select-pending [] = refl
select-pending (m ∷ ms) = rw (select-pending ms) (keep_lem m.published_at m (unpublished ms))

insert_by_time-perm :
    (m : OutboxMessage) (ms : List OutboxMessage) → Perm (insert_by_time m ms) (m ∷ ms)
insert_by_time-perm m [] = Perm.rfl
insert_by_time-perm m (n ∷ ns) = elim (Bool-cases (leb m.created_at n.created_at)) [
  | inl before ↦ rw (before) Perm.rfl
  | inr after ↦ rw (after) (Perm.trans (Perm.cons n (insert_by_time-perm m ns)) (Perm.swap m n ns))
]

sort_by_time-perm : (ms : List OutboxMessage) → Perm (sort_by_time ms) ms
sort_by_time-perm [] = Perm.rfl
sort_by_time-perm (m ∷ ms) =
    Perm.trans (insert_by_time-perm m (sort_by_time ms)) (Perm.cons m (sort_by_time-perm ms))

-- A bound of the list and of the message bounds the list with the message.
insert_by_time-bound :
    (time : ℕ) (m : OutboxMessage) (ms : List OutboxMessage)
    → time ≤ m.created_at
    → All (λ n. time ≤ n.created_at) ms
    → All (λ n. time ≤ n.created_at) (insert_by_time m ms)
insert_by_time-bound time m [] h k = (h, tt)
insert_by_time-bound time m (n ∷ ns) h k = elim (Bool-cases (leb m.created_at n.created_at)) [
  | inl before ↦ rw (before) (h, k)
  | inr after ↦ rw (after) (k.0, insert_by_time-bound time m ns h k.1)
]

All-later :
    (early late : ℕ) (ms : List OutboxMessage)
    → early ≤ late
    → All (λ n. late ≤ n.created_at) ms
    → All (λ n. early ≤ n.created_at) ms
All-later early late [] h k = tt
All-later early late (n ∷ ns) h k = (omega (arith, h, k.0), All-later early late ns h k.1)

insert_by_time-IsOldestFirst :
    (m : OutboxMessage) (ms : List OutboxMessage)
    → IsOldestFirst ms
    → IsOldestFirst (insert_by_time m ms)
insert_by_time-IsOldestFirst m [] h = (tt, tt)
insert_by_time-IsOldestFirst m (n ∷ ns) h = elim (Bool-cases (leb m.created_at n.created_at)) [
  | inl before ↦
      let le : m.created_at ≤ n.created_at = ground (arith, before) in
      rw (before) ((le, All-later m.created_at n.created_at ns le h.0), h)
  | inr after ↦
      let le : n.created_at ≤ m.created_at = ground (arith, after) in
      rw (after)
        (insert_by_time-bound n.created_at m ns le h.0, insert_by_time-IsOldestFirst m ns h.1)
]

sort_by_time-IsOldestFirst : (ms : List OutboxMessage) → IsOldestFirst (sort_by_time ms)
sort_by_time-IsOldestFirst [] = tt
sort_by_time-IsOldestFirst (m ∷ ms) =
    insert_by_time-IsOldestFirst m (sort_by_time ms) (sort_by_time-IsOldestFirst ms)

pub get_pending-IsBatch :
    (limit : ℕ) (rows : List OutboxMessage) → IsBatch limit rows (get_pending limit rows)
unfolding get_pending
get_pending-IsBatch limit rows = record {
  queue = sort_by_time (select is_pending rows);
  same =
      subst (λ us. Perm (sort_by_time (select is_pending rows)) us) (select-pending rows)
        (sort_by_time-perm (select is_pending rows));
  oldest_first = sort_by_time-IsOldestFirst (select is_pending rows);
  first = refl;
}
