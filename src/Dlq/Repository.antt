-- ===== src/Dlq/Repository.antt =====
-- `DLQRepository` (packages/shared/src/dlq/dlq.repository.ts) on the table `dead_letter_queue`, next
-- to the counters that the handler keeps in memory. Times are numbers of days.
use text.Mathlib.Text.{◌==◌ as str_eq}
use banking_platform.Base.{
  ℕ, ◌+◌, ◌==◌, leb, ltb, String, Bool, true, false, ◌&&◌, not, Option, none, some, List, [], ◌∷◌,
  ◌++◌, select, find, take, length, update_where, is_some, if◌then◌else◌,
}
use banking_platform.Shared.Errors.{Error}
use banking_platform.Shared.Events.{Payload}
use banking_platform.Shared.Database.{Statement, Action, on_pool}

pub data LetterStatus : Type 0 where
  failed investigating resolved ignored : LetterStatus

-- `DLQEvent`, a row of the table.
pub record DlqEvent : Type 0 where
  pub id : ℕ
  pub event_id : ℕ
  pub event_data : Payload
  pub original_error : Error
  pub failure_count : ℕ
  pub first_failed_at : ℕ
  pub last_failed_at : ℕ
  pub correlation_id : Option ℕ
  pub service_name : String
  pub consumer_group : Option String
  pub status : LetterStatus
  pub resolution_notes : Option String
  pub resolved_at : Option ℕ
  pub resolved_by : Option String
  pub created_at : ℕ
  pub updated_at : ℕ

-- `CreateDLQEventInput`.
pub record CreateDlqEventInput : Type 0 where
  pub event_id : ℕ
  pub event_data : Payload
  pub original_error : Error
  pub failure_count : ℕ
  pub correlation_id : Option ℕ
  pub service_name : String
  pub consumer_group : Option String

-- `UpdateDLQEventInput`.
pub record UpdateDlqEventInput : Type 0 where
  pub status : Option LetterStatus
  pub resolution_notes : Option String
  pub resolved_by : Option String

-- The table, and `retryAttempts` of the handler.
pub record Desk : Type 0 where
  pub letters : List DlqEvent
  pub attempts : List (ℕ × ℕ)

-- `failureCount || 1`.
abbrev pub or_one : ℕ → ℕ
or_one n = if n == 0 then 1 else n

abbrev pub new_letter : ℕ → ℕ → CreateDlqEventInput → DlqEvent
new_letter id now input = record {
  id = id;
  event_id = input.event_id;
  event_data = input.event_data;
  original_error = input.original_error;
  failure_count = or_one input.failure_count;
  first_failed_at = now;
  last_failed_at = now;
  correlation_id = input.correlation_id;
  service_name = input.service_name;
  consumer_group = input.consumer_group;
  status = failed;
  resolution_notes = none;
  resolved_at = none;
  resolved_by = none;
  created_at = now;
  updated_at = now;
}

abbrev pub change_letters : (List DlqEvent → List DlqEvent) → Statement Desk (Unit {0})
change_letters f d = some (tt, record d { letters = f d.letters })

-- `gen_random_uuid()` gives the identifier.
unfoldable pub add : ℕ → ℕ → CreateDlqEventInput → Action Desk (Unit {0})
add id now input = on_pool (change_letters (λ rows. rows ++ (new_letter id now input ∷ [])))

abbrev pub given_or {ℓ} : {A : Type ℓ} → Option A → A → A
given_or none a = a
given_or (some b) a = b

abbrev pub noted : Option String → Option String → Option String
noted none old = old
noted (some s) old = some s

-- `resolved_at = NOW()` if the new status is 'resolved'.
abbrev pub resolution_time : Option LetterStatus → ℕ → Option ℕ → Option ℕ
resolution_time (some resolved) now old = some now
resolution_time (some failed) now old = old
resolution_time (some investigating) now old = old
resolution_time (some ignored) now old = old
resolution_time none now old = old

abbrev pub amend : ℕ → UpdateDlqEventInput → DlqEvent → DlqEvent
amend now input row = record row {
  status = given_or input.status row.status;
  resolution_notes = noted input.resolution_notes row.resolution_notes;
  resolved_by = noted input.resolved_by row.resolved_by;
  resolved_at = resolution_time input.status now row.resolved_at;
  updated_at = now;
}

unfoldable pub update : ℕ → ℕ → UpdateDlqEventInput → Action Desk (Unit {0})
update now id input = on_pool (change_letters (update_where (λ r. r.id == id) (amend now input)))

abbrev pub count_failure : ℕ → Error → DlqEvent → DlqEvent
count_failure now error row = record row {
  failure_count = row.failure_count + 1;
  last_failed_at = now;
  original_error = error;
  updated_at = now;
}

unfoldable pub increment_failure_count : ℕ → ℕ → Error → Action Desk (Unit {0})
increment_failure_count now event_id error =
    on_pool (change_letters (update_where (λ r. r.event_id == event_id) (count_failure now error)))

abbrev pub letter_of : ℕ → List DlqEvent → Option DlqEvent
letter_of event_id rows = find (λ r. r.event_id == event_id) rows

unfoldable pub exists : ℕ → Action Desk Bool
exists event_id = on_pool (λ d. some (is_some (letter_of event_id d.letters), d))

unfoldable pub find_by_event_id : ℕ → Action Desk (Option DlqEvent)
find_by_event_id event_id = on_pool (λ d. some (letter_of event_id d.letters, d))

abbrev pub is_failed : LetterStatus → Bool
is_failed failed = true
is_failed investigating = false
is_failed resolved = false
is_failed ignored = false

-- `ORDER BY first_failed_at DESC`, stable.
abbrev pub insert_latest : DlqEvent → List DlqEvent → List DlqEvent
insert_latest r [] = r ∷ []
insert_latest r (q ∷ qs) =
    let rest = insert_latest r qs in
    if leb q.first_failed_at r.first_failed_at then r ∷ q ∷ qs else q ∷ rest

abbrev pub latest_first : List DlqEvent → List DlqEvent
latest_first [] = []
latest_first (r ∷ rs) = insert_latest r (latest_first rs)

unfoldable pub find_by_service : String → ℕ → Action Desk (List DlqEvent)
find_by_service service limit = on_pool (λ d. some (
  take limit
      (latest_first (select (λ r. str_eq r.service_name service && is_failed r.status) d.letters)),
  d,
))

-- `status IN ('resolved', 'ignored') AND resolved_at < NOW() - INTERVAL '… days'`.
abbrev pub is_closed : LetterStatus → Bool
is_closed resolved = true
is_closed ignored = true
is_closed failed = false
is_closed investigating = false

abbrev pub is_older : ℕ → ℕ → Option ℕ → Bool
is_older now days none = false
is_older now days (some t) = ltb (t + days) now

unfoldable pub cleanup : ℕ → ℕ → Action Desk ℕ
cleanup now days = on_pool (λ d. some (
  length (select (λ r. is_closed r.status && is_older now days r.resolved_at) d.letters),
  record d {
    letters = select (λ r. not (is_closed r.status && is_older now days r.resolved_at)) d.letters;
  },
))
