-- ===== src/Dlq/Reports.antt =====
-- The reports of `DLQRepository` (packages/shared/src/dlq/dlq.repository.ts). Times are days.
use text.Mathlib.Text.{◌==◌ as str_eq}
use banking_platform.Base.{
  ℕ, ◌+◌, ◌==◌, ltb, String, Bool, true, false, Option, none, some, List, [], ◌∷◌, select, find,
  take, length, if◌then◌else◌,
}
use banking_platform.Shared.Database.{Action, on_pool}
use banking_platform.EventSourcing.Queries.{skip}
use banking_platform.Dlq.Repository.{
  DlqEvent, Desk, LetterStatus, failed, investigating, resolved, ignored, latest_first, is_failed,
}

unfoldable pub find_by_id : ℕ → Action Desk (Option DlqEvent)
find_by_id id = on_pool (λ d. some (find (λ r. r.id == id) d.letters, d))

abbrev pub same_status : LetterStatus → LetterStatus → Bool
same_status failed failed = true
same_status investigating investigating = true
same_status resolved resolved = true
same_status ignored ignored = true
same_status _ _ = false

abbrev pub has_status : Option LetterStatus → DlqEvent → Bool
has_status none row = true
has_status (some status) row = same_status row.status status

unfoldable pub find_all : Option LetterStatus → (limit offset : ℕ) → Action Desk (List DlqEvent)
find_all status limit offset =
    on_pool (λ d.
      some (take limit (skip offset (latest_first (select (has_status status) d.letters))), d))

-- `Record<string, number>` from the rows of a `GROUP BY`.
abbrev pub count_service : String → List (String × ℕ) → List (String × ℕ)
count_service name [] = (name, 1) ∷ []
count_service name ((k, n) ∷ rest) =
    let later = count_service name rest in
    if str_eq k name then (k, n + 1) ∷ rest else (k, n) ∷ later

abbrev pub count_services : List DlqEvent → List (String × ℕ)
count_services [] = []
count_services (r ∷ rs) = count_service r.service_name (count_services rs)

abbrev pub count_status : LetterStatus → List DlqEvent → ℕ
count_status status rows = length (select (has_status (some status)) rows)

pub record DlqStats : Type 0 where
  pub total : ℕ
  pub by_status : LetterStatus → ℕ
  pub by_service : List (String × ℕ)
  pub recent_failures : ℕ

abbrev pub stats_of : ℕ → List DlqEvent → DlqStats
stats_of now rows = record {
  total = length rows;
  by_status = λ status. count_status status rows;
  by_service = count_services (select (λ r. is_failed r.status) rows);
  recent_failures = length (select (λ r. ltb now (r.first_failed_at + 1)) rows);
}

-- `getStats`.
unfoldable pub get_stats : ℕ → Action Desk DlqStats
get_stats now = on_pool (λ d. some (stats_of now d.letters, d))
