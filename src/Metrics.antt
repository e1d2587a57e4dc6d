-- ===== src/Metrics.antt =====
-- `MetricsCollector` and `BankingMetrics` (packages/shared/src/metrics/prometheus.ts). The library
-- prom-client, which prints the registry, is not part of this code: a counter is the count of each
-- combination of labels, a gauge the last value and a histogram the values that it observed.
pub mod Requests
use Prim.Native.String.{◌++◌ as ◌<>◌}
use banking_platform.Base.{
  ℕ, ◌+◌, ltb, leb, String, Bool, true, false, ◌&&◌, Option, none, some, List, [], ◌∷◌, ◌++◌,
  if◌then◌else◌,
}
use text.Mathlib.Text.{◌==◌ as str_eq}

abbrev pub Labels : Type 0
Labels = List String

abbrev pub same_labels : Labels → Labels → Bool
same_labels [] [] = true
same_labels (x ∷ xs) (y ∷ ys) = str_eq x y && same_labels xs ys
same_labels [] (_ ∷ _) = false
same_labels (_ ∷ _) [] = false

-- `counter.labels(…).inc()`.
abbrev pub inc : Labels → List (Labels × ℕ) → List (Labels × ℕ)
inc labels [] = (labels, 1) ∷ []
inc labels ((l, n) ∷ rest) =
    let later = inc labels rest in
    if same_labels l labels then (l, n + 1) ∷ rest else (l, n) ∷ later

-- `gauge.labels(…).set(value)`.
abbrev pub set_gauge : Labels → ℕ → List (Labels × ℕ) → List (Labels × ℕ)
set_gauge labels value [] = (labels, value) ∷ []
set_gauge labels value ((l, n) ∷ rest) =
    let later = set_gauge labels value rest in
    if same_labels l labels then (l, value) ∷ rest else (l, n) ∷ later

-- The HTTP metrics of a collector; durations are milliseconds.
pub record HttpMetrics : Type 0 where
  pub request_duration : List (Labels × ℕ)
  pub request_total : List (Labels × ℕ)
  pub request_errors : List (Labels × ℕ)

abbrev pub new_http_metrics : HttpMetrics
new_http_metrics = record { request_duration = []; request_total = []; request_errors = [] }

-- A request whose answer ends.
pub record Finished : Type 0 where
  pub method : String
  pub route : String
  pub status : ℕ
  pub duration : ℕ

abbrev pub error_type : ℕ → String
error_type status = if leb 500 status then "server_error" else "client_error"

-- The handler of `finish` in `httpMetricsMiddleware`; `print` is `toString` of a status.
unfoldable pub on_finish : (ℕ → String) → Finished → HttpMetrics → HttpMetrics
on_finish print f m =
    let labels = f.method ∷ f.route ∷ print f.status ∷ [] in
    record {
      request_duration = m.request_duration ++ ((labels, f.duration) ∷ []);
      request_total = inc labels m.request_total;
      request_errors =
          if leb 400 f.status
          then inc (f.method ∷ f.route ∷ error_type f.status ∷ []) m.request_errors
          else m.request_errors;
    }

-- `createCounter`, `createGauge` and `createHistogram`: a metric is made once for a name; the name in
-- the registry has the service in front. The registry refuses a name that it has (an exception).
pub record Collector : Type 0 where
  pub service_name : String
  pub registered : List String
  pub counters : List String
  pub gauges : List String
  pub histograms : List String

abbrev pub has_name : String → List String → Bool
has_name name [] = false
has_name name (n ∷ ns) = if str_eq n name then true else has_name name ns

abbrev pub full_name : Collector → String → String
full_name c name = c.service_name <> "_" <> name

abbrev pub register_in : (Collector → Collector) → String → Collector → Option Collector
register_in add name c =
    if has_name (full_name c name) c.registered
    then none
    else some (add (record c { registered = full_name c name ∷ c.registered }))

unfoldable pub create_counter : String → Collector → Option Collector
create_counter name c =
    if has_name name c.counters
    then some c
    else register_in (λ d. record d { counters = name ∷ d.counters }) name c

unfoldable pub create_gauge : String → Collector → Option Collector
create_gauge name c =
    if has_name name c.gauges
    then some c
    else register_in (λ d. record d { gauges = name ∷ d.gauges }) name c

unfoldable pub create_histogram : String → Collector → Option Collector
create_histogram name c =
    if has_name name c.histograms
    then some c
    else register_in (λ d. record d { histograms = name ∷ d.histograms }) name c

-- `BankingMetrics`; amounts are whole cents.
pub record BankingMetrics : Type 0 where
  pub transactions_total : List (Labels × ℕ)
  pub transaction_amount : List (Labels × ℕ)
  pub transaction_duration : List (Labels × ℕ)
  pub accounts_total : List (Labels × ℕ)
  pub clients_total : List (Labels × ℕ)
  pub event_processing_duration : List (Labels × ℕ)
  pub event_processing_errors : List (Labels × ℕ)

abbrev pub observe : Labels → ℕ → List (Labels × ℕ) → List (Labels × ℕ)
observe labels value seen = seen ++ ((labels, value) ∷ [])

unfoldable pub record_transaction :
    (type status currency : String) → (amount : ℕ) → BankingMetrics → BankingMetrics
record_transaction type status currency amount m = record m {
  transactions_total = inc (type ∷ status ∷ currency ∷ []) m.transactions_total;
  transaction_amount = observe (type ∷ currency ∷ []) amount m.transaction_amount;
}

unfoldable pub record_transaction_duration : String → ℕ → BankingMetrics → BankingMetrics
record_transaction_duration type duration m = record m {
  transaction_duration = observe (type ∷ []) duration m.transaction_duration;
}

unfoldable pub set_accounts_count : String → ℕ → BankingMetrics → BankingMetrics
set_accounts_count currency value m = record m {
  accounts_total = set_gauge (currency ∷ []) value m.accounts_total;
}

unfoldable pub set_clients_count : ℕ → BankingMetrics → BankingMetrics
set_clients_count value m = record m { clients_total = set_gauge [] value m.clients_total }

unfoldable pub record_event_processing : String → ℕ → BankingMetrics → BankingMetrics
record_event_processing event_type duration m = record m {
  event_processing_duration = observe (event_type ∷ []) duration m.event_processing_duration;
}

unfoldable pub record_event_error :
    (event_type error_type : String) → BankingMetrics → BankingMetrics
record_event_error event_type kind m = record m {
  event_processing_errors = inc (event_type ∷ kind ∷ []) m.event_processing_errors;
}
