-- ===== src/Metrics/Requests.antt =====
-- What the HTTP metrics of packages/shared/src/metrics/prometheus.ts add up to.
use banking_platform.Base.{
  ℕ, ◌+◌, leb, ◌≡◌, refl, ◌∙◌, String, List, [], ◌∷◌, select, length, length-append, Bool-cases,
  inl, inr, arith,
}
use banking_platform.Metrics.{
  Labels, inc, HttpMetrics, new_http_metrics, Finished, error_type, on_finish,
}

abbrev pub sum : List (Labels × ℕ) → ℕ
sum [] = 0
sum ((l, n) ∷ rest) = n + sum rest

-- The metrics after the requests.
abbrev pub observe_all : (ℕ → String) → List Finished → HttpMetrics → HttpMetrics
observe_all print [] m = m
observe_all print (f ∷ fs) m = observe_all print fs (on_finish print f m)

abbrev pub errors_of : List Finished → List Finished
errors_of fs = select (λ f. leb 400 f.status) fs

sum-inc : (labels : Labels) (counts : List (Labels × ℕ)) → sum (inc labels counts) ≡ sum counts + 1
sum-inc labels [] = refl
sum-inc labels ((l, n) ∷ rest) = ground (arith, sum-inc labels rest)

errors_lem :
    (print : ℕ → String) (f : Finished) (fs : List Finished) (m : HttpMetrics)
    → sum (on_finish print f m).request_errors + length (errors_of fs)
      ≡ sum m.request_errors + length (errors_of (f ∷ fs))
unfolding on_finish
errors_lem print f fs m = elim (Bool-cases (leb 400 f.status)) [
  | inl hit ↦
      rw (hit)
        (omega (arith, sum-inc (f.method ∷ f.route ∷ error_type f.status ∷ []) m.request_errors))
  | inr miss ↦ rw (miss) refl
]

observe_all_lem :
    (print : ℕ → String) (fs : List Finished) (m : HttpMetrics)
    → (sum (observe_all print fs m).request_total ≡ sum m.request_total + length fs)
      × (sum (observe_all print fs m).request_errors ≡ sum m.request_errors + length (errors_of fs))
      × (length (observe_all print fs m).request_duration ≡ length m.request_duration + length fs)
unfolding on_finish
observe_all_lem print [] m = (omega arith, omega arith, omega arith)
observe_all_lem print (f ∷ fs) m =
    let ih = observe_all_lem print fs (on_finish print f m) in
    let total = sum-inc (f.method ∷ f.route ∷ print f.status ∷ []) m.request_total in
    let seen =
      length-append m.request_duration
        ((f.method ∷ f.route ∷ print f.status ∷ [], f.duration) ∷ []) in
    (omega (arith, ih.0, total), ih.1 ∙ errors_lem print f fs m, omega (arith, ih.2, seen))

-- After any requests, the total counter adds up to their number, the error counter to the number of
-- those with a status from 400 on, and the histogram has observed each of them.
pub observe_all-counts :
    (print : ℕ → String) (fs : List Finished)
    → (sum (observe_all print fs new_http_metrics).request_total ≡ length fs)
      × (sum (observe_all print fs new_http_metrics).request_errors ≡ length (errors_of fs))
      × (length (observe_all print fs new_http_metrics).request_duration ≡ length fs)
observe_all-counts print fs =
    let h = observe_all_lem print fs new_http_metrics in
    (omega (arith, h.0), omega (arith, h.1), omega (arith, h.2))
