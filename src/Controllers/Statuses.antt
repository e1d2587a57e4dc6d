-- ===== src/Controllers/Statuses.antt =====
-- Which statuses the controllers answer (packages/customer-service/src, packages/transaction-service/src).
use banking_platform.Base.{ℕ, ◌==◌, ◌≡◌, refl, Option, none, some, find}
use banking_platform.Shared.Errors.{Resource, not_found, status_code}
use banking_platform.Shared.Database.{Session, on_pool}
use banking_platform.Shared.Database.Progress.{calm}
use banking_platform.Customer.Repository.{Bank, Client, find_client_by_id}
use banking_platform.Customer.Service.{get_client, some_or_throw}
use banking_platform.Security.Middleware.{service, error_status}
use banking_platform.Controllers.{HttpAnswer, success, failure, respond, catch_exception}
use banking_platform.Controllers.Customer.{find_one_client}

abbrev pub found_answer : Option Client → HttpAnswer Client
found_answer none = failure 500 "INTERNAL_ERROR"
found_answer (some c) = success 200 c

found_lem :
    (id : ℕ) (found : Option Client) (s : Session Bank)
    → respond 200 (some_or_throw (not_found Resource.client id) found) s ≡ (found_answer found, s)
unfolding catch_exception
found_lem id none s = refl
found_lem id (some c) s = refl

-- If no statement fails, the client that is asked for is answered with 200, and a client that does not
-- exist with 500, not with the status 404 that the error handler of the shared package has for it.
pub find_one_client-answers :
    (id : ℕ) (db view : Bank)
    → (find_one_client id (calm db view)
        ≡ (found_answer (find (λ c. c.id == id) db.clients), calm db view))
      × (error_status (service (not_found Resource.client id)) ≡ 404)
unfolding find_one_client get_client find_client_by_id on_pool error_status status_code
find_one_client-answers id db view =
    (found_lem id (find (λ c. c.id == id) db.clients) (calm db view), refl)
