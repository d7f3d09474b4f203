-- ===== src/Http/Statuses.antt =====
-- The classes of statuses of src/common/filters/http-exception.filter.ts.
use be.Prelude.{ℕ, Bool, true, false, ◌≡◌, arith, ◌==◌, leb, not}
use be.Store.{Error}
use be.Http.{class_of, get_http_status_from_exception}

-- The errors that neither the domain nor NestJS names: those of the database client and of the
-- other services that are called.
abbrev pub is_foreign : Error → Bool
is_foreign Error.unique_violation = true
is_foreign Error.record_not_found = true
is_foreign Error.revoke_failed = true
is_foreign Error.oauth_failed = true
is_foreign _ = false

abbrev pub is_client_error : ℕ → Bool
is_client_error status = elim (leb 400 status) [ true ↦ leb status 499 | false ↦ false ]

-- The status of an exception is one of 400 to 499 exactly if the domain or NestJS names the
-- exception, and 500 exactly if it is an error of the database client or of another service.
pub get_http_status_from_exception-classes :
    (e : Error)
    → (is_client_error (get_http_status_from_exception e) ≡ not (is_foreign e))
      × ((get_http_status_from_exception e == 500) ≡ is_foreign e)
unfolding get_http_status_from_exception class_of
get_http_status_from_exception-classes e = ground arith
