-- ===== src/Handlers/Errors.antt =====
-- What a client is told of an error: `handleServiceError` against a table.
use vpn_backend.Base.{Option, none, some, ◌≡◌, refl}
use vpn_backend.Errors.{
  Error, sentinel, message, wrapped, Sentinel, record_not_found, not_found, conflict, validation,
  unauthorized, not_authorized_google_account,
}
use vpn_backend.Handlers.{Response, failure, service_error}

-- The value at the end of the chain of an error, if the program has a name for it.
abbrev root : Error → Option Sentinel
root (sentinel s) = some s
root (message m) = none
root (wrapped m e) = root e

abbrev response_to : Option Sentinel → Response
response_to (some not_found) = failure 404 "NOT_FOUND" "The requested resource was not found."
response_to (some conflict) =
    failure 409 "CONFLICT" "This resource already exists or conflicts with an existing one."
response_to (some validation) = failure 422 "VALIDATION_ERROR" "Validation failed."
response_to (some unauthorized) = failure 401 "UNAUTHORIZED" "Authentication failed."
response_to (some not_authorized_google_account) =
    failure 403 "FORBIDDEN" "Your Google account is not authorized to access this system."
response_to _ = failure 500 "INTERNAL_ERROR" "An unexpected error occurred."

-- However often an error is wrapped and whatever its messages say, the response is the table's entry
-- for the value at the end of its chain: the text of an error does not reach the client.
pub service_error-root : (e : Error) → service_error e ≡ response_to (root e)
unfolding service_error
service_error-root (sentinel record_not_found) = refl
service_error-root (sentinel not_found) = refl
service_error-root (sentinel conflict) = refl
service_error-root (sentinel validation) = refl
service_error-root (sentinel unauthorized) = refl
service_error-root (sentinel not_authorized_google_account) = refl
service_error-root (message m) = refl
service_error-root (wrapped m e) = service_error-root e
