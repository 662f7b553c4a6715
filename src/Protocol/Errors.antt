-- ===== src/Protocol/Errors.antt =====
-- internal/protocol/errors.go: the errors that a client sees, and what an upstream status becomes.
pub mod Wire
use providerapi.Prelude.{ℕ, String, Option, none, some, eqb, if◌then◌else◌}
use providerapi.Text.{is_empty, ◌<>◌}
use providerapi.Json.{null}
use providerapi.Protocol.Types.{ProviderError}

-- An `error` value of Go, as far as the program tells errors apart: the error of a provider, or any
-- other, of which only its text is read.
pub data Error : Type 0 where
  provider : ProviderError → Error
  other : String → Error

unfoldable pub new_provider_error : ℕ → String → String → ProviderError
new_provider_error http_status code message = record {
  message = message;
  typ = "provider_error";
  code = code;
  param = null;
  http_status = http_status;
  provider_status = 0;
  provider_error_code = "";
  provider_request_id = "";
}

unfoldable pub invalid_request : String → ProviderError
invalid_request message = record {
  message = message;
  typ = "invalid_request_error";
  code = "invalid_request";
  param = null;
  http_status = 400;
  provider_status = 0;
  provider_error_code = "";
  provider_request_id = "";
}

unfoldable pub model_not_found : String → ProviderError
model_not_found model = record {
  message = "The model `" <> (model <> "` does not exist");
  typ = "invalid_request_error";
  code = "model_not_found";
  param = null;
  http_status = 404;
  provider_status = 0;
  provider_error_code = "";
  provider_request_id = "";
}

unfoldable pub timeout : String → ProviderError
unfolding new_provider_error
timeout message =
    new_provider_error 504 "timeout"
      (if is_empty message then "provider request timed out" else message)

unfoldable pub plugin_crash : String → ProviderError
unfolding new_provider_error
plugin_crash message =
    new_provider_error 502 "plugin_crash"
      (if is_empty message then "plugin process crashed" else message)

-- The `switch` on the upstream's status: the status and the code of the error.
unfoldable pub status_code : ℕ → ℕ × String
status_code status =
    if eqb status 400
    then (400, "invalid_request")
    else if eqb status 401
    then (401, "unauthorized")
    else if eqb status 403
    then (403, "forbidden")
    else if eqb status 404
    then (404, "not_found")
    else if eqb status 429
    then (429, "rate_limited")
    else if eqb status 503
    then (503, "unavailable")
    else (502, "provider_error")

-- `decimal` is the decimal text of a number, fmt's `%d`.
unfoldable pub map_provider_status : (ℕ → String) → ℕ → String → String → String → ProviderError
unfolding status_code
map_provider_status decimal status message provider_code provider_req_id = record {
  message = if is_empty message then "upstream returned HTTP " <> decimal status else message;
  typ = "provider_error";
  code = (status_code status).1;
  param = null;
  http_status = (status_code status).0;
  provider_status = status;
  provider_error_code = provider_code;
  provider_request_id = provider_req_id;
}

unfoldable pub as_provider_error : Option Error → Option ProviderError
unfolding new_provider_error
as_provider_error none = none
as_provider_error (some (provider pe)) = some pe
as_provider_error (some (other text)) = some (new_provider_error 502 "provider_error" text)
