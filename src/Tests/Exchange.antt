-- ===== src/Tests/Exchange.antt =====
-- An upstream that refuses, and a store that is swept.
use providerapi.Prelude.{arith, String, refl, false, none, some, [], ◌∷◌}
use providerapi.Prelude.Int.{ℤ, pos}
use providerapi.Json.{str, obj, Fields, end, field}
use providerapi.Sdk.{bad}
use providerapi.Compat.Body.{InstanceConfig}
use providerapi.Compat.Exchange.{Upstream, Response, responded}
use providerapi.Compat.Exchange.Errors.{Reported, finish_complete-Reported}
use providerapi.Trace.Store.{Store, empty_store, find_row}
use providerapi.Trace.Session.{first_row}
use providerapi.Trace.Payload.{Files}
use providerapi.Trace.Retention.{Retention, Swept, sweep-Swept}
use providerapi.Tests.Api.{digits, session, decode}
use providerapi.Tests.Handler.{outside, incoming}
use providerapi.Tests.Mock.{asked}

abbrev refusal : Response
refusal = record {
  status = 429;
  headers = ("Set-Cookie", "a=b" ∷ []) ∷ [];
  req_id = "up-1";
  raw = "slow down";
  lines = [];
  scan_err = none;
  canceled = false;
}

abbrev upstream : Upstream
upstream = record {
  decimal = digits;
  digits = λ _. "1";
  key = "secret";
  parse = λ _. none;
  error_env = λ _. bad "no JSON";
  completion_env = λ _. bad "no JSON";
  chunk_env = decode;
  new_error = none;
  ask = λ _. responded refusal;
}

abbrev provider_config : InstanceConfig
provider_config = record {
  base_url = "https://example.com/";
  extra_headers = [];
  reasoning_map = [];
}

abbrev sent : Fields
sent = field "model" (str "m-1") end

finish_complete-Reported_example :
    Reported upstream provider_config asked outside incoming sent refusal [] session
finish_complete-Reported_example =
    finish_complete-Reported upstream provider_config asked outside incoming sent refusal [] session
      refl (omega arith)

abbrev changed : String → ℤ
changed _ = pos 15

abbrev keep : Retention
keep = record { rows = pos 5; full = pos 10 }

abbrev kept_files : Files
kept_files = ("req_1", some (obj end)) ∷ []

abbrev swept : Store
swept = record empty_store { requests = first_row "req_1" "" (pos 10) ∷ [] }

sweep-Swept_example : Swept changed "req_1" keep (pos 20) swept kept_files
unfolding empty_store find_row
sweep-Swept_example = sweep-Swept changed "req_1" keep (pos 20) swept kept_files (refl, tt)
