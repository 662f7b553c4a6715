-- ===== src/Sdk/Audit.antt =====
-- sdk/plugin/server.go: the audit events of a plugin.
use providerapi.Prelude.{ℕ, String}
use providerapi.Dict.{Dict}
use providerapi.Redact.{RawJson, headers, redact_json}

-- ProviderHTTPAudit
pub record ProviderHttpAudit : Type 0 where
  pub request_id : String
  pub stream_id : String
  pub typ : String
  pub method : String
  pub url : String
  pub headers : Dict String
  pub body : RawJson
  pub status : ℕ

-- emit: what is sent as "plugin.trace.event"
unfoldable pub emit : ProviderHttpAudit → ProviderHttpAudit
unfolding headers redact_json
emit ev = record ev { headers = headers ev.headers; body = redact_json ev.body }

-- (*AuditEmitter).ProviderRequest
unfoldable pub audit_request : String → String → String → Dict String → RawJson → ProviderHttpAudit
unfolding emit
audit_request req_id method url hs body = emit (record {
  request_id = req_id;
  stream_id = "";
  typ = "provider_request";
  method = method;
  url = url;
  headers = hs;
  body = body;
  status = 0;
})

-- (*AuditEmitter).ProviderResponse
unfoldable pub audit_response :
    String → String → String → ℕ → Dict String → RawJson → ProviderHttpAudit
unfolding emit
audit_response req_id method url status hs body = emit (record {
  request_id = req_id;
  stream_id = "";
  typ = "provider_response";
  method = method;
  url = url;
  headers = hs;
  body = body;
  status = status;
})
