-- ===== src/Trace/Session/Use.antt =====
-- internal/trace/trace.go: the calls of a session's methods, as data.
use providerapi.Prelude.{ℕ, String, List, [], ◌∷◌}
use providerapi.Prelude.Int.{ℤ}
use providerapi.Json.{Json}
use providerapi.Redact.{RawJson}
use providerapi.Protocol.Types.{CompletionRequest}
use providerapi.Trace.Session.Audit.{provider_audit}
use providerapi.Trace.Session.{
  Session, Ending, set_routing, client_raw, normalized, plugin_request, stream_meta, sse,
  client_response, mark_ttft, finish,
}

-- A call of a session's method.
pub data Use : Type 0 where
  routed : String → String → String → String → String → String → Use
  got : RawJson → Use
  understood : CompletionRequest → Use
  asked : CompletionRequest → Use
  audited : RawJson → Use
  noted : String → Use
  streamed : Json → Use
  answered : Json → Use
  first_token : ℤ → Use
  ended : ℤ → Ending → Use

module _ (size : Json → String) (encode : CompletionRequest → Json) (decimal : ℕ → String)
    (strip_query : String → String) where
  abbrev pub use_ : Use → Session → Session
  use_ (routed m p u l i v) s = set_routing m p u l i v s
  use_ (got raw) s = client_raw size raw s
  use_ (understood req) s = normalized encode decimal req s
  use_ (asked req) s = plugin_request encode decimal req s
  use_ (audited raw) s = provider_audit strip_query raw s
  use_ (noted kind) s = stream_meta kind s
  use_ (streamed chunk) s = sse chunk s
  use_ (answered v) s = client_response v s
  use_ (first_token elapsed) s = mark_ttft elapsed s
  use_ (ended now e) s = finish now e s

  abbrev pub use_all : List Use → Session → Session
  use_all [] s = s
  use_all (u ∷ us) s = use_all us (use_ u s)
