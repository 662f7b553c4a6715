-- ===== src/Api/Stream/Written.antt =====
-- internal/api/openai.go: the local variables of handleStream, and what it writes.
use providerapi.Prelude.{
  String, Bool, false, ◌||◌, Option, none, some, List, [], ◌∷◌, ◌++◌, if◌then◌else◌,
}
use providerapi.Prelude.Int.{ℤ, is_negative}
use providerapi.Json.{Json}
use providerapi.Protocol.Types.{Usage}
use providerapi.Trace.Session.{Session, stream_meta, sse}

-- What stands behind "data: " in one write.
pub data Frame : Type 0 where
  chunk_frame : Json → Frame
  done_frame : Frame

-- A counter that is increased, with the labels beside provider and model.
pub data Metric : Type 0 where
  requests_total : String → Metric
  provider_errors : String → Metric
  input_tokens output_tokens : ℤ → Metric
  ttft : Metric

-- The local variables of handleStream, what was written, the trace and the metrics.
pub record Loop : Type 0 where
  pub frames : List Frame
  pub session : Session
  pub metrics : List Metric
  pub first : Bool
  pub usage : Option Usage
  pub finish : String
  pub stream_err : Bool

-- The request: its id, the client's model, and the times that are read while it is served.
pub record Request : Type 0 where
  pub id : String
  pub model : String
  pub created : ℤ
  pub elapsed : ℤ
  pub now : ℤ

abbrev pub write_chunk : Json → Loop → Loop
write_chunk v l = record l { frames = l.frames ++ chunk_frame v ∷ []; session = sse v l.session }

abbrev pub count : Metric → Loop → Loop
count m l = record l { metrics = l.metrics ++ m ∷ [] }

abbrev pub meta : String → Loop → Loop
meta kind l = record l { session = stream_meta kind l.session }

-- A counter panics when a negative number is added to it.
abbrev pub panics : Option Usage → Bool
panics none = false
panics (some u) = is_negative u.input_tokens || is_negative u.output_tokens

-- what the counters of tokens are given, up to a panic
abbrev pub token_metrics : Option Usage → List Metric
token_metrics none = []
token_metrics (some u) =
    if is_negative u.input_tokens
    then []
    else if is_negative u.output_tokens
    then input_tokens u.input_tokens ∷ []
    else input_tokens u.input_tokens ∷ output_tokens u.output_tokens ∷ []
