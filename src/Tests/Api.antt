-- ===== src/Tests/Api.antt =====
-- Streams that the server and the compatible plugin send.
use providerapi.Prelude.{String, ◌≡◌, refl, Bool, false, none, some, List, [], ◌∷◌, if◌then◌else◌}
use providerapi.Prelude.Int.{ℤ, pos}
use providerapi.Json.{str, obj, Fields, end, field, get_field}
use providerapi.Protocol.Types.{StreamEvent, text_delta, stream_start, stream_end}
use providerapi.Sdk.{Decoded, good}
use providerapi.Trace.Store.{empty_store}
use providerapi.Trace.Session.{Session, start}
use providerapi.Api.Stream.Written.{Request}
use providerapi.Api.Stream.{handle_stream, or_stop, in_tok, out_tok}
use providerapi.Api.Stream.Rows.{Recorded, handle_stream-Recorded}
use providerapi.Api.Stream.Frames.{Closed, handle_stream-Closed}
use providerapi.Api.Stream.Outcome.{
  totals, any_error, last_finish, last_usage, handle_stream-totals,
}
use providerapi.Protocol.Types.{blank_event}
use providerapi.Compat.Stream.{stream_upstream}
use providerapi.Compat.Stream.Ending.{Framed, stream_upstream-Framed}
use providerapi.Compat.Chunk.{ChunkEnv}
use providerapi.Compat.Body.{is_listed, deep_merge}
use providerapi.Compat.Body.Merge.{merged, get_field-deep_merge}

abbrev pub digits : ℤ → String
digits _ = "1"

abbrev pub request : Request
request = record {
  id = "chatcmpl-1";
  model = "fast";
  created = pos 10;
  elapsed = pos 3;
  now = pos 20;
}

abbrev pub session : Session
session = start "metadata" "chatcmpl-1" "" (pos 5) empty_store []

abbrev pub events : List StreamEvent
events =
    blank_event stream_start
    ∷ record (blank_event text_delta) { text = some "hello" }
    ∷ record (blank_event stream_end) { finish_reason = "length" }
    ∷ []

handle_stream-Closed_example : Closed (handle_stream digits request false events session).frames
handle_stream-Closed_example = handle_stream-Closed digits request events session

handle_stream-totals_example :
    totals (handle_stream digits request false events session).metrics
    ≡ (if any_error events then "error" else "ok") ∷ []
handle_stream-totals_example = handle_stream-totals digits request events session refl

abbrev pub decode : String → Decoded ChunkEnv
decode _ = good (record { error = none; choices = []; usage = none })

abbrev pub lines : List (Bool × String)
lines = (false, "data: {}") ∷ (false, "data: [DONE]") ∷ []

stream_upstream-Framed_example : Framed (stream_upstream decode lines none false).sent
stream_upstream-Framed_example = stream_upstream-Framed decode lines none false (refl, (refl, tt))

abbrev body : Fields
body = field "model" (str "m") (field "options" (obj (field "a" (str "1") end)) end)

abbrev patch : Fields
patch = field "model" (str "other") (field "options" (obj (field "b" (str "2") end)) end)

get_field-deep_merge_example : get_field "options" (deep_merge ("model" ∷ []) body patch) ≡ (
    if is_listed "options" ("model" ∷ [])
    then get_field "options" body
    else merged (get_field "options" body) (get_field "options" patch))
unfolding get_field
get_field-deep_merge_example =
    get_field-deep_merge ("model" ∷ []) body patch "options" (refl, (refl, tt))

handle_stream-Recorded_example :
    Recorded
      (handle_stream digits request false events session).session.row
      "ok"
      200
      (or_stop digits request (last_finish "" events))
      (in_tok digits request (last_usage none events))
      (out_tok digits request (last_usage none events))
handle_stream-Recorded_example = handle_stream-Recorded digits request events session refl refl
