-- ===== src/Api/Stream.antt =====
-- internal/api/openai.go: handleStream, from the events of a plugin to server-sent events, the trace and
-- the metrics. Durations are not modelled; the times are fixed arguments.
pub mod Written
pub mod Rows
pub mod Frames
pub mod Outcome
pub mod Stable
pub mod Filed
pub mod Kept
pub mod Seen
pub mod Shown
use providerapi.Prelude.{
  ℕ, String, Bool, true, false, not, ◌&&◌, Option, none, some, List, [], ◌∷◌, ◌++◌, if◌then◌else◌,
}
use providerapi.Prelude.Int.{ℤ, pos}
use providerapi.Text.{is_empty}
use providerapi.Json.{Json, str, arr, obj, nil, cons, end, field}
use providerapi.Protocol.Types.{
  StreamEvent, EventType, stream_start, text_delta, tool_call_start, tool_call_delta, tool_call_end,
  usage_report, stream_end, error_event, ToolCallDelta, Usage, ProviderError,
}
use providerapi.Protocol.Errors.{Error, as_provider_error, new_provider_error}
use providerapi.Trace.Session.{Session, Ending, stream_meta, sse, mark_ttft, finish}
use providerapi.Api.Chunks.{
  status_or, openai_error, chunk, final_chunk, usage_chunk, openai_usage, tool_call_delta_json,
}
use providerapi.Api.Stream.Written.{
  Frame, chunk_frame, done_frame, Metric, requests_total, provider_errors, input_tokens,
  output_tokens, ttft, panics, token_metrics, Loop, Request, write_chunk, count, meta,
}

-- the loop's variables behind `sess.StreamMeta("stream_started")`
unfoldable pub open_loop : Session → Loop
unfolding stream_meta
open_loop s = record {
  frames = [];
  session = stream_meta "stream_started" s;
  metrics = [];
  first = true;
  usage = none;
  finish = "";
  stream_err = false;
}

abbrev pub stream_failure : ProviderError → Ending
stream_failure e = record {
  http_status = status_or (some e) 502;
  status = "error";
  finish = "stream_error";
  in_tok = pos 0;
  out_tok = pos 0;
  err_type = e.typ;
  err_code = e.code;
  err_msg = e.message;
}

module _ (decimal : ℤ → String) (r : Request) where
  abbrev pub mark_first : Loop → Loop
  mark_first l =
      if l.first
      then record l {
        session = stream_meta "first_chunk" (mark_ttft r.elapsed l.session);
        first = false;
      }
      else l

  abbrev delta_chunk : Json → Json
  delta_chunk delta = chunk decimal r.id r.model r.created delta none

  unfoldable pub on_text : Option String → Loop → Loop
  on_text none l = l
  on_text (some s) l =
      write_chunk (delta_chunk (obj (field "content" (str s) end)))
        (if l.first then count ttft (mark_first l) else l)

  unfoldable pub on_tool_call : Option ToolCallDelta → Loop → Loop
  on_tool_call none l = meta "tool_call" (mark_first l)
  on_tool_call (some d) l =
      write_chunk
        (delta_chunk
          (obj (field "tool_calls" (arr (cons (tool_call_delta_json decimal d) nil)) end)))
        (meta "tool_call" (mark_first l))

  unfoldable pub on_error : Option ProviderError → Loop → Loop
  on_error none l = record l { stream_err = true }
  on_error (some e) l =
      let l' = write_chunk (obj (field "error" (openai_error (some e)) end)) l in
      record l' {
        session = finish r.now (stream_failure e) l'.session;
        metrics = l'.metrics ++ provider_errors e.code ∷ [];
        stream_err = true;
      }

  abbrev later_usage : Option Usage → Option Usage → Option Usage
  later_usage old none = old
  later_usage old (some u) = some u

  -- the `switch` on the event's type
  unfoldable pub on_kind : EventType → StreamEvent → Loop → Loop
  unfolding on_text on_tool_call on_error
  on_kind stream_start ev l =
      write_chunk
        (delta_chunk (obj (field "role" (str "assistant") (field "content" (str "") end)))) l
  on_kind text_delta ev l = on_text ev.text l
  on_kind tool_call_start ev l = on_tool_call ev.tool_call l
  on_kind tool_call_delta ev l = on_tool_call ev.tool_call l
  on_kind tool_call_end ev l = meta "tool_call" l
  on_kind usage_report ev l = record l { usage = ev.usage }
  on_kind stream_end ev l = record l { usage = later_usage l.usage ev.usage }
  on_kind error_event ev l = on_error ev.error l

  -- one round of the loop; the finish reason is taken from an event of any type
  unfoldable pub on_event : StreamEvent → Loop → Loop
  unfolding on_kind
  on_event ev l =
      let l' = on_kind ev.typ ev l in
      record l' { finish = if is_empty ev.finish_reason then l'.finish else ev.finish_reason }

  -- the loop over the channel
  unfoldable pub on_events : List StreamEvent → Loop → Loop
  unfolding on_event
  on_events [] l = l
  on_events (ev ∷ evs) l = on_events evs (on_event ev l)

  abbrev pub or_stop : String → String
  or_stop s = if is_empty s then "stop" else s

  abbrev pub in_tok : Option Usage → ℤ
  in_tok none = pos 0
  in_tok (some u) = u.input_tokens

  abbrev pub out_tok : Option Usage → ℤ
  out_tok none = pos 0
  out_tok (some u) = u.output_tokens

  abbrev write_usage : Option Usage → Loop → Loop
  write_usage none l = l
  write_usage (some u) l =
      write_chunk (usage_chunk decimal r.id r.model r.created (openai_usage decimal u)) l

  abbrev write_done : Loop → Loop
  write_done l = record l { frames = l.frames ++ done_frame ∷ [] }

  -- the counters, the trace and the count of the request, behind the end marker; where a counter panics the
  -- handler is left there
  abbrev pub settle : Bool → String → Option Usage → Loop → Loop
  settle true reason u l = record l { finish = reason; metrics = l.metrics ++ token_metrics u }
  settle false reason u l = record l {
    finish = reason;
    metrics = (l.metrics ++ token_metrics u) ++ requests_total "ok" ∷ [];
    session =
        finish r.now
          (record {
            http_status = 200;
            status = "ok";
            finish = reason;
            in_tok = in_tok u;
            out_tok = out_tok u;
            err_type = "";
            err_code = "";
            err_msg = "";
          })
          (stream_meta "stream_finished" l.session);
  }

  -- the end without an error
  unfoldable pub close_ok : Loop → Loop
  close_ok l =
      let reason = or_stop l.finish in
      let l' =
        write_done (
          write_usage l.usage
            (write_chunk (final_chunk decimal r.id r.model r.created reason) l)) in
      settle (panics l.usage) reason l.usage l'

  -- the end behind an error
  unfoldable pub close_error : Loop → Loop
  close_error l = count (requests_total "error") (write_done l)

  -- the end when the client has gone
  unfoldable pub close_canceled : Loop → Loop
  close_canceled l = record l {
    session =
        finish r.now
          (record {
            http_status = 499;
            status = "canceled";
            finish = "client_disconnect";
            in_tok = pos 0;
            out_tok = pos 0;
            err_type = "canceled";
            err_code = "canceled";
            err_msg = "client disconnected";
          })
          l.session;
  }

  -- the part of handleStream behind the loop; `gone` is `r.Context().Err() != nil`
  unfoldable pub close_loop : Bool → Loop → Loop
  unfolding close_ok close_error close_canceled
  close_loop gone l =
      if gone then close_canceled l else if l.stream_err then close_error l else close_ok l

  -- handleStream for a stream that was opened, with the events that its channel gives
  unfoldable pub handle_stream : Bool → List StreamEvent → Session → Loop
  unfolding open_loop on_events close_loop
  handle_stream gone events s = close_loop gone (on_events events (open_loop s))
