-- ===== src/Compat/Stream.antt =====
-- plugins/openai-compat/main.go: the goroutine of Stream, from the lines of the upstream's body to the
-- events in the channel and the audit events beside them.
pub mod Forwarded
pub mod Ending
pub mod Said
use providerapi.Prelude.{
  String, Bool, true, false, not, ◌&&◌, Option, none, some, List, [], ◌∷◌, ◌++◌, ◌==◌,
  if◌then◌else◌,
}
use providerapi.Text.{codes, has_prefix, is_empty, trim_space, trim_prefix}
use providerapi.Protocol.Types.{
  blank_event, StreamEvent, EventType, stream_start, text_delta, usage_report, stream_end, Usage,
}
use providerapi.Protocol.Errors.{new_provider_error}
use providerapi.Sdk.{Decoded, good, bad}
use providerapi.Compat.Chunk.{ChunkEnv, Chunk, parse_stream_chunk, error_stream}

-- `sent` is what was put into the channel, `audit` the kinds of the audit events.
pub record Progress : Type 0 where
  pub sent : List StreamEvent
  pub audit : List String
  pub first : Bool
  pub finish : String
  pub usage : Option Usage

-- How the loop is left: by the end marker, at the end of the body, because the context is done, or at a chunk
-- that is no JSON.
pub data Exit : Type 0 where
  done exhausted aborted malformed : Exit

-- the state in front of the loop
unfoldable pub started : Progress
started = record {
  sent = blank_event stream_start ∷ [];
  audit = "provider_stream_started" ∷ [];
  first = true;
  finish = "";
  usage = none;
}

abbrev is_text : EventType → Bool
is_text text_delta = true
is_text _ = false

-- the loop over a chunk's events
unfoldable pub push_events : List StreamEvent → Progress → Progress
push_events [] p = p
push_events (ev ∷ evs) p =
    let marked = p.first && is_text ev.typ in
    push_events evs (record p {
      sent = p.sent ++ ev ∷ [];
      audit = if marked then p.audit ++ "provider_first_event" ∷ [] else p.audit;
      first = p.first && not (is_text ev.typ);
    })

abbrev later : {A : Type 0} → Option A → Option A → Option A
later old none = old
later old (some a) = some a

unfoldable pub push_chunk : Chunk → Progress → Progress
unfolding push_events
push_chunk c p =
    let p' = push_events c.events p in
    record p' {
      finish = if is_empty c.finish then p'.finish else c.finish;
      usage = later p'.usage c.usage;
    }

abbrev push : StreamEvent → Progress → Progress
push ev p = record p { sent = p.sent ++ ev ∷ [] }

abbrev pub malformed_event : String → StreamEvent
malformed_event e = error_stream (new_provider_error 502 "malformed_sse" e)

-- the text of a line, and whether the line holds one
abbrev pub data_text : String → String
data_text line = trim_space (trim_prefix line "data:")

abbrev pub carries : String → Bool
carries line = has_prefix (codes line) (codes "data:") && not (is_empty (data_text line))

-- `decode` is json.Unmarshal of a chunk's text.
module _ (decode : String → Decoded ChunkEnv) where
  -- The loop. Each line comes with the answer of `ctx.Err() != nil` when it is read.
  unfoldable pub scan : List (Bool × String) → Progress → Exit × Progress
  unfolding push_chunk parse_stream_chunk trim_space new_provider_error
  scan [] p = (exhausted, p)
  scan ((canceled, line) ∷ lines) p = if canceled then (aborted, p) else elim (carries line) [
    | false ↦ scan lines p
    | true ↦
        if data_text line == "[DONE]"
        then (done, p)
        else elim (parse_stream_chunk (decode (data_text line))) [
          | bad e ↦ (malformed, push (malformed_event e) p)
          | good c ↦ scan lines (push_chunk c p)
        ]
  ]

  abbrev pub usage_event : Option Usage → List StreamEvent
  usage_event none = []
  usage_event (some u) = record (blank_event usage_report) { usage = some u } ∷ []

  abbrev pub or_stop : String → String
  or_stop finish = if is_empty finish then "stop" else finish

  abbrev pub last_event : Progress → StreamEvent
  last_event p = record (blank_event stream_end) {
    finish_reason = or_stop p.finish;
    usage = p.usage;
  }

  -- the end without an error
  unfoldable pub finish_stream : Progress → Progress
  finish_stream p = record p {
    sent = (p.sent ++ usage_event p.usage) ++ last_event p ∷ [];
    audit = p.audit ++ "provider_stream_finished" ∷ [];
    finish = or_stop p.finish;
  }

  -- the part behind the loop, with what `sc.Err()` and `ctx.Err() != nil` say there
  unfoldable pub check_end : Option String → Bool → Progress → Progress
  unfolding finish_stream new_provider_error
  check_end none canceled p = finish_stream p
  check_end (some e) true p = finish_stream p
  check_end (some e) false p = push (malformed_event e) p

  -- what the loop leaves; a break at the end marker comes to the same test as the end of the body, since the
  -- scanner may give a last line with its error already set
  unfoldable pub conclude : Option String → Bool → Exit → Progress → Progress
  unfolding check_end
  conclude scan_err canceled aborted p = p
  conclude scan_err canceled malformed p = p
  conclude scan_err canceled done p = check_end scan_err canceled p
  conclude scan_err canceled exhausted p = check_end scan_err canceled p

  -- the goroutine
  unfoldable pub stream_upstream : List (Bool × String) → Option String → Bool → Progress
  unfolding scan conclude started
  stream_upstream lines scan_err canceled =
      let (e, p) = scan lines started in conclude scan_err canceled e p
