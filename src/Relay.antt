-- ===== src/Relay.antt =====
-- A stream from end to end: the lines of an upstream, plugins/openai-compat/main.go, sdk/plugin/server.go,
-- internal/plugin/runtime.go and internal/api/openai.go, up to what a client reads.
pub mod Busy
use providerapi.Prelude.{
  ◌≤◌, String, ◌≡◌, refl, ap, ◌∙◌, Bool, true, Option, none, List, [], ◌∷◌, ◌++◌, length,
}
use providerapi.Prelude.Int.{ℤ}
use providerapi.Dict.{get}
use providerapi.Protocol.Types.{StreamEvent}
use providerapi.Plugin.Streams.{Streams, any_end, capacity}
use providerapi.Plugin.Streams.Delivery.Steps.{IsRun}
use providerapi.Plugin.Streams.Delivery.{Delivered, delivery}
use providerapi.Sdk.{Decoded}
use providerapi.Sdk.Forward.{ended, forwarded, forwarded-ended}
use providerapi.Compat.Chunk.{ChunkEnv}
use providerapi.Compat.Stream.{stream_upstream}
use providerapi.Compat.Stream.Said.{upstream_said, stream_upstream-shown}
use providerapi.Trace.Session.{Session}
use providerapi.Api.Stream.Written.{Request}
use providerapi.Api.Stream.{handle_stream}
use providerapi.Api.Stream.Seen.{read_frames, shown_end}
use providerapi.Api.Stream.Shown.{handle_stream-shown}

IsRun-any_end : (evs : List StreamEvent) → IsRun evs → any_end evs ≡ true
IsRun-any_end [] run = absurd run
IsRun-any_end (ev ∷ []) run = rw run refl
IsRun-any_end (ev ∷ next ∷ evs) (mid, run) = rw mid (IsRun-any_end (next ∷ evs) run)

pub IsRun-ended : (evs : List StreamEvent) → IsRun evs → ended evs ≡ evs
IsRun-ended evs run = rw (IsRun-any_end evs run) refl

-- What the plugin tells of the upstream's lines.
module _ (decimal : ℤ → String) (r : Request) (decode : String → Decoded ChunkEnv)
    (lines : List (Bool × String)) (scan_err : Option String) (canceled : Bool) where
  abbrev pub told : List StreamEvent
  told = (stream_upstream decode lines scan_err canceled).sent

  -- A stream of at most 64 events that only its last one ends, for which nothing is open or waiting at the host,
  -- reaches the channel that Stream returns, whatever part of it comes in before the stream is opened; and a
  -- client that reads what handleStream writes of that channel learns what the upstream's lines say, line by
  -- line, and behind that what the end of the stream says.
  pub stream-Relayed :
      (gone : Bool) (session : Session) (id : String) (before after : List StreamEvent)
      (s : Streams)
      → get id s.streams ≡ none
      → get id s.pending ≡ none
      → before ++ after ≡ forwarded told
      → IsRun told
      → length told ≤ capacity
      → (t : Streams) × Delivered id before after s s.next t
        × (read_frames (handle_stream decimal r gone (t.channel s.next).sent session).frames
            ≡ upstream_said decimal decode scan_err canceled lines ++ shown_end decimal r gone told)
  stream-Relayed gone session id before after s free quiet parts run short =
      let whole : before ++ after ≡ told = parts ∙ forwarded-ended told ∙ IsRun-ended told run in
      let (t, d) = delivery id before after s free quiet (rw whole run) (rw whole short) in
      (
        t,
        d,
        ap (λ evs. read_frames (handle_stream decimal r gone evs session).frames) (d.sent ∙ whole)
            ∙ handle_stream-shown decimal r gone told session
            ∙ ap (λ l. l ++ shown_end decimal r gone told)
                (stream_upstream-shown decimal decode scan_err canceled lines),
      )
