-- ===== src/Tests/Busy.antt =====
-- The stream of Tests.Relay at a busy host: its start waits, the rest comes in behind the opening, and the client
-- receives in between.
use providerapi.Prelude.{◌≡◌, refl, true, false, none, [], ◌∷◌, ◌++◌, List, some}
use providerapi.Dict.{get, put, remove}
use providerapi.Protocol.Types.{StreamEvent, blank_event, text_delta, tool_call_start, stream_end}
use providerapi.Plugin.Streams.{
  Streams, no_streams, fresh, update, send, send_all, on_event, open_stream, close_stream,
  take_event,
}
use providerapi.Plugin.Streams.Late.{taken}
use providerapi.Plugin.Streams.Ownership.{IsOwned}
use providerapi.Plugin.Streams.Traffic.{Traffic, quiet, event, beside, Ended}
use providerapi.Sdk.{forward_stream}
use providerapi.Compat.Stream.{stream_upstream}
use providerapi.Compat.Stream.Said.{upstream_said}
use providerapi.Api.Stream.{handle_stream}
use providerapi.Api.Stream.Seen.{read_frames, shown_end}
use providerapi.Relay.Busy.{stream-Carried}
use providerapi.Tests.Api.{digits, request, session}
use providerapi.Tests.Relay.{decode_text, upstream, told, first, piece}

abbrev waits : Streams
waits = record no_streams { pending = ("s1", first) ∷ [] }

abbrev opened : Streams
opened = record waits {
  pending = [];
  streams = ("s1", 0) ∷ [];
  channel = update waits.channel 0 (record fresh { sent = first });
  next = 1;
}

abbrev text : StreamEvent
text = record (blank_event text_delta) { text = some "hello" }

abbrev called : StreamEvent
called = record (blank_event tool_call_start) { tool_call = some piece }

abbrev last : StreamEvent
last = record (blank_event stream_end) { finish_reason = "stop" }

-- a state whose channel holds more
abbrev holds : List StreamEvent → Streams → Streams
holds evs s = record s {
  channel = update s.channel 0 (record (s.channel 0) { sent = first ++ evs });
}

abbrev received : Streams
received = take_event 0 (holds (text ∷ []) opened)

abbrev full : Streams
full = holds (text ∷ called ∷ last ∷ []) (holds (text ∷ called ∷ []) received)

abbrev closed : Streams
closed = record full {
  streams = [];
  channel = update full.channel 0 (record (full.channel 0) { closed = true });
}

carried : Traffic "s1" opened (text ∷ called ∷ []) (holds (text ∷ called ∷ []) received)
unfolding no_streams get send on_event take_event
carried = event called (beside (event text quiet refl refl refl) (taken 0)) refl refl refl

waits-IsOwned : IsOwned waits
unfolding no_streams get
waits-IsOwned = record { placed = λ id n e. cc; open_ = λ id n e. cc; once = λ id j n e f. cc }

stream-Carried_example :
    Ended "s1" 0 told closed
    × (read_frames (handle_stream digits request false (closed.channel 0).sent session).frames
        ≡ upstream_said digits decode_text none false upstream
          ++ shown_end digits request false told)
unfolding no_streams get put remove send send_all on_event close_stream open_stream take_event
    stream_upstream forward_stream
stream-Carried_example =
    stream-Carried digits request decode_text upstream none false false session "s1" 0 waits opened
      (holds (text ∷ called ∷ []) received) closed (text ∷ called ∷ []) last waits-IsOwned refl
      carried refl refl refl (refl, (refl, (refl, refl)))
