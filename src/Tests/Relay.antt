-- ===== src/Tests/Relay.antt =====
-- A stream of an upstream with a text and a piece of a tool call, up to its client.
use providerapi.Prelude.{
  String, ◌≡◌, refl, Bool, false, none, some, List, [], ◌∷◌, ◌++◌, ◌==◌, arith, if◌then◌else◌, drop,
}
use providerapi.Prelude.Int.{pos}
use providerapi.Dict.{get}
use providerapi.Protocol.Types.{StreamEvent, ToolCallDelta, blank_event, stream_start}
use providerapi.Plugin.Streams.{no_streams}
use providerapi.Plugin.Streams.{Streams}
use providerapi.Plugin.Streams.Delivery.{Delivered}
use providerapi.Sdk.{Decoded, good, bad, forward_stream}
use providerapi.Compat.Chunk.{ChunkEnv}
use providerapi.Compat.Stream.{stream_upstream}
use providerapi.Compat.Stream.Said.{upstream_said}
use providerapi.Api.Stream.{handle_stream}
use providerapi.Api.Stream.Seen.{read_frames, shown_all, shown_end}
use providerapi.Api.Stream.Shown.{handle_stream-shown}
use providerapi.Relay.{stream-Relayed}
use providerapi.Tests.Api.{digits, request, session, events}

handle_stream-shown_example :
    read_frames (handle_stream digits request false events session).frames
    ≡ shown_all digits events ++ shown_end digits request false events
handle_stream-shown_example = handle_stream-shown digits request false events session

abbrev pub piece : ToolCallDelta
piece = record {
  index = pos 1;
  id = "call_1";
  typ = "";
  name = "weather";
  arguments = "";
  finish_reason = "";
}

abbrev env : ChunkEnv
env = record {
  error = none;
  choices = record { finish_reason = ""; content = some "hello"; tool_calls = piece ∷ [] } ∷ [];
  usage = none;
}

abbrev pub decode_text : String → Decoded ChunkEnv
decode_text text = if text == "hello" then good env else bad "not JSON"

abbrev pub upstream : List (Bool × String)
upstream = (false, "data: hello") ∷ (false, "") ∷ (false, "data: [DONE]") ∷ []

abbrev pub told : List StreamEvent
told = (stream_upstream decode_text upstream none false).sent

abbrev pub first : List StreamEvent
first = blank_event stream_start ∷ []

abbrev others : List StreamEvent
others = drop 1 told

-- The start of the stream comes in before the stream is opened.
stream-Relayed_example :
    (t : Streams) × Delivered "s1" first others no_streams no_streams.next t
    × (read_frames
          (handle_stream digits request false (t.channel no_streams.next).sent session).frames
        ≡ upstream_said digits decode_text none false upstream
          ++ shown_end digits request false told)
unfolding no_streams get stream_upstream forward_stream
stream-Relayed_example =
    stream-Relayed digits request decode_text upstream none false false session "s1" first others
      no_streams refl refl refl (refl, (refl, (refl, refl))) (omega arith)
