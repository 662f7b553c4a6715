-- ===== src/Tests/Streams.antt =====
-- Runs of a plugin's streams and of its connection.
use providerapi.Prelude.{
  ℕ, ◌≡◌, refl, ◌↔◌, ◌<◌, ◌≤◌, true, none, some, List, [], ◌∷◌, ◌++◌, length, All, arith, zero, suc,
  false,
}
use providerapi.Protocol.Errors.{new_provider_error}
use providerapi.Plugin.Streams.Late.{taken, here, then_, late_event-waiting}
use providerapi.Dict.{get, put, remove}
use providerapi.Protocol.Types.{StreamEvent, ProviderError, text_delta, stream_end}
use providerapi.Plugin.Streams.{
  take_event, on_event, Streams, no_streams, capacity, waiting, open_stream, close_stream, update,
  fresh, send_all, send_event, send, Channel,
}
use providerapi.Plugin.Streams.Delivery.{Delivered, delivery}
use providerapi.Plugin.Streams.Blocking.{open_stream-eq-none_iff}
use providerapi.Plugin.Streams.Ownership.{
  opened, IsOwned, started, after, canceled, Reachable-IsOwned, Reachable, resumed,
}
use providerapi.JsonRpc.{Request, number, Action, call, receive, close, Conn, new_conn, run}
use providerapi.Plugin.Streams.Canceled.{
  StreamHandle, cancel, IsShut, now, then_ as later_, cancel-IsShut,
}
use providerapi.JsonRpc.Calls.{times, calls_are_answered_once}
use providerapi.Protocol.Types.{blank_event}

abbrev pub hello : StreamEvent
hello = record (blank_event text_delta) { text = some "hello" }

abbrev pub finished : StreamEvent
finished = record (blank_event stream_end) { finish_reason = "stop" }

-- One event comes in before the stream is opened and the end behind that.
delivery_example :
    (t : Streams) × Delivered "s1" (hello ∷ []) (finished ∷ []) no_streams no_streams.next t
unfolding no_streams get
delivery_example =
    delivery "s1" (hello ∷ []) (finished ∷ []) no_streams refl refl (refl, refl) (omega arith)

abbrev copies : ℕ → List StreamEvent
copies zero = []
copies (suc n) = hello ∷ copies n

abbrev crowded : Streams
crowded = record no_streams { pending = ("s1", copies 65) ∷ [] }

open_stream-eq-none_iff_example :
    (open_stream "s1" crowded ≡ none) ↔ (capacity < length (waiting "s1" crowded))
open_stream-eq-none_iff_example = open_stream-eq-none_iff "s1" crowded

Reachable-IsOwned_example : IsOwned (close_stream "s1" no_streams)
Reachable-IsOwned_example = Reachable-IsOwned (after started (canceled "s1"))

abbrev reply : Request
reply = record { id = number 1; method = ""; params = none; result = none; error = none }

abbrev calls : List Action
calls = call "complete" none ∷ receive reply ∷ receive reply ∷ close "gone" ∷ []

calls_are_answered_once_example :
    (times 1 (run none true calls new_conn).delivered ≤ 1)
    × All (λ d. d.1.id ≡ number d.0) (run none true calls new_conn).delivered
calls_are_answered_once_example = calls_are_answered_once none true calls 1

abbrev shut : Conn
shut = record new_conn { closed = true; close_err = "gone" }

abbrev crash : ProviderError
crash = new_provider_error 502 "plugin_crash" "gone"

abbrev serving : Streams
serving = record no_streams { streams = ("s1", 0) ∷ []; next = 1 }

abbrev leaked : Streams
leaked = record serving { pending = ("s0", finished ∷ []) ∷ [] }

late_event-waiting_example :
    waiting "s0" (take_event 0 leaked) ≡ waiting "s0" serving ++ finished ∷ []
unfolding on_event get put no_streams
late_event-waiting_example =
    late_event-waiting "s0" finished serving leaked (take_event 0 leaked) refl refl
      (then_ (taken 0) here)

abbrev told : Streams
told = record no_streams { pending = ("s1", hello ∷ []) ∷ [] }

abbrev opened_ : Streams
opened_ = elim (open_stream "s1" told) [ some (s, n) ↦ s | none ↦ told ]

abbrev pub open_state : Streams
open_state = record {
  streams = ("s1", 0) ∷ [];
  pending = [];
  channel = update (λ _. fresh) 0 fresh;
  next = 1;
}

pub open_state-Reachable : Reachable open_state
unfolding no_streams open_stream get put remove send_all
open_state-Reachable = after started (opened "s1" 0 refl)

abbrev handle : StreamHandle
handle = record { id = "s1"; once = false }

abbrev shut_channel : Channel
shut_channel = record fresh { closed = true }

abbrev late_state : Streams
late_state = record {
  streams = [];
  pending = [];
  channel = update (update open_state.channel 0 shut_channel) 0 shut_channel;
  next = 1;
}

-- An event whose lookup came before the cancel is sent behind it.
cancel-IsShut_example :
    ((cancel handle open_state).asked ≡ "s1" ∷ [])
    × IsShut 0 [] late_state
    × (cancel (cancel handle open_state).handle no_streams
        ≡ record { handle = record { id = "s1"; once = true }; streams = no_streams; asked = [] })
unfolding get cancel send_event send close_stream
cancel-IsShut_example =
    cancel-IsShut "s1" 0 open_state late_state no_streams open_state-Reachable refl
      (later_ now (resumed 0 hello refl))
