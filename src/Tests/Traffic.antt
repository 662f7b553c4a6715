-- ===== src/Tests/Traffic.antt =====
-- A stream between the notifications of another one.
use providerapi.Prelude.{String, ◌≢◌, eq_iff, arith, ◌≡◌, refl, true, [], ◌∷◌}
use providerapi.Dict.{get, put, remove}
use providerapi.Plugin.Streams.{Streams, update, send, on_event, close_stream, take_event}
use providerapi.Plugin.Streams.Ownership.{Reachable-IsOwned}
use providerapi.Plugin.Streams.Late.{notified, taken}
use providerapi.Plugin.Streams.Traffic.{Traffic, quiet, event, beside, Ended, traffic-Ended}
use providerapi.Tests.Streams.{hello, finished, open_state, open_state-Reachable}

abbrev one : Streams
one = record open_state {
  channel = update open_state.channel 0 (record (open_state.channel 0) { sent = hello ∷ [] });
}

abbrev two : Streams
two = record one { pending = ("s2", hello ∷ []) ∷ [] }

abbrev three : Streams
three = record two { channel = update two.channel 0 (record (two.channel 0) { taken = 1 }) }

abbrev full : Streams
full = record three {
  channel = update three.channel 0 (record (three.channel 0) { sent = hello ∷ finished ∷ [] });
}

abbrev four : Streams
four = record full {
  streams = [];
  channel = update full.channel 0 (record (full.channel 0) { closed = true });
}

other : ◌≢◌ {A = String} "s2" "s1"
other e = ground (arith, e, eq_iff "s2" "s1")

carried : Traffic "s1" open_state (hello ∷ []) three
unfolding get put send on_event take_event
carried =
    beside (beside (event hello quiet refl refl refl) (notified "s2" hello other refl)) (taken 0)

traffic-Ended_example :
    ((three.channel 0).sent ≡ hello ∷ []) × Ended "s1" 0 (hello ∷ finished ∷ []) four
unfolding get remove send on_event close_stream
traffic-Ended_example =
    traffic-Ended "s1" 0 open_state three four (hello ∷ []) finished
      (Reachable-IsOwned open_state-Reachable) refl carried refl refl
