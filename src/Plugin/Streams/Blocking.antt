-- ===== src/Plugin/Streams/Blocking.antt =====
-- internal/plugin/runtime.go: when Stream waits for ever.
use providerapi.Prelude.{
  ◌+◌, ◌≤◌, ◌<◌, String, ◌≡◌, refl, inl, inr, ◌↔◌, false, none, List, [], ◌∷◌, ◌++◌, arith, length,
  length-append, leb, Bool-cases,
}
use providerapi.Protocol.Types.{StreamEvent}
use providerapi.Plugin.Streams.{
  Channel, Streams, capacity, fresh, send, waiting, send_all, open_stream,
}
use providerapi.Plugin.Streams.Delivery.Steps.{send_all-room}

-- Sends into a channel that nobody receives from.
send_all-full :
    (ch : Channel) (evs : List StreamEvent)
    → ch.closed ≡ false
    → ch.taken ≡ 0
    → capacity < length ch.sent + length evs
    → length ch.sent ≤ capacity
    → send_all ch evs ≡ none
unfolding send_all send
send_all-full ch [] h t full fits = absurd (omega arith)
send_all-full ch (ev ∷ evs) h t full fits = ground (
  arith,
  length-append ch.sent (ev ∷ []),
  send_all-full (record ch { sent = ch.sent ++ ev ∷ [] }) evs h t,
)

-- The opening of a stream waits in a send exactly when more than 64 events wait for the stream.
pub open_stream-eq-none_iff :
    (id : String) (s : Streams) → (open_stream id s ≡ none) ↔ (capacity < length (waiting id s))
unfolding open_stream
open_stream-eq-none_iff id s = elim (Bool-cases (leb (length (waiting id s)) capacity)) [
  | inl fits ↦ ground (arith, send_all-room fresh (waiting id s) refl (ground arith))
  | inr full ↦
      ground (arith, send_all-full fresh (waiting id s) refl refl (ground arith) (omega arith))
]
