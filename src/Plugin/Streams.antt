-- ===== src/Plugin/Streams.antt =====
-- internal/plugin/runtime.go: the streams of an instance, between the connection's reader (onNotify),
-- the request that opens a stream (Stream), its cancellation, and a crash of the plugin. A channel lies
-- on a heap, since the map of the streams, the reader and the client share it.
pub mod Crash
pub mod Late
pub mod Delivery
pub mod Blocking
pub mod Ownership
pub mod Bounds
pub mod Canceled
pub mod Traffic
use providerapi.Prelude.{
  ℕ, suc, ◌-◌, String, Bool, true, false, not, ◌||◌, Option, none, some, List, [], ◌∷◌, ◌++◌,
  length, ltb, leb, eqb, any, map, if◌then◌else◌,
}
use providerapi.Dict.{Dict, get, put, remove}
use providerapi.Protocol.Types.{StreamEvent, EventType, stream_end, error_event, ProviderError}

-- A channel: what was ever sent, how much of it was received, and whether it is closed.
pub record Channel : Type 0 where
  pub sent : List StreamEvent
  pub taken : ℕ
  pub closed : Bool

abbrev pub capacity : ℕ
capacity = 64

-- `channel` is the heap, `next` its first free place.
pub record Streams : Type 0 where
  pub streams : Dict ℕ
  pub pending : Dict (List StreamEvent)
  pub channel : ℕ → Channel
  pub next : ℕ

abbrev pub fresh : Channel
fresh = record { sent = []; taken = 0; closed = false }

-- the maps as Start makes them
unfoldable pub no_streams : Streams
no_streams = record { streams = []; pending = []; channel = λ _. fresh; next = 0 }

abbrev pub is_end : EventType → Bool
is_end stream_end = true
is_end error_event = true
is_end _ = false

abbrev pub is_full : Channel → Bool
is_full ch = leb capacity (length ch.sent - ch.taken)

abbrev pub update : (ℕ → Channel) → ℕ → Channel → ℕ → Channel
update heap n ch m = if eqb n m then ch else heap m

-- `ch <- ev`: `none` where it waits for a receiver. On a closed channel it panics, and the caller's
-- `recover` goes on with nothing sent.
unfoldable pub send : Channel → StreamEvent → Option Channel
send ch ev =
    if ch.closed
    then some ch
    else if is_full ch
    then none
    else some (record ch { sent = ch.sent ++ ev ∷ [] })

-- closeStreamLocked
unfoldable pub close_stream : String → Streams → Streams
unfolding get remove
close_stream id s = elim (get id s.streams) [
  | none ↦ record s { pending = remove id s.pending }
  | some n ↦ record s {
    streams = remove id s.streams;
    channel = update s.channel n (record (s.channel n) { closed = true });
    pending = remove id s.pending;
  }
]

abbrev pub waiting : String → Streams → List StreamEvent
waiting id s = elim (get id s.pending) [ none ↦ [] | some evs ↦ evs ]

-- The send of onNotify, behind the unlock, into the channel that the lookup gave: `none` where it waits
unfoldable pub send_event : ℕ → StreamEvent → Streams → Option Streams
unfolding send
send_event n ev s = elim (send (s.channel n) ev) [
  | none ↦ none
  | some ch ↦ some (record s { channel = update s.channel n ch })
]

-- onNotify for "plugin.stream.event", when nothing comes between its lookup and its send: `none` where
-- the reader waits for the client
unfoldable pub on_event : String → StreamEvent → Streams → Option Streams
unfolding get put send close_stream
on_event id ev s = elim (get id s.streams) [
  | none ↦ some (record s { pending = put id (waiting id s ++ ev ∷ []) s.pending })
  | some n ↦ elim (send (s.channel n) ev) [
    | none ↦ none
    | some ch ↦
        let s' = record s { channel = update s.channel n ch } in
        if is_end ev.typ then some (close_stream id s') else some s'
  ]
]

-- the loop of Stream over the pending events, into the new channel
unfoldable pub send_all : Channel → List StreamEvent → Option Channel
unfolding send
send_all ch [] = some ch
send_all ch (ev ∷ evs) = elim (send ch ev) [ none ↦ none | some ch' ↦ send_all ch' evs ]

abbrev pub any_end : List StreamEvent → Bool
any_end evs = any (λ ev. is_end ev.typ) evs

-- Stream, from the plugin's answer on: the channel's place. `none` where a send waits: the lock is
-- held, and nobody has the channel yet.
unfoldable pub open_stream : String → Streams → Option (Streams × ℕ)
unfolding get put remove send_all
open_stream id s = elim (send_all fresh (waiting id s)) [
  | none ↦ none
  | some ch ↦
      if any_end (waiting id s)
      then some (
        record s {
          pending = remove id s.pending;
          channel = update s.channel s.next (record ch { closed = true });
          next = suc s.next;
        },
        s.next,
      )
      else some (
        record s {
          pending = remove id s.pending;
          streams = put id s.next s.streams;
          channel = update s.channel s.next ch;
          next = suc s.next;
        },
        s.next,
      )
]

abbrev pub error_of : ProviderError → StreamEvent
error_of e = record {
  typ = error_event;
  text = none;
  tool_call = none;
  usage = none;
  finish_reason = "";
  error = some e;
}

-- a send that gives up where the channel is full or closed, and the close behind it
abbrev pub fail_channel : StreamEvent → Channel → Channel
fail_channel ev ch =
    if ch.closed
    then ch
    else if is_full ch
    then record ch { closed = true }
    else record ch { sent = ch.sent ++ ev ∷ []; closed = true }

unfoldable pub fail_all : StreamEvent → Dict ℕ → (ℕ → Channel) → ℕ → Channel
fail_all ev [] heap = heap
fail_all ev ((id, n) ∷ rest) heap = fail_all ev rest (update heap n (fail_channel ev (heap n)))

-- failActiveStreams, up to its unlock
unfoldable pub forget_streams : Streams → Streams
forget_streams s = record s { streams = []; pending = [] }

-- the close of a channel by failActiveStreams
unfoldable pub shut_channel : ℕ → Streams → Streams
shut_channel n s = record s {
  channel = update s.channel n (record (s.channel n) { closed = true });
}

-- failActiveStreams, when nothing comes between its unlock and its sends and closes: a send of onNotify whose
-- lookup came before may stand between the two. Apart, they are forget_streams, a send or nothing, and shut_channel.
unfoldable pub fail_active_streams : ProviderError → Streams → Streams
unfolding fail_all
fail_active_streams e s = record s {
  streams = [];
  pending = [];
  channel = fail_all (error_of e) s.streams s.channel;
}

-- the client takes an event from a channel: `none` where it waits, or where the channel is drained
unfoldable pub take_event : ℕ → Streams → Streams
take_event n s =
    if ltb (s.channel n).taken (length (s.channel n).sent)
    then record s {
      channel = update s.channel n (record (s.channel n) { taken = suc (s.channel n).taken });
    }
    else s

-- a run of notifications for one stream
unfoldable pub on_events : String → List StreamEvent → Streams → Option Streams
unfolding on_event
on_events id [] s = some s
on_events id (ev ∷ evs) s = elim (on_event id ev s) [ none ↦ none | some s' ↦ on_events id evs s' ]
