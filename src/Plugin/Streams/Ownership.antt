-- ===== src/Plugin/Streams/Ownership.antt =====
-- internal/plugin/runtime.go: a channel in the map of the streams is open and stands there once, so no
-- close meets a closed channel (a panic in closeStreamLocked, which has no `recover`).
use providerapi.Prelude.{
  ℕ, suc, ◌<◌, String, ◌≡◌, ◌≢◌, refl, sym, ap, eqb, eqb→eq, ◌∙◌, inl, inr, true, false, some, List,
  [], ◌∷◌, ◌++◌, arith, eq_iff, ltb, length, Option-cases, Bool-cases,
}
use providerapi.Dict.{get, put, remove, get-put, get-remove}
use providerapi.Protocol.Types.{StreamEvent, ProviderError}
use providerapi.Plugin.Streams.{
  Channel, Streams, is_end, send, send_event, close_stream, on_event, open_stream,
  fail_active_streams, forget_streams, shut_channel, take_event, no_streams, update, waiting,
  send_all, any_end, fresh,
}

pub record IsOwned (s : Streams) : Type 0 where
  pub placed : (id : String) (n : ℕ) → get id s.streams ≡ some n → n < s.next
  pub open_ : (id : String) (n : ℕ) → get id s.streams ≡ some n → (s.channel n).closed ≡ false
  pub once : (id j : String) (n : ℕ) → get id s.streams ≡ some n → get j s.streams ≡ some n → id ≡ j

pub no_streams-IsOwned : IsOwned no_streams
unfolding no_streams get
no_streams-IsOwned = record { placed = λ id n e. cc; open_ = λ id n e. cc; once = λ id j n e f. cc }

pub close_stream-IsOwned : (id : String) (s : Streams) → IsOwned s → IsOwned (close_stream id s)
unfolding close_stream
close_stream-IsOwned id s h = record {
  placed = λ j n e. ground (arith, h.placed j n, get-remove id j s.streams, eq_iff id j);
  open_ =
      λ j n e. ground (arith, h.open_ j n, h.once id j n, get-remove id j s.streams, eq_iff id j);
  once = λ i j n e f. ground (
    arith,
    h.once i j n,
    get-remove id i s.streams,
    get-remove id j s.streams,
    eq_iff id i,
    eq_iff id j,
  );
}

send-closed :
    (ch : Channel) (ev : StreamEvent) {ch' : Channel}
    → send ch ev ≡ some ch'
    → ch'.closed ≡ ch.closed
unfolding send
send-closed ch ev h = ground arith

-- a write to one channel that leaves it open or closed as it was
module _ (s : Streams) (n : ℕ) (ch : Channel) (same : ch.closed ≡ (s.channel n).closed) where
  write-IsOwned : IsOwned s → IsOwned (record s { channel = update s.channel n ch })
  write-IsOwned h = record {
    placed = h.placed;
    open_ = λ id m e. ground (arith, h.open_ id m e);
    once = h.once;
  }

pub on_event-IsOwned :
    (id : String) (ev : StreamEvent) (s : Streams) {t : Streams}
    → on_event id ev s ≡ some t
    → IsOwned s
    → IsOwned t
unfolding on_event
on_event-IsOwned id ev s {t} e h = elim (Option-cases (get id s.streams)) [
  | inl new ↦
      let same : t ≡ record s { pending = put id (waiting id s ++ ev ∷ []) s.pending } =
        ground arith in
      rw same (record { placed = h.placed; open_ = h.open_; once = h.once })
  | inr (n, old) ↦ elim (Option-cases (send (s.channel n) ev)) [
    | inl full ↦ ground arith
    | inr (ch, sent) ↦
        let s' = record s { channel = update s.channel n ch } in
        let kept = write-IsOwned s n ch (send-closed (s.channel n) ev sent) h in
        elim (Bool-cases (is_end ev.typ)) [
          | inl last ↦
              let same : t ≡ close_stream id s' = ground arith in
              rw same (close_stream-IsOwned id s' kept)
          | inr more ↦ let same : t ≡ s' = ground arith in rw same kept
        ]
  ]
]

pub take_event-IsOwned : (n : ℕ) (s : Streams) → IsOwned s → IsOwned (take_event n s)
unfolding take_event
take_event-IsOwned n s h = elim (Bool-cases (ltb (s.channel n).taken (length (s.channel n).sent))) [
  | inl some_left ↦
      rw some_left
        (write-IsOwned s n (record (s.channel n) { taken = suc (s.channel n).taken }) refl h)
  | inr drained ↦ rw drained h
]

send_all-closed :
    (ch : Channel) (evs : List StreamEvent) {ch' : Channel}
    → send_all ch evs ≡ some ch'
    → ch'.closed ≡ ch.closed
unfolding send_all
send_all-closed ch [] e = ground arith
send_all-closed ch (ev ∷ evs) {ch'} e = elim (Option-cases (send ch ev)) [
  | inl full ↦ ground arith
  | inr (mid, sent) ↦ send_all-closed mid evs {ch' = ch'} (ground arith) ∙ send-closed ch ev sent
]

abbrev pub ended_state : String → Streams → Channel → Streams
ended_state id s ch = record s {
  pending = remove id s.pending;
  channel = update s.channel s.next (record ch { closed = true });
  next = suc s.next;
}

abbrev pub running_state : String → Streams → Channel → Streams
running_state id s ch = record s {
  pending = remove id s.pending;
  streams = put id s.next s.streams;
  channel = update s.channel s.next ch;
  next = suc s.next;
}

ended-IsOwned :
    (id : String) (s : Streams) (ch : Channel) → IsOwned s → IsOwned (ended_state id s ch)
ended-IsOwned id s ch h = record {
  placed = λ j n e. omega (arith, h.placed j n e);
  open_ = λ j n e. ground (arith, h.placed j n e, h.open_ j n e);
  once = h.once;
}

-- the new place is no old one
running-IsOwned :
    (id : String) (s : Streams) (ch : Channel)
    → ch.closed ≡ false
    → IsOwned s
    → IsOwned (running_state id s ch)
running-IsOwned id s ch c h = record {
  placed = λ j n e. ground (arith, h.placed j n, get-put id j s.next s.streams, eq_iff id j);
  open_ = λ j n e.
      ground (arith, h.placed j n, h.open_ j n, get-put id j s.next s.streams, eq_iff id j);
  once = λ i j n e f. ground (
    arith,
    h.placed i n,
    h.placed j n,
    h.once i j n,
    get-put id i s.next s.streams,
    get-put id j s.next s.streams,
    eq_iff id i,
    eq_iff id j,
  );
}

pub open_stream-IsOwned :
    (id : String) (s : Streams) {t : Streams} {n : ℕ}
    → open_stream id s ≡ some (t, n)
    → IsOwned s
    → IsOwned t
unfolding open_stream
open_stream-IsOwned id s {t} e h = elim (Option-cases (send_all fresh (waiting id s))) [
  | inl full ↦ ground arith
  | inr (ch, sent) ↦ elim (Bool-cases (any_end (waiting id s))) [
    | inl whole ↦
        let same : t ≡ ended_state id s ch = ground arith in rw same (ended-IsOwned id s ch h)
    | inr part ↦
        let same : t ≡ running_state id s ch = ground arith in
        rw same (running-IsOwned id s ch (send_all-closed fresh (waiting id s) sent) h)
  ]
]

pub fail_active_streams-IsOwned :
    (e : ProviderError) (s : Streams) → IsOwned (fail_active_streams e s)
unfolding fail_active_streams get
fail_active_streams-IsOwned e s = record {
  placed = λ id n x. cc;
  open_ = λ id n x. cc;
  once = λ id j n x y. cc;
}

forget_streams-IsOwned : (s : Streams) → IsOwned (forget_streams s)
unfolding forget_streams get
forget_streams-IsOwned s = record {
  placed = λ id n x. cc;
  open_ = λ id n x. cc;
  once = λ id j n x y. cc;
}

shut_channel-IsOwned :
    (n : ℕ) (s : Streams)
    → ((id : String) → get id s.streams ≢ some n)
    → IsOwned s
    → IsOwned (shut_channel n s)
unfolding shut_channel
shut_channel-IsOwned n s gone h = record {
  placed = h.placed;
  open_ = λ id m e. elim (Bool-cases (eqb n m)) [
    | inl here ↦ absurd (gone id (e ∙ ap some (sym (eqb→eq n m here))))
    | inr there ↦ rw there (h.open_ id m e)
  ];
  once = h.once;
}

send_event-IsOwned :
    (n : ℕ) (ev : StreamEvent) (s : Streams) {t : Streams}
    → send_event n ev s ≡ some t
    → IsOwned s
    → IsOwned t
unfolding send_event
send_event-IsOwned n ev s {t} e h = elim (Option-cases (send (s.channel n) ev)) [
  | inl full ↦ ground arith
  | inr (ch, sent) ↦
      let same : t ≡ record s { channel = update s.channel n ch } = ground arith in
      rw same (write-IsOwned s n ch (send-closed (s.channel n) ev sent) h)
]

-- What happens to the streams of an instance: a notification, or the send of one whose lookup came any
-- time before, a call of Stream, a cancel of its handle or the close behind a last event, a receive by
-- the client, and the exit of the plugin: at once, or in its parts, with any step between them. Its parts are the
-- loss of the maps, the send of the error, which is `resumed`, and the close of a channel that was in the map.
pub data Step (s : Streams) : Streams → Type 0 where
  notified : (id : String) (ev : StreamEvent) {t : Streams} → on_event id ev s ≡ some t → Step s t
  resumed : (n : ℕ) (ev : StreamEvent) {t : Streams} → send_event n ev s ≡ some t → Step s t
  opened : (id : String) (n : ℕ) {t : Streams} → open_stream id s ≡ some (t, n) → Step s t
  canceled : (id : String) → Step s (close_stream id s)
  taken : (n : ℕ) → Step s (take_event n s)
  exited : (e : ProviderError) → Step s (fail_active_streams e s)
  forgot : Step s (forget_streams s)
  failed_shut : (n : ℕ) → ((id : String) → get id s.streams ≢ some n) → Step s (shut_channel n s)

pub data Reachable : Streams → Type 0 where
  started : Reachable no_streams
  after : {s t : Streams} → Reachable s → Step s t → Reachable t

Step-IsOwned : {s t : Streams} → Step s t → IsOwned s → IsOwned t
Step-IsOwned {s} (notified id ev e) h = on_event-IsOwned id ev s e h
Step-IsOwned {s} (resumed n ev e) h = send_event-IsOwned n ev s e h
Step-IsOwned {s} (opened id n e) h = open_stream-IsOwned id s e h
Step-IsOwned {s} (canceled id) h = close_stream-IsOwned id s h
Step-IsOwned {s} (taken n) h = take_event-IsOwned n s h
Step-IsOwned (exited e) h = fail_active_streams-IsOwned e _
Step-IsOwned {s} forgot h = forget_streams-IsOwned s
Step-IsOwned {s} (failed_shut n gone) h = shut_channel-IsOwned n s gone h

-- In every state that notifications, late sends, opens, cancels, receives and exits reach from the start,
-- each stream in the map has a channel of its own, which was made and is open.
pub Reachable-IsOwned : {s : Streams} → Reachable s → IsOwned s
Reachable-IsOwned started = no_streams-IsOwned
Reachable-IsOwned (after r step) = Step-IsOwned step (Reachable-IsOwned r)
