-- ===== src/Plugin/Streams/Delivery/Steps.antt =====
-- internal/plugin/runtime.go: the notifications of one stream, before it is opened and behind that.
use providerapi.Prelude.{
  ℕ, ◌+◌, ◌≤◌, ◌<◌, String, ◌≡◌, refl, sym, ap, ◌∙◌, true, false, none, some, List, [], ◌∷◌, ◌++◌,
  arith, length, length-append, eqb_refl,
}
use mathlib.Core.List.{append_assoc, append-nil}
use providerapi.Dict.{get, put, remove, get-put_self, get-remove_self}
use providerapi.Protocol.Types.{StreamEvent}
use providerapi.Plugin.Streams.{
  Channel, Streams, capacity, is_end, update, send, close_stream, waiting, on_event, send_all,
  on_events,
}

-- The events of a whole stream: the last one ends it, and no other does.
abbrev pub IsRun : List StreamEvent → Type 0
IsRun [] = ⊥
IsRun (ev ∷ []) = is_end ev.typ ≡ true
IsRun (ev ∷ next ∷ evs) = (is_end ev.typ ≡ false) × IsRun (next ∷ evs)

-- Events for a stream that is not open wait, and change nothing else.
pub record Waits (id : String) (evs : List StreamEvent) (s t : Streams) : Type 0 where
  pub runs : on_events id evs s ≡ some t
  pub streams : t.streams ≡ s.streams
  pub channel : t.channel ≡ s.channel
  pub next : t.next ≡ s.next
  pub waits : waiting id t ≡ waiting id s ++ evs

abbrev add_waiting : String → StreamEvent → Streams → Streams
add_waiting id ev s = record s { pending = put id (waiting id s ++ ev ∷ []) s.pending }

on_event-waits :
    (id : String) (ev : StreamEvent) (s : Streams)
    → get id s.streams ≡ none
    → on_event id ev s ≡ some (add_waiting id ev s)
unfolding on_event
on_event-waits id ev s h = ground arith

waiting-add_waiting :
    (id : String) (ev : StreamEvent) (s : Streams)
    → waiting id (add_waiting id ev s) ≡ waiting id s ++ ev ∷ []
waiting-add_waiting id ev s = ground (arith, get-put_self id (waiting id s ++ ev ∷ []) s.pending)

pub on_events-Waits :
    (id : String) (evs : List StreamEvent) (s : Streams)
    → get id s.streams ≡ none
    → (t : Streams) × Waits id evs s t
unfolding on_events
on_events-Waits id [] s h = (
  s,
  record { runs = refl; streams = refl; channel = refl; next = refl; waits = sym (append-nil _) },
)
on_events-Waits id (ev ∷ evs) s h =
    let (t, w) = on_events-Waits id evs (add_waiting id ev s) h in
    (
      t,
      record {
        runs = rw (on_event-waits id ev s h, on_events) w.runs;
        streams = w.streams;
        channel = w.channel;
        next = w.next;
        waits =
            w.waits
            ∙ ap (λ l. l ++ evs) (waiting-add_waiting id ev s)
            ∙ append_assoc (waiting id s) (ev ∷ []) evs;
      },
    )

abbrev pushed : Channel → StreamEvent → Channel
pushed ch ev = record ch { sent = ch.sent ++ ev ∷ [] }

send-room :
    (ch : Channel) (ev : StreamEvent)
    → ch.closed ≡ false
    → length ch.sent < capacity
    → send ch ev ≡ some (pushed ch ev)
unfolding send
send-room ch ev h room = ground arith

-- Sends into a channel with room.
pub send_all-room :
    (ch : Channel) (evs : List StreamEvent)
    → ch.closed ≡ false
    → length ch.sent + length evs ≤ capacity
    → send_all ch evs ≡ some (record ch { sent = ch.sent ++ evs })
unfolding send_all
send_all-room ch [] h room = rw append-nil
send_all-room ch (ev ∷ evs) h room =
    rw (send-room ch ev h (omega arith), send_all)
      (rw (
        send_all-room (pushed ch ev) evs h (omega (arith, length-append ch.sent (ev ∷ []))),
        append_assoc,
      ))

abbrev push : ℕ → StreamEvent → Streams → Streams
push n ev s = record s { channel = update s.channel n (pushed (s.channel n) ev) }

channel-push :
    (n : ℕ) (ev : StreamEvent) (s : Streams) → (push n ev s).channel n ≡ pushed (s.channel n) ev
channel-push n ev s = rw (eqb_refl n)

-- Events for an open stream, up to its end.
pub record Receives (n : ℕ) (id : String) (evs : List StreamEvent) (s t : Streams) : Type 0 where
  pub runs : on_events id evs s ≡ some t
  pub sent : (t.channel n).sent ≡ (s.channel n).sent ++ evs
  pub closed : (t.channel n).closed ≡ true
  pub ended : get id t.streams ≡ none
  pub drained : get id t.pending ≡ none

on_event-open :
    (n : ℕ) (id : String) (ev : StreamEvent) (s : Streams)
    → get id s.streams ≡ some n
    → (s.channel n).closed ≡ false
    → length (s.channel n).sent < capacity
    → is_end ev.typ ≡ false
    → on_event id ev s ≡ some (push n ev s)
unfolding on_event send
on_event-open n id ev s h open_ room e = ground (arith, send-room (s.channel n) ev)

on_event-last :
    (n : ℕ) (id : String) (ev : StreamEvent) (s : Streams)
    → get id s.streams ≡ some n
    → (s.channel n).closed ≡ false
    → length (s.channel n).sent < capacity
    → is_end ev.typ ≡ true
    → on_event id ev s ≡ some (close_stream id (push n ev s))
unfolding on_event send
on_event-last n id ev s h open_ room e = ground (arith, send-room (s.channel n) ev)

closed-close_stream :
    (n : ℕ) (id : String) (s : Streams)
    → get id s.streams ≡ some n
    → close_stream id s ≡ record s {
      streams = remove id s.streams;
      channel = update s.channel n (record (s.channel n) { closed = true });
      pending = remove id s.pending;
    }
unfolding close_stream
closed-close_stream n id s h = ground arith

pub on_events-open :
    (n : ℕ) (id : String) (evs : List StreamEvent) (s : Streams)
    → get id s.streams ≡ some n
    → get id s.pending ≡ none
    → (s.channel n).closed ≡ false
    → length (s.channel n).sent + length evs ≤ capacity
    → IsRun evs
    → (t : Streams) × Receives n id evs s t
unfolding on_events
on_events-open n id [] s h p o room run = absurd run
on_events-open n id (ev ∷ []) s h p o room run = (
  close_stream id (push n ev s),
  record {
    runs = rw (on_event-last n id ev s h o (omega arith) run, on_events);
    sent = rw (closed-close_stream n id (push n ev s) h, eqb_refl n);
    closed = rw (closed-close_stream n id (push n ev s) h, eqb_refl n);
    ended = rw (closed-close_stream n id (push n ev s) h) (get-remove_self id s.streams);
    drained = rw (closed-close_stream n id (push n ev s) h) (get-remove_self id s.pending);
  },
)
on_events-open n id (ev ∷ next ∷ evs) s h p o room (mid, run) =
    let same = channel-push n ev s in
    let (t, w) =
      on_events-open n id (next ∷ evs) (push n ev s) h p (ap (λ (c : Channel). c.closed) same ∙ o)
        (rw same (omega (arith, length-append (s.channel n).sent (ev ∷ [])))) run in
    (
      t,
      record {
        runs = rw (on_event-open n id ev s h o (omega arith) mid, on_events) w.runs;
        sent =
            w.sent
            ∙ ap (λ (c : Channel). c.sent ++ next ∷ evs) same
            ∙ append_assoc (s.channel n).sent (ev ∷ []) (next ∷ evs);
        closed = w.closed;
        ended = w.ended;
        drained = w.drained;
      },
    )
