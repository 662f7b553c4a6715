-- ===== src/Plugin/Streams/Delivery.antt =====
-- internal/plugin/runtime.go: what reaches the client of a stream, wherever in the run of notifications
-- the stream is opened (onNotify and Stream).
pub mod Steps
use providerapi.Prelude.{
  ℕ, suc, ◌+◌, ◌≤◌, ◌<◌, String, ◌≡◌, refl, sym, ap, ◌∙◌, true, false, Option, none, some, List, [],
  ◌∷◌, ◌++◌, arith, length, length-append, eqb_refl,
}
use mathlib.Core.Path.{subst}
use mathlib.Core.List.{append_assoc, append-nil}
use providerapi.Dict.{get, put, remove, get-put_self, get-remove_self}
use providerapi.Protocol.Types.{StreamEvent}
use providerapi.Plugin.Streams.{
  Channel, Streams, capacity, fresh, is_end, update, send, close_stream, waiting, on_event,
  send_all, any_end, open_stream, on_events,
}
use providerapi.Plugin.Streams.Delivery.Steps.{
  IsRun, Waits, on_events-Waits, send_all-room, Receives, on_events-open,
}

infixl 5 ◌>>=◌
abbrev ◌>>=◌ {ℓ κ} : {A : Type ℓ} {B : Type κ} → Option A → (A → Option B) → Option B
none >>= f = none
some a >>= f = f a

-- Some events come in before the stream is opened, and the others behind that.
abbrev pub deliver : String → List StreamEvent → List StreamEvent → Streams → Option (Streams × ℕ)
deliver id before after s = on_events id before s >>= λ s1.
    open_stream id s1 >>= λ opened. on_events id after opened.0 >>= λ s3. some (s3, opened.1)

-- Where the events before the opening hold the end, they are all.
data Split (before after : List StreamEvent) : Type 0 where
  whole : any_end before ≡ true → after ≡ [] → Split before after
  part : any_end before ≡ false → IsRun after → Split before after

IsRun-Split : (before after : List StreamEvent) → IsRun (before ++ after) → Split before after
IsRun-Split [] after run = part refl run
IsRun-Split (ev ∷ []) [] run = whole (rw run) refl
IsRun-Split (ev ∷ []) (next ∷ evs) (mid, run) = part (rw mid) run
IsRun-Split (ev ∷ next ∷ before) after (mid, run) = elim (IsRun-Split (next ∷ before) after run) [
  | whole e last ↦ whole (rw mid e) last
  | part e rest ↦ part (rw mid e) rest
]

abbrev filled : List StreamEvent → Channel
filled evs = record fresh { sent = evs }

module _ (id : String) (evs : List StreamEvent) (s : Streams) (w : waiting id s ≡ evs)
    (room : length evs ≤ capacity) where
  pub open_stream-running :
      any_end evs ≡ false
      → open_stream id s
        ≡ some (
          record s {
            pending = remove id s.pending;
            streams = put id s.next s.streams;
            channel = update s.channel s.next (filled evs);
            next = suc s.next;
          },
          s.next,
        )
  unfolding open_stream
  open_stream-running e = ground (arith, send_all-room fresh evs refl (omega arith))

  open_stream-ended :
      any_end evs ≡ true
      → open_stream id s
        ≡ some (
          record s {
            pending = remove id s.pending;
            channel = update s.channel s.next (record (filled evs) { closed = true });
            next = suc s.next;
          },
          s.next,
        )
  unfolding open_stream
  open_stream-ended e = ground (arith, send_all-room fresh evs refl (omega arith))

-- What the client of the stream has in the end, in the channel `n`.
pub record Delivered (id : String) (before after : List StreamEvent) (s : Streams) (n : ℕ)
    (t : Streams) : Type 0 where
  pub runs : deliver id before after s ≡ some (t, n)
  pub sent : (t.channel n).sent ≡ before ++ after
  pub closed : (t.channel n).closed ≡ true
  pub ended : get id t.streams ≡ none
  pub drained : get id t.pending ≡ none

module _ (id : String) (before : List StreamEvent) (s s1 : Streams)
    (came : on_events id before s ≡ some s1) (free : get id s1.streams ≡ none)
    (w : waiting id s1 ≡ before) (fits : length before ≤ capacity) where
  deliver_whole : any_end before ≡ true → (t : Streams) × Delivered id before [] s s1.next t
  unfolding on_events
  deliver_whole e =
      let n = s1.next in
      let t : Streams = record s1 {
        pending = remove id s1.pending;
        channel = update s1.channel n (record (filled before) { closed = true });
        next = suc n;
      } in
      (
        t,
        record {
          runs = rw (came, open_stream-ended id before s1 w fits e, on_events);
          sent = rw (eqb_refl n, append-nil);
          closed = rw (eqb_refl n);
          ended = free;
          drained = get-remove_self id s1.pending;
        },
      )

  deliver_part :
      (after : List StreamEvent)
      → any_end before ≡ false
      → IsRun after
      → length before + length after ≤ capacity
      → (t : Streams) × Delivered id before after s s1.next t
  deliver_part after e run room =
      let n = s1.next in
      let s2 : Streams = record s1 {
        pending = remove id s1.pending;
        streams = put id n s1.streams;
        channel = update s1.channel n (filled before);
        next = suc n;
      } in
      let same : s2.channel n ≡ filled before = rw (eqb_refl n) in
      let (t, r) =
        on_events-open n id after s2 (get-put_self id n s1.streams) (get-remove_self id s1.pending)
          (ap (λ (c : Channel). c.closed) same) (rw same room) run in
      (
        t,
        record {
          runs = rw (came, open_stream-running id before s1 w fits e, r.runs);
          sent = r.sent ∙ ap (λ (c : Channel). c.sent ++ after) same;
          closed = r.closed;
          ended = r.ended;
          drained = r.drained;
        },
      )

waiting-eq-nil : (id : String) (s : Streams) → get id s.pending ≡ none → waiting id s ≡ []
waiting-eq-nil id s p = ground arith

-- A whole stream of at most 64 events, for which nothing is open or waiting yet, reaches the channel
-- that Stream returns: no send waits, whatever part of it comes in before the stream is opened; the
-- channel holds all the events in their order and is closed, and nothing of the stream is left behind.
pub delivery :
    (id : String) (before after : List StreamEvent) (s : Streams)
    → get id s.streams ≡ none
    → get id s.pending ≡ none
    → IsRun (before ++ after)
    → length (before ++ after) ≤ capacity
    → (t : Streams) × Delivered id before after s s.next t
delivery id before after s h p run room =
    let (s1, w1) = on_events-Waits id before s h in
    let waits : waiting id s1 ≡ before = w1.waits ∙ ap (λ l. l ++ before) (waiting-eq-nil id s p) in
    let free : get id s1.streams ≡ none = ap (get id) w1.streams ∙ h in
    let total = length-append before after in
    let fits : length before ≤ capacity = omega (arith, total) in
    subst (λ n. (t : Streams) × Delivered id before after s n t) w1.next
      (elim (IsRun-Split before after run) [
        | whole e last ↦ rw last (deliver_whole id before s s1 w1.runs free waits fits e)
        | part e rest ↦
            deliver_part id before s s1 w1.runs free waits fits after e rest (omega (arith, total))
      ])
