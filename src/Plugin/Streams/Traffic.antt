-- ===== src/Plugin/Streams/Traffic.antt =====
-- internal/plugin/runtime.go: an open stream of any length, among the other streams of the instance.
use providerapi.Prelude.{
  ℕ, ◌≢◌, ◌↔◌, String, ◌≡◌, refl, ap, ◌∙◌, inl, inr, true, false, none, some, List, [], ◌∷◌, ◌++◌,
  arith, eq_iff, Bool-cases, Option-cases,
}
use mathlib.Core.List.{append-nil, append_assoc}
use providerapi.Dict.{get, get-put, get-remove, get-remove_self}
use providerapi.Protocol.Types.{StreamEvent}
use providerapi.Plugin.Streams.{
  Streams, is_end, is_full, send, send_all, any_end, fresh, waiting, close_stream, on_event,
  open_stream, take_event,
}
use providerapi.Plugin.Streams.Late.{Elsewhere, notified, opened, canceled, taken}
use providerapi.Plugin.Streams.Ownership.{
  IsOwned, close_stream-IsOwned, on_event-IsOwned, open_stream-IsOwned, take_event-IsOwned,
  ended_state, running_state,
}

-- From a state on, the events of one stream that do not end it come in, and in between anything happens to the
-- other streams, and any client receives.
pub data Traffic (id : String) (s : Streams) : List StreamEvent → Streams → Type 0 where
  quiet : Traffic id s [] s
  event :
      {evs all_ : List StreamEvent} {t u : Streams} (ev : StreamEvent)
      → Traffic id s evs t
      → on_event id ev t ≡ some u
      → is_end ev.typ ≡ false
      → all_ ≡ evs ++ ev ∷ []
      → Traffic id s all_ u
  beside :
      {evs : List StreamEvent} {t u : Streams}
      → Traffic id s evs t
      → Elsewhere id t u
      → Traffic id s evs u

-- The stream is open at a place, and its channel holds what was sent.
pub record Flows (id : String) (n : ℕ) (sent : List StreamEvent) (s : Streams) : Type 0 where
  pub owned : IsOwned s
  pub here : get id s.streams ≡ some n
  pub holds : (s.channel n).sent ≡ sent

module _ (id : String) (n : ℕ) (sent : List StreamEvent) where
  close_stream-Flows :
      (j : String) (s : Streams) → j ≢ id → Flows id n sent s → Flows id n sent (close_stream j s)
  unfolding close_stream
  close_stream-Flows j s other f = record {
    owned = close_stream-IsOwned j s f.owned;
    here = ground (arith, f.here, get-remove j id s.streams, eq_iff j id);
    holds = ground (arith, f.here, f.holds);
  }

  take_event-Flows : (m : ℕ) (s : Streams) → Flows id n sent s → Flows id n sent (take_event m s)
  unfolding take_event
  take_event-Flows m s f = record {
    owned = take_event-IsOwned m s f.owned;
    here = ground (arith, f.here);
    holds = ground (arith, f.holds);
  }

  open_stream-Flows :
      (j : String) (s : Streams) {t : Streams} {m : ℕ}
      → j ≢ id
      → open_stream j s ≡ some (t, m)
      → Flows id n sent s
      → Flows id n sent t
  unfolding open_stream
  open_stream-Flows j s {t} other e f = elim (Option-cases (send_all fresh (waiting j s))) [
    | inl full ↦ ground arith
    | inr (ch, whole) ↦ elim (Bool-cases (any_end (waiting j s))) [
      | inl ends ↦
          let same : t ≡ ended_state j s ch = ground arith in
          record {
            owned = open_stream-IsOwned j s e f.owned;
            here = rw same f.here;
            holds = rw same (ground (arith, f.holds, f.owned.placed id n f.here));
          }
      | inr runs ↦
          let same : t ≡ running_state j s ch = ground arith in
          record {
            owned = open_stream-IsOwned j s e f.owned;
            here = rw same (ground (arith, f.here, get-put j id s.next s.streams, eq_iff j id));
            holds = rw same (ground (arith, f.holds, f.owned.placed id n f.here));
          }
    ]
  ]

  on_event-Flows_other :
      (j : String) (ev : StreamEvent) (s : Streams) {t : Streams}
      → j ≢ id
      → on_event j ev s ≡ some t
      → Flows id n sent s
      → Flows id n sent t
  unfolding on_event send close_stream
  on_event-Flows_other j ev s {t} other e f = record {
    owned = on_event-IsOwned j ev s e f.owned;
    here = ground (arith, e, f.here, get-remove j id s.streams, eq_iff j id);
    holds = elim (Option-cases (get j s.streams)) [
      | inl new ↦ ground (arith, e, f.holds)
      | inr (m, old) ↦ ground (arith, e, f.holds, f.owned.once j id n, f.here, old)
    ];
  }

  Elsewhere-Flows : {s t : Streams} → Elsewhere id s t → Flows id n sent s → Flows id n sent t
  Elsewhere-Flows {s} (notified j ev other e) f = on_event-Flows_other j ev s other e f
  Elsewhere-Flows {s} (opened j m other e) f = open_stream-Flows j s other e f
  Elsewhere-Flows {s} (canceled j other) f = close_stream-Flows j s other f
  Elsewhere-Flows {s} (taken m) f = take_event-Flows m s f

  -- an event of the stream itself
  on_event-Flows :
      (ev : StreamEvent) (s : Streams) {t : Streams}
      → on_event id ev s ≡ some t
      → is_end ev.typ ≡ false
      → Flows id n sent s
      → Flows id n (sent ++ ev ∷ []) t
  unfolding on_event send
  on_event-Flows ev s {t} e more f =
      let open_ = f.owned.open_ id n f.here in
      record {
        owned = on_event-IsOwned id ev s e f.owned;
        here = ground (arith, e, more, f.here, open_);
        holds = ground (arith, e, more, f.here, f.holds, open_);
      }

Traffic-Flows :
    (id : String) (n : ℕ) {s t : Streams} {evs : List StreamEvent}
    → Traffic id s evs t
    → Flows id n (s.channel n).sent s
    → Flows id n ((s.channel n).sent ++ evs) t
Traffic-Flows id n {s} quiet f = rw (append-nil (s.channel n).sent) f
Traffic-Flows id n {s} (event {evs} {all_} {t} ev r e more whole) f =
    rw (whole, ← append_assoc (s.channel n).sent evs (ev ∷ []))
      (on_event-Flows id n _ ev t e more (Traffic-Flows id n r f))
Traffic-Flows id n {s} (beside r other) f = Elsewhere-Flows id n _ other (Traffic-Flows id n r f)

-- The notification of an event for an open stream waits for the client exactly where 64 events wait.
pub on_event-waits_iff :
    (id : String) (n : ℕ) (ev : StreamEvent) (s : Streams)
    → IsOwned s
    → get id s.streams ≡ some n
    → (on_event id ev s ≡ none) ↔ (is_full (s.channel n) ≡ true)
unfolding on_event send
on_event-waits_iff id n ev s owned here =
    let open_ = owned.open_ id n here in
    (λ waits. ground (arith, here, open_, waits), λ full. ground (arith, here, open_, full))

-- What the end of a stream leaves.
pub record Ended (id : String) (n : ℕ) (sent : List StreamEvent) (s : Streams) : Type 0 where
  pub holds : (s.channel n).sent ≡ sent
  pub closed : (s.channel n).closed ≡ true
  pub gone : get id s.streams ≡ none

-- Of a stream that is open, however long it is, whatever happens in between to the other streams of the
-- instance and whenever the clients receive, the channel holds every event in the order in which they came in,
-- and no other; behind the event that ends the stream the channel is closed and the stream is gone.
pub traffic-Ended :
    (id : String) (n : ℕ) (s t u : Streams) (evs : List StreamEvent) (last : StreamEvent)
    → IsOwned s
    → get id s.streams ≡ some n
    → Traffic id s evs t
    → is_end last.typ ≡ true
    → on_event id last t ≡ some u
    → ((t.channel n).sent ≡ (s.channel n).sent ++ evs)
      × Ended id n ((s.channel n).sent ++ (evs ++ last ∷ [])) u
unfolding on_event send close_stream
traffic-Ended id n s t u evs last owned here r ends e =
    let f = Traffic-Flows id n r (record { owned = owned; here = here; holds = refl }) in
    let open_ = f.owned.open_ id n f.here in
    let pushed : (u.channel n).sent ≡ (t.channel n).sent ++ last ∷ [] =
      ground (arith, e, ends, f.here, open_) in
    (
      f.holds,
      record {
        holds =
            pushed
            ∙ ap (λ l. l ++ last ∷ []) f.holds
            ∙ append_assoc (s.channel n).sent evs (last ∷ []);
        closed = ground (arith, e, ends, f.here, open_);
        gone = ground (arith, e, ends, f.here, open_, get-remove_self id t.streams);
      },
    )
