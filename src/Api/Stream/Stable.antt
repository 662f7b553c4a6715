-- ===== src/Api/Stream/Stable.antt =====
-- internal/api/openai.go: what the loop of handleStream preserves of a session.
use providerapi.Prelude.{String, ◌≡◌, refl, Option, none, some, List, [], ◌∷◌, inl, inr, Bool-cases}
use providerapi.Prelude.Int.{ℤ}
use providerapi.Json.{Json, null}
use providerapi.Protocol.Types.{
  stream_start, tool_call_end, usage_report, stream_end, StreamEvent, EventType, text_delta,
  tool_call_start, tool_call_delta, error_event, ToolCallDelta, ProviderError,
}
use providerapi.Trace.Store.{RequestRow}
use providerapi.Trace.Session.{Session, Ending, stream_meta, sse, mark_ttft, finish}
use providerapi.Trace.Session.Use.{noted, streamed, first_token}
use providerapi.Trace.Session.Kept.{View, use-View, Traced, Filed, Ended, finish-Filed}
use providerapi.Api.Stream.Written.{Loop, Request}
use providerapi.Api.Stream.{
  mark_first, stream_failure, on_text, on_tool_call, on_error, on_kind, on_event, on_events,
}

-- A predicate of sessions that the methods which handleStream calls preserve.
pub record Stable (now : ℤ) (P : Session → Type 0) : Type 0 where
  pub noting : (kind : String) (s : Session) → P s → P (stream_meta kind s)
  pub sending : (v : Json) (s : Session) → P s → P (sse v s)
  pub timing : (elapsed : ℤ) (s : Session) → P s → P (mark_ttft elapsed s)
  pub ending : (pe : ProviderError) (s : Session) → P s → P (finish now (stream_failure pe) s)

-- What an error event leaves in the request's row.
abbrev pub Failed : ℤ → RequestRow → Type 0
Failed now row = (row.finished_at ≡ now) × (row.status ≡ "error")

-- every method but Finish, for a predicate of what is stored
module _ (P : String → String → List RequestRow → Type 0) where
  note-View : (kind : String) (s : Session) → View P s → View P (stream_meta kind s)
  note-View kind s h = use-View P (λ _. "") (λ _. null) (λ _. "") (λ url. url) (noted kind) s refl h

  send-View : (v : Json) (s : Session) → View P s → View P (sse v s)
  send-View v s h = use-View P (λ _. "") (λ _. null) (λ _. "") (λ url. url) (streamed v) s refl h

  time-View : (elapsed : ℤ) (s : Session) → View P s → View P (mark_ttft elapsed s)
  time-View elapsed s h =
      use-View P (λ _. "") (λ _. null) (λ _. "") (λ url. url) (first_token elapsed) s refl h

pub Traced-Stable : (id : String) (now : ℤ) → Stable now (View (Traced id))
Traced-Stable id now = record {
  noting = note-View (Traced id);
  sending = send-View (Traced id);
  timing = time-View (Traced id);
  ending = λ pe s h. (finish-Filed id now (stream_failure pe) s h).0;
}

-- A traced request whose stored row is such a one.
abbrev pub Finished : String → (RequestRow → Type 0) → Session → Type 0
Finished id Q s = View (Traced id) s × View (Filed id Q) s

pub finish-Finished :
    (id : String) (now : ℤ) (e : Ending) (Q : RequestRow → Type 0) (s : Session)
    → ((row : RequestRow) → Ended now e row → Q row)
    → View (Traced id) s
    → Finished id Q (finish now e s)
finish-Finished id now e Q s told h =
    let (t, f) = finish-Filed id now e s h in
    (t, record { row = f.row; found = f.found; holds = told f.row f.holds })

pub Failed-Stable : (id : String) (now : ℤ) → Stable now (Finished id (Failed now))
Failed-Stable id now = record {
  noting =
      λ kind s (t, f). (note-View (Traced id) kind s t, note-View (Filed id (Failed now)) kind s f);
  sending = λ v s (t, f). (send-View (Traced id) v s t, send-View (Filed id (Failed now)) v s f);
  timing = λ n s (t, f). (time-View (Traced id) n s t, time-View (Filed id (Failed now)) n s f);
  ending = λ pe s (t, f).
      finish-Finished id now (stream_failure pe) (Failed now) s (λ row e. (e.at_end, e.status)) t;
}

module _ (decimal : ℤ → String) (r : Request) where
  module _ (P : Session → Type 0) (stable : Stable r.now P) where
    mark_first-Stable : (l : Loop) → P l.session → P (mark_first decimal r l).session
    mark_first-Stable l h = elim (Bool-cases l.first) [
      | inl e ↦ rw e (stable.noting "first_chunk" _ (stable.timing r.elapsed _ h))
      | inr e ↦ rw e h
    ]

    on_text-Stable :
        (o : Option String) (l : Loop) → P l.session → P (on_text decimal r o l).session
    unfolding on_text
    on_text-Stable none l h = h
    on_text-Stable (some t) l h = elim (Bool-cases l.first) [
      | inl e ↦
          rw e (stable.sending _ _ (stable.noting "first_chunk" _ (stable.timing r.elapsed _ h)))
      | inr e ↦ rw e (stable.sending _ _ h)
    ]

    on_tool_call-Stable :
        (o : Option ToolCallDelta) (l : Loop) → P l.session → P (on_tool_call decimal r o l).session
    unfolding on_tool_call
    on_tool_call-Stable none l h = stable.noting "tool_call" _ (mark_first-Stable l h)
    on_tool_call-Stable (some d) l h =
        stable.sending _ _ (stable.noting "tool_call" _ (mark_first-Stable l h))

    on_error-Stable :
        (o : Option ProviderError) (l : Loop) → P l.session → P (on_error decimal r o l).session
    unfolding on_error
    on_error-Stable none l h = h
    on_error-Stable (some e) l h = stable.ending _ _ (stable.sending _ _ h)

    on_kind-Stable :
        (t : EventType) (ev : StreamEvent) (l : Loop)
        → P l.session
        → P (on_kind decimal r t ev l).session
    unfolding on_kind
    on_kind-Stable text_delta ev l h = on_text-Stable ev.text l h
    on_kind-Stable tool_call_start ev l h = on_tool_call-Stable ev.tool_call l h
    on_kind-Stable tool_call_delta ev l h = on_tool_call-Stable ev.tool_call l h
    on_kind-Stable error_event ev l h = on_error-Stable ev.error l h
    on_kind-Stable stream_start ev l h = stable.sending _ _ h
    on_kind-Stable tool_call_end ev l h = stable.noting "tool_call" _ h
    on_kind-Stable usage_report ev l h = h
    on_kind-Stable stream_end ev l h = h

    pub on_event-Stable :
        (ev : StreamEvent) (l : Loop) → P l.session → P (on_event decimal r ev l).session
    unfolding on_event
    on_event-Stable ev l h = on_kind-Stable ev.typ ev l h

    pub on_events-Stable :
        (evs : List StreamEvent) (l : Loop) → P l.session → P (on_events decimal r evs l).session
    unfolding on_events
    on_events-Stable [] l h = h
    on_events-Stable (ev ∷ evs) l h =
        on_events-Stable evs (on_event decimal r ev l) (on_event-Stable ev l h)
