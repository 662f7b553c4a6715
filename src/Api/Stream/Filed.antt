-- ===== src/Api/Stream/Filed.antt =====
-- internal/api/openai.go: the row that is stored behind handleStream, on every way out of it.
use providerapi.Prelude.{
  String, ◌≡◌, refl, sym, ap, ◌∙◌, Bool, true, false, Option, none, some, List, [], ◌∷◌, inl, inr,
  Bool-cases, All, arith, is_some, if◌then◌else◌,
}
use providerapi.Prelude.Int.{ℤ}
use providerapi.Protocol.Types.{
  stream_start, tool_call_end, usage_report, stream_end, StreamEvent, EventType, text_delta,
  tool_call_start, tool_call_delta, error_event, ProviderError, Usage,
}
use mathlib.Core.Path.{subst}
use providerapi.Trace.Store.{RequestRow}
use providerapi.Trace.Session.{Session}
use providerapi.Trace.Session.Kept.{View, Traced}
use providerapi.Api.Stream.Written.{panics, Loop, Request}
use providerapi.Api.Stream.{
  open_loop, stream_failure, on_error, on_kind, on_event, on_events, close_ok, close_loop,
  write_usage, close_canceled, close_error, handle_stream, settle, or_stop,
}
use providerapi.Api.Stream.Outcome.{is_error, any_error, last_usage, on_events-Rounds}
use providerapi.Api.Stream.Stable.{
  Finished, Failed, Traced-Stable, Failed-Stable, finish-Finished, on_event-Stable,
  on_events-Stable,
}

-- Every error event carries an error.
abbrev pub HoldErrors : List StreamEvent → Type 0
HoldErrors = All (λ ev. is_error ev.typ ≡ true → is_some ev.error ≡ true)

-- Every error event carries an error, and no count of the last usage is negative.
abbrev pub Carried : List StreamEvent → Type 0
Carried evs = HoldErrors evs × (panics (last_usage none evs) ≡ false)

-- How a row tells that a stream ended: with 499 where the client has gone, else as failed behind an error event,
-- else with 200.
abbrev pub Shows : Bool → Bool → RequestRow → Type 0
Shows true failed row = (row.status ≡ "canceled") × (row.http_status ≡ 499)
Shows false true row = row.status ≡ "error"
Shows false false row = (row.status ≡ "ok") × (row.http_status ≡ 200)

abbrev pub Ends : Bool → Bool → ℤ → RequestRow → Type 0
Ends gone failed now row = (row.finished_at ≡ now) × Shows gone failed row

module _ (decimal : ℤ → String) (r : Request) (id : String) where
  error-Finished :
      (o : Option ProviderError) (l : Loop)
      → is_some o ≡ true
      → View (Traced id) l.session
      → Finished id (Failed r.now) (on_error decimal r o l).session
  unfolding on_error
  error-Finished none l there h = cc
  error-Finished (some e) l there h =
      finish-Finished id r.now (stream_failure e) (Failed r.now) _
        (λ row done. (done.at_end, done.status)) ((Traced-Stable id r.now).sending _ _ h)

  kind-Finished :
      (t : EventType) (ev : StreamEvent) (l : Loop)
      → is_error t ≡ true
      → is_some ev.error ≡ true
      → View (Traced id) l.session
      → Finished id (Failed r.now) (on_kind decimal r t ev l).session
  unfolding on_kind
  kind-Finished error_event ev l bad there h = error-Finished ev.error l there h
  kind-Finished stream_start ev l bad there h = cc
  kind-Finished text_delta ev l bad there h = cc
  kind-Finished tool_call_start ev l bad there h = cc
  kind-Finished tool_call_delta ev l bad there h = cc
  kind-Finished tool_call_end ev l bad there h = cc
  kind-Finished usage_report ev l bad there h = cc
  kind-Finished stream_end ev l bad there h = cc

  event-Finished :
      (ev : StreamEvent) (l : Loop)
      → is_error ev.typ ≡ true
      → is_some ev.error ≡ true
      → View (Traced id) l.session
      → Finished id (Failed r.now) (on_event decimal r ev l).session
  unfolding on_event
  event-Finished ev l bad there h = kind-Finished ev.typ ev l bad there h

  -- an error event finishes the session, and no later event undoes it
  failing-Finished :
      (evs : List StreamEvent) (l : Loop)
      → any_error evs ≡ true
      → HoldErrors evs
      → View (Traced id) l.session
      → Finished id (Failed r.now) (on_events decimal r evs l).session
  unfolding on_events
  failing-Finished [] l bad carried h = cc
  failing-Finished (ev ∷ evs) l bad (c, carried) h = elim (Bool-cases (is_error ev.typ)) [
    | inl now_ ↦
        on_events-Stable decimal r (Finished id (Failed r.now)) (Failed-Stable id r.now) evs _
          (event-Finished ev l now_ (c now_) h)
    | inr later ↦
        failing-Finished evs (on_event decimal r ev l) (ground arith) carried
          (on_event-Stable decimal r (View (Traced id)) (Traced-Stable id r.now) ev l h)
  ]

  write_usage-Traced :
      (u : Option Usage) (l : Loop)
      → View (Traced id) l.session
      → View (Traced id) (write_usage decimal r u l).session
  write_usage-Traced none l h = h
  write_usage-Traced (some u) l h = (Traced-Stable id r.now).sending _ _ h

  settle-Finished :
      (b : Bool) (reason : String) (u : Option Usage) (l : Loop)
      → b ≡ false
      → View (Traced id) l.session
      → Finished id (Ends false false r.now) (settle decimal r b reason u l).session
  settle-Finished true reason u l sound h = cc
  settle-Finished false reason u l sound h =
      finish-Finished id r.now _ (Ends false false r.now) _
        (λ row done. (done.at_end, (done.status, done.http)))
        ((Traced-Stable id r.now).noting "stream_finished" _ h)

  close-Finished :
      (gone failed : Bool) (l : Loop)
      → panics l.usage ≡ false
      → View (Traced id) l.session
      → (failed ≡ true → Finished id (Failed r.now) l.session)
      → Finished id
          (Ends gone failed r.now)
          (if gone
            then close_canceled decimal r l
            else if failed
            then close_error decimal r l
            else close_ok decimal r l).session
  unfolding close_ok close_error close_canceled
  close-Finished true failed l sound h ended_ =
      finish-Finished id r.now _ (Ends true failed r.now) _
        (λ row done. (done.at_end, (done.status, done.http))) h
  close-Finished false true l sound h ended_ = ended_ refl
  close-Finished false false l sound h ended_ =
      settle-Finished (panics l.usage) (or_stop decimal r l.finish) l.usage _ sound
        (write_usage-Traced l.usage _ ((Traced-Stable id r.now).sending _ l.session h))

  -- Where the request is traced into a table with one row for an id, and every error event carries an error and
  -- no count of the last usage is negative, the table has behind handleStream a row of the
  -- request that is finished at the end's time, and that tells how the stream ended.
  pub handle_stream-Finished :
      (gone : Bool) (events : List StreamEvent) (s : Session)
      → Carried events
      → View (Traced id) s
      → Finished id
          (Ends gone (any_error events) r.now)
          (handle_stream decimal r gone events s).session
  unfolding handle_stream close_loop open_loop
  handle_stream-Finished gone events s (carried, sound) h =
      let l = on_events decimal r events (open_loop s) in
      let opened = (Traced-Stable id r.now).noting "stream_started" s h in
      let all_ = on_events-Rounds decimal r events (open_loop s) in
      subst (λ b. Finished id (Ends gone b r.now) (close_loop decimal r gone l).session) all_.failed
        (close-Finished gone l.stream_err l (ap panics all_.usage ∙ sound)
          (on_events-Stable decimal r (View (Traced id)) (Traced-Stable id r.now) events
            (open_loop s) opened)
          (λ bad. failing-Finished events (open_loop s) (sym all_.failed ∙ bad) carried opened))
