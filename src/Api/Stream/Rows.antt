-- ===== src/Api/Stream/Rows.antt =====
-- internal/api/openai.go: the row that handleStream leaves of a request.
use providerapi.Prelude.{
  ℕ, String, ◌≡◌, refl, ap, ◌∙◌, Bool, true, false, Option, none, List, [], inl, inr, arith,
  Bool-cases, if◌then◌else◌,
}
use providerapi.Prelude.Int.{ℤ, pos}
use providerapi.Protocol.Types.{StreamEvent, Usage}
use providerapi.Trace.Store.{RequestRow}
use providerapi.Trace.Session.{Session, Ending, is_off, finish}
use providerapi.Api.Stream.Written.{panics, Loop, Request}
use providerapi.Api.Stream.{
  open_loop, on_events, close_ok, close_error, handle_stream, or_stop, in_tok, out_tok, settle,
}
use providerapi.Api.Stream.Frames.{Chunks, on_events-Chunks}
use providerapi.Api.Stream.Outcome.{any_error, last_finish, last_usage, totals, on_events-Rounds}

-- The columns of a row that tell how the request ended.
pub record Recorded (row : RequestRow) (status : String) (http : ℕ) (reason : String)
    (input output : ℤ) : Type 0 where
  pub status_is : row.status ≡ status
  pub http_is : row.http_status ≡ http
  pub reason_is : row.finish_reason ≡ reason
  pub input_is : row.input_tokens ≡ input
  pub output_is : row.output_tokens ≡ output

finish-Recorded :
    (now : ℤ) (e : Ending) (s : Session)
    → Recorded (finish now e s).row e.status e.http_status e.finish e.in_tok e.out_tok
unfolding finish
finish-Recorded now e s = elim (Bool-cases (is_off s.level)) [
  | inl off ↦ rw off (record {
    status_is = refl;
    http_is = refl;
    reason_is = refl;
    input_is = refl;
    output_is = refl;
  })
  | inr on ↦ rw on (record {
    status_is = refl;
    http_is = refl;
    reason_is = refl;
    input_is = refl;
    output_is = refl;
  })
]

module _ (decimal : ℤ → String) (r : Request) where
  settle-Recorded :
      (b : Bool) (reason : String) (u : Option Usage) (l : Loop)
      → b ≡ false
      → Recorded
          (settle decimal r b reason u l).session.row
          "ok"
          200
          reason
          (in_tok decimal r u)
          (out_tok decimal r u)
  settle-Recorded true reason u l sound = ground arith
  settle-Recorded false reason u l sound = finish-Recorded r.now _ _

  close-Recorded :
      (failed : Bool) (l : Loop)
      → failed ≡ false
      → panics l.usage ≡ false
      → Recorded
          (if failed then close_error decimal r l else close_ok decimal r l).session.row
          "ok"
          200
          (or_stop decimal r l.finish)
          (in_tok decimal r l.usage)
          (out_tok decimal r l.usage)
  unfolding close_ok
  close-Recorded true l h sound = ground arith
  close-Recorded false l h sound =
      settle-Recorded (panics l.usage) (or_stop decimal r l.finish) l.usage _ sound

  -- When no event is an error, the client stays and the last usage has no negative count, the row says "ok" and
  -- 200, with the last finish reason that an event carried, or "stop", and the tokens of the last usage.
  pub handle_stream-Recorded :
      (events : List StreamEvent) (s : Session)
      → any_error events ≡ false
      → panics (last_usage none events) ≡ false
      → Recorded
          (handle_stream decimal r false events s).session.row
          "ok"
          200
          (or_stop decimal r (last_finish "" events))
          (in_tok decimal r (last_usage none events))
          (out_tok decimal r (last_usage none events))
  unfolding handle_stream
  handle_stream-Recorded events s h sound =
      let l = on_events decimal r events (open_loop s) in
      let all_ = on_events-Rounds decimal r events (open_loop s) in
      let c = close-Recorded l.stream_err l (all_.failed ∙ h) (ap panics all_.usage ∙ sound) in
      record {
        status_is = c.status_is;
        http_is = c.http_is;
        reason_is = c.reason_is ∙ ap (or_stop decimal r) all_.finish;
        input_is = c.input_is ∙ ap (in_tok decimal r) all_.usage;
        output_is = c.output_is ∙ ap (out_tok decimal r) all_.usage;
      }

  -- When the client has gone, nothing but chunks was written, no request is counted, and the row says
  -- "canceled" and 499, whatever the events were.
  handle_stream-canceled :
      (events : List StreamEvent) (s : Session)
      → Chunks (handle_stream decimal r true events s).frames
        × (totals (handle_stream decimal r true events s).metrics ≡ [])
        × Recorded
            (handle_stream decimal r true events s).session.row
            "canceled"
            499
            "client_disconnect"
            (pos 0)
            (pos 0)
  unfolding handle_stream
  handle_stream-canceled events s =
      let all_ = on_events-Rounds decimal r events (open_loop s) in
      (
        on_events-Chunks decimal r events (open_loop s) ([], refl),
        all_.counted,
        finish-Recorded r.now _ _,
      )
