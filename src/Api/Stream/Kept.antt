-- ===== src/Api/Stream/Kept.antt =====
-- internal/api/openai.go: handleStream does to a session only what the session's methods do.
use providerapi.Prelude.{ℕ, String, Bool, true, false, Option, none, some, List, if◌then◌else◌}
use providerapi.Prelude.Int.{ℤ}
use providerapi.Json.{Json}
use providerapi.Protocol.Types.{CompletionRequest, StreamEvent, Usage}
use providerapi.Trace.Session.{Session}
use providerapi.Trace.Session.Use.{Use, use_, noted, streamed, first_token, ended}
use providerapi.Api.Stream.Written.{panics, Loop, Request}
use providerapi.Api.Stream.{
  stream_failure, open_loop, on_events, close_ok, close_loop, write_usage, close_canceled,
  close_error, handle_stream, settle, or_stop,
}
use providerapi.Api.Stream.Stable.{Stable, on_events-Stable}

module _ (size : Json → String) (encode : CompletionRequest → Json) (digits : ℕ → String)
    (strip_query : String → String) (P : Session → Type 0)
    (closed : (u : Use) (s : Session) → P s → P (use_ size encode digits strip_query u s))
    (decimal : ℤ → String) (r : Request) where
  closed-Stable : Stable r.now P
  closed-Stable = record {
    noting = λ kind s h. closed (noted kind) s h;
    sending = λ v s h. closed (streamed v) s h;
    timing = λ elapsed s h. closed (first_token elapsed) s h;
    ending = λ pe s h. closed (ended r.now (stream_failure pe)) s h;
  }

  write_usage-kept :
      (u : Option Usage) (l : Loop) → P l.session → P (write_usage decimal r u l).session
  write_usage-kept none l h = h
  write_usage-kept (some u) l h = closed-Stable.sending _ _ h

  settle-kept :
      (b : Bool) (reason : String) (u : Option Usage) (l : Loop)
      → P l.session
      → P (settle decimal r b reason u l).session
  settle-kept true reason u l h = h
  settle-kept false reason u l h = closed (ended r.now _) _ (closed-Stable.noting _ _ h)

  close-kept :
      (gone failed : Bool) (l : Loop)
      → P l.session
      → P
          (if gone
            then close_canceled decimal r l
            else if failed
            then close_error decimal r l
            else close_ok decimal r l).session
  unfolding close_ok close_error close_canceled
  close-kept true failed l h = closed (ended r.now _) _ h
  close-kept false true l h = h
  close-kept false false l h =
      settle-kept (panics l.usage) (or_stop decimal r l.finish) l.usage _
        (write_usage-kept l.usage _ (closed-Stable.sending _ l.session h))

  -- What every method of a session preserves, handleStream preserves.
  pub handle_stream-kept :
      (gone : Bool) (events : List StreamEvent) (s : Session)
      → P s
      → P (handle_stream decimal r gone events s).session
  unfolding handle_stream close_loop open_loop
  handle_stream-kept gone events s h =
      let l = on_events decimal r events (open_loop s) in
      close-kept gone l.stream_err l (
        on_events-Stable decimal r P closed-Stable events (open_loop s)
          (closed-Stable.noting "stream_started" s h))
