-- ===== src/Api/Stream/Shown.antt =====
-- internal/api/openai.go: what the chunks of handleStream say to a client is what the events say.
use providerapi.Prelude.{
  String, ◌≡◌, refl, sym, ap, ◌∙◌, Bool, true, false, Option, none, some, List, [], ◌∷◌, ◌++◌, inl,
  inr, arith, Bool-cases, if◌then◌else◌,
}
use mathlib.Core.List.{append-nil, append_assoc}
use providerapi.Prelude.Int.{ℤ}
use providerapi.Protocol.Types.{
  StreamEvent, EventType, stream_start, text_delta, tool_call_start, tool_call_delta, tool_call_end,
  usage_report, stream_end, error_event, ToolCallDelta, ProviderError, Usage,
}
use providerapi.Trace.Session.{Session}
use providerapi.Api.Chunks.{final_chunk}
use providerapi.Api.Stream.Written.{Frame, done_frame, Loop, Request, write_chunk, panics}
use providerapi.Api.Stream.{
  open_loop, on_text, on_tool_call, on_error, on_kind, on_event, on_events, mark_first, close_ok,
  close_error, close_canceled, close_loop, handle_stream, settle, or_stop, write_usage,
}
use providerapi.Api.Stream.Outcome.{any_error, last_finish, last_usage, on_events-Rounds}
use providerapi.Api.Stream.Seen.{
  finish, read_frames, shown_call, shown_fault, shown_text, shown, shown_all, shown_usage,
  shown_close, shown_end,
}
use providerapi.Api.Stream.Seen.Chunks.{
  read_chunk-call, read_chunk-error, read_chunk-final, read_chunk-role, read_chunk-text,
  read_chunk-usage, read_frames-append, read_frames-snoc,
}

module _ (decimal : ℤ → String) (r : Request) where
  mark_first-frames : (l : Loop) → (mark_first decimal r l).frames ≡ l.frames
  mark_first-frames l = ground arith

  on_text-shown :
      (o : Option String) (l : Loop)
      → read_frames (on_text decimal r o l).frames ≡ read_frames l.frames ++ shown_text decimal o
  unfolding on_text
  on_text-shown none l = sym (append-nil _)
  on_text-shown (some s) l = elim (Bool-cases l.first) [
    | inl e ↦ rw e (read_frames-snoc l.frames _ (read_chunk-text decimal r s))
    | inr e ↦ rw e (read_frames-snoc l.frames _ (read_chunk-text decimal r s))
  ]

  on_tool_call-shown :
      (o : Option ToolCallDelta) (l : Loop)
      → read_frames (on_tool_call decimal r o l).frames
        ≡ read_frames l.frames ++ shown_call decimal o
  unfolding on_tool_call
  on_tool_call-shown none l = ap read_frames (mark_first-frames l) ∙ sym (append-nil _)
  on_tool_call-shown (some d) l =
      rw (mark_first-frames l) (read_frames-snoc l.frames _ (read_chunk-call decimal r d))

  on_error-shown :
      (o : Option ProviderError) (l : Loop)
      → read_frames (on_error decimal r o l).frames ≡ read_frames l.frames ++ shown_fault decimal o
  unfolding on_error
  on_error-shown none l = sym (append-nil _)
  on_error-shown (some e) l = read_frames-snoc l.frames _ (read_chunk-error decimal r e)

  on_kind-shown :
      (t : EventType) (ev : StreamEvent) (l : Loop)
      → read_frames (on_kind decimal r t ev l).frames ≡ read_frames l.frames ++ shown decimal t ev
  unfolding on_kind
  on_kind-shown stream_start ev l = read_frames-snoc l.frames _ (read_chunk-role decimal r)
  on_kind-shown text_delta ev l = on_text-shown ev.text l
  on_kind-shown tool_call_start ev l = on_tool_call-shown ev.tool_call l
  on_kind-shown tool_call_delta ev l = on_tool_call-shown ev.tool_call l
  on_kind-shown tool_call_end ev l = sym (append-nil _)
  on_kind-shown usage_report ev l = sym (append-nil _)
  on_kind-shown stream_end ev l = sym (append-nil _)
  on_kind-shown error_event ev l = on_error-shown ev.error l

  on_events-shown :
      (evs : List StreamEvent) (l : Loop)
      → read_frames (on_events decimal r evs l).frames
        ≡ read_frames l.frames ++ shown_all decimal evs
  unfolding on_events on_event
  on_events-shown [] l = sym (append-nil _)
  on_events-shown (ev ∷ evs) l =
      on_events-shown evs (on_event decimal r ev l)
      ∙ ap (λ x. x ++ shown_all decimal evs) (on_kind-shown ev.typ ev l)
      ∙ append_assoc (read_frames l.frames) (shown decimal ev.typ ev) (shown_all decimal evs)

  read_frames-done : (fs : List Frame) → read_frames (fs ++ done_frame ∷ []) ≡ read_frames fs
  read_frames-done fs = read_frames-append fs (done_frame ∷ []) ∙ append-nil (read_frames fs)

  write_usage-shown :
      (u : Option Usage) (l : Loop)
      → read_frames (write_usage decimal r u l).frames
        ≡ read_frames l.frames ++ shown_usage decimal r u
  write_usage-shown none l = sym (append-nil _)
  write_usage-shown (some u) l = read_frames-snoc l.frames _ (read_chunk-usage decimal r u)

  settle-frames :
      (b : Bool) (reason : String) (u : Option Usage) (l : Loop)
      → (settle decimal r b reason u l).frames ≡ l.frames
  settle-frames true reason u l = refl
  settle-frames false reason u l = refl

  close_ok-shown :
      (l : Loop)
      → read_frames (close_ok decimal r l).frames
        ≡ read_frames l.frames
          ++ finish (or_stop decimal r l.finish) ∷ shown_usage decimal r l.usage
  unfolding close_ok
  close_ok-shown l =
      let reason = or_stop decimal r l.finish in
      let last = write_chunk (final_chunk decimal r.id r.model r.created reason) l in
      ap read_frames (settle-frames (panics l.usage) reason l.usage _)
      ∙ read_frames-done (write_usage decimal r l.usage last).frames
      ∙ write_usage-shown l.usage last
      ∙ ap (λ x. x ++ shown_usage decimal r l.usage)
          (read_frames-snoc l.frames _ (read_chunk-final decimal r reason))
      ∙ append_assoc (read_frames l.frames) (finish reason ∷ []) (shown_usage decimal r l.usage)

  close-shown :
      (failed : Bool) (l : Loop)
      → read_frames (if failed then close_error decimal r l else close_ok decimal r l).frames
        ≡ read_frames l.frames ++ shown_close decimal r failed l.finish l.usage
  unfolding close_error
  close-shown true l = read_frames-done l.frames ∙ sym (append-nil _)
  close-shown false l = close_ok-shown l

  close_loop-shown :
      (gone : Bool) (evs : List StreamEvent) (l : Loop)
      → l.stream_err ≡ any_error evs
      → l.finish ≡ last_finish "" evs
      → l.usage ≡ last_usage none evs
      → read_frames (close_loop decimal r gone l).frames
        ≡ read_frames l.frames ++ shown_end decimal r gone evs
  unfolding close_loop close_canceled
  close_loop-shown true evs l failed reason used = sym (append-nil _)
  close_loop-shown false evs l failed reason used =
      close-shown l.stream_err l
      ∙ ap (λ b. read_frames l.frames ++ shown_close decimal r b l.finish l.usage) failed
      ∙ ap (λ s. read_frames l.frames ++ shown_close decimal r (any_error evs) s l.usage) reason
      ∙ ap
          (λ u.
            read_frames l.frames ++ shown_close decimal r (any_error evs) (last_finish "" evs) u)
          used

  -- A client that reads the chunks of a stream learns exactly what the events say, in their order: each piece of
  -- text that is not empty, each piece of a tool call, each error, and behind them, where the client is there and
  -- no event is an error, the last finish reason and the last usage.
  pub handle_stream-shown :
      (gone : Bool) (events : List StreamEvent) (s : Session)
      → read_frames (handle_stream decimal r gone events s).frames
        ≡ shown_all decimal events ++ shown_end decimal r gone events
  unfolding handle_stream open_loop
  handle_stream-shown gone events s =
      let l = on_events decimal r events (open_loop s) in
      let all_ = on_events-Rounds decimal r events (open_loop s) in
      close_loop-shown gone events l all_.failed all_.finish all_.usage
      ∙ ap (λ x. x ++ shown_end decimal r gone events) (on_events-shown events (open_loop s))
