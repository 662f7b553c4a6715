-- ===== src/Api/Stream/Frames.antt =====
-- internal/api/openai.go: what handleStream writes.
use providerapi.Prelude.{
  String, ◌≡◌, refl, sym, ap, ◌∙◌, Bool, true, false, Option, none, some, List, [], ◌∷◌, ◌++◌, map,
  inl, inr, arith, Bool-cases, if◌then◌else◌,
}
use providerapi.Prelude.Int.{ℤ}
use mathlib.Core.List.{map-append}
use providerapi.Json.{Json}
use providerapi.Protocol.Types.{
  StreamEvent, EventType, stream_start, text_delta, tool_call_start, tool_call_delta, tool_call_end,
  usage_report, stream_end, error_event, ToolCallDelta, ProviderError, Usage,
}
use providerapi.Trace.Session.{Session}
use providerapi.Api.Stream.Written.{Frame, chunk_frame, done_frame, panics, Loop, Request}
use providerapi.Api.Stream.{
  open_loop, on_text, on_tool_call, on_error, on_kind, on_event, on_events, mark_first, close_ok,
  close_error, handle_stream, settle, or_stop, write_usage,
}

-- Only chunks.
abbrev pub Chunks : List Frame → Type 0
Chunks fs = (cs : List Json) × (fs ≡ map chunk_frame cs)

Chunks-snoc : (fs : List Frame) (v : Json) → Chunks fs → Chunks (fs ++ chunk_frame v ∷ [])
Chunks-snoc fs v (cs, e) =
    (cs ++ v ∷ [], ap (λ l. l ++ chunk_frame v ∷ []) e ∙ sym (map-append chunk_frame cs (v ∷ [])))

-- Chunks, and the end marker behind them.
abbrev pub Closed : List Frame → Type 0
Closed fs = (cs : List Json) × (fs ≡ map chunk_frame cs ++ done_frame ∷ [])

Chunks-Closed : (fs : List Frame) → Chunks fs → Closed (fs ++ done_frame ∷ [])
Chunks-Closed fs (cs, e) = (cs, ap (λ l. l ++ done_frame ∷ []) e)

module _ (decimal : ℤ → String) (r : Request) where
  on_text-Chunks :
      (text : Option String) (l : Loop) → Chunks l.frames → Chunks (on_text decimal r text l).frames
  unfolding on_text
  on_text-Chunks none l h = h
  on_text-Chunks (some s) l h = elim (Bool-cases l.first) [
    | inl e ↦ rw e (Chunks-snoc _ _ h)
    | inr e ↦ rw e (Chunks-snoc _ _ h)
  ]

  mark_first-frames : (l : Loop) → (mark_first decimal r l).frames ≡ l.frames
  mark_first-frames l = ground arith

  on_tool_call-Chunks :
      (d : Option ToolCallDelta) (l : Loop)
      → Chunks l.frames
      → Chunks (on_tool_call decimal r d l).frames
  unfolding on_tool_call
  on_tool_call-Chunks none l h = rw (mark_first-frames l) h
  on_tool_call-Chunks (some d) l h = rw (mark_first-frames l) (Chunks-snoc _ _ h)

  on_error-Chunks :
      (e : Option ProviderError) (l : Loop)
      → Chunks l.frames
      → Chunks (on_error decimal r e l).frames
  unfolding on_error
  on_error-Chunks none l h = h
  on_error-Chunks (some e) l h = Chunks-snoc _ _ h

module _ (decimal : ℤ → String) (r : Request) where
  on_kind-Chunks :
      (t : EventType) (ev : StreamEvent) (l : Loop)
      → Chunks l.frames
      → Chunks (on_kind decimal r t ev l).frames
  unfolding on_kind
  on_kind-Chunks stream_start ev l h = Chunks-snoc _ _ h
  on_kind-Chunks text_delta ev l h = on_text-Chunks decimal r ev.text l h
  on_kind-Chunks tool_call_start ev l h = on_tool_call-Chunks decimal r ev.tool_call l h
  on_kind-Chunks tool_call_delta ev l h = on_tool_call-Chunks decimal r ev.tool_call l h
  on_kind-Chunks tool_call_end ev l h = h
  on_kind-Chunks usage_report ev l h = h
  on_kind-Chunks stream_end ev l h = h
  on_kind-Chunks error_event ev l h = on_error-Chunks decimal r ev.error l h

  on_event-Chunks :
      (ev : StreamEvent) (l : Loop) → Chunks l.frames → Chunks (on_event decimal r ev l).frames
  unfolding on_event
  on_event-Chunks ev l h = on_kind-Chunks ev.typ ev l h

  pub on_events-Chunks :
      (evs : List StreamEvent) (l : Loop)
      → Chunks l.frames
      → Chunks (on_events decimal r evs l).frames
  unfolding on_events
  on_events-Chunks [] l h = h
  on_events-Chunks (ev ∷ evs) l h =
      on_events-Chunks evs (on_event decimal r ev l) (on_event-Chunks ev l h)

  settle-Closed :
      (b : Bool) (reason : String) (u : Option Usage) (l : Loop)
      → Closed l.frames
      → Closed (settle decimal r b reason u l).frames
  settle-Closed true reason u l h = h
  settle-Closed false reason u l h = h

  write_usage-Chunks :
      (u : Option Usage) (l : Loop) → Chunks l.frames → Chunks (write_usage decimal r u l).frames
  write_usage-Chunks none l h = h
  write_usage-Chunks (some u) l h = Chunks-snoc _ _ h

  close_ok-Closed : (l : Loop) → Chunks l.frames → Closed (close_ok decimal r l).frames
  unfolding close_ok
  close_ok-Closed l h =
      settle-Closed (panics l.usage) (or_stop decimal r l.finish) l.usage _
        (Chunks-Closed _ (write_usage-Chunks l.usage _ (Chunks-snoc _ _ h)))

  end-Closed :
      (failed : Bool) (l : Loop)
      → Chunks l.frames
      → Closed (if failed then close_error decimal r l else close_ok decimal r l).frames
  unfolding close_error
  end-Closed true l h = Chunks-Closed l.frames h
  end-Closed false l h = close_ok-Closed l h

  -- Whatever the events, a client that is still there when they end gets JSON chunks only and then
  -- the end marker of the protocol, once and last.
  pub handle_stream-Closed :
      (events : List StreamEvent) (s : Session)
      → Closed (handle_stream decimal r false events s).frames
  unfolding handle_stream
  handle_stream-Closed events s =
      let l = on_events decimal r events (open_loop s) in
      end-Closed l.stream_err l (on_events-Chunks events (open_loop s) ([], refl))
