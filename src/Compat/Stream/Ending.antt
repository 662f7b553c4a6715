-- ===== src/Compat/Stream/Ending.antt =====
-- plugins/openai-compat/main.go: how the events of an upstream stream begin and end.
use providerapi.Prelude.{
  String, ◌≡◌, refl, ap, inl, inr, ◌⊎◌, ◌==◌, Bool, true, false, Option, none, some, List, [], ◌∷◌,
  ◌++◌, arith, All, Bool-cases, ◌≢◌,
}
use providerapi.Protocol.Types.{StreamEvent, stream_start}
use providerapi.Plugin.Streams.{is_end}
use providerapi.Sdk.{Decoded, good, bad}
use providerapi.Compat.Chunk.{ChunkEnv, Chunk, parse_stream_chunk}
use providerapi.Protocol.Types.{blank_event}
use providerapi.Compat.Stream.{
  Progress, Exit, done, exhausted, aborted, malformed, started, push_events, push_chunk, data_text,
  carries, scan, finish_stream, check_end, conclude, stream_upstream, malformed_event, last_event,
  usage_event,
}

-- What was sent begins with the start of the stream.
abbrev IsStarted : Progress → Type 0
IsStarted p = (rest : List StreamEvent) × (p.sent ≡ blank_event stream_start ∷ rest)

push_events-IsStarted :
    (evs : List StreamEvent) (p : Progress) → IsStarted p → IsStarted (push_events evs p)
unfolding push_events
push_events-IsStarted [] p h = h
push_events-IsStarted (ev ∷ evs) p (rest, e) =
    push_events-IsStarted evs _ (rest ++ ev ∷ [], ap (λ l. l ++ ev ∷ []) e)

push_chunk-IsStarted : (c : Chunk) (p : Progress) → IsStarted p → IsStarted (push_chunk c p)
unfolding push_chunk
push_chunk-IsStarted c p h = push_events-IsStarted c.events p h

push-IsStarted :
    (ev : StreamEvent) (p : Progress)
    → IsStarted p
    → IsStarted (record p { sent = p.sent ++ ev ∷ [] })
push-IsStarted ev p (rest, e) = (rest ++ ev ∷ [], ap (λ l. l ++ ev ∷ []) e)

-- What the loop leaves, for each way to leave it.
abbrev Left : Exit × Progress → Type 0
Left (malformed, p) =
    (q : Progress) × (text : String) × IsStarted q × (p.sent ≡ q.sent ++ malformed_event text ∷ [])
Left (_, p) = IsStarted p

pub Decoded-cases :
    {A : Type 0} (d : Decoded A) → ((a : A) × (d ≡ good a)) ⊎ ((e : String) × (d ≡ bad e))
Decoded-cases (good a) = inl (a, refl)
Decoded-cases (bad e) = inr (e, refl)

-- The first event is the start of the stream, and the last one is an end.
pub record Framed (evs : List StreamEvent) : Type 0 where
  pub middle : List StreamEvent
  pub last : StreamEvent
  pub shape : evs ≡ blank_event stream_start ∷ (middle ++ last ∷ [])
  pub is_last : is_end last.typ ≡ true

module _ (decode : String → Decoded ChunkEnv) where
  scan-Left :
      (lines : List (Bool × String)) (p : Progress) → IsStarted p → Left (scan decode lines p)
  unfolding scan
  scan-Left [] p h = h
  scan-Left ((true, line) ∷ lines) p h = h
  scan-Left ((false, line) ∷ lines) p h = elim (Bool-cases (carries line)) [
    | inr none_ ↦ rw none_ (scan-Left lines p h)
    | inl some_ ↦ elim (Bool-cases (data_text line == "[DONE]")) [
      | inl last ↦ rw (some_, last) h
      | inr more ↦ elim (Decoded-cases (parse_stream_chunk (decode (data_text line)))) [
        | inl (c, e) ↦
            rw (some_, more, e) (scan-Left lines (push_chunk c p) (push_chunk-IsStarted c p h))
        | inr (text, e) ↦ rw (some_, more, e) (p, text, h, refl)
      ]
    ]
  ]

  scan-ne-aborted :
      (lines : List (Bool × String)) (p : Progress)
      → All (λ l. l.0 ≡ false) lines
      → (scan decode lines p).0 ≢ aborted
  unfolding scan
  scan-ne-aborted [] p h = ground arith
  scan-ne-aborted ((canceled, line) ∷ lines) p (live, h) = elim (Bool-cases (carries line)) [
    | inr none_ ↦ rw (live, none_) (scan-ne-aborted lines p h)
    | inl some_ ↦ elim (Bool-cases (data_text line == "[DONE]")) [
      | inl last ↦ rw (live, some_, last) (ground arith)
      | inr more ↦ elim (Decoded-cases (parse_stream_chunk (decode (data_text line)))) [
        | inl (c, e) ↦ rw (live, some_, more, e) (scan-ne-aborted lines (push_chunk c p) h)
        | inr (text, e) ↦ rw (live, some_, more, e) (ground arith)
      ]
    ]
  ]

  snoc-Framed :
      (p : List StreamEvent) (rest : List StreamEvent) (ev : StreamEvent)
      → p ≡ blank_event stream_start ∷ rest
      → is_end ev.typ ≡ true
      → Framed (p ++ ev ∷ [])
  snoc-Framed p rest ev e last = record {
    middle = rest;
    last = ev;
    shape = ap (λ l. l ++ ev ∷ []) e;
    is_last = last;
  }

  finish_stream-Framed : (p : Progress) → IsStarted p → Framed (finish_stream decode p).sent
  unfolding finish_stream
  finish_stream-Framed p (rest, e) =
      snoc-Framed _ (rest ++ usage_event decode p.usage) (last_event decode p)
        (ap (λ l. l ++ usage_event decode p.usage) e) refl

  check_end-Framed :
      (scan_err : Option String) (canceled : Bool) (p : Progress)
      → IsStarted p
      → Framed (check_end decode scan_err canceled p).sent
  unfolding check_end
  check_end-Framed none canceled p h = finish_stream-Framed p h
  check_end-Framed (some e) true p h = finish_stream-Framed p h
  check_end-Framed (some e) false p (rest, x) = snoc-Framed p.sent rest (malformed_event e) x refl

  conclude-Framed :
      (scan_err : Option String) (canceled : Bool) (e : Exit) (p : Progress)
      → Left (e, p)
      → e ≢ aborted
      → Framed (conclude decode scan_err canceled e p).sent
  unfolding conclude
  conclude-Framed scan_err canceled aborted p h live = absurd (live refl)
  conclude-Framed scan_err canceled malformed p (q, text, (rest, e), sent) live =
      rw sent (snoc-Framed q.sent rest (malformed_event text) e refl)
  conclude-Framed scan_err canceled done p h live = check_end-Framed scan_err canceled p h
  conclude-Framed scan_err canceled exhausted p h live = check_end-Framed scan_err canceled p h

  -- Where the context is live at each line, the events of a stream begin with stream_start and end with
  -- a stream_end or an error, whatever the lines are and however the body ends.
  pub stream_upstream-Framed :
      (lines : List (Bool × String)) (scan_err : Option String) (canceled : Bool)
      → All (λ l. l.0 ≡ false) lines
      → Framed (stream_upstream decode lines scan_err canceled).sent
  unfolding stream_upstream started
  stream_upstream-Framed lines scan_err canceled live =
      let r = scan decode lines started in
      conclude-Framed scan_err canceled r.0 r.1 (scan-Left lines started ([], refl))
        (scan-ne-aborted lines started live)
