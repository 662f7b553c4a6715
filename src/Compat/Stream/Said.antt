-- ===== src/Compat/Stream/Said.antt =====
-- plugins/openai-compat/main.go: what a client will learn of an upstream stream, read off its lines.
use providerapi.Prelude.{
  String, ◌≡◌, refl, sym, ap, ◌∙◌, Bool, true, false, Option, none, some, List, [], ◌∷◌, ◌++◌, map,
  ◌==◌, not, ◌||◌, inl, inr, arith, Bool-cases, if◌then◌else◌,
}
use mathlib.Core.List.{append-nil, append_assoc}
use providerapi.Prelude.Int.{ℤ}
use providerapi.Text.{is_empty}
use providerapi.Protocol.Types.{StreamEvent, ToolCallDelta, Usage}
use providerapi.Sdk.{Decoded, good, bad}
use providerapi.Compat.Chunk.{
  ChunkEnv, ChunkChoice, UsageEnv, parse_stream_chunk, chunk_of, content_events, tool_event,
  choice_events,
}
use providerapi.Compat.Stream.{
  Progress, started, push_events, push_chunk, data_text, carries, scan, finish_stream, check_end,
  conclude, stream_upstream, malformed_event, last_event, usage_event,
}
use providerapi.Compat.Stream.Ending.{Decoded-cases}
use providerapi.Api.Stream.Seen.{Seen, call, fault, said, shown, shown_all}

module _ (decimal : ℤ → String) where
  abbrev pub calls_said : List ToolCallDelta → List Seen
  calls_said [] = []
  calls_said (d ∷ ds) = call (decimal d.index) d.id d.name d.arguments ∷ calls_said ds

  abbrev pub content_said : Option String → List Seen
  content_said none = []
  content_said (some s) = said s

  abbrev pub choices_said : List ChunkChoice → List Seen
  choices_said [] = []
  choices_said (ch ∷ _) = content_said ch.content ++ calls_said ch.tool_calls

  -- What a chunk of the upstream says: its error, or else what its first choice holds.
  abbrev pub error_or : Option String → List Seen → List Seen
  error_or none said_ = said_
  error_or (some message) said_ = fault message "provider_error" ∷ []

  abbrev pub env_said : ChunkEnv → List Seen
  env_said env = error_or env.error (choices_said env.choices)

  abbrev pub cut : Option String → Bool → List Seen
  cut none canceled = []
  cut (some e) true = []
  cut (some e) false = fault e "malformed_sse" ∷ []

  module _ (decode : String → Decoded ChunkEnv) (scan_err : Option String) (canceled : Bool) where
    -- The lines are read up to the end marker, to one that cannot be read, or to the end of the context; an error
    -- of the scanner counts at the end marker as at the end of the body.
    abbrev pub upstream_said : List (Bool × String) → List Seen
    upstream_said [] = cut scan_err canceled
    upstream_said ((gone, line) ∷ lines) =
        let rest = upstream_said lines in
        if gone then [] else elim (carries line) [
          | false ↦ rest
          | true ↦
              if data_text line == "[DONE]"
              then cut scan_err canceled
              else elim (decode (data_text line)) [
                | bad e ↦ fault e "malformed_sse" ∷ []
                | good env ↦ env_said env ++ rest
              ]
        ]

  shown_all-append :
      (xs ys : List StreamEvent)
      → shown_all decimal (xs ++ ys) ≡ shown_all decimal xs ++ shown_all decimal ys
  shown_all-append [] ys = refl
  shown_all-append (x ∷ xs) ys =
      ap (λ l. shown decimal x.typ x ++ l) (shown_all-append xs ys)
      ∙ sym (append_assoc (shown decimal x.typ x) (shown_all decimal xs) (shown_all decimal ys))

  content_events-shown :
      (o : Option String) (reason : String)
      → shown_all decimal (content_events o reason) ≡ content_said o
  unfolding content_events
  content_events-shown none reason = refl
  content_events-shown (some s) reason = ground arith

  tool_event-shown :
      (reason : String) (d : ToolCallDelta) (rest : List Seen)
      → shown decimal (tool_event reason d).typ (tool_event reason d) ++ rest
        ≡ call (decimal d.index) d.id d.name d.arguments ∷ rest
  unfolding tool_event
  tool_event-shown reason d rest =
      elim (Bool-cases (not (is_empty d.id) || not (is_empty d.name))) [
        | inl e ↦ rw e refl
        | inr e ↦ rw e refl
      ]

  tool_events-shown :
      (reason : String) (ds : List ToolCallDelta)
      → shown_all decimal (map (tool_event reason) ds) ≡ calls_said ds
  tool_events-shown reason [] = refl
  tool_events-shown reason (d ∷ ds) =
      tool_event-shown reason d _
      ∙ ap (λ l. call (decimal d.index) d.id d.name d.arguments ∷ l) (tool_events-shown reason ds)

  chunk_parts-shown :
      (o : Option String) (cs : List ChunkChoice) (u : Option UsageEnv)
      → shown_all decimal (chunk_of (record { error = o; choices = cs; usage = u })).events
        ≡ error_or o (choices_said cs)
  unfolding chunk_of choice_events
  chunk_parts-shown (some message) cs u = refl
  chunk_parts-shown none [] u = refl
  chunk_parts-shown none (ch ∷ cs) u =
      shown_all-append (content_events ch.content ch.finish_reason) _
      ∙ ap (λ l. l ++ shown_all decimal (map (tool_event ch.finish_reason) ch.tool_calls))
          (content_events-shown ch.content ch.finish_reason)
      ∙ ap (λ l. content_said ch.content ++ l) (tool_events-shown ch.finish_reason ch.tool_calls)

  chunk_of-shown : (env : ChunkEnv) → shown_all decimal (chunk_of env).events ≡ env_said env
  chunk_of-shown env = chunk_parts-shown env.error env.choices env.usage

  push_events-sent :
      (evs : List StreamEvent) (p : Progress) → (push_events evs p).sent ≡ p.sent ++ evs
  unfolding push_events
  push_events-sent [] p = sym (append-nil _)
  push_events-sent (ev ∷ evs) p = push_events-sent evs _ ∙ append_assoc p.sent (ev ∷ []) evs

  push_chunk-shown :
      (env : ChunkEnv) (p : Progress)
      → shown_all decimal (push_chunk (chunk_of env) p).sent
        ≡ shown_all decimal p.sent ++ env_said env
  unfolding push_chunk
  push_chunk-shown env p =
      ap (shown_all decimal) (push_events-sent (chunk_of env).events p)
      ∙ shown_all-append p.sent (chunk_of env).events
      ∙ ap (λ l. shown_all decimal p.sent ++ l) (chunk_of-shown env)

  module _ (decode : String → Decoded ChunkEnv) (scan_err : Option String) (canceled : Bool) where
    push-shown :
        (ev : StreamEvent) (p : Progress)
        → shown_all decimal (p.sent ++ ev ∷ [])
          ≡ shown_all decimal p.sent ++ shown decimal ev.typ ev
    push-shown ev p =
        shown_all-append p.sent (ev ∷ [])
        ∙ ap (λ l. shown_all decimal p.sent ++ l) (append-nil (shown decimal ev.typ ev))

    usage_event-shown : (u : Option Usage) → shown_all decimal (usage_event decode u) ≡ []
    usage_event-shown none = refl
    usage_event-shown (some u) = refl

    finish_stream-shown :
        (p : Progress)
        → shown_all decimal (finish_stream decode p).sent ≡ shown_all decimal p.sent ++ []
    unfolding finish_stream
    finish_stream-shown p =
        shown_all-append (p.sent ++ usage_event decode p.usage) (last_event decode p ∷ [])
        ∙ append-nil _
        ∙ shown_all-append p.sent (usage_event decode p.usage)
        ∙ ap (λ l. shown_all decimal p.sent ++ l) (usage_event-shown p.usage)

    check_end-shown :
        (o : Option String) (b : Bool) (p : Progress)
        → shown_all decimal (check_end decode o b p).sent ≡ shown_all decimal p.sent ++ cut o b
    unfolding check_end
    check_end-shown none b p = finish_stream-shown p
    check_end-shown (some e) true p = finish_stream-shown p
    check_end-shown (some e) false p = push-shown (malformed_event e) p

    scan-shown :
        (lines : List (Bool × String)) (p : Progress)
        → (let r = scan decode lines p in
            shown_all decimal (conclude decode scan_err canceled r.0 r.1).sent
            ≡ shown_all decimal p.sent ++ upstream_said decode scan_err canceled lines)
    unfolding scan conclude parse_stream_chunk
    scan-shown [] p = check_end-shown scan_err canceled p
    scan-shown ((true, line) ∷ lines) p = sym (append-nil _)
    scan-shown ((false, line) ∷ lines) p = elim (Bool-cases (carries line)) [
      | inr none_ ↦ rw none_ (scan-shown lines p)
      | inl some_ ↦ elim (Bool-cases (data_text line == "[DONE]")) [
        | inl last ↦ rw (some_, last) (check_end-shown scan_err canceled p)
        | inr more ↦ elim (Decoded-cases (decode (data_text line))) [
          | inl (env, e) ↦
              rw (some_, more, e)
                (scan-shown lines (push_chunk (chunk_of env) p)
                  ∙ ap (λ l. l ++ upstream_said decode scan_err canceled lines)
                      (push_chunk-shown env p)
                  ∙ append_assoc (shown_all decimal p.sent) (env_said env) _)
          | inr (text, e) ↦ rw (some_, more, e) (push-shown (malformed_event text) p)
        ]
      ]
    ]

    -- What the events of a stream say to a client is what the upstream's lines say, line by line, however the
    -- stream is left.
    pub stream_upstream-shown :
        (lines : List (Bool × String))
        → shown_all decimal (stream_upstream decode lines scan_err canceled).sent
          ≡ upstream_said decode scan_err canceled lines
    unfolding stream_upstream started
    stream_upstream-shown lines = scan-shown lines started
