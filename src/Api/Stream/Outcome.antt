-- ===== src/Api/Stream/Outcome.antt =====
-- internal/api/openai.go: what handleStream records of a stream, against the events alone.
use providerapi.Prelude.{
  String, ◌≡◌, refl, ap, ◌∙◌, Bool, true, false, ◌||◌, Option, none, some, List, [], ◌∷◌, ◌++◌, any,
  arith, if◌then◌else◌,
}
use mathlib.Core.List.{append-nil}
use providerapi.Prelude.Int.{ℤ}
use providerapi.Text.{is_empty}
use providerapi.Protocol.Types.{
  StreamEvent, EventType, text_delta, tool_call_start, tool_call_delta, usage_report, stream_end,
  error_event, ToolCallDelta, ProviderError, Usage,
}
use providerapi.Api.Chunks.{final_chunk}
use providerapi.Trace.Session.{Session}
use providerapi.Api.Stream.Written.{
  Metric, requests_total, provider_errors, ttft, panics, token_metrics, Loop, Request, write_chunk,
}
use providerapi.Api.Stream.{
  open_loop, on_text, on_tool_call, on_error, on_kind, on_event, on_events, close_ok, close_error,
  handle_stream, or_stop, write_usage, settle,
}

abbrev pub is_error : EventType → Bool
is_error error_event = true
is_error _ = false

abbrev pub any_error : List StreamEvent → Bool
any_error evs = any (λ ev. is_error ev.typ) evs

-- The last finish reason that an event carries, or else `reason`.
abbrev pub last_finish : String → List StreamEvent → String
last_finish reason [] = reason
last_finish reason (ev ∷ evs) =
    last_finish (if is_empty ev.finish_reason then reason else ev.finish_reason) evs

-- The usage that counts: a usage event sets it, a stream_end with a usage replaces it.
abbrev pub usage_after : EventType → Option Usage → Option Usage → Option Usage
usage_after usage_report old new = new
usage_after stream_end old none = old
usage_after stream_end old (some u) = some u
usage_after _ old new = old

abbrev pub last_usage : Option Usage → List StreamEvent → Option Usage
last_usage u [] = u
last_usage u (ev ∷ evs) = last_usage (usage_after ev.typ u ev.usage) evs

-- The labels with which requests_total is increased.
abbrev pub totals : List Metric → List String
totals [] = []
totals (requests_total s ∷ ms) = s ∷ totals ms
totals (_ ∷ ms) = totals ms

totals-append : (xs ys : List Metric) → totals (xs ++ ys) ≡ totals xs ++ totals ys
totals-append [] ys = refl
totals-append (requests_total s ∷ xs) ys = ap (λ l. s ∷ l) (totals-append xs ys)
totals-append (_ ∷ xs) ys = totals-append xs ys

totals-append_plain :
    (xs : List Metric) (m : Metric) → totals (m ∷ []) ≡ [] → totals (xs ++ m ∷ []) ≡ totals xs
totals-append_plain xs m plain =
    totals-append xs (m ∷ []) ∙ ap (λ l. totals xs ++ l) plain ∙ append-nil _

or_assoc : (a b c : Bool) → ((a || b) || c) ≡ (a || (b || c))
or_assoc true b c = refl
or_assoc false b c = refl

module _ (decimal : ℤ → String) (r : Request) where
  -- What one event changes of the loop's variables.
  record Round (t : EventType) (ev : StreamEvent) (l l' : Loop) : Type 0 where
    finish : l'.finish ≡ l.finish
    usage : l'.usage ≡ usage_after t l.usage ev.usage
    failed : l'.stream_err ≡ (l.stream_err || is_error t)
    counted : totals l'.metrics ≡ totals l.metrics

  on_text-Round :
      (ev : StreamEvent) (o : Option String) (l : Loop)
      → Round text_delta ev l (on_text decimal r o l)
  unfolding on_text
  on_text-Round ev none l = ground arith
  on_text-Round ev (some s) l = ground (arith, totals-append_plain l.metrics ttft refl)

  on_error-Round :
      (ev : StreamEvent) (o : Option ProviderError) (l : Loop)
      → Round error_event ev l (on_error decimal r o l)
  unfolding on_error
  on_error-Round ev none l = ground arith
  on_error-Round ev (some e) l =
      ground (arith, totals-append_plain l.metrics (provider_errors e.code) refl)

  on_tool_call-Round :
      (t : EventType) (ev : StreamEvent) (o : Option ToolCallDelta) (l : Loop)
      → usage_after t l.usage ev.usage ≡ l.usage
      → is_error t ≡ false
      → Round t ev l (on_tool_call decimal r o l)
  unfolding on_tool_call
  on_tool_call-Round t ev none l same plain = ground arith
  on_tool_call-Round t ev (some d) l same plain = ground arith

  on_kind-Round :
      (t : EventType) (ev : StreamEvent) (l : Loop) → Round t ev l (on_kind decimal r t ev l)
  unfolding on_kind
  on_kind-Round text_delta ev l = on_text-Round ev ev.text l
  on_kind-Round error_event ev l = on_error-Round ev ev.error l
  on_kind-Round tool_call_start ev l =
      on_tool_call-Round tool_call_start ev ev.tool_call l refl refl
  on_kind-Round tool_call_delta ev l =
      on_tool_call-Round tool_call_delta ev ev.tool_call l refl refl
  on_kind-Round _ ev l = ground arith

  -- What the loop makes of all events.
  pub record Rounds (evs : List StreamEvent) (l l' : Loop) : Type 0 where
    pub finish : l'.finish ≡ last_finish l.finish evs
    pub usage : l'.usage ≡ last_usage l.usage evs
    pub failed : l'.stream_err ≡ (l.stream_err || any_error evs)
    pub counted : totals l'.metrics ≡ totals l.metrics

  pub on_events-Rounds :
      (evs : List StreamEvent) (l : Loop) → Rounds evs l (on_events decimal r evs l)
  unfolding on_events on_event
  on_events-Rounds [] l = ground arith
  on_events-Rounds (ev ∷ evs) l =
      let k = on_kind decimal r ev.typ ev l in
      let one = on_kind-Round ev.typ ev l in
      let l' = on_event decimal r ev l in
      let all_ = on_events-Rounds evs l' in
      record {
        finish =
            all_.finish
            ∙ ap (λ x. last_finish (if is_empty ev.finish_reason then x else ev.finish_reason) evs)
                one.finish;
        usage = all_.usage ∙ ap (λ u. last_usage u evs) one.usage;
        failed =
            all_.failed
            ∙ ap (λ b. b || any_error evs) one.failed
            ∙ or_assoc l.stream_err (is_error ev.typ) (any_error evs);
        counted = all_.counted ∙ one.counted;
      }

  write_usage-metrics :
      (u : Option Usage) (l : Loop) → (write_usage decimal r u l).metrics ≡ l.metrics
  write_usage-metrics none l = refl
  write_usage-metrics (some u) l = refl

  token_metrics-totals : (u : Option Usage) → totals (token_metrics u) ≡ []
  token_metrics-totals none = refl
  token_metrics-totals (some u) = ground arith

  settle-totals :
      (b : Bool) (reason : String) (u : Option Usage) (l : Loop)
      → b ≡ false
      → totals l.metrics ≡ []
      → totals (settle decimal r b reason u l).metrics ≡ "ok" ∷ []
  settle-totals true reason u l sound none_yet = cc
  settle-totals false reason u l sound none_yet =
      rw
        (
          totals-append (l.metrics ++ token_metrics u) (requests_total "ok" ∷ []),
          totals-append l.metrics (token_metrics u),
          token_metrics-totals u,
          none_yet,
        )
        refl

  close_ok-totals :
      (l : Loop)
      → panics l.usage ≡ false
      → totals l.metrics ≡ []
      → totals (close_ok decimal r l).metrics ≡ "ok" ∷ []
  unfolding close_ok
  close_ok-totals l sound none_yet =
      let last =
        write_chunk (final_chunk decimal r.id r.model r.created (or_stop decimal r l.finish)) l in
      settle-totals (panics l.usage) (or_stop decimal r l.finish) l.usage _ sound
        (ap totals (write_usage-metrics l.usage last) ∙ none_yet)

  close-totals :
      (failed : Bool) (l : Loop)
      → panics l.usage ≡ false
      → totals l.metrics ≡ []
      → totals (if failed then close_error decimal r l else close_ok decimal r l).metrics
        ≡ (if failed then "error" else "ok") ∷ []
  unfolding close_error
  close-totals true l sound none_yet =
      rw (totals-append l.metrics (requests_total "error" ∷ []), none_yet) refl
  close-totals false l sound none_yet = close_ok-totals l sound none_yet

  -- requests_total is increased once for a stream whose client stays and whose last usage has no negative count,
  -- with the label "error" exactly when some event was an error.
  pub handle_stream-totals :
      (events : List StreamEvent) (s : Session)
      → panics (last_usage none events) ≡ false
      → totals (handle_stream decimal r false events s).metrics
        ≡ (if any_error events then "error" else "ok") ∷ []
  unfolding handle_stream
  handle_stream-totals events s sound =
      let l = on_events decimal r events (open_loop s) in
      let all_ = on_events-Rounds events (open_loop s) in
      close-totals l.stream_err l (ap panics all_.usage ∙ sound) all_.counted
      ∙ ap (λ b. (if b then "error" else "ok") ∷ []) all_.failed
