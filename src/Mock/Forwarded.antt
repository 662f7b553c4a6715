-- ===== src/Mock/Forwarded.antt =====
-- plugins/mock/main.go, sdk/plugin/server.go and internal/plugin/runtime.go: the mock's stream on its way
-- to the channel of the host.
use providerapi.Prelude.{
  ℕ, suc, ◌+◌, ◌≤◌, String, ◌≡◌, refl, ◌∙◌, Bool, true, false, ◌||◌, Option, none, some, List, [],
  ◌∷◌, ◌++◌, length, length-append, inl, inr, Bool-cases, arith,
}
use providerapi.Dict.{get}
use providerapi.Json.{Json}
use providerapi.Protocol.Types.{CompletionRequest, StreamEvent, ProviderError, ToolCall}
use providerapi.Plugin.Streams.{Streams, any_end, capacity}
use providerapi.Plugin.Streams.Delivery.Steps.{IsRun}
use providerapi.Plugin.Streams.Delivery.{Delivered, delivery}
use providerapi.Sdk.{stop_event}
use providerapi.Sdk.Forward.{ended, forwarded, forwarded-ended}
use mathlib.Core.List.{append-nil}
use providerapi.Protocol.Types.{stream_start, blank_event}
use providerapi.Mock.Events.{
  tokenize, text_tail, hello, final_answer, send_tokens, stream_text, last_tool_result,
}
use providerapi.Mock.{events_for, stream, simulate, maybe_tool_call}

any_end-append : (xs ys : List StreamEvent) → any_end (xs ++ ys) ≡ (any_end xs || any_end ys)
any_end-append [] ys = refl
any_end-append (x ∷ xs) ys = ground (arith, any_end-append xs ys)

IsRun-append : (xs ys : List StreamEvent) → any_end xs ≡ false → IsRun ys → IsRun (xs ++ ys)
IsRun-append [] ys e run = run
IsRun-append (x ∷ []) (y ∷ ys) e run = (ground arith, run)
IsRun-append (x ∷ []) [] e run = absurd run
IsRun-append (x ∷ z ∷ xs) ys e run = (ground arith, IsRun-append (z ∷ xs) ys (ground arith) run)

send_tokens-plain :
    (gone : ℕ → Bool) (i : ℕ) (ts : List String) → any_end (send_tokens gone i ts).0 ≡ false
unfolding send_tokens
send_tokens-plain gone i [] = refl
send_tokens-plain gone i (t ∷ ts) = elim (Bool-cases (gone i)) [
  | inl left ↦ rw left refl
  | inr here ↦ rw here (send_tokens-plain gone (suc i) ts)
]

length-send_tokens :
    (gone : ℕ → Bool) (i : ℕ) (ts : List String) → length (send_tokens gone i ts).0 ≤ length ts
unfolding send_tokens
length-send_tokens gone i [] = omega arith
length-send_tokens gone i (t ∷ ts) = elim (Bool-cases (gone i)) [
  | inl left ↦ rw left (omega arith)
  | inr here ↦ rw here (omega (arith, length-send_tokens gone (suc i) ts))
]

-- A stream that is whole as the host is sent it, and fits into a channel.
record IsShort (evs : List StreamEvent) : Type 0 where
  whole : IsRun evs
  short : length evs ≤ capacity

ended-IsShort_whole :
    (xs ys : List StreamEvent)
    → any_end xs ≡ false
    → any_end ys ≡ true
    → IsRun ys
    → length xs + length ys ≤ capacity
    → IsShort (ended (xs ++ ys))
ended-IsShort_whole xs ys e f run short =
    let there : any_end (xs ++ ys) ≡ true = any_end-append xs ys ∙ rw (e, f) refl in
    rw there (record {
      whole = IsRun-append xs ys e run;
      short = omega (arith, length-append xs ys, short);
    })

ended-IsShort_cut :
    (xs : List StreamEvent) → any_end xs ≡ false → length xs + 1 ≤ capacity → IsShort (ended xs)
ended-IsShort_cut xs e short = rw e (record {
  whole = IsRun-append xs (stop_event ∷ []) e refl;
  short = omega (arith, length-append xs (stop_event ∷ []), short);
})

tail-IsShort :
    (text : String) (xs : List StreamEvent) (all_sent : Bool)
    → any_end xs ≡ false
    → length xs + 2 ≤ capacity
    → IsShort (ended (xs ++ text_tail text all_sent))
tail-IsShort text xs true e short = ended-IsShort_whole xs _ e refl (refl, refl) short
tail-IsShort text xs false e short =
    rw (append-nil xs) (ended-IsShort_cut xs e (omega (arith, short)))

stream_text-IsShort :
    (gone : ℕ → Bool) (text : String)
    → length (tokenize text) + 3 ≤ capacity
    → IsShort (ended (stream_text gone text))
unfolding stream_text
stream_text-IsShort gone text room =
    let body = send_tokens gone 0 (tokenize text) in
    tail-IsShort text (blank_event stream_start ∷ body.0) body.1
      (send_tokens-plain gone 0 (tokenize text))
      (omega (arith, length-send_tokens gone 0 (tokenize text), room))

module _ (decimal : ℕ → String) (print : Json → String) (gone : ℕ → Bool) where
  events_for-IsShort :
      (e : Option ProviderError) (tool : Option ToolCall) (after_tool : Bool)
      → IsShort (ended (events_for decimal print gone e tool after_tool))
  unfolding events_for tokenize
  events_for-IsShort (some e) tool after_tool = record { whole = refl; short = omega arith }
  events_for-IsShort none (some tool) after_tool = record {
    whole = (refl, (refl, (refl, (refl, (refl, refl)))));
    short = omega arith;
  }
  events_for-IsShort none none true = stream_text-IsShort gone final_answer (omega arith)
  events_for-IsShort none none false = stream_text-IsShort gone hello (omega arith)

  stream-IsShort : (req : CompletionRequest) → IsShort (forwarded (stream decimal print gone req))
  unfolding stream
  stream-IsShort req = rw (forwarded-ended (stream decimal print gone req)) (
      events_for-IsShort (simulate decimal print req.model) (maybe_tool_call decimal print req)
        (last_tool_result req.messages))

  -- Whatever the request is and wherever in the stream the client goes, what the host is sent of the mock's
  -- stream reaches the channel that Stream returns, complete, in order and closed, whatever part of it comes in
  -- before the stream is opened, where nothing of the stream's id was open or waiting.
  stream-Delivered :
      (req : CompletionRequest) (id : String) (before after : List StreamEvent) (s : Streams)
      → get id s.streams ≡ none
      → get id s.pending ≡ none
      → before ++ after ≡ forwarded (stream decimal print gone req)
      → (t : Streams) × Delivered id before after s s.next t
  stream-Delivered req id before after s free quiet parts =
      let sent = stream-IsShort req in
      delivery id before after s free quiet (rw parts (sent.whole)) (rw parts (sent.short))
