-- ===== src/Relay/Busy.antt =====
-- A stream of any length from end to end, at an instance that has other streams: internal/plugin/runtime.go between
-- plugins/openai-compat/main.go with sdk/plugin/server.go and internal/api/openai.go.
use providerapi.Prelude.{
  ℕ, ◌≤◌, String, ◌≡◌, refl, sym, ap, ◌∙◌, Bool, true, false, Option, none, some, List, [], ◌∷◌,
  ◌++◌, length, leb, eqb_refl, arith, inl, inr, Bool-cases,
}
use providerapi.Prelude.Int.{ℤ}
use providerapi.Dict.{get, get-put_self}
use providerapi.Protocol.Types.{StreamEvent}
use providerapi.Plugin.Streams.{Streams, is_end, any_end, capacity, waiting, open_stream, on_event}
use providerapi.Plugin.Streams.Blocking.{open_stream-eq-none_iff}
use providerapi.Plugin.Streams.Ownership.{IsOwned, open_stream-IsOwned}
use providerapi.Plugin.Streams.Delivery.Steps.{IsRun}
use providerapi.Plugin.Streams.Delivery.{open_stream-running}
use providerapi.Plugin.Streams.Traffic.{Traffic, Ended, traffic-Ended}
use providerapi.Sdk.{Decoded}
use providerapi.Sdk.Forward.{forwarded, forwarded-ended}
use providerapi.Compat.Chunk.{ChunkEnv}
use providerapi.Compat.Stream.Said.{upstream_said, stream_upstream-shown}
use providerapi.Trace.Session.{Session}
use providerapi.Api.Stream.Written.{Request}
use providerapi.Api.Stream.{handle_stream}
use providerapi.Api.Stream.Seen.{read_frames, shown_end}
use providerapi.Api.Stream.Shown.{handle_stream-shown}
use providerapi.Relay.{IsRun-ended, told}

any_end-before :
    (before evs : List StreamEvent) (last : StreamEvent)
    → IsRun (before ++ (evs ++ last ∷ []))
    → any_end before ≡ false
any_end-before [] evs last run = refl
any_end-before (ev ∷ []) [] last (mid, run) = rw mid refl
any_end-before (ev ∷ []) (x ∷ evs) last (mid, run) = rw mid refl
any_end-before (ev ∷ next ∷ before) evs last (mid, run) =
    rw mid (any_end-before (next ∷ before) evs last run)

opened_or : Streams × ℕ → Option (Streams × ℕ) → Streams × ℕ
opened_or d none = d
opened_or d (some x) = x

-- A stream that is opened before its end has come in: it is in the map, and its channel holds what waited.
record Opens (id : String) (s t : Streams) (n : ℕ) : Type 0 where
  here : get id t.streams ≡ some n
  holds : (t.channel n).sent ≡ waiting id s

running-Opens :
    (id : String) (s t : Streams) (n : ℕ)
    → open_stream id s ≡ some (t, n)
    → any_end (waiting id s) ≡ false
    → length (waiting id s) ≤ capacity
    → Opens id s t n
unfolding opened_or
running-Opens id s t n opened mid room =
    let made = open_stream-running id (waiting id s) s refl room mid in
    let same = ap (opened_or (s, n)) (sym opened ∙ made) in
    record {
      here =
          ap (λ (x : Streams × ℕ). get id x.0.streams) same
          ∙ get-put_self id s.next s.streams
          ∙ ap (λ (x : Streams × ℕ). some x.1) (sym same);
      holds = ap (λ (x : Streams × ℕ). (x.0.channel x.1).sent) same ∙ rw (eqb_refl s.next) refl;
    }

open_stream-Opens :
    (id : String) (s t : Streams) (n : ℕ)
    → open_stream id s ≡ some (t, n)
    → any_end (waiting id s) ≡ false
    → Opens id s t n
open_stream-Opens id s t n opened mid = elim (Bool-cases (leb (length (waiting id s)) capacity)) [
  | inl room ↦ running-Opens id s t n opened mid (ground arith)
  | inr full ↦
      let refused : open_stream id s ≡ none = (open_stream-eq-none_iff id s).1 (ground arith) in cc
]

module _ (decimal : ℤ → String) (r : Request) (decode : String → Decoded ChunkEnv)
    (lines : List (Bool × String)) (scan_err : Option String) (canceled : Bool) where
  -- A stream of any length that only its last event ends, opened when some part of it but its end has come in: whatever
  -- happens in between to the other streams of the instance and whenever the clients receive, its channel holds
  -- in the end all that the plugin told, and is closed; and a client that reads what handleStream writes of that
  -- channel learns what the upstream's lines say, line by line, and behind that what the end of the stream says.
  pub stream-Carried :
      (gone : Bool) (session : Session) (id : String) (n : ℕ) (s opened t u : Streams)
      (evs : List StreamEvent) (last : StreamEvent)
      → IsOwned s
      → open_stream id s ≡ some (opened, n)
      → Traffic id opened evs t
      → is_end last.typ ≡ true
      → on_event id last t ≡ some u
      → waiting id s ++ (evs ++ last ∷ [])
        ≡ forwarded (told decimal r decode lines scan_err canceled)
      → IsRun (told decimal r decode lines scan_err canceled)
      → Ended id n (told decimal r decode lines scan_err canceled) u
        × (read_frames (handle_stream decimal r gone (u.channel n).sent session).frames
            ≡ upstream_said decimal decode scan_err canceled lines
              ++ shown_end decimal r gone (told decimal r decode lines scan_err canceled))
  stream-Carried gone session id n s opened t u evs last owned opens traffic ends came parts run =
      let all_ = told decimal r decode lines scan_err canceled in
      let whole : waiting id s ++ (evs ++ last ∷ []) ≡ all_ =
        parts ∙ forwarded-ended all_ ∙ IsRun-ended all_ run in
      let o =
        open_stream-Opens id s opened n opens
          (any_end-before (waiting id s) evs last (rw whole run)) in
      let over =
        (traffic-Ended id n opened t u evs last (open_stream-IsOwned id s opens owned) o.here
          traffic ends came).1 in
      let holds : (u.channel n).sent ≡ all_ =
        over.holds ∙ ap (λ l. l ++ (evs ++ last ∷ [])) o.holds ∙ whole in
      (
        record { holds = holds; closed = over.closed; gone = over.gone },
        ap (λ l. read_frames (handle_stream decimal r gone l session).frames) holds
            ∙ handle_stream-shown decimal r gone all_ session
            ∙ ap (λ l. l ++ shown_end decimal r gone all_)
                (stream_upstream-shown decimal decode scan_err canceled lines),
      )
