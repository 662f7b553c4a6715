-- ===== src/Compat/Stream/Forwarded.antt =====
-- plugins/openai-compat/main.go and sdk/plugin/server.go: what the host is sent of an upstream stream.
use providerapi.Prelude.{
  String, ◌≡◌, refl, ap, ◌∙◌, Bool, true, false, Option, List, [], ◌∷◌, ◌++◌, arith, All,
}
use providerapi.Protocol.Types.{StreamEvent}
use providerapi.Plugin.Streams.{is_end, any_end}
use providerapi.Sdk.{Decoded, forward_stream}
use providerapi.Sdk.Forward.{numbered, ended, forward_stream-numbered}
use providerapi.Compat.Chunk.{ChunkEnv}
use providerapi.Compat.Stream.{stream_upstream}
use providerapi.Compat.Stream.Ending.{Framed, stream_upstream-Framed}

any_end-snoc :
    (evs : List StreamEvent) (ev : StreamEvent)
    → is_end ev.typ ≡ true
    → any_end (evs ++ ev ∷ []) ≡ true
any_end-snoc [] ev h = rw h refl
any_end-snoc (x ∷ evs) ev h = ground (arith, any_end-snoc evs ev h)

Framed-ended : (evs : List StreamEvent) → Framed evs → ended evs ≡ evs
Framed-ended evs f =
    let e : any_end evs ≡ true = ap any_end f.shape ∙ any_end-snoc f.middle f.last f.is_last in
    rw e refl

-- Where the context is live at each line, forwardStream sends exactly the events of the upstream stream, numbered from 1, and adds none.
forward_stream-stream_upstream :
    (decode : String → Decoded ChunkEnv) (lines : List (Bool × String)) (scan_err : Option String)
    (canceled : Bool)
    → All (λ l. l.0 ≡ false) lines
    → forward_stream (stream_upstream decode lines scan_err canceled).sent
      ≡ numbered 1 (stream_upstream decode lines scan_err canceled).sent
forward_stream-stream_upstream decode lines scan_err canceled live =
    forward_stream-numbered _
    ∙ ap (numbered 1) (Framed-ended _ (stream_upstream-Framed decode lines scan_err canceled live))
