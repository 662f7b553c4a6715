-- ===== src/Plugin/Streams/Late.antt =====
-- internal/plugin/runtime.go: what becomes of a notification that comes in behind the end of its stream.
use providerapi.Prelude.{
  ℕ, String, ◌≡◌, refl, ap, ◌∙◌, inl, inr, ◌≢◌, none, some, [], ◌∷◌, ◌++◌, arith, Option-cases,
  Bool-cases, eq_iff,
}
use providerapi.Dict.{get, put, remove, get-put, get-remove}
use providerapi.Protocol.Types.{StreamEvent}
use providerapi.Plugin.Streams.{
  Streams, is_end, send, close_stream, waiting, on_event, open_stream, take_event, update,
}

-- What happens to the other streams: a notification, a call of Stream, a cancel, a receive.
pub data Elsewhere (id : String) (s : Streams) : Streams → Type 0 where
  notified :
      (j : String) (ev : StreamEvent) {t : Streams}
      → j ≢ id
      → on_event j ev s ≡ some t
      → Elsewhere id s t
  opened :
      (j : String) (n : ℕ) {t : Streams} → j ≢ id → open_stream j s ≡ some (t, n) → Elsewhere id s t
  canceled : (j : String) → j ≢ id → Elsewhere id s (close_stream j s)
  taken : (n : ℕ) → Elsewhere id s (take_event n s)

close_stream-pending :
    (id j : String) (s : Streams) → j ≢ id → get id (close_stream j s).pending ≡ get id s.pending
unfolding close_stream
close_stream-pending id j s other = ground (arith, get-remove j id s.pending, eq_iff j id)

on_event-pending :
    (id j : String) (ev : StreamEvent) (s : Streams) {t : Streams}
    → j ≢ id
    → on_event j ev s ≡ some t
    → get id t.pending ≡ get id s.pending
unfolding on_event
on_event-pending id j ev s {t} other e = elim (Option-cases (get j s.streams)) [
  | inl new ↦
      let same : t ≡ record s { pending = put j (waiting j s ++ ev ∷ []) s.pending } =
        ground arith in
      rw same (ground (arith, get-put j id (waiting j s ++ ev ∷ []) s.pending, eq_iff j id))
  | inr (n, old) ↦ elim (Option-cases (send (s.channel n) ev)) [
    | inl full ↦ ground arith
    | inr (ch, sent) ↦
        let s' = record s { channel = update s.channel n ch } in
        elim (Bool-cases (is_end ev.typ)) [
          | inl last ↦
              let same : t ≡ close_stream j s' = ground arith in
              rw same (close_stream-pending id j s' other)
          | inr more ↦ let same : t ≡ s' = ground arith in rw same refl
        ]
  ]
]

open_stream-pending :
    (id j : String) (s : Streams) {t : Streams} {n : ℕ}
    → j ≢ id
    → open_stream j s ≡ some (t, n)
    → get id t.pending ≡ get id s.pending
unfolding open_stream
open_stream-pending id j s {t} other e =
    let kept : t.pending ≡ remove j s.pending = ground arith in
    rw kept (ground (arith, get-remove j id s.pending, eq_iff j id))

take_event-pending : (n : ℕ) (s : Streams) → (take_event n s).pending ≡ s.pending
unfolding take_event
take_event-pending n s = ground arith

waiting-same :
    (id : String) (s t : Streams)
    → get id t.pending ≡ get id s.pending
    → waiting id t ≡ waiting id s
waiting-same id s t e = ground (arith, e)

Elsewhere-waiting :
    (id : String) (s : Streams) {t : Streams} → Elsewhere id s t → waiting id t ≡ waiting id s
Elsewhere-waiting id s (notified j ev {t = t} other e) =
    waiting-same id s t (on_event-pending id j ev s other e)
Elsewhere-waiting id s (opened j n {t = t} other e) =
    waiting-same id s t (open_stream-pending id j s other e)
Elsewhere-waiting id s (canceled j other) =
    waiting-same id s (close_stream j s) (close_stream-pending id j s other)
Elsewhere-waiting id s (taken n) =
    waiting-same id s (take_event n s) (ap (get id) (take_event-pending n s))

pub data Others (id : String) : Streams → Streams → Type 0 where
  here : {s : Streams} → Others id s s
  then_ : {s t u : Streams} → Elsewhere id s t → Others id t u → Others id s u

Others-waiting : (id : String) {s t : Streams} → Others id s t → waiting id t ≡ waiting id s
Others-waiting id here = refl
Others-waiting id (then_ {s = s} step rest) = Others-waiting id rest ∙ Elsewhere-waiting id s step

-- A notification for a stream that is not open, such as one that has ended, is kept, and nothing that
-- happens to the other streams removes it.
pub late_event-waiting :
    (id : String) (ev : StreamEvent) (s t u : Streams)
    → get id s.streams ≡ none
    → on_event id ev s ≡ some t
    → Others id t u
    → waiting id u ≡ waiting id s ++ ev ∷ []
unfolding on_event
late_event-waiting id ev s t u ended came rest =
    let same : t ≡ record s { pending = put id (waiting id s ++ ev ∷ []) s.pending } =
      ground arith in
    Others-waiting id rest
    ∙ rw same (ground (arith, get-put id id (waiting id s ++ ev ∷ []) s.pending, eq_iff id id))
