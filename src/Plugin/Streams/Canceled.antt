-- ===== src/Plugin/Streams/Canceled.antt =====
-- internal/plugin/runtime.go: StreamHandle, and what becomes of the channel of a stream that was canceled.
use providerapi.Prelude.{
  ℕ, ◌<◌, String, ◌≡◌, refl, inl, inr, Bool, true, false, some, List, [], ◌∷◌, ◌++◌, arith,
  eqb_refl, Bool-cases, Option-cases, if◌then◌else◌,
}
use providerapi.Dict.{get, put}
use providerapi.Protocol.Types.{StreamEvent, ProviderError}
use providerapi.Plugin.Streams.{
  Channel, Streams, is_end, send, send_event, send_all, any_end, fresh, waiting, update,
  close_stream, on_event, open_stream, fail_active_streams, forget_streams, shut_channel, error_of,
  take_event,
}
use providerapi.Plugin.Streams.Crash.{fail_all-closed}
use providerapi.Plugin.Streams.Ownership.{
  IsOwned, Reachable, Reachable-IsOwned, Step, notified, resumed, opened, canceled, taken, exited,
  forgot, failed_shut, ended_state, running_state,
}

-- StreamHandle; `once` says whether its Once was done.
pub record StreamHandle : Type 0 where
  pub id : String
  pub once : Bool

-- What a call of Cancel leaves behind: the handle, the streams behind the close, and the streams that
-- the plugin is asked to cancel.
pub record Cancel : Type 0 where
  pub handle : StreamHandle
  pub streams : Streams
  pub asked : List String

-- (*StreamHandle).Cancel, on the streams as they are when the plugin has answered
unfoldable pub cancel : StreamHandle → Streams → Cancel
unfolding close_stream
cancel h s = if h.once then record { handle = h; streams = s; asked = [] } else record {
  handle = record h { once = true };
  streams = close_stream h.id s;
  asked = h.id ∷ [];
}

-- The channel at a place is closed, and holds what it held.
pub record IsShut (n : ℕ) (evs : List StreamEvent) (s : Streams) : Type 0 where
  pub made : n < s.next
  pub closed : (s.channel n).closed ≡ true
  pub kept : (s.channel n).sent ≡ evs

-- Any number of steps
pub data Later (s : Streams) : Streams → Type 0 where
  now : Later s s
  then_ : {t u : Streams} → Later s t → Step t u → Later s u

module _ (n : ℕ) (evs : List StreamEvent) where
  close_stream-IsShut :
      (id : String) (s : Streams) → IsShut n evs s → IsShut n evs (close_stream id s)
  unfolding close_stream
  close_stream-IsShut id s h = record {
    made = ground (arith, h.made);
    closed = ground (arith, h.closed);
    kept = ground (arith, h.kept);
  }

  -- a send into any channel
  sent-IsShut :
      (m : ℕ) (ev : StreamEvent) (s : Streams) {ch : Channel}
      → send (s.channel m) ev ≡ some ch
      → IsShut n evs s
      → IsShut n evs (record s { channel = update s.channel m ch })
  unfolding send
  sent-IsShut m ev s e h = record {
    made = h.made;
    closed = ground (arith, e, h.closed);
    kept = ground (arith, e, h.closed, h.kept);
  }

  on_event-IsShut :
      (id : String) (ev : StreamEvent) (s : Streams) {t : Streams}
      → on_event id ev s ≡ some t
      → IsShut n evs s
      → IsShut n evs t
  unfolding on_event
  on_event-IsShut id ev s {t} e h = elim (Option-cases (get id s.streams)) [
    | inl new ↦
        let same : t ≡ record s { pending = put id (waiting id s ++ ev ∷ []) s.pending } =
          ground arith in
        rw same (record { made = h.made; closed = h.closed; kept = h.kept })
    | inr (m, old) ↦ elim (Option-cases (send (s.channel m) ev)) [
      | inl full ↦ ground arith
      | inr (ch, sent) ↦
          let s' = record s { channel = update s.channel m ch } in
          let shut = sent-IsShut m ev s sent h in
          elim (Bool-cases (is_end ev.typ)) [
            | inl last ↦
                let same : t ≡ close_stream id s' = ground arith in
                rw same (close_stream-IsShut id s' shut)
            | inr more ↦ let same : t ≡ s' = ground arith in rw same shut
          ]
    ]
  ]

  send_event-IsShut :
      (m : ℕ) (ev : StreamEvent) (s : Streams) {t : Streams}
      → send_event m ev s ≡ some t
      → IsShut n evs s
      → IsShut n evs t
  unfolding send_event
  send_event-IsShut m ev s {t} e h = elim (Option-cases (send (s.channel m) ev)) [
    | inl full ↦ ground arith
    | inr (ch, sent) ↦
        let same : t ≡ record s { channel = update s.channel m ch } = ground arith in
        rw same (sent-IsShut m ev s sent h)
  ]

  open_stream-IsShut :
      (id : String) (s : Streams) {t : Streams} {m : ℕ}
      → open_stream id s ≡ some (t, m)
      → IsShut n evs s
      → IsShut n evs t
  unfolding open_stream
  open_stream-IsShut id s {t} e h = elim (Option-cases (send_all fresh (waiting id s))) [
    | inl full ↦ ground arith
    | inr (ch, sent) ↦ elim (Bool-cases (any_end (waiting id s))) [
      | inl whole ↦
          let same : t ≡ ended_state id s ch = ground arith in
          rw same (record {
            made = omega (arith, h.made);
            closed = ground (arith, h.made, h.closed);
            kept = ground (arith, h.made, h.kept);
          })
      | inr part ↦
          let same : t ≡ running_state id s ch = ground arith in
          rw same (record {
            made = omega (arith, h.made);
            closed = ground (arith, h.made, h.closed);
            kept = ground (arith, h.made, h.kept);
          })
    ]
  ]

  take_event-IsShut : (m : ℕ) (s : Streams) → IsShut n evs s → IsShut n evs (take_event m s)
  unfolding take_event
  take_event-IsShut m s h = record {
    made = ground (arith, h.made);
    closed = ground (arith, h.closed);
    kept = ground (arith, h.kept);
  }

  fail_active_streams-IsShut :
      (e : ProviderError) (s : Streams) → IsShut n evs s → IsShut n evs (fail_active_streams e s)
  unfolding fail_active_streams
  fail_active_streams-IsShut e s h =
      let same = fail_all-closed (error_of e) s.streams s.channel n h.closed in
      record { made = h.made; closed = rw same h.closed; kept = rw same h.kept }

  forget_streams-IsShut : (s : Streams) → IsShut n evs s → IsShut n evs (forget_streams s)
  unfolding forget_streams
  forget_streams-IsShut s h = record { made = h.made; closed = h.closed; kept = h.kept }

  shut_channel-IsShut : (m : ℕ) (s : Streams) → IsShut n evs s → IsShut n evs (shut_channel m s)
  unfolding shut_channel
  shut_channel-IsShut m s h = record {
    made = h.made;
    closed = ground (arith, h.closed);
    kept = ground (arith, h.kept);
  }

  Step-IsShut : {s t : Streams} → Step s t → IsShut n evs s → IsShut n evs t
  Step-IsShut {s} (notified id ev e) h = on_event-IsShut id ev s e h
  Step-IsShut {s} (resumed m ev e) h = send_event-IsShut m ev s e h
  Step-IsShut {s} (opened id m e) h = open_stream-IsShut id s e h
  Step-IsShut {s} (canceled id) h = close_stream-IsShut id s h
  Step-IsShut {s} (taken m) h = take_event-IsShut m s h
  Step-IsShut {s} (exited e) h = fail_active_streams-IsShut e s h
  Step-IsShut {s} forgot h = forget_streams-IsShut s h
  Step-IsShut {s} (failed_shut m gone) h = shut_channel-IsShut m s h

  Later-IsShut : {s t : Streams} → Later s t → IsShut n evs s → IsShut n evs t
  Later-IsShut now h = h
  Later-IsShut (then_ l step) h = Step-IsShut step (Later-IsShut l h)

closing-IsShut :
    (id : String) (n : ℕ) (s : Streams)
    → get id s.streams ≡ some n
    → IsOwned s
    → IsShut n (s.channel n).sent (close_stream id s)
unfolding close_stream
closing-IsShut id n s e h = record {
  made = ground (arith, e, h.placed id n e);
  closed = ground (arith, e, eqb_refl n);
  kept = ground (arith, e, eqb_refl n);
}

-- In a reachable state, the first Cancel of the handle of a stream that is in the map asks the plugin once; the channel is closed behind it and never gets another event, whatever steps follow; and a further Cancel, in any state, asks nothing and changes nothing.
pub cancel-IsShut :
    (id : String) (n : ℕ) (s t u : Streams)
    → Reachable s
    → get id s.streams ≡ some n
    → Later (cancel (record { id = id; once = false }) s).streams t
    → ((cancel (record { id = id; once = false }) s).asked ≡ id ∷ [])
      × IsShut n (s.channel n).sent t
      × (cancel (cancel (record { id = id; once = false }) s).handle u
          ≡ record { handle = record { id = id; once = true }; streams = u; asked = [] })
unfolding cancel
cancel-IsShut id n s t u r e later = (
  refl,
  Later-IsShut n (s.channel n).sent later (closing-IsShut id n s e (Reachable-IsOwned r)),
  refl,
)
