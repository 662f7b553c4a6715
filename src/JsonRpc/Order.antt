-- ===== src/JsonRpc/Order.antt =====
-- internal/jsonrpc/jsonrpc.go: which notifications Serve hands on, and in which order.
pub mod Notes
use providerapi.Prelude.{
  ℕ, zero, suc, String, ◌≡◌, refl, sym, ap, ◌∙◌, Bool, true, false, Option, none, some, List, [],
  ◌∷◌, ◌++◌, inl, inr, arith, Bool-cases, Option-cases, All, All-append, if◌then◌else◌,
}
use mathlib.Core.Path.{subst}
use mathlib.Core.List.{append-nil, append_assoc}
use providerapi.Text.{is_empty}
use providerapi.Json.{Json}
use providerapi.JsonRpc.{
  Request, MessageId, absent, number, raw, Handler, Conn, has_id, dispatch, answer, resolve_call,
  write, begin_call, end_call, notify, close_with, wake, Wake, context_done, connection_done,
  response, step,
}
use providerapi.JsonRpc.Serve.{
  Reader, is_notification, pick, Turn, arrives, fails, runs, calls, wakes, sends, closes, read,
  read_error, run_picked, turn, serve,
}
use providerapi.JsonRpc.Order.Notes.{
  note, notes, IsQuiet, pick-IsQuiet, resolve_call-notified, answer-notified,
}

module _ (handler : Option Handler) where
  dispatch-quiet :
      (listening : Bool) (msg : Request) (c : Conn)
      → IsQuiet msg
      → (dispatch handler listening msg c).notified ≡ c.notified
  unfolding dispatch
  dispatch-quiet listening msg c e = elim (Bool-cases (is_empty msg.method)) [
    | inl reply ↦ rw reply (resolve_call-notified msg.id msg c)
    | inr named ↦
        let request : has_id msg.id ≡ true = ground (arith, named, e) in
        rw (named, request) (answer-notified handler msg c)
  ]

  dispatch-note :
      (msg : Request) (c : Conn)
      → is_notification msg ≡ true
      → (dispatch handler true msg c).notified ≡ c.notified ++ (msg.method, msg.params) ∷ []
  unfolding dispatch
  dispatch-note msg c e = ground (arith, e)

  -- What Serve hands on from here: nothing behind its end.
  abbrev heard : Option (Option String) → List Turn → List (String × Option Json)
  heard none ts = notes ts
  heard (some e) ts = []

  -- A turn leaves the goroutines without a notification, and hands on what it should.
  record Handed (t : Turn) (ts : List Turn) (r : Reader) : Type 0 where
    quiet : All IsQuiet (turn handler true t r).spawned
    handed :
        (turn handler true t r).conn.notified ++ heard (turn handler true t r).result ts
        ≡ r.conn.notified ++ heard r.result (t ∷ ts)

  read-Handed :
      (msg : Request) (ts : List Turn) (c : Conn) (ms : List Request)
      → All IsQuiet ms
      → Handed (arrives msg) ts (record { conn = c; spawned = ms; result = none })
  unfolding turn read
  read-Handed msg ts c ms h = elim (Bool-cases (is_notification msg)) [
    | inl loud ↦ record {
      quiet = rw loud h;
      handed =
          rw (loud, dispatch-note msg c loud)
            (append_assoc c.notified ((msg.method, msg.params) ∷ []) (notes ts));
    }
    | inr quiet_ ↦ record {
      quiet = rw quiet_ (All-append IsQuiet ms (msg ∷ []) h (quiet_, tt));
      handed = rw quiet_ refl;
    }
  ]

  -- A turn that is not the decoder's hands nothing on, and spawns nothing new.
  other-Handed :
      (t : Turn) (ts : List Turn) (r : Reader)
      → All IsQuiet (turn handler true t r).spawned
      → (turn handler true t r).conn.notified ≡ r.conn.notified
      → (turn handler true t r).result ≡ r.result
      → heard r.result (t ∷ ts) ≡ heard r.result ts
      → Handed t ts r
  other-Handed t ts r quiet same result skipped = record {
    quiet = quiet;
    handed =
        ap (λ n. n ++ heard (turn handler true t r).result ts) same
        ∙ ap (λ o. r.conn.notified ++ heard o ts) result
        ∙ ap (λ l. r.conn.notified ++ l) (sym skipped);
  }

  picked-Handed :
      (n : ℕ) (ts : List Turn) (r : Reader) (o : Option (Request × List Request))
      → pick n r.spawned ≡ o
      → All IsQuiet r.spawned
      → All IsQuiet (run_picked handler true o r).spawned
        × ((run_picked handler true o r).conn.notified ≡ r.conn.notified)
        × ((run_picked handler true o r).result ≡ r.result)
  picked-Handed n ts r none e h = (h, refl, refl)
  picked-Handed n ts r (some (msg, rest)) e h =
      let (q, k) = pick-IsQuiet n r.spawned h e in (k, dispatch-quiet true msg r.conn q, refl)

  heard-skip :
      (o : Option (Option String)) (t : Turn) (ts : List Turn)
      → notes (t ∷ ts) ≡ notes ts
      → heard o (t ∷ ts) ≡ heard o ts
  heard-skip none t ts e = e
  heard-skip (some x) t ts e = refl

  call-notified :
      (method : String) (params : Option Json) (c : Conn)
      → (begin_call method params c).0.notified ≡ c.notified
  unfolding begin_call write
  call-notified method params c = ground arith

  end_call-notified :
      (id : ℕ) (w : Wake) (c : Conn) → (step handler true (wake id w) c).notified ≡ c.notified
  unfolding step end_call
  end_call-notified id context_done c = refl
  end_call-notified id connection_done c = ground arith
  end_call-notified id response c = ground arith

  notify-notified :
      (method : String) (params : Option Json) (c : Conn)
      → (notify method params c).0.notified ≡ c.notified
  unfolding notify write
  notify-notified method params c = ground arith

  close_with-notified : (e : String) (c : Conn) → (close_with e c).notified ≡ c.notified
  unfolding close_with
  close_with-notified e c = ground arith

  arrives-Handed :
      (msg : Request) (ts : List Turn) (c : Conn) (ms : List Request) (o : Option (Option String))
      → All IsQuiet ms
      → Handed (arrives msg) ts (record { conn = c; spawned = ms; result = o })
  unfolding turn
  arrives-Handed msg ts c ms none h = read-Handed msg ts c ms h
  arrives-Handed msg ts c ms (some e) h = record { quiet = h; handed = refl }

  fails-Handed :
      (e : String) (ts : List Turn) (c : Conn) (ms : List Request) (o : Option (Option String))
      → All IsQuiet ms
      → Handed (fails e) ts (record { conn = c; spawned = ms; result = o })
  unfolding turn read_error
  fails-Handed e ts c ms none h = record {
    quiet = h;
    handed = ap (λ n. n ++ []) (close_with-notified e c);
  }
  fails-Handed e ts c ms (some x) h = record { quiet = h; handed = refl }

  turn-Handed : (t : Turn) (ts : List Turn) (r : Reader) → All IsQuiet r.spawned → Handed t ts r
  unfolding turn
  turn-Handed (arrives msg) ts r h = arrives-Handed msg ts r.conn r.spawned r.result h
  turn-Handed (fails e) ts r h = fails-Handed e ts r.conn r.spawned r.result h
  turn-Handed (runs n) ts r h =
      let (q, same, result) = picked-Handed n ts r (pick n r.spawned) refl h in
      other-Handed (runs n) ts r q same result (heard-skip r.result (runs n) ts refl)
  turn-Handed (calls method params) ts r h =
      other-Handed (calls method params) ts r h (call-notified method params r.conn) refl
        (heard-skip r.result (calls method params) ts refl)
  turn-Handed (wakes id w) ts r h =
      other-Handed (wakes id w) ts r h (end_call-notified id w r.conn) refl
        (heard-skip r.result (wakes id w) ts refl)
  turn-Handed (sends method params) ts r h =
      other-Handed (sends method params) ts r h (notify-notified method params r.conn) refl
        (heard-skip r.result (sends method params) ts refl)
  turn-Handed (closes e) ts r h =
      other-Handed (closes e) ts r h (close_with-notified e r.conn) refl
        (heard-skip r.result (closes e) ts refl)

  heard-nil : (o : Option (Option String)) → heard o [] ≡ []
  heard-nil none = refl
  heard-nil (some e) = refl

  serve-heard :
      (ts : List Turn) (r : Reader)
      → All IsQuiet r.spawned
      → (serve handler true ts r).conn.notified ≡ r.conn.notified ++ heard r.result ts
  unfolding serve
  serve-heard [] r h =
      sym (append-nil r.conn.notified) ∙ ap (λ l. r.conn.notified ++ l) (sym (heard-nil r.result))
  serve-heard (t ∷ ts) r h =
      let one = turn-Handed t ts r h in
      serve-heard ts (turn handler true t r) one.quiet ∙ one.handed

  -- In every interleaving of Serve with its goroutines, the callers, the senders and the closes, the notification
  -- handler is called for exactly the notifications that the decoder gives in front of its error, in their order.
  pub serve-notified :
      (ts : List Turn) (c : Conn)
      → (serve handler true ts (record { conn = c; spawned = []; result = none })).conn.notified
        ≡ c.notified ++ notes ts
  serve-notified ts c = serve-heard ts (record { conn = c; spawned = []; result = none }) tt
