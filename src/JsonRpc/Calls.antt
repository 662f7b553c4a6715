-- ===== src/JsonRpc/Calls.antt =====
-- internal/jsonrpc/jsonrpc.go: which call a response reaches, in every interleaving.
use providerapi.Prelude.{
  ℕ, suc, ◌+◌, ◌≤◌, ◌<◌, String, ◌≡◌, refl, ◌∙◌, inl, inr, Bool, true, false, Option, none, some,
  List, [], ◌∷◌, ◌++◌, arith, All, All-append, eqb, if◌then◌else◌, Bool-cases,
}
use providerapi.Text.{is_empty}
use providerapi.Json.{Json}
use providerapi.JsonRpc.{
  Request, MessageId, number, Handler, Conn, new_conn, is_pending, drop_pending, write, close_with,
  answer, resolve_call, dispatch, begin_call, end_call, Action, call, wake, receive, send, close,
  Wake, has_id, context_done, connection_done, response, step, run,
}

-- How often a message was put into the channel of call `n`.
abbrev pub times : ℕ → List (ℕ × Request) → ℕ
times n [] = 0
times n ((m, msg) ∷ rest) = (if eqb m n then 1 else 0) + times n rest

times-append : (n : ℕ) (xs ys : List (ℕ × Request)) → times n (xs ++ ys) ≡ times n xs + times n ys
times-append n [] ys = omega arith
times-append n ((m, msg) ∷ xs) ys = omega (arith, times-append n xs ys)

is_pending-drop_pending :
    (m n : ℕ) (ms : List ℕ)
    → is_pending n (drop_pending m ms) ≡ (if eqb m n then false else is_pending n ms)
unfolding drop_pending
is_pending-drop_pending m n [] = ground arith
is_pending-drop_pending m n (k ∷ ms) = ground (arith, is_pending-drop_pending m n ms)

abbrev open_calls : ℕ → Conn → ℕ
open_calls n c = if is_pending n c.pending then 1 else 0

-- A call is waiting, or has its message, or neither; an id that is not given yet has no part in it; and
-- a message lies in the channel of the call that its id names.
pub record IsSound (c : Conn) : Type 0 where
  pub once : (n : ℕ) → times n c.delivered + open_calls n c ≤ 1
  pub unused : (n : ℕ) → c.next_id < n → times n c.delivered + open_calls n c ≡ 0
  pub matched : All (λ d. d.1.id ≡ number d.0) c.delivered

pub new_conn-IsSound : IsSound new_conn
unfolding new_conn
new_conn-IsSound = record { once = λ n. omega arith; unused = λ n h. refl; matched = tt }

begin_call-IsSound :
    (method : String) (params : Option Json) (c : Conn)
    → IsSound c
    → IsSound (begin_call method params c).0
unfolding begin_call
begin_call-IsSound method params c h = record {
  once = λ n. ground (
    arith,
    h.once n,
    h.unused n,
    is_pending-drop_pending (suc c.next_id) n (suc c.next_id ∷ c.pending),
  );
  unused = λ n lt. ground (
    arith,
    h.once n,
    h.unused n,
    is_pending-drop_pending (suc c.next_id) n (suc c.next_id ∷ c.pending),
  );
  matched = ground (arith, h.matched);
}

resolve_call-IsSound :
    (id : MessageId) (msg : Request) (c : Conn)
    → msg.id ≡ id
    → IsSound c
    → IsSound (resolve_call id msg c)
unfolding resolve_call
resolve_call-IsSound (number n) msg c e h = record {
  once = λ k. ground (
    arith,
    h.once k,
    times-append k c.delivered ((n, msg) ∷ []),
    is_pending-drop_pending n k c.pending,
  );
  unused = λ k lt. ground (
    arith,
    h.unused k,
    h.unused n,
    h.once n,
    times-append k c.delivered ((n, msg) ∷ []),
    is_pending-drop_pending n k c.pending,
  );
  matched = elim (Bool-cases (is_pending n c.pending)) [
    | inl waiting ↦ rw waiting (All-append _ c.delivered ((n, msg) ∷ []) h.matched (e, tt))
    | inr unknown ↦ rw unknown h.matched
  ];
}
resolve_call-IsSound _ msg c e h = h

-- What a turn leaves alone that is not about calls.
abbrev SameCalls : Conn → Conn → Type 0
SameCalls c d = (d.next_id ≡ c.next_id) × (d.pending ≡ c.pending) × (d.delivered ≡ c.delivered)

SameCalls-IsSound : (c d : Conn) → SameCalls c d → IsSound c → IsSound d
SameCalls-IsSound c d (n, p, e) h = record {
  once = λ k. rw (e, p) (h.once k);
  unused = λ k lt. rw (e, p) (h.unused k (rw n at lt));
  matched = rw e h.matched;
}

write-SameCalls : (msg : Request) (c : Conn) → SameCalls c (write msg c).0
unfolding write
write-SameCalls msg c = ground arith

answer-SameCalls :
    (handler : Option Handler) (msg : Request) (c : Conn) → SameCalls c (answer handler msg c)
unfolding answer
answer-SameCalls none msg c = ground arith
answer-SameCalls (some f) msg c = ground arith

close_with-SameCalls : (e : String) (c : Conn) → SameCalls c (close_with e c)
unfolding close_with
close_with-SameCalls e c = ground arith

drop-IsSound :
    (id : ℕ) (c : Conn) → IsSound c → IsSound (record c { pending = drop_pending id c.pending })
drop-IsSound id c h = record {
  once = λ n. ground (arith, h.once n, is_pending-drop_pending id n c.pending);
  unused = λ n lt. ground (arith, h.unused n, is_pending-drop_pending id n c.pending);
  matched = h.matched;
}

module _ (handler : Option Handler) (listening : Bool) where
  dispatch-IsSound :
      (msg : Request) (c : Conn) → IsSound c → IsSound (dispatch handler listening msg c)
  unfolding dispatch
  dispatch-IsSound msg c h = elim (Bool-cases (is_empty msg.method)) [
    | inl reply ↦ rw reply (resolve_call-IsSound msg.id msg c refl h)
    | inr named ↦ elim (Bool-cases (has_id msg.id)) [
      | inl request ↦
          rw (named, request)
            (SameCalls-IsSound c (answer handler msg c) (answer-SameCalls handler msg c) h)
      | inr notification ↦ elim (Bool-cases listening) [
        | inl heard ↦ rw (named, notification, heard) (SameCalls-IsSound c _ (refl, refl, refl) h)
        | inr unheard ↦ rw (named, notification, unheard) h
      ]
    ]
  ]

  wake-IsSound :
      (id : ℕ) (w : Wake) (c : Conn) → IsSound c → IsSound (step handler listening (wake id w) c)
  unfolding step end_call
  wake-IsSound id context_done c h = drop-IsSound id c h
  wake-IsSound id connection_done c h =
      SameCalls-IsSound c (step handler listening (wake id connection_done) c) (ground arith) h
  wake-IsSound id response c h =
      SameCalls-IsSound c (step handler listening (wake id response) c) (ground arith) h

  pub step-IsSound : (a : Action) (c : Conn) → IsSound c → IsSound (step handler listening a c)
  unfolding step
  step-IsSound (call method params) c h = begin_call-IsSound method params c h
  step-IsSound (wake id w) c h = wake-IsSound id w c h
  step-IsSound (receive msg) c h = dispatch-IsSound msg c h
  step-IsSound (send method params) c h = SameCalls-IsSound c _ (write-SameCalls _ c) h
  step-IsSound (close e) c h = SameCalls-IsSound c (close_with e c) (close_with-SameCalls e c) h

  pub run-IsSound :
      (as_ : List Action) (c : Conn) → IsSound c → IsSound (run handler listening as_ c)
  unfolding run
  run-IsSound [] c h = h
  run-IsSound (a ∷ as_) c h = run-IsSound as_ (step handler listening a c) (step-IsSound a c h)

  -- In every interleaving of calls, answers, cancellations and closes, at most one message is ever put into the channel of a call, and that message carries the id of the call.
  pub calls_are_answered_once :
      (as_ : List Action) (n : ℕ)
      → (times n (run handler listening as_ new_conn).delivered ≤ 1)
        × All (λ d. d.1.id ≡ number d.0) (run handler listening as_ new_conn).delivered
  calls_are_answered_once as_ n =
      let h = run-IsSound as_ new_conn new_conn-IsSound in (omega (arith, h.once n), h.matched)

  closed_dispatch :
      (msg : Request) (c : Conn)
      → c.closed ≡ true
      → ((dispatch handler listening msg c).closed ≡ true)
        × ((dispatch handler listening msg c).wire ≡ c.wire)
        × ((dispatch handler listening msg c).close_err ≡ c.close_err)
  unfolding dispatch
  closed_dispatch msg c h = ground arith

  closed_step :
      (a : Action) (c : Conn)
      → c.closed ≡ true
      → ((step handler listening a c).closed ≡ true)
        × ((step handler listening a c).wire ≡ c.wire)
        × ((step handler listening a c).close_err ≡ c.close_err)
  unfolding step
  closed_step (call method params) c h = ground arith
  closed_step (wake id context_done) c h = ground arith
  closed_step (wake id connection_done) c h = ground arith
  closed_step (wake id response) c h = ground arith
  closed_step (receive msg) c h = closed_dispatch msg c h
  closed_step (send method params) c h = ground arith
  closed_step (close e) c h = ground arith

  -- Once a connection is closed nothing is written to it any more, by no interleaving, and the error of
  -- the first close stays.
  pub closed_for_good :
      (as_ : List Action) (c : Conn)
      → c.closed ≡ true
      → ((run handler listening as_ c).closed ≡ true)
        × ((run handler listening as_ c).wire ≡ c.wire)
        × ((run handler listening as_ c).close_err ≡ c.close_err)
  unfolding run
  closed_for_good [] c h = (h, refl, refl)
  closed_for_good (a ∷ as_) c h =
      let (shut, wire, err) = closed_step a c h in
      let (shut', wire', err') = closed_for_good as_ (step handler listening a c) shut in
      (shut', wire' ∙ wire, err' ∙ err)
