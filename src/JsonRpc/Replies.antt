-- ===== src/JsonRpc/Replies.antt =====
-- internal/jsonrpc/jsonrpc.go: what a caller gets for what a handler returns.
use providerapi.Prelude.{
  ℕ, ◌≡◌, refl, ap, ◌∙◌, Bool, true, false, Option, none, some, List, [], ◌∷◌, ◌++◌, arith,
  eqb_refl,
}
use providerapi.Text.{is_empty}
use providerapi.JsonRpc.{
  Request, MessageId, number, Outcome, success, rpc_error, failure, Handler, Conn, is_pending,
  write, write_result, write_error, answer, resolve_call, dispatch, delivered_to, CallResult,
  remote_error, decoded, read_response, response, end_call, plain_error, message,
}
use providerapi.JsonRpc.Calls.{times, IsSound}

-- The result of a call for a handler's outcome.
abbrev pub result_of : Outcome → CallResult
result_of (success v) = decoded v
result_of (rpc_error e) = remote_error e
result_of (failure text) = remote_error (plain_error "-32000" text)

-- The message that answers a request.
abbrev reply_of : MessageId → Outcome → Request
reply_of id (success v) = message id "" none v none
reply_of id (rpc_error e) = message id "" none none (some e)
reply_of id (failure text) = message id "" none none (some (plain_error "-32000" text))

read_response-reply_of :
    (id : MessageId) (o : Outcome) → read_response (reply_of id o) ≡ result_of o
read_response-reply_of id (success v) = refl
read_response-reply_of id (rpc_error e) = refl
read_response-reply_of id (failure text) = refl

delivered_to-append :
    (n : ℕ) (ds : List (ℕ × Request)) (msg : Request)
    → times n ds ≡ 0
    → delivered_to n (ds ++ (n, msg) ∷ []) ≡ some msg
delivered_to-append n [] msg h = rw (eqb_refl n) refl
delivered_to-append n ((m, old) ∷ ds) msg h = ground (arith, delivered_to-append n ds msg)

answer-wire :
    (o : Outcome) (h : Handler) (req : Request) (c : Conn)
    → h req ≡ o
    → c.closed ≡ false
    → (answer (some h) req c).wire ≡ c.wire ++ reply_of req.id o ∷ []
unfolding answer write_result write_error write
answer-wire (success v) h req c e live = ground arith
answer-wire (rpc_error x) h req c e live = ground arith
answer-wire (failure text) h req c e live = ground arith

dispatch-reply_of :
    (handler : Option Handler) (listening : Bool) (n : ℕ) (o : Outcome) (d : Conn)
    → dispatch handler listening (reply_of (number n) o) d
      ≡ resolve_call (number n) (reply_of (number n) o) d
unfolding dispatch
dispatch-reply_of handler listening n (success v) d = refl
dispatch-reply_of handler listening n (rpc_error e) d = refl
dispatch-reply_of handler listening n (failure text) d = refl

end_call-resolve_call :
    (n : ℕ) (msg : Request) (d : Conn)
    → is_pending n d.pending ≡ true
    → times n d.delivered ≡ 0
    → end_call n response (resolve_call (number n) msg d)
      ≡ some (resolve_call (number n) msg d, read_response msg)
unfolding end_call resolve_call
end_call-resolve_call n msg d waits new = ground (arith, delivered_to-append n d.delivered msg new)

-- A request whose id is the number of a call that waits is answered by an open connection with one
-- message; when the caller's reader gets that message, the call ends with the handler's own result.
pub answer_reaches_caller :
    (h : Handler) (req : Request) (n : ℕ) (l : Bool) (c : Conn) (client : Option Handler) (k : Bool)
    (d : Conn)
    → is_empty req.method ≡ false
    → req.id ≡ number n
    → c.closed ≡ false
    → is_pending n d.pending ≡ true
    → IsSound d
    → (w : Request) × ((dispatch (some h) l req c).wire ≡ c.wire ++ w ∷ [])
      × (end_call n response (dispatch client k w d)
          ≡ some (dispatch client k w d, result_of (h req)))
unfolding dispatch
answer_reaches_caller h req n l c client k d named numbered live waits sound =
    let w = reply_of (number n) (h req) in
    let new : times n d.delivered ≡ 0 = ground (arith, sound.once n) in
    let answered : (dispatch (some h) l req c).wire ≡ (answer (some h) req c).wire = ground arith in
    (
      w,
      answered
          ∙ answer-wire (h req) h req c refl live
          ∙ ap (λ i. c.wire ++ reply_of i (h req) ∷ []) numbered,
      rw
          (
            dispatch-reply_of client k n (h req) d,
            end_call-resolve_call n w d waits new,
            read_response-reply_of (number n) (h req),
          )
          refl,
    )
