-- ===== src/JsonRpc.antt =====
-- internal/jsonrpc/jsonrpc.go: one connection. Each method is a function on the connection's state; a
-- goroutine's turn, and the choice of a `select`, is an `Action`, and a run is a list of actions.
pub mod Calls
pub mod Replies
pub mod Serve
pub mod Order
use providerapi.Prelude.{
  ℕ, suc, String, ◌⊎◌, inl, inr, Bool, true, false, Option, none, some, List, [], ◌∷◌, ◌++◌, eqb,
  if◌then◌else◌,
}
use providerapi.Text.{is_empty, ◌<>◌}
use providerapi.Json.{Json, null, obj, end}

-- A message's `id`: not there or null, the number n as encoding/json writes it, or any other text.
pub data MessageId : Type 0 where
  absent : MessageId
  number : ℕ → MessageId
  raw : String → MessageId

-- `payload` is the field Data: `none` where it is empty.
pub record RpcError : Type 0 where
  pub code : String
  pub message : String
  pub payload : Option Json

-- The Request type, which carries responses too.
pub record Request : Type 0 where
  pub id : MessageId
  pub method : String
  pub params : Option Json
  pub result : Option Json
  pub error : Option RpcError

-- What a handler returns: a result, an *Error, or another error.
pub data Outcome : Type 0 where
  success : Option Json → Outcome
  rpc_error : RpcError → Outcome
  failure : String → Outcome

abbrev pub Handler : Type 0
Handler = Request → Outcome

-- `pending` holds the ids whose channel is in the map, `delivered` what was ever sent to a channel, by
-- id and in order, `wire` what was written, `notified` the notifications handed on.
pub record Conn : Type 0 where
  pub next_id : ℕ
  pub pending : List ℕ
  pub delivered : List (ℕ × Request)
  pub closed : Bool
  pub close_err : String
  pub wire : List Request
  pub notified : List (String × Option Json)

unfoldable pub new_conn : Conn
new_conn = record {
  next_id = 0;
  pending = [];
  delivered = [];
  closed = false;
  close_err = "";
  wire = [];
  notified = [];
}

abbrev pub has_id : MessageId → Bool
has_id absent = false
has_id _ = true

abbrev pub is_pending : ℕ → List ℕ → Bool
is_pending n [] = false
is_pending n (m ∷ ms) = if eqb m n then true else is_pending n ms

-- delete(c.pending, key)
unfoldable pub drop_pending : ℕ → List ℕ → List ℕ
drop_pending n [] = []
drop_pending n (m ∷ ms) = let rest = drop_pending n ms in if eqb m n then rest else m ∷ rest

abbrev closed_pipe : String
closed_pipe = "io: read/write on closed pipe"

-- write: the error, or none
unfoldable pub write : Request → Conn → Conn × Option String
write msg c =
    if c.closed then (c, some closed_pipe) else (record c { wire = c.wire ++ msg ∷ [] }, none)

-- closeWith
unfoldable pub close_with : String → Conn → Conn
close_with e c = if c.closed then c else record c { closed = true; close_err = e }

abbrev pub message : MessageId → String → Option Json → Option Json → Option RpcError → Request
message id method params result error = record {
  id = id;
  method = method;
  params = params;
  result = result;
  error = error;
}

unfoldable pub write_result : MessageId → Option Json → Conn → Conn
unfolding write
write_result id result c = (write (message id "" none result none) c).0

unfoldable pub write_error : MessageId → RpcError → Conn → Conn
unfolding write
write_error id e c = (write (message id "" none none (some e)) c).0

unfoldable pub notify : String → Option Json → Conn → Conn × Option String
unfolding write
notify method params c = write (message absent method params none none) c

abbrev pub plain_error : String → String → RpcError
plain_error code text = record { code = code; message = text; payload = none }

-- the answer to a request, as `dispatch` writes it
unfoldable pub answer : Option Handler → Request → Conn → Conn
unfolding write_result write_error
answer none msg c = write_error msg.id (plain_error "-32601" "method not found") c
answer (some handler) msg c = elim (handler msg) [
  | success result ↦ write_result msg.id result c
  | rpc_error e ↦ write_error msg.id e c
  | failure text ↦ write_error msg.id (plain_error "-32000" text) c
]

-- a response: the channel is taken out of the map, and gets the message
unfoldable pub resolve_call : MessageId → Request → Conn → Conn
unfolding drop_pending
resolve_call (number n) msg c =
    if is_pending n c.pending
    then record c { pending = drop_pending n c.pending; delivered = c.delivered ++ (n, msg) ∷ [] }
    else c
resolve_call _ msg c = c

-- dispatch, where `listening` says whether a notification handler is set
unfoldable pub dispatch : Option Handler → Bool → Request → Conn → Conn
unfolding answer resolve_call
dispatch handler listening msg c =
    if is_empty msg.method
    then resolve_call msg.id msg c
    else if has_id msg.id
    then answer handler msg c
    else if listening
    then record c { notified = c.notified ++ (msg.method, msg.params) ∷ [] }
    else c

-- Call, up to its `select`: the id, or the error of the write. Nothing comes between the entry in the pending map
-- and the write, which Call makes under two locks.
unfoldable pub begin_call : String → Option Json → Conn → Conn × (ℕ ⊎ String)
unfolding write drop_pending
begin_call method params c =
    let id = suc c.next_id in
    let c' = record c { next_id = id; pending = id ∷ c.pending } in
    let (c'', e) = write (message (number id) method params none none) c' in
    elim e [
      | none ↦ (c'', inl id)
      | some text ↦ (record c'' { pending = drop_pending id c''.pending }, inr text)
    ]

abbrev pub delivered_to : ℕ → List (ℕ × Request) → Option Request
delivered_to n [] = none
delivered_to n ((m, msg) ∷ rest) = if eqb m n then some msg else delivered_to n rest

pub data CallResult : Type 0 where
  returned : Option Json → CallResult
  remote_error : RpcError → CallResult
  canceled closed_conn : CallResult

-- the results that leave the caller's value as it was
abbrev pub decoded : Option Json → CallResult
decoded none = returned none
decoded (some null) = returned none
decoded (some v) = returned (some v)

abbrev pub read_response : Request → CallResult
read_response msg = elim msg.error [ some e ↦ remote_error e | none ↦ decoded msg.result ]

-- The case that the `select` of Call takes.
pub data Wake : Type 0 where
  context_done connection_done response : Wake

-- Call, from its `select` on; `none` where the case is not ready
unfoldable pub end_call : ℕ → Wake → Conn → Option (Conn × CallResult)
unfolding drop_pending
end_call id context_done c = some (record c { pending = drop_pending id c.pending }, canceled)
end_call id connection_done c = if c.closed then some (c, closed_conn) else none
end_call id response c = elim (delivered_to id c.delivered) [
  | none ↦ none
  | some msg ↦ some (c, read_response msg)
]

-- One turn: a caller's, the reader's with a message, or a close.
pub data Action : Type 0 where
  call : String → Option Json → Action
  wake : ℕ → Wake → Action
  receive : Request → Action
  send : String → Option Json → Action
  close : String → Action

module _ (handler : Option Handler) (listening : Bool) where
  unfoldable pub step : Action → Conn → Conn
  unfolding begin_call end_call dispatch notify close_with
  step (call method params) c = (begin_call method params c).0
  step (wake id w) c = elim (end_call id w c) [ none ↦ c | some (c', r) ↦ c' ]
  step (receive msg) c = dispatch handler listening msg c
  step (send method params) c = (notify method params c).0
  step (close e) c = close_with e c

  unfoldable pub run : List Action → Conn → Conn
  unfolding step
  run [] c = c
  run (a ∷ as_) c = run as_ (step a c)
