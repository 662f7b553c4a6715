-- ===== src/JsonRpc/Order/Notes.antt =====
-- internal/jsonrpc/jsonrpc.go: the notifications that come in, and the goroutines of Serve, which hand on none.
use providerapi.Prelude.{
  ℕ, zero, suc, String, ◌≡◌, refl, false, Option, none, some, List, [], ◌∷◌, ◌++◌, inl, inr, arith,
  Option-cases, All, if◌then◌else◌,
}
use mathlib.Core.Path.{subst}
use providerapi.Json.{Json}
use providerapi.JsonRpc.{
  Request, MessageId, absent, number, raw, Handler, Conn, answer, resolve_call,
}
use providerapi.JsonRpc.Serve.{is_notification, pick, Turn, arrives, fails}

-- The notifications that come out of the decoder in front of its error, in their order.
abbrev pub note : Request → List (String × Option Json)
note msg = if is_notification msg then (msg.method, msg.params) ∷ [] else []

abbrev pub notes : List Turn → List (String × Option Json)
notes [] = []
notes (arrives msg ∷ ts) = note msg ++ notes ts
notes (fails e ∷ ts) = []
notes (_ ∷ ts) = notes ts

-- A goroutine is started for no notification.
abbrev pub IsQuiet : Request → Type 0
IsQuiet msg = is_notification msg ≡ false

pub pick-IsQuiet :
    (n : ℕ) (ms : List Request) {m : Request} {rest : List Request}
    → All IsQuiet ms
    → pick n ms ≡ some (m, rest)
    → IsQuiet m × All IsQuiet rest
pick-IsQuiet n [] h e = ground arith
pick-IsQuiet zero (x ∷ ms) {m} {rest} (p, h) e =
    let first : x ≡ m = ground arith in
    let others : ms ≡ rest = ground arith in (subst IsQuiet first p, subst (All IsQuiet) others h)
pick-IsQuiet (suc n) (x ∷ ms) {m} {rest} (p, h) e = elim (Option-cases (pick n ms)) [
  | inl gone ↦ ground arith
  | inr ((y, others), found) ↦
      let first : y ≡ m = ground (arith, found, e) in
      let left : x ∷ others ≡ rest = ground (arith, found, e) in
      let (q, k) = pick-IsQuiet n ms h found in
      (subst IsQuiet first q, subst (All IsQuiet) left (p, k))
]

pub resolve_call-notified :
    (id : MessageId) (msg : Request) (c : Conn) → (resolve_call id msg c).notified ≡ c.notified
unfolding resolve_call
resolve_call-notified absent msg c = refl
resolve_call-notified (number n) msg c = ground arith
resolve_call-notified (raw s) msg c = refl

pub answer-notified :
    (handler : Option Handler) (msg : Request) (c : Conn)
    → (answer handler msg c).notified ≡ c.notified
unfolding answer
answer-notified none msg c = ground arith
answer-notified (some f) msg c = ground arith
