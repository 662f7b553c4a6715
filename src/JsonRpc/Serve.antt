-- ===== src/JsonRpc/Serve.antt =====
-- internal/jsonrpc/jsonrpc.go: Serve, which hands notifications on itself and leaves every other message to a
-- goroutine of its own. The decoder is given by what comes out of it.
use providerapi.Prelude.{
  ℕ, zero, suc, String, Bool, not, ◌&&◌, Option, none, some, List, [], ◌∷◌, ◌++◌, ◌==◌,
  if◌then◌else◌,
}
use providerapi.Text.{is_empty}
use providerapi.Json.{Json}
use providerapi.JsonRpc.{
  Request, Handler, Conn, has_id, dispatch, close_with, call, wake, send, close, Wake, step,
}

-- A connection with its reader: `spawned` are the goroutines that have not run yet, each with its message, and
-- `result` is what Serve has returned, if it has: `none` is no error.
pub record Reader : Type 0 where
  pub conn : Conn
  pub spawned : List Request
  pub result : Option (Option String)

abbrev pub is_notification : Request → Bool
is_notification msg = not (is_empty msg.method) && not (has_id msg.id)

-- the message of a goroutine by its place, and the others
abbrev pub pick : ℕ → List Request → Option (Request × List Request)
pick n [] = none
pick zero (m ∷ ms) = some (m, ms)
pick (suc n) (m ∷ ms) = elim (pick n ms) [ none ↦ none | some (x, rest) ↦ some (x, m ∷ rest) ]

abbrev eof : String
eof = "EOF"

-- What happens: a message comes out of the decoder, or its error; a goroutine runs; or another use of the
-- connection.
pub data Turn : Type 0 where
  arrives : Request → Turn
  fails : String → Turn
  runs : ℕ → Turn
  calls : String → Option Json → Turn
  wakes : ℕ → Wake → Turn
  sends : String → Option Json → Turn
  closes : String → Turn

module _ (handler : Option Handler) (listening : Bool) where
  -- one round of the loop
  unfoldable pub read : Request → Reader → Reader
  unfolding dispatch
  read msg r =
      if is_notification msg
      then record r { conn = dispatch handler listening msg r.conn }
      else record r { spawned = r.spawned ++ msg ∷ [] }

  -- the loop's end
  unfoldable pub read_error : String → Reader → Reader
  unfolding close_with
  read_error e r = record r {
    conn = close_with e r.conn;
    result = some (if e == eof then none else some e);
  }

  abbrev pub run_picked : Option (Request × List Request) → Reader → Reader
  run_picked none r = r
  run_picked (some (msg, rest)) r = record r {
    conn = dispatch handler listening msg r.conn;
    spawned = rest;
  }

  -- `go c.dispatch(msg)`
  unfoldable pub run_spawned : ℕ → Reader → Reader
  unfolding dispatch
  run_spawned n r = run_picked (pick n r.spawned) r

  -- Behind its end Serve reads nothing more.
  unfoldable pub turn : Turn → Reader → Reader
  unfolding read read_error run_spawned step
  turn (arrives msg) r = elim r.result [ none ↦ read msg r | some e ↦ r ]
  turn (fails e) r = elim r.result [ none ↦ read_error e r | some x ↦ r ]
  turn (runs n) r = run_spawned n r
  turn (calls method params) r = record r {
    conn = step handler listening (call method params) r.conn;
  }
  turn (wakes id w) r = record r { conn = step handler listening (wake id w) r.conn }
  turn (sends method params) r = record r {
    conn = step handler listening (send method params) r.conn;
  }
  turn (closes e) r = record r { conn = step handler listening (close e) r.conn }

  unfoldable pub serve : List Turn → Reader → Reader
  unfolding turn
  serve [] r = r
  serve (t ∷ ts) r = serve ts (turn t r)
