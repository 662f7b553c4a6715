-- ===== src/Api/Handler/Concurrent.antt =====
-- internal/api/openai.go and internal/trace/trace.go: chatCompletions while other requests are served. Every
-- call that a handler makes of its session is one turn of the service of traces.
use providerapi.Prelude.{
  ℕ, String, ◌≡◌, refl, sym, ap, ◌∙◌, true, false, Option, none, some, List, [], ◌∷◌, ◌++◌, map,
  eq_refl,
}
use providerapi.Dict.{get}
use providerapi.Json.{Json}
use providerapi.Redact.{RawJson}
use providerapi.Protocol.Types.{CompletionRequest, CompletionResponse, StreamEvent}
use providerapi.Plugin.Instance.{Instance}
use providerapi.Plugin.Calls.{returned, outcome}
use providerapi.Trace.Retention.{Retention}
use providerapi.Trace.Store.{RequestRow, Store, get_request}
use providerapi.Trace.Store.Rows.{IsKeyed}
use providerapi.Trace.Session.{Session, is_off, start, service_level}
use providerapi.Trace.Session.Use.{Use, use_, use_all}
use providerapi.Trace.Service.{
  Service, after, new_service, Turn, starts, uses, turn, run_turns, turns_of, Seen, seen,
}
use providerapi.Trace.Service.Apart.{run_turns-Apart}
use providerapi.Api.Stream.Filed.{Carried}
use providerapi.Api.Stream.Written.{panics}
use providerapi.Api.Request.{Outside, Server, Incoming, Served}
use providerapi.Api.Handler.{chat_completions}
use providerapi.Api.Handler.Answers.{Told}
use providerapi.Api.Handler.Kept.{chat_completions-kept}
use providerapi.Api.Handler.Settled.{chat_completions-Settled}

module _ (size : Json → String) (encode : CompletionRequest → Json) (digits : ℕ → String)
    (strip_query : String → String) where
  use_all-append :
      (us : List Use) (u : Use) (s : Session)
      → use_all size encode digits strip_query (us ++ u ∷ []) s
        ≡ use_ size encode digits strip_query u (use_all size encode digits strip_query us s)
  use_all-append [] u s = refl
  use_all-append (v ∷ us) u s = use_all-append us u _

  -- A session that calls of its methods made of another.
  abbrev pub MadeOf : Session → Session → Type 0
  MadeOf s s' = (us : List Use) × (s' ≡ use_all size encode digits strip_query us s)

  MadeOf-use :
      (s : Session) (u : Use) (s' : Session)
      → MadeOf s s'
      → MadeOf s (use_ size encode digits strip_query u s')
  MadeOf-use s u s' (us, made) =
      (us ++ u ∷ [], ap (use_ size encode digits strip_query u) made ∙ sym (use_all-append us u s))

  turn-uses :
      (id : String) (u : Use) (s : Session) (v : Service)
      → turn size encode digits strip_query (uses id u) (after id s v)
        ≡ after id (use_ size encode digits strip_query u s) (after id s v)
  unfolding turn
  turn-uses id u s v = rw (eq_refl id, turn) refl

  -- the turns of one session, without other turns between them
  run_turns-store :
      (id : String) (us : List Use) (s : Session) (v : Service)
      → (run_turns size encode digits strip_query (map (uses id) us) (after id s v)).store
        ≡ (use_all size encode digits strip_query us s).store
  run_turns-store id [] s v = refl
  run_turns-store id (u ∷ us) s v =
      ap (λ w. (run_turns size encode digits strip_query (map (uses id) us) w).store)
        (turn-uses id u s v)
      ∙ run_turns-store id us (use_ size encode digits strip_query u s) (after id s v)

row_of : String → Store → Option RequestRow
row_of id st = get_request id st

row_left : String → Option Session → Option RequestRow
row_left id none = none
row_left id (some s) = get_request id s.store

-- What the administrator sees of a request that was served: its row, finished, and in agreement with the
-- reply; and the plugin has no trace handler of the request left.
pub record ToldOf (r : Incoming) (v : Served) (x : Seen) : Type 0 where
  pub row : RequestRow
  pub found : x.row ≡ some row
  pub at_end : row.finished_at ≡ r.now
  pub told : Told r.gone v.reply row
  pub forgotten : get r.id v.handlers ≡ none

module _ (o : Outside) (r : Incoming) (srv : Server) where
  -- the session that Start gives to the handler
  abbrev pub opened : Session
  opened = start srv.level r.id r.client_id r.started srv.store srv.files

  -- The session that chatCompletions leaves is what calls of the session's methods made of the one that Start gave.
  pub chat_completions-MadeOf :
      (s : Session)
      → (chat_completions o r srv).session ≡ some s
      → MadeOf o.size o.encode o.digits o.strip_query opened s
  chat_completions-MadeOf s left =
      chat_completions-kept o r (MadeOf o.size o.encode o.digits o.strip_query opened)
        (MadeOf-use o.size o.encode o.digits o.strip_query opened) srv s left ([], refl)

  alone-store :
      (level : String) (keep : Retention) (us : List Use)
      → srv.level ≡ service_level level
      → (run_turns o.size o.encode o.digits o.strip_query
          (starts r.id r.client_id r.started ∷ map (uses r.id) us)
          (new_service level keep srv.store srv.files)).store
        ≡ (use_all o.size o.encode o.digits o.strip_query us opened).store
  unfolding turn
  alone-store level keep us same = rw same (
      run_turns-store o.size o.encode o.digits o.strip_query r.id us
        (start (service_level level) r.id r.client_id r.started srv.store srv.files)
        (new_service level keep srv.store srv.files))

  module _ (flush : r.can_flush ≡ true)
      (carried : (i : Instance) (req : CompletionRequest) (events : List StreamEvent)
        → outcome (o.stream i req) ≡ returned events
        → Carried events)
      (sound : (i : Instance) (req : CompletionRequest) (resp : CompletionResponse)
        → outcome (o.complete i req) ≡ returned resp
        → panics resp.usage ≡ false) where
    -- Where traces are on and their service has the server's level, store and files, the table has at most one row
    -- for an id, the body can be read, the response can be flushed, every error event of a plugin's stream
    -- carries an error and no usage that counts has a negative number: in every order of the turns of any
    -- number of sessions in which this request's turns are Start and the calls that chatCompletions makes, and
    -- no sweep runs, the store shows behind the last turn the request's row, finished at the end's time. The
    -- row has the status of a reply that is one answer; of a streamed reply it says canceled with 499 where the
    -- client has gone, and else ok with 200, or that the stream failed. The connection is not hung up, and the
    -- plugin that was called has no trace handler of the request.
    pub chat_completions-ToldOf :
        (level : String) (keep : Retention) (raw : RawJson) (s : Session) (us : List Use)
        (ts : List Turn)
        → r.body ≡ some raw
        → is_off srv.level ≡ false
        → IsKeyed srv.store.requests
        → srv.level ≡ service_level level
        → (chat_completions o r srv).session ≡ some s
        → s ≡ use_all o.size o.encode o.digits o.strip_query us opened
        → turns_of r.id ts ≡ starts r.id r.client_id r.started ∷ map (uses r.id) us
        → ToldOf r (chat_completions o r srv) (
            seen r.id (
              run_turns o.size o.encode o.digits o.strip_query ts
                (new_service level keep srv.store srv.files)))
    unfolding row_of row_left
    chat_completions-ToldOf level keep raw s us ts there on keyed same left made order =
        let settled = chat_completions-Settled o r srv flush carried sound raw there on keyed in
        let alone =
          ap
            (λ order.
              row_of r.id
                (run_turns o.size o.encode o.digits o.strip_query order
                  (new_service level keep srv.store srv.files)).store)
            order
          ∙ ap (row_of r.id)
              (alone-store level keep us same ∙ ap (λ (x : Session). x.store) (sym made)) in
        record {
          row = settled.row;
          found =
              ap (λ (x : Seen). x.row)
                (run_turns-Apart o.size o.encode o.digits o.strip_query r.id level keep srv.store
                  srv.files ts keyed)
              ∙ alone
              ∙ ap (row_left r.id) (sym left ∙ settled.traced)
              ∙ settled.found;
          at_end = settled.at_end;
          told = settled.told;
          forgotten = settled.forgotten;
        }
