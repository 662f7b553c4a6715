-- ===== src/Tests/Concurrent.antt =====
-- Two requests that are traced at the same time into one store, with a sweep between them.
use providerapi.Prelude.{String, ◌≡◌, refl, ap, false, List, [], ◌∷◌, map, ◌==◌, eq_refl}
use providerapi.Prelude.Int.{pos}
use providerapi.Json.{str, obj, field, end}
use providerapi.Redact.{json}
use providerapi.Trace.Retention.{Retention}
use providerapi.Trace.Session.{service_level}
use providerapi.Trace.Session.Use.{Use, noted, answered, ended}
use providerapi.Trace.Service.{Turn, starts, uses, sweeps, new_service, run_turns, turns_of, seen}
use providerapi.Trace.Service.Apart.{run_turns-Apart}
use providerapi.Trace.Store.{empty_store}
use providerapi.Api.Handler.{chat_completions}
use providerapi.Api.Handler.Answers.{Settled}
use providerapi.Api.Handler.Settled.{chat_completions-Settled}
use providerapi.Api.Handler.Concurrent.{
  MadeOf, opened, chat_completions-MadeOf, ToldOf, chat_completions-ToldOf,
}
use providerapi.Tests.Handler.{outside, server, incoming, stream-Carried, complete-plain}
use providerapi.Tests.Traces.{store, store-IsKeyed, ending, size, encode, digits_of}

abbrev keep : Retention
keep = record { rows = pos 20; full = pos 20 }

abbrev turns : List Turn
turns =
    starts "req_8" "" (pos 40)
    ∷ starts "req_9" "" (pos 41)
    ∷ uses "req_8" (noted "stream_start")
    ∷ uses "req_9" (answered (str "hello"))
    ∷ sweeps (λ _. pos 0) (pos 45)
    ∷ uses "req_8" (ended (pos 50) ending)
    ∷ uses "req_9" (ended (pos 51) ending)
    ∷ []

run_turns-Apart_example :
    seen "req_8"
      (run_turns size encode digits_of (λ url. url) turns (new_service "full" keep store []))
    ≡ seen "req_8" (
        run_turns size encode digits_of
          (λ url. url)
          (starts "req_8" "" (pos 40)
            ∷ uses "req_8" (noted "stream_start")
            ∷ sweeps (λ _. pos 0) (pos 45)
            ∷ uses "req_8" (ended (pos 50) ending)
            ∷ [])
          (new_service "full" keep store []))
run_turns-Apart_example =
    run_turns-Apart size encode digits_of (λ url. url) "req_8" "full" keep store [] turns
      store-IsKeyed

-- the turns of a session, each with a turn of another request behind it
abbrev mixed : String → List Use → List Turn
mixed id [] = []
mixed id (u ∷ us) = uses id u ∷ uses "req_9" (noted "stream_start") ∷ mixed id us

turns_of-mixed :
    (id : String) (us : List Use)
    → "req_9" == id ≡ false
    → turns_of id (mixed id us) ≡ map (uses id) us
turns_of-mixed id [] other = refl
turns_of-mixed id (u ∷ us) other = rw (eq_refl id, other, turns_of-mixed id us other) refl

settled : Settled incoming.id incoming.gone incoming.now (chat_completions outside incoming server)
unfolding empty_store
settled =
    chat_completions-Settled outside incoming server refl stream-Carried complete-plain
      (json (obj (field "model" (str "fast") end))) refl refl tt

made :
    MadeOf outside.size outside.encode outside.digits outside.strip_query
      (opened outside incoming server)
      settled.session
made = chat_completions-MadeOf outside incoming server settled.session settled.traced

abbrev busy : List Turn
busy =
    starts "req_9" "" (pos 4)
    ∷ starts incoming.id incoming.client_id incoming.started
    ∷ mixed incoming.id made.0

chat_completions-ToldOf_example : ToldOf incoming (chat_completions outside incoming server) (
    seen "chatcmpl-1" (
      run_turns outside.size outside.encode outside.digits outside.strip_query busy
        (new_service "" keep server.store server.files)))
unfolding empty_store service_level
chat_completions-ToldOf_example =
    chat_completions-ToldOf outside incoming server refl stream-Carried complete-plain "" keep
      (json (obj (field "model" (str "fast") end))) settled.session made.0 busy refl refl tt refl
      settled.traced made.1
      (ap (λ rest. starts incoming.id incoming.client_id incoming.started ∷ rest)
        (turns_of-mixed incoming.id made.0 refl))
