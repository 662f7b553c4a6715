-- ===== src/Api/Chat/Refusal.antt =====
-- internal/api/openai.go: the errors with which chatCompletions refuses a request.
use providerapi.Prelude.{
  String, ◌≡◌, ◌⊎◌, refl, false, eqb, inl, inr, Bool-cases, Option-cases, arith,
}
use providerapi.Text.{is_empty}
use providerapi.Dict.{Dict, get}
use providerapi.Json.{Json}
use providerapi.Config.{Config}
use providerapi.Protocol.Types.{ProviderError}
use providerapi.Protocol.Errors.{invalid_request, new_provider_error, model_not_found}
use providerapi.Model.{Resolved, Resolution, resolved, refused, resolve}
use providerapi.Plugin.Instance.{Instance}
use providerapi.Protocol.Types.{ReasoningLevel, reasoning_default}
use providerapi.Plugin.Manager.{get_instance}
use providerapi.Api.Chat.{
  ChatIn, Choice, chosen, rejected, parse_or, request_level, reject, route_request,
}

-- an error that names its own status
abbrev pub HasStatus : ProviderError → Type 0
HasStatus pe = eqb pe.http_status 0 ≡ false

Choice-cases :
    (c : Choice)
    → ((pe : ProviderError) × (c ≡ rejected pe)) ⊎ ((level : ReasoningLevel) × (c ≡ chosen level))
Choice-cases (chosen level) = inr (level, refl)
Choice-cases (rejected pe) = inl (pe, refl)

Resolution-cases :
    (c : Resolution)
    → ((pe : ProviderError) × (c ≡ refused pe)) ⊎ ((r : Resolved) × (c ≡ resolved r))
Resolution-cases (resolved r) = inr (r, refl)
Resolution-cases (refused pe) = inl (pe, refl)

parse_or-HasStatus :
    (text complaint otherwise : String) (pe : ProviderError)
    → parse_or text complaint otherwise ≡ rejected pe
    → HasStatus pe
unfolding parse_or invalid_request
parse_or-HasStatus text complaint otherwise pe h = ground arith

request_level-HasStatus :
    (in_ : ChatIn) (pe : ProviderError) → request_level in_ ≡ rejected pe → HasStatus pe
unfolding request_level
request_level-HasStatus in_ pe h =
    elim (Choice-cases
      (parse_or in_.reasoning_effort "invalid reasoning_effort" reasoning_default)) [
        | inl (first, e) ↦
            let same : first ≡ pe = ground (arith, h, e) in
            parse_or-HasStatus in_.reasoning_effort "invalid reasoning_effort" reasoning_default pe
              (rw same at e)
        | inr (level, e) ↦
            parse_or-HasStatus in_.reasoning "invalid reasoning.effort" level pe
              (rw (e, request_level) at h)
      ]

resolve-HasStatus :
    (cfg : Config) (model level : String) (pe : ProviderError)
    → resolve cfg model level ≡ refused pe
    → HasStatus pe
unfolding resolve model_not_found invalid_request
resolve-HasStatus cfg model level pe h = elim (Option-cases (get model cfg.models)) [
  | inl missing ↦ ground arith
  | inr (alias, there) ↦ ground arith
]

pub route_request-HasStatus :
    (cfg : Config) (instances : Dict Instance) (id : String) (in_ : ChatIn) (extra : Dict Json)
    (pe : ProviderError)
    → route_request cfg instances id in_ extra ≡ reject pe
    → HasStatus pe
unfolding route_request invalid_request new_provider_error
route_request-HasStatus cfg instances id in_ extra pe h = elim (Bool-cases (is_empty in_.model)) [
  | inl unnamed ↦ ground (arith, h, unnamed)
  | inr named ↦ elim (Choice-cases (request_level in_)) [
    | inl (e, bad) ↦
        let same : e ≡ pe = ground (arith, h, named, bad) in
        request_level-HasStatus in_ pe (rw same at bad)
    | inr (level, good) ↦ elim (Resolution-cases (resolve cfg in_.model level)) [
      | inl (e, bad) ↦
          let same : e ≡ pe = ground (arith, h, named, good, bad) in
          resolve-HasStatus cfg in_.model level pe (rw same at bad)
      | inr (r, found) ↦ elim (Option-cases (get_instance r.provider instances)) [
        | inl stopped ↦ ground (arith, h, named, good, found, stopped)
        | inr (i, running) ↦ ground (arith, h, named, good, found, running)
      ]
    ]
  ]
]
