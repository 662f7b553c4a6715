-- ===== src/Command/Print.antt =====
-- cmd/providerapi/main.go: what `trace` prints.
use providerapi.Prelude.{String, Option, none, some, List, [], ◌∷◌, ◌++◌, map, ◌⊎◌, inl, inr}
use providerapi.Prelude.Sort.{sort}
use providerapi.Text.{text_before, ◌<>◌}
use providerapi.Json.{Json, null, obj, Fields, end, field, get_field}
use providerapi.Command.{Ask, Fetched, admin_get, provider_audit_events, object_of}

module _ (parse : String → Option Json) where
  -- `show` is fmt's %v of a value of a map, `seconds` the duration of a number of milliseconds.
  module _ (show : Option Json → String) (seconds : Option Json → String) where
    abbrev pairs_of : Fields → List (String × Json)
    pairs_of end = []
    pairs_of (field k v m) = (k, v) ∷ pairs_of m

    -- printTraceHeaders, with headerStringMap: the names sorted
    unfoldable pub print_headers : Option Json → List String
    unfolding sort
    print_headers (some (obj (field k v m))) =
        "  headers:"
        ∷ map (λ e. "    " <> (e.0 <> (": " <> show (some e.1))))
            (sort (λ a b. text_before a.0 b.0) (pairs_of (field k v m)))
    print_headers _ = []

    abbrev line_if : String → Option Json → List String
    line_if label none = []
    line_if label (some v) = (label <> show (some v)) ∷ []

    abbrev print_request : Option Fields → List String
    print_request none = []
    print_request (some m) =
        "Provider Request"
        ∷ (line_if "  method: " (get_field "method" m)
            ++ line_if "  url: " (get_field "url" m)
            ++ print_headers (get_field "headers" m)
            ++ "" ∷ [])

    abbrev print_response : Option Fields → List String
    print_response none = []
    print_response (some m) =
        "Provider Response"
        ∷ (line_if "  status: " (get_field "status" m)
            ++ print_headers (get_field "headers" m)
            ++ "" ∷ [])

    -- printProviderHTTP
    unfoldable pub print_provider_http : Fields → List String
    unfolding provider_audit_events print_headers
    print_provider_http data_ =
        let found = provider_audit_events parse data_ in
        print_request found.0 ++ print_response found.1

    abbrev reasoning_line : Option Json → List String
    reasoning_line (some (obj n)) = ("  reasoning: " <> show (get_field "reasoning" n)) ∷ []
    reasoning_line _ = []

    abbrev result_line : Option Json → String
    result_line (some (obj e)) = "  error: " <> show (get_field "message" e)
    result_line _ = "  status: ok"

    -- printTrace
    unfoldable pub print_trace : String → Fields → List String
    unfolding get_field print_provider_http
    print_trace id data_ =
        let client = object_of (get_field "client" data_) in
        let routing = object_of (get_field "routing" data_) in
        let usage = object_of (get_field "usage" data_) in
        ("Request: " <> id)
        ∷ ""
        ∷ "Client"
        ∷ ("  model: " <> show (get_field "model" client))
        ∷ ""
        ∷ "Routing"
        ∷ ("  provider: " <> show (get_field "provider" routing))
        ∷ ("  upstream: " <> show (get_field "upstream_model" routing))
        ∷ (reasoning_line (get_field "normalized" data_)
            ++ ""
              ∷ "Plugin"
              ∷ ("  "
                  <> (show (get_field "plugin" routing)
                      <> ("@" <> show (get_field "plugin_version" routing))))
              ∷ ""
              ∷ "Timing"
              ∷ ("  ttft: " <> (show (get_field "ttft_ms" usage) <> "ms"))
              ∷ ("  total: " <> seconds (get_field "duration_ms" usage))
              ∷ ""
              ∷ "Usage"
              ∷ ("  input: " <> show (get_field "input_tokens" usage))
              ∷ ("  output: " <> show (get_field "output_tokens" usage))
              ∷ ""
              ∷ (print_provider_http data_
                  ++ "Result" ∷ result_line (get_field "error" data_) ∷ []))

    -- cmdTrace behind the flags: the lines that are printed, or an error's text
    unfoldable pub cmd_trace :
        (Ask → Fetched) → String → String → List String → List String ⊎ String
    unfolding admin_get print_trace
    cmd_trace http base token [] = inr "usage: providerapi trace <request-id>"
    cmd_trace http base token (id ∷ args) =
        elim (admin_get http base token ("/admin/requests/" <> id)) [
          | inr e ↦ inr e
          | inl text ↦ elim (parse text) [
            | some (obj data_) ↦ inl (print_trace id data_)
            | some null ↦ inl (print_trace id end)
            | _ ↦ inl (text ∷ [])
          ]
        ]
