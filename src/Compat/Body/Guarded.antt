-- ===== src/Compat/Body/Guarded.antt =====
-- plugins/openai-compat/main.go: what no entry of the reasoning map can change in a body.
use providerapi.Prelude.{
  String, ◌≡◌, refl, ◌∙◌, Bool, true, false, Option, none, some, map, arith, ◌==◌, inl, inr,
  eq_refl, Option-cases,
}
use providerapi.Prelude.Int.{ℤ}
use providerapi.Dict.{get}
use providerapi.Json.{Json, null, bool, num, str, arr, obj, Fields, end, get_field, items_of}
use providerapi.Json.Merge.{IsMap}
use providerapi.Protocol.Types.{CompletionRequest}
use providerapi.Protocol.Content.{opt_field}
use providerapi.Compat.Body.{
  InstanceConfig, is_listed, deep_merge, body, guarded_keys, message_item, tools_field,
  stream_options, number_text, number_field, base_body, level_or_default, apply_patch, build_body,
}
use providerapi.Compat.Body.Merge.{get_field-deep_merge}

get_field-opt_field :
    (k j : String) (o : Option Json) (rest : Fields)
    → (k == j) ≡ false
    → get_field j (opt_field k o rest) ≡ get_field j rest
unfolding get_field
get_field-opt_field k j none rest other = refl
get_field-opt_field k j (some v) rest other = rw other refl

get_field-opt_field_self :
    (k : String) (o : Option Json) (rest : Fields)
    → get_field k rest ≡ none
    → get_field k (opt_field k o rest) ≡ o
unfolding get_field
get_field-opt_field_self k none rest h = h
get_field-opt_field_self k (some v) rest h = rw (eq_refl k) refl

module _ (decimal : ℤ → String) where
  get_field-apply_patch :
      (o : Option Json) (base b : Fields) (k : String)
      → ((src : Fields) → o ≡ some (obj src) → IsMap src)
      → is_listed k guarded_keys ≡ true
      → apply_patch decimal o base ≡ body b
      → get_field k b ≡ get_field k base
  unfolding apply_patch
  get_field-apply_patch none base b k m g e = ground arith
  get_field-apply_patch (some null) base b k m g e = ground arith
  get_field-apply_patch (some (obj src)) base b k m g e =
      let same : b ≡ deep_merge guarded_keys base src = ground arith in
      rw same (get_field-deep_merge guarded_keys base src k (m src refl) ∙ rw g refl)
  get_field-apply_patch (some (bool v)) base b k m g e = ground arith
  get_field-apply_patch (some (num v)) base b k m g e = ground arith
  get_field-apply_patch (some (str v)) base b k m g e = ground arith
  get_field-apply_patch (some (arr v)) base b k m g e = ground arith

  get_field_tools-base_body :
      (req : CompletionRequest) (stream : Bool)
      → get_field "tools" (base_body decimal req stream) ≡ tools_field decimal req.tools
  unfolding base_body get_field
  get_field_tools-base_body req stream =
      get_field-opt_field "stream_options" "tools" (stream_options decimal stream) _ refl
      ∙ get_field-opt_field "temperature" "tools" (number_text decimal req.temperature) _ refl
      ∙ get_field-opt_field "max_tokens" "tools" (number_field decimal req.max_tokens) _ refl
      ∙ get_field-opt_field_self "tools" (tools_field decimal req.tools) _
          (get_field-opt_field "tool_choice" "tools" req.tool_choice end refl)

  -- The model, the messages, the tools and the stream flag of a body.
  pub record Asks (req : CompletionRequest) (stream : Bool) (b : Fields) : Type 0 where
    pub model : get_field "model" b ≡ some (str req.model)
    pub messages :
        get_field "messages" b ≡ some (arr (items_of (map (message_item decimal) req.messages)))
    pub tools : get_field "tools" b ≡ tools_field decimal req.tools
    pub stream_flag : get_field "stream" b ≡ some (bool stream)

  base_body-Asks :
      (req : CompletionRequest) (stream : Bool) → Asks req stream (base_body decimal req stream)
  unfolding base_body get_field
  base_body-Asks req stream = record {
    model = refl;
    messages = refl;
    tools = get_field_tools-base_body req stream;
    stream_flag = refl;
  }

  -- A body that buildBody returns asks for the model, the messages, the tools and the streaming that the
  -- request asks for, whatever the instance's reasoning map holds for the level.
  pub build_body-Asks :
      (cfg : InstanceConfig) (req : CompletionRequest) (stream : Bool) (b : Fields)
      → ((src : Fields)
          → get (level_or_default decimal req.reasoning) cfg.reasoning_map ≡ some (obj src)
          → IsMap src)
      → build_body decimal cfg req stream ≡ body b
      → Asks req stream b
  unfolding build_body
  build_body-Asks cfg req stream b m e =
      let base = base_body decimal req stream in
      let asks = base_body-Asks req stream in
      elim (Option-cases (get (level_or_default decimal req.reasoning) cfg.reasoning_map)) [
        | inl unmapped ↦ let same : b ≡ base = ground arith in rw same asks
        | inr (p, mapped) ↦
            let patched : apply_patch decimal (some p) base ≡ body b = ground arith in
            let kept : (k : String)
                → is_listed k guarded_keys ≡ true
                → get_field k b ≡ get_field k base =
              λ k g.
                get_field-apply_patch (some p) base b k (λ src q. m src (mapped ∙ q)) g patched in
            record {
              model = kept "model" refl ∙ asks.model;
              messages = kept "messages" refl ∙ asks.messages;
              tools = kept "tools" refl ∙ asks.tools;
              stream_flag = kept "stream" refl ∙ asks.stream_flag;
            }
      ]
