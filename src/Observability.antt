-- ===== src/Observability.antt =====
-- internal/observability/metrics.go: the families that New registers, and with which labels
-- internal/api/openai.go, internal/api/admin.go and internal/app/app.go use them. The registry is a third
-- party's: it wants families of different names, and a sample with as many values as its family has labels.
use providerapi.Prelude.{
  String, ◌≡◌, refl, Bool, true, not, ◌&&◌, List, [], ◌∷◌, map, length, any, ◌==◌,
}
use providerapi.Api.Stream.Written.{
  Metric, requests_total, provider_errors, input_tokens, output_tokens, ttft,
}

pub data Kind : Type 0 where
  counter histogram gauge : Kind

pub record Family : Type 0 where
  pub name : String
  pub help : String
  pub kind : Kind
  pub labels : List String

-- Metrics; a gauge without labels is a family with none.
pub record Metrics : Type 0 where
  pub requests : Family
  pub duration : Family
  pub first_token : Family
  pub input : Family
  pub output : Family
  pub errors : Family
  pub health : Family
  pub active : Family

-- New
abbrev pub new_metrics : Metrics
new_metrics = record {
  requests = record {
    name = "providerapi_requests_total";
    help = "Total completion requests";
    kind = counter;
    labels = "provider" ∷ "model" ∷ "status" ∷ [];
  };
  duration = record {
    name = "providerapi_request_duration_seconds";
    help = "End-to-end request duration";
    kind = histogram;
    labels = "provider" ∷ "model" ∷ [];
  };
  first_token = record {
    name = "providerapi_ttft_seconds";
    help = "Time to first token";
    kind = histogram;
    labels = "provider" ∷ "model" ∷ [];
  };
  input = record {
    name = "providerapi_input_tokens_total";
    help = "Input tokens";
    kind = counter;
    labels = "provider" ∷ "model" ∷ [];
  };
  output = record {
    name = "providerapi_output_tokens_total";
    help = "Output tokens";
    kind = counter;
    labels = "provider" ∷ "model" ∷ [];
  };
  errors = record {
    name = "providerapi_provider_errors_total";
    help = "Provider errors";
    kind = counter;
    labels = "provider" ∷ "code" ∷ [];
  };
  health = record {
    name = "providerapi_plugin_health";
    help = "Plugin health (1=healthy)";
    kind = gauge;
    labels = "provider" ∷ [];
  };
  active = record {
    name = "providerapi_active_streams";
    help = "In-flight streams";
    kind = gauge;
    labels = [];
  };
}

-- the call of MustRegister
unfoldable registered : Metrics → List Family
registered m =
    m.requests ∷ m.duration ∷ m.first_token ∷ m.input ∷ m.output ∷ m.errors ∷ m.health ∷ m.active
    ∷ []

abbrev all_differ : List String → Bool
all_differ [] = true
all_differ (s ∷ ss) = not (any (λ t. s == t) ss) && all_differ ss

-- No two of the registered families have one name.
registered_differ : all_differ (map (λ f. f.name) (registered new_metrics)) ≡ true
unfolding registered
registered_differ = refl

-- WithLabelValues, as the handlers call it for a metric: the family and the labels' values
unfoldable sample : Metrics → String → String → Metric → Family × List String
sample m provider model (requests_total status) = (m.requests, provider ∷ model ∷ status ∷ [])
sample m provider model (provider_errors code) = (m.errors, provider ∷ code ∷ [])
sample m provider model (input_tokens n) = (m.input, provider ∷ model ∷ [])
sample m provider model (output_tokens n) = (m.output, provider ∷ model ∷ [])
sample m provider model ttft = (m.first_token, provider ∷ model ∷ [])

-- Every metric that a request leaves goes to a family of New with as many values as the family has labels.
sample_fits :
    (provider model : String) (m : Metric)
    → (let s = sample new_metrics provider model m in length s.1 ≡ length s.0.labels)
unfolding sample
sample_fits provider model (requests_total status) = refl
sample_fits provider model (provider_errors code) = refl
sample_fits provider model (input_tokens n) = refl
sample_fits provider model (output_tokens n) = refl
sample_fits provider model ttft = refl
