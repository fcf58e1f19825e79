-- ===== src/Agent/Providers.antt =====
-- The handlers of providers (operator/internal/domain/model) and ModelProvider.GetProviderType.
use flokoa.Common.{
  List, [], ◌∷◌, ◌++◌, Option, none, some, Text, codes, is_empty, not, ◌||◌, Bool, false, is_set,
  if◌then◌else◌, same_code,
}
use flokoa.Agent.Types.{SecretKeySelector, EnvVar, value, secret, ModelProvider, GoogleProviderSpec}

pub data ProviderType : Type 0 where
  no_provider open_ai anthropic google bedrock : ProviderType

unfoldable pub get_provider_type : ModelProvider → ProviderType
get_provider_type p =
    if is_set p.openai
    then open_ai
    else if is_set p.anthropic
    then anthropic
    else if is_set p.google
    then google
    else if is_set p.bedrock
    then bedrock
    else no_provider

pub record ResolvedProvider : Type 0 where
  pub model_prefix : Text
  pub env_vars : List EnvVar
  pub secret_env_vars : List EnvVar

abbrev pub secret_env : Text → Option SecretKeySelector → List EnvVar
secret_env name none = []
secret_env name (some s) = record { name = name; source = secret s } ∷ []

-- A variable for a text that is set and not empty.
abbrev pub text_env : Text → Text → List EnvVar
text_env name v = if is_empty v then [] else record { name = name; source = value v } ∷ []

abbrev pub opt_env : Text → Option Text → List EnvVar
opt_env name none = []
opt_env name (some v) = text_env name v

abbrev pub is_vertex : GoogleProviderSpec → Bool
is_vertex g = not (is_empty g.project) || is_set g.service_account_key

abbrev pub resolve_google : Option SecretKeySelector → GoogleProviderSpec → ResolvedProvider
resolve_google key g = record {
  model_prefix = if is_vertex g then codes "google-vertex" else codes "google-gla";
  env_vars =
      text_env (codes "GOOGLE_CLOUD_PROJECT") g.project
      ++ text_env (codes "GOOGLE_CLOUD_REGION") g.location;
  secret_env_vars =
      secret_env (codes "GOOGLE_API_KEY") key
      ++ secret_env (codes "GOOGLE_APPLICATION_CREDENTIALS_JSON") g.service_account_key;
}

-- GetProviderHandler and Resolve: the registry has no handler for `no_provider`.
unfoldable pub resolve_provider : ProviderType → ModelProvider → Option ResolvedProvider
resolve_provider no_provider p = none
resolve_provider open_ai p = some (record {
  model_prefix = codes "openai";
  env_vars = opt_env (codes "OPENAI_BASE_URL") p.openai;
  secret_env_vars = secret_env (codes "OPENAI_API_KEY") p.api_key;
})
resolve_provider anthropic p = some (record {
  model_prefix = codes "anthropic";
  env_vars = opt_env (codes "ANTHROPIC_BASE_URL") p.anthropic;
  secret_env_vars = secret_env (codes "ANTHROPIC_API_KEY") p.api_key;
})
resolve_provider google p = elim p.google [
  | some g ↦ some (resolve_google p.api_key g)
  | none ↦ some (record {
    model_prefix = codes "google-gla";
    env_vars = [];
    secret_env_vars = secret_env (codes "GOOGLE_API_KEY") p.api_key;
  })
]
resolve_provider bedrock p = some (record {
  model_prefix = codes "bedrock";
  env_vars = opt_env (codes "AWS_REGION") p.bedrock;
  secret_env_vars = [];
})

-- `strings.Contains(model, ":")`
unfoldable pub has_colon : Text → Bool
has_colon [] = false
has_colon (c ∷ s) = same_code c b':' || has_colon s

unfoldable pub qualified_model_name : Text → Text → Text
unfolding has_colon
qualified_model_name prefix model =
    if has_colon model then model else prefix ++ (codes ":" ++ model)
