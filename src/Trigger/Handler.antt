-- ===== src/Trigger/Handler.antt =====
-- TriggerHandler of operator/internal/server/trigger_handler.go. Traces and logs are left out.
mod Served
pub mod Exhausted
use flokoa.Common.{
  ℕ, List, [], ◌∷◌, ◌++◌, Option, none, some, Text, codes, ◌==◌, Bool, not, ◌||◌, is_empty,
  if◌then◌else◌,
}
use flokoa.Trigger.Config.{TriggerConfig}
use flokoa.Trigger.Limiter.{
  TriggerLimiter, Decision, allowed, invocations_per_hour_exceeded, concurrent_tasks_exceeded,
  check,
}

-- The request; `body` is `none` where reading it fails.
pub record Request : Type 0 where
  pub method : Text
  pub namespace : Text
  pub name : Text
  pub body : Option Text

-- What the handler takes from libraries: whether json.Unmarshal reads a body as a
-- TriggerInvokePayload, the data of the ConfigMap with a namespace and a name, and the configuration
-- that json.Unmarshal makes of a text.
pub record Services : Type 0 where
  pub is_payload : Text → Bool
  pub config_map : Text → Text → Option (List (Text × Text))
  pub parse_config : Text → Option TriggerConfig

-- ConfigMapName of operator/internal/domain/trigger/labels.go.
abbrev pub config_map_name : Text → Text
config_map_name name = codes "agenttrigger-" ++ (name ++ codes "-config")

-- `cm.Data[key]`
abbrev pub data_at : List (Text × Text) → Text → Option Text
data_at [] key = none
data_at ((k, v) ∷ entries) key = if k == key then some v else data_at entries key

infixl 5 ◌>>=◌
abbrev ◌>>=◌ {ℓ κ} : {A : Type ℓ} {B : Type κ} → Option A → (A → Option B) → Option B
none >>= f = none
some a >>= f = f a

unfoldable pub load_trigger_config : Services → Text → Text → Option TriggerConfig
load_trigger_config sv ns name = do
  entries ← sv.config_map ns (config_map_name name)
  text ← data_at entries (codes "config.json")
  sv.parse_config text

abbrev pub method_not_allowed : ℕ
method_not_allowed = 405

abbrev pub bad_request : ℕ
bad_request = 400

abbrev pub config_not_found : ℕ
config_not_found = 404

abbrev pub too_many_requests : ℕ
too_many_requests = 429

abbrev pub ok : ℕ
ok = 200

abbrev pub status_of : Decision → ℕ
status_of allowed = ok
status_of (invocations_per_hour_exceeded n limit) = too_many_requests
status_of (concurrent_tasks_exceeded n limit) = too_many_requests

-- From the body on.
abbrev serve_config : TriggerLimiter → ℕ → Request → Option TriggerConfig → ℕ × TriggerLimiter
serve_config l now r none = (config_not_found, l)
serve_config l now r (some config) =
    let (v, l') = check l now r.name r.namespace config.limits in (status_of v, l')

abbrev serve_body : Services → TriggerLimiter → ℕ → Request → Option Text → ℕ × TriggerLimiter
serve_body sv l now r none = (bad_request, l)
serve_body sv l now r (some text) =
    if not (sv.is_payload text)
    then (bad_request, l)
    else serve_config l now r (load_trigger_config sv r.namespace r.name)

-- ServeHTTP: the status of the answer, and the limiter afterwards.
unfoldable pub serve_http : Services → TriggerLimiter → ℕ → Request → ℕ × TriggerLimiter
unfolding check load_trigger_config
serve_http sv l now r =
    if not (r.method == codes "POST")
    then (method_not_allowed, l)
    else if is_empty r.namespace || is_empty r.name
    then (bad_request, l)
    else serve_body sv l now r r.body
