-- ===== src/Compiler/Argo.antt =====
-- The Argo and Kubernetes objects that the compiler builds, with the fields that it sets. A field
-- that it leaves alone keeps the zero value of the `empty_` record.
use flokoa.Common.{ℤ, Bool, List, [], Option, none, Text}
use flokoa.Api.Task.{EnvVar, SecretSelector, KeySelector}

pub record ValueFrom : Type 0 where
  pub path : Text
  pub expression : Text
  pub supplied : Bool
  pub config_map_key_ref : Option KeySelector

pub record Parameter : Type 0 where
  pub name : Text
  pub default_value : Option Text
  pub value : Option Text
  pub description : Option Text
  pub value_from : Option ValueFrom

-- An artifact with a raw location.
pub record Artifact : Type 0 where
  pub name : Text
  pub raw : Text

pub record Outputs : Type 0 where
  pub parameters : List Parameter
  pub artifacts : List Artifact

pub record Container : Type 0 where
  pub image : Text
  pub command : List Text
  pub args : List Text
  pub env : List EnvVar
  pub working_dir : Text
  pub volume_mounts : List Text
  pub resources : Option Text

pub record ArgoHeader : Type 0 where
  pub name : Text
  pub value : Text
  pub secret_key_ref : Option SecretSelector

pub record Http : Type 0 where
  pub url : Text
  pub method : Text
  pub body : Text
  pub headers : List ArgoHeader
  pub success_condition : Text

pub record Backoff : Type 0 where
  pub duration : Text
  pub factor : Option ℤ

pub record RetryStrategy : Type 0 where
  pub limit : ℤ
  pub backoff : Option Backoff

pub record DagTask : Type 0 where
  pub name : Text
  pub template : Text
  pub dependencies : List Text
  pub when : Text

-- `plugin` is the JSON of the plugin spec, and `dag` the tasks of a DAG template.
pub record Template : Type 0 where
  pub name : Text
  pub active_deadline_seconds : Option ℤ
  pub retry_strategy : Option RetryStrategy
  pub plugin : Option Text
  pub container : Option Container
  pub http : Option Http
  pub script : Option Container
  pub dag : Option (List DagTask)
  pub outputs : Outputs

pub record WorkflowTemplate : Type 0 where
  pub api_version : Text
  pub kind : Text
  pub name : Text
  pub namespace : Text
  pub labels : List (Text × Text)
  pub entrypoint : Text
  pub service_account_name : Text
  pub automount_service_account_token : Option Bool
  pub parameters : List Parameter
  pub active_deadline_seconds : Option ℤ
  pub artifact_gc : Option Text
  pub templates : List Template

abbrev pub empty_value_from : ValueFrom
empty_value_from = record {
  path = [];
  expression = [];
  supplied = Bool.false;
  config_map_key_ref = none;
}

abbrev pub empty_parameter : Parameter
empty_parameter = record {
  name = [];
  default_value = none;
  value = none;
  description = none;
  value_from = none;
}

abbrev pub empty_outputs : Outputs
empty_outputs = record { parameters = []; artifacts = [] }

abbrev pub empty_container : Container
empty_container = record {
  image = [];
  command = [];
  args = [];
  env = [];
  working_dir = [];
  volume_mounts = [];
  resources = none;
}

abbrev pub empty_template : Template
empty_template = record {
  name = [];
  active_deadline_seconds = none;
  retry_strategy = none;
  plugin = none;
  container = none;
  http = none;
  script = none;
  dag = none;
  outputs = empty_outputs;
}
