-- ===== src/Trigger/Config.antt =====
-- The trigger configuration that the server reads (operator/internal/app/trigger/reconcile.go).
use flokoa.Common.{ℤ, List, Option, Text}

-- An int32 or int64 is an integer.
pub record LimitsConfig : Type 0 where
  pub max_invocations_per_hour : Option ℤ
  pub max_concurrent_tasks : Option ℤ
  pub token_budget_per_event : Option ℤ
  pub token_budget_per_hour : Option ℤ

pub record AuthConfig : Type 0 where
  pub schemes : List Text
  pub credentials : Text

pub record PushConfig : Type 0 where
  pub url : Text
  pub authentication : Option AuthConfig
  pub token : Text

pub record TriggerConfig : Type 0 where
  pub agent_endpoint : Text
  pub session_key_from : Text
  pub push_notification_config : Option PushConfig
  pub limits : Option LimitsConfig
  pub metadata : List (Text × Text)
