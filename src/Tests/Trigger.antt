-- ===== src/Tests/Trigger.antt =====
-- The limiter and the handler on a trigger with both limits.
use flokoa.Common.{
  ◌*◌, ◌≤◌, ◌<◌, ◌≡◌, refl, ◌↔◌, [], ◌∷◌, length, true, some, none, pos, Text, codes, Avoids, arith,
  to_int32, ◌==◌,
}
use flokoa.Trigger.Spec.{AgentTriggerSpec, validate_spec}
use flokoa.Trigger.Spec.Valid.{IsValid, validate_spec-none_iff}
use flokoa.Trigger.Config.{LimitsConfig, TriggerConfig}
use flokoa.Trigger.Limiter.{
  TriggerLimiter, new_trigger_limiter, allowed, check, task_completed, recent, hour,
}
use flokoa.Trigger.Limiter.Reached.{Reached, new, allows, completes}
use flokoa.Trigger.Limiter.Bounds.{HasLimits, Reached-bounds, check-allowed_iff}
use flokoa.Trigger.Handler.{serve_http, Request, Services, load_trigger_config}
use flokoa.Trigger.Handler.Exhausted.{IsLimited, answered, serve_http-exhausted}

abbrev name : Text
name = codes "nightly"

abbrev ns : Text
ns = codes "agents"

abbrev limits : LimitsConfig
limits = record {
  max_invocations_per_hour = some (pos 2);
  max_concurrent_tasks = some (pos 1);
  token_budget_per_event = none;
  token_budget_per_hour = none;
}

abbrev config : TriggerConfig
config = record {
  agent_endpoint = codes "http://summary.agents";
  session_key_from = [];
  push_notification_config = none;
  limits = some limits;
  metadata = [];
}

has_limits : HasLimits limits 2 1
has_limits = record {
  hourly = refl;
  concurrent = refl;
  hourly_range = omega arith;
  concurrent_range = omega arith;
}

-- One invocation, whose task has run.
abbrev after_one : TriggerLimiter
after_one = task_completed (check new_trigger_limiter 5 name ns (some limits)).1 name ns

reached : Reached name ns limits after_one (5 ∷ []) 0 5
unfolding check to_int32
reached = completes (allows 5 new (omega arith) refl)

Reached-bounds_example : (length (recent 5 (5 ∷ [])) ≤ 2) × (0 ≤ 1)
Reached-bounds_example = Reached-bounds name ns limits 2 1 after_one (5 ∷ []) 0 5 has_limits reached

check-allowed_iff_example :
    ((check after_one 9 name ns (some limits)).0 ≡ allowed)
    ↔ ((length (recent 9 (5 ∷ [])) < 2) × (0 < 1))
check-allowed_iff_example =
    check-allowed_iff name ns limits 2 1 after_one (5 ∷ []) 0 5 9 has_limits reached (omega arith)

abbrev services : Services
services = record {
  is_payload = λ text. true;
  config_map = λ ns name. some ((codes "config.json", []) ∷ []);
  parse_config = λ text. some config;
}

abbrev invoke : Request
invoke = record { method = codes "POST"; namespace = ns; name = name; body = some (codes "{}") }

limited : IsLimited services name ns config limits 1
unfolding load_trigger_config ◌==◌
limited = record { loads = refl; limited = refl; concurrent = refl; concurrent_range = omega arith }

plain : Avoids b'/' ns
plain = ground arith

serve_http-exhausted_example :
    answered services name ns new_trigger_limiter ((5, invoke) ∷ (4 * hour, invoke) ∷ []) ≤ 1
serve_http-exhausted_example =
    serve_http-exhausted services name ns config limits 1 ((5, invoke) ∷ (4 * hour, invoke) ∷ [])
      limited plain (plain, (plain, tt))

-- The second request is turned away four hours later.
answered_once :
    answered services name ns new_trigger_limiter ((5, invoke) ∷ (4 * hour, invoke) ∷ []) ≡ 1
unfolding answered serve_http ◌==◌ to_int32
answered_once = refl

abbrev trigger_spec : AgentTriggerSpec
trigger_spec = record {
  event_source = record { name = codes "webhook"; event_name = codes "created" };
  agent_name = codes "helper";
  push_notification = some (record { agent_ref = none; url = codes "http://sink" });
  filter = some (record {
    data_filters = record { path = codes "body"; values = codes "x" ∷ [] } ∷ [];
    exprs = [];
  });
}

validate_spec-none_iff_example : IsValid trigger_spec
unfolding validate_spec
validate_spec-none_iff_example = (validate_spec-none_iff trigger_spec).0 refl
