-- ===== src/Trigger/Limiter.antt =====
-- TriggerLimiter of operator/internal/server/trigger_limiter.go. The mutex makes each operation one
-- step on the map of counters. A time is a number of nanoseconds.
pub mod Window
pub mod Frame
pub mod Reached
pub mod Verdicts
pub mod Bounds
use flokoa.Common.{
  ℕ, suc, ◌+◌, ◌*◌, ℤ, pos, to_int32, add_one, sub_one, is_positive, at_least, Bool, false, ◌&&◌,
  List, [], ◌∷◌, ◌++◌, length, Option, none, some, Text, codes, ◌==◌, ltb, if◌then◌else◌,
}
use flokoa.Trigger.Config.{LimitsConfig}

pub record TriggerCounters : Type 0 where
  pub invocations : List ℕ
  pub active_tasks : ℤ

abbrev pub no_counters : TriggerCounters
no_counters = record { invocations = []; active_tasks = pos 0 }

-- The map `counters`; the latest entry of a key stands first.
abbrev pub TriggerLimiter : Type 0
TriggerLimiter = List (Text × TriggerCounters)

abbrev pub new_trigger_limiter : TriggerLimiter
new_trigger_limiter = []

abbrev pub find_counters : TriggerLimiter → Text → Option TriggerCounters
find_counters [] key = none
find_counters ((k, c) ∷ l) key = if k == key then some c else find_counters l key

abbrev pub or_no_counters : Option TriggerCounters → TriggerCounters
or_no_counters none = no_counters
or_no_counters (some c) = c

abbrev pub counters_of : TriggerLimiter → Text → TriggerCounters
counters_of l key = or_no_counters (find_counters l key)

abbrev pub key_of : Text → Text → Text
key_of name ns = ns ++ (codes "/" ++ name)

abbrev pub hour : ℕ
hour = 3600 * 1000000000

-- The invocations after `now.Add(-time.Hour)`; the hour is added on the other side of the test.
unfoldable pub recent : ℕ → List ℕ → List ℕ
recent now [] = []
recent now (t ∷ ts) = let rest = recent now ts in if ltb now (t + hour) then t ∷ rest else rest

-- The errors of Check, with the count and the limit that they name.
pub data Decision : Type 0 where
  allowed : Decision
  invocations_per_hour_exceeded : ℕ → ℤ → Decision
  concurrent_tasks_exceeded : ℤ → ℤ → Decision

-- A limit that is set and positive, and reached. The error takes the limit.
unfoldable pub verdict_under : Option ℤ → ℤ → (ℤ → Decision) → Decision → Decision
verdict_under none n error rest = rest
verdict_under (some limit) n error rest =
    if is_positive limit && at_least n limit then error limit else rest

unfoldable pub verdict : TriggerCounters → LimitsConfig → Decision
unfolding verdict_under
verdict c limits =
    verdict_under limits.max_invocations_per_hour (to_int32 (pos (length c.invocations)))
      (invocations_per_hour_exceeded (length c.invocations))
      (verdict_under limits.max_concurrent_tasks c.active_tasks
        (concurrent_tasks_exceeded c.active_tasks) allowed)

abbrev pub prune : ℕ → TriggerCounters → TriggerCounters
prune now c = record c { invocations = recent now c.invocations }

-- What Check leaves in the counters after the pruning.
abbrev pub after_verdict : Decision → ℕ → TriggerCounters → TriggerCounters
after_verdict allowed now c = record {
  invocations = c.invocations ++ (now ∷ []);
  active_tasks = to_int32 (add_one c.active_tasks);
}
after_verdict (invocations_per_hour_exceeded n limit) now c = c
after_verdict (concurrent_tasks_exceeded n limit) now c = c

unfoldable pub check :
    TriggerLimiter → ℕ → Text → Text → Option LimitsConfig → Decision × TriggerLimiter
unfolding verdict recent
check l now name ns none = (allowed, l)
check l now name ns (some limits) =
    let key = key_of name ns in
    let c = prune now (counters_of l key) in
    let v = verdict c limits in (v, (key, after_verdict v now c) ∷ l)

abbrev complete : TriggerLimiter → Text → Option TriggerCounters → TriggerLimiter
complete l key none = l
complete l key (some c) =
    if is_positive c.active_tasks
    then (key, record c { active_tasks = sub_one c.active_tasks }) ∷ l
    else l

unfoldable pub task_completed : TriggerLimiter → Text → Text → TriggerLimiter
task_completed l name ns = let key = key_of name ns in complete l key (find_counters l key)
