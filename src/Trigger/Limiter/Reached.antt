-- ===== src/Trigger/Limiter/Reached.antt =====
-- The states that the limiter reaches, seen from one trigger: any sequence of checks and completions,
-- of this trigger with its limits, and of others with any limits.
use flokoa.Common.{
  ℕ, suc, ◌-◌, ◌≤◌, ◌≡◌, ◌≢◌, refl, ap, ◌∙◌, sym, subst, List, [], ◌∷◌, ◌++◌, Option, some, Text,
}
use flokoa.Trigger.Config.{LimitsConfig}
use flokoa.Trigger.Limiter.{
  TriggerCounters, TriggerLimiter, new_trigger_limiter, no_counters, counters_of, key_of, prune,
  Decision, allowed, invocations_per_hour_exceeded, concurrent_tasks_exceeded, verdict,
  after_verdict, check, task_completed,
}
use flokoa.Trigger.Limiter.Frame.{
  check-verdict, counters_of-check, counters_of-check_other, less_active,
  counters_of-task_completed, counters_of-task_completed_other,
}

module _ (name ns : Text) (limits : LimitsConfig) where
  -- The limiter, the times of the invocations that it allowed, the number of its tasks that run,
  -- and the time of the last check.
  pub data Reached : TriggerLimiter → List ℕ → ℕ → ℕ → Type 0 where
    new : Reached new_trigger_limiter [] 0 0
    allows :
        {l : TriggerLimiter} {log : List ℕ} {running last : ℕ} (now : ℕ)
        → Reached l log running last
        → last ≤ now
        → (check l now name ns (some limits)).0 ≡ allowed
        → Reached (check l now name ns (some limits)).1 (log ++ (now ∷ [])) (suc running) now
    rejects :
        {l : TriggerLimiter} {log : List ℕ} {running last : ℕ} (now : ℕ)
        → Reached l log running last
        → last ≤ now
        → (check l now name ns (some limits)).0 ≢ allowed
        → Reached (check l now name ns (some limits)).1 log running now
    completes :
        {l : TriggerLimiter} {log : List ℕ} {running last : ℕ}
        → Reached l log running last
        → Reached (task_completed l name ns) log (running - 1) last
    other_check :
        {l : TriggerLimiter} {log : List ℕ} {running last : ℕ} (now : ℕ) (name' ns' : Text)
        (limits' : Option LimitsConfig)
        → Reached l log running last
        → last ≤ now
        → key_of name' ns' ≢ key_of name ns
        → Reached (check l now name' ns' limits').1 log running now
    other_completes :
        {l : TriggerLimiter} {log : List ℕ} {running last : ℕ} (name' ns' : Text)
        → Reached l log running last
        → key_of name' ns' ≢ key_of name ns
        → Reached (task_completed l name' ns') log running last

  -- A property of the trigger's own counters that every operation keeps.
  pub record IsInvariant (K : TriggerCounters → List ℕ → ℕ → ℕ → Type 0) : Type 0 where
    pub start : K no_counters [] 0 0
    pub waits :
        (c : TriggerCounters) (log : List ℕ) (running last now : ℕ)
        → last ≤ now
        → K c log running last
        → K c log running now
    pub prunes :
        (c : TriggerCounters) (log : List ℕ) (running now : ℕ)
        → K c log running now
        → K (prune now c) log running now
    pub records :
        (c : TriggerCounters) (log : List ℕ) (running now : ℕ)
        → K c log running now
        → verdict (prune now c) limits ≡ allowed
        → K (after_verdict allowed now (prune now c)) (log ++ (now ∷ [])) (suc running) now
    pub finishes :
        (c : TriggerCounters) (log : List ℕ) (running last : ℕ)
        → K c log running last
        → K (less_active c) log (running - 1) last

  after_rejection :
      (v : Decision) (now : ℕ) (c : TriggerCounters) → v ≢ allowed → after_verdict v now c ≡ c
  after_rejection allowed now c h = absurd (h refl)
  after_rejection (invocations_per_hour_exceeded n limit) now c h = refl
  after_rejection (concurrent_tasks_exceeded n limit) now c h = refl

  pub Reached-invariant :
      {K : TriggerCounters → List ℕ → ℕ → ℕ → Type 0} {l : TriggerLimiter} {log : List ℕ}
      {running last : ℕ}
      → IsInvariant K
      → Reached l log running last
      → K (counters_of l (key_of name ns)) log running last
  Reached-invariant i new = i.start
  Reached-invariant {K = K} i (allows {l} {log} {running} {last} now r le e) =
      let c = counters_of l (key_of name ns) in
      let v : verdict (prune now c) limits ≡ allowed =
        sym (check-verdict l now name ns limits) ∙ e in
      subst (λ x. K x (log ++ (now ∷ [])) (suc running) now)
        (sym
          (counters_of-check l now name ns limits ∙ ap (λ x. after_verdict x now (prune now c)) v))
        (i.records c log running now (i.waits c log running last now le (Reached-invariant i r)) v)
  Reached-invariant {K = K} i (rejects {l} {log} {running} {last} now r le e) =
      let c = counters_of l (key_of name ns) in
      subst (λ x. K x log running now)
        (sym (
          counters_of-check l now name ns limits
          ∙ after_rejection (verdict (prune now c) limits) now (prune now c)
              (λ same. e (check-verdict l now name ns limits ∙ same))))
        (i.prunes c log running now (i.waits c log running last now le (Reached-invariant i r)))
  Reached-invariant {K = K} i (completes {l} {log} {running} {last} r) =
      subst (λ x. K x log (running - 1) last) (sym (counters_of-task_completed l name ns))
        (i.finishes (counters_of l (key_of name ns)) log running last (Reached-invariant i r))
  Reached-invariant {K = K} i
        (other_check {l} {log} {running} {last} now name' ns' limits' r le ne) =
      subst (λ x. K x log running now)
        (sym (counters_of-check_other l now name' ns' limits' (key_of name ns) ne))
        (i.waits (counters_of l (key_of name ns)) log running last now le (Reached-invariant i r))
  Reached-invariant {K = K} i (other_completes {l} {log} {running} {last} name' ns' r ne) =
      subst (λ x. K x log running last)
        (sym (counters_of-task_completed_other l name' ns' (key_of name ns) ne))
        (Reached-invariant i r)
