-- ===== src/Trigger/Limiter/Frame.antt =====
-- What one operation does to the counters of the trigger it names, and to those of others.
use flokoa.Common.{
  ℕ, ◌≡◌, refl, ◌≢◌, Option, none, some, Option-cases, Text, ==_iff, ==_refl, ◌∷◌, if◌then◌else◌,
  is_positive, sub_one, inl, inr, arith,
}
use flokoa.Trigger.Config.{LimitsConfig}
use flokoa.Trigger.Limiter.{
  TriggerCounters, TriggerLimiter, find_counters, counters_of, key_of, prune, verdict,
  after_verdict, check, task_completed,
}

counters_of_same :
    (l : TriggerLimiter) (key : Text) (c : TriggerCounters) → counters_of ((key, c) ∷ l) key ≡ c
counters_of_same l key c = ground (arith, ==_refl key)

counters_of_other :
    (l : TriggerLimiter) (k key : Text) (c : TriggerCounters)
    → k ≢ key
    → counters_of ((k, c) ∷ l) key ≡ counters_of l key
counters_of_other l k key c ne = ground (arith, ==_iff k key)

module _ (l : TriggerLimiter) (now : ℕ) (name ns : Text) where
  pub check-verdict :
      (limits : LimitsConfig)
      → (check l now name ns (some limits)).0
        ≡ verdict (prune now (counters_of l (key_of name ns))) limits
  unfolding check
  check-verdict limits = refl

  pub counters_of-check :
      (limits : LimitsConfig)
      → counters_of (check l now name ns (some limits)).1 (key_of name ns) ≡ (
          let c = prune now (counters_of l (key_of name ns)) in
          after_verdict (verdict c limits) now c)
  unfolding check
  counters_of-check limits = counters_of_same l (key_of name ns) _

  pub counters_of-check_other :
      (limits : Option LimitsConfig) (key : Text)
      → key_of name ns ≢ key
      → counters_of (check l now name ns limits).1 key ≡ counters_of l key
  unfolding check
  counters_of-check_other none key ne = refl
  counters_of-check_other (some limits) key ne = counters_of_other l (key_of name ns) key _ ne

-- The counters after TaskCompleted.
abbrev pub less_active : TriggerCounters → TriggerCounters
less_active c =
    if is_positive c.active_tasks then record c { active_tasks = sub_one c.active_tasks } else c

module _ (l : TriggerLimiter) (name ns : Text) where
  pub counters_of-task_completed :
      counters_of (task_completed l name ns) (key_of name ns)
      ≡ less_active (counters_of l (key_of name ns))
  unfolding task_completed
  counters_of-task_completed = elim (Option-cases (find_counters l (key_of name ns))) [
    | inl e ↦ ground (arith, e)
    | inr (c, e) ↦ ground (arith, e, ==_refl (key_of name ns))
  ]

  pub counters_of-task_completed_other :
      (key : Text)
      → key_of name ns ≢ key
      → counters_of (task_completed l name ns) key ≡ counters_of l key
  unfolding task_completed
  counters_of-task_completed_other key ne = elim (Option-cases (find_counters l (key_of name ns))) [
    | inl e ↦ ground (arith, e)
    | inr (c, e) ↦ ground (arith, e, ==_iff (key_of name ns) key)
  ]
