-- ===== src/Trigger/Handler/Exhausted.antt =====
-- A run of the handler and the limit of concurrent tasks.
use flokoa.Common.{
  ℕ, suc, ◌+◌, ◌^◌, ◌≤◌, ◌<◌, ◌≡◌, ◌≢◌, refl, ap, ◌∙◌, ◌⊎◌, inl, inr, Bool, true, false, ◌&&◌, List,
  [], ◌∷◌, All, Avoids, cut_injective, some, Text, ◌==◌, ==_iff, same_code, count_one, pos,
  to_int32, to_int32-pos, add_one, arith,
}
use flokoa.Trigger.Config.{TriggerConfig, LimitsConfig}
use flokoa.Trigger.Limiter.{
  TriggerLimiter, new_trigger_limiter, counters_of, key_of, prune, verdict, Decision, allowed,
  invocations_per_hour_exceeded, concurrent_tasks_exceeded, check, after_verdict, TriggerCounters,
}
use flokoa.Trigger.Limiter.Frame.{check-verdict, counters_of-check, counters_of-check_other}
use flokoa.Trigger.Limiter.Verdicts.{verdict-concurrent}
use flokoa.Trigger.Handler.{
  Request, Services, load_trigger_config, serve_http, serve_config, status_of, ok,
}
use flokoa.Trigger.Handler.Served.{serve_http-Served}

-- How many of the requests to the trigger a run of the handler answers with 200.
unfoldable pub answered : Services → Text → Text → TriggerLimiter → List (ℕ × Request) → ℕ
answered sv name ns l [] = 0
answered sv name ns l ((now, r) ∷ rs) =
    let served = serve_http sv l now r in
    count_one (same_code served.0 ok && (r.name == name && r.namespace == ns))
    + answered sv name ns served.1 rs

count_and_true : (b : Bool) → count_one (b && true) ≡ count_one b
count_and_true b = ground arith

count_and_false : (b : Bool) → count_one (b && false) ≡ 0
count_and_false b = ground arith

module _ (sv : Services) (name ns : Text) (config : TriggerConfig) (limits : LimitsConfig)
    (at_once : ℕ) where
  -- The server reads, for the trigger, this limit of concurrent tasks.
  pub record IsLimited : Type 0 where
    pub loads : load_trigger_config sv ns name ≡ some config
    pub limited : config.limits ≡ some limits
    pub concurrent : limits.max_concurrent_tasks ≡ some (pos at_once)
    pub concurrent_range : (0 < at_once) × (at_once < 2 ^ 31)

  -- The active tasks of the trigger after a gain.
  abbrev Holds : ℕ → TriggerLimiter → ℕ → Type 0
  Holds running l gain =
      (running + gain ≤ at_once)
      × ((counters_of l (key_of name ns)).active_tasks ≡ pos (running + gain))

  -- One if the request is for the trigger and answered with 200.
  abbrev gain_of : Request → ℕ → ℕ
  gain_of r status = count_one (same_code status ok && (r.name == name && r.namespace == ns))

  -- Whether the limiter allows the trigger's request or not.
  gain_of_verdict :
      (c : TriggerCounters) (now running : ℕ) (v : Decision)
      → IsLimited
      → running ≤ at_once
      → c.active_tasks ≡ pos running
      → verdict (prune now c) limits ≡ v
      → (running + count_one (same_code (status_of v) ok) ≤ at_once)
        × ((after_verdict v now (prune now c)).active_tasks
            ≡ pos (running + count_one (same_code (status_of v) ok)))
  gain_of_verdict c now running allowed h le a e =
      let free =
        verdict-concurrent (prune now c) limits running at_once h.concurrent h.concurrent_range.0 a
          e in
      (
        omega (arith, free),
        ap (λ x. to_int32 (add_one x)) a
            ∙ to_int32-pos (suc running) (omega (arith, free, h.concurrent_range.1))
            ∙ ap pos (omega arith),
      )
  gain_of_verdict c now running (invocations_per_hour_exceeded n limit) h le a e =
      (omega (arith, le), a ∙ ap pos (omega arith))
  gain_of_verdict c now running (concurrent_tasks_exceeded n limit) h le a e =
      (omega (arith, le), a ∙ ap pos (omega arith))

  own_check :
      (l : TriggerLimiter) (now running : ℕ)
      → IsLimited
      → running ≤ at_once
      → (counters_of l (key_of name ns)).active_tasks ≡ pos running
      → Holds running
          (check l now name ns (some limits)).1
          (count_one (same_code (status_of (check l now name ns (some limits)).0) ok))
  own_check l now running h le a =
      let c = counters_of l (key_of name ns) in
      let v = verdict (prune now c) limits in
      let (few, active) = gain_of_verdict c now running v h le a refl in
      rw (check-verdict l now name ns limits, counters_of-check l now name ns limits) (few, active)

  trigger_cases :
      (r : Request)
      → (((r.name == name && r.namespace == ns) ≡ true) × (r.name ≡ name) × (r.namespace ≡ ns))
        ⊎ (((r.name == name && r.namespace == ns) ≡ false)
            × ((r.name ≡ name) → (r.namespace ≡ ns) → ⊥))
  trigger_cases r = ground (arith, ==_iff r.name name, ==_iff r.namespace ns)

  served-Holds :
      (l : TriggerLimiter) (now : ℕ) (r : Request) (running : ℕ) (c : TriggerConfig)
      → IsLimited
      → Avoids b'/' ns
      → Avoids b'/' r.namespace
      → running ≤ at_once
      → (counters_of l (key_of name ns)).active_tasks ≡ pos running
      → load_trigger_config sv r.namespace r.name ≡ some c
      → Holds running
          (serve_config l now r (some c)).1
          (gain_of r (serve_config l now r (some c)).0)
  served-Holds l now r running c h plain plain' le a e = elim (trigger_cases r) [
    | inl (same, n, s) ↦
        let lim : c.limits ≡ some limits = cc in
        rw (same, n, s, lim, count_and_true _) (own_check l now running h le a)
    | inr (other, ne) ↦
        rw
          (
            other,
            count_and_false (same_code (status_of (check l now r.name r.namespace c.limits).0) ok),
            counters_of-check_other l now r.name r.namespace c.limits (key_of name ns) (apart ne),
          )
          (omega (arith, le), a ∙ ap pos (omega arith))
  ]
    where
      apart : (r.name ≡ name → r.namespace ≡ ns → ⊥) → key_of r.name r.namespace ≢ key_of name ns
      apart ne same =
          let (s, n) = cut_injective b'/' r.namespace ns r.name name plain' plain same in ne n s

  serve_http-Holds :
      (l : TriggerLimiter) (now : ℕ) (r : Request) (running : ℕ)
      → IsLimited
      → Avoids b'/' ns
      → Avoids b'/' r.namespace
      → running ≤ at_once
      → (counters_of l (key_of name ns)).active_tasks ≡ pos running
      → Holds running (serve_http sv l now r).1 (gain_of r (serve_http sv l now r).0)
  serve_http-Holds l now r running h plain plain' le a = elim (serve_http-Served sv l now r) [
    | inl (refused, same) ↦ rw (refused, same) (omega (arith, le), a ∙ ap pos (omega arith))
    | inr (c, loads, same) ↦ rw same (served-Holds l now r running c h plain plain' le a loads)
  ]

  answered-le :
      (l : TriggerLimiter) (rs : List (ℕ × Request)) (running : ℕ)
      → IsLimited
      → Avoids b'/' ns
      → All (λ x. Avoids b'/' x.1.namespace) rs
      → running ≤ at_once
      → (counters_of l (key_of name ns)).active_tasks ≡ pos running
      → running + answered sv name ns l rs ≤ at_once
  unfolding answered
  answered-le l [] running h plain plains le a = omega (arith, le)
  answered-le l ((now, r) ∷ rs) running h plain (p, ps) le a =
      let (le', a') = serve_http-Holds l now r running h plain p le a in
      omega (
        arith,
        answered-le (serve_http sv l now r).1 rs (running + gain_of r (serve_http sv l now r).0) h
            plain ps le' a',
      )

-- Where the server reads, for a trigger, a positive limit of concurrent tasks, a handler that starts
-- with a new limiter answers at most that many requests to the trigger with 200, whatever requests
-- come at whatever times. The namespaces of the trigger and of the requests have no slash.
pub serve_http-exhausted :
    (sv : Services) (name ns : Text) (config : TriggerConfig) (limits : LimitsConfig) (at_once : ℕ)
    (rs : List (ℕ × Request))
    → IsLimited sv name ns config limits at_once
    → Avoids b'/' ns
    → All (λ x. Avoids b'/' x.1.namespace) rs
    → answered sv name ns new_trigger_limiter rs ≤ at_once
serve_http-exhausted sv name ns config limits at_once rs h plain plains = omega (
  arith,
  answered-le sv name ns config limits at_once new_trigger_limiter rs 0 h plain plains (omega arith)
      refl,
)
