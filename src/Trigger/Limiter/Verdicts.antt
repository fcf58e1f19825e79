-- ===== src/Trigger/Limiter/Verdicts.antt =====
-- What an allowed check says about the limits.
use flokoa.Common.{
  ℕ, zero, suc, ◌<◌, ◌≡◌, ◌↔◌, ℤ, pos, to_int32, is_positive, at_least, false, ◌&&◌, length, Option,
  none, some, arith, subst,
}
use flokoa.Trigger.Config.{LimitsConfig}
use flokoa.Trigger.Limiter.{
  TriggerCounters, Decision, allowed, invocations_per_hour_exceeded, concurrent_tasks_exceeded,
  verdict, verdict_under,
}

pos-at_least :
    (n limit : ℕ)
    → 0 < limit
    → ((is_positive (pos limit) && at_least (pos n) (pos limit)) ≡ false) ↔ (n < limit)
pos-at_least n zero h = ground arith
pos-at_least n (suc limit) h = ground arith

pub verdict_under_iff :
    (n limit : ℕ) (error : ℤ → Decision) (rest : Decision)
    → ((x : ℤ) → error x ≡ allowed → ⊥)
    → 0 < limit
    → (verdict_under (some (pos limit)) (pos n) error rest ≡ allowed)
      ↔ ((n < limit) × (rest ≡ allowed))
unfolding verdict_under
verdict_under_iff n limit error rest ne h = ground (arith, pos-at_least n limit h, ne (pos limit))

pub not-per_hour : (n : ℕ) (x : ℤ) → invocations_per_hour_exceeded n x ≡ allowed → ⊥
not-per_hour n x e = cc

pub not-concurrent : (n x : ℤ) → concurrent_tasks_exceeded n x ≡ allowed → ⊥
not-concurrent n x e = cc

pub under_limit :
    (o : Option ℤ) (n : ℤ) (error : ℤ → Decision) (rest : Decision)
    → ((x : ℤ) → error x ≡ allowed → ⊥)
    → verdict_under o n error rest ≡ allowed
    → rest ≡ allowed
unfolding verdict_under
under_limit none n error rest ne e = e
under_limit (some limit) n error rest ne e = ground (arith, ne limit)

-- Whatever the hourly limit, an allowed check has found the limit of concurrent tasks not reached.
pub verdict-concurrent :
    (c : TriggerCounters) (limits : LimitsConfig) (running at_once : ℕ)
    → limits.max_concurrent_tasks ≡ some (pos at_once)
    → 0 < at_once
    → c.active_tasks ≡ pos running
    → verdict c limits ≡ allowed
    → running < at_once
unfolding verdict
verdict-concurrent c limits running at_once set positive a e =
    let rest =
      under_limit limits.max_invocations_per_hour (to_int32 (pos (length c.invocations)))
        (invocations_per_hour_exceeded (length c.invocations)) _
        (not-per_hour (length c.invocations)) e in
    ((verdict_under_iff running at_once (concurrent_tasks_exceeded (pos running)) allowed
        (not-concurrent (pos running)) positive).0
      (subst
        (λ o.
          verdict_under o (pos running) (concurrent_tasks_exceeded (pos running)) allowed ≡ allowed)
        set
        (subst
          (λ x.
            verdict_under limits.max_concurrent_tasks x (concurrent_tasks_exceeded x) allowed
            ≡ allowed)
          a rest))).0
