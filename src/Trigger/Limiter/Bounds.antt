-- ===== src/Trigger/Limiter/Bounds.antt =====
-- The limits of a trigger over the states that the limiter reaches.
use flokoa.Common.{
  ℕ, zero, suc, ◌-◌, ◌^◌, ◌≤◌, ◌<◌, ◌≡◌, refl, ap, sym, ◌∙◌, ◌↔◌, pos, to_int32, to_int32-pos,
  add_one, is_positive, List, [], ◌∷◌, ◌++◌, length, length-append, some, Text, arith, subst,
}
use flokoa.Trigger.Config.{LimitsConfig}
use flokoa.Trigger.Limiter.{
  TriggerCounters, TriggerLimiter, counters_of, key_of, prune, allowed,
  invocations_per_hour_exceeded, concurrent_tasks_exceeded, verdict, verdict_under, after_verdict,
  check, recent,
}
use flokoa.Trigger.Limiter.Verdicts.{verdict_under_iff, not-per_hour, not-concurrent}
use flokoa.Trigger.Limiter.Window.{recent-append, recent-recent, length-recent-le, length-recent}
use flokoa.Trigger.Limiter.Frame.{check-verdict, less_active}
use flokoa.Trigger.Limiter.Reached.{Reached, IsInvariant, Reached-invariant}

-- Both limits are set, to positive numbers of 32 bits.
pub record HasLimits (limits : LimitsConfig) (per_hour at_once : ℕ) : Type 0 where
  pub hourly : limits.max_invocations_per_hour ≡ some (pos per_hour)
  pub concurrent : limits.max_concurrent_tasks ≡ some (pos at_once)
  pub hourly_range : (0 < per_hour) × (per_hour < 2 ^ 31)
  pub concurrent_range : (0 < at_once) × (at_once < 2 ^ 31)

less_active-pos :
    (c : TriggerCounters) (n : ℕ)
    → c.active_tasks ≡ pos n
    → ((less_active c).active_tasks ≡ pos (n - 1)) × ((less_active c).invocations ≡ c.invocations)
less_active-pos c zero e = rw (e, is_positive) (refl, refl)
less_active-pos c (suc n) e = rw (e, is_positive) (ap pos (omega arith), refl)

module _ (limits : LimitsConfig) (per_hour at_once : ℕ)
    (h : HasLimits limits per_hour at_once) where
  verdict_iff :
      (c : TriggerCounters) (running : ℕ)
      → length c.invocations ≤ per_hour
      → c.active_tasks ≡ pos running
      → (verdict c limits ≡ allowed) ↔ ((length c.invocations < per_hour) × (running < at_once))
  unfolding verdict
  verdict_iff c running le a =
      rw
        (
          h.hourly,
          h.concurrent,
          a,
          to_int32-pos (length c.invocations) (omega (arith, le, h.hourly_range.1)),
        )
        (ground (
          arith,
          verdict_under_iff (length c.invocations) per_hour
              (invocations_per_hour_exceeded (length c.invocations))
              (verdict_under (some (pos at_once)) (pos running)
                (concurrent_tasks_exceeded (pos running)) allowed)
              (not-per_hour (length c.invocations)) h.hourly_range.0,
          verdict_under_iff running at_once (concurrent_tasks_exceeded (pos running)) allowed
              (not-concurrent (pos running)) h.concurrent_range.0,
        ))

  -- The counters hold what matters of the history.
  record Tracks (c : TriggerCounters) (log : List ℕ) (running last : ℕ) : Type 0 where
    window : (t : ℕ) → last ≤ t → recent t c.invocations ≡ recent t log
    few : length (recent last log) ≤ per_hour
    active : c.active_tasks ≡ pos running
    running_le : running ≤ at_once

  room :
      (c : TriggerCounters) (log : List ℕ) (running now : ℕ)
      → Tracks c log running now
      → (verdict (prune now c) limits ≡ allowed)
        ↔ ((length (recent now log) < per_hour) × (running < at_once))
  room c log running now k =
      let same = ap length (k.window now (omega arith)) in
      subst (λ n. (verdict (prune now c) limits ≡ allowed) ↔ ((n < per_hour) × (running < at_once)))
        same (verdict_iff (prune now c) running (omega (arith, same, k.few)) k.active)

  Tracks-records :
      (c : TriggerCounters) (log : List ℕ) (running now : ℕ)
      → Tracks c log running now
      → verdict (prune now c) limits ≡ allowed
      → Tracks (after_verdict allowed now (prune now c)) (log ++ (now ∷ [])) (suc running) now
  Tracks-records c log running now k v =
      let (below, free) = (room c log running now k).0 v in
      record {
        window = λ t after.
            recent-append t (recent now c.invocations) (now ∷ [])
            ∙ ap (λ ts. ts ++ recent t (now ∷ []))
                (recent-recent now t c.invocations after ∙ k.window t after)
            ∙ sym (recent-append t log (now ∷ []));
        few = omega (
          arith,
          ap length (recent-append now log (now ∷ [])),
          length-append (recent now log) (recent now (now ∷ [])),
          length-recent now (now ∷ []),
          below,
        );
        active =
            ap (λ a. to_int32 (add_one a)) k.active
            ∙ to_int32-pos (suc running) (omega (arith, free, h.concurrent_range.1));
        running_le = omega (arith, free);
      }

  Tracks-finishes :
      (c : TriggerCounters) (log : List ℕ) (running last : ℕ)
      → Tracks c log running last
      → Tracks (less_active c) log (running - 1) last
  Tracks-finishes c log running last k =
      let (active, same) = less_active-pos c running k.active in
      record {
        window = λ t after. ap (recent t) same ∙ k.window t after;
        few = k.few;
        active = active;
        running_le = omega (arith, k.running_le);
      }

  Tracks-IsInvariant : (name ns : Text) → IsInvariant name ns limits Tracks
  unfolding recent
  Tracks-IsInvariant name ns = record {
    start = record {
      window = λ t le. refl;
      few = omega arith;
      active = refl;
      running_le = omega arith;
    };
    waits = λ c log running last now le k. record {
      window = λ t after. k.window t (omega (arith, le, after));
      few = omega (arith, k.few, length-recent-le last now log le);
      active = k.active;
      running_le = k.running_le;
    };
    prunes = λ c log running now k. record {
      window = λ t after. recent-recent now t c.invocations after ∙ k.window t after;
      few = k.few;
      active = k.active;
      running_le = k.running_le;
    };
    records = Tracks-records;
    finishes = Tracks-finishes;
  }

-- In every state that the limiter reaches, where both limits of the trigger are set and positive,
-- the invocations allowed in the hour before the last check are at most the hourly limit, and the
-- tasks that run are at most the limit of concurrent tasks.
pub Reached-bounds :
    (name ns : Text) (limits : LimitsConfig) (per_hour at_once : ℕ) (l : TriggerLimiter)
    (log : List ℕ) (running last : ℕ)
    → HasLimits limits per_hour at_once
    → Reached name ns limits l log running last
    → (length (recent last log) ≤ per_hour) × (running ≤ at_once)
Reached-bounds name ns limits per_hour at_once l log running last h r =
    let k =
      Reached-invariant name ns limits (Tracks-IsInvariant limits per_hour at_once h name ns) r in
    (k.few, k.running_le)

-- In every state that the limiter reaches, where both limits of the trigger are set and positive, a
-- check at the time of the last check or later allows the invocation exactly when fewer invocations
-- than the hourly limit were allowed in the hour before it, and fewer tasks than the limit of
-- concurrent tasks run.
pub check-allowed_iff :
    (name ns : Text) (limits : LimitsConfig) (per_hour at_once : ℕ) (l : TriggerLimiter)
    (log : List ℕ) (running last now : ℕ)
    → HasLimits limits per_hour at_once
    → Reached name ns limits l log running last
    → last ≤ now
    → ((check l now name ns (some limits)).0 ≡ allowed)
      ↔ ((length (recent now log) < per_hour) × (running < at_once))
check-allowed_iff name ns limits per_hour at_once l log running last now h r le =
    let i = Tracks-IsInvariant limits per_hour at_once h name ns in
    let c = counters_of l (key_of name ns) in
    let k = i.waits c log running last now le (Reached-invariant name ns limits i r) in
    subst (λ v. (v ≡ allowed) ↔ ((length (recent now log) < per_hour) × (running < at_once)))
      (sym (check-verdict l now name ns limits))
      (room limits per_hour at_once h c log running now k)
