-- ===== src/A2a/Execute/Polls.antt =====
-- Runs of polls that fail.
use flokoa.Common.{
  ℕ, suc, ◌+◌, ◌≤◌, ◌<◌, ◌≡◌, refl, sym, ap, subst, ◌∙◌, true, false, none, some, List, [], ◌∷◌,
  All, length, Text, ltb, if◌then◌else◌, arith,
}
use flokoa.A2a.Spec.{A2aSpec, Decoder, parsed, parse_a2a_spec}
use flokoa.A2a.Store.{ProgressState, Codec, task_key, is_timed_out, load}
use flokoa.A2a.Reply.{node_failed}
use flokoa.A2a.Execute.{
  World, Reply, poll_error, failed_reply, get_task_failed, requeued, Plugin, Arguments,
  max_poll_errors, set_poll_errors, poll_answer, poll_task, resume, execute_template,
}
use flokoa.A2a.Execute.Steps.{with_errors, load-set}

-- Calls of the plugin for one node of a workflow, in the order in which Argo makes them.
unfoldable pub run_calls : Decoder → Codec → Arguments → Plugin → List World → List Reply × Plugin
run_calls decoder codec args p [] = ([], p)
run_calls decoder codec args p (w ∷ ws) =
    let (r, p') = execute_template decoder codec w p args in
    let (rs, p'') = run_calls decoder codec args p' ws in (r ∷ rs, p'')

-- The task cannot be queried, and is not late.
pub record IsUnreachable (pr : ProgressState) (w : World) : Type 0 where
  pub early : is_timed_out w.now pr ≡ false
  pub connects : w.connects pr.endpoint ≡ true
  pub no_answer : w.get_task pr.endpoint pr.task_id ≡ none

abbrev pub args_key : Arguments → Text
args_key args = task_key args.workflow_uid args.template_name

abbrev poll_reply : ℕ → Reply
poll_reply n =
    if ltb n max_poll_errors then requeued (poll_error n) else failed_reply (get_task_failed n)

module _ (decoder : Decoder) (codec : Codec) (args : Arguments) (spec : A2aSpec)
    (pr : ProgressState) (valid : parse_a2a_spec decoder args.plugin_value ≡ parsed spec) where
  one_poll :
      (w : World) (p : Plugin) (n : ℕ)
      → IsUnreachable pr w
      → load (args_key args) p.tasks ≡ some (with_errors pr n)
      → execute_template decoder codec w p args ≡ (
        poll_reply (suc n),
        record p { tasks = set_poll_errors (args_key args) (with_errors pr n) (suc n) p.tasks },
      )
  unfolding execute_template poll_task is_timed_out
  one_poll w p n u e = rw (valid, e, resume, u.early, u.connects, u.no_answer, poll_answer) refl

  -- The replies to polls that all fail.
  abbrev failures_from : ℕ → List World → List Reply
  failures_from n [] = []
  failures_from n (w ∷ ws) = poll_reply (suc n) ∷ failures_from (suc n) ws

  run_calls-failures :
      (p : Plugin) (n : ℕ) (ws : List World)
      → All (IsUnreachable pr) ws
      → load (args_key args) p.tasks ≡ some (with_errors pr n)
      → (let x = run_calls decoder codec args p ws in
          (x.0 ≡ failures_from n ws)
          × (x.1.outbox ≡ p.outbox)
          × (load (args_key args) x.1.tasks ≡ some (with_errors pr (n + length ws))))
  unfolding run_calls
  run_calls-failures p n [] h e = (refl, refl, e ∙ ap (λ k. some (with_errors pr k)) (omega arith))
  run_calls-failures p n (w ∷ ws) (u, h) e =
      let s = set_poll_errors (args_key args) (with_errors pr n) (suc n) p.tasks in
      let q : Plugin = record p { tasks = s } in
      let (same, sent, kept) =
        run_calls-failures q (suc n) ws h
          (load-set (args_key args) (with_errors pr n) (suc n) p.tasks) in
      rw (one_poll w p n u e) (
        ap (λ rs. poll_reply (suc n) ∷ rs) same,
        sent,
        kept ∙ ap (λ k. some (with_errors pr k)) (omega arith),
      )

  tolerated :
      (n : ℕ) (ws : List World)
      → n + length ws < max_poll_errors
      → All (λ r. r.requeue ≡ true) (failures_from n ws)
  tolerated n [] h = tt
  tolerated n (w ∷ ws) h = (ground arith, tolerated (suc n) ws (omega arith))

  refused :
      (n : ℕ) (ws : List World)
      → max_poll_errors ≤ suc n
      → All (λ r. (r.phase ≡ node_failed) × (r.requeue ≡ false)) (failures_from n ws)
  refused n [] h = tt
  refused n (w ∷ ws) h = (ground arith, refused (suc n) ws (omega arith))

-- Take a node whose task the plugin polls, in a template whose spec is valid, and calls at which the
-- task cannot be queried but is not late. As long as the errors in a row stay below five, every call
-- is answered by a request to call again, and the store keeps the task with the count of the errors.
pub run_calls-tolerates :
    (decoder : Decoder) (codec : Codec) (args : Arguments) (spec : A2aSpec) (pr : ProgressState)
    (p : Plugin) (n : ℕ) (ws : List World)
    → parse_a2a_spec decoder args.plugin_value ≡ parsed spec
    → load (args_key args) p.tasks ≡ some (with_errors pr n)
    → All (IsUnreachable pr) ws
    → n + length ws < max_poll_errors
    → (let x = run_calls decoder codec args p ws in
        All (λ r. r.requeue ≡ true) x.0
        × (load (args_key args) x.1.tasks ≡ some (with_errors pr (n + length ws))))
run_calls-tolerates decoder codec args spec pr p n ws valid e h few =
    let (same, sent, kept) = run_calls-failures decoder codec args spec pr valid p n ws h e in
    (
      subst (All (λ r. r.requeue ≡ true)) (sym same)
          (tolerated decoder codec args spec pr valid n ws few),
      kept,
    )

-- Take a node whose task the plugin polls, in a template whose spec is valid. Once the errors in a row
-- have reached four, each further call at which the task cannot be queried and is not late fails the
-- node and sends nothing, and the task stays in the store: also at the calls that Argo makes when it
-- retries the node, which have the same key.
pub run_calls-gave_up :
    (decoder : Decoder) (codec : Codec) (args : Arguments) (spec : A2aSpec) (pr : ProgressState)
    (p : Plugin) (n : ℕ) (ws : List World)
    → parse_a2a_spec decoder args.plugin_value ≡ parsed spec
    → load (args_key args) p.tasks ≡ some (with_errors pr n)
    → All (IsUnreachable pr) ws
    → max_poll_errors ≤ suc n
    → (let x = run_calls decoder codec args p ws in
        All (λ r. (r.phase ≡ node_failed) × (r.requeue ≡ false)) x.0
        × (x.1.outbox ≡ p.outbox)
        × (load (args_key args) x.1.tasks ≡ some (with_errors pr (n + length ws))))
run_calls-gave_up decoder codec args spec pr p n ws valid e h many =
    let (same, sent, kept) = run_calls-failures decoder codec args spec pr valid p n ws h e in
    (
      subst (All (λ r. (r.phase ≡ node_failed) × (r.requeue ≡ false))) (sym same)
          (refused decoder codec args spec pr valid n ws many),
      sent,
      kept,
    )
