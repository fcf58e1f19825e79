-- ===== src/A2a/Execute/Life.antt =====
-- ExecuteTemplate against the steps of a task's life.
use flokoa.Common.{◌≡◌, ◌≢◌, refl, false, Option, none, some, Text, arith}
use flokoa.A2a.Spec.{A2aSpec, Decoder, Parsed, parsed, malformed, parse_a2a_spec}
use flokoa.A2a.Store.{ProgressState, Codec, task_key, load}
use flokoa.A2a.Endpoints.{endpoint_candidates}
use flokoa.A2a.Execute.{
  World, Reply, Plugin, Arguments, SendResult, sent_task, sent_message, sent_other, ended,
  task_to_reply, send_to, answer_of, send_task, start_task, resume, run_spec, execute_template,
  resolve, send_params, or_workflow_namespace,
}
use flokoa.A2a.Execute.Steps.{Calls, idle, answer-Calls, poll-Calls}

-- A reply without progress asks for no other call.
over :
    (w : World) (result : Option (Text × SendResult)) (r : Reply)
    → answer_of w result ≡ ended r
    → r.requeue ≡ false
unfolding task_to_reply
over w none r e = cc
over w (some (endpoint, sent_task none)) r e = cc
over w (some (endpoint, sent_task (some t))) r e = ground arith
over w (some (endpoint, sent_message none)) r e = cc
over w (some (endpoint, sent_message (some (id, context)))) r e = ground arith
over w (some (endpoint, sent_other)) r e = cc

module _ (codec : Codec) (w : World) (p : Plugin) (key : Text) where
  send-Calls :
      (spec : A2aSpec) (endpoint : Text)
      → load key p.tasks ≡ none
      → (let x = send_task codec w p key spec endpoint in Calls w key p.tasks x.0 x.1.tasks)
  unfolding send_task
  send-Calls spec endpoint e =
      let sent = send_to w (send_params w spec) (endpoint_candidates endpoint) p.outbox in
      answer-Calls codec w key spec p.tasks (answer_of w sent.0) e (over w sent.0)

  start-Calls :
      (spec : A2aSpec) (o : Option Text)
      → load key p.tasks ≡ none
      → (let x = start_task codec w p key spec o in Calls w key p.tasks x.0 x.1.tasks)
  start-Calls spec none e = idle w key p.tasks _ refl
  start-Calls spec (some endpoint) e = send-Calls spec endpoint e

  resume-Calls :
      (namespace : Text) (spec : A2aSpec) (o : Option ProgressState)
      → load key p.tasks ≡ o
      → (let x = resume codec w p key namespace spec o in
          Calls w key p.tasks x.0 x.1.tasks × (o ≢ none → x.1.outbox ≡ p.outbox))
  resume-Calls namespace spec none e =
      (start-Calls spec (resolve w spec.agent namespace) e, λ h. absurd (h refl))
  resume-Calls namespace spec (some progress) e =
      (poll-Calls codec w key p.tasks progress e, λ h. refl)

-- A call of ExecuteTemplate makes a step of the life of its own task, the one with the UID of the
-- workflow and the name of the template: from what the store had for the task to what it has then,
-- with another call asked for or not. What the store has for any other task stays as it was. Nothing
-- is sent where the store already had the task.
pub execute_template-Calls :
    (decoder : Decoder) (codec : Codec) (w : World) (p : Plugin) (args : Arguments)
    → (let key = task_key args.workflow_uid args.template_name in
        let x = execute_template decoder codec w p args in
        Calls w key p.tasks x.0 x.1.tasks × (load key p.tasks ≢ none → x.1.outbox ≡ p.outbox))
unfolding execute_template
execute_template-Calls decoder codec w p args = go (parse_a2a_spec decoder args.plugin_value)
  where
    go :
        (s : Parsed)
        → (let key = task_key args.workflow_uid args.template_name in
            let x = run_spec codec w p args s in
            Calls w key p.tasks x.0 x.1.tasks × (load key p.tasks ≢ none → x.1.outbox ≡ p.outbox))
    go (malformed e) =
        (idle w (task_key args.workflow_uid args.template_name) p.tasks _ refl, λ h. refl)
    go (parsed spec) =
        let key = task_key args.workflow_uid args.template_name in
        resume-Calls codec w p key (or_workflow_namespace spec.namespace args.workflow_namespace)
          spec (load key p.tasks) refl
