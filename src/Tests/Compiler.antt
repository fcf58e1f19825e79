-- ===== src/Tests/Compiler.antt =====
-- The compiler on the sample.
use flokoa.Common.{
  Distinct, ◌≡◌, refl, ◌≢◌, ◌↔◌, false, [], ◌∷◌, map, Memᴰ, Memᴰ-cons, Memᴰ-nil, All, codes,
  trim_space, ⊎_elim, arith,
}
use flokoa.Api.Task.{KeySelector}
use flokoa.Api.Workflow.{WorkflowTask}
use flokoa.Expression.{pieces}
use flokoa.Expression.Reference.{param}
use flokoa.Compiler.Argo.{WorkflowTemplate}
use flokoa.Compiler.Expressions.{translate_condition_expr, translate_expressions_with_mode}
use flokoa.Compiler.Expressions.Translates.{Translates, translate_expressions-Translates}
use flokoa.Compiler.Workflow.{
  compiled, dag_task, compile_to_argo_workflow_template, dag_entrypoint_name,
}
use flokoa.Compiler.Succeeds.{Marshals, compile-of_validate_create}
use flokoa.Compiler.Assembled.{entry_tasks}
use flokoa.Compiler.Closed.{Refers, compile-Refers, compile-distinct_names_iff}
use flokoa.Compiler.ConfigMaps.{NoUnderscore, HeaderGets, compile-cm_parameter}
use flokoa.Compiler.Parameters.{ReadsKey}
use flokoa.Compiler.Parameters.Keys.{mem-ReadsKey}
use flokoa.Compiler.Switch.{branch, compile-switch_branches}
use flokoa.A2a.Nodes.{Confused, compile-Confused}
use flokoa.Webhook.Conforms.{ValidText}
use flokoa.Tests.Sample.{
  sample, runtime, options, fetch, route, act, page_request, token_header, token_source, token_key,
  good_case,
}
use flokoa.Tests.Webhook.{sample_accepted, sample_created}

marshals : Marshals runtime
marshals j e = cc

result :
    (wft : WorkflowTemplate) × (compile_to_argo_workflow_template runtime sample options
      ≡ compiled wft)
result = compile-of_validate_create runtime sample options marshals sample_created

compile-of_validate_create_example :
    (wft : WorkflowTemplate) × (compile_to_argo_workflow_template runtime sample options
      ≡ compiled wft)
compile-of_validate_create_example =
    compile-of_validate_create runtime sample options marshals sample_created

compile-Refers_example :
    All
      (Refers (map (λ t. t.name) result.0.templates) (map (λ d. d.name) (entry_tasks result.0)))
      (entry_tasks result.0)
compile-Refers_example = compile-Refers runtime sample options result.0 sample_accepted result.1

compile-distinct_names_iff_example :
    Distinct (map (λ t. t.name) result.0.templates)
    ↔ (¬ Memᴰ dag_entrypoint_name (map (λ t. t.name) sample.spec.tasks))
compile-distinct_names_iff_example =
    compile-distinct_names_iff runtime sample options result.0 sample_accepted result.1

plain_names : (r : KeySelector) → ReadsKey sample.spec.tasks r → NoUnderscore r.name
plain_names r k =
    ⊎_elim (λ e. rw e (omega arith)) (λ rest. absurd (Memᴰ-nil rest))
      ((Memᴰ-cons r token_key []).0 (mem-ReadsKey sample.spec.tasks r k))

abbrev fetch_reads : ReadsKey sample.spec.tasks token_key
fetch_reads = record {
  task = fetch;
  task_mem = Memᴰ.head refl;
  http = page_request;
  is_http = refl;
  by = record {
    header = token_header;
    header_mem = Memᴰ.head refl;
    source = token_source;
    has_source = refl;
    reads = refl;
  };
}

compile-cm_parameter_example : HeaderGets result.0 fetch.name token_header.name token_key
compile-cm_parameter_example =
    compile-cm_parameter runtime sample options result.0 token_key sample_accepted result.1
      plain_names fetch_reads

compile-switch_branches_example :
    (good_case.then_task ≢ []
      → good_case.condition ≢ []
      → Memᴰ
          (branch route.name good_case.then_task (translate_condition_expr good_case.condition))
          (entry_tasks result.0))
    × (good_case.default_task ≢ []
        → Memᴰ (branch route.name good_case.default_task []) (entry_tasks result.0))
    × ((s : WorkflowTask) → Memᴰ s sample.spec.tasks → Memᴰ (dag_task s) (entry_tasks result.0))
compile-switch_branches_example =
    compile-switch_branches runtime sample options result.0 route good_case result.1
      (Memᴰ.tail (Memᴰ.tail (Memᴰ.head refl))) (Memᴰ.head refl)

page_valid : ValidText [] (codes "page" ∷ []) (codes "p={{ params.page }}")
unfolding pieces trim_space
page_valid = ((param (codes "page"), refl, Memᴰ.head refl), tt)

translate_expressions-Translates_example :
    Translates []
      (codes "page" ∷ [])
      false
      (pieces (codes "p={{ params.page }}"))
      (translate_expressions_with_mode (codes "p={{ params.page }}") false)
translate_expressions-Translates_example =
    translate_expressions-Translates [] (codes "page" ∷ []) false (codes "p={{ params.page }}")
      page_valid

compile-Confused_example :
    (let b = branch route.name good_case.then_task (translate_condition_expr good_case.condition) in
      Memᴰ b (entry_tasks result.0)
      × Memᴰ (dag_task act) (entry_tasks result.0)
      × Confused b (dag_task act))
compile-Confused_example =
    compile-Confused runtime sample options result.0 route act good_case result.1
      (Memᴰ.tail (Memᴰ.tail (Memᴰ.head refl))) (Memᴰ.head refl) (λ e. cc) (λ e. cc)
      (Memᴰ.tail (Memᴰ.tail (Memᴰ.tail (Memᴰ.head refl)))) refl
