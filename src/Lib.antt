-- ===== src/Lib.antt =====
-- Flokoa is a Kubernetes operator that runs AI agents. A user composes agents, containers and
-- HTTP calls into an AgentWorkflow; an admission webhook checks it, and a controller compiles it
-- to an Argo WorkflowTemplate whose agent calls an Argo executor plugin runs. Events start agents
-- through a server that limits how often. An Agent is composed of a fragment, a model,
-- instructions, tools and capabilities, which a compiler merges into one document. This library
-- models the way of an AgentWorkflow from its admission to the compiled template and the calls of
-- the plugin, the compiler of agents, and the limits of the server's triggers.
--
-- The parts, and the files that model them:
--
-- * The API (operator/api/v1alpha1/agentworkflow_types.go): Api.Message, Api.Task and
--   Api.Workflow, one record for each struct. A pointer is an `Option`, a slice a list, a map the
--   list of its entries (in the order in which the code walks it, which Go leaves open). A string
--   is the list of its code points. Status types are left out: the webhook and the compiler read
--   only the spec.
-- * The expression language `{{...}}`, common to the webhook and the compiler: Expression.Scan is
--   the regular expression's matching, Expression.Pieces what a cut into matches is, and
--   Expression.Reference the references as data, with the text and the Argo expression of each.
-- * The webhook (operator/internal/webhook/v1alpha1/agentworkflow_webhook.go). Webhook.Errors has
--   the field paths and errors; Webhook.Tasks validateAgentCall, validateContainerTask and
--   validateHTTPTask; Webhook.Expressions validateExpressions and isValidExpression;
--   Webhook.Freeze validateAgentTaskFreeze; Webhook.Cycles.Search detectDAGCycles;
--   Webhook.Validate ValidateAgentWorkflow and the handlers ValidateCreate, ValidateUpdate and
--   ValidateDelete. Every check returns its list of errors, with the path, kind and value of
--   each. Webhook.Conforms is the specification: well-formedness without error lists.
--   Webhook.Accepts, Webhook.Freeze.Tolerated, Webhook.Expressions.Valid, Webhook.Cycles.Verdict
--   and Webhook.Handlers have the proofs.
-- * The compiler (operator/internal/controller/agentworkflow_compiler.go). Compiler.Argo has the
--   objects that it builds; Compiler.Expressions the translation of expressions and conditions;
--   Compiler.Plugin the spec of the A2A plugin; Compiler.Templates one template for one task;
--   Compiler.Workflow compileToArgoWorkflowTemplate and buildSwitchDAGTasks. An error that the
--   code returns is a `failed` with its kind. Compiler.Tasks, Compiler.Nodes, Compiler.Parameters
--   and the records of Compiler.Shape are the specification of what it returns, field by field.
--   Compiler.Succeeds, Compiler.Shape, Compiler.Closed, Compiler.ConfigMaps, Compiler.Switch and
--   Compiler.Expressions.Translates have the proofs, on lemmas in Compiler.Tasks.Built,
--   Compiler.Parameters.Written and Compiler.Assembled.
-- * The trigger limits of the server. Trigger.Config is the configuration that a trigger's
--   ConfigMap holds (operator/internal/app/trigger/reconcile.go); Trigger.Limiter is Check and
--   TaskCompleted of operator/internal/server/trigger_limiter.go, each one step on the map of
--   counters, since a mutex guards it; Trigger.Handler is ServeHTTP and loadTriggerConfig of
--   operator/internal/server/trigger_handler.go. Trigger.Spec is ValidateSpec of
--   operator/internal/domain/trigger/validate.go. Trigger.Limiter.Reached is the step relation of
--   the limiter; Trigger.Limiter.Bounds, Trigger.Handler.Exhausted and Trigger.Spec.Valid have
--   the proofs. int32 wraps around as in Go (Common.Int). The library calls of the handler are
--   the record `Services`.
-- * Change detection. Hash is ConfigMapData and SecretVersions of
--   operator/internal/domain/hash/hash.go; a map is the list of its entries in the order of a
--   walk, and SHA-256 a parameter. Hash.Order, Hash.Determined, Hash.Secrets and Hash.Faithful
--   have the proofs.
-- * The A2A executor plugin (operator/plugins/a2a/plugin). A2a.Spec is its part of a template and
--   parseA2ASpec; A2a.Message what it sends; A2a.Endpoints endpointCandidates; A2a.Store the
--   StateStore with its cache and ConfigMap; A2a.Reply taskToReply and the extraction of texts;
--   A2a.Execute ExecuteTemplate, sendTask, pollTask and Resolve. One call takes a `World`: the
--   clock, what Kubernetes and the agents answer. Its state is the store and the messages sent.
--   A2a.Execute.Steps is the life of a task as a relation; A2a.Execute.Life, A2a.Execute.Polls,
--   A2a.Store.Keys, A2a.Store.Restart, A2a.Endpoints.Trimmed and A2a.Endpoints.Both have the
--   proofs, and A2a.Nodes those that need the compiler.
-- * The compiler of agents (operator/internal/app/agent/compiler) and what it uses. Agent.Types
--   has the API types (operator/api/v1alpha1) with the fields that it reads; Agent.Value the
--   documents, with the round trip through JSON; Agent.Merge merge.go; Agent.Tools tools.go;
--   Agent.References applyModelRef and applyInstructions; Agent.Attachments resolveCapabilities;
--   Agent.Compile Compile. Agent.Providers is operator/internal/domain/model, Agent.Secrets
--   operator/internal/spec/secrets.go, and Agent.Capability and Agent.Conflicts
--   operator/internal/domain/capability/capability.go. The readers of the Kubernetes API, JSON,
--   YAML, PEP 440 and the schemas are the records `Cluster`, `Registry`, `Codec` and `Pep440`; an
--   error is a `fails` with its class and kind. Agent.Conflicts.Compatible is the specification
--   of DetectConflicts, and Agent.Attachments.Resolved has what Compatible and the other checks
--   give for the attachments. Agent.Conflicts.Agree, Agent.Attachments.Resolved,
--   Agent.Tools.Shared, Agent.Settings.Precedence, Agent.Compile.Timeouts and Agent.Compile.Names
--   have the proofs.
--
-- How they interact: the handlers run the freeze and, when it passes, the validation; the
-- controller compiles what was admitted. The compiler has no checks of its own for references, so
-- what it makes of them rests on what the webhook accepts, which reaches its proofs through
-- `WellFormed`. The server reads the trigger's configuration for each request and asks the
-- limiter.
--
-- Loops and recursion: a loop over a slice is recursion on the list. The recursion of the cycle
-- search is on fuel, which bounds the depth of its calls. The search starts with the number of
-- nodes as its fuel: each nested call paints one more node, so no more calls can be nested. The
-- scanning of expressions is recursion on the text.
--
-- Parameters: what the compiler takes from libraries is the record `Runtime` of Compiler.Json:
-- whether a raw text is JSON, json.Marshal, the whole seconds of a duration, and the traceparent
-- of the context. The only hypothesis on them is that json.Marshal returns no error.
--
-- Not modelled: the controllers that talk to the Kubernetes API and their status, the
-- reconciliation and the webhooks of agents, tools, models and capabilities, the validation
-- against JSON Schemas, the rest of the server and the user interface, and the Python packages,
-- which are separate programs or are made of calls to services; logging; and the casts of the
-- handlers, which the argument's type makes.

pub mod Common
pub mod Api
pub mod Expression
pub mod Webhook
pub mod Compiler
pub mod Trigger
pub mod Hash
pub mod A2a
pub mod Agent
mod Tests
