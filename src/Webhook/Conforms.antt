-- ===== src/Webhook/Conforms.antt =====
-- What the webhook asks of an AgentWorkflow, said without the error lists.
use flokoa.Common.{
  Distinct, ◌≡◌, ◌≢◌, Bool, true, false, not, List, [], ◌∷◌, map, Option, none, some, All, Memᴰ,
  Text, trim_space, is_empty, is_set, nonempty,
}
use flokoa.Api.Message.{MessagePart, AgentMessage, AgentCall}
use flokoa.Api.Task.{
  AgentTask, ContainerTask, HttpHeaderValueFrom, HttpHeader, HttpTask, SwitchCase,
}
use flokoa.Api.Workflow.{WorkflowTask, AgentWorkflow}
use flokoa.Expression.{pieces, matches}
use flokoa.Expression.Reference.{Resolves}
use flokoa.Webhook.Cycles.Dependencies.{Leads}

abbrev pub AllFalse : List Bool → Type 0
AllFalse = All (λ b. b ≡ false)

abbrev pub ExactlyOne : List Bool → Type 0
ExactlyOne [] = ⊥
ExactlyOne (true ∷ bs) = AllFalse bs
ExactlyOne (false ∷ bs) = ExactlyOne bs

-- The predicate holds of the value behind a pointer, if there is one.
abbrev pub IfSet {ℓ κ} : {A : Type ℓ} → (A → Type κ) → Option A → Type κ
IfSet P none = Unit
IfSet P (some a) = P a

abbrev pub ValidPart : MessagePart → Type 0
ValidPart p = ExactlyOne (is_set p.text ∷ is_set p.data_part ∷ is_set p.file ∷ [])

pub record ValidAgentCall (a : AgentCall) : Type 0 where
  pub content : ExactlyOne (not (is_empty a.text) ∷ is_set a.message ∷ [])
  pub parts : IfSet (λ m. All ValidPart m.parts) a.message

abbrev pub ValidValueFrom : HttpHeaderValueFrom → Type 0
ValidValueFrom v = ExactlyOne (is_set v.secret_key_ref ∷ is_set v.config_map_key_ref ∷ [])

pub record ValidHeader (h : HttpHeader) : Type 0 where
  pub source : ExactlyOne (not (is_empty h.value) ∷ is_set h.value_from ∷ [])
  pub value_from : IfSet ValidValueFrom h.value_from

pub record ValidHttpTask (h : HttpTask) : Type 0 where
  pub url : h.url ≢ []
  pub headers : All ValidHeader h.headers

-- A name that may be left empty.
abbrev pub EmptyOr : List Text → Text → Type 0
EmptyOr names [] = Unit
EmptyOr names (c ∷ t) = Memᴰ (c ∷ t) names

pub record ValidSwitchCase (names : List Text) (sc : SwitchCase) : Type 0 where
  pub then_task : EmptyOr names sc.then_task
  pub default_task : EmptyOr names sc.default_task

-- Every expression in the text resolves.
abbrev pub ValidText : List Text → List Text → Text → Type 0
ValidText names params text =
    All (λ inner. Resolves names params (trim_space inner)) (matches (pieces text))

abbrev pub part_texts : List MessagePart → List Text
part_texts [] = []
part_texts (p ∷ ps) = elim p.text [ none ↦ part_texts ps | some t ↦ t.text ∷ part_texts ps ]

abbrev pub message_texts : Option AgentMessage → List Text
message_texts none = []
message_texts (some m) = part_texts m.parts

-- Where expressions may stand in a task of each kind.
pub record ValidTexts (P : Text → Type 0) (t : WorkflowTask) : Type 0 where
  pub agent_text : IfSet (λ (a : AgentCall). P a.text) t.agent
  pub agent_message : IfSet (λ (a : AgentCall). All P (message_texts a.message)) t.agent
  pub input : IfSet (λ (a : AgentTask). P a.input) t.agent_task
  pub env : IfSet (λ (c : ContainerTask). All (λ e. P e.value) c.env) t.container
  pub url : IfSet (λ (h : HttpTask). P h.url) t.http
  pub body : IfSet (λ (h : HttpTask). P h.body) t.http
  pub headers : IfSet (λ (h : HttpTask). All (λ x. P x.value) h.headers) t.http
  pub condition : P t.condition
  pub switch : All (λ sc. P sc.condition) t.switch

pub record ValidTask (names params : List Text) (t : WorkflowTask) : Type 0 where
  pub kind : ExactlyOne (
      is_set t.agent
      ∷ is_set t.agent_task
      ∷ is_set t.container
      ∷ is_set t.http
      ∷ nonempty t.switch
      ∷ [])
  pub agent : IfSet ValidAgentCall t.agent
  pub container : IfSet (λ (c : ContainerTask). c.image ≢ []) t.container
  pub http : IfSet ValidHttpTask t.http
  pub depends_on : All (λ d. Memᴰ d names × (d ≢ t.name)) t.depends_on
  pub switch : All (ValidSwitchCase names) t.switch
  pub expressions : ValidTexts (ValidText names params) t

pub record WellFormed (wf : AgentWorkflow) : Type 0 where
  pub tasks : wf.spec.tasks ≢ []
  pub names : Distinct (map (λ t. t.name) wf.spec.tasks)
  pub each :
      All
        (ValidTask (map (λ t. t.name) wf.spec.tasks) (map (λ p. p.name) wf.spec.params))
        wf.spec.tasks
  pub acyclic : (d : Text) → ¬ Leads wf.spec.tasks d d
