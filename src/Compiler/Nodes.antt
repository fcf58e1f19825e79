-- ===== src/Compiler/Nodes.antt =====
-- The tasks of the compiled DAG, said field by field.
use flokoa.Common.{
  ◌&&◌, not, ◌≡◌, ◌≢◌, refl, List, [], ◌∷◌, ◌++◌, Text, codes, is_empty, if◌then◌else◌,
}
use flokoa.Api.Task.{SwitchCase}
use flokoa.Api.Workflow.{WorkflowTask}
use flokoa.Compiler.Argo.{DagTask}
use flokoa.Compiler.Expressions.{translate_condition_expr}
use flokoa.Compiler.Workflow.{then_branch, default_branch, build_switch_dag_tasks, dag_task}
use flokoa.Compiler.Succeeds.{all_dag_tasks}

-- The DAG task that runs the task itself, under its condition if it has one.
pub record OwnNode (task : WorkflowTask) (d : DagTask) : Type 0 where
  pub name : d.name ≡ task.name
  pub template : d.template ≡ task.name
  pub dependencies : d.dependencies ≡ task.depends_on
  pub unconditional : task.condition ≡ [] → d.when ≡ []
  pub conditional : task.condition ≢ [] → d.when ≡ translate_condition_expr task.condition

-- The DAG task that runs `target` after the task `name`.
abbrev pub node_after : Text → Text → Text → DagTask
node_after name target when = record {
  name = name ++ (codes "-" ++ target);
  template = target;
  dependencies = name ∷ [];
  when = when;
}

-- The target of Then, where there is one and the case has a condition.
pub record ThenNodes (name : Text) (sc : SwitchCase) (ds : List DagTask) : Type 0 where
  pub given :
      sc.then_task ≢ []
      → sc.condition ≢ []
      → ds ≡ node_after name sc.then_task (translate_condition_expr sc.condition) ∷ []
  pub no_target : sc.then_task ≡ [] → ds ≡ []
  pub no_condition : sc.condition ≡ [] → ds ≡ []

-- The target of Default, where there is one.
pub record DefaultNodes (name : Text) (sc : SwitchCase) (ds : List DagTask) : Type 0 where
  pub given : sc.default_task ≢ [] → ds ≡ node_after name sc.default_task [] ∷ []
  pub no_target : sc.default_task ≡ [] → ds ≡ []

-- Of each case in order, the targets that it has.
abbrev pub Branches : Text → List SwitchCase → List DagTask → Type 0
Branches name [] ds = ds ≡ []
Branches name (sc ∷ scs) ds =
    (thens : List DagTask) × (defaults : List DagTask) × (rest : List DagTask) × (ds
      ≡ (thens ++ (defaults ++ rest)))
    × ThenNodes name sc thens
    × DefaultNodes name sc defaults
    × Branches name scs rest

-- For each task in order, the DAG task that runs it and then those of its branches.
abbrev pub Nodes : List WorkflowTask → List DagTask → Type 0
Nodes [] ds = ds ≡ []
Nodes (task ∷ tasks) ds =
    (own : DagTask) × (branches : List DagTask) × (rest : List DagTask) × (ds
      ≡ own ∷ (branches ++ rest))
    × OwnNode task own
    × Branches task.name task.switch branches
    × Nodes tasks rest

given_when : (t w : Text) → t ≢ [] → (if is_empty t then [] else w) ≡ w
given_when [] w h = absurd (h refl)
given_when (c ∷ t) w h = refl

dag_task-OwnNode : (task : WorkflowTask) → OwnNode task (dag_task task)
dag_task-OwnNode task = record {
  name = refl;
  template = refl;
  dependencies = refl;
  unconditional = λ e. rw e refl;
  conditional = given_when task.condition (translate_condition_expr task.condition);
}

if_both :
    (t c : Text) (d : DagTask)
    → t ≢ []
    → c ≢ []
    → (if not (is_empty t) && not (is_empty c) then d ∷ [] else []) ≡ d ∷ []
if_both [] c d h k = absurd (h refl)
if_both (x ∷ t) [] d h k = absurd (k refl)
if_both (x ∷ t) (y ∷ c) d h k = refl

if_no_second :
    (t c : Text) (d : DagTask)
    → c ≡ []
    → (if not (is_empty t) && not (is_empty c) then d ∷ [] else []) ≡ []
if_no_second [] c d e = refl
if_no_second (x ∷ t) [] d e = refl
if_no_second (x ∷ t) (y ∷ c) d e = cc

if_one : (t : Text) (d : DagTask) → t ≢ [] → (if not (is_empty t) then d ∷ [] else []) ≡ d ∷ []
if_one [] d h = absurd (h refl)
if_one (x ∷ t) d h = refl

then_branch-ThenNodes : (name : Text) (sc : SwitchCase) → ThenNodes name sc (then_branch name sc)
then_branch-ThenNodes name sc = record {
  given = if_both sc.then_task sc.condition _;
  no_target = λ e. rw e refl;
  no_condition = if_no_second sc.then_task sc.condition _;
}

default_branch-DefaultNodes :
    (name : Text) (sc : SwitchCase) → DefaultNodes name sc (default_branch name sc)
default_branch-DefaultNodes name sc = record {
  given = if_one sc.default_task _;
  no_target = λ e. rw e refl;
}

switch-Branches :
    (name : Text) (cases : List SwitchCase)
    → Branches name cases (build_switch_dag_tasks name cases)
unfolding build_switch_dag_tasks
switch-Branches name [] = refl
switch-Branches name (sc ∷ scs) = (
  then_branch name sc,
  default_branch name sc,
  build_switch_dag_tasks name scs,
  refl,
  then_branch-ThenNodes name sc,
  default_branch-DefaultNodes name sc,
  switch-Branches name scs,
)

pub all_dag_tasks-Nodes : (tasks : List WorkflowTask) → Nodes tasks (all_dag_tasks tasks)
all_dag_tasks-Nodes [] = refl
all_dag_tasks-Nodes (task ∷ tasks) = (
  dag_task task,
  build_switch_dag_tasks task.name task.switch,
  all_dag_tasks tasks,
  refl,
  dag_task-OwnNode task,
  switch-Branches task.name task.switch,
  all_dag_tasks-Nodes tasks,
)
