-- ===== src/Webhook/Cycles/Graph.antt =====
-- The dependency graph that the search walks, and its walks.
use flokoa.Common.{List, [], ◌∷◌, ◌++◌, Memᴰ, Text, ◌==◌, if◌then◌else◌}
use flokoa.Api.Workflow.{WorkflowTask}

-- The map `adj`; the latest entry of a name stands first.
abbrev pub Adjacency : Type 0
Adjacency = List (Text × List Text)

abbrev pub deps_of : Adjacency → Text → List Text
deps_of [] name = []
deps_of ((key, deps) ∷ adj) name = if key == name then deps else deps_of adj name

abbrev pub build_adjacency : Adjacency → List WorkflowTask → Adjacency
build_adjacency adj [] = adj
build_adjacency adj (task ∷ tasks) = build_adjacency ((task.name, task.depends_on) ∷ adj) tasks

abbrev pub task_graph : List WorkflowTask → Adjacency
task_graph tasks = build_adjacency [] tasks

-- A walk of at least one edge; an edge leads from a task to a task that it depends on.
pub data Walk (adj : Adjacency) : Text → Text → Type 0 where
  edge : {u v : Text} → Memᴰ v (deps_of adj u) → Walk adj u v
  step : {u v w : Text} → Memᴰ v (deps_of adj u) → Walk adj v w → Walk adj u w

pub Walk-snoc :
    {adj : Adjacency} {u v w : Text} → Walk adj u v → Memᴰ w (deps_of adj v) → Walk adj u w
Walk-snoc (edge e) m = step e (edge m)
Walk-snoc (step e p) m = step e (Walk-snoc p m)

-- The texts that the search can meet.
abbrev pub nodes : Adjacency → List Text
nodes [] = []
nodes ((key, deps) ∷ adj) = key ∷ (deps ++ nodes adj)
