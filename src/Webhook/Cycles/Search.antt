-- ===== src/Webhook/Cycles/Search.antt =====
-- The search itself. The fuel of `visit` bounds the depth of its calls; every nested call paints a
-- white node, so the number of nodes is enough.
use flokoa.Common.{ℕ, zero, suc, List, [], ◌∷◌, Text, ◌==◌, if◌then◌else◌, length}
use flokoa.Api.Workflow.{WorkflowTask}
use flokoa.Webhook.Cycles.Graph.{Adjacency, deps_of, task_graph, nodes}

pub data Color : Type 0 where
  white gray black : Color

-- The map `color`; the latest entry stands first, and a missing key is white, the zero value.
abbrev pub Colors : Type 0
Colors = List (Text × Color)

abbrev pub color_of : Colors → Text → Color
color_of [] name = white
color_of ((key, c) ∷ colors) name = if key == name then c else color_of colors name

-- `finished` is the nil error, and `cycle d` the error that names the task `d`.
pub data Outcome : Type 0 where
  finished : Colors → Outcome
  cycle : Text → Outcome
  out_of_fuel : Outcome

abbrev pub and_then : Outcome → (Colors → Outcome) → Outcome
and_then (finished c) k = k c
and_then (cycle d) k = cycle d
and_then out_of_fuel k = out_of_fuel

-- The loop over `adj[name]`; `go` is the recursive call of `visit`.
unfoldable pub visit_deps : (Text → Colors → Outcome) → List Text → Colors → Outcome
visit_deps go [] c = finished c
visit_deps go (dep ∷ deps) c = elim (color_of c dep) [
  | gray ↦ cycle dep
  | white ↦ and_then (go dep c) (λ c'. visit_deps go deps c')
  | black ↦ visit_deps go deps c
]

module _ (adj : Adjacency) where
  unfoldable pub visit : ℕ → Text → Colors → Outcome
  visit zero name c = out_of_fuel
  visit (suc fuel) name c =
      and_then (visit_deps (visit fuel) (deps_of adj name) ((name, gray) ∷ c))
        (λ c'. finished ((name, black) ∷ c'))

  -- The loop over the tasks.
  unfoldable pub visit_tasks : ℕ → List WorkflowTask → Colors → Outcome
  visit_tasks fuel [] c = finished c
  visit_tasks fuel (task ∷ tasks) c = elim (color_of c task.name) [
    | white ↦ and_then (visit fuel task.name c) (λ c'. visit_tasks fuel tasks c')
    | gray ↦ visit_tasks fuel tasks c
    | black ↦ visit_tasks fuel tasks c
  ]

unfoldable pub detect_dag_cycles : List WorkflowTask → Outcome
unfolding visit_tasks visit visit_deps
detect_dag_cycles tasks =
    let adj = task_graph tasks in visit_tasks adj (length (nodes adj)) tasks []
