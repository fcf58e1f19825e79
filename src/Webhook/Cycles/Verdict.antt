-- ===== src/Webhook/Cycles/Verdict.antt =====
-- What detectDAGCycles decides.
use mathlib.Core.List.Memᴰ
use flokoa.Common.{
  ℕ, ◌≤◌, ◌≡◌, refl, sym, subst, ◌≢◌, ◌↔◌, ◌⊎◌, inl, inr, ⊎_elim, List, [], ◌∷◌, map, Memᴰ,
  Memᴰ-cons, Memᴰ-nil, Text, ◌==◌, ==_iff, if◌then◌else◌, Bool-cases, length, arith,
}
use flokoa.Api.Workflow.{WorkflowTask}
use flokoa.Webhook.Cycles.Graph.{
  Adjacency, deps_of, build_adjacency, task_graph, Walk, edge, step, nodes,
}
use flokoa.Webhook.Cycles.Search.{
  gray, black, Colors, color_of, Outcome, finished, cycle, out_of_fuel, visit, visit_tasks,
  detect_dag_cycles,
}
use flokoa.Webhook.Cycles.Contract.{
  Color-cases, whites, whites_start, Fine, Post-refl, Post-white, whites-le, Good, Good-and_then,
  Good-map,
}
use flokoa.Webhook.Cycles.Correct.{visit_lem}

abbrev names : List WorkflowTask → List Text
names = map (λ t. t.name)

abbrev AllBlack : List WorkflowTask → Colors → Type 0
AllBlack tasks c = (n : Text) → Memᴰ n (names tasks) → color_of c n ≡ black

AllBlack-cons :
    (t : WorkflowTask) (ts : List WorkflowTask) (c : Colors)
    → color_of c t.name ≡ black
    → AllBlack ts c
    → AllBlack (t ∷ ts) c
AllBlack-cons t ts c b h n m = ⊎_elim (λ e. rw e b) (h n) ((Memᴰ-cons n t.name (names ts)).0 m)

module _ (adj : Adjacency) (fuel : ℕ) where
  visit_tasks_lem :
      (tasks : List WorkflowTask) (c : Colors)
      → ((n : Text) → Memᴰ n (names tasks) → Memᴰ n (nodes adj))
      → Fine adj c
      → ((g : Text) → color_of c g ≢ gray)
      → whites c (nodes adj) ≤ fuel
      → Good adj c (AllBlack tasks) (visit_tasks adj fuel tasks c)
  unfolding visit_tasks
  visit_tasks_lem [] c sub f calm w = (Post-refl adj f, λ n m. absurd (Memᴰ-nil m))
  visit_tasks_lem (t ∷ ts) c sub f calm w = elim (Color-cases (color_of c t.name)) [
    | inl e ↦
        rw (e, visit_tasks)
          (Good-and_then adj c (λ c'. color_of c' t.name ≡ black) (AllBlack (t ∷ ts))
            (visit adj fuel t.name c) (λ c'. visit_tasks adj fuel ts c')
            (visit_lem adj fuel t.name c f e (sub t.name (Memᴰ.head refl))
              (λ g h. absurd (calm g h)) w)
            (λ d p blk.
              Good-map adj d (AllBlack ts) (AllBlack (t ∷ ts)) (visit_tasks adj fuel ts d)
                (λ d' p' done. AllBlack-cons t ts d' (p'.keeps_black t.name blk) done)
                (visit_tasks_lem ts d (λ n m. sub n (Memᴰ.tail m)) p.fine
                  (λ g h. calm g (p.from_gray g h))
                  (omega (arith, whites-le c d (nodes adj) (Post-white adj p))))))
    | inr (inl e) ↦ absurd (calm t.name e)
    | inr (inr e) ↦
        rw (e, visit_tasks)
          (Good-map adj c (AllBlack ts) (AllBlack (t ∷ ts)) (visit_tasks adj fuel ts c)
            (λ d p done. AllBlack-cons t ts d (p.keeps_black t.name e) done)
            (visit_tasks_lem ts c (λ n m. sub n (Memᴰ.tail m)) f calm w))
  ]

nodes-build_adjacency :
    (tasks : List WorkflowTask) (adj : Adjacency) (n : Text)
    → Memᴰ n (nodes adj)
    → Memᴰ n (nodes (build_adjacency adj tasks))
nodes-build_adjacency [] adj n m = m
nodes-build_adjacency (t ∷ ts) adj n m =
    nodes-build_adjacency ts ((t.name, t.depends_on) ∷ adj) n
      (Memᴰ.tail (Memᴰ.append_right t.depends_on m))

names-subset-nodes :
    (tasks : List WorkflowTask) (adj : Adjacency) (n : Text)
    → Memᴰ n (names tasks)
    → Memᴰ n (nodes (build_adjacency adj tasks))
names-subset-nodes [] adj n m = absurd (Memᴰ-nil m)
names-subset-nodes (t ∷ ts) adj n m = elim ((Memᴰ-cons n t.name (names ts)).0 m) [
  | inl e ↦ nodes-build_adjacency ts ((t.name, t.depends_on) ∷ adj) n (Memᴰ.head e)
  | inr r ↦ names-subset-nodes ts ((t.name, t.depends_on) ∷ adj) n r
]

-- Only a task has dependencies.
edge_from_task :
    (tasks : List WorkflowTask) (adj : Adjacency) (u v : Text)
    → Memᴰ v (deps_of (build_adjacency adj tasks) u)
    → Memᴰ u (names tasks) ⊎ Memᴰ v (deps_of adj u)
edge_from_task [] adj u v m = inr m
edge_from_task (t ∷ ts) adj u v m = elim (edge_from_task ts ((t.name, t.depends_on) ∷ adj) u v m) [
  | inl r ↦ inl (Memᴰ.tail r)
  | inr r ↦ elim (Bool-cases (t.name == u)) [
    | inl e ↦ inl (Memᴰ.head (sym ((==_iff t.name u).0 e)))
    | inr e ↦ inr (rw (e, if◌then◌else◌) at r)
  ]
]

-- The tasks depend on one another in a circle through `d`.
abbrev pub OnCycle : List WorkflowTask → Text → Type 0
OnCycle tasks d = Walk (task_graph tasks) d d

walk_from_task :
    (tasks : List WorkflowTask) {u v : Text} → Walk (task_graph tasks) u v → Memᴰ u (names tasks)
walk_from_task tasks {u} {v} (edge m) =
    ⊎_elim (λ r. r) (λ r. absurd (Memᴰ-nil r)) (edge_from_task tasks [] u v m)
walk_from_task tasks {u} (step {v} m w) =
    ⊎_elim (λ r. r) (λ r. absurd (Memᴰ-nil r)) (edge_from_task tasks [] u v m)

abbrev Verdict : List WorkflowTask → Outcome → Type 0
Verdict tasks (finished c) = (d : Text) → ¬ OnCycle tasks d
Verdict tasks (cycle d) = OnCycle tasks d
Verdict tasks out_of_fuel = ⊥

Verdict-of_Good :
    (tasks : List WorkflowTask) (r : Outcome)
    → Good (task_graph tasks) [] (AllBlack tasks) r
    → Verdict tasks r
Verdict-of_Good tasks (finished c) (p, done) =
    λ d w. p.fine.acyclic d (done d (walk_from_task tasks w)) w
Verdict-of_Good tasks (cycle d) w = w
Verdict-of_Good tasks out_of_fuel h = h

Fine-start : (adj : Adjacency) → Fine adj []
Fine-start adj = record { closed = λ u v b m. cc; acyclic = λ u b w. cc }

detect_dag_cycles-Verdict : (tasks : List WorkflowTask) → Verdict tasks (detect_dag_cycles tasks)
unfolding detect_dag_cycles
detect_dag_cycles-Verdict tasks = Verdict-of_Good tasks (detect_dag_cycles tasks) (
    visit_tasks_lem adj (length (nodes adj)) tasks [] (names-subset-nodes tasks []) (Fine-start adj)
      (λ g e. cc) (omega (arith, whites_start (nodes adj))))
  where
    adj : Adjacency
    adj = task_graph tasks

-- `detectDAGCycles` returns nil exactly when no task lies on a cycle of dependencies.
pub detect_dag_cycles-finished_iff :
    (tasks : List WorkflowTask)
    → ((c : Colors) × (detect_dag_cycles tasks ≡ finished c)) ↔ ((d : Text) → ¬ OnCycle tasks d)
detect_dag_cycles-finished_iff tasks =
    go (detect_dag_cycles tasks) (detect_dag_cycles-Verdict tasks)
  where
    go :
        (r : Outcome)
        → Verdict tasks r
        → ((c : Colors) × (r ≡ finished c)) ↔ ((d : Text) → ¬ OnCycle tasks d)
    go (finished c) v = (λ _. v, λ _. (c, refl))
    go (cycle d) v = (λ (c, e). cc, λ none_. absurd (none_ d v))
    go out_of_fuel v = absurd v

-- When `detectDAGCycles` returns an error, the task that the error names lies on a cycle of
-- dependencies.
pub detect_dag_cycles-cycle :
    (tasks : List WorkflowTask) (d : Text) → detect_dag_cycles tasks ≡ cycle d → OnCycle tasks d
detect_dag_cycles-cycle tasks d e = subst (Verdict tasks) e (detect_dag_cycles-Verdict tasks)

-- The number of nodes is enough fuel: the search always returns.
pub detect_dag_cycles-ne-out_of_fuel :
    (tasks : List WorkflowTask) → detect_dag_cycles tasks ≢ out_of_fuel
detect_dag_cycles-ne-out_of_fuel tasks e = subst (Verdict tasks) e (detect_dag_cycles-Verdict tasks)
