-- ===== src/Webhook/Cycles/Dependencies.antt =====
-- The dependencies of a list of tasks, without the maps of the search.
use flokoa.Common.{
  Distinct, ◌≡◌, refl, sym, ◌∙◌, subst, ◌⊎◌, inl, inr, ⊎_elim, List, [], ◌∷◌, map, Memᴰ, Memᴰ-cons,
  Memᴰ-nil, Text, ◌==◌, ==_iff, ==_refl, Bool-cases, if◌then◌else◌,
}
use flokoa.Api.Workflow.{WorkflowTask}
use flokoa.Webhook.Cycles.Graph.{Adjacency, deps_of, build_adjacency, task_graph, Walk, edge, step}

-- A task named `u` lists `v` in its `dependsOn`.
abbrev pub DependsOn : List WorkflowTask → Text → Text → Type 0
DependsOn tasks u v = (t : WorkflowTask) × Memᴰ t tasks × (t.name ≡ u) × Memᴰ v t.depends_on

-- A chain of at least one dependency.
pub data Leads (tasks : List WorkflowTask) : Text → Text → Type 0 where
  one : {u v : Text} → DependsOn tasks u v → Leads tasks u v
  more : {u v w : Text} → DependsOn tasks u v → Leads tasks v w → Leads tasks u w

edge_sound :
    (tasks : List WorkflowTask) (adj : Adjacency) (u v : Text)
    → Memᴰ v (deps_of (build_adjacency adj tasks) u)
    → DependsOn tasks u v ⊎ Memᴰ v (deps_of adj u)
edge_sound [] adj u v m = inr m
edge_sound (t ∷ ts) adj u v m = elim (edge_sound ts ((t.name, t.depends_on) ∷ adj) u v m) [
  | inl (t', mem, named, dep) ↦ inl (t', Memᴰ.tail mem, named, dep)
  | inr r ↦ elim (Bool-cases (t.name == u)) [
    | inl e ↦ inl (t, Memᴰ.head refl, (==_iff t.name u).0 e, rw (e, if◌then◌else◌) at r)
    | inr e ↦ inr (rw (e, if◌then◌else◌) at r)
  ]
]

unnamed :
    (tasks : List WorkflowTask) (adj : Adjacency) (n : Text)
    → ¬ Memᴰ n (map (λ t. t.name) tasks)
    → deps_of (build_adjacency adj tasks) n ≡ deps_of adj n
unnamed [] adj n h = refl
unnamed (t ∷ ts) adj n h =
    unnamed ts ((t.name, t.depends_on) ∷ adj) n (λ m. h (Memᴰ.tail m)) ∙ other
  where
    other : deps_of ((t.name, t.depends_on) ∷ adj) n ≡ deps_of adj n
    other = elim (Bool-cases (t.name == n)) [
      | inl e ↦ absurd (h (Memᴰ.head (sym ((==_iff t.name n).0 e))))
      | inr e ↦ rw (e, if◌then◌else◌)
    ]

named_deps :
    (tasks : List WorkflowTask) (adj : Adjacency) (t : WorkflowTask)
    → Distinct (map (λ s. s.name) tasks)
    → Memᴰ t tasks
    → deps_of (build_adjacency adj tasks) t.name ≡ t.depends_on
named_deps [] adj t d m = absurd (Memᴰ-nil m)
named_deps (s ∷ ts) adj t (fresh, d) m = elim ((Memᴰ-cons t s ts).0 m) [
  | inl e ↦ rw e (unnamed ts ((s.name, s.depends_on) ∷ adj) s.name fresh ∙ rw (==_refl s.name))
  | inr later ↦ named_deps ts ((s.name, s.depends_on) ∷ adj) t d later
]

module _ (tasks : List WorkflowTask) where
  to_edge : {u v : Text} → Memᴰ v (deps_of (task_graph tasks) u) → DependsOn tasks u v
  to_edge {u} {v} m = ⊎_elim (λ d. d) (λ r. absurd (Memᴰ-nil r)) (edge_sound tasks [] u v m)

  from_edge :
      {u v : Text}
      → Distinct (map (λ s. s.name) tasks)
      → DependsOn tasks u v
      → Memᴰ v (deps_of (task_graph tasks) u)
  from_edge {u} {v} d (t, mem, named, dep) =
      subst (λ n. Memᴰ v (deps_of (task_graph tasks) n)) named
        (rw (named_deps tasks [] t d mem) dep)

  pub to_Leads : {u v : Text} → Walk (task_graph tasks) u v → Leads tasks u v
  to_Leads (edge m) = one (to_edge m)
  to_Leads (step m w) = more (to_edge m) (to_Leads w)

  pub from_Leads :
      {u v : Text}
      → Distinct (map (λ s. s.name) tasks)
      → Leads tasks u v
      → Walk (task_graph tasks) u v
  from_Leads d (one e) = edge (from_edge d e)
  from_Leads d (more e l) = step (from_edge d e) (from_Leads d l)
