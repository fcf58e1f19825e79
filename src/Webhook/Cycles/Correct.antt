-- ===== src/Webhook/Cycles/Correct.antt =====
-- The search against its contract: fuel, the cycles reported, and those missed.
use mathlib.Core.List.Memᴰ
use flokoa.Common.{
  ℕ, zero, suc, ◌≤◌, ◌≡◌, refl, sym, ◌∙◌, subst, ◌⊎◌, inl, inr, ⊎_elim, List, [], ◌∷◌, Memᴰ,
  Memᴰ-cons, Memᴰ-nil, Text, ◌==◌, ==_iff, if◌then◌else◌, Bool-cases, arith,
}
use flokoa.Webhook.Cycles.Graph.{Adjacency, deps_of, Walk, edge, step, nodes}
use flokoa.Webhook.Cycles.Search.{
  Color, white, gray, black, Colors, color_of, Outcome, finished, cycle, out_of_fuel, and_then,
  visit_deps, visit,
}
use flokoa.Webhook.Cycles.Contract.{
  Color-cases, whites, whites_paint, Fine, Post, Post-refl, Post-white, whites-le, Good,
  Good-and_then, Good-map, LeadsTo, Visits, to_dep,
}

module _ (adj : Adjacency) (bound : ℕ) (go : Text → Colors → Outcome) (go_ok : Visits adj bound go)
    (name : Text) where
  abbrev Done : List Text → Colors → Type 0
  Done deps c = (d : Text) → Memᴰ d deps → color_of c d ≡ black

  -- The loop over the dependencies of a gray task paints all of them black.
  pub visit_deps_lem :
      (deps : List Text) (c : Colors)
      → ((d : Text) → Memᴰ d deps → Memᴰ d (deps_of adj name) × Memᴰ d (nodes adj))
      → Fine adj c
      → LeadsTo adj c name
      → whites c (nodes adj) ≤ bound
      → Good adj c (Done deps) (visit_deps go deps c)
  unfolding visit_deps
  visit_deps_lem [] c sub f lead w = (Post-refl adj f, λ d m. absurd (Memᴰ-nil m))
  visit_deps_lem (dep ∷ deps) c sub f lead w = elim (Color-cases (color_of c dep)) [
    | inl e ↦
        rw (e, visit_deps)
          (Good-and_then adj c (λ c'. color_of c' dep ≡ black) (Done (dep ∷ deps)) (go dep c)
            (λ c'. visit_deps go deps c')
            (go_ok dep c f e here.1 (λ g h. to_dep adj (lead g h) here.0) w)
            (λ d p blk.
              Good-map adj d (Done deps) (Done (dep ∷ deps)) (visit_deps go deps d)
                (λ d' p' done. all_of d' (p'.keeps_black dep blk) done)
                (visit_deps_lem deps d rest p.fine (λ g h. lead g (p.from_gray g h))
                  (omega (arith, whites-le c d (nodes adj) (Post-white adj p))))))
    | inr (inl e) ↦ rw (e, visit_deps) (to_dep adj (lead dep e) here.0)
    | inr (inr e) ↦
        rw (e, visit_deps)
          (Good-map adj c (Done deps) (Done (dep ∷ deps)) (visit_deps go deps c)
            (λ d p done. all_of d (p.keeps_black dep e) done) (visit_deps_lem deps c rest f lead w))
  ]
    where
      here : Memᴰ dep (deps_of adj name) × Memᴰ dep (nodes adj)
      here = sub dep (Memᴰ.head refl)

      rest : (d : Text) → Memᴰ d deps → Memᴰ d (deps_of adj name) × Memᴰ d (nodes adj)
      rest d m = sub d (Memᴰ.tail m)

      all_of : (d : Colors) → color_of d dep ≡ black → Done deps d → Done (dep ∷ deps) d
      all_of d b done x m =
          ⊎_elim (λ e. subst (λ t. color_of d t ≡ black) (sym e) b) (done x)
            ((Memᴰ-cons x dep deps).0 m)

color_here : (c : Colors) (d x : Text) (k : Color) → d ≡ x → color_of ((d, k) ∷ c) x ≡ k
color_here c d x k e = ground (arith, ==_iff d x)

color_there :
    (c : Colors) (d x : Text) (k : Color) → (d ≡ x → ⊥) → color_of ((d, k) ∷ c) x ≡ color_of c x
color_there c d x k h = ground (arith, ==_iff d x)

Text-cases : (s t : Text) → (s ≡ t) ⊎ (s ≡ t → ⊥)
Text-cases s t = ground (arith, ==_iff s t)

black_under_gray :
    (c : Colors) (d u : Text) → color_of ((d, gray) ∷ c) u ≡ black → color_of c u ≡ black
black_under_gray c d u h = ground arith

black_under_black :
    (c : Colors) (d u : Text) → color_of c u ≡ black → color_of ((d, black) ∷ c) u ≡ black
black_under_black c d u h = ground arith

module _ (adj : Adjacency) where
  Fine-gray : (c : Colors) (d : Text) → color_of c d ≡ white → Fine adj c → Fine adj ((d, gray) ∷ c)
  Fine-gray c d e f = record {
    closed = λ u v b m. ground (arith, ==_iff d u, ==_iff d v, f.closed u v);
    acyclic = λ u b. f.acyclic u (black_under_gray c d u b);
  }

  black-Walk :
      (c : Colors) {u v : Text}
      → Fine adj c
      → color_of c u ≡ black
      → Walk adj u v
      → color_of c v ≡ black
  black-Walk c {u} {v} f b (edge m) = f.closed u v b m
  black-Walk c f b (step {u} {v} m w) = black-Walk c f (f.closed u v b m) w

  -- A node whose dependencies are all black lies on no cycle.
  no_cycle_through :
      (c : Colors) (d : Text)
      → Fine adj c
      → color_of c d ≡ gray
      → ((x : Text) → Memᴰ x (deps_of adj d) → color_of c x ≡ black)
      → Walk adj d d
      → ⊥
  no_cycle_through c d f g done (edge m) = cc (g, done d m)
  no_cycle_through c d f g done (step {u} {v} m w) = cc (g, black-Walk c f (done v m) w)

  Fine-black :
      (c : Colors) (d : Text)
      → Fine adj c
      → color_of c d ≡ gray
      → ((x : Text) → Memᴰ x (deps_of adj d) → color_of c x ≡ black)
      → Fine adj ((d, black) ∷ c)
  Fine-black c d f g done = record {
    closed = λ u v b m. elim (Text-cases d u) [
      | inl e ↦ black_under_black c d v (done v (subst (λ t. Memᴰ v (deps_of adj t)) (sym e) m))
      | inr ne ↦ black_under_black c d v (f.closed u v (sym (color_there c d u black ne) ∙ b) m)
    ];
    acyclic = λ u b w. elim (Text-cases d u) [
      | inl e ↦ no_cycle_through c d f g done (subst (λ t. Walk adj t t) (sym e) w)
      | inr ne ↦ f.acyclic u (sym (color_there c d u black ne) ∙ b) w
    ];
  }

  Post-blacken :
      (c c' : Colors) (d : Text)
      → color_of c d ≡ white
      → Post adj ((d, gray) ∷ c) c'
      → ((x : Text) → Memᴰ x (deps_of adj d) → color_of c' x ≡ black)
      → Post adj c ((d, black) ∷ c')
  Post-blacken c c' d e p done = record {
    keeps_gray = λ x h. ground (arith, ==_iff d x, p.keeps_gray x);
    from_gray = λ x h. ground (arith, ==_iff d x, p.from_gray x);
    keeps_black = λ x h. ground (arith, ==_iff d x, p.keeps_black x);
    fine = Fine-black c' d p.fine (p.keeps_gray d (color_here c d d gray refl)) done;
  }

  -- The end of `visit`.
  blacken :
      (c : Colors) (d : Text) (r : Outcome)
      → color_of c d ≡ white
      → Good adj
          ((d, gray) ∷ c)
          (λ c'. (x : Text) → Memᴰ x (deps_of adj d) → color_of c' x ≡ black)
          r
      → Good adj c (λ c'. color_of c' d ≡ black) (and_then r (λ c'. finished ((d, black) ∷ c')))
  blacken c d (finished c') e (p, done) =
      (Post-blacken c c' d e p done, color_here c' d d black refl)
  blacken c d (cycle x) e h = h
  blacken c d out_of_fuel e h = h

  deps-subset-nodes :
      (adj : Adjacency) (name d : Text) → Memᴰ d (deps_of adj name) → Memᴰ d (nodes adj)
  deps-subset-nodes [] name d m = absurd (Memᴰ-nil m)
  deps-subset-nodes ((key, deps) ∷ adj) name d m = elim (Bool-cases (key == name)) [
    | inl e ↦ Memᴰ.tail (Memᴰ.append_left _ (rw (e, if◌then◌else◌) at m))
    | inr e ↦
        Memᴰ.tail
          (Memᴰ.append_right deps (deps-subset-nodes adj name d (rw (e, if◌then◌else◌) at m)))
  ]

  pub visit_lem : (fuel : ℕ) → Visits adj fuel (visit adj fuel)
  unfolding visit
  visit_lem zero d c f e m lead w = absurd (omega (arith, whites_paint c d (nodes adj) e m))
  visit_lem (suc fuel) d c f e m lead w =
      blacken c d (visit_deps (visit adj fuel) (deps_of adj d) ((d, gray) ∷ c)) e (
        visit_deps_lem adj fuel (visit adj fuel) (visit_lem fuel) d (deps_of adj d) ((d, gray) ∷ c)
          (λ x mx. (mx, deps-subset-nodes adj d x mx)) (Fine-gray c d e f)
          (λ g h. elim (Text-cases d g) [
            | inl same ↦ inl (sym same)
            | inr ne ↦ inr (lead g (sym (color_there c d g gray ne) ∙ h))
          ])
          (omega (arith, whites_paint c d (nodes adj) e m)))
