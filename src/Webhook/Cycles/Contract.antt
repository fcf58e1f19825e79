-- ===== src/Webhook/Cycles/Contract.antt =====
-- What each part of the cycle search owes, and how the debts of two parts join.
use flokoa.Common.{
  ℕ, suc, ◌+◌, ◌≤◌, ◌≡◌, refl, sym, subst, ◌⊎◌, inl, inr, ⊎_elim, Bool, true, false, List, [], ◌∷◌,
  Memᴰ, Memᴰ-cons, Memᴰ-nil, Text, ◌==◌, ==_iff, Bool-cases, length, count_one, arith,
}
use flokoa.Webhook.Cycles.Graph.{Adjacency, deps_of, Walk, edge, Walk-snoc, nodes}
use flokoa.Webhook.Cycles.Search.{
  Color, white, gray, black, Colors, color_of, Outcome, finished, cycle, out_of_fuel, and_then,
}

abbrev pub is_white : Color → Bool
is_white white = true
is_white gray = false
is_white black = false

pub Color-cases : (c : Color) → (c ≡ white) ⊎ (c ≡ gray) ⊎ (c ≡ black)
Color-cases white = inl refl
Color-cases gray = inr (inl refl)
Color-cases black = inr (inr refl)

abbrev pub whites : Colors → List Text → ℕ
whites c [] = 0
whites c (x ∷ xs) = count_one (is_white (color_of c x)) + whites c xs

pub whites-le :
    (c d : Colors) (xs : List Text)
    → ((x : Text) → color_of d x ≡ white → color_of c x ≡ white)
    → whites d xs ≤ whites c xs
whites-le c d [] h = omega arith
whites-le c d (x ∷ xs) h = ground (arith, whites-le c d xs h, h x)

pub whites_start : (xs : List Text) → whites [] xs ≡ length xs
whites_start [] = refl
whites_start (x ∷ xs) = omega (arith, whites_start xs)

paint-whites :
    (c : Colors) (name x : Text) (k : Color)
    → color_of ((name, k) ∷ c) x ≡ white
    → k ≡ gray
    → color_of c x ≡ white
paint-whites c name x k h e = ground arith

pub whites_paint :
    (c : Colors) (name : Text) (xs : List Text)
    → color_of c name ≡ white
    → Memᴰ name xs
    → suc (whites ((name, gray) ∷ c) xs) ≤ whites c xs
whites_paint c name [] e m = absurd (Memᴰ-nil m)
whites_paint c name (x ∷ xs) e m = elim (Bool-cases (name == x)) [
  | inl same ↦
      let at : name ≡ x = (==_iff name x).0 same in
      let e' : color_of c x ≡ white = subst (λ t. color_of c t ≡ white) at e in
      let rest = whites-le c ((name, gray) ∷ c) xs (λ y h. paint-whites c name y gray h refl) in
      ground arith
  | inr other ↦
      let later : Memᴰ name xs =
        ⊎_elim (λ at. absurd (cc (other, (==_iff name x).1 at))) (λ r. r)
          ((Memᴰ-cons name x xs).0 m) in
      ground (arith, whites_paint c name xs e later)
]

module _ (adj : Adjacency) where
  -- The black nodes are closed under edges and lie on no cycle.
  pub record Fine (c : Colors) : Type 0 where
    pub closed : (u v : Text) → color_of c u ≡ black → Memᴰ v (deps_of adj u) → color_of c v ≡ black
    pub acyclic : (u : Text) → color_of c u ≡ black → Walk adj u u → ⊥

  pub record Post (c d : Colors) : Type 0 where
    pub keeps_gray : (x : Text) → color_of c x ≡ gray → color_of d x ≡ gray
    pub from_gray : (x : Text) → color_of d x ≡ gray → color_of c x ≡ gray
    pub keeps_black : (x : Text) → color_of c x ≡ black → color_of d x ≡ black
    pub fine : Fine d

  pub Post-refl : {c : Colors} → Fine c → Post c c
  Post-refl f = record {
    keeps_gray = λ x h. h;
    from_gray = λ x h. h;
    keeps_black = λ x h. h;
    fine = f;
  }

  Post-trans : {b c d : Colors} → Post b c → Post c d → Post b d
  Post-trans p q = record {
    keeps_gray = λ x h. q.keeps_gray x (p.keeps_gray x h);
    from_gray = λ x h. p.from_gray x (q.from_gray x h);
    keeps_black = λ x h. q.keeps_black x (p.keeps_black x h);
    fine = q.fine;
  }

  pub Post-white :
      {c d : Colors} → Post c d → (x : Text) → color_of d x ≡ white → color_of c x ≡ white
  Post-white {c} {d} p x h = elim (Color-cases (color_of c x)) [
    | inl w ↦ w
    | inr (inl g) ↦ cc (h, p.keeps_gray x g)
    | inr (inr b) ↦ cc (h, p.keeps_black x b)
  ]

  -- What a part of the search owes: it ends; a reported task lies on a cycle; and when it finishes
  -- it has changed no gray node, and `Q` holds.
  abbrev pub Good : Colors → (Colors → Type 0) → Outcome → Type 0
  Good c Q (finished d) = Post c d × Q d
  Good c Q (cycle d) = Walk adj d d
  Good c Q out_of_fuel = ⊥

  pub Good-and_then :
      (c : Colors) (P Q : Colors → Type 0) (r : Outcome) (k : Colors → Outcome)
      → Good c P r
      → ((d : Colors) → Post c d → P d → Good d Q (k d))
      → Good c Q (and_then r k)
  Good-and_then c P Q (finished d) k (p, h) next = weaken (k d) (next d p h)
    where
      weaken : (r : Outcome) → Good d Q r → Good c Q r
      weaken (finished e) (q, g) = (Post-trans p q, g)
      weaken (cycle x) g = g
      weaken out_of_fuel g = g
  Good-and_then c P Q (cycle d) k h next = h
  Good-and_then c P Q out_of_fuel k h next = h

  pub Good-map :
      (c : Colors) (P Q : Colors → Type 0) (r : Outcome)
      → ((d : Colors) → Post c d → P d → Q d)
      → Good c P r
      → Good c Q r
  Good-map c P Q (finished d) f (p, h) = (p, f d p h)
  Good-map c P Q (cycle d) f h = h
  Good-map c P Q out_of_fuel f h = h

  -- The task `name` is painted gray: every gray task leads to it.
  abbrev pub LeadsTo : Colors → Text → Type 0
  LeadsTo c name = (g : Text) → color_of c g ≡ gray → (g ≡ name) ⊎ Walk adj g name

  abbrev pub Visits : ℕ → (Text → Colors → Outcome) → Type 0
  Visits bound go =
      (d : Text) (c : Colors)
      → Fine c
      → color_of c d ≡ white
      → Memᴰ d (nodes adj)
      → ((g : Text) → color_of c g ≡ gray → Walk adj g d)
      → whites c (nodes adj) ≤ bound
      → Good c (λ c'. color_of c' d ≡ black) (go d c)

  pub to_dep :
      {g name dep : Text}
      → (g ≡ name) ⊎ Walk adj g name
      → Memᴰ dep (deps_of adj name)
      → Walk adj g dep
  to_dep {dep} (inl e) m = edge (subst (λ t. Memᴰ dep (deps_of adj t)) (sym e) m)
  to_dep {dep} (inr w) m = Walk-snoc w m
