-- ===== src/Agent/Compile/Timeouts.antt =====
-- The tool timeout that applyTools puts into a document.
use flokoa.Common.{
  ◌≡◌, refl, sym, ap, subst, ◌∙◌, ℤ, at_least, at_least_refl, at_least_total, at_least_trans, List,
  [], ◌∷◌, ◌++◌, append_assoc, append-nil, All, All-append, All-imp, Memᴰ, Memᴰ-left, Memᴰ-last,
  Option, none, some, ◌==◌, ==_refl, true, false, Bool-cases, Option-cases, ◌⊎◌, inl, inr, not,
  if◌then◌else◌,
}
use flokoa.Common.Dict.{lookup, put, lookup-put}
use flokoa.Agent.Types.{Agent, AgentTool, EnvVar, NamespacedRef}
use flokoa.Agent.Value.{Value, float, list, Doc, Codec, values}
use flokoa.Agent.Value.Labels.{some-injective}
use flokoa.Agent.Errors.{ok}
use flokoa.Agent.Errors.Chains.{bind-ok, found-ok, ok-injective}
use flokoa.Agent.Merge.{
  add_capability, capabilities_key, capability_list, tool_timeout_key, fragment_sets_tool_timeout,
}
use flokoa.Agent.Attachments.{Policy}
use flokoa.Agent.References.{Cluster}
use flokoa.Agent.Compile.{is_longer, put_longer, put_timeout, apply_tools}
use flokoa.Agent.Compile.Steps.{AreRead}

abbrev pub Unset : AgentTool → Type 0
Unset t = t.timeout_seconds ≡ none

abbrev pub AtMost : ℤ → AgentTool → Type 0
AtMost n t = (k : ℤ) → t.timeout_seconds ≡ some k → at_least n k ≡ true

-- A value is the longest timeout of some tools; there is none where no tool sets one.
abbrev pub IsLongest : Option Value → List AgentTool → Type 0
IsLongest o ts =
    (All Unset ts × (o ≡ none))
    ⊎ ((n : ℤ) × (o ≡ some (float n))
        × ((t : AgentTool) × Memᴰ t ts × (t.timeout_seconds ≡ some n))
        × All (AtMost n) ts)

abbrev pub timeout_of : Doc → Option Value
timeout_of doc = lookup tool_timeout_key doc

timeout_of-add_capability :
    (v : Value) (doc : Doc) → timeout_of (add_capability v doc) ≡ timeout_of doc
unfolding add_capability ◌==◌
timeout_of-add_capability v doc =
    lookup-put capabilities_key tool_timeout_key (list (values (capability_list doc ++ v ∷ []))) doc

timeout_of-put :
    (k : ℤ) (doc : Doc) → timeout_of (put tool_timeout_key (float k) doc) ≡ some (float k)
timeout_of-put k doc =
    lookup-put tool_timeout_key tool_timeout_key (float k) doc
    ∙ (λ i. if ==_refl tool_timeout_key i then some (float k) else lookup tool_timeout_key doc)

module _ (codec : Codec) where
  -- What one tool with a timeout does.
  timeout_of-longer :
      (k : ℤ) (doc : Doc)
      → is_longer codec k (timeout_of doc) ≡ true
      → timeout_of (put_longer codec k doc) ≡ some (float k)
  timeout_of-longer k doc e = rw (e, put_longer) (timeout_of-put k doc)

  timeout_of-kept :
      (k : ℤ) (doc : Doc)
      → is_longer codec k (timeout_of doc) ≡ false
      → timeout_of (put_longer codec k doc) ≡ timeout_of doc
  timeout_of-kept k doc e = rw (e, put_longer) refl

  IsLongest-put_longer :
      (k : ℤ) (doc : Doc) (t : AgentTool) (seen : List AgentTool)
      → t.timeout_seconds ≡ some k
      → IsLongest (timeout_of doc) seen
      → IsLongest (timeout_of (put_longer codec k doc)) (seen ++ t ∷ [])
  IsLongest-put_longer k doc t seen set (inl (unset, absent)) = inr (
    k,
    timeout_of-longer k doc (ap (is_longer codec k) absent),
    (t, Memᴰ-last t seen, set),
    All-append (AtMost k) seen (t ∷ []) (All-imp Unset (AtMost k) seen (λ u e j e'. cc) unset) (
      λ j e.
          subst (λ x. at_least k x ≡ true) (sym (some-injective (sym set ∙ e))) (at_least_refl k),
      tt,
    ),
  )
  IsLongest-put_longer k doc t seen set (inr (n, is, (u, m, e), all)) =
      elim (Bool-cases (at_least n k)) [
        | inl ge ↦ inr (
          n,
          timeout_of-kept k doc (ap (is_longer codec k) is ∙ ap not ge) ∙ is,
          (u, Memᴰ-left u seen (t ∷ []) m, e),
          All-append (AtMost n) seen (t ∷ []) all (
            λ j e'. subst (λ x. at_least n x ≡ true) (sym (some-injective (sym set ∙ e'))) ge,
            tt,
          ),
        )
        | inr lt ↦ inr (
          k,
          timeout_of-longer k doc (ap (is_longer codec k) is ∙ ap not lt),
          (t, Memᴰ-last t seen, set),
          All-append (AtMost k) seen (t ∷ [])
              (All-imp (AtMost n) (AtMost k) seen
                (λ w h j e'. at_least_trans k n j (at_least_total n k lt) (h j e')) all)
              (
                λ j e'.
                    subst (λ x. at_least k x ≡ true) (sym (some-injective (sym set ∙ e')))
                      (at_least_refl k),
                tt,
              ),
        )
      ]

  IsLongest-put_timeout :
      (doc : Doc) (t : AgentTool) (seen : List AgentTool)
      → IsLongest (timeout_of doc) seen
      → IsLongest (timeout_of (put_timeout codec false t.timeout_seconds doc)) (seen ++ t ∷ [])
  unfolding put_timeout
  IsLongest-put_timeout doc t seen l = elim (Option-cases t.timeout_seconds) [
    | inr (k, e) ↦ at e (IsLongest-put_longer k doc t seen e l)
    | inl e ↦ at e (elim l [
      | inl (unset, absent) ↦ inl (All-append Unset seen (t ∷ []) unset (e, tt), absent)
      | inr (n, is, (u, m, e'), all) ↦ inr (
        n,
        is,
        (u, Memᴰ-left u seen (t ∷ []) m, e'),
        All-append (AtMost n) seen (t ∷ []) all (λ j e'. let bad = sym e ∙ e' in cc, tt),
      )
    ])
  ]
    where
      at :
          {o : Option ℤ}
          → t.timeout_seconds ≡ o
          → IsLongest (timeout_of (put_timeout codec false o doc)) (seen ++ t ∷ [])
          → IsLongest (timeout_of (put_timeout codec false t.timeout_seconds doc)) (seen ++ t ∷ [])
      at e =
          subst (λ o. IsLongest (timeout_of (put_timeout codec false o doc)) (seen ++ t ∷ []))
            (sym e)

module _ (codec : Codec) (cluster : Cluster) (policy : Policy) (agent : Agent) where
  IsLongest-from :
      (refs : List NamespacedRef) (doc doc' : Doc) (env : List EnvVar) (seen : List AgentTool)
      → fragment_sets_tool_timeout codec agent.spec.fragment ≡ false
      → IsLongest (timeout_of doc) seen
      → apply_tools codec cluster policy agent refs doc ≡ ok (doc', env)
      → (ts : List AgentTool) × AreRead codec cluster policy agent.namespace refs ts
        × IsLongest (timeout_of doc') (seen ++ ts)
  unfolding apply_tools
  IsLongest-from [] doc doc' env seen unfixed l h = (
    [],
    tt,
    subst (IsLongest (timeout_of doc')) (sym (append-nil seen))
        (subst (λ d. IsLongest (timeout_of d) seen) (sym (ap (λ r. r.0) (ok-injective h))) l),
  )
  IsLongest-from (ref ∷ refs) doc doc' env seen unfixed l h =
      let (t, reading, h1) = bind-ok _ _ _ h in
      let ((v, own), _, h2) = bind-ok _ _ _ h1 in
      let ((d, more), later, h3) = bind-ok _ _ _ h2 in
      let fixed = fragment_sets_tool_timeout codec agent.spec.fragment in
      let added = add_capability v doc in
      let next = put_timeout codec fixed t.timeout_seconds added in
      let step =
        IsLongest-put_timeout codec added t seen
          (subst (λ o. IsLongest o seen) (sym (timeout_of-add_capability v doc)) l) in
      let step' =
        subst
          (λ b.
            IsLongest (timeout_of (put_timeout codec b t.timeout_seconds added)) (seen ++ t ∷ []))
          (sym unfixed) step in
      let (ts, read, l') = IsLongest-from refs next d more (seen ++ t ∷ []) unfixed step' later in
      (
        t ∷ ts,
        (found-ok _ _ _ reading, read),
        subst (IsLongest (timeout_of doc')) (append_assoc seen (t ∷ []) ts) (
            subst (λ x. IsLongest (timeout_of x) ((seen ++ t ∷ []) ++ ts))
              (sym (ap (λ r. r.0) (ok-injective h3))) l'),
      )

  -- Where neither the document nor the fragment has a tool timeout, applyTools puts in the longest one
  -- of the tools that are referred to: it is the timeout of one of them and at least that of each. If
  -- none of them has a timeout, the document has none.
  pub apply_tools-IsLongest :
      (doc doc' : Doc) (env : List EnvVar)
      → fragment_sets_tool_timeout codec agent.spec.fragment ≡ false
      → lookup tool_timeout_key doc ≡ none
      → apply_tools codec cluster policy agent agent.spec.tools doc ≡ ok (doc', env)
      → (ts : List AgentTool) × AreRead codec cluster policy agent.namespace agent.spec.tools ts
        × IsLongest (lookup tool_timeout_key doc') ts
  apply_tools-IsLongest doc doc' env unfixed absent h =
      IsLongest-from agent.spec.tools doc doc' env [] unfixed (inl (tt, absent)) h
