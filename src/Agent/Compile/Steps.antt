-- ===== src/Agent/Compile/Steps.antt =====
-- What tools, timeouts and attachments do to the names of the capability entries.
use mathlib.Core.List.{map-append}
use flokoa.Common.{
  ℕ, zero, suc, ◌-◌, ◌≡◌, refl, sym, ap, ◌∙◌, List, [], ◌∷◌, ◌++◌, map, length, take, drop,
  take-append, drop-append, length-append, append_assoc, append-nil, Option, none, some, Text,
  codes, is_empty, if◌then◌else◌, ◌==◌, ==_refl, Bool, true, false, Bool-cases, inl, inr, ℤ, arith,
}
use flokoa.Common.Dict.{lookup, lookup-put}
use flokoa.Agent.Types.{Agent, NamespacedRef, AgentTool, EnvVar}
use flokoa.Agent.Value.{Value, list, float, Doc, Codec, values, entries}
use flokoa.Agent.Value.Labels.{entry_label, list_labels, items-values, canonicalize-labels}
use flokoa.Agent.Errors.{ok}
use flokoa.Agent.Errors.Chains.{bind-ok, found-ok, ok-injective}
use flokoa.Agent.Merge.{
  add_capability, capabilities_key, capability_list, fragment_sets_tool_timeout, tool_timeout_key,
}
use flokoa.Agent.Tools.{Services, default_ns, compile_tool, mcp_entry, prefixed}
use flokoa.Agent.Attachments.{Policy}
use flokoa.Agent.References.{Cluster}
use flokoa.Agent.Compile.{
  is_longer, put_longer, put_timeout, splice, spliced, splice_attached, apply_tools,
}
use flokoa.Agent.Compile.Order.{labels, labels-put, labels-add_capability, list_labels-as_list}

-- The entry of a tool has the name of the capability that wraps it.
abbrev pub tool_label : AgentTool → Text
tool_label t = if is_empty t.tool_prefix then codes "MCP" else codes "PrefixTools"

prefixed-label :
    (prefix : Text) (t : AgentTool) (url : Text)
    → entry_label (prefixed prefix (mcp_entry t url))
      ≡ (if is_empty prefix then codes "MCP" else codes "PrefixTools")
unfolding entries
prefixed-label [] t url = refl
prefixed-label (c ∷ prefix) t url = refl

compile_tool-label :
    (codec : Codec) (services : Services) (t : AgentTool) (v : Value) (env : List EnvVar)
    → compile_tool codec services t ≡ ok (v, env)
    → entry_label v ≡ tool_label t
unfolding compile_tool
compile_tool-label codec services t v env h =
    let (url, _, h1) = bind-ok _ _ _ h in
    ap (λ r. entry_label r.0) (ok-injective h1) ∙ prefixed-label t.tool_prefix t url

labels-put_timeout :
    (codec : Codec) (fixed : Bool) (t : Option ℤ) (doc : Doc)
    → labels (put_timeout codec fixed t doc) ≡ labels doc
unfolding put_timeout ◌==◌
labels-put_timeout codec fixed none doc = refl
labels-put_timeout codec true (some t) doc = refl
labels-put_timeout codec false (some t) doc =
    elim (Bool-cases (is_longer codec t (lookup tool_timeout_key doc))) [
      | inl e ↦ rw (e, put_longer) (labels-put tool_timeout_key (float t) doc refl)
      | inr e ↦ rw (e, put_longer) refl
    ]

map-take : (n : ℕ) (vs : List Value) → map entry_label (take n vs) ≡ take n (map entry_label vs)
map-take zero vs = refl
map-take (suc n) [] = refl
map-take (suc n) (v ∷ vs) = ap (λ ls. entry_label v ∷ ls) (map-take n vs)

map-drop : (n : ℕ) (vs : List Value) → map entry_label (drop n vs) ≡ drop n (map entry_label vs)
map-drop zero vs = refl
map-drop (suc n) [] = refl
map-drop (suc n) (v ∷ vs) = map-drop n vs

length-map : (vs : List Value) → length (map entry_label vs) ≡ length vs
length-map [] = refl
length-map (v ∷ vs) = ap suc (length-map vs)

splice-labels :
    (n : ℕ) (new existing : List Value) (before injected : List Text)
    → map entry_label existing ≡ (before ++ injected)
    → length injected ≡ n
    → map entry_label (splice n new existing) ≡ (before ++ (map entry_label new ++ injected))
unfolding splice
splice-labels n new existing before injected e count =
    let all = sym (length-map existing) ∙ ap length e ∙ length-append before injected in
    let at : (length existing - n) ≡ length before = omega (arith, all, count) in
    let taken : map entry_label (take (length existing - n) existing) ≡ before =
      map-take (length existing - n) existing
      ∙ (λ i. take (at i) (e i))
      ∙ take-append before injected in
    let dropped : map entry_label (drop (length existing - n) existing) ≡ injected =
      map-drop (length existing - n) existing
      ∙ (λ i. drop (at i) (e i))
      ∙ drop-append before injected in
    map-append entry_label (take (length existing - n) existing)
      (new ++ drop (length existing - n) existing)
    ∙ (λ i. taken i ++ map-append entry_label new (drop (length existing - n) existing) i)
    ∙ (λ i. before ++ (map entry_label new ++ dropped i))

module _ (codec : Codec) (cluster : Cluster) (policy : Policy) where
  -- Nothing is spliced in where no Capability is attached, which leaves the names as they are too.
  pub splice_attached-labels :
      (new : List Value) (doc doc' : Doc) (before injected : List Text)
      → splice_attached codec cluster policy new doc ≡ ok doc'
      → labels doc ≡ (before ++ injected)
      → length injected ≡ length policy.injected
      → labels doc' ≡ (before ++ (map entry_label new ++ injected))
  splice_attached-labels [] doc doc' before injected h e count = ap labels (ok-injective h) ∙ e
  splice_attached-labels (v ∷ vs) doc doc' before injected h e count =
      let n = length policy.injected in
      let ws = splice n (v ∷ vs) (capability_list doc) in
      let listed = sym (list_labels-as_list (lookup capabilities_key doc)) ∙ e in
      canonicalize-labels codec capabilities_key (spliced n (v ∷ vs) doc) doc' (found-ok _ _ _ h)
      ∙ ap list_labels (lookup-put capabilities_key capabilities_key (list (values ws)) doc)
      ∙ (λ i. list_labels (
          if ==_refl capabilities_key i
          then some (list (values ws))
          else lookup capabilities_key doc))
      ∙ ap (map entry_label) (items-values ws)
      ∙ splice-labels n (v ∷ vs) (capability_list doc) before injected listed count

  abbrev pub AreRead : Text → List NamespacedRef → List AgentTool → Type 0
  AreRead ns [] [] = Unit {0}
  AreRead ns (ref ∷ refs) (t ∷ ts) =
      (cluster.tools (default_ns ref.namespace ns) ref.name ≡ some t) × AreRead ns refs ts
  AreRead ns _ _ = ⊥

  pub apply_tools-labels :
      (agent : Agent) (refs : List NamespacedRef) (doc doc' : Doc) (env : List EnvVar)
      → apply_tools codec cluster policy agent refs doc ≡ ok (doc', env)
      → (ts : List AgentTool) × AreRead agent.namespace refs ts
        × (labels doc' ≡ (labels doc ++ map tool_label ts))
  unfolding apply_tools
  apply_tools-labels agent [] doc doc' env h =
      ([], tt, ap (λ r. labels r.0) (ok-injective h) ∙ sym (append-nil (labels doc)))
  apply_tools-labels agent (ref ∷ refs) doc doc' env h =
      let (t, reading, h1) = bind-ok _ _ _ h in
      let ((v, own), compiled, h2) = bind-ok _ _ _ h1 in
      let ((d, more), later, h3) = bind-ok _ _ _ h2 in
      let fixed = fragment_sets_tool_timeout codec agent.spec.fragment in
      let next = put_timeout codec fixed t.timeout_seconds (add_capability v doc) in
      let (ts, read, names) = apply_tools-labels agent refs next d more later in
      (
        t ∷ ts,
        (found-ok _ _ _ reading, read),
        ap (λ r. labels r.0) (ok-injective h3)
            ∙ names
            ∙ ap (λ ls. ls ++ map tool_label ts)
                (labels-put_timeout codec fixed t.timeout_seconds (add_capability v doc)
                  ∙ labels-add_capability v doc
                  ∙ ap (λ l. labels doc ++ l ∷ [])
                      (compile_tool-label codec cluster.services t v own compiled))
            ∙ append_assoc (labels doc) (tool_label t ∷ []) (map tool_label ts),
      )
