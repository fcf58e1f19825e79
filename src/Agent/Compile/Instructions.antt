-- ===== src/Agent/Compile/Instructions.antt =====
-- Instructions leave the capability entries as they are.
use flokoa.Common.{◌≡◌, refl, ap, ◌∙◌, List, [], ◌∷◌, ◌++◌, Option, none, some, Text, ◌==◌}
use flokoa.Common.Dict.{lookup, without, lookup-without}
use flokoa.Agent.Types.{Agent, AgentSpecFragment}
use flokoa.Agent.Value.{
  Value, null, bool, integer, decimal, float, fraction, text, list, object, Doc, texts,
}
use flokoa.Agent.Value.Labels.{list_labels}
use flokoa.Agent.Merge.{
  capabilities_key, fragment_instructions, extra_instructions, instructions_of, instructions_key,
}
use flokoa.Agent.Errors.{ok}
use flokoa.Agent.Errors.Chains.{bind-ok, ok-injective}
use flokoa.Agent.References.{Cluster, put_instructions, apply_instructions}
use flokoa.Agent.Compile.Order.{labels, labels-put}

labels-without : (doc : Doc) → labels (without instructions_key doc) ≡ labels doc
unfolding ◌==◌
labels-without doc = ap list_labels (lookup-without instructions_key capabilities_key doc)

labels-put_instructions :
    (ts : List Text) (doc : Doc) → labels (put_instructions ts doc) ≡ labels doc
unfolding ◌==◌
labels-put_instructions [] doc = refl
labels-put_instructions (t ∷ ts) doc = labels-put instructions_key (texts (t ∷ ts)) doc refl

labels-extra_instructions :
    (v : Option Value) (doc : Doc) → labels (extra_instructions v doc).1 ≡ labels doc
labels-extra_instructions (some (text t)) doc = labels-without doc
labels-extra_instructions (some (list vs)) doc = labels-without doc
labels-extra_instructions none doc = refl
labels-extra_instructions (some null) doc = refl
labels-extra_instructions (some (bool b)) doc = refl
labels-extra_instructions (some (integer n)) doc = refl
labels-extra_instructions (some (decimal t)) doc = refl
labels-extra_instructions (some (float n)) doc = refl
labels-extra_instructions (some (fraction t)) doc = refl
labels-extra_instructions (some (object m)) doc = refl

labels-fragment_instructions :
    (frag : Option AgentSpecFragment) (doc : Doc)
    → labels (fragment_instructions frag doc).1 ≡ labels doc
unfolding fragment_instructions lookup
labels-fragment_instructions frag doc = go (instructions_of frag) refl
  where
    go :
        (ts : List Text)
        → instructions_of frag ≡ ts
        → labels (fragment_instructions frag doc).1 ≡ labels doc
    go [] e =
        rw (e, fragment_instructions) (labels-extra_instructions (lookup instructions_key doc) doc)
    go (t ∷ ts) e = rw (e, fragment_instructions) refl

pub labels-apply_instructions :
    (cluster : Cluster) (agent : Agent) (doc doc' : Doc)
    → apply_instructions cluster agent doc ≡ ok doc'
    → labels doc' ≡ labels doc
unfolding apply_instructions
labels-apply_instructions cluster agent doc doc' h =
    let (referenced, _, h1) = bind-ok _ _ _ h in
    let own = fragment_instructions agent.spec.fragment doc in
    ap labels (ok-injective h1)
    ∙ labels-put_instructions (referenced ++ own.0) own.1
    ∙ labels-fragment_instructions agent.spec.fragment doc
