-- ===== src/Agent/Tools/Shared.antt =====
-- Header secrets of two tools.
use flokoa.Common.{
  ◌≡◌, refl, sym, ap, subst, ◌∙◌, List, [], ◌∷◌, ◌++◌, map, append_assoc, Text, codes, Memᴰ,
  Memᴰ-cons, Memᴰ-nil, inl, inr,
}
use flokoa.Agent.Capability.{lower}
use flokoa.Agent.Types.{AgentTool, SecretHeader, EnvVar, secret}
use flokoa.Agent.Value.{Value, Codec}
use flokoa.Agent.Secrets.{secret_env_name}
use flokoa.Agent.Errors.{ok}
use flokoa.Agent.Errors.Chains.{bind-ok, ok-injective}
use flokoa.Agent.Tools.{Services, tool_secret_ref_name, secret_header_env, compile_tool}

lower-append : (s t : Text) → map lower (s ++ t) ≡ (map lower s ++ map lower t)
lower-append [] t = refl
lower-append (c ∷ s) t = ap (λ r. lower c ∷ r) (lower-append s t)

Memᴰ-map : {A B : Type 0} (f : A → B) (a : A) (xs : List A) → Memᴰ a xs → Memᴰ (f a) (map f xs)
Memᴰ-map f a [] m = absurd (Memᴰ-nil m)
Memᴰ-map f a (x ∷ xs) m = elim ((Memᴰ-cons a x xs).0 m) [
  | inl same ↦ (Memᴰ-cons (f a) (f x) (map f xs)).1 (inl (ap f same))
  | inr later ↦ (Memᴰ-cons (f a) (f x) (map f xs)).1 (inr (Memᴰ-map f a xs later))
]

tool_secret_ref_name-shared :
    (base suffix header : Text)
    → map lower suffix ≡ suffix
    → tool_secret_ref_name (base ++ (codes "-" ++ suffix)) header
      ≡ tool_secret_ref_name base (suffix ++ (codes "-" ++ header))
unfolding tool_secret_ref_name
tool_secret_ref_name-shared base suffix header low =
    let lowered : map lower (suffix ++ (codes "-" ++ header))
        ≡ (suffix ++ (codes "-" ++ map lower header)) =
      lower-append suffix (codes "-" ++ header)
      ∙ ap (λ s. s ++ (codes "-" ++ map lower header)) low in
    ap (λ r. codes "tool-" ++ r)
      (append_assoc base (codes "-" ++ suffix) (codes "-" ++ map lower header)
        ∙ ap (λ r. base ++ (codes "-" ++ r)) (sym lowered))

module _ (codec : Codec) (services : Services) where
  compile_tool-env :
      (t : AgentTool) (e : Value) (env : List EnvVar) (h : SecretHeader)
      → compile_tool codec services t ≡ ok (e, env)
      → Memᴰ h t.header_secrets
      → Memᴰ (secret_header_env t.name h) env
  unfolding compile_tool
  compile_tool-env t e env h compiled m =
      let (url, _, h1) = bind-ok _ _ _ compiled in
      subst (Memᴰ (secret_header_env t.name h)) (sym (ap (λ r. r.1) (ok-injective h1)))
        (Memᴰ-map (secret_header_env t.name) h t.header_secrets m)

  -- Two tools, one named like the other with a dash and lowercase letters after it, have one
  -- environment variable for two secrets, if the second has a header that is named with those letters,
  -- a dash, and a header of the first.
  pub compile_tool-shared_env :
      (t u : AgentTool) (h k : SecretHeader) (base suffix : Text) (e f : Value)
      (env env' : List EnvVar)
      → t.name ≡ (base ++ (codes "-" ++ suffix))
      → u.name ≡ base
      → k.name ≡ (suffix ++ (codes "-" ++ h.name))
      → map lower suffix ≡ suffix
      → Memᴰ h t.header_secrets
      → Memᴰ k u.header_secrets
      → compile_tool codec services t ≡ ok (e, env)
      → compile_tool codec services u ≡ ok (f, env')
      → (name : Text) × Memᴰ (record { name = name; source = secret h.secret_ref }) env
        × Memᴰ (record { name = name; source = secret k.secret_ref }) env'
  unfolding secret_env_name
  compile_tool-shared_env t u h k base suffix e f env env' nt nu nk low m m' compiled compiled' =
      let same =
        (λ i. tool_secret_ref_name (nt i) h.name)
        ∙ tool_secret_ref_name-shared base suffix h.name low
        ∙ (λ i. tool_secret_ref_name (sym nu i) (sym nk i)) in
      (
        secret_env_name (tool_secret_ref_name u.name k.name),
        subst (λ n. Memᴰ (record { name = secret_env_name n; source = secret h.secret_ref }) env)
            same (compile_tool-env t e env h compiled m),
        compile_tool-env u f env' k compiled' m',
      )
