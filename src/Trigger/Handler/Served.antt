-- ===== src/Trigger/Handler/Served.antt =====
-- What the handler does before it asks the limiter.
use flokoa.Common.{
  ℕ, ◌≡◌, refl, ◌⊎◌, inl, inr, Bool, true, false, not, ◌||◌, Option, none, some, Text, codes,
  is_empty, ◌==◌, same_code, if◌then◌else◌,
}
use flokoa.Trigger.Config.{TriggerConfig}
use flokoa.Trigger.Limiter.{TriggerLimiter}
use flokoa.Trigger.Handler.{
  Request, Services, load_trigger_config, serve_http, serve_config, serve_body, ok, bad_request,
  method_not_allowed,
}

-- Either the request is turned away before the limiter is asked, or the limiter decides.
abbrev pub Served : Services → TriggerLimiter → ℕ → Request → ℕ × TriggerLimiter → Type 0
Served sv l now r x =
    ((same_code x.0 ok ≡ false) × (x.1 ≡ l))
    ⊎ ((c : TriggerConfig) × (load_trigger_config sv r.namespace r.name ≡ some c)
        × (x ≡ serve_config l now r (some c)))

pub serve_http-Served :
    (sv : Services) (l : TriggerLimiter) (now : ℕ) (r : Request)
    → Served sv l now r (serve_http sv l now r)
unfolding serve_http
serve_http-Served sv l now r = posted (r.method == codes "POST")
  where
    configured :
        (o : Option TriggerConfig)
        → load_trigger_config sv r.namespace r.name ≡ o
        → Served sv l now r (serve_config l now r o)
    configured none e = inl (refl, refl)
    configured (some c) e = inr (c, e, refl)

    parsed :
        (b : Bool)
        → Served sv l now r (
            if not b
            then (bad_request, l)
            else serve_config l now r (load_trigger_config sv r.namespace r.name))
    parsed false = inl (refl, refl)
    parsed true = configured (load_trigger_config sv r.namespace r.name) refl

    read : (body : Option Text) → Served sv l now r (serve_body sv l now r body)
    read none = inl (refl, refl)
    read (some text) = parsed (sv.is_payload text)

    named :
        (b : Bool)
        → Served sv l now r (if b then (bad_request, l) else serve_body sv l now r r.body)
    named true = inl (refl, refl)
    named false = read r.body

    posted :
        (b : Bool)
        → Served sv l now r (
            if not b
            then (method_not_allowed, l)
            else if is_empty r.namespace || is_empty r.name
            then (bad_request, l)
            else serve_body sv l now r r.body)
    posted false = inl (refl, refl)
    posted true = named (is_empty r.namespace || is_empty r.name)
