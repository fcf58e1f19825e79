-- ===== src/Trigger/Spec/Valid.antt =====
-- Which specs ValidateSpec accepts.
use flokoa.Common.{
  ℕ, suc, ◌≡◌, ◌≢◌, ◌↔◌, refl, List, [], ◌∷◌, Option, none, some, Text, is_empty, if◌then◌else◌,
  All, arith, true,
}
use flokoa.Trigger.Spec.{
  TriggerSpecError, DataFilter, TriggerFilter, PushNotificationTarget, AgentTriggerSpec, push_error,
  check_push, is_nil, check_data, check_exprs, first_error, check_filter, validate_spec,
  agent_name_required, event_name_required, event_source_name_required,
}

-- Exactly one target: a URL without a reference, or a reference with a name and no URL.
abbrev pub IsOneTarget : Option Text → Text → Type 0
IsOneTarget none url = url ≢ []
IsOneTarget (some name) url = (name ≢ []) × (url ≡ [])

abbrev pub HasOneTarget : Option PushNotificationTarget → Type 0
HasOneTarget none = Unit {0}
HasOneTarget (some p) = IsOneTarget p.agent_ref p.url

abbrev pub IsDataFilter : DataFilter → Type 0
IsDataFilter f = (f.path ≢ []) × (f.values ≢ [])

abbrev pub IsFilter : Option TriggerFilter → Type 0
IsFilter none = Unit {0}
IsFilter (some f) = All IsDataFilter f.data_filters × All (λ e. e ≢ []) f.exprs

pub record IsValid (s : AgentTriggerSpec) : Type 0 where
  pub event_source : s.event_source.name ≢ []
  pub event_name : s.event_source.event_name ≢ []
  pub agent : s.agent_name ≢ []
  pub push : HasOneTarget s.push_notification
  pub filter : IsFilter s.filter

module _ {A : Type 0} where
  is_nil_iff : (xs : List A) → (is_nil xs ≡ true) ↔ (xs ≡ [])
  is_nil_iff [] = (λ h. refl, λ h. refl)
  is_nil_iff (x ∷ xs) = (λ h. cc, λ h. cc)

is_empty_iff : (t : Text) → (is_empty t ≡ true) ↔ (t ≡ [])
is_empty_iff [] = (λ h. refl, λ h. refl)
is_empty_iff (c ∷ t) = (λ h. cc, λ h. cc)

first_error-none :
    (a b : Option TriggerSpecError) → (first_error a b ≡ none) ↔ ((a ≡ none) × (b ≡ none))
first_error-none none b = (λ h. (refl, h), λ h. h.1)
first_error-none (some e) b = (λ h. cc, λ h. cc)

check_data-none : (i : ℕ) (fs : List DataFilter) → (check_data i fs ≡ none) ↔ All IsDataFilter fs
unfolding check_data
check_data-none i [] = (λ h. tt, λ h. refl)
check_data-none i (f ∷ fs) =
    ground (arith, check_data-none (suc i) fs, is_empty_iff f.path, is_nil_iff f.values)

check_exprs-none : (i : ℕ) (es : List Text) → (check_exprs i es ≡ none) ↔ All (λ e. e ≢ []) es
unfolding check_exprs
check_exprs-none i [] = (λ h. tt, λ h. refl)
check_exprs-none i (e ∷ es) = ground (arith, check_exprs-none (suc i) es, is_empty_iff e)

check_filter-none : (f : Option TriggerFilter) → (check_filter f ≡ none) ↔ IsFilter f
check_filter-none none = (λ h. tt, λ h. refl)
check_filter-none (some f) =
    let first = first_error-none (check_data 0 f.data_filters) (check_exprs 0 f.exprs) in
    let ds = check_data-none 0 f.data_filters in
    let es = check_exprs-none 0 f.exprs in
    (λ h. let (a, b) = first.0 h in (ds.0 a, es.0 b), λ (a, b). first.1 (ds.1 a, es.1 b))

push_error-none :
    (ref : Option Text) (url : Text) → (push_error ref url ≡ none) ↔ IsOneTarget ref url
push_error-none none [] = (λ h. cc, λ h. absurd (h refl))
push_error-none none (c ∷ url) = (λ h e. cc, λ h. refl)
push_error-none (some []) [] = (λ h. cc, λ (h, e). absurd (h refl))
push_error-none (some (c ∷ name)) [] = (λ h. (λ e. cc, refl), λ h. refl)
push_error-none (some name) (c ∷ url) = (λ h. cc, λ (h, e). cc)

check_push-none : (p : Option PushNotificationTarget) → (check_push p ≡ none) ↔ HasOneTarget p
check_push-none none = (λ h. tt, λ h. refl)
check_push-none (some p) = push_error-none p.agent_ref p.url

required-none :
    (t : Text) (e : TriggerSpecError) (rest : Option TriggerSpecError)
    → ((if is_empty t then some e else rest) ≡ none) ↔ ((t ≢ []) × (rest ≡ none))
required-none [] e rest = (λ h. cc, λ (h, r). absurd (h refl))
required-none (c ∷ t) e rest = (λ h. (λ e'. cc, h), λ (h, r). r)

-- ValidateSpec accepts a trigger exactly where its event source, event and agent are named, a push
-- notification has either a URL or a reference with a name, each data filter has a path and a value,
-- and no filter expression is empty.
pub validate_spec-none_iff : (s : AgentTriggerSpec) → (validate_spec s ≡ none) ↔ IsValid s
unfolding validate_spec
validate_spec-none_iff s =
    let last = first_error-none (check_push s.push_notification) (check_filter s.filter) in
    let agent = required-none s.agent_name agent_name_required _ in
    let event = required-none s.event_source.event_name event_name_required _ in
    let source = required-none s.event_source.name event_source_name_required _ in
    let push = check_push-none s.push_notification in
    let filter = check_filter-none s.filter in
    (
      λ h.
          let (h0, h1) = source.0 h in
          let (h2, h3) = event.0 h1 in
          let (h4, h5) = agent.0 h3 in
          let (h6, h7) = last.0 h5 in
          record {
            event_source = h0;
            event_name = h2;
            agent = h4;
            push = push.0 h6;
            filter = filter.0 h7;
          },
      λ v. source.1 (
        v.event_source,
        event.1 (v.event_name, agent.1 (v.agent, last.1 (push.1 v.push, filter.1 v.filter))),
      ),
    )
