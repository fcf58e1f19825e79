-- ===== src/Compiler/Parameters/Keys.antt =====
-- The references that the compiler collects are those that headers have.
use mathlib.Core.List.Memᴰ
use flokoa.Common.{
  ◌≡◌, refl, ap, subst, sym, ◌∙◌, inl, inr, List, [], ◌∷◌, Memᴰ, Memᴰ-cons, Memᴰ-nil,
  Memᴰ_append_cases, Option, none, some, Option-cases,
}
use flokoa.Api.Task.{KeySelector, HttpHeaderValueFrom, HttpHeader, HttpTask}
use flokoa.Api.Workflow.{WorkflowTask}
use flokoa.Compiler.Templates.{config_map_ref}
use flokoa.Compiler.Workflow.{header_cm_refs, task_cm_refs, cm_refs}
use flokoa.Compiler.Parameters.{HeaderReads, ReadsKey}

HeaderReads-cons :
    (x : HttpHeader) (xs : List HttpHeader) (ref : KeySelector)
    → HeaderReads xs ref
    → HeaderReads (x ∷ xs) ref
HeaderReads-cons x xs ref h = record {
  header = h.header;
  header_mem = Memᴰ.tail h.header_mem;
  source = h.source;
  has_source = h.has_source;
  reads = h.reads;
}

config_map_ref_source :
    (v : Option HttpHeaderValueFrom) (ref : KeySelector)
    → config_map_ref v ≡ some ref
    → (s : HttpHeaderValueFrom) × (v ≡ some s) × (s.config_map_key_ref ≡ some ref)
config_map_ref_source none ref e = cc
config_map_ref_source (some s) ref e = (s, refl, e)

header_cm_refs-HeaderReads :
    (hs : List HttpHeader) (ref : KeySelector) → Memᴰ ref (header_cm_refs hs) → HeaderReads hs ref
header_cm_refs-HeaderReads [] ref m = absurd (Memᴰ-nil m)
header_cm_refs-HeaderReads (x ∷ xs) ref m = elim (Option-cases (config_map_ref x.value_from)) [
  | inl e ↦
      HeaderReads-cons x xs ref (header_cm_refs-HeaderReads xs ref (rw (e, header_cm_refs) at m))
  | inr (r, e) ↦ elim ((Memᴰ-cons ref r (header_cm_refs xs)).0 (rw (e, header_cm_refs) at m)) [
    | inl same ↦
        let (s, has, key) = config_map_ref_source x.value_from r e in
        record {
          header = x;
          header_mem = Memᴰ.head refl;
          source = s;
          has_source = has;
          reads = key ∙ ap some (sym same);
        }
    | inr later ↦ HeaderReads-cons x xs ref (header_cm_refs-HeaderReads xs ref later)
  ]
]

task_cm_refs-HeaderReads :
    (o : Option HttpTask) (ref : KeySelector)
    → Memᴰ ref (task_cm_refs o)
    → (h : HttpTask) × (o ≡ some h) × HeaderReads h.headers ref
task_cm_refs-HeaderReads none ref m = absurd (Memᴰ-nil m)
task_cm_refs-HeaderReads (some h) ref m = (h, refl, header_cm_refs-HeaderReads h.headers ref m)

pub cm_refs-ReadsKey :
    (tasks : List WorkflowTask) (ref : KeySelector) → Memᴰ ref (cm_refs tasks) → ReadsKey tasks ref
cm_refs-ReadsKey [] ref m = absurd (Memᴰ-nil m)
cm_refs-ReadsKey (x ∷ xs) ref m =
    elim (Memᴰ_append_cases ref (task_cm_refs x.http) (cm_refs xs) m) [
      | inl here ↦
          let (http, is_http, r) = task_cm_refs-HeaderReads x.http ref here in
          record { task = x; task_mem = Memᴰ.head refl; http = http; is_http = is_http; by = r }
      | inr later ↦
          let r = cm_refs-ReadsKey xs ref later in
          record {
            task = r.task;
            task_mem = Memᴰ.tail r.task_mem;
            http = r.http;
            is_http = r.is_http;
            by = r.by;
          }
    ]

mem-header_cm_refs :
    (hs : List HttpHeader) (h : HttpHeader) (ref : KeySelector)
    → Memᴰ h hs
    → config_map_ref h.value_from ≡ some ref
    → Memᴰ ref (header_cm_refs hs)
mem-header_cm_refs [] h ref m e = absurd (Memᴰ-nil m)
mem-header_cm_refs (x ∷ xs) h ref m e = elim ((Memᴰ-cons h x xs).0 m) [
  | inl same ↦
      rw (subst (λ y. config_map_ref y.value_from ≡ some ref) same e, header_cm_refs)
        (Memᴰ.head refl)
  | inr later ↦ elim (Option-cases (config_map_ref x.value_from)) [
    | inl n ↦ rw (n, header_cm_refs) (mem-header_cm_refs xs h ref later e)
    | inr (r, n) ↦ rw (n, header_cm_refs) (Memᴰ.tail (mem-header_cm_refs xs h ref later e))
  ]
]

mem-cm_refs :
    (tasks : List WorkflowTask) (ref : KeySelector) (t : WorkflowTask)
    → Memᴰ t tasks
    → Memᴰ ref (task_cm_refs t.http)
    → Memᴰ ref (cm_refs tasks)
mem-cm_refs [] ref t m r = absurd (Memᴰ-nil m)
mem-cm_refs (x ∷ xs) ref t m r = elim ((Memᴰ-cons t x xs).0 m) [
  | inl same ↦ Memᴰ.append_left _ (subst (λ y. Memᴰ ref (task_cm_refs y.http)) same r)
  | inr later ↦ Memᴰ.append_right (task_cm_refs x.http) (mem-cm_refs xs ref t later r)
]

pub mem-ReadsKey :
    (tasks : List WorkflowTask) (ref : KeySelector) → ReadsKey tasks ref → Memᴰ ref (cm_refs tasks)
mem-ReadsKey tasks ref k = mem-cm_refs tasks ref k.task k.task_mem (
    subst (λ o. Memᴰ ref (task_cm_refs o)) (sym k.is_http)
      (mem-header_cm_refs k.http.headers k.by.header ref k.by.header_mem
        (ap config_map_ref k.by.has_source ∙ k.by.reads)))
