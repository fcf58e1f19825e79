-- ===== src/A2a/Store/Keys.antt =====
-- The keys of the store's ConfigMap.
use mathlib.Core.List.{map-append}
use flokoa.Common.{◌≡◌, refl, ap, ap₂, ◌∙◌, [], ◌∷◌, ◌++◌, map, Text, Avoids, arith}
use flokoa.A2a.Store.{task_key, replace_code, cm_key, replace_first, cm_key_to_task_key}

-- The key of a task: the UID of a workflow has no underscore and no slash, and the name of a template
-- no slash.
pub record IsTaskKey (k : Text) : Type 0 where
  pub uid : Text
  pub template : Text
  pub named : k ≡ task_key uid template
  pub uid_no_underscore : Avoids b'_' uid
  pub uid_no_slash : Avoids b'/' uid
  pub template_no_slash : Avoids b'/' template

replaced-Avoids : (s : Text) → Avoids b'/' s → map (replace_code b'/' b'_') s ≡ s
replaced-Avoids [] h = refl
replaced-Avoids (c ∷ s) (ne, h) = ground (arith, replaced-Avoids s h)

cm_key-task_key :
    (uid template : Text)
    → Avoids b'/' uid
    → Avoids b'/' template
    → cm_key (task_key uid template) ≡ (uid ++ b'_' ∷ template)
unfolding cm_key
cm_key-task_key uid template h k =
    map-append (replace_code b'/' b'_') uid (b'/' ∷ template)
    ∙ ap₂ (λ a b. a ++ b'_' ∷ b) (replaced-Avoids uid h) (replaced-Avoids template k)

replace_first-cut :
    (s t : Text) → Avoids b'_' s → replace_first b'_' b'/' (s ++ b'_' ∷ t) ≡ (s ++ b'/' ∷ t)
unfolding replace_first
replace_first-cut [] t h = refl
replace_first-cut (c ∷ s) t (ne, h) = ground (arith, replace_first-cut s t h)

-- The name of a ConfigMap entry gives back the key of the task.
pub cm_key_to_task_key-cm_key : (k : Text) → IsTaskKey k → cm_key_to_task_key (cm_key k) ≡ k
unfolding cm_key_to_task_key
cm_key_to_task_key-cm_key k h = rw h.named (
    ap (replace_first b'_' b'/')
      (cm_key-task_key h.uid h.template h.uid_no_slash h.template_no_slash)
    ∙ replace_first-cut h.uid h.template h.uid_no_underscore)
