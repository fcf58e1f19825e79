-- ===== src/Webhook/Accepts/Lists.antt =====
-- When an error list that is put together from parts is empty.
use flokoa.Common.{
  ℕ, ◌+◌, ◌≡◌, ◌≢◌, refl, ◌↔◌, Bool, true, false, ◌&&◌, not, List, [], ◌∷◌, ◌++◌, Option, none,
  some, Text, is_empty, append-eq-nil, same_code, ltb, count_one, arith,
}
use flokoa.Webhook.Errors.{FieldError, ErrorList, error_if}
use flokoa.Webhook.Conforms.{AllFalse, ExactlyOne, IfSet}
use flokoa.Webhook.Validate.{if_set}

pub append_iff :
    {xs ys : ErrorList} {P Q : Type 0} → (xs ≡ []) ↔ P → (ys ≡ []) ↔ Q → ((xs ++ ys) ≡ []) ↔ (P × Q)
append_iff {xs} {ys} p q = (
  λ h. let (hx, hy) = (append-eq-nil xs ys).0 h in (p.0 hx, q.0 hy),
  λ (hp, hq). (append-eq-nil xs ys).1 (p.1 hp, q.1 hq),
)

pub error_if_iff : (b : Bool) (e : FieldError) → (error_if b e ≡ []) ↔ (b ≡ false)
error_if_iff true e = (λ h. cc, λ h. cc)
error_if_iff false e = (λ h. refl, λ h. refl)

pub iff_trans : {A B C : Type 0} → A ↔ B → B ↔ C → A ↔ C
iff_trans p q = (λ a. q.0 (p.0 a), λ c. p.1 (q.1 c))

pub if_set_iff {ℓ} :
    {A : Type ℓ} (f : A → ErrorList) (P : A → Type 0) (o : Option A)
    → ((a : A) → (f a ≡ []) ↔ P a)
    → (if_set o f ≡ []) ↔ IfSet P o
if_set_iff f P none h = (λ _. tt, λ _. refl)
if_set_iff f P (some a) h = h a

pub is_empty_iff : (t : Text) → (is_empty t ≡ false) ↔ (t ≢ [])
is_empty_iff [] = (λ h. cc, λ h. absurd (h refl))
is_empty_iff (c ∷ t) = (λ h e. cc, λ h. refl)

pub two_iff :
    (a b : Bool) → (((not a && not b) ≡ false) × ((a && b) ≡ false)) ↔ ExactlyOne (a ∷ b ∷ [])
two_iff true true = (λ h. cc, λ h. cc)
two_iff true false = (λ h. (refl, tt), λ h. (refl, refl))
two_iff false true = (λ h. tt, λ h. (refl, refl))
two_iff false false = (λ h. cc, λ h. absurd h)

abbrev pub count_true : List Bool → ℕ
count_true [] = 0
count_true (b ∷ bs) = count_one b + count_true bs

count_true-zero_iff : (bs : List Bool) → (count_true bs ≡ 0) ↔ AllFalse bs
count_true-zero_iff [] = (λ h. tt, λ h. refl)
count_true-zero_iff (true ∷ bs) = (λ h. absurd (omega arith), λ h. cc)
count_true-zero_iff (false ∷ bs) = (
  λ h. (refl, (count_true-zero_iff bs).0 (omega arith)),
  λ h. omega (arith, (count_true-zero_iff bs).1 h.1),
)

count_true-one_iff : (bs : List Bool) → (count_true bs ≡ 1) ↔ ExactlyOne bs
count_true-one_iff [] = (λ h. absurd (omega arith), λ h. absurd h)
count_true-one_iff (true ∷ bs) = (
  λ h. (count_true-zero_iff bs).0 (omega arith),
  λ h. omega (arith, (count_true-zero_iff bs).1 h),
)
count_true-one_iff (false ∷ bs) =
    (λ h. (count_true-one_iff bs).0 (omega arith), λ h. omega (arith, (count_true-one_iff bs).1 h))

-- The two tests on a counter let one kind pass.
pub count_iff :
    (n : ℕ) (bs : List Bool)
    → n ≡ count_true bs
    → ((same_code n 0 ≡ false) × (ltb 1 n ≡ false)) ↔ ExactlyOne bs
count_iff n bs e = (
  λ (p, q). (count_true-one_iff bs).0 (ground arith),
  λ h. let one : count_true bs ≡ 1 = (count_true-one_iff bs).1 h in (ground arith, ground arith),
)
