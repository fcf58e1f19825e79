-- ===== src/Agent/Errors/Chains.antt =====
-- What a chain of steps that succeeds tells of its steps.
use flokoa.Common.{◌≡◌, refl, Option, none, some, Bool, true, false}
use flokoa.Agent.Errors.{Result, ok, fails, CompileError, ◌>>=◌, ◌>>◌, found, require, unless_error}

pub bind-ok {ℓ κ} :
    {A : Type ℓ} {B : Type κ} (m : Result A) (f : A → Result B) (b : B)
    → (m >>= f) ≡ ok b
    → (a : A) × (m ≡ ok a) × (f a ≡ ok b)
unfolding ◌>>=◌
bind-ok (ok a) f b h = (a, refl, h)
bind-ok (fails e) f b h = cc

pub then-ok {ℓ} :
    {B : Type ℓ} (m : Result (Unit {0})) (r : Result B) (b : B)
    → (m >> r) ≡ ok b
    → (m ≡ ok tt) × (r ≡ ok b)
unfolding ◌>>◌
then-ok (ok tt) r b h = (refl, h)
then-ok (fails e) r b h = cc

pub found-ok {ℓ} :
    {A : Type ℓ} (e : CompileError) (o : Option A) (a : A) → found e o ≡ ok a → o ≡ some a
unfolding found
found-ok e none a h = cc
found-ok e (some b) a h = cc

pub require-ok : (e : CompileError) (b : Bool) → require e b ≡ ok tt → b ≡ true
unfolding require
require-ok e true h = refl
require-ok e false h = cc

pub unless_error-ok {ℓ} :
    {E : Type ℓ} (f : E → CompileError) (o : Option E) → unless_error f o ≡ ok tt → o ≡ none
unfolding unless_error
unless_error-ok f none h = refl
unless_error-ok f (some e) h = cc

pub ok-injective {ℓ} : {A : Type ℓ} {a b : A} → ok a ≡ ok b → b ≡ a
ok-injective h = cc
