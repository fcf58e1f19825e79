-- ===== src/Trigger/Limiter/Window.antt =====
-- The invocations of the last hour.
use flokoa.Common.{ℕ, ◌≤◌, ◌≡◌, refl, List, [], ◌∷◌, ◌++◌, length, arith}
use flokoa.Trigger.Limiter.{recent}

pub recent-append :
    (now : ℕ) (xs ys : List ℕ) → recent now (xs ++ ys) ≡ recent now xs ++ recent now ys
unfolding recent
recent-append now [] ys = refl
recent-append now (x ∷ xs) ys = ground (arith, recent-append now xs ys)

-- What a later look leaves out anyway may be left out before it.
pub recent-recent :
    (now later : ℕ) (xs : List ℕ) → now ≤ later → recent later (recent now xs) ≡ recent later xs
unfolding recent
recent-recent now later [] le = refl
recent-recent now later (x ∷ xs) le = ground (arith, recent-recent now later xs le)

pub length-recent-le :
    (now later : ℕ) (xs : List ℕ) → now ≤ later → length (recent later xs) ≤ length (recent now xs)
unfolding recent
length-recent-le now later [] le = omega arith
length-recent-le now later (x ∷ xs) le = ground (arith, length-recent-le now later xs le)

pub length-recent : (now : ℕ) (xs : List ℕ) → length (recent now xs) ≤ length xs
unfolding recent
length-recent now [] = omega arith
length-recent now (x ∷ xs) = ground (arith, length-recent now xs)
