-- ===== src/Agent/Secrets.antt =====
-- The references to secrets (operator/internal/spec/secrets.go).
use flokoa.Common.{
  ℕ, ◌-◌, ◌++◌, map, Text, codes, Bool, not, ◌&&◌, ◌||◌, ltb, same_code, if◌then◌else◌,
}
use flokoa.Agent.Capability.{is_upper, is_digit}

abbrev pub secret_placeholder : Text → Text
secret_placeholder name = codes "${secret:" ++ (name ++ codes "}")

abbrev is_lower : ℕ → Bool
is_lower c = not (ltb c b'a') && not (ltb b'z' c)

-- `strings.ToUpper` where the result is in [A-Z0-9]; of the other characters only that it is not is
-- of interest. Dotless i and long s are the two outside of ASCII with a capital in it.
abbrev pub upper : ℕ → ℕ
upper c =
    if is_lower c
    then c - 32
    else if same_code c 0x131
    then b'I'
    else if same_code c 0x17f
    then b'S'
    else c

abbrev pub env_char : ℕ → ℕ
env_char c = if is_upper (upper c) || is_digit (upper c) then upper c else b'_'

unfoldable pub secret_env_name : Text → Text
secret_env_name name = codes "FLOKOA_SECRET_" ++ map env_char name
