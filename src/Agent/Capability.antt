-- ===== src/Agent/Capability.antt =====
-- Names, pins and requires tuples of operator/internal/domain/capability/capability.go.
use flokoa.Common.{
  ℕ, ◌+◌, List, [], ◌∷◌, Option, none, some, Text, codes, ◌==◌, Bool, true, false, not, ◌&&◌, ◌||◌,
  ltb, same_code, is_empty, has_prefix, if◌then◌else◌, trim_space,
}

pub record RunnerInfo : Type 0 where
  pub runner_version : Text
  pub python : Text
  pub pydantic_ai : Text
  pub baseline : List (Text × Text)

pub record Requires : Type 0 where
  pub python : Text
  pub pydantic_ai : Text
  pub flokoa_runner : Text

pub record Deps : Type 0 where
  pub name : Text
  pub pins : List Text

-- What the code calls of go-pep440-version: whether NewSpecifiers and Parse accept a text, and
-- whether specifiers admit a version.
pub record Pep440 : Type 0 where
  pub is_specifier : Text → Bool
  pub is_version : Text → Bool
  pub admits : Text → Text → Bool

pub data RequiresError : Type 0 where
  requires_python : Text → Text → RequiresError
  invalid_specifier : Text → Text → RequiresError
  unparseable_version : Text → Text → RequiresError
  requires_version : Text → Text → Text → RequiresError

-- One round of the loop of CheckRequires: `key` is the name in messages.
abbrev pub check_specifier : Pep440 → Text → Text → Text → Option RequiresError
check_specifier pep key specifier provided =
    if is_empty specifier
    then none
    else if not (pep.is_specifier specifier)
    then some (invalid_specifier key specifier)
    else if not (pep.is_version provided)
    then some (unparseable_version key provided)
    else if not (pep.admits specifier provided)
    then some (requires_version key specifier provided)
    else none

unfoldable pub check_requires : Pep440 → Requires → RunnerInfo → Option RequiresError
unfolding ◌==◌
check_requires pep req runner =
    if not (is_empty req.python) && not (req.python == runner.python)
    then some (requires_python req.python runner.python)
    else elim (check_specifier pep (codes "pydantic-ai") req.pydantic_ai runner.pydantic_ai) [
      | some e ↦ some e
      | none ↦ check_specifier pep (codes "flokoa-runner") req.flokoa_runner runner.runner_version
    ]

abbrev between : ℕ → ℕ → ℕ → Bool
between c lo hi = not (ltb c lo) && not (ltb hi c)

abbrev pub is_upper : ℕ → Bool
is_upper c = between c b'A' b'Z'

abbrev pub is_digit : ℕ → Bool
is_digit c = between c b'0' b'9'

-- `[A-Za-z0-9]`
abbrev pub is_alnum : ℕ → Bool
is_alnum c = is_upper c || between c b'a' b'z' || is_digit c

-- `strings.ToLower` of the characters that a pin can have.
abbrev pub lower : ℕ → ℕ
lower c = if is_upper c then c + 32 else c

-- `[-_.]`
abbrev pub is_separator : ℕ → Bool
is_separator c = same_code c b'-' || same_code c b'_' || same_code c b'.'

-- The first argument tells whether the character before is a separator.
unfoldable pub collapse : Bool → Text → Text
collapse after [] = []
collapse after (c ∷ s) =
    let in_run = collapse true s in
    let outside = collapse false s in
    if is_separator c then if after then in_run else b'-' ∷ in_run else lower c ∷ outside

unfoldable pub normalize_package_name : Text → Text
unfolding collapse
normalize_package_name name = collapse false name

-- The text before the first `==` and the one after it.
unfoldable pub cut_pin : Text → Option (Text × Text)
unfolding has_prefix
cut_pin [] = none
cut_pin (c ∷ s) =
    let rest = cut_pin s in
    if has_prefix (c ∷ s) (codes "==")
    then elim s [ [] ↦ none | _ ∷ s' ↦ some ([], s') ]
    else elim rest [ none ↦ none | some (name, version) ↦ some (c ∷ name, version) ]

unfoldable pub all_of : (ℕ → Bool) → Text → Bool
all_of p [] = true
all_of p (c ∷ s) = p c && all_of p s

-- `[A-Za-z0-9][A-Za-z0-9._-]*`
abbrev pub is_pin_name : Text → Bool
is_pin_name [] = false
is_pin_name (c ∷ s) = is_alnum c && all_of (λ d. is_alnum d || is_separator d) s

-- `[A-Za-z0-9._+!-]+`
abbrev pub is_pin_version : Text → Bool
is_pin_version [] = false
is_pin_version (c ∷ s) =
    all_of (λ d. is_alnum d || is_separator d || same_code d b'+' || same_code d b'!') (c ∷ s)

-- `none` for the error. No character of a name or of a version is a `=`.
unfoldable pub parse_pin : Text → Option (Text × Text)
unfolding trim_space cut_pin all_of normalize_package_name
parse_pin pin = elim (cut_pin (trim_space pin)) [
  | none ↦ none
  | some (name, version) ↦
      if is_pin_name name && is_pin_version version
      then some (normalize_package_name name, version)
      else none
]

pub data EntryNameError : Type 0 where
  empty_name reserved_prefix path_punctuation : EntryNameError

-- `strings.ContainsAny(name, "./:")`
unfoldable pub has_punctuation : Text → Bool
has_punctuation [] = false
has_punctuation (c ∷ s) =
    same_code c b'.' || same_code c b'/' || same_code c b':' || has_punctuation s

unfoldable pub validate_entry_name : Text → Option EntryNameError
unfolding has_prefix has_punctuation
validate_entry_name name =
    if is_empty name
    then some empty_name
    else if has_prefix name (codes "flokoa.platform/")
    then some reserved_prefix
    else if has_punctuation name
    then some path_punctuation
    else none

-- The text after the first colon, empty where there is none.
unfoldable pub after_colon : Text → Text
after_colon [] = []
after_colon (c ∷ s) = let rest = after_colon s in if same_code c b':' then s else rest

unfoldable pub entry_name : Text → Text → Text
unfolding after_colon
entry_name entrypoint override = if is_empty override then after_colon entrypoint else override
