-- ===== src/Expression/Scan.antt =====
-- The matches of `\{\{([^}]+)\}\}` in a text. `[^}]+` takes the longest run without a closing
-- brace; a shorter one is followed by no brace, so the match at a position is unique. The pattern
-- `\{\{\s*([^}]+?)\s*\}\}` matches the same texts, since its spaces are no closing braces.
use flokoa.Common.{
  ℕ, zero, suc, ◌+◌, Bool, true, ◌&&◌, not, Option, none, some, List, [], ◌∷◌, ◌++◌, Text, codes,
  same_code, is_empty, has_prefix, drop_prefix, trim_left, trim_right, if◌then◌else◌, length,
}

-- The longest run without `}`, and what follows it.
unfoldable pub run : Text → Text
run [] = []
run (c ∷ s) = let rest = run s in if same_code c b'}' then [] else c ∷ rest

unfoldable pub after_run : Text → Text
after_run [] = []
after_run (c ∷ s) = let rest = after_run s in if same_code c b'}' then c ∷ s else rest

-- The text between the braces of a match that starts here.
unfoldable pub body : Text → Option Text
unfolding run after_run has_prefix
body s =
    if not (is_empty (run s)) && has_prefix (after_run s) (codes "}}") then some (run s) else none

unfoldable pub match_at : Text → Option Text
unfolding body has_prefix drop_prefix
match_at s = if has_prefix s (codes "{{") then body (drop_prefix s (codes "{{")) else none

-- A text is cut into its matches and the characters outside of them.
pub data Piece : Type 0 where
  plain : ℕ → Piece
  expr : Text → Piece

-- From left to right; `skip` counts the characters that still belong to the last match.
unfoldable pub scan : ℕ → Text → List Piece
unfolding match_at
scan skip [] = []
scan (suc skip) (c ∷ s) = scan skip s
scan zero (c ∷ s) = elim (match_at (c ∷ s)) [
  | none ↦ plain c ∷ scan zero s
  | some inner ↦ expr inner ∷ scan (length inner + 3) s
]

unfoldable pub pieces : Text → List Piece
unfolding scan
pieces s = scan zero s

-- What matched: match[0].
abbrev pub braced : Text → Text
braced inner = codes "{{" ++ (inner ++ codes "}}")

-- FindAllStringSubmatch(s, -1): match[1] of each match.
abbrev pub matches : List Piece → List Text
matches [] = []
matches (plain c ∷ ps) = matches ps
matches (expr inner ∷ ps) = inner ∷ matches ps

-- ReplaceAllStringFunc, where `f` is given the text between the braces.
abbrev pub replace_with : (Text → Text) → List Piece → Text
replace_with f [] = []
replace_with f (plain c ∷ ps) = c ∷ replace_with f ps
replace_with f (expr inner ∷ ps) = f inner ++ replace_with f ps

-- The class `\s`.
unfoldable pub is_regex_space : ℕ → Bool
is_regex_space c =
    if same_code c 9
    then true
    else if same_code c 10
    then true
    else if same_code c 12
    then true
    else if same_code c 13
    then true
    else same_code c 32

abbrev pub last_of : Text → Text
last_of [] = []
last_of (c ∷ []) = c ∷ []
last_of (c ∷ d ∷ s) = last_of (d ∷ s)

-- The group of expressionRe: the text between the braces without the spaces at its ends; of nothing
-- but spaces it keeps the last, because the group is not empty.
unfoldable pub capture : Text → Text
unfolding is_regex_space trim_left trim_right
capture inner =
    let core = trim_right is_regex_space (trim_left is_regex_space inner) in
    if is_empty core then last_of inner else core
