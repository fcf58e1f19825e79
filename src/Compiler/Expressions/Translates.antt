-- ===== src/Compiler/Expressions/Translates.antt =====
-- The translation of a field that the webhook accepts.
use flokoa.Common.{ℕ, ◌≡◌, refl, sym, ap, ◌∙◌, Bool, List, [], ◌∷◌, ◌++◌, All, Text, trim_space}
use flokoa.Expression.{Piece, plain, expr, pieces, matches, replace_with, capture}
use flokoa.Expression.Reference.{Reference, spell, Known, Resolves}
use flokoa.Compiler.Expressions.{
  translate_expression_with_mode, translate_expression, translate_expressions_with_mode,
  translate_expressions, translate_condition_expr,
}
use flokoa.Compiler.Expressions.Argo.{argo, translate_expression-spell}
use flokoa.Compiler.Expressions.Trim.{trim_space-capture}
use flokoa.Webhook.Conforms.{ValidText}

-- A text with its expressions replaced: each expression is a known reference, written with any
-- spaces around it, and stands for the reference's Argo form; every other character stays.
pub data Translates (names params : List Text) (artifact_io : Bool)
    : List Piece → Text → Type 0 where
  done : Translates names params artifact_io [] []
  keep :
      (c : ℕ) {ps : List Piece} {out : Text}
      → Translates names params artifact_io ps out
      → Translates names params artifact_io (plain c ∷ ps) (c ∷ out)
  refer :
      (r : Reference) {inner : Text} {ps : List Piece} {out : Text}
      → Known names params r
      → spell r ≡ trim_space inner
      → Translates names params artifact_io ps out
      → Translates names params artifact_io (expr inner ∷ ps) (argo artifact_io r ++ out)

module _ (names params : List Text) (artifact_io : Bool) where
  abbrev translate_inner : Text → Text
  translate_inner inner = translate_expression_with_mode (trim_space (capture inner)) artifact_io

  translate_inner-spell :
      (r : Reference) (inner : Text)
      → Known names params r
      → spell r ≡ trim_space inner
      → translate_inner inner ≡ argo artifact_io r
  translate_inner-spell r inner k e =
      ap (λ x. translate_expression_with_mode x artifact_io) (trim_space-capture inner ∙ sym e)
      ∙ translate_expression-spell names params artifact_io r k

  replace-Translates :
      (ps : List Piece)
      → All (λ inner. Resolves names params (trim_space inner)) (matches ps)
      → Translates names params artifact_io ps (replace_with translate_inner ps)
  replace-Translates [] v = done
  replace-Translates (plain c ∷ ps) v = keep c (replace-Translates ps v)
  replace-Translates (expr inner ∷ ps) ((r, e, k), v) =
      rw (translate_inner-spell r inner k e) (refer r k e (replace-Translates ps v))

-- In a field whose expressions the webhook accepts, the compiler replaces every expression by the
-- Argo form of the reference that it names, and changes nothing else.
pub translate_expressions-Translates :
    (names params : List Text) (artifact_io : Bool) (text : Text)
    → ValidText names params text
    → Translates names params artifact_io
        (pieces text)
        (translate_expressions_with_mode text artifact_io)
unfolding translate_expressions_with_mode
translate_expressions-Translates names params artifact_io text v =
    replace-Translates names params artifact_io (pieces text) v

-- A condition is translated as every other field is.
translate_condition_expr-eq : (e : Text) → translate_condition_expr e ≡ translate_expressions e
unfolding translate_condition_expr translate_expressions translate_expression
translate_condition_expr-eq e = refl
