-- ===== src/Expressions.antt =====
-- src/workflows/expressions.ts: conditions in GitHub's expression syntax. The lexer, the parser and
-- the evaluator are those of @actions/expressions and are a parameter.
use Prim.Native.Char.{Char}
use linear_pi_orchestrator.Prelude.{
  String, Bool, true, false, not, Option, none, some, [], ◌∷◌, ◌==◌, if◌then◌else◌, get_or_else,
}
use linear_pi_orchestrator.Prelude.Texts.{strip_prefix, trim_start, is_blank}
use linear_pi_orchestrator.Prelude.Table.{Table}
use linear_pi_orchestrator.Domain.JsonValue.{Json}

pub record ExpressionStatus : Type 0 where
  pub success : Bool
  pub failure : Bool
  pub cancelled : Bool

abbrev blank_after : Option String → Bool
blank_after none = false
blank_after (some rest) = is_blank rest

abbrev with_char : Char → Option String → Option String
with_char c none = none
with_char c (some s) = some (String.◌∷◌ c s)

-- What stands before a `}}` that only white space follows.
unfoldable pub before_close : String → Option String
unfolding strip_prefix is_blank
before_close String.[] = none
before_close (String.◌∷◌ c s) =
    let rest = with_char c (before_close s) in
    if blank_after (strip_prefix "}}" (String.◌∷◌ c s)) then some "" else rest

abbrev pub close_of : Option String → Option String
close_of none = none
close_of (some rest) = before_close rest

-- The text between the delimiters of `${{ … }}`, or the whole text.
unfoldable pub expression_source : String → String
unfolding strip_prefix trim_start before_close
expression_source expression =
    get_or_else (close_of (strip_prefix "${{" (trim_start expression))) expression

-- What the evaluator returns, as far as `truthy` looks at it: a number is whether it is finite and
-- not zero, and an array or a dictionary is `container`.
pub data Evaluated : Type 0 where
  null : Evaluated
  text : String → Evaluated
  boolean : Bool → Evaluated
  number : Bool → Evaluated
  container : Evaluated

unfoldable pub truthy_value : Evaluated → Bool
truthy_value null = false
truthy_value (text s) = not (s == "")
truthy_value (boolean b) = b
truthy_value (number n) = n
truthy_value container = true

-- The status checks that a condition may call, by their names in lower case.
unfoldable pub status_functions : ExpressionStatus → Table Bool
status_functions status =
    ("success", status.success)
    ∷ ("failure", status.failure)
    ∷ ("cancelled", status.cancelled)
    ∷ ("always", true)
    ∷ []

-- Lexing, parsing and evaluating a source text over the contexts and the status checks; `none` is
-- an exception.
abbrev pub Evaluator : Type 0
Evaluator = String → Table Json → Table Bool → Option Evaluated

abbrev truth_of : Option Evaluated → Option Bool
truth_of none = none
truth_of (some v) = some (truthy_value v)

-- `none` is a thrown RelayExpressionError.
unfoldable pub evaluate_condition : Evaluator → String → Table Json → ExpressionStatus → Option Bool
unfolding expression_source status_functions truthy_value
evaluate_condition evaluator expression contexts status =
    truth_of (evaluator (expression_source expression) contexts (status_functions status))
