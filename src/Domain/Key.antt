-- ===== src/Domain/Key.antt =====
-- `createWorkflowRunKey` and `createRunKey`: `JSON.stringify` of an array of texts.
-- A text has no lone surrogates, so what is escaped is quotes, backslashes and control characters.
pub mod Codes
pub mod Injective
use Prim.Native.Char.{Char, code}
use linear_pi_orchestrator.Prelude.{
  ℕ, zero, suc, ◌%◌, String, nat_eq, ltb, if◌then◌else◌, List, [], ◌∷◌,
}
use linear_pi_orchestrator.Domain.{WorkflowRunIdentity}
use linear_pi_orchestrator.Domain.{RunIdentity}

-- Each function writes in front of the text that follows.
infixr 67 ◌∷ˢ◌
abbrev ◌∷ˢ◌ : Char → String → String
c ∷ˢ s = String.◌∷◌ c s

nth_char : List Char → ℕ → Char
nth_char [] n = "0"
nth_char (c ∷ cs) zero = c
nth_char (c ∷ cs) (suc n) = nth_char cs n

-- The last digit of a control character's number.
hex_digit : ℕ → Char
unfolding nth_char
hex_digit n =
    nth_char
      ("0" ∷ "1" ∷ "2" ∷ "3" ∷ "4" ∷ "5" ∷ "6" ∷ "7" ∷ "8" ∷ "9" ∷ "a" ∷ "b" ∷ "c" ∷ "d" ∷ "e" ∷ "f"
        ∷ [])
      n

first_digit : ℕ → Char
first_digit n = if ltb n 16 then "0" else "1"

control_char : ℕ → String → String
control_char n rest = "\\" ∷ˢ "u" ∷ˢ "0" ∷ˢ "0" ∷ˢ first_digit n ∷ˢ hex_digit (n % 16) ∷ˢ rest

unfoldable pub escape_char : Char → String → String
unfolding control_char first_digit hex_digit
escape_char c rest =
    if nat_eq (code c) 34
    then "\\" ∷ˢ "\"" ∷ˢ rest
    else if nat_eq (code c) 92
    then "\\" ∷ˢ "\\" ∷ˢ rest
    else if nat_eq (code c) 8
    then "\\" ∷ˢ "b" ∷ˢ rest
    else if nat_eq (code c) 9
    then "\\" ∷ˢ "t" ∷ˢ rest
    else if nat_eq (code c) 10
    then "\\" ∷ˢ "n" ∷ˢ rest
    else if nat_eq (code c) 12
    then "\\" ∷ˢ "f" ∷ˢ rest
    else if nat_eq (code c) 13
    then "\\" ∷ˢ "r" ∷ˢ rest
    else if ltb (code c) 32
    then control_char (code c) rest
    else c ∷ˢ rest

unfoldable pub escape : String → String → String
escape String.[] rest = "\"" ∷ˢ rest
escape (String.◌∷◌ c s) rest = escape_char c (escape s rest)

unfoldable pub json_text : String → String → String
json_text s rest = "\"" ∷ˢ escape s rest

-- The elements after the first.
unfoldable pub json_texts : List String → String
json_texts [] = "]"
json_texts (s ∷ ss) = "," ∷ˢ json_text s (json_texts ss)

unfoldable pub json_array : String → List String → String
json_array s ss = "[" ∷ˢ json_text s (json_texts ss)

unfoldable pub create_workflow_run_key : WorkflowRunIdentity → String
unfolding json_array
create_workflow_run_key i =
    json_array i.repository.id
      (i.repository.root ∷ i.workflow_id ∷ i.source_id ∷ i.item_id ∷ i.occurrence ∷ [])

unfoldable pub create_run_key : RunIdentity → String
unfolding json_array
create_run_key i =
    json_array i.repository.id (i.repository.root ∷ i.source_id ∷ i.item_id ∷ i.trigger_id ∷ [])
