-- ===== src/Domain/Key/Injective.antt =====
-- createWorkflowRunKey and createRunKey in packages/domain/src/index.ts: keys against identities.
use Prim.Native.Char.{Char, code}
use text.Mathlib.TextEquality.{Char-path}
use linear_pi_orchestrator.Prelude.{
  ℕ, String, List, [], ◌∷◌, true, ◌≡◌, refl, ap, ap₂, sym, ◌∙◌, ◌≢◌, arith, nat_eq,
}
use linear_pi_orchestrator.Domain.{WorkflowRunIdentity}
use linear_pi_orchestrator.Domain.{RunIdentity}
use linear_pi_orchestrator.Domain.Key.{
  escape_char, escape, json_text, json_texts, json_array, create_workflow_run_key, create_run_key,
}
use linear_pi_orchestrator.Domain.Key.Codes.{codes, read_char, read-escape_char}

codes_injective : (s t : String) → codes s ≡ codes t → s ≡ t
codes_injective String.[] String.[] e = refl
codes_injective String.[] (String.◌∷◌ d t) e = cc
codes_injective (String.◌∷◌ c s) String.[] e = cc
codes_injective (String.◌∷◌ c s) (String.◌∷◌ d t) e =
    ap₂ String.◌∷◌ (Char-path c d (cc)) (codes_injective s t (cc))

head_code : String → ℕ
head_code String.[] = 0
head_code (String.◌∷◌ c s) = code c

escape_char_injective :
    (c d : Char) (r t : String) → escape_char c r ≡ escape_char d t → (c ≡ d) × (r ≡ t)
escape_char_injective c d r t e =
    let p = sym (read-escape_char c r) ∙ ap (λ s. read_char (codes s)) e ∙ read-escape_char d t in
    (Char-path c d (cc), codes_injective r t (cc))

escape_quote :
    (c : Char) (r : String)
    → nat_eq (code c) 34 ≡ true
    → escape_char c r ≡ String.◌∷◌ "\\" (String.◌∷◌ "\"" r)
unfolding escape_char
escape_quote c r h = rw h

-- The escaped character would be the quote itself, which is escaped by a backslash.
escape_char-ne_quote : (c : Char) (r t : String) → escape_char c r ≢ String.◌∷◌ "\"" t
unfolding read_char head_code
escape_char-ne_quote c r t e =
    let read = sym (read-escape_char c r) ∙ ap (λ s. read_char (codes s)) e in
    let is_quote : code c ≡ 34 = ground arith in
    let same = sym (escape_quote c r (ground arith)) ∙ e in
    absurd (omega (arith, ap head_code same))

escape_injective : (s u : String) (r t : String) → escape s r ≡ escape u t → (s ≡ u) × (r ≡ t)
unfolding escape
escape_injective String.[] String.[] r t e = (refl, cc)
escape_injective String.[] (String.◌∷◌ d u) r t e =
    absurd (escape_char-ne_quote d (escape u t) r (sym e))
escape_injective (String.◌∷◌ c s) String.[] r t e = absurd (escape_char-ne_quote c (escape s r) t e)
escape_injective (String.◌∷◌ c s) (String.◌∷◌ d u) r t e =
    let (p, q) = escape_char_injective c d (escape s r) (escape u t) e in
    let (p', q') = escape_injective s u r t q in (ap₂ String.◌∷◌ p p', q')

json_text_injective :
    (s u : String) (r t : String) → json_text s r ≡ json_text u t → (s ≡ u) × (r ≡ t)
unfolding json_text
json_text_injective s u r t e = escape_injective s u r t (cc)

json_texts_injective : (ss us : List String) → json_texts ss ≡ json_texts us → ss ≡ us
unfolding json_texts head_code
json_texts_injective [] [] e = refl
json_texts_injective [] (u ∷ us) e = absurd (omega (arith, ap head_code e))
json_texts_injective (s ∷ ss) [] e = absurd (omega (arith, ap head_code e))
json_texts_injective (s ∷ ss) (u ∷ us) e =
    let (p, q) = json_text_injective s u (json_texts ss) (json_texts us) (cc) in
    ap₂ ◌∷◌ p (json_texts_injective ss us q)

json_array_injective :
    (s u : String) (ss us : List String) → json_array s ss ≡ json_array u us → (s ≡ u) × (ss ≡ us)
unfolding json_array
json_array_injective s u ss us e =
    let (p, q) = json_text_injective s u (json_texts ss) (json_texts us) (cc) in
    (p, json_texts_injective ss us q)

-- Two workflow runs with the same key have the same identity: repository id and root, workflow,
-- source, item and occurrence.
pub create_workflow_run_key_injective :
    (i j : WorkflowRunIdentity) → create_workflow_run_key i ≡ create_workflow_run_key j → i ≡ j
unfolding create_workflow_run_key
create_workflow_run_key_injective i j e =
    let (p, q) = json_array_injective i.repository.id j.repository.id _ _ e in cc

-- Two worker runs with the same key have the same identity: repository id and root, source, item
-- and trigger.
pub create_run_key_injective : (i j : RunIdentity) → create_run_key i ≡ create_run_key j → i ≡ j
unfolding create_run_key
create_run_key_injective i j e =
    let (p, q) = json_array_injective i.repository.id j.repository.id _ _ e in cc
