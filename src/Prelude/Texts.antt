-- ===== src/Prelude/Texts.antt =====
-- Texts, character by character.
use Prim.Native.Nat.{ℕ, suc}
use Prim.Native.Char.{Char, code}
use Prim.Native.String.{String}
use mathlib.Core.Path.{◌≡◌, refl, ap₂}
use mathlib.Core.Logic.{inl, inr}
use native.Mathlib.Omega.{arith}
use text.Mathlib.TextEquality.{Char-path}
use mathlib.Core.Bool.{Bool, true, ◌&&◌, ◌||◌}
use mathlib.Core.Option.{Option, none, some}
use mathlib.Core.List.{List, [], ◌∷◌}
use linear_pi_orchestrator.Prelude.Tests.{nat_eq, leb, Bool-cases, if◌then◌else◌}

abbrev pub text_length : String → ℕ
text_length String.[] = 0
text_length (String.◌∷◌ c s) = suc (text_length s)

-- s + t
unfoldable pub append : String → String → String
append String.[] t = t
append (String.◌∷◌ c s) t = String.◌∷◌ c (append s t)

-- What follows `p` in a text that starts with `p`.
unfoldable pub strip_prefix : String → String → Option String
strip_prefix String.[] s = some s
strip_prefix (String.◌∷◌ c p) String.[] = none
strip_prefix (String.◌∷◌ c p) (String.◌∷◌ d s) =
    let rest = strip_prefix p s in if nat_eq (code c) (code d) then rest else none

-- `\s` of a regular expression
unfoldable pub is_space : Char → Bool
is_space c =
    leb 9 (code c) && leb (code c) 13
    || nat_eq (code c) 32
    || nat_eq (code c) 0xa0
    || nat_eq (code c) 0x1680
    || leb 0x2000 (code c) && leb (code c) 0x200a
    || nat_eq (code c) 0x2028
    || nat_eq (code c) 0x2029
    || nat_eq (code c) 0x202f
    || nat_eq (code c) 0x205f
    || nat_eq (code c) 0x3000
    || nat_eq (code c) 0xfeff

unfoldable pub trim_start : String → String
unfolding is_space
trim_start String.[] = String.[]
trim_start (String.◌∷◌ c s) = let rest = trim_start s in if is_space c then rest else String.◌∷◌ c s

unfoldable pub is_blank : String → Bool
unfolding is_space
is_blank String.[] = true
is_blank (String.◌∷◌ c s) = is_space c && is_blank s

-- A text is read back from behind a prefix.
pub strip_prefix-append : (p s : String) → strip_prefix p (append p s) ≡ some s
unfolding strip_prefix append
strip_prefix-append String.[] s = refl
strip_prefix-append (String.◌∷◌ c p) s = ground (arith, strip_prefix-append p s)

pub strip_prefix_inv : (p t s : String) → strip_prefix p t ≡ some s → t ≡ append p s
unfolding strip_prefix append
strip_prefix_inv String.[] t s e = cc
strip_prefix_inv (String.◌∷◌ c p) String.[] s e = cc
strip_prefix_inv (String.◌∷◌ c p) (String.◌∷◌ d t) s e =
    elim (Bool-cases (nat_eq (code c) (code d))) [
      | inl b ↦ ap₂ String.◌∷◌ (Char-path d c (ground arith)) (strip_prefix_inv p t s (rw b at e))
      | inr b ↦ let none≡some = rw b at e in cc
    ]

unfoldable pub trim_end : String → String
unfolding is_space is_blank
trim_end String.[] = String.[]
trim_end (String.◌∷◌ c s) =
    let rest = trim_end s in if is_space c && is_blank s then String.[] else String.◌∷◌ c rest

-- s.trim()
unfoldable pub trim : String → String
unfolding trim_start trim_end
trim s = trim_end (trim_start s)

-- parts.join(separator)
unfoldable pub join : String → List String → String
unfolding append
join separator [] = ""
join separator (part ∷ []) = part
join separator (part ∷ other ∷ parts) =
    append part (append separator (join separator (other ∷ parts)))
