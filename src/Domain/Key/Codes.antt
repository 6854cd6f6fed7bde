-- ===== src/Domain/Key/Codes.antt =====
-- createWorkflowRunKey and createRunKey: escapes as lists of code points, and a reader for one.
use Prim.Native.Char.{Char, code}
use linear_pi_orchestrator.Prelude.{
  ℕ, zero, suc, ◌+◌, ◌-◌, ◌*◌, Bool-cases, inl, inr, ◌%◌, ◌<◌, String, Bool, true, nat_eq, ltb,
  if◌then◌else◌, List, [], ◌∷◌, Option, none, some, ◌≡◌, refl, subst, arith, ◌&&◌,
}
use linear_pi_orchestrator.Domain.Key.{escape_char, control_char, first_digit, hex_digit}

abbrev pub codes : String → List ℕ
codes String.[] = []
codes (String.◌∷◌ c s) = code c ∷ codes s

pub unhex : ℕ → ℕ
unhex c = if ltb c 58 then c - 48 else c - 87

-- What a letter after a backslash stands for.
unescape_letter : ℕ → ℕ
unescape_letter c =
    if nat_eq c 98
    then 8
    else if nat_eq c 116
    then 9
    else if nat_eq c 110
    then 10
    else if nat_eq c 102
    then 12
    else if nat_eq c 114
    then 13
    else c

read_hex : List ℕ → Option (ℕ × List ℕ)
read_hex (a ∷ b ∷ c ∷ d ∷ r) = some (unhex c * 16 + unhex d, r)
read_hex _ = none

read_escape : List ℕ → Option (ℕ × List ℕ)
unfolding unescape_letter read_hex
read_escape [] = none
read_escape (c ∷ r) = if nat_eq c 117 then read_hex r else some (unescape_letter c, r)

unfoldable pub read_char : List ℕ → Option (ℕ × List ℕ)
unfolding read_escape
read_char [] = none
read_char (c ∷ r) = if nat_eq c 92 then read_escape r else some (c, r)

holds_up_to : (ℕ → Bool) → ℕ → Bool
holds_up_to test zero = true
holds_up_to test (suc bound) = holds_up_to test bound && test bound

and_left : (a b : Bool) → (a && b) ≡ true → a ≡ true
and_left a b h = ground arith

and_right : (a b : Bool) → (a && b) ≡ true → b ≡ true
and_right a b h = ground arith

holds_at :
    (test : ℕ → Bool) (bound : ℕ)
    → holds_up_to test bound ≡ true
    → (n : ℕ) → n < bound
    → test n ≡ true
unfolding holds_up_to
holds_at test zero all n h = absurd (omega arith)
holds_at test (suc bound) all n h = elim (Bool-cases (nat_eq n bound)) [
  | inl e ↦
      subst (λ m. test m ≡ true) (ground arith)
        (and_right (holds_up_to test bound) (test bound) all)
  | inr e ↦
      holds_at test bound (and_left (holds_up_to test bound) (test bound) all) n (ground arith)
]

is_read_back : ℕ → Bool
is_read_back n = nat_eq (unhex (code (hex_digit n))) n

digits_read_back : holds_up_to is_read_back 16 ≡ true
unfolding holds_up_to is_read_back hex_digit unhex
digits_read_back = refl

unhex-hex_digit : (n : ℕ) → n < 16 → unhex (code (hex_digit n)) ≡ n
unfolding is_read_back
unhex-hex_digit n h = let e = holds_at is_read_back 16 digits_read_back n h in ground arith

unhex-first_digit : (n : ℕ) → unhex (code (first_digit n)) ≡ (if ltb n 16 then 0 else 1)
unfolding unhex first_digit
unhex-first_digit n = elim (Bool-cases (ltb n 16)) [ inl e ↦ rw e | inr e ↦ rw e ]

read-control_char :
    (n : ℕ) (rest : String)
    → n < 32
    → read_char (codes (control_char n rest)) ≡ some (n, codes rest)
unfolding control_char read_char
read-control_char n rest h = ground (arith, unhex-hex_digit (n % 16), unhex-first_digit n)

-- An escaped character is read back, whatever follows.
pub read-escape_char :
    (c : Char) (rest : String) → read_char (codes (escape_char c rest)) ≡ some (code c, codes rest)
unfolding escape_char read_char
read-escape_char c rest = ground (arith, read-control_char (code c) rest)
