-- ===== src/Prelude/Table.antt =====
-- A `Record<string, V>` or a `Map` with text keys: an association list in insertion order.
-- Writing to a present key keeps its place, and a new key comes last.
use Prim.Native.Nat.{suc}
use Prim.Native.String.{String}
use mathlib.Core.Path.{◌≡◌, refl, ap, sym, subst, subst₂}
use mathlib.Core.Bool.{true, false}
use mathlib.Core.Logic.{inl, inr}
use mathlib.Core.Option.{Option, none, some}
use mathlib.Core.List.{List, [], ◌∷◌, ◌++◌}
use native.Mathlib.Omega.{arith}
use text.Mathlib.Text.{◌==◌}
use text.Mathlib.TextEquality.{eq_iff}
use linear_pi_orchestrator.Prelude.Tests.{if◌then◌else◌, Bool-cases}
use linear_pi_orchestrator.Prelude.Lists.{All, includes, Distinct, length}

abbrev pub Table {ℓ} : Type ℓ → Type ℓ
Table V = List (String × V)

module _ {ℓ} {V : Type ℓ} where
  -- m[k], m.get(k)
  unfoldable pub get : Table V → String → Option V
  get [] k = none
  get ((j, v) ∷ m) k = if j == k then some v else get m k

  -- { ...m, [k]: v }, m.set(k, v)
  unfoldable pub set : Table V → String → V → Table V
  set [] k v = (k, v) ∷ []
  set ((j, w) ∷ m) k v = if j == k then (j, v) ∷ m else (j, w) ∷ set m k v

  -- Object.keys(m)
  abbrev pub keys : Table V → List String
  keys [] = []
  keys ((j, v) ∷ m) = j ∷ keys m

  -- m.values()
  abbrev pub values : Table V → List V
  values [] = []
  values ((j, v) ∷ m) = v ∷ values m

  -- { ...m, ...n }
  unfoldable pub merge : Table V → Table V → Table V
  merge m [] = m
  merge m ((k, v) ∷ n) = merge (set m k v) n

  pub get-set :
      (m : Table V) (k j : String) (v : V)
      → get (set m k v) j ≡ (if k == j then some v else get m j)
  unfolding get set
  get-set [] k j v = refl
  get-set ((i, w) ∷ m) k j v = ground (arith, eq_iff k j, eq_iff i k, eq_iff i j, get-set m k j v)

  pub get-set_self : (m : Table V) (k : String) (v : V) → get (set m k v) k ≡ some v
  get-set_self m k v = ground (arith, get-set m k k v, eq_iff k k)

  pub get-set_ne :
      (m : Table V) (k j : String) (v : V) → (k == j) ≡ false → get (set m k v) j ≡ get m j
  get-set_ne m k j v h = ground (arith, get-set m k j v)

  pub includes-set :
      (m : Table V) (k j : String) (v : V)
      → includes (keys (set m k v)) j ≡ (if k == j then true else includes (keys m) j)
  unfolding set
  includes-set [] k j v = ground arith
  includes-set ((i, w) ∷ m) k j v =
      ground (arith, eq_iff k j, eq_iff i k, eq_iff i j, includes-set m k j v)

  -- Writing keeps the keys distinct.
  pub set-Distinct :
      (m : Table V) (k : String) (v : V) → Distinct (keys m) → Distinct (keys (set m k v))
  unfolding set
  set-Distinct [] k v d = (refl, tt)
  set-Distinct ((i, w) ∷ m) k v d =
      ground (arith, includes-set m k i v, eq_iff i k, eq_iff k i, set-Distinct m k v d.1)

  pub get-none_of_not-includes :
      (m : Table V) (k : String) → includes (keys m) k ≡ false → get m k ≡ none
  unfolding get
  get-none_of_not-includes [] k h = refl
  get-none_of_not-includes ((i, w) ∷ m) k h = ground (arith, get-none_of_not-includes m k)

  pub length-keys : (m : Table V) → length (keys m) ≡ length m
  length-keys [] = refl
  length-keys ((k, v) ∷ m) = ap suc (length-keys m)

  -- A new key comes last.
  pub set-new :
      (m : Table V) (k : String) (v : V)
      → includes (keys m) k ≡ false
      → set m k v ≡ m ++ (k, v) ∷ []
  unfolding set
  set-new [] k v h = refl
  set-new ((i, w) ∷ m) k v h = ground (arith, set-new m k v)

module _ {ℓ κ} {V : Type ℓ} (P : String → V → Type κ) where
  -- `P` holds of every key with its value.
  abbrev pub Entries : Table V → Type κ
  Entries [] = Unit
  Entries ((k, v) ∷ m) = P k v × Entries m

  pub Entries-get : (m : Table V) (k : String) {v : V} → Entries m → get m k ≡ some v → P k v
  unfolding get
  Entries-get [] k e h = cc
  Entries-get ((j, w) ∷ m) k {v} e h = elim (Bool-cases (j == k)) [
    | inl same ↦
        let same_value : w ≡ v = ground arith in subst₂ P ((eq_iff j k).0 same) same_value e.0
    | inr other ↦ Entries-get m k e.1 (ground arith)
  ]

  pub Entries-set : (m : Table V) (k : String) (v : V) → Entries m → P k v → Entries (set m k v)
  unfolding set
  Entries-set [] k v e p = (p, tt)
  Entries-set ((j, w) ∷ m) k v e p = elim (Bool-cases (j == k)) [
    | inl same ↦ rw same (subst (λ i. P i v) (sym ((eq_iff j k).0 same)) p, e.1)
    | inr other ↦ rw other (e.0, Entries-set m k v e.1 p)
  ]

module _ {ℓ κ} {V : Type ℓ} where
  pub Entries-map :
      {P Q : String → V → Type κ} (m : Table V)
      → ((k : String) (v : V) → includes (keys m) k ≡ true → P k v → Q k v)
      → Entries P m
      → Entries Q m
  Entries-map [] f e = tt
  Entries-map ((j, w) ∷ m) f e = (
    f j w (ground (arith, eq_iff j j)) e.0,
    Entries-map m (λ k v i p. f k v (ground (arith, i)) p) e.1,
  )

  pub values-All : (P : V → Type κ) (m : Table V) → Entries (λ k v. P v) m → All P (values m)
  values-All P [] e = tt
  values-All P ((k, v) ∷ m) e = (e.0, values-All P m e.1)

  pub All-values :
      (P : V → Type κ) (m : Table V) (k : String) {v : V}
      → All P (values m)
      → get m k ≡ some v
      → P v
  unfolding get
  All-values P [] k all e = cc
  All-values P ((j, w) ∷ m) k all e = elim (Bool-cases (j == k)) [
    | inl same ↦ let same_value : w ≡ _ = ground arith in subst P same_value all.0
    | inr other ↦ All-values P m k all.1 (ground arith)
  ]

-- With distinct keys every entry is found under its key.
pub Entries-found {ℓ} :
    {V : Type ℓ} (m : Table V) → Distinct (keys m) → Entries (λ k v. get m k ≡ some v) m
unfolding get
Entries-found [] d = tt
Entries-found ((j, w) ∷ m) d = (
  ground (arith, eq_iff j j),
  Entries-map m (λ k v i e. ground (arith, i, e, d.0, eq_iff j k)) (Entries-found m d.1),
)
