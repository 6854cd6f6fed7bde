-- ===== src/Cycles.antt =====
-- The depth-first searches for cycles: `visit` in src/workflows/graph.ts and `walk` in
-- src/config/v2.ts, which differ in the edges that they follow.
-- The ids that are being visited are those of `path`: a call adds its id to both, and takes it out
-- of the set as it ends. The set of finished ids lists the newest first.
mod Steps
pub mod Walks
pub mod Fuel
pub mod Sound
use linear_pi_orchestrator.Prelude.{
  ℕ, zero, suc, String, Bool, Option, none, some, List, [], ◌∷◌, ◌++◌, ◌==◌, if◌then◌else◌,
  includes,
}

pub record Search : Type 0 where
  pub complete : List String
  pub cycles : List (List String)

infixl 5 ◌>>=◌
abbrev pub ◌>>=◌ : {A B : Type 0} → Option A → (A → Option B) → Option B
none >>= f = none
some a >>= f = f a

-- path.slice(path.indexOf(id)) of a path that has the id
unfoldable pub slice_from : String → List String → List String
slice_from id [] = []
slice_from id (x ∷ path) = let rest = slice_from id path in if x == id then x ∷ path else rest

abbrev pub with_cycle : List String → String → Search → Search
with_cycle path id s = record s { cycles = s.cycles ++ ((slice_from id path ++ id ∷ []) ∷ []) }

abbrev pub finish : String → Search → Search
finish id s = record s { complete = id ∷ s.complete }

-- A loop over ids.
unfoldable pub visit_each : (Search → String → Option Search) → List String → Search → Option Search
visit_each visit_one [] s = some s
visit_each visit_one (id ∷ ids) s = visit_one s id >>= visit_each visit_one ids

module _ (targets : String → List String) where
  -- `none` means that the fuel ran out.
  unfoldable pub visit : ℕ → List String → Search → String → Option Search
  unfolding visit_each slice_from
  visit zero path s id = none
  visit (suc fuel) path s id =
      let deeper =
        visit_each (visit fuel (path ++ id ∷ [])) (targets id) s >>= λ s'. some (finish id s') in
      if includes s.complete id
      then some s
      else if includes path id
      then some (with_cycle path id s)
      else deeper

  -- The search from each of the ids.
  unfoldable pub find_cycles : ℕ → List String → Option Search
  unfolding visit
  find_cycles fuel ids = visit_each (visit fuel []) ids (record { complete = []; cycles = [] })

-- The cycles that a search found. The fuel is never used up.
abbrev pub cycles_of : Option Search → List (List String)
cycles_of none = [] ∷ []
cycles_of (some s) = s.cycles
