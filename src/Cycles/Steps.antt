-- ===== src/Cycles/Steps.antt =====
-- One call of a search for cycles, by what it meets.
use linear_pi_orchestrator.Prelude.{
  ℕ, suc, String, true, false, some, List, [], ◌∷◌, ◌++◌, ◌≡◌, includes,
}
use linear_pi_orchestrator.Cycles.{Search, visit_each, visit, ◌>>=◌, with_cycle, finish}

module _ (targets : String → List String) (fuel : ℕ) (path : List String) (s : Search)
    (id : String) where
  pub visit-complete : includes s.complete id ≡ true → visit targets (suc fuel) path s id ≡ some s
  unfolding visit
  visit-complete c = rw c

  pub visit-visiting :
      includes s.complete id ≡ false
      → includes path id ≡ true
      → visit targets (suc fuel) path s id ≡ some (with_cycle path id s)
  unfolding visit
  visit-visiting c v = rw (c, v)

  pub visit-enters :
      includes s.complete id ≡ false
      → includes path id ≡ false
      → visit targets (suc fuel) path s id ≡ (
          visit_each (visit targets fuel (path ++ id ∷ [])) (targets id) s >>= λ s'.
          some (finish id s'))
  unfolding visit
  visit-enters c v = rw (c, v)
