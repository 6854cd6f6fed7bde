-- ===== src/Cycles/Fuel.antt =====
-- The searches for cycles end: no path is longer than the list of ids that have edges.
use linear_pi_orchestrator.Prelude.{
  ℕ, zero, suc, ◌+◌, ◌≤◌, ◌<◌, String, true, false, Option, some, List, [], ◌∷◌, ◌++◌, ◌==◌, ◌≡◌,
  refl, arith, eq_iff, if◌then◌else◌, includes, Distinct, All, length, length-append, Bool-cases,
  inl, inr, includes-append,
}
use linear_pi_orchestrator.Cycles.{Search, visit_each, visit, find_cycles, with_cycle, finish}
use linear_pi_orchestrator.Cycles.Steps.{visit-complete, visit-visiting, visit-enters}

without : List String → String → List String
without [] k = []
without (x ∷ xs) k = let rest = x ∷ without xs k in if x == k then xs else rest

length-without :
    (xs : List String) (k : String) → includes xs k ≡ true → length xs ≡ suc (length (without xs k))
unfolding without
length-without [] k h = cc
length-without (x ∷ xs) k h = ground (arith, length-without xs k)

includes-without :
    (xs : List String) (k j : String)
    → (k == j) ≡ false
    → includes xs j ≡ true
    → includes (without xs k) j ≡ true
unfolding without
includes-without [] k j d h = cc
includes-without (x ∷ xs) k j d h =
    ground (arith, eq_iff x k, eq_iff x j, eq_iff k j, includes-without xs k j)

All-without :
    (xs ys : List String) (k : String)
    → includes xs k ≡ false
    → All (λ x. includes ys x ≡ true) xs
    → All (λ x. includes (without ys k) x ≡ true) xs
All-without [] ys k f h = tt
All-without (x ∷ xs) ys k f h = (
  includes-without ys k x (ground (arith, eq_iff x k, eq_iff k x)) h.0,
  All-without xs ys k (ground arith) h.1,
)

-- Distinct ids out of a list are no more than the list has.
pub length-le_of_Distinct :
    (xs ys : List String) → Distinct xs → All (λ x. includes ys x ≡ true) xs → length xs ≤ length ys
length-le_of_Distinct [] ys d h = omega arith
length-le_of_Distinct (x ∷ xs) ys d h = omega (
  arith,
  length-without ys x h.0,
  length-le_of_Distinct xs (without ys x) d.1 (All-without xs ys x d.0 h.1),
)

Distinct-snoc :
    (xs : List String) (k : String) → Distinct xs → includes xs k ≡ false → Distinct (xs ++ k ∷ [])
Distinct-snoc [] k d h = (refl, tt)
Distinct-snoc (x ∷ xs) k d h =
    ground (arith, includes-append xs (k ∷ []) x, eq_iff x k, eq_iff k x, Distinct-snoc xs k d.1)

All-snoc :
    (P : String → Type 0) (xs : List String) (k : String) → All P xs → P k → All P (xs ++ k ∷ [])
All-snoc P [] k h p = (p, tt)
All-snoc P (x ∷ xs) k h p = (h.0, All-snoc P xs k h.1 p)

visit_each_returns :
    (f : Search → String → Option Search) (ids : List String) (s : Search)
    → ((s : Search) (id : String) → includes ids id ≡ true → (s' : Search) × (f s id ≡ some s'))
    → (s' : Search) × (visit_each f ids s ≡ some s')
unfolding visit_each
visit_each_returns f [] s h = (s, refl)
visit_each_returns f (id ∷ ids) s h =
    let (s', e) = h s id (ground (arith, eq_iff id id)) in
    let (t, e') = visit_each_returns f ids s' λ s'' j i. h s'' j (ground arith) in (t, rw e e')

module _ (targets : String → List String) (sources : List String)
    (known : (id t : String) → includes (targets id) t ≡ true → includes sources id ≡ true) where
  visit_returns :
      (fuel : ℕ) (path : List String) (s : Search) (id : String)
      → Distinct path
      → All (λ p. includes sources p ≡ true) path
      → length sources + 1 < fuel + length path
      → (s' : Search) × (visit targets fuel path s id ≡ some s')
  visit_returns zero path s id d h l =
      absurd (omega (arith, length-le_of_Distinct path sources d h))
  visit_returns (suc fuel) path s id d h l = elim (Bool-cases (includes s.complete id)) [
    | inl c ↦ (s, visit-complete targets fuel path s id c)
    | inr c ↦ elim (Bool-cases (includes path id)) [
      | inl v ↦ (with_cycle path id s, visit-visiting targets fuel path s id c v)
      | inr v ↦
          let (s', e) =
            visit_each_returns (visit targets fuel (path ++ id ∷ [])) (targets id) s λ s'' t i.
              visit_returns fuel (path ++ id ∷ []) s'' t (Distinct-snoc path id d v)
                (All-snoc _ path id h (known id t i))
                (omega (arith, length-append path (id ∷ []))) in
          (finish id s', rw (visit-enters targets fuel path s id c v, e))
    ]
  ]

  -- A search for cycles from any ids ends with a result, if every id that has edges is in a list and
  -- the nesting of the calls may exceed the length of the list by two.
  pub find_cycles_returns :
      (fuel : ℕ) (ids : List String)
      → length sources + 1 < fuel
      → (s : Search) × (find_cycles targets fuel ids ≡ some s)
  unfolding find_cycles
  find_cycles_returns fuel ids l =
      visit_each_returns (visit targets fuel []) ids (record { complete = []; cycles = [] })
        λ s id i. visit_returns fuel [] s id tt tt (omega arith)
