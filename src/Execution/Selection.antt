-- ===== src/Execution/Selection.antt =====
-- selectOutcome in packages/application/src/execute-job.ts.
use linear_pi_orchestrator.Prelude.{
  ℕ, ◌≤◌, Bool, true, false, ◌||◌, Option, none, some, List, [], ◌∷◌, ◌≡◌, refl, arith,
  if◌then◌else◌, get_or_else, find, All, Any, here, there, Bool-cases, inl, inr,
}
use linear_pi_orchestrator.Prelude.Results.{ok}
use linear_pi_orchestrator.Execution.Outcomes.{Outcome, has_status, select_outcome}

module _ {Output : Type 0} where
  -- A failure first, then what is still open, then a success, then the rest.
  abbrev pub rank : Outcome Output → ℕ
  rank o =
      if has_status o "failed"
      then 0
      else if has_status o "running" || has_status o "deferred"
      then 1
      else if has_status o "succeeded"
      then 2
      else 3

  -- What `find` finds is in the list and passes the test; without a find nothing passes.
  Search : (Outcome Output → Bool) → List (Outcome Output) → Option (Outcome Output) → Type 0
  Search p os none = All (λ o. p o ≡ false) os
  Search p os (some o) = (p o ≡ true) × Any (λ x. x ≡ o) os

  later-Search :
      (p : Outcome Output → Bool) (o : Outcome Output) (os : List (Outcome Output))
      (r : Option (Outcome Output))
      → p o ≡ false
      → Search p os r
      → Search p (o ∷ os) r
  unfolding Search
  later-Search p o os none b f = (b, f)
  later-Search p o os (some x) b f = (f.0, there f.1)

  find-Search : (p : Outcome Output → Bool) (os : List (Outcome Output)) → Search p os (find p os)
  unfolding Search
  find-Search p [] = tt
  find-Search p (o ∷ os) = elim (Bool-cases (p o)) [
    | inl b ↦ rw b (b, here refl)
    | inr b ↦ rw b (later-Search p o os (find p os) b (find-Search p os))
  ]

  -- With the three searches at their results, the choice has the least rank.
  least :
      (b : Outcome Output) (n : ℕ) (os : List (Outcome Output))
      → rank b ≤ n
      → All (λ o. n ≤ rank o) os
      → All (λ o. rank b ≤ rank o) os
  least b n [] h a = tt
  least b n (o ∷ os) h a = (omega (arith, h, a.0), least b n os h a.1)

  at_least_0 : (os : List (Outcome Output)) → All (λ o. 0 ≤ rank o) os
  at_least_0 [] = tt
  at_least_0 (o ∷ os) = (omega arith, at_least_0 os)

  at_least_1 :
      (os : List (Outcome Output))
      → All (λ o. has_status o "failed" ≡ false) os
      → All (λ o. 1 ≤ rank o) os
  at_least_1 [] f = tt
  at_least_1 (o ∷ os) f = (ground (arith, f.0), at_least_1 os f.1)

  at_least_2 :
      (os : List (Outcome Output))
      → All (λ o. has_status o "failed" ≡ false) os
      → All (λ o. (has_status o "running" || has_status o "deferred") ≡ false) os
      → All (λ o. 2 ≤ rank o) os
  at_least_2 [] f g = tt
  at_least_2 (o ∷ os) f g = (ground (arith, f.0, g.0), at_least_2 os f.1 g.1)

  at_least_3 :
      (os : List (Outcome Output))
      → All (λ o. has_status o "failed" ≡ false) os
      → All (λ o. (has_status o "running" || has_status o "deferred") ≡ false) os
      → All (λ o. has_status o "succeeded" ≡ false) os
      → All (λ o. 3 ≤ rank o) os
  at_least_3 [] f g h = tt
  at_least_3 (o ∷ os) f g h = (ground (arith, f.0, g.0, h.0), at_least_3 os f.1 g.1 h.1)

  IsChoice : List (Outcome Output) → Outcome Output → Type 0
  IsChoice os b = Any (λ x. x ≡ b) os × All (λ x. rank b ≤ rank x) os

  choice :
      (o : Outcome Output) (os : List (Outcome Output))
      (failed open_yet succeeded : Option (Outcome Output))
      → Search (λ o. has_status o "failed") (o ∷ os) failed
      → Search (λ o. has_status o "running" || has_status o "deferred") (o ∷ os) open_yet
      → Search (λ o. has_status o "succeeded") (o ∷ os) succeeded
      → IsChoice (o ∷ os) (get_or_else failed (get_or_else open_yet (get_or_else succeeded o)))
  unfolding Search IsChoice
  choice o os (some b) y z f g h =
      (f.1, least b 0 (o ∷ os) (ground (arith, f.0)) (at_least_0 (o ∷ os)))
  choice o os none (some b) z f g h =
      (g.1, least b 1 (o ∷ os) (ground (arith, g.0)) (at_least_1 (o ∷ os) f))
  choice o os none none (some b) f g h =
      (h.1, least b 2 (o ∷ os) (ground (arith, h.0)) (at_least_2 (o ∷ os) f g))
  choice o os none none none f g h =
      (here refl, least o 3 (o ∷ os) (ground arith) (at_least_3 (o ∷ os) f g h))

  -- The outcome of a job with several targets is one of the targets' outcomes, and none of them
  -- comes before it in the order: failed, running or deferred, succeeded, any other.
  pub select_outcome-least :
      (o : Outcome Output) (os : List (Outcome Output))
      → (b : Outcome Output) × (select_outcome (o ∷ os) ≡ ok b)
        × Any (λ x. x ≡ b) (o ∷ os)
        × All (λ x. rank b ≤ rank x) (o ∷ os)
  unfolding select_outcome IsChoice
  select_outcome-least o os =
      let (m, l) =
        choice o os _ _ _ (find-Search (λ o. has_status o "failed") (o ∷ os))
          (find-Search (λ o. has_status o "running" || has_status o "deferred") (o ∷ os))
          (find-Search (λ o. has_status o "succeeded") (o ∷ os)) in
      (_, refl, m, l)
