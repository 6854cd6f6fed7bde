-- ===== src/Cycles/Sound.antt =====
-- What the searches for cycles find.
use linear_pi_orchestrator.Prelude.{
  ℕ, zero, suc, String, true, Option, none, some, List, [], ◌∷◌, ◌++◌, ◌≡◌, refl, sym, ◌∙◌, subst,
  arith, eq_iff, includes, All, Bool-cases, inl, inr, includes-append, ◌↔◌,
}
use linear_pi_orchestrator.Cycles.{
  Search, visit_each, visit, find_cycles, ◌>>=◌, slice_from, with_cycle, finish,
}
use linear_pi_orchestrator.Cycles.Steps.{visit-complete, visit-visiting, visit-enters}
use linear_pi_orchestrator.Cycles.Walks.{
  Walk, step, next, Acyclic, IsOrdered, All-includes, IsOrdered-Acyclic,
}

bind-some :
    {A B : Type 0} (m : Option A) (f : A → Option B) {b : B}
    → (m >>= f) ≡ some b
    → (a : A) × (m ≡ some a) × (f a ≡ some b)
bind-some none f e = cc
bind-some (some a) f e = (a, refl, e)

snoc-ne-nil : {A : Type 0} (xs : List A) (x : A) → ¬ (xs ++ x ∷ [] ≡ [])
snoc-ne-nil [] x e = cc
snoc-ne-nil (y ∷ xs) x e = cc

module _ (targets : String → List String) where
  -- What a part of a search that reports nothing does to the finished ids.
  record Grows (s s' : Search) : Type 0 where
    clean : s.cycles ≡ []
    ordered : IsOrdered targets s.complete → IsOrdered targets s'.complete
    kept : (x : String) → includes s.complete x ≡ true → includes s'.complete x ≡ true

  Grows-same : (s s' : Search) → s ≡ s' → s'.cycles ≡ [] → Grows s s'
  Grows-same s s' e n = record {
    clean = rw e n;
    ordered = λ o. rw (← e) o;
    kept = λ x i. rw (← e) i;
  }

  abbrev Completes : (Search → String → Option Search) → Type 0
  Completes f =
      (s s' : Search) (id : String)
      → f s id ≡ some s'
      → s'.cycles ≡ []
      → Grows s s' × (includes s'.complete id ≡ true)

  visit_each-Completes :
      (f : Search → String → Option Search)
      → Completes f
      → (ids : List String) (s s' : Search) → visit_each f ids s ≡ some s'
      → s'.cycles ≡ []
      → Grows s s' × All (λ t. includes s'.complete t ≡ true) ids
  unfolding visit_each
  visit_each-Completes f c [] s s' e n = let same : s ≡ s' = cc in (Grows-same s s' same n, tt)
  visit_each-Completes f c (id ∷ ids) s s' e n =
      let (m, first_part, later) = bind-some (f s id) (visit_each f ids) e in
      let (g', rest) = visit_each-Completes f c ids m s' later n in
      let (g, done) = c s m id first_part g'.clean in
      (
        record {
          clean = g.clean;
          ordered = λ o. g'.ordered (g.ordered o);
          kept = λ x i. g'.kept x (g.kept x i);
        },
        (g'.kept id done, rest),
      )

  visit-Completes : (fuel : ℕ) (path : List String) → Completes (visit targets fuel path)
  unfolding visit
  visit-Completes zero path s s' id e n = cc
  visit-Completes (suc fuel) path s s' id e n = elim (Bool-cases (includes s.complete id)) [
    | inl c ↦
        let same : s ≡ s' = cc (visit-complete targets fuel path s id c) in
        (Grows-same s s' same n, rw (← same) c)
    | inr c ↦ elim (Bool-cases (includes path id)) [
      | inl v ↦
          let same : with_cycle path id s ≡ s' = cc (visit-visiting targets fuel path s id c v) in
          absurd (
            snoc-ne-nil s.cycles (slice_from id path ++ id ∷ [])
              (subst (λ t. t.cycles ≡ []) (sym same) n))
      | inr v ↦
          let (m, inner, last) =
            bind-some (visit_each (visit targets fuel (path ++ id ∷ [])) (targets id) s)
              (λ t. some (finish id t)) (sym (visit-enters targets fuel path s id c v) ∙ e) in
          let done : finish id m ≡ s' = cc in
          let (g, all_done) =
            visit_each-Completes (visit targets fuel (path ++ id ∷ []))
              (visit-Completes fuel (path ++ id ∷ [])) (targets id) s m inner
              (subst (λ t. t.cycles ≡ []) (sym done) n) in
          subst (λ t. Grows s t × (includes t.complete id ≡ true)) done
            (
              record {
                clean = g.clean;
                ordered = λ o. (all_done, g.ordered o);
                kept = λ x i. ground (arith, g.kept x i);
              },
              ground (arith, eq_iff id id),
            )
    ]
  ]

  each_clean :
      (f : Search → String → Option Search) (ids : List String)
      → ((s s' : Search) (id : String)
          → includes ids id ≡ true
          → f s id ≡ some s'
          → s.cycles ≡ []
          → s'.cycles ≡ [])
      → (s s' : Search) → visit_each f ids s ≡ some s'
      → s.cycles ≡ []
      → s'.cycles ≡ []
  unfolding visit_each
  each_clean f [] h s s' e n = let same : s ≡ s' = cc in subst (λ t. t.cycles ≡ []) same n
  each_clean f (id ∷ ids) h s s' e n =
      let (m, first_part, later) = bind-some (f s id) (visit_each f ids) e in
      each_clean f ids (λ t t' j i. h t t' j (ground arith)) m s' later
        (h s m id (ground (arith, eq_iff id id)) first_part n)

  extend :
      (path : List String) (id t : String)
      → ((p : String) → includes path p ≡ true → Walk targets p id)
      → includes (targets id) t ≡ true
      → (p : String) → includes (path ++ id ∷ []) p ≡ true
      → Walk targets p t
  extend path id t w i p h = elim (Bool-cases (includes path p)) [
    | inl old ↦ next (w p old) i
    | inr new ↦
        let same : id ≡ p = ground (arith, includes-append path (id ∷ []) p, eq_iff id p) in
        subst (λ q. Walk targets q t) same (step i)
  ]

  -- Where no walk closes, a search reports nothing.
  visit_clean :
      Acyclic targets
      → (fuel : ℕ) (path : List String) (s s' : Search) (id : String)
      → ((p : String) → includes path p ≡ true → Walk targets p id)
      → visit targets fuel path s id ≡ some s'
      → s.cycles ≡ []
      → s'.cycles ≡ []
  unfolding visit
  visit_clean acyclic zero path s s' id w e n = cc
  visit_clean acyclic (suc fuel) path s s' id w e n = elim (Bool-cases (includes s.complete id)) [
    | inl c ↦
        let same : s ≡ s' = cc (visit-complete targets fuel path s id c) in
        subst (λ t. t.cycles ≡ []) same n
    | inr c ↦ elim (Bool-cases (includes path id)) [
      | inl v ↦ absurd (acyclic id (w id v))
      | inr v ↦
          let (m, inner, last) =
            bind-some (visit_each (visit targets fuel (path ++ id ∷ [])) (targets id) s)
              (λ t. some (finish id t)) (sym (visit-enters targets fuel path s id c v) ∙ e) in
          let done : finish id m ≡ s' = cc in
          let clean =
            each_clean (visit targets fuel (path ++ id ∷ [])) (targets id)
              (λ t t' j i. visit_clean acyclic fuel (path ++ id ∷ []) t t' j (extend path id j w i))
              s m inner n in
          subst (λ t. t.cycles ≡ []) done clean
    ]
  ]

  first_edge : {a b : String} → Walk targets a b → (t : String) × (includes (targets a) t ≡ true)
  first_edge {a} {b} (step e) = (b, e)
  first_edge (next w e) = first_edge w

  -- A search from every id that has edges reports nothing exactly when no walk closes.
  pub find_cycles-Acyclic :
      (ids : List String)
      → ((id t : String) → includes (targets id) t ≡ true → includes ids id ≡ true)
      → (fuel : ℕ) (s : Search) → find_cycles targets fuel ids ≡ some s
      → (s.cycles ≡ []) ↔ Acyclic targets
  unfolding find_cycles
  find_cycles-Acyclic ids known fuel s e = (
    λ n id w.
        let (g, done) =
          visit_each-Completes (visit targets fuel []) (visit-Completes fuel []) ids
            (record { complete = []; cycles = [] }) s e n in
        let (t, i) = first_edge w in
        IsOrdered-Acyclic targets s.complete id (g.ordered tt)
          (All-includes (λ x. includes s.complete x ≡ true) ids id done (known id t i)) w,
    λ acyclic.
        each_clean (visit targets fuel []) ids
          (λ t t' id i. visit_clean acyclic fuel [] t t' id λ p h. cc)
          (record { complete = []; cycles = [] }) s e refl,
  )
