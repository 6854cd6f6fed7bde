-- ===== src/Cycles/Walks.antt =====
-- Walks along the edges, and lists of ids that are closed under edges.
use linear_pi_orchestrator.Prelude.{
  String, true, List, [], ◌∷◌, ◌==◌, ◌≡◌, sym, subst, arith, eq_iff, includes, All, Bool-cases, inl,
  inr,
}

module _ (targets : String → List String) where
  -- A walk of one edge or more.
  pub data Walk (a : String) : String → Type 0 where
    step : {b : String} → includes (targets a) b ≡ true → Walk a b
    next : {b c : String} → Walk a b → includes (targets b) c ≡ true → Walk a c

  -- No walk leads back to where it starts.
  abbrev pub Acyclic : Type 0
  Acyclic = (id : String) → ¬ Walk id id

  -- Each id comes after the ids that its edges lead to.
  abbrev pub IsOrdered : List String → Type 0
  IsOrdered [] = Unit
  IsOrdered (id ∷ done) = All (λ t. includes done t ≡ true) (targets id) × IsOrdered done

pub All-includes :
    (P : String → Type 0) (xs : List String) (x : String) → All P xs → includes xs x ≡ true → P x
All-includes P [] x h i = cc
All-includes P (y ∷ xs) x h i = elim (Bool-cases (y == x)) [
  | inl e ↦ subst P ((eq_iff y x).0 e) h.0
  | inr e ↦ All-includes P xs x h.1 (rw e at i)
]

module _ (targets : String → List String) where
  targets_closed :
      (done : List String) (a b : String)
      → IsOrdered targets done
      → includes done a ≡ true
      → includes (targets a) b ≡ true
      → includes done b ≡ true
  targets_closed [] a b o h e = cc
  targets_closed (x ∷ done) a b o h e = elim (Bool-cases (x == a)) [
    | inl same ↦
        let e' = subst (λ i. includes (targets i) b ≡ true) (sym ((eq_iff x a).0 same)) e in
        let later = All-includes (λ t. includes done t ≡ true) (targets x) b o.0 e' in
        ground (arith, later)
    | inr other ↦ let later = targets_closed done a b o.1 (rw other at h) e in ground (arith, later)
  ]

  pub Walk-closed :
      (done : List String) {a b : String}
      → IsOrdered targets done
      → includes done a ≡ true
      → Walk targets a b
      → includes done b ≡ true
  Walk-closed done {a} {b} o h (step e) = targets_closed done a b o h e
  Walk-closed done {a} {b} o h (next {b = m} w e) =
      targets_closed done m b o (Walk-closed done o h w) e

  -- After the first edge, a walk stays in a closed list.
  Walk-tail :
      (done : List String) {a b : String}
      → IsOrdered targets done
      → All (λ t. includes done t ≡ true) (targets a)
      → Walk targets a b
      → includes done b ≡ true
  Walk-tail done {a} {b} o h (step e) = All-includes (λ t. includes done t ≡ true) (targets a) b h e
  Walk-tail done {a} {b} o h (next {b = m} w e) = targets_closed done m b o (Walk-tail done o h w) e

  pub IsOrdered-Acyclic :
      (done : List String) (id : String)
      → IsOrdered targets done
      → includes done id ≡ true
      → ¬ Walk targets id id
  IsOrdered-Acyclic [] id o h w = cc
  IsOrdered-Acyclic (x ∷ done) id o h w = elim (Bool-cases (x == id)) [
    | inl same ↦
        let o' =
          subst (λ i. All (λ t. includes done t ≡ true) (targets i)) ((eq_iff x id).0 same) o.0 in
        IsOrdered-Acyclic done id o.1 (Walk-tail done o.1 o' w) w
    | inr other ↦ IsOrdered-Acyclic done id o.1 (rw other at h) w
  ]
