-- ===== src/LegacyPipeline/Chain.antt =====
-- legacyPipelineToWorkflow in packages/application/src/legacy-pipeline.ts: the converted workflow.
use linear_pi_orchestrator.Prelude.{
  ℕ, suc, String, true, false, eq_iff, Option, none, some, List, [], ◌∷◌, map, ◌≡◌, refl, sym,
  subst, get_or_else, includes, Distinct, All, arith, Bool-cases, inl, inr,
}
use linear_pi_orchestrator.Prelude.Table
use linear_pi_orchestrator.Prelude.Texts.{is_blank}
use linear_pi_orchestrator.Prelude.Results.{Result, ok, thrown, ◌>>=◌, ok_inj}
use linear_pi_orchestrator.Domain.{WorkflowJobDefinition, WorkflowDefinition}
use linear_pi_orchestrator.Reconciler.Groups.{job_instances}
use linear_pi_orchestrator.Reconciler.Aggregate.{job_instances-declared_under}
use linear_pi_orchestrator.Reconciler.Progress.{OrderedAfter}
use linear_pi_orchestrator.Advance.{is_legacy_pipeline}
use linear_pi_orchestrator.LegacyPipeline.{
  TriggerActionDefinition, LegacyPipelineTrigger, assert_actions, assert_legacy_actions, jobs_of,
  workflow_of, compatibility, legacy_pipeline_to_workflow,
}
use linear_pi_orchestrator.LegacyPipeline.Order.{Named, declared_under-Named, jobs_of-OrderedAfter}

abbrev ids_in : List WorkflowJobDefinition → List String
ids_in = map (λ job. job.id)

-- No action has one of these ids.
abbrev Fresh : List String → List TriggerActionDefinition → Type 0
Fresh ids = All (λ action. includes ids action.id ≡ false)

Fresh-tail :
    (x : String) (ids : List String) (actions : List TriggerActionDefinition)
    → Fresh (x ∷ ids) actions
    → Fresh ids actions
Fresh-tail x ids [] f = tt
Fresh-tail x ids (action ∷ actions) f = (ground (arith, f.0), Fresh-tail x ids actions f.1)

Fresh-includes :
    (x : String) (ids : List String) (previous : Option TriggerActionDefinition)
    (actions : List TriggerActionDefinition)
    → Fresh (x ∷ ids) actions
    → includes (ids_in (jobs_of previous actions)) x ≡ false
unfolding jobs_of
Fresh-includes x ids previous [] f = refl
Fresh-includes x ids previous (action ∷ actions) f = ground (
  arith,
  f.0,
  eq_iff x action.id,
  eq_iff action.id x,
  Fresh-includes x ids (some action) actions f.1,
)

module _ (digits : ℕ → String) where
  -- One action that is accepted: its id is new, and the rest is accepted.
  accepted :
      (trigger_id : String) (index : ℕ) (ids : List String) (action : TriggerActionDefinition)
      (actions : List TriggerActionDefinition) (u : Unit {0})
      → assert_actions digits trigger_id index ids (action ∷ actions) ≡ ok u
      → (includes ids action.id ≡ false)
        × (assert_actions digits trigger_id (suc index) (action.id ∷ ids) actions ≡ ok u)
  unfolding assert_actions
  accepted trigger_id index ids action actions u h = elim (Bool-cases (is_blank action.id)) [
    | inl b ↦ let h' = rw b at h in absurd (cc)
    | inr b ↦ elim (Bool-cases (includes ids action.id)) [
      | inl c ↦ let h' = rw (b, c) at h in absurd (cc)
      | inr c ↦ elim (Bool-cases (is_blank action.action_use)) [
        | inl d ↦ let h' = rw (b, c, d) at h in absurd (cc)
        | inr d ↦ (c, rw (b, c, d) at h)
      ]
    ]
  ]

  assert_actions-Fresh :
      (trigger_id : String) (index : ℕ) (ids : List String) (actions : List TriggerActionDefinition)
      (u : Unit {0})
      → assert_actions digits trigger_id index ids actions ≡ ok u
      → Fresh ids actions
  assert_actions-Fresh trigger_id index ids [] u h = tt
  assert_actions-Fresh trigger_id index ids (action ∷ actions) u h =
      let (c, h') = accepted trigger_id index ids action actions u h in
      (
        c,
        Fresh-tail action.id ids actions
            (assert_actions-Fresh trigger_id (suc index) (action.id ∷ ids) actions u h'),
      )

  assert_actions-Distinct :
      (trigger_id : String) (index : ℕ) (ids : List String)
      (previous : Option TriggerActionDefinition) (actions : List TriggerActionDefinition)
      (u : Unit {0})
      → assert_actions digits trigger_id index ids actions ≡ ok u
      → Distinct (ids_in (jobs_of previous actions))
  unfolding jobs_of
  assert_actions-Distinct trigger_id index ids previous [] u h = tt
  assert_actions-Distinct trigger_id index ids previous (action ∷ actions) u h =
      let (c, h') = accepted trigger_id index ids action actions u h in
      (
        Fresh-includes action.id ids (some action) actions
            (assert_actions-Fresh trigger_id (suc index) (action.id ∷ ids) actions u h'),
        assert_actions-Distinct trigger_id (suc index) (action.id ∷ ids) (some action) actions u h',
      )

  actions-Distinct :
      (trigger_id : String) (actions : List TriggerActionDefinition) (u : Unit {0})
      → assert_legacy_actions digits trigger_id actions ≡ ok u
      → Distinct (ids_in (jobs_of none actions))
  unfolding assert_legacy_actions
  actions-Distinct trigger_id [] u h = absurd (cc)
  actions-Distinct trigger_id (action ∷ actions) u h =
      assert_actions-Distinct trigger_id 0 [] none (action ∷ actions) u h

  workflow-IsLegacy :
      (trigger : LegacyPipelineTrigger) (actions : List TriggerActionDefinition)
      → is_legacy_pipeline (workflow_of trigger actions) ≡ true
  unfolding is_legacy_pipeline
  workflow-IsLegacy trigger actions = rw (
      Table.get-set_self (get_or_else trigger.metadata []) "legacyPipeline"
        (compatibility trigger actions))

  -- What holds of a converted workflow.
  abbrev pub IsChain : WorkflowDefinition → Type 0
  IsChain w =
      (is_legacy_pipeline w ≡ true)
      × Distinct (ids_in w.jobs)
      × OrderedAfter (some (job_instances w.jobs)) [] w.jobs

  workflow-IsChain :
      (trigger : LegacyPipelineTrigger) (actions : List TriggerActionDefinition)
      (w : WorkflowDefinition) (r : Result (Unit {0}))
      → assert_legacy_actions digits trigger.id actions ≡ r
      → (r >>= λ _. ok (workflow_of trigger actions)) ≡ ok w
      → IsChain w
  workflow-IsChain trigger actions w (thrown m) e h = absurd (cc)
  workflow-IsChain trigger actions w (ok u) e h = subst IsChain (ok_inj h) (
    workflow-IsLegacy trigger actions,
    actions-Distinct trigger.id actions u e,
    jobs_of-OrderedAfter (job_instances (jobs_of none actions)) [] none actions
        (λ name.
          subst (Named name) (sym (job_instances-declared_under (jobs_of none actions) name))
            (declared_under-Named none actions name))
        tt,
  )

  -- A trigger's pipeline, once converted, is a workflow that the engine recognises as an old pipeline,
  -- whose jobs have distinct ids, and in which each job needs only jobs before it.
  pub legacy_pipeline_to_workflow-IsChain :
      (trigger : LegacyPipelineTrigger) (w : WorkflowDefinition)
      → legacy_pipeline_to_workflow digits trigger ≡ ok w
      → IsChain w
  unfolding legacy_pipeline_to_workflow
  legacy_pipeline_to_workflow-IsChain trigger w h =
      workflow-IsChain trigger (get_or_else trigger.actions []) w _ refl h
