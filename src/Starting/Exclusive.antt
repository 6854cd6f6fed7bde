-- ===== src/Starting/Exclusive.antt =====
-- A concurrency group is held by one run: StartWorkflow in packages/application/src/workflow-engine.ts.
use linear_pi_orchestrator.Prelude.{
  List, String, Bool, true, false, not, Option, none, some, ◌≡◌, refl, sym, ◌∙◌, ap, subst, arith,
  ◌==◌, eq_iff, Bool-cases, Option-cases, inl, inr, All, keep-All, keep-All_inv, All-map, truthy,
}
use linear_pi_orchestrator.Prelude.Table
use linear_pi_orchestrator.Domain.{
  WorkItem, WorkflowDefinition, WorkflowConcurrency, WorkflowRunIdentity, WorkflowRunRecord,
  WorkflowRunStatus,
}
use linear_pi_orchestrator.Domain.Key.{create_workflow_run_key}
use linear_pi_orchestrator.RunStore.{
  Records, OpenInput, open_workflow_run, find_workflow_run, find_running_in_group, new_run,
}
use linear_pi_orchestrator.RunStore.Cases.{open_cases}
use linear_pi_orchestrator.RunStore.Keyed.{Inv, IsKeyed, call-Inv}
use linear_pi_orchestrator.RunStore.Ops.{call, opens}
use linear_pi_orchestrator.Starting.{
  StartPorts, opened, clear_group, rendered_group, start_in, start_workflow, identity_of, opening,
  live_others,
}
use linear_pi_orchestrator.Starting.Touches.{IsFailed}
use linear_pi_orchestrator.Starting.Clearing.{Fades, Cleared, live, in_group, clear_group-Cleared}

module _ (ports : StartPorts) (workflow : WorkflowDefinition) where
  not_running :
      (s : Records) (group j : String) (r : WorkflowRunRecord)
      → IsFailed s j
      → Table.get s j ≡ some r
      → in_group ports workflow group r ≡ true
      → ⊥
  not_running s group j r (final, at, failed) found here =
      let same : final ≡ r = ground (arith, at, found) in
      let over : r.status ≡ WorkflowRunStatus.failed =
        sym (ap (λ (x : WorkflowRunRecord). x.status) same) ∙ failed in
      ground (arith, over, here)

  -- Where the runs of the group are over, a run of the group that is still running has the key.
  lonely :
      (records s : Records) (group : String) (identity : WorkflowRunIdentity)
      → Inv records
      → Fades records s
      → All
          (λ run. IsFailed s (create_workflow_run_key run.identity))
          (live ports workflow records group identity)
      → (j : String) (r : WorkflowRunRecord) → Table.get s j ≡ some r
      → in_group ports workflow group r ≡ true
      → j ≡ create_workflow_run_key identity
  unfolding live find_running_in_group
  lonely records s group identity v fades over j r found here = elim (fades.each j) [
    | inr gone ↦ absurd (not_running s group j r gone found here)
    | inl same ↦
        let before : Table.get records j ≡ some r = sym same ∙ found in
        let kept = Table.Entries-get IsKeyed records j v.keyed before in
        let key = create_workflow_run_key identity in
        elim (Bool-cases (j == key)) [
          | inl own ↦ (eq_iff j key).0 own
          | inr other ↦
              let each =
                keep-All_inv (in_group ports workflow group) _ (Table.values records)
                  (keep-All_inv _ _ _ over) in
              let ended =
                Table.All-values _ records j each before here
                  (subst (λ i. not (i == key) ≡ true) (sym kept.own_id) (ground (arith, other))) in
              let ended_here = subst (λ i. IsFailed s i) kept.own_key ended in
              absurd (not_running s group j r ended_here found here)
        ]
  ]

  -- The run under the key is the only one of the group that runs.
  IsAlone : String → WorkflowRunIdentity → Records × Option WorkflowRunRecord → Type 0
  IsAlone group identity p =
      (run : WorkflowRunRecord)
      → p.1 ≡ some run
      → Inv p.0
        × (Table.get p.0 (create_workflow_run_key identity) ≡ some run)
        × ((j : String) (r : WorkflowRunRecord)
            → Table.get p.0 j ≡ some r
            → in_group ports workflow group r ≡ true
            → j ≡ create_workflow_run_key identity)

  -- In a ledger where no other run of the group runs, one more is opened.
  AloneIn : String → WorkflowRunIdentity → Records → Type 0
  AloneIn group identity s =
      (j : String) (r : WorkflowRunRecord)
      → Table.get s j ≡ some r
      → in_group ports workflow group r ≡ true
      → j ≡ create_workflow_run_key identity

  added-AloneIn :
      (group : String) (identity : WorkflowRunIdentity) (s : Records) (next : WorkflowRunRecord)
      → AloneIn group identity s
      → AloneIn group identity (Table.set s (create_workflow_run_key identity) next)
  unfolding AloneIn
  added-AloneIn group identity s next alone j r found here =
      let key = create_workflow_run_key identity in
      elim (Bool-cases (key == j)) [
        | inl own ↦ sym ((eq_iff key j).0 own)
        | inr other ↦ alone j r (sym (Table.get-set_ne s key j next other) ∙ found) here
      ]

  opened-IsAlone :
      (group : String) (input : OpenInput) (s : Records)
      → Inv s
      → AloneIn group input.identity s
      → Table.get s (create_workflow_run_key input.identity) ≡ none
      → IsAlone group input.identity (opened (open_workflow_run s input))
  unfolding IsAlone AloneIn call
  opened-IsAlone group input s v alone missing =
      open_cases s input (λ p. Inv p.0 → IsAlone group input.identity (opened p))
        (λ existing found. absurd (ground (arith, missing, found)))
        (λ _ inv run e.
          let key = create_workflow_run_key input.identity in
          (
            inv,
            Table.get-set_self s key (new_run input) ∙ e,
            added-AloneIn group input.identity s (new_run input) alone,
          ))
        (call-Inv s (opens input) v)

  start_in-IsAlone :
      (group : String) (item : WorkItem) (identity : WorkflowRunIdentity) (p : Records × Bool)
      → (p.1 ≡ true → Inv p.0 × AloneIn group identity p.0)
      → IsAlone group identity (start_in ports workflow item identity p)
  unfolding IsAlone AloneIn find_workflow_run
  start_in-IsAlone group item identity (s, false) clear = λ run e. absurd (cc)
  start_in-IsAlone group item identity (s, true) clear =
      let (v, alone) = clear refl in
      let key = create_workflow_run_key identity in
      elim (Option-cases (Table.get s key)) [
        | inr (existing, found) ↦ rw found (λ run e. (v, found ∙ e, alone))
        | inl missing ↦ rw missing (
            opened-IsAlone group
              (opening ports workflow item (rendered_group ports workflow.concurrency item)
                identity)
              s v alone missing)
      ]

  -- A start leaves the runs that have failed.
  start_in-IsFailed :
      (item : WorkItem) (identity : WorkflowRunIdentity) (p : Records × Bool) (j : String)
      → IsFailed p.0 j
      → IsFailed (start_in ports workflow item identity p).0 j
  unfolding find_workflow_run
  start_in-IsFailed item identity (s, false) j gone = gone
  start_in-IsFailed item identity (s, true) j gone =
      let key = create_workflow_run_key identity in
      let input =
        opening ports workflow item (rendered_group ports workflow.concurrency item) identity in
      elim (Option-cases (Table.get s key)) [
        | inr (existing, found) ↦ rw found gone
        | inl missing ↦ rw missing (
            open_cases s input (λ q. IsFailed (opened q).0 j) (λ existing found. gone)
              (λ _.
                let (final, at, failed) = gone in
                elim (Bool-cases (key == j)) [
                  | inl own ↦
                      let here = subst (λ k. Table.get s k ≡ none) ((eq_iff key j).0 own) missing in
                      absurd (ground (arith, here, at))
                  | inr other ↦ (final, Table.get-set_ne s key j (new_run input) other ∙ at, failed)
                ]))
      ]

  start_in-has_room :
      (item : WorkItem) (identity : WorkflowRunIdentity) (p : Records × Bool)
      (run : WorkflowRunRecord)
      → (start_in ports workflow item identity p).1 ≡ some run
      → p.1 ≡ true
  start_in-has_room item identity (s, true) run e = refl
  start_in-has_room item identity (s, false) run e = absurd (cc)

  All-IsFailed :
      (item : WorkItem) (identity : WorkflowRunIdentity) (p : Records × Bool)
      (runs : List WorkflowRunRecord)
      → All (λ run. IsFailed p.0 (create_workflow_run_key run.identity)) runs
      → All
          (λ run.
            IsFailed
              (start_in ports workflow item identity p).0
              (create_workflow_run_key run.identity))
          runs
  All-IsFailed item identity p runs over =
      All-map runs (λ run gone. start_in-IsFailed item identity p _ gone) over

  All-AloneIn :
      (group : String) (identity : WorkflowRunIdentity) (s : Records)
      → Inv s
      → AloneIn group identity s
      → All
          (λ other. other.id ≡ create_workflow_run_key identity)
          (find_running_in_group s workflow.repository group)
  unfolding AloneIn find_running_in_group
  All-AloneIn group identity s v alone =
      All-map _ (λ r h. h.1 h.0)
        (keep-All (in_group ports workflow group)
          (λ r. in_group ports workflow group r ≡ true → r.id ≡ create_workflow_run_key identity)
          (Table.values s)
          (Table.values-All _ s (
            Table.Entries-map s
              (λ k r i found here.
                (Table.Entries-get IsKeyed s k v.keyed found).own_id ∙ alone k r found here)
              (Table.Entries-found s v.distinct))))

  -- The runs of the group have failed where a start returns a run.
  cleared-All :
      (group : String) (item : WorkItem) (identity : WorkflowRunIdentity) (records : Records)
      (rendered : Option String) (run : WorkflowRunRecord)
      → Inv records
      → truthy (some group) ≡ true
      → rendered ≡ some group
      → (start_in ports workflow item identity
          (clear_group ports workflow rendered identity records)).1
        ≡ some run
      → All
          (λ other.
            IsFailed
              (start_in ports workflow item identity
                (clear_group ports workflow rendered identity records)).0
              (create_workflow_run_key other.identity))
          (live_others ports records workflow rendered identity)
  unfolding Cleared live
  cleared-All group item identity records rendered run v named e =
      subst
        (λ r.
          (start_in ports workflow item identity (clear_group ports workflow r identity records)).1
            ≡ some run
          → All
              (λ other.
                IsFailed
                  (start_in ports workflow item identity
                    (clear_group ports workflow r identity records)).0
                  (create_workflow_run_key other.identity))
              (live_others ports records workflow r identity))
        (sym e)
        (λ started.
          let cleared = clear_group ports workflow (some group) identity records in
          let room = start_in-has_room item identity cleared run started in
          let (fades, over) =
            clear_group-Cleared ports workflow records group identity v named room in
          All-IsFailed item identity cleared _ over)

  cleared-IsAlone :
      (group : String) (item : WorkItem) (identity : WorkflowRunIdentity) (records : Records)
      (rendered : Option String)
      → Inv records
      → truthy (some group) ≡ true
      → rendered ≡ some group
      → IsAlone group identity (
          start_in ports workflow item identity
            (clear_group ports workflow rendered identity records))
  unfolding AloneIn Cleared
  cleared-IsAlone group item identity records rendered v named e =
      let cleared = clear_group ports workflow (some group) identity records in
      subst
        (λ r.
          IsAlone group identity
            (start_in ports workflow item identity (clear_group ports workflow r identity records)))
        (sym e)
        (start_in-IsAlone group item identity cleared λ room.
          let (fades, over) =
            clear_group-Cleared ports workflow records group identity v named room in
          (fades.inv, lonely records cleared.0 group identity v fades over))

-- When StartWorkflow returns a run for an item that is not persisted yet, of a workflow with a
-- concurrency group whose rendered name is not empty, then the ledger holds that run under the key of
-- its identity, no other run of the group in the workflow's repository is running, and each other run
-- of the group that was running before has failed.
pub start_workflow-excludes :
    (ports : StartPorts) (workflow : WorkflowDefinition) (item : WorkItem) (records : Records)
    (concurrency : WorkflowConcurrency) (run : WorkflowRunRecord)
    → Inv records
    → workflow.concurrency ≡ some concurrency
    → truthy (some (ports.render concurrency.group item)) ≡ true
    → (start_workflow ports none workflow item records).1 ≡ some run
    → (find_workflow_run
          (start_workflow ports none workflow item records).0
          (identity_of ports workflow item records)
        ≡ some run)
      × All
          (λ other. other.id ≡ create_workflow_run_key (identity_of ports workflow item records))
          (find_running_in_group
            (start_workflow ports none workflow item records).0
            workflow.repository
            (ports.render concurrency.group item))
      × All
          (λ other.
            IsFailed
              (start_workflow ports none workflow item records).0
              (create_workflow_run_key other.identity))
          (live_others ports records workflow
            (some (ports.render concurrency.group item))
            (identity_of ports workflow item records))
unfolding start_workflow IsAlone AloneIn find_workflow_run find_running_in_group Cleared
start_workflow-excludes ports workflow item records concurrency run v grouped named e =
    let identity = identity_of ports workflow item records in
    let group = ports.render concurrency.group item in
    elim (Bool-cases (ports.has_source workflow.source_id)) [
      | inr sourceless ↦ absurd (ground (arith, rw sourceless at e))
      | inl source ↦
          let result = start_in ports workflow item identity (
            clear_group ports workflow (rendered_group ports workflow.concurrency item) identity
              records) in
          let (inv, held, alone) =
            cleared-IsAlone ports workflow group item identity records _ v named
              (ap (λ c. rendered_group ports c item) grouped) run (rw source at e) in
          let grouped_here = ap (λ c. rendered_group ports c item) grouped in
          let gone =
            cleared-All ports workflow group item identity records _ run v named grouped_here
              (rw source at e) in
          rw source (
            held,
            All-AloneIn ports workflow group identity result.0 inv alone,
            subst
                (λ g.
                  All (λ other. IsFailed result.0 (create_workflow_run_key other.identity))
                    (live_others ports records workflow g identity))
                grouped_here gone,
          )
    ]
