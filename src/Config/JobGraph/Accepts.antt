-- ===== src/Config/JobGraph/Accepts.antt =====
-- validateJobGraph in src/config/v2.ts accepts the jobs whose needs can be met in some order.
use linear_pi_orchestrator.Prelude.{
  ℕ, suc, ◌+◌, String, Bool, true, false, Option, none, some, List, [], ◌∷◌, ◌==◌, ◌≡◌, refl, sym,
  ap, subst, arith, get_or_else, includes, keep, length, is_empty, All, Bool-cases, Option-cases,
  inl, inr, ◌↔◌, append-nil_iff, map-nil_iff,
}
use linear_pi_orchestrator.Prelude.Table
use linear_pi_orchestrator.Prelude.Table.{Table}
use linear_pi_orchestrator.StringNeed.{
  StringWorkflowNeedResolution, ok, unknown_job, unknown_status, resolve_string_workflow_need,
}
use linear_pi_orchestrator.Cycles.{cycles_of}
use linear_pi_orchestrator.Cycles.Walks.{Acyclic}
use linear_pi_orchestrator.Cycles.Fuel.{find_cycles_returns}
use linear_pi_orchestrator.Cycles.Sound.{find_cycles-Acyclic}
use linear_pi_orchestrator.Config.{RelayNeed, RelayWorkflowJob, needs_list}
use linear_pi_orchestrator.Config.JobGraph.{
  Jobs, PathPart, need_target, resolved_job, resolved_jobs, edges_of, next_jobs, dependency_cycles,
  target_issues, resolution_issues, need_issues, needs_issues, jobs_issues, cycle_issue,
  empty_issues, validate_job_graph,
}

-- The need resolves to another job that is declared.
abbrev pub NeedsOther : List String → String → RelayNeed → Type 0
NeedsOther names name need =
    (target : String) × (need_target names need ≡ some target)
    × ((target == name) ≡ false)
    × (includes names target ≡ true)

abbrev pub jobs_needed : List String → Option RelayWorkflowJob → List String
jobs_needed names none = []
jobs_needed names (some job) = resolved_jobs names (needs_list job.needs)

-- The jobs that a job needs.
abbrev pub needed_by : Jobs → String → List String
needed_by jobs name = jobs_needed (Table.keys jobs) (Table.get jobs name)

pub record IsJobGraph (jobs : Jobs) : Type 0 where
  pub some_job : is_empty jobs ≡ false
  pub needs :
      Table.Entries
        (λ name job. All (NeedsOther (Table.keys jobs) name) (needs_list job.needs))
        jobs
  pub acyclic : Acyclic (needed_by jobs)

target_issues_iff :
    (path : List PathPart) (names : List String) (name target : String)
    → (target_issues path names name target ≡ [])
      ↔ (((target == name) ≡ false) × (includes names target ≡ true))
target_issues_iff path names name target = (λ e. ground arith, λ h. ground arith)

resolution_issues_iff :
    (path : List PathPart) (names : List String) (name text : String)
    (resolution : StringWorkflowNeedResolution)
    → (resolution_issues path names name text resolution ≡ []) ↔ (
        (target : String) × (resolved_job resolution ≡ some target)
        × ((target == name) ≡ false)
        × (includes names target ≡ true))
resolution_issues_iff path names name text (ok need) = (
  λ e.
      let (apart, known) = (target_issues_iff path names name need.job).0 e in
      (need.job, refl, apart, known),
  λ (target, same, apart, known).
      (target_issues_iff path names name need.job).1
        (ground (arith, same, apart), ground (arith, same, known)),
)
resolution_issues_iff path names name text (unknown_job job) =
    (λ e. cc, λ (target, same, apart, known). cc)
resolution_issues_iff path names name text (unknown_status job status) =
    (λ e. cc, λ (target, same, apart, known). cc)

need_issues_iff :
    (path : List PathPart) (names : List String) (name : String) (need : RelayNeed)
    → (need_issues path names name need ≡ []) ↔ NeedsOther names name need
unfolding need_issues need_target
need_issues_iff path names name (RelayNeed.text need) =
    resolution_issues_iff path names name need (resolve_string_workflow_need need names)
need_issues_iff path names name (RelayNeed.object job status) = (
  λ e.
      let (apart, known) = (target_issues_iff path names name job).0 e in (job, refl, apart, known),
  λ (target, same, apart, known).
      (target_issues_iff path names name job).1
        (ground (arith, same, apart), ground (arith, same, known)),
)

needs_issues_iff :
    (path : List PathPart) (names : List String) (name : String) (index : ℕ)
    (needs : List RelayNeed)
    → (needs_issues path names name index needs ≡ []) ↔ All (NeedsOther names name) needs
unfolding needs_issues
needs_issues_iff path names name index [] = (λ e. tt, λ h. refl)
needs_issues_iff path names name index (need ∷ needs) = (
  λ e.
      let (own, rest) = (append-nil_iff _ _).0 e in
      (
        (need_issues_iff _ names name need).0 own,
        (needs_issues_iff path names name (suc index) needs).0 rest,
      ),
  λ h. (append-nil_iff _ _).1 (
    (need_issues_iff _ names name need).1 h.0,
    (needs_issues_iff path names name (suc index) needs).1 h.1,
  ),
)

jobs_issues_iff :
    (path : List PathPart) (names : List String) (jobs : Jobs)
    → (jobs_issues path names jobs ≡ [])
      ↔ Table.Entries (λ name job. All (NeedsOther names name) (needs_list job.needs)) jobs
unfolding jobs_issues
jobs_issues_iff path names [] = (λ e. tt, λ h. refl)
jobs_issues_iff path names ((name, job) ∷ jobs) = (
  λ e.
      let (own, rest) = (append-nil_iff _ _).0 e in
      (
        (needs_issues_iff path names name 0 (needs_list job.needs)).0 own,
        (jobs_issues_iff path names jobs).0 rest,
      ),
  λ h. (append-nil_iff _ _).1 (
    (needs_issues_iff path names name 0 (needs_list job.needs)).1 h.0,
    (jobs_issues_iff path names jobs).1 h.1,
  ),
)

keys-edges_of :
    (names : List String) (jobs : Jobs) → Table.keys (edges_of names jobs) ≡ Table.keys jobs
keys-edges_of names [] = refl
keys-edges_of names ((name, job) ∷ jobs) = ap (λ ks. name ∷ ks) (keys-edges_of names jobs)

keep-All : (p : String → Bool) (xs : List String) → All (λ x. p x ≡ true) xs → keep p xs ≡ xs
keep-All p [] h = refl
keep-All p (x ∷ xs) h = rw (h.0, keep-All p xs h.1)

resolved_known :
    (names : List String) (name : String) (needs : List RelayNeed)
    → All (NeedsOther names name) needs
    → All (λ t. includes names t ≡ true) (resolved_jobs names needs)
resolved_known names name [] h = tt
resolved_known names name (need ∷ needs) h =
    let ((target, e, _, known), rest) = h in rw e (known, resolved_known names name needs rest)

get-edges_of :
    (names : List String) (jobs : Jobs) (name : String)
    → get_or_else (Table.get (edges_of names jobs) name) []
      ≡ jobs_needed names (Table.get jobs name)
unfolding Table.get
get-edges_of names [] name = refl
get-edges_of names ((other, job) ∷ jobs) name = elim (Bool-cases (other == name)) [
  | inl e ↦ rw e
  | inr e ↦ rw e (get-edges_of names jobs name)
]

jobs_needed-known :
    (jobs : Jobs) (name : String) (names : List String)
    → Table.Entries (λ n job. All (NeedsOther names n) (needs_list job.needs)) jobs
    → All (λ t. includes names t ≡ true) (jobs_needed names (Table.get jobs name))
jobs_needed-known jobs name names h = elim (Option-cases (Table.get jobs name)) [
  | inl absent ↦ rw absent tt
  | inr (job, found) ↦ rw found (
      resolved_known names name (needs_list job.needs) (
        Table.Entries-get (λ n job. All (NeedsOther names n) (needs_list job.needs)) jobs name h
          found))
]

empty_issues_iff :
    (path : List PathPart) (jobs : Jobs) → (empty_issues path jobs ≡ []) ↔ (is_empty jobs ≡ false)
empty_issues_iff path [] = (λ e. cc, λ e. cc)
empty_issues_iff path (job ∷ jobs) = (λ e. refl, λ e. refl)

module _ (jobs : Jobs) where
  abbrev edges : Table (List String)
  edges = edges_of (Table.keys jobs) jobs

  -- Where each need is met by a declared job, the walk follows the needs.
  next_jobs-needed_by :
      (name : String)
      → Table.Entries (λ n job. All (NeedsOther (Table.keys jobs) n) (needs_list job.needs)) jobs
      → next_jobs edges name ≡ needed_by jobs name
  next_jobs-needed_by name h =
      rw (keys-edges_of (Table.keys jobs) jobs, get-edges_of (Table.keys jobs) jobs name)
        (keep-All (λ next. includes (Table.keys jobs) next) _
          (jobs_needed-known jobs name (Table.keys jobs) h))

  next_jobs-keys :
      (name t : String)
      → includes (next_jobs edges name) t ≡ true
      → includes (Table.keys edges) name ≡ true
  next_jobs-keys name t i = elim (Bool-cases (includes (Table.keys edges) name)) [
    | inl known ↦ known
    | inr other ↦ let absent = rw (Table.get-none_of_not-includes edges name other) at i in cc
  ]

  cycles_iff :
      Table.Entries (λ n job. All (NeedsOther (Table.keys jobs) n) (needs_list job.needs)) jobs
      → (dependency_cycles jobs ≡ []) ↔ Acyclic (needed_by jobs)
  unfolding dependency_cycles
  cycles_iff h =
      let followed : next_jobs edges ≡ needed_by jobs = λ i name. next_jobs-needed_by name h i in
      let (s, ends) =
        find_cycles_returns (next_jobs edges) (Table.keys edges) next_jobs-keys (length edges + 2)
          (Table.keys edges) (omega (arith, Table.length-keys edges)) in
      let found =
        find_cycles-Acyclic (next_jobs edges) (Table.keys edges) next_jobs-keys (length edges + 2) s
          ends in
      (
        λ e. subst Acyclic followed (found.0 (subst (λ o. cycles_of o ≡ []) ends e)),
        λ a. subst (λ o. cycles_of o ≡ []) (sym ends) (found.1 (subst Acyclic (sym followed) a)),
      )

  -- The checks of a workflow's jobs find no issue exactly if there is a job, every need resolves to
  -- another declared job, and the needs of the jobs form no cycle.
  pub validate_job_graph_iff :
      (path : List PathPart) → (validate_job_graph jobs path ≡ []) ↔ IsJobGraph jobs
  unfolding validate_job_graph
  validate_job_graph_iff path = (
    λ e.
        let (some_job, e1) = (append-nil_iff _ _).0 e in
        let (needs, cycles) = (append-nil_iff _ _).0 e1 in
        let met = (jobs_issues_iff path (Table.keys jobs) jobs).0 needs in
        record {
          some_job = (empty_issues_iff path jobs).0 some_job;
          needs = met;
          acyclic =
              (cycles_iff met).0
                ((map-nil_iff (cycle_issue path) (dependency_cycles jobs)).0 cycles);
        },
    λ g. (append-nil_iff _ _).1 (
      (empty_issues_iff path jobs).1 g.some_job,
      (append-nil_iff _ _).1 (
        (jobs_issues_iff path (Table.keys jobs) jobs).1 g.needs,
        (map-nil_iff (cycle_issue path) (dependency_cycles jobs)).1
            ((cycles_iff g.needs).1 g.acyclic),
      ),
    ),
  )
