-- ===== src/StringNeed.antt =====
-- src/workflows/needs.ts: the shorthand `job.Status` of a dependency.
pub mod Resolution
use Prim.Native.Char.{code}
use linear_pi_orchestrator.Prelude.{
  ℕ, ◌+◌, String, Bool, true, false, ◌&&◌, Option, none, some, List, [], ◌∷◌, ltb, leb, nat_eq,
  ◌==◌, if◌then◌else◌, includes,
}
use linear_pi_orchestrator.Prelude.Texts.{text_length, strip_prefix}
use linear_pi_orchestrator.Domain.{NeedStatus, WorkflowNeed}

pub data StringWorkflowNeedResolution : Type 0 where
  ok : WorkflowNeed → StringWorkflowNeedResolution
  unknown_job : String → StringWorkflowNeedResolution
  unknown_status : String → String → StringWorkflowNeedResolution

-- `toLowerCase` on one character, as far as the result is an ASCII letter (U+212A is the Kelvin
-- sign, whose lower case is `k`).
abbrev lower_code : ℕ → ℕ
lower_code c = if leb b'A' c && leb c b'Z' then c + 32 else if nat_eq c 0x212a then b'k' else c

-- `s.toLowerCase() === t`
unfoldable pub lowered_is : String → String → Bool
lowered_is String.[] String.[] = true
lowered_is (String.◌∷◌ c s) (String.◌∷◌ d t) =
    nat_eq (lower_code (code c)) (code d) && lowered_is s t
lowered_is _ _ = false

-- The status that a text names, in any mixture of cases.
unfoldable pub need_status : String → Option NeedStatus
unfolding lowered_is
need_status s =
    if lowered_is s "started"
    then some NeedStatus.started
    else if lowered_is s "succeeded"
    then some NeedStatus.succeeded
    else if lowered_is s "failed"
    then some NeedStatus.failed
    else if lowered_is s "skipped"
    then some NeedStatus.skipped
    else none

abbrev dot_suffix : Option String → Option String
dot_suffix none = none
dot_suffix (some rest) = strip_prefix "." rest

-- `need.slice(id.length + 1)` where `need.startsWith(id + ".")`.
unfoldable pub suffix_after : String → String → Option String
unfolding strip_prefix
suffix_after id need = dot_suffix (strip_prefix id need)

abbrev longer : Option (String × String) → String → String → String × String
longer none id suffix = (id, suffix)
longer (some (best, s)) id suffix =
    if ltb (text_length best) (text_length id) then (id, suffix) else (best, s)

abbrev next_best : Option (String × String) → String → Option String → Option (String × String)
next_best best id none = best
next_best best id (some suffix) = some (longer best id suffix)

-- The first of the longest ids that `need` extends by a dot, with the suffix. All are prefixes of
-- `need`, so counting characters orders them as counting code units does.
unfoldable pub longest_target :
    String → Option (String × String) → List String → Option (String × String)
unfolding suffix_after
longest_target need best [] = best
longest_target need best (id ∷ ids) =
    longest_target need (next_best best id (suffix_after id need)) ids

-- need.split(".", 1)[0]
unfoldable pub first_component : String → String
first_component String.[] = String.[]
first_component (String.◌∷◌ c s) =
    let rest = first_component s in if nat_eq (code c) b'.' then String.[] else String.◌∷◌ c rest

abbrev pub with_status : String → String → Option NeedStatus → StringWorkflowNeedResolution
with_status target suffix none = unknown_status target suffix
with_status target suffix (some s) = ok (record { job = target; status = some s })

-- No target, and the empty one, are an unknown job.
abbrev pub with_target : String → Option (String × String) → StringWorkflowNeedResolution
with_target need none = unknown_job (first_component need)
with_target need (some (target, suffix)) =
    if target == ""
    then unknown_job (first_component need)
    else with_status target suffix (need_status suffix)

unfoldable pub resolve_string_workflow_need : String → List String → StringWorkflowNeedResolution
unfolding need_status longest_target first_component
resolve_string_workflow_need need ids =
    if includes ids need
    then ok (record { job = need; status = none })
    else with_target need (longest_target need none ids)
