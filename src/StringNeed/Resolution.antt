-- ===== src/StringNeed/Resolution.antt =====
-- resolveStringWorkflowNeed in src/workflows/needs.ts.
use linear_pi_orchestrator.Prelude.{
  ◌≤◌, String, true, false, Option, none, some, List, [], ◌∷◌, ◌≡◌, ◌≢◌, refl, sym, ap, subst, ◌∙◌,
  ◌↔◌, ◌⊎◌, inl, inr, arith, All, includes, ltb, ◌==◌, eq_iff, Bool-cases, Option-cases,
}
use linear_pi_orchestrator.Prelude.Texts.{
  text_length, strip_prefix, append, strip_prefix-append, strip_prefix_inv,
}
use linear_pi_orchestrator.Domain.{NeedStatus, WorkflowNeed}
use linear_pi_orchestrator.StringNeed.{
  ok, suffix_after, longer, longest_target, need_status, with_target, with_status,
  resolve_string_workflow_need,
}

suffix_after_iff :
    (id need s : String) → (suffix_after id need ≡ some s) ↔ (need ≡ append id (append "." s))
unfolding suffix_after
suffix_after_iff id need s = (
  λ h. elim (Option-cases (strip_prefix id need)) [
    | inl e ↦ let none≡some = rw e at h in cc
    | inr (rest, e) ↦
        let dotted = rw e at h in
        strip_prefix_inv id need rest e ∙ ap (append id) (strip_prefix_inv "." rest s dotted)
  ],
  λ e. rw (e, strip_prefix-append id (append "." s)) (strip_prefix-append "." s),
)

append_inj :
    (a b x y : String) → append a x ≡ append b y → text_length a ≡ text_length b → (a ≡ b) × (x ≡ y)
unfolding append
append_inj String.[] String.[] x y e l = (refl, e)
append_inj String.[] (String.◌∷◌ d b) x y e l = cc
append_inj (String.◌∷◌ c a) String.[] x y e l = cc
append_inj (String.◌∷◌ c a) (String.◌∷◌ d b) x y e l =
    let (p, q) = append_inj a b x y (cc) (omega arith) in (cc, q)

-- An id that the need extends, with what follows the dot.
abbrev Extends : String → String → String → Type 0
Extends need id s = suffix_after id need ≡ some s

-- What is found is at least as long as what was found before.
abbrev AsLong : Option (String × String) → String → Type 0
AsLong none t = Unit
AsLong (some b) t = text_length b.0 ≤ text_length t

-- What the search has found after `ids`, from `best` on.
abbrev Found : String → Option (String × String) → List String → Option (String × String) → Type 0
Found need best ids none = (best ≡ none) × All (λ id. suffix_after id need ≡ none) ids
Found need best ids (some (t, s)) =
    ((best ≡ some (t, s)) ⊎ (includes ids t ≡ true) × Extends need t s)
    × AsLong best t
    × All (λ id. (suffix_after id need ≡ none) ⊎ (text_length id ≤ text_length t)) ids

Found-skip :
    (need id : String) (best r : Option (String × String)) (ids : List String)
    → suffix_after id need ≡ none
    → Found need best ids r
    → Found need best (id ∷ ids) r
Found-skip need id best none ids e f = (f.0, (e, f.1))
Found-skip need id best (some (t, s)) ids e f = ground (arith, eq_iff id t)

Found-longer :
    (need id suffix : String) (best r : Option (String × String)) (ids : List String)
    → Extends need id suffix
    → Found need (some (longer best id suffix)) ids r
    → Found need best (id ∷ ids) r
Found-longer need id suffix best none ids e f = cc
Found-longer need id suffix none (some (t, s)) ids e f = ground (arith, eq_iff id t)
Found-longer need id suffix (some b) (some (t, s)) ids e f =
    elim (Bool-cases (ltb (text_length b.0) (text_length id))) [
      | inl l ↦ let f' = rw l at f in ground (arith, eq_iff id t)
      | inr l ↦ let f' = rw l at f in ground (arith, eq_iff id t)
    ]

longest_target-Found :
    (need : String) (best : Option (String × String)) (ids : List String)
    → Found need best ids (longest_target need best ids)
unfolding longest_target
longest_target-Found need none [] = (refl, tt)
longest_target-Found need (some b) [] = (inl refl, omega arith, tt)
longest_target-Found need best (id ∷ ids) = elim (Option-cases (suffix_after id need)) [
  | inl e ↦ rw e (Found-skip need id best _ ids e (longest_target-Found need best ids))
  | inr (s, e) ↦ rw e (
      Found-longer need id s best _ ids e (longest_target-Found need (some (longer best id s)) ids))
]

All-includes :
    (P : String → Type 0) (ids : List String) (t : String) → All P ids → includes ids t ≡ true → P t
All-includes P [] t h m = cc
All-includes P (id ∷ ids) t h m = elim (Bool-cases (id == t)) [
  | inl b ↦ subst P ((eq_iff id t).0 b) h.0
  | inr b ↦ All-includes P ids t h.1 (rw b at m)
]

-- A known id, and no known id that the need extends is longer.
abbrev IsTarget : String → List String → String → String → Type 0
IsTarget need ids t s =
    (includes ids t ≡ true)
    × Extends need t s
    × All (λ id. (suffix_after id need ≡ none) ⊎ (text_length id ≤ text_length t)) ids

-- Two targets of one need are the same.
target_unique :
    (need : String) (ids : List String) (t s t' s' : String)
    → IsTarget need ids t s
    → IsTarget need ids t' s'
    → (t ≡ t') × (s ≡ s')
target_unique need ids t s t' s' h h' =
    let le = All-includes _ ids t h'.2 h.0 in
    let le' = All-includes _ ids t' h.2 h'.0 in
    let e = (suffix_after_iff t need s).0 h.1 in
    let e' = (suffix_after_iff t' need s').0 h'.1 in
    let (p, q) = append_inj t t' (append "." s) (append "." s') (sym e ∙ e') (ground arith) in
    let (_, suffixes) = append_inj "." "." s s' q refl in (p, suffixes)

longest_target_iff :
    (need : String) (ids : List String) (t s : String)
    → (longest_target need none ids ≡ some (t, s)) ↔ IsTarget need ids t s
longest_target_iff need ids t s = (
  λ e.
      let f = subst (Found need none ids) e (longest_target-Found need none ids) in
      ground (arith, f),
  λ h. elim (Option-cases (longest_target need none ids)) [
    | inl e ↦
        let f = subst (Found need none ids) e (longest_target-Found need none ids) in
        let never = All-includes _ ids t f.1 h.0 in cc (never, h.1)
    | inr (r, e) ↦
        let f = subst (Found need none ids) e (longest_target-Found need none ids) in
        let found : IsTarget need ids r.0 r.1 = ground (arith, f) in
        let (p, q) = target_unique need ids r.0 r.1 t s found h in cc (e, p, q)
  ],
)

-- `need` is the id of a known job, a dot, and the name of a status, and no longer known id can be
-- read off it.
abbrev pub IsShorthand : String → List String → WorkflowNeed → Type 0
IsShorthand need ids w =
    (s : String) × (st : NeedStatus) × (includes ids w.job ≡ true)
    × (w.job ≢ "")
    × (need ≡ append w.job (append "." s))
    × (need_status s ≡ some st)
    × (w.status ≡ some st)
    × All (λ id. (suffix_after id need ≡ none) ⊎ (text_length id ≤ text_length w.job)) ids

-- What resolves once the search has ended with `o`.
Resolves : Option (String × String) → WorkflowNeed → Type 0
Resolves o w =
    (s : String) × (st : NeedStatus) × (o ≡ some (w.job, s))
    × (w.job ≢ "")
    × (need_status s ≡ some st)
    × (w.status ≡ some st)

with_status-ok :
    (t s : String) (w : WorkflowNeed) (o : Option NeedStatus)
    → t ≢ ""
    → need_status s ≡ o
    → with_status t s o ≡ ok w
    → Resolves (some (t, s)) w
unfolding Resolves
with_status-ok t s w none ne q h = cc
with_status-ok t s w (some st) ne q h =
    let job : w.job ≡ t = cc in (s, st, cc, (λ e. ne (sym job ∙ e)), q, cc)

with_target-ok :
    (need : String) (o : Option (String × String)) (w : WorkflowNeed)
    → with_target need o ≡ ok w
    → Resolves o w
with_target-ok need none w h = cc
with_target-ok need (some (t, s)) w h = elim (Bool-cases (t == "")) [
  | inl b ↦ let h' = rw b at h in cc
  | inr b ↦
      with_status-ok t s w (need_status s) (λ e. absurd (ground (arith, eq_iff t ""))) refl
        (rw b at h)
]

with_target-Resolves :
    (need : String) (o : Option (String × String)) (w : WorkflowNeed)
    → Resolves o w
    → with_target need o ≡ ok w
unfolding Resolves
with_target-Resolves need o w (s, st, found, ne, q, w') =
    let named : (w.job == "") ≡ false = ground (arith, eq_iff w.job "") in rw (found, named, q) (cc)

-- A dependency that is not itself a known id resolves to `w` exactly when it is a shorthand for it:
-- a known job's id that is not empty, the longest that the text goes on from by a dot, and after the
-- dot a status name, which is the status of `w`.
pub resolve_string_workflow_need_iff :
    (need : String) (ids : List String) (w : WorkflowNeed)
    → includes ids need ≡ false
    → (resolve_string_workflow_need need ids ≡ ok w) ↔ IsShorthand need ids w
unfolding resolve_string_workflow_need Resolves
resolve_string_workflow_need_iff need ids w other = (
  λ h.
      let (s, st, found, ne, q, w') = with_target-ok need _ w (rw other at h) in
      let (k, e, l) = (longest_target_iff need ids w.job s).0 found in
      (s, st, k, ne, (suffix_after_iff w.job need s).0 e, q, w', l),
  λ (s, st, k, ne, n, q, w', l).
      let found =
        (longest_target_iff need ids w.job s).1 (k, (suffix_after_iff w.job need s).1 n, l) in
      rw other (with_target-Resolves need _ w (s, st, found, ne, q, w')),
)
