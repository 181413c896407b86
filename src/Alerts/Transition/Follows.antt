-- ===== src/Alerts/Transition/Follows.antt =====
-- What a transition says: the next revision, its episode, its kind, and the states and severities.
use kis_portfolio_mcp.Common.{
  ℕ, ◌+◌, ◌<◌, ◌≡◌, refl, ◌⊎◌, Bool, true, false, not, Option, none, some, ok, bind_ok, ◌&&◌, ltb,
  String, str_eq, str_eq_iff, inl, inr, if◌then◌else◌, if_cases, arith,
}
use mathlib.Core.Path.{subst, sym}
use kis_portfolio_mcp.Alerts.Python.{Runtime}
use kis_portfolio_mcp.Alerts.Candidates.{AlertCandidate}
use kis_portfolio_mcp.Alerts.Transition.{
  CurrentAlertState, TransitionType, entered, reentered, recovered, escalated, deescalated, updated,
  initial_normal, AlertTransition, rank, first, still_active, Step, step, decide_alert_transition,
}
use kis_portfolio_mcp.Alerts.Transition.Laws.{
  IsCoherent, IsCoherent?, recorded, StateKnown, first-IsCoherent, step-IsCoherent, decide-step,
  decide-first, prior_revision, prior_episode,
}

-- An alert is active before the evaluation, and after it.
abbrev pub was_active : Option CurrentAlertState → Bool
was_active none = false
was_active (some s) = str_eq s.current_state "active"

abbrev pub is_active : AlertCandidate → Bool
is_active c = str_eq c.evaluation.signal_state "active"

-- An episode starts: an alert becomes active that was not.
abbrev pub starts : AlertCandidate → Option CurrentAlertState → ℕ
starts c current = if not (was_active current) && is_active c then 1 else 0

-- The ranks of the severity before and of the severity now.
abbrev pub IsRanked : AlertCandidate → Option CurrentAlertState → ℕ → ℕ → Type 0
IsRanked c none old new = ⊥
IsRanked c (some s) old new =
    (rank s.current_severity ≡ ok old) × (rank c.evaluation.severity ≡ ok new)

-- The kind of a transition, told by the two states, the episodes so far and the two severities.
abbrev pub IsKind : AlertCandidate → Option CurrentAlertState → TransitionType → Type 0
IsKind c current entered =
    (was_active current ≡ false) × (is_active c ≡ true) × (prior_episode current ≡ 0)
IsKind c current reentered =
    (was_active current ≡ false) × (is_active c ≡ true) × (0 < prior_episode current)
IsKind c current recovered = (was_active current ≡ true) × (is_active c ≡ false)
IsKind c current escalated =
    (was_active current ≡ true)
    × (is_active c ≡ true)
    × ((old : ℕ) × (new : ℕ) × IsRanked c current old new × (old < new))
IsKind c current deescalated =
    (was_active current ≡ true)
    × (is_active c ≡ true)
    × ((old : ℕ) × (new : ℕ) × IsRanked c current old new × (new < old))
IsKind c current updated =
    (was_active current ≡ true)
    × (is_active c ≡ true)
    × ((old : ℕ) × (new : ℕ) × IsRanked c current old new × (old ≡ new))
IsKind c current initial_normal = (was_active current ≡ false) × (is_active c ≡ false)

abbrev pub prior_state_of : Option CurrentAlertState → Option String
prior_state_of none = none
prior_state_of (some s) = some s.current_state

abbrev pub prior_severity_of : Option CurrentAlertState → Option String
prior_severity_of none = none
prior_severity_of (some s) = some s.current_severity

-- A transition from the state before an evaluation to the state after it.
pub record Follows (c : AlertCandidate) (current : Option CurrentAlertState) (t : AlertTransition)
    : Type 0 where
  pub next : t.revision ≡ prior_revision current + 1
  pub counted : t.episode ≡ prior_episode current + starts c current
  pub of_kind : IsKind c current t.transition_type
  pub from_state : t.prior_state ≡ prior_state_of current
  pub to_state : t.current_state ≡ c.evaluation.signal_state
  pub from_severity : t.prior_severity ≡ prior_severity_of current
  pub to_severity : t.current_severity ≡ c.evaluation.severity
  pub coherent : IsCoherent (recorded c t)

first-Follows :
    (py : Runtime) (c : AlertCandidate) (floor : ℕ) {t : AlertTransition}
    → StateKnown c
    → first py c floor ≡ ok t
    → Follows c none t
unfolding first
first-Follows py c floor {t} known h =
    let facts : (t.revision ≡ 1)
        × (t.episode ≡ 0 + starts c none)
        × (t.transition_type ≡ (if is_active c then entered else initial_normal))
        × (t.prior_state ≡ none)
        × (t.current_state ≡ c.evaluation.signal_state)
        × (t.prior_severity ≡ none)
        × (t.current_severity ≡ c.evaluation.severity) =
      ground arith in
    record {
      next = facts.0;
      counted = facts.1;
      of_kind = subst (IsKind c none) (sym facts.2) (
          if_cases (IsKind c none) (is_active c) entered initial_normal (λ e. (refl, e, refl))
            (λ e. (refl, e)));
      from_state = facts.3;
      to_state = facts.4;
      from_severity = facts.5;
      to_severity = facts.6;
      coherent = first-IsCoherent py c floor known h;
    }

still_active-IsKind :
    (c : AlertCandidate) (s : CurrentAlertState) (floor : ℕ) {t : Step}
    → str_eq s.current_state "active" ≡ true
    → is_active c ≡ true
    → still_active c s floor ≡ ok t
    → IsKind c (some s) t.kind × (t.to_episode ≡ s.episode)
unfolding still_active
still_active-IsKind c s floor {t} was now h =
    let (old, p, h1) = bind_ok (rank s.current_severity) _ h in
    let (new, q, h2) = bind_ok (rank c.evaluation.severity) _ h1 in
    let kind : t.kind
        ≡ (if ltb old new then escalated else if ltb new old then deescalated else updated) =
      ground arith in
    (
      subst (IsKind c (some s)) (sym kind) (
          if_cases (IsKind c (some s)) (ltb old new) _ _
            (λ e. (was, now, (old, new, (p, q), ground arith)))
            (λ e.
              if_cases (IsKind c (some s)) (ltb new old) _ _
                (λ f. (was, now, (old, new, (p, q), ground arith)))
                (λ f. (was, now, (old, new, (p, q), ground arith))))),
      ground arith,
    )

active_ne_normal : str_eq "active" "normal" ≡ false
unfolding str_eq
active_ne_normal = refl

normal_ne_active : str_eq "normal" "active" ≡ false
unfolding str_eq
normal_ne_active = refl

-- The states are told apart.
abbrev pub InState : String → Bool → Type 0
InState state active = (str_eq state "active" ≡ active) × (str_eq state "normal" ≡ not active)

pub in_state :
    (state : String)
    → (str_eq state "active" ≡ true) ⊎ (str_eq state "normal" ≡ true)
    → InState state true ⊎ InState state false
in_state state (inl e) = inl (
  e,
  subst (λ x. str_eq x "normal" ≡ false) (sym ((str_eq_iff state "active").0 e)) active_ne_normal,
)
in_state state (inr e) = inr (
  subst (λ x. str_eq x "active" ≡ false) (sym ((str_eq_iff state "normal").0 e)) normal_ne_active,
  e,
)

step-enters :
    (c : AlertCandidate) (s : CurrentAlertState) (floor : ℕ) {t : Step}
    → InState s.current_state false
    → InState c.evaluation.signal_state true
    → step c s floor ≡ ok t
    → (t.kind ≡ (if ltb 0 s.episode then reentered else entered)) × (t.to_episode ≡ s.episode + 1)
unfolding step
step-enters c s floor (a, b) (d, g) e = ground arith

step-recovers :
    (c : AlertCandidate) (s : CurrentAlertState) (floor : ℕ) {t : Step}
    → InState s.current_state true
    → InState c.evaluation.signal_state false
    → step c s floor ≡ ok t
    → (t.kind ≡ recovered) × (t.to_episode ≡ s.episode)
unfolding step
step-recovers c s floor (a, b) (d, g) e = ground arith

step-rests :
    (c : AlertCandidate) (s : CurrentAlertState) (floor : ℕ) {t : Step}
    → InState s.current_state false
    → InState c.evaluation.signal_state false
    → step c s floor ≡ ok t
    → (t.kind ≡ initial_normal) × (t.to_episode ≡ s.episode)
unfolding step
step-rests c s floor (a, b) (d, g) e = ground arith

pub step-stays :
    (c : AlertCandidate) (s : CurrentAlertState) (floor : ℕ) {t : Step}
    → InState s.current_state true
    → InState c.evaluation.signal_state true
    → step c s floor ≡ ok t
    → still_active c s floor ≡ ok t
unfolding step
step-stays c s floor (a, b) (d, g) e = ground arith

step-IsKind :
    (c : AlertCandidate) (s : CurrentAlertState) (floor : ℕ) {t : Step}
    → StateKnown c
    → IsCoherent s
    → step c s floor ≡ ok t
    → IsKind c (some s) t.kind × (t.to_episode ≡ s.episode + starts c (some s))
step-IsKind c s floor {t} known h e = elim (in_state s.current_state h.state_known) [
  | inl was ↦ elim (in_state c.evaluation.signal_state known) [
    | inl now ↦
        let (kind, kept) =
          still_active-IsKind c s floor was.0 now.0 (step-stays c s floor was now e) in
        (kind, ground arith)
    | inr now ↦
        let (kind, kept) = step-recovers c s floor was now e in
        (subst (IsKind c (some s)) (sym kind) (was.0, now.0), ground arith)
  ]
  | inr was ↦ elim (in_state c.evaluation.signal_state known) [
    | inl now ↦
        let (kind, up) = step-enters c s floor was now e in
        (
          subst (IsKind c (some s)) (sym kind) (
              if_cases (IsKind c (some s)) (ltb 0 s.episode) reentered entered
                (λ f. (was.0, now.0, ground arith)) (λ f. (was.0, now.0, ground arith))),
          ground arith,
        )
    | inr now ↦
        let (kind, kept) = step-rests c s floor was now e in
        (subst (IsKind c (some s)) (sym kind) (was.0, now.0), ground arith)
  ]
]

-- Each transition is the next revision of its alert and names the states and severities before and after
-- it. It opens an episode exactly if an alert becomes active that was not, its kind is told by the two
-- states, the episodes so far and the two severities, and it leaves a coherent state: no more episodes
-- than revisions, and active only inside an episode. This holds for the first evaluation and for every
-- later one, from a coherent state.
pub decide_alert_transition-IsCoherent :
    (py : Runtime) (c : AlertCandidate) (current : Option CurrentAlertState) {t : AlertTransition}
    → StateKnown c
    → IsCoherent? current
    → decide_alert_transition py c current ≡ ok (some t)
    → Follows c current t
decide_alert_transition-IsCoherent py c none known h e =
    let (floor, _, f) = decide-first py c e in first-Follows py c floor known f
decide_alert_transition-IsCoherent py c (some s) {t} known h e =
    let (floor, u, _, f, same) = decide-step py c s e in
    let (kind, counted) = step-IsKind c s floor known h f in
    subst (Follows c (some s)) (sym same) (record {
      next = refl;
      counted = counted;
      of_kind = kind;
      from_state = refl;
      to_state = refl;
      from_severity = refl;
      to_severity = refl;
      coherent = step-IsCoherent c s floor known h f;
    })
