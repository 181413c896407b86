-- ===== src/Alerts/Transition/Delivery.antt =====
-- When `decide_alert_transition` asks for a delivery.
use kis_portfolio_mcp.Common.{
  ℕ, ◌≡◌, ◌⊎◌, Bool, true, false, not, Option, none, some, ok, ◌&&◌, leb, String, str_eq, inl, inr,
  if◌then◌else◌, arith,
}
use mathlib.Core.Path.{ap, ◌∙◌}
use kis_portfolio_mcp.Alerts.Python.{Runtime}
use kis_portfolio_mcp.Alerts.Candidates.{AlertCandidate}
use kis_portfolio_mcp.Alerts.Transition.{
  CurrentAlertState, AlertTransition, rank, first, still_active, Step, step,
  decide_alert_transition,
}
use kis_portfolio_mcp.Alerts.Transition.Laws.{IsCoherent?, StateKnown, decide-step, decide-first}
use kis_portfolio_mcp.Alerts.Transition.Follows.{was_active, is_active, InState, in_state}
use kis_portfolio_mcp.Alerts.Candidates.{severity_rank}
use kis_portfolio_mcp.Alerts.Transition.{initial_policy}

-- The severity has a rank, and it is not below the floor.
abbrev pub reaches_floor : ℕ → String → Bool
reaches_floor floor severity = elim (severity_rank severity) [ none ↦ false | some r ↦ leb floor r ]

-- The severity has not fallen.
abbrev pub is_not_lower : String → String → Bool
is_not_lower old new = elim (severity_rank old) [
  | none ↦ false
  | some m ↦ elim (severity_rank new) [ none ↦ false | some n ↦ leb m n ]
]

-- A delivery is due: on the first evaluation if the alert is active and its rule delivers active
-- baselines, later if it becomes active, recovers, or stays active at no lower severity, each time if
-- the severity that is shown reaches the floor.
abbrev pub is_due : Runtime → AlertCandidate → Option CurrentAlertState → ℕ → Bool
is_due py c none floor =
    is_active c
    && str_eq (initial_policy py c) "deliver"
    && reaches_floor floor c.evaluation.severity
is_due py c (some s) floor =
    if was_active (some s)
    then (if is_active c
        then is_not_lower s.current_severity c.evaluation.severity
          && reaches_floor floor c.evaluation.severity
        else reaches_floor floor s.current_severity)
    else is_active c && reaches_floor floor c.evaluation.severity

-- The severity that is shown: on a recovery the one before it.
abbrev pub shown_severity : AlertCandidate → Option CurrentAlertState → String
shown_severity c none = c.evaluation.severity
shown_severity c (some s) =
    if was_active (some s) && not (is_active c) then s.current_severity else c.evaluation.severity

first-due :
    (py : Runtime) (c : AlertCandidate) (floor : ℕ) {t : AlertTransition}
    → first py c floor ≡ ok t
    → (t.delivery_required ≡ is_due py c none floor) × (t.delivery_severity ≡ shown_severity c none)
unfolding first rank
first-due py c floor h = ground arith

step-due :
    (py : Runtime) (c : AlertCandidate) (s : CurrentAlertState) (floor : ℕ) {t : Step}
    → InState s.current_state true ⊎ InState s.current_state false
    → InState c.evaluation.signal_state true ⊎ InState c.evaluation.signal_state false
    → step c s floor ≡ ok t
    → (t.delivery ≡ is_due py c (some s) floor) × (t.at_severity ≡ shown_severity c (some s))
unfolding step rank still_active
step-due py c s floor (inl (a, b)) (inl (d, g)) h = ground arith
step-due py c s floor (inl (a, b)) (inr (d, g)) h = ground arith
step-due py c s floor (inr (a, b)) (inl (d, g)) h = ground arith
step-due py c s floor (inr (a, b)) (inr (d, g)) h = ground arith

-- A transition, the first one or a later one from a coherent state, asks for a delivery exactly when one
-- is due, and shows the severity of the evaluation, or on a recovery the one before it. On the first
-- evaluation a delivery is due if the alert is active, its rule's initial policy is to deliver, and its
-- severity reaches the rule's floor. Later it is due if the alert becomes active or stays active at a
-- severity that is not lower than before, and the severity reaches the floor, or if the alert recovers
-- from a severity that reaches the floor; never on a de-escalation or from normal to normal.
pub decide_alert_transition-delivers :
    (py : Runtime) (c : AlertCandidate) (current : Option CurrentAlertState) {t : AlertTransition}
    → StateKnown c
    → IsCoherent? current
    → decide_alert_transition py c current ≡ ok (some t)
    → (floor : ℕ) × (rank c.rule.minimum_delivery_severity ≡ ok floor)
      × (t.delivery_required ≡ is_due py c current floor)
      × (t.delivery_severity ≡ shown_severity c current)
decide_alert_transition-delivers py c none known h e =
    let (floor, r, f) = decide-first py c e in
    let (due, shown) = first-due py c floor f in (floor, r, due, shown)
decide_alert_transition-delivers py c (some s) {t} known h e =
    let (floor, u, r, f, same) = decide-step py c s e in
    let (due, shown) =
      step-due py c s floor (in_state s.current_state h.state_known)
        (in_state c.evaluation.signal_state known) f in
    (
      floor,
      r,
      ap (λ (x : AlertTransition). x.delivery_required) same ∙ due,
      ap (λ (x : AlertTransition). x.delivery_severity) same ∙ shown,
    )
