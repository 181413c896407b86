-- ===== src/Alerts/Transition/Laws.antt =====
-- What `decide_alert_transition` promises.
use kis_portfolio_mcp.Common.{
  ℕ, ◌+◌, ◌≤◌, ◌<◌, ◌≡◌, refl, ◌⊎◌, true, not, Option, none, some, ok, ◌>>=◌, bind_ok, str_eq,
  str_eq_refl, if_cases, arith,
}
use mathlib.Core.Path.{ap}
use kis_portfolio_mcp.Alerts.Python.{Runtime}
use kis_portfolio_mcp.Alerts.Candidates.{AlertCandidate}
use kis_portfolio_mcp.Alerts.Transition.{
  CurrentAlertState, AlertTransition, rank, first, is_unchanged, Step, step, transition,
  decide_above, decide_alert_transition,
}

-- An alert's state between two evaluations: it has a revision, no more episodes than revisions, and
-- is active only in an episode.
pub record IsCoherent (s : CurrentAlertState) : Type 0 where
  pub revised : 0 < s.revision
  pub episodes : s.episode ≤ s.revision
  pub in_episode : str_eq s.current_state "active" ≡ true → 0 < s.episode
  pub state_known :
      (str_eq s.current_state "active" ≡ true) ⊎ (str_eq s.current_state "normal" ≡ true)

-- The state that a transition leaves, as the warehouse records it.
abbrev pub recorded : AlertCandidate → AlertTransition → CurrentAlertState
recorded c t = record {
  revision = t.revision;
  episode = t.episode;
  current_state = t.current_state;
  current_severity = t.current_severity;
  state_fingerprint = c.state_fingerprint;
  knowledge_at = some c.evaluation.evaluation_at.instant;
}

abbrev pub StateKnown : AlertCandidate → Type 0
StateKnown c =
    (str_eq c.evaluation.signal_state "active" ≡ true)
    ⊎ (str_eq c.evaluation.signal_state "normal" ≡ true)

pub first-IsCoherent :
    (py : Runtime) (c : AlertCandidate) (floor : ℕ) {t : AlertTransition}
    → StateKnown c
    → first py c floor ≡ ok t
    → IsCoherent (recorded c t)
unfolding first
first-IsCoherent py c floor known h = ground arith

pub step-IsCoherent :
    (c : AlertCandidate) (s : CurrentAlertState) (floor : ℕ) {t : Step}
    → StateKnown c
    → IsCoherent s
    → step c s floor ≡ ok t
    → IsCoherent (recorded c (transition c s t))
unfolding step
step-IsCoherent c s floor known h e = ground arith

decide-floor :
    (py : Runtime) (c : AlertCandidate) (current : Option CurrentAlertState) {t : AlertTransition}
    → decide_alert_transition py c current ≡ ok (some t)
    → (floor : ℕ) × (rank c.rule.minimum_delivery_severity ≡ ok floor)
      × (decide_above py c current floor ≡ ok (some t))
unfolding decide_alert_transition
decide-floor py c current {t} h =
    if_cases
      (λ r.
        r ≡ ok (some t)
        → (floor : ℕ) × (rank c.rule.minimum_delivery_severity ≡ ok floor)
          × (decide_above py c current floor ≡ ok (some t)))
      (not (str_eq c.evaluation.quality_status "pass")) (ok none)
      (rank c.rule.minimum_delivery_severity >>= decide_above py c current) (λ _ g. cc)
      (λ _ g. bind_ok (rank c.rule.minimum_delivery_severity) (decide_above py c current) g) h

-- What a decision on a present state is, when it is a transition.
pub decide-step :
    (py : Runtime) (c : AlertCandidate) (s : CurrentAlertState) {t : AlertTransition}
    → decide_alert_transition py c (some s) ≡ ok (some t)
    → (floor : ℕ) × (u : Step) × (rank c.rule.minimum_delivery_severity ≡ ok floor)
      × (step c s floor ≡ ok u)
      × (t ≡ transition c s u)
unfolding decide_alert_transition
decide-step py c s {t} h =
    let (floor, e, f) = decide-floor py c (some s) h in
    if_cases
      (λ r.
        r ≡ ok (some t)
        → (k : ℕ) × (u : Step) × (rank c.rule.minimum_delivery_severity ≡ ok k)
          × (step c s k ≡ ok u)
          × (t ≡ transition c s u))
      (is_unchanged c s) (ok none) (step c s floor >>= λ u. ok (some (transition c s u)))
      (λ _ g. cc)
      (λ _ g. let (u, p, q) = bind_ok (step c s floor) _ g in (floor, u, e, p, ground arith)) f

pub decide-first :
    (py : Runtime) (c : AlertCandidate) {t : AlertTransition}
    → decide_alert_transition py c none ≡ ok (some t)
    → (floor : ℕ) × (rank c.rule.minimum_delivery_severity ≡ ok floor) × (first py c floor ≡ ok t)
unfolding decide_alert_transition
decide-first py c h =
    let (floor, e, f) = decide-floor py c none h in
    let (u, p, q) = bind_ok (first py c floor) (λ t. ok (some t)) f in (floor, e, ground arith)

-- The state before the first evaluation of an alert.
abbrev pub prior_revision : Option CurrentAlertState → ℕ
prior_revision none = 0
prior_revision (some s) = s.revision

abbrev pub prior_episode : Option CurrentAlertState → ℕ
prior_episode none = 0
prior_episode (some s) = s.episode

abbrev pub IsCoherent? : Option CurrentAlertState → Type 0
IsCoherent? none = Unit
IsCoherent? (some s) = IsCoherent s

first-counts :
    (py : Runtime) (c : AlertCandidate) (floor : ℕ) {t : AlertTransition}
    → first py c floor ≡ ok t
    → t.revision ≡ 1
unfolding first
first-counts py c floor h = ground arith

pub decide_revision :
    (py : Runtime) (c : AlertCandidate) (current : Option CurrentAlertState) {t : AlertTransition}
    → decide_alert_transition py c current ≡ ok (some t)
    → t.revision ≡ prior_revision current + 1
decide_revision py c none e = let (floor, _, f) = decide-first py c e in first-counts py c floor f
decide_revision py c (some s) e =
    let (floor, u, _, f, same) = decide-step py c s e in
    ap (λ (x : AlertTransition). x.revision) same

unchanged_recorded :
    (c : AlertCandidate) (t : AlertTransition)
    → t.current_state ≡ c.evaluation.signal_state
    → t.current_severity ≡ c.evaluation.severity
    → is_unchanged c (recorded c t) ≡ true
unfolding is_unchanged
unchanged_recorded c t p q = simp (p, q, str_eq_refl)

first-shows :
    (py : Runtime) (c : AlertCandidate) (floor : ℕ) {t : AlertTransition}
    → first py c floor ≡ ok t
    → (t.current_state ≡ c.evaluation.signal_state) × (t.current_severity ≡ c.evaluation.severity)
unfolding first
first-shows py c floor h = ground arith

shows :
    (py : Runtime) (c : AlertCandidate) (current : Option CurrentAlertState) {t : AlertTransition}
    → decide_alert_transition py c current ≡ ok (some t)
    → (t.current_state ≡ c.evaluation.signal_state) × (t.current_severity ≡ c.evaluation.severity)
shows py c none e = let (floor, _, f) = decide-first py c e in first-shows py c floor f
shows py c (some s) {t} e =
    let (floor, u, _, f, same) = decide-step py c s e in
    (
      ap (λ (x : AlertTransition). x.current_state) same,
      ap (λ (x : AlertTransition). x.current_severity) same,
    )

-- No alert is raised twice: once a candidate's transition is recorded, deciding on the same
-- candidate again returns without an error and without a transition.
pub decide_alert_transition_again :
    (py : Runtime) (c : AlertCandidate) (current : Option CurrentAlertState) {t : AlertTransition}
    → decide_alert_transition py c current ≡ ok (some t)
    → decide_alert_transition py c (some (recorded c t)) ≡ ok none
unfolding decide_alert_transition
decide_alert_transition_again py c current {t} e =
    let (floor, r, _) = decide-floor py c current e in
    let (p, q) = shows py c current e in
    if_cases (λ x. x ≡ ok none) (not (str_eq c.evaluation.quality_status "pass")) (ok none)
      (rank c.rule.minimum_delivery_severity >>= decide_above py c (some (recorded c t)))
      (λ _. refl) (λ _. rw (r, unchanged_recorded c t p q))
