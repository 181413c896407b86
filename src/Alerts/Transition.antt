-- ===== src/Alerts/Transition.antt =====
-- `decide_alert_transition` of modules/monitoring/alerts.py: the state machine of an alert, by
-- revision and episode. Its children state what it promises.
pub mod Laws
pub mod Follows
pub mod Delivery
use kis_portfolio_mcp.Common.{
  ℕ, ◌+◌, String, Bool, true, false, not, ◌&&◌, Option, none, some, List, [], ◌∷◌, Result, ok, err,
  ◌>>=◌, ◌>>◌, raise_if, mem_text, str_eq, leb, ltb, if◌then◌else◌,
}
use kis_portfolio_mcp.Alerts.Python.{Runtime, Value, lookup, str}
use kis_portfolio_mcp.Alerts.Rules.{AlertError, missing_key, initial_policy_unknown}
use kis_portfolio_mcp.Alerts.Candidates.{AlertCandidate, severity_rank}

pub record CurrentAlertState : Type 0 where
  pub revision : ℕ
  pub episode : ℕ
  pub current_state : String
  pub current_severity : String
  pub state_fingerprint : String
  pub knowledge_at : Option ℕ

pub data TransitionType : Type 0 where
  entered reentered recovered escalated deescalated updated initial_normal : TransitionType

-- `str(transition_type)`
abbrev pub type_text : TransitionType → String
type_text entered = "entered"
type_text reentered = "reentered"
type_text recovered = "recovered"
type_text escalated = "escalated"
type_text deescalated = "deescalated"
type_text updated = "updated"
type_text initial_normal = "initial_normal"

pub record AlertTransition : Type 0 where
  pub transition_type : TransitionType
  pub revision : ℕ
  pub episode : ℕ
  pub prior_state : Option String
  pub current_state : String
  pub prior_severity : Option String
  pub current_severity : String
  pub delivery_required : Bool
  pub delivery_severity : String

-- `SEVERITY_RANK[severity]`
unfoldable pub rank : String → Result AlertError ℕ
rank s = elim (severity_rank s) [ none ↦ err (missing_key s) | some r ↦ ok r ]

-- `SEVERITY_RANK[severity] >= floor`
unfoldable pub reaches : String → ℕ → Result AlertError Bool
reaches severity floor = do r ← rank severity; ok (leb floor r)

module _ (py : Runtime) where
  -- `str(document.get("initial_active_policy", "deliver"))`
  unfoldable pub initial_policy : AlertCandidate → String
  unfolding lookup str
  initial_policy c = elim (lookup "initial_active_policy" c.rule.document) [
    | none ↦ "deliver"
    | some v ↦ str py v
  ]

  -- The first evaluation of an alert.
  unfoldable pub first : AlertCandidate → ℕ → Result AlertError AlertTransition
  unfolding initial_policy reaches mem_text str_eq
  first c floor = do
    let e = c.evaluation
    let active = str_eq e.signal_state "active"
    raise_if (not (mem_text (initial_policy c) ("deliver" ∷ "baseline_only" ∷ [])))
        initial_policy_unknown
    delivery ←
        (if active && str_eq (initial_policy c) "deliver"
          then reaches e.severity floor
          else ok false)
    ok (record {
      transition_type = if active then entered else initial_normal;
      revision = 1;
      episode = if active then 1 else 0;
      prior_state = none;
      current_state = e.signal_state;
      prior_severity = none;
      current_severity = e.severity;
      delivery_required = delivery;
      delivery_severity = e.severity;
    })

-- Nothing differs from the current state.
unfoldable pub is_unchanged : AlertCandidate → CurrentAlertState → Bool
is_unchanged c s =
    str_eq s.current_state c.evaluation.signal_state
    && str_eq s.current_severity c.evaluation.severity
    && str_eq s.state_fingerprint c.state_fingerprint

-- The kind of a later transition, its episode, and what it delivers at which severity.
pub record Step : Type 0 where
  pub kind : TransitionType
  pub to_episode : ℕ
  pub delivery : Bool
  pub at_severity : String

-- An active alert stays active: the rank of its severity tells the kind.
unfoldable pub still_active : AlertCandidate → CurrentAlertState → ℕ → Result AlertError Step
still_active c s floor = do
  let e = c.evaluation
  old_rank ← rank s.current_severity
  new_rank ← rank e.severity
  ok (record {
    kind =
        if ltb old_rank new_rank
        then escalated
        else if ltb new_rank old_rank
        then deescalated
        else updated;
    to_episode = s.episode;
    delivery = if ltb new_rank old_rank then false else leb floor new_rank;
    at_severity = e.severity;
  })

-- The branches on the old and the new state.
unfoldable pub step : AlertCandidate → CurrentAlertState → ℕ → Result AlertError Step
unfolding reaches still_active str_eq
step c s floor =
    let e = c.evaluation in
    if str_eq s.current_state "normal" && str_eq e.signal_state "active"
    then (do
      delivery ← reaches e.severity floor
      ok (record {
        kind = if ltb 0 s.episode then reentered else entered;
        to_episode = s.episode + 1;
        delivery = delivery;
        at_severity = e.severity;
      }))
    else if str_eq s.current_state "active" && str_eq e.signal_state "normal"
    then (do
      delivery ← reaches s.current_severity floor
      ok (record {
        kind = recovered;
        to_episode = s.episode;
        delivery = delivery;
        at_severity = s.current_severity;
      }))
    else if str_eq s.current_state "active" && str_eq e.signal_state "active"
    then still_active c s floor
    else ok (record {
      kind = initial_normal;
      to_episode = s.episode;
      delivery = false;
      at_severity = e.severity;
    })

-- The transition of a step.
abbrev pub transition : AlertCandidate → CurrentAlertState → Step → AlertTransition
transition c s t = record {
  transition_type = t.kind;
  revision = s.revision + 1;
  episode = t.to_episode;
  prior_state = some s.current_state;
  current_state = c.evaluation.signal_state;
  prior_severity = some s.current_severity;
  current_severity = c.evaluation.severity;
  delivery_required = t.delivery;
  delivery_severity = t.at_severity;
}

-- The decision once the delivery floor is known.
unfoldable pub decide_above :
    Runtime
    → AlertCandidate
    → Option CurrentAlertState
    → ℕ
    → Result AlertError (Option AlertTransition)
decide_above py c none floor = do t ← first py c floor; ok (some t)
decide_above py c (some s) floor =
    if is_unchanged c s then ok none else (do t ← step c s floor; ok (some (transition c s t)))

unfoldable pub decide_alert_transition :
    Runtime → AlertCandidate → Option CurrentAlertState → Result AlertError (Option AlertTransition)
unfolding decide_above
decide_alert_transition py c current =
    if not (str_eq c.evaluation.quality_status "pass")
    then ok none
    else rank c.rule.minimum_delivery_severity >>= decide_above py c current
