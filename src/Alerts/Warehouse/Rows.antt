-- ===== src/Alerts/Warehouse/Rows.antt =====
-- The rows of the alert tables, and the results and errors of their operations.
use kis_portfolio_mcp.Common.{ℕ, String, Bool, Option, List}
use kis_portfolio_mcp.Common.Dict.{Dict, text_key, pair_key}
use kis_portfolio_mcp.Alerts.Rules.{AlertError, AlertRuleVersion}
use kis_portfolio_mcp.Alerts.Transition.{AlertTransition}

-- A row of `gold.alert_candidates`, and the tuple of `_candidate_document`
pub record CandidateRow : Type 0 where
  pub alert_identity : String
  pub rule_id : String
  pub rule_version : String
  pub subject_type : String
  pub subject_id : String
  pub evaluation_date : ℕ
  pub evaluation_slot : String
  pub session_key : String
  pub evaluation_at : ℕ
  pub signal_state : String
  pub severity : String
  pub state_fingerprint : String
  pub quality_status : String
  pub input_lineage_hash : String
  pub public_context : String
  pub evaluation_run_id : String

-- A row of `control.alert_state_revisions`
pub record RevisionRow : Type 0 where
  pub state_revision_id : String
  pub alert_identity : String
  pub transition : AlertTransition
  pub state_fingerprint : String
  pub candidate_id : String
  pub knowledge_at : ℕ

pub data OutcomeType : Type 0 where
  transitioned no_change suppressed_quality out_of_order : OutcomeType

-- A row of `control.alert_candidate_outcomes`
pub record Outcome : Type 0 where
  pub outcome_type : OutcomeType
  pub state_revision_id : Option String
  pub evaluated_against_revision : ℕ
  pub processed_at : ℕ

-- The tables, with the newest revision first; a rule is kept with its definition hash.
pub record Tables : Type 0 where
  pub rules : Dict (String × String) AlertRuleVersion
  pub candidates : Dict String CandidateRow
  pub revisions : List RevisionRow
  pub outcomes : Dict String Outcome

pub data WarehouseError : Type 0 where
  rule_changed candidate_changed evaluation_key_taken revision_changed claim_lost : WarehouseError
  refused_candidate : AlertError → WarehouseError

-- `CandidateWrite`
pub record CandidateWrite : Type 0 where
  pub candidate_id : String
  pub inserted : Bool

-- `StateWrite`
pub record StateWrite : Type 0 where
  pub transition : Option AlertTransition
  pub inserted : Bool
