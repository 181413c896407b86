-- ===== src/Alerts/Dispatch/Tests.antt =====
-- A raised alert is claimed for the shadow channel and reported as sent, twice.
use kis_portfolio_mcp.Common.{ℕ, ◌≤◌, ◌≡◌, refl, String, none, str_eq, mem_text, List, [], ◌∷◌}
use kis_portfolio_mcp.Common.Dict.{get, put, text_key}
use kis_portfolio_mcp.Alerts.Dispatch.Rows.{Ledger, sent, ClaimRequest, AttemptReport}
use kis_portfolio_mcp.Alerts.Dispatch.Counts.{Numbered, Counts, sent_of}
use kis_portfolio_mcp.Alerts.Dispatch.Delivered.{
  Op, claim_op, expire_op, report_op, run_ops, run_ops_sent_once,
}
use kis_portfolio_mcp.Alerts.Dispatch.Guards.{
  claimable, delivery_of, revision_by, deliverable, check_report,
}
use kis_portfolio_mcp.Alerts.Dispatch.{
  claim_dispatch, lease_on, record_attempt, attempt_on, commit_attempt, expire_claims, expired_rows,
}
use kis_portfolio_mcp.Alerts.Redaction.{validate_opaque_code, safe_code, account_number}
use kis_portfolio_mcp.Alerts.Candidates.{severity_rank}
use kis_portfolio_mcp.Alerts.Transition.{decide_alert_transition, rank, step}
use kis_portfolio_mcp.Alerts.Warehouse.{
  latest, current_state, register_rule, write_candidate, write_transition, write_decision, process,
  apply_candidate, commit_revision, put_outcome, same_document, same_evaluation,
}
use kis_portfolio_mcp.Common.{join}
use kis_portfolio_mcp.Alerts.Python.{hash}
use kis_portfolio_mcp.Alerts.Tests.{py}
use kis_portfolio_mcp.Alerts.Warehouse.Tests.{after}

abbrev digest : String → String
digest s = s

abbrev dispatch_hash : String → String → String → String
dispatch_hash candidate channel destination = "d"

abbrev attempt_hash : String → ℕ → String
attempt_hash dispatch n = "a"

abbrev request : ClaimRequest
request = record {
  candidate_id = "c";
  channel = "shadow";
  destination_ref = "owner";
  claimant_id = "worker";
  lease_token = "t";
  claimed_at = 20;
  lease_seconds = 300;
}

abbrev report : AttemptReport
report = record {
  dispatch_id = "d";
  lease_token = "t";
  outcome = sent;
  started_at = 21;
  completed_at = 22;
  response_ref = none;
  error_code = none;
}

abbrev ops : List Op
ops = claim_op [] request after ∷ report_op report ∷ expire_op 400 ∷ report_op report ∷ []

abbrev ledger : Ledger
ledger = run_ops py digest dispatch_hash attempt_hash ops (record { claims = []; attempts = [] })

run_ops_sent_once_example :
    (sent_of "d" ledger.attempts ≤ 1)
    × Numbered "d" ledger.attempts
    × Counts "d" ledger.attempts (get "d" ledger.claims)
run_ops_sent_once_example = run_ops_sent_once py digest dispatch_hash attempt_hash "d" ops

sent_once : sent_of "d" ledger.attempts ≡ 1
unfolding run_ops claim_dispatch claimable delivery_of revision_by deliverable lease_on
    record_attempt check_report attempt_on commit_attempt expire_claims expired_rows get put str_eq
    mem_text validate_opaque_code safe_code account_number apply_candidate write_candidate
    register_rule process write_decision write_transition commit_revision put_outcome current_state
    latest decide_alert_transition rank severity_rank step
    kis_portfolio_mcp.Alerts.Transition.is_unchanged same_document same_evaluation hash join
sent_once = refl
