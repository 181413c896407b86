-- ===== src/Alerts/Tests.antt =====
-- The alert contract at a concrete rule, evaluation and state.
use kis_portfolio_mcp.Common.{
  ℕ, zero, suc, String, true, none, some, [], ◌∷◌, ok, ◌≡◌, refl, arith, str_eq, mem_text, strip,
  inl, sorted_set, leb, ◌&&◌,
}
use kis_portfolio_mcp.Alerts.Python.{Moment, text, moment, nothing, Document, Runtime}
use kis_portfolio_mcp.Alerts.Rules.{AlertRuleVersion, from_document}
use kis_portfolio_mcp.Alerts.Redaction.{search_text, account_number}
use kis_portfolio_mcp.Alerts.Candidates.{
  AlertEvaluation, AlertCandidate, build, identified, severity_rank,
}
use kis_portfolio_mcp.Alerts.Candidates.Redacted.{IsAdmitted, build-IsAdmitted}
use kis_portfolio_mcp.Alerts.Transition.{
  CurrentAlertState, AlertTransition, entered, escalated, decide_alert_transition, rank, reaches,
  step,
}
use kis_portfolio_mcp.Alerts.Transition.Laws.{IsCoherent}
use kis_portfolio_mcp.Alerts.Transition.Follows.{Follows, decide_alert_transition-IsCoherent}
use kis_portfolio_mcp.Alerts.Transition.Delivery.{
  is_due, shown_severity, decide_alert_transition-delivers,
}

-- The texts of the first numbers.
abbrev pub shown : ℕ → String
shown zero = "0"
shown (suc zero) = "1"
shown (suc (suc n)) = "2"

abbrev pub py : Runtime
py = record {
  json = λ d. "{}";
  json_value = λ v. elim v [ text s ↦ s | moment m ↦ "now" | nothing ↦ "null" | _ ↦ "x" ];
  sha256 = λ s. s;
  isoformat = λ m. "now";
  show_moment = λ m. "now";
  show_number = shown;
  is_digit = λ c. leb b'0' c && leb c b'9';
}

abbrev at : ℕ → Moment
at n = record { instant = n; is_aware = true }

abbrev document : Document
document =
    ("id", text "rule.shock")
    ∷ ("version", text "1")
    ∷ ("status", text "active")
    ∷ ("minimum_delivery_severity", text "warning")
    ∷ ("delivery_mode", text "shadow")
    ∷ ("valid_from", moment (at 5))
    ∷ []

abbrev rule : AlertRuleVersion
rule = record {
  rule_id = "rule.shock";
  version = "1";
  status = "active";
  minimum_delivery_severity = "warning";
  delivery_mode = "shadow";
  valid_from = at 5;
  valid_to = none;
  document = document;
  definition_hash = "{}";
}

rule_reads : from_document py document ≡ ok rule
unfolding from_document mem_text
rule_reads = refl

abbrev evaluation : String → ℕ → AlertEvaluation
evaluation severity time = record {
  subject_type = "instrument";
  subject_id = "KRX:005930";
  evaluation_date = 20;
  evaluation_slot = "kr-1000";
  session_key = "s1";
  evaluation_at = at time;
  signal_state = "active";
  severity = severity;
  state_key = "k";
  quality_status = "pass";
  input_lineage_hash = "l";
  public_context = ("summary", text "price shock 1234567") ∷ [];
  evaluation_run_id = "r";
}

abbrev pub candidate : String → AlertCandidate
candidate severity = record {
  candidate_id = "c";
  alert_identity = "i";
  rule = rule;
  evaluation = evaluation severity 9;
  state_fingerprint = "f";
}

builds : build py rule (evaluation "warning" 9) ≡ ok (identified py rule (evaluation "warning" 9))
unfolding build str_eq mem_text strip severity_rank
    kis_portfolio_mcp.Alerts.Candidates.validate_public_context sorted_set search_text
    account_number
builds = refl

build-IsAdmitted_example :
    IsAdmitted py rule (evaluation "warning" 9) (identified py rule (evaluation "warning" 9))
build-IsAdmitted_example = build-IsAdmitted py rule (evaluation "warning" 9) builds

abbrev watching : CurrentAlertState
watching = record {
  revision = 1;
  episode = 1;
  current_state = "active";
  current_severity = "watch";
  state_fingerprint = "g";
  knowledge_at = some 8;
}

abbrev pub raised : AlertTransition
raised = record {
  transition_type = escalated;
  revision = 2;
  episode = 1;
  prior_state = some "active";
  current_state = "active";
  prior_severity = some "watch";
  current_severity = "warning";
  delivery_required = true;
  delivery_severity = "warning";
}

escalates : decide_alert_transition py (candidate "warning") (some watching) ≡ ok (some raised)
unfolding decide_alert_transition rank severity_rank str_eq step
    kis_portfolio_mcp.Alerts.Transition.is_unchanged
escalates = refl

watching-IsCoherent : IsCoherent watching
unfolding str_eq
watching-IsCoherent = record {
  revised = omega arith;
  episodes = omega arith;
  in_episode = λ _. omega arith;
  state_known = inl refl;
}

decide_alert_transition-IsCoherent_example : Follows (candidate "warning") (some watching) raised
unfolding str_eq
decide_alert_transition-IsCoherent_example =
    decide_alert_transition-IsCoherent py (candidate "warning") (some watching) (inl refl)
      watching-IsCoherent escalates

decide_alert_transition-delivers_example :
    (floor : ℕ) × (rank "warning" ≡ ok floor)
    × (true ≡ is_due py (candidate "warning") (some watching) floor)
    × ("warning" ≡ shown_severity (candidate "warning") (some watching))
unfolding str_eq
decide_alert_transition-delivers_example =
    decide_alert_transition-delivers py (candidate "warning") (some watching) (inl refl)
      watching-IsCoherent escalates
