-- ===== src/Alerts/Candidates.antt =====
-- `AlertEvaluation` and `AlertCandidate` of modules/monitoring/alerts.py: what may become an alert
-- candidate, and that its public context is redacted.
pub mod Redacted
use kis_portfolio_mcp.Common.{
  ℕ, ◌≤◌, ◌<◌, ◌≡◌, String, Bool, true, false, not, ◌&&◌, ◌||◌, Option, none, some, List, [], ◌∷◌,
  map, Result, ok, err, ◌>>=◌, ◌>>◌, raise_if, bind_ok, mem_text, str_eq, leb, ltb, arith,
  if◌then◌else◌, filter, is_empty, sorted_set, truthy, strip, All, all, refl,
}
use kis_portfolio_mcp.Alerts.Python.{Moment, Value, Document, Runtime, hash}
use kis_portfolio_mcp.Alerts.Rules.{
  AlertError, AlertRuleVersion, aware, slot_not_governed, lineage_required, signal_state_unknown,
  severity_unknown, normal_severity_required, active_severity_required, rule_not_yet_valid,
  rule_expired, sensitive_key, sensitive_content, unexpected_keys,
}
use kis_portfolio_mcp.Alerts.Redaction.{
  codes, search_text, sensitive_key_patterns, sensitive_text_patterns, account_number,
}

pub record AlertEvaluation : Type 0 where
  pub subject_type : String
  pub subject_id : String
  pub evaluation_date : ℕ
  pub evaluation_slot : String
  pub session_key : String
  pub evaluation_at : Moment
  pub signal_state : String
  pub severity : String
  pub state_key : String
  pub quality_status : String
  pub input_lineage_hash : String
  pub public_context : Document
  pub evaluation_run_id : String

pub record AlertCandidate : Type 0 where
  pub candidate_id : String
  pub alert_identity : String
  pub rule : AlertRuleVersion
  pub evaluation : AlertEvaluation
  pub state_fingerprint : String

-- `ALLOWED_SLOTS`
abbrev pub allowed_slots : List String
allowed_slots = "kr-1000" ∷ "kr-1400" ∷ "kr-1430" ∷ "kr-1600" ∷ "us-close" ∷ []

-- `SEVERITY_RANK`; `none` where the dict has no such key.
unfoldable pub severity_rank : String → Option ℕ
severity_rank s =
    if str_eq s "normal"
    then some 0
    else if str_eq s "watch"
    then some 1
    else if str_eq s "warning"
    then some 2
    else if str_eq s "critical"
    then some 3
    else none

abbrev pub is_severity : String → Bool
is_severity s = elim (severity_rank s) [ none ↦ false | some r ↦ true ]

-- `PUBLIC_CONTEXT_KEYS`
abbrev pub public_context_keys : List String
public_context_keys =
    "presentation_version" ∷ "subject_label" ∷ "market_label" ∷ "asset_type_label" ∷ "summary"
    ∷ "reason_codes" ∷ "change_percent" ∷ "sma20_relation" ∷ "sma50_relation" ∷ "sma120_relation"
    ∷ "sma20_sma50_relation" ∷ "volume_ratio20" ∷ "rsi14" ∷ "bollinger_state"
    ∷ "episode_drawdown_percent" ∷ "portfolio_impact_percent" ∷ "unavailable_codes" ∷ "source_at"
    ∷ "metric_refs" ∷ "quality_status" ∷ []

abbrev pub is_unexpected : String → Bool
is_unexpected k = not (mem_text k public_context_keys)

abbrev ended_by : Option Moment → Moment → Bool
ended_by none at = false
ended_by (some to) at = leb to.instant at.instant

module _ (py : Runtime) where
  -- The loop over the items of the context.
  unfoldable pub check_items : Document → Result AlertError (Unit {0})
  check_items [] = ok tt
  check_items ((k, v) ∷ d) =
      let rendered = py.json_value v in
      let rest = check_items d in
      if search_text sensitive_key_patterns (codes k)
      then err sensitive_key
      else if account_number py.is_digit rendered
          || search_text sensitive_text_patterns (codes rendered)
      then err sensitive_content
      else rest

  -- `AlertCandidate._validate_public_context`
  unfoldable pub validate_public_context : Document → Result AlertError (Unit {0})
  unfolding check_items
  validate_public_context context = do
    let unexpected = sorted_set (filter is_unexpected (map (λ item. item.0) context))
    raise_if (not (is_empty unexpected)) (unexpected_keys unexpected)
    check_items context

  -- The candidate that `AlertCandidate.build` returns, with its three hashes.
  unfoldable pub identified : AlertRuleVersion → AlertEvaluation → AlertCandidate
  unfolding hash
  identified rule e =
      let identity =
        hash py (
          "alert-identity-v1" ∷ rule.rule_id ∷ rule.version ∷ e.subject_type ∷ e.subject_id ∷ []) in
      record {
        candidate_id =
            hash py ("alert-candidate-v1" ∷ identity ∷ e.session_key ∷ e.evaluation_slot ∷ []);
        alert_identity = identity;
        rule = rule;
        evaluation = e;
        state_fingerprint = hash py (
            "alert-state-v1" ∷ rule.definition_hash ∷ e.signal_state ∷ e.severity ∷ e.state_key
            ∷ []);
      }

  -- `AlertCandidate.build`
  unfoldable pub build : AlertRuleVersion → AlertEvaluation → Result AlertError AlertCandidate
  build rule e = do
    aware e.evaluation_at "evaluation_at"
    raise_if (not (mem_text e.evaluation_slot allowed_slots)) slot_not_governed
    raise_if (not (truthy (strip e.session_key)) || not (truthy (strip e.input_lineage_hash)))
        lineage_required
    raise_if (not (mem_text e.signal_state ("normal" ∷ "active" ∷ []))) signal_state_unknown
    raise_if (not (is_severity e.severity)) severity_unknown
    raise_if (str_eq e.signal_state "normal" && not (str_eq e.severity "normal"))
        normal_severity_required
    raise_if (str_eq e.signal_state "active" && str_eq e.severity "normal") active_severity_required
    raise_if (not (leb rule.valid_from.instant e.evaluation_at.instant)) rule_not_yet_valid
    raise_if (ended_by rule.valid_to e.evaluation_at) rule_expired
    validate_public_context e.public_context
    ok (identified rule e)
