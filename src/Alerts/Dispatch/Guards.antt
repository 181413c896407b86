-- ===== src/Alerts/Dispatch/Guards.antt =====
-- What `claim_dispatch` and `record_attempt` check before they touch a claim.
use kis_portfolio_mcp.Common.{
  ℕ, String, Bool, true, false, not, ◌&&◌, ◌||◌, Option, none, some, List, [], ◌∷◌, Result, ok, err,
  ◌>>◌, raise_if, str_eq, leb, ltb, ◌==◌, if◌then◌else◌, all, length, mem_text,
}
use kis_portfolio_mcp.Common.Dict.{Dict, get, text_key, pair_key}
use kis_portfolio_mcp.Alerts.Python.{Runtime}
use kis_portfolio_mcp.Alerts.Redaction.{codes, validate_opaque_code}
use kis_portfolio_mcp.Alerts.Rules.{AlertRuleVersion}
use kis_portfolio_mcp.Alerts.Transition.{AlertTransition}
use kis_portfolio_mcp.Alerts.Warehouse.{Tables, CandidateRow, RevisionRow}
use kis_portfolio_mcp.Alerts.Dispatch.Rows.{
  DispatchError, code_not_opaque, lease_not_bounded, not_eligible, rule_not_valid,
  unsupported_channel, external_mode_not_active, rule_not_active, not_approved,
  shadow_mode_not_active, completion_before_start, error_code_not_bounded, ClaimRequest,
  AttemptReport,
}

-- The join of a candidate with its rule version and its state revision.
abbrev pub with_revision :
    AlertRuleVersion → Option RevisionRow → Option (AlertRuleVersion × AlertTransition)
with_revision rule none = none
with_revision rule (some r) = some (rule, r.transition)

unfoldable pub revision_by : String → List RevisionRow → Option RevisionRow
revision_by candidate_id [] = none
revision_by candidate_id (r ∷ rs) =
    let rest = revision_by candidate_id rs in
    if str_eq r.candidate_id candidate_id then some r else rest

abbrev pub with_rule :
    String → Option AlertRuleVersion → Tables → Option (AlertRuleVersion × AlertTransition)
with_rule candidate_id none w = none
with_rule candidate_id (some rule) w = with_revision rule (revision_by candidate_id w.revisions)

abbrev pub with_candidate :
    String → Option CandidateRow → Tables → Option (AlertRuleVersion × AlertTransition)
with_candidate candidate_id none w = none
with_candidate candidate_id (some c) w =
    with_rule candidate_id (get (c.rule_id, c.rule_version) w.rules) w

unfoldable pub delivery_of : String → Tables → Option (AlertRuleVersion × AlertTransition)
delivery_of candidate_id w = with_candidate candidate_id (get candidate_id w.candidates) w

abbrev pub is_approved : Option String → Bool
is_approved none = false
is_approved (some decision) = str_eq decision "approved"

abbrev pub outside : ℕ → AlertRuleVersion → Bool
outside at rule =
    ltb at rule.valid_from.instant
    || elim rule.valid_to [ none ↦ false | some to ↦ leb to.instant at ]

abbrev pub is_telegram : String → Bool
is_telegram channel = str_eq channel "telegram"

abbrev pub latest_decision :
    Dict (String × String) String → Option (AlertRuleVersion × AlertTransition) → Option String
latest_decision decisions none = none
latest_decision decisions (some (rule, t)) = get (rule.rule_id, rule.version) decisions

abbrev pub is_err : {E A : Type 0} → Result E A → Bool
is_err (ok a) = false
is_err (err e) = true

-- The guards of `claim_dispatch` on the rule, for the owner's latest decision.
unfoldable pub deliverable :
    ClaimRequest
    → Option String
    → Option (AlertRuleVersion × AlertTransition)
    → Result DispatchError (Unit {0})
deliverable q decision none = err not_eligible
deliverable q decision (some (rule, t)) = do
  raise_if (not t.delivery_required) not_eligible
  raise_if (outside q.claimed_at rule) rule_not_valid
  raise_if (not (mem_text q.channel ("shadow" ∷ "telegram" ∷ []))) unsupported_channel
  raise_if (is_telegram q.channel && not (str_eq rule.delivery_mode "external"))
      external_mode_not_active
  raise_if (is_telegram q.channel && not (str_eq rule.status "active")) rule_not_active
  raise_if (is_telegram q.channel && not (is_approved decision)) not_approved
  raise_if (str_eq q.channel "shadow" && str_eq rule.delivery_mode "off") shadow_mode_not_active
  ok tt

-- The checks of `claim_dispatch`, in their order.
unfoldable pub claimable :
    Runtime
    → Dict (String × String) String
    → ClaimRequest
    → Option (AlertRuleVersion × AlertTransition)
    → Result DispatchError (Unit {0})
claimable py decisions q delivery = do
  raise_if (is_err (validate_opaque_code py q.destination_ref "destination_ref")) code_not_opaque
  raise_if (is_err (validate_opaque_code py q.claimant_id "claimant_id")) code_not_opaque
  raise_if (str_eq q.lease_token "" || q.lease_seconds == 0 || ltb 900 q.lease_seconds)
      lease_not_bounded
  deliverable q (latest_decision decisions delivery) delivery

abbrev pub code_char : ℕ → Bool
code_char c = (leb b'A' c && leb c b'Z') || (leb b'0' c && leb c b'9') || c == b'_'

-- `_ERROR_CODE.fullmatch`
unfoldable pub bounded_code : List ℕ → Bool
bounded_code [] = false
bounded_code (c ∷ cs) =
    leb b'A' c && leb c b'Z' && leb 1 (length cs) && leb (length cs) 63 && all code_char cs

abbrev pub unbounded : Option String → Bool
unbounded none = false
unbounded (some code) = not (bounded_code (codes code))

-- The checks of `record_attempt` on its arguments.
unfoldable pub check_report : AttemptReport → Result DispatchError (Unit {0})
check_report a = do
  raise_if (ltb a.completed_at a.started_at) completion_before_start
  raise_if (unbounded a.error_code) error_code_not_bounded
  ok tt
