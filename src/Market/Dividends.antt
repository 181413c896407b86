-- ===== src/Market/Dividends.antt =====
-- modules/market/dividends.py: the records of dividends and their validators.
pub mod Honest
use kis_portfolio_mcp.Common.{
  ℕ, String, Bool, true, false, not, ◌&&◌, ◌||◌, Option, none, some, List, [], ◌∷◌, mem_text,
  str_eq, Result,
}
use kis_portfolio_mcp.Common.Int.{ℤ, pos, ltb_ℤ}
use kis_portfolio_mcp.Alerts.Python.{Moment, Document}
use kis_portfolio_mcp.Market.Guards.{
  check, outside, some_blank, some_naive, is_none, absent, earlier,
}

-- `DIVIDEND_SOURCES`
abbrev pub dividend_sources : List String
dividend_sources = "source.opendart" ∷ "source.kis-open-api" ∷ "source.portfolio-owner" ∷ []

-- `JURISDICTIONS`
abbrev pub jurisdictions : List String
jurisdictions = "KR" ∷ "US" ∷ []

-- `ACTION_TYPES`
abbrev pub action_types : List String
action_types = "cash" ∷ "stock" ∷ "special" ∷ "option" ∷ []

-- `ACTION_STATUSES`
abbrev pub action_statuses : List String
action_statuses = "declared" ∷ "confirmed" ∷ "corrected" ∷ "cancelled" ∷ []

-- `CERTAINTIES`
abbrev pub certainties : List String
certainties = "declared" ∷ "confirmed" ∷ "candidate" ∷ []

-- `TIME_PRECISIONS`
abbrev pub time_precisions : List String
time_precisions = "day" ∷ "second" ∷ []

-- `QUALITY_STATUSES`
abbrev pub quality_statuses : List String
quality_statuses = "pass" ∷ "partial" ∷ "quarantined" ∷ "failed" ∷ []

-- `ENTITLEMENT_BASES`
abbrev pub entitlement_bases : List String
entitlement_bases = "source_confirmed" ∷ "pit_estimate" ∷ "manual" ∷ []

-- `COVERAGE_STATUSES`
abbrev pub coverage_statuses : List String
coverage_statuses =
    "source_confirmed" ∷ "estimated" ∷ "not_observed" ∷ "insufficient_history" ∷ "ambiguous_action"
    ∷ "source_gap" ∷ []

-- `LINK_STATUSES`
abbrev pub link_statuses : List String
link_statuses =
    "exact" ∷ "reconciled" ∷ "candidate" ∷ "partial" ∷ "unmatched" ∷ "source_gap" ∷ "reversed" ∷ []

-- `COMPONENT_TYPES`
abbrev pub component_types : List String
component_types = "gross" ∷ "tax" ∷ "net" ∷ []

-- `DividendActionRevision`
pub record DividendActionRevision : Type 0 where
  pub source_id : String
  pub jurisdiction : String
  pub issuer_id : String
  pub instrument_id : String
  pub source_action_id : String
  pub action_type : String
  pub action_status : String
  pub certainty : String
  pub source_available_at : Moment
  pub observed_at : Moment
  pub fetched_at : Moment
  pub knowledge_at : Moment
  pub source_time_precision : String
  pub amount_per_share : Option ℤ
  pub currency : Option String
  pub declaration_date : Option ℕ
  pub ex_date : Option ℕ
  pub record_date : Option ℕ
  pub payable_date : Option ℕ
  pub cancellation_date : Option ℕ
  pub filing_revision_id : Option String
  pub correction_target_revision_id : Option String
  pub quality_status : String
  pub provenance : Option Document

-- `DividendEntitlementRevision`
pub record DividendEntitlementRevision : Type 0 where
  pub dividend_action_id : String
  pub account_id : String
  pub basis : String
  pub coverage_status : String
  pub knowledge_at : Moment
  pub eligibility_date : Option ℕ
  pub eligible_quantity : Option ℤ
  pub rate_per_share : Option ℤ
  pub expected_gross : Option ℤ
  pub expected_tax : Option ℤ
  pub expected_net : Option ℤ
  pub currency : Option String
  pub source_observation_id : Option String
  pub position_evidence_id : Option String
  pub corporate_action_revision_id : Option String
  pub correction_target_revision_id : Option String
  pub quality_status : String
  pub provenance : Option Document

-- `DividendReceiptLinkRevision`
pub record DividendReceiptLinkRevision : Type 0 where
  pub dividend_action_id : String
  pub relation_key : String
  pub link_status : String
  pub reason : String
  pub rule_version : String
  pub knowledge_at : Moment
  pub dividend_entitlement_id : Option String
  pub cash_flow_event_id : Option String
  pub allocated_receipt_amount : Option ℤ
  pub currency : Option String
  pub correction_target_revision_id : Option String
  pub quality_status : String
  pub provenance : Option Document

-- `CashAmountComponentRevision`
pub record CashAmountComponentRevision : Type 0 where
  pub cash_flow_event_id : String
  pub component_type : String
  pub amount : ℤ
  pub currency : String
  pub source_id : String
  pub source_observation_id : String
  pub knowledge_at : Moment
  pub correction_target_revision_id : Option String
  pub quality_status : String
  pub provenance : Option Document

abbrev is_negative : Option ℤ → Bool
is_negative none = false
is_negative (some a) = ltb_ℤ a (pos 0)

abbrev naive_message : String
naive_message = "dividend timestamps must be timezone-aware"

abbrev differ : Bool → Bool → Bool
differ true b = not b
differ false b = b

-- `validate_action`
unfoldable pub validate_action : DividendActionRevision → Result String (Unit {0})
validate_action v = check (
    (outside dividend_sources v.source_id, "dividend action requires an approved source")
    ∷ (outside jurisdictions v.jurisdiction, "unsupported dividend jurisdiction")
    ∷ (
      outside action_types v.action_type || outside action_statuses v.action_status,
      "unsupported dividend action type or status",
    )
    ∷ (
      outside certainties v.certainty || outside time_precisions v.source_time_precision,
      "unsupported dividend certainty or time precision",
    )
    ∷ (outside quality_statuses v.quality_status, "unsupported dividend quality status")
    ∷ (
      some_blank (v.issuer_id ∷ v.instrument_id ∷ v.source_action_id ∷ []),
      "dividend action identity is required",
    )
    ∷ (
      differ (is_none v.amount_per_share) (is_none v.currency),
      "dividend per-share amount and currency must appear together",
    )
    ∷ (is_negative v.amount_per_share, "dividend per-share amount cannot be negative")
    ∷ (
      mem_text v.action_status ("corrected" ∷ "cancelled" ∷ [])
          && absent v.correction_target_revision_id,
      "corrected dividend action requires an explicit target revision",
    )
    ∷ (
      some_naive (v.source_available_at ∷ v.observed_at ∷ v.fetched_at ∷ v.knowledge_at ∷ []),
      naive_message,
    )
    ∷ (
      earlier v.fetched_at v.observed_at || earlier v.knowledge_at v.observed_at,
      "dividend knowledge and fetch times cannot precede observation",
    )
    ∷ [])

-- `any(item is not None for item in amounts[1:])`
abbrev pub has_money : DividendEntitlementRevision → Bool
has_money v =
    not (is_none v.rate_per_share)
    || not (is_none v.expected_gross)
    || not (is_none v.expected_tax)
    || not (is_none v.expected_net)

abbrev pub uncovered_statuses : List String
uncovered_statuses =
    "source_gap" ∷ "not_observed" ∷ "insufficient_history" ∷ "ambiguous_action" ∷ []

-- `validate_entitlement`
unfoldable pub validate_entitlement : DividendEntitlementRevision → Result String (Unit {0})
validate_entitlement v = check (
    (
      outside entitlement_bases v.basis || outside coverage_statuses v.coverage_status,
      "unsupported entitlement basis or coverage",
    )
    ∷ (outside quality_statuses v.quality_status, "unsupported entitlement quality status")
    ∷ (
      some_blank (v.dividend_action_id ∷ v.account_id ∷ []),
      "entitlement action and account identity are required",
    )
    ∷ (some_naive (v.knowledge_at ∷ []), naive_message)
    ∷ (
      mem_text v.coverage_status uncovered_statuses
          && (not (is_none v.eligible_quantity) || has_money v),
      "uncovered entitlement cannot invent quantity or amounts",
    )
    ∷ (
      str_eq v.coverage_status "source_confirmed" && absent v.source_observation_id,
      "source-confirmed entitlement requires source evidence",
    )
    ∷ (
      str_eq v.coverage_status "estimated" && absent v.position_evidence_id,
      "estimated entitlement requires point-in-time position evidence",
    )
    ∷ (has_money v && absent v.currency, "entitlement monetary values require currency")
    ∷ [])

abbrev pub linked_statuses : List String
linked_statuses = "exact" ∷ "reconciled" ∷ "candidate" ∷ "partial" ∷ "reversed" ∷ []

abbrev pub unlinked_statuses : List String
unlinked_statuses = "unmatched" ∷ "source_gap" ∷ []

-- `validate_receipt_link`
unfoldable pub validate_receipt_link : DividendReceiptLinkRevision → Result String (Unit {0})
validate_receipt_link v = check (
    (
      outside link_statuses v.link_status || outside quality_statuses v.quality_status,
      "unsupported receipt-link status or quality",
    )
    ∷ (
      some_blank (v.dividend_action_id ∷ v.relation_key ∷ v.reason ∷ v.rule_version ∷ []),
      "receipt-link identity, reason and rule version are required",
    )
    ∷ (some_naive (v.knowledge_at ∷ []), naive_message)
    ∷ (
      mem_text v.link_status linked_statuses && absent v.cash_flow_event_id,
      "linked receipt state requires a cash event",
    )
    ∷ (
      mem_text v.link_status unlinked_statuses && not (is_none v.cash_flow_event_id),
      "unmatched or source-gap receipt cannot claim a cash event",
    )
    ∷ (
      differ (is_none v.allocated_receipt_amount) (is_none v.currency),
      "receipt allocation and currency must appear together",
    )
    ∷ [])

-- `validate_component`
unfoldable pub validate_component : CashAmountComponentRevision → Result String (Unit {0})
validate_component v = check (
    (outside component_types v.component_type, "cash amount component must be gross, tax or net")
    ∷ (outside dividend_sources v.source_id, "cash amount component requires an approved source")
    ∷ (outside quality_statuses v.quality_status, "unsupported cash amount component quality")
    ∷ (
      some_blank (v.cash_flow_event_id ∷ v.currency ∷ v.source_observation_id ∷ []),
      "cash amount component identity and source evidence are required",
    )
    ∷ (some_naive (v.knowledge_at ∷ []), naive_message)
    ∷ [])
