-- ===== src/Market/Tests.antt =====
-- Accepted revisions: an entitlement that is not covered, an unmatched receipt, a filing and a missing
-- macro observation.
use kis_portfolio_mcp.Common.{
  String, [], ◌∷◌, some, ◌≡◌, refl, true, none, ok, mem_text, str_eq, strip,
}
use kis_portfolio_mcp.Alerts.Python.{Moment}
use kis_portfolio_mcp.Market.Guards.{check, some_blank, some_naive}
use kis_portfolio_mcp.Market.Dividends.{
  DividendEntitlementRevision, DividendReceiptLinkRevision, validate_entitlement,
  validate_receipt_link,
}
use kis_portfolio_mcp.Market.Filings.{FilingRevision, validate_filing}
use kis_portfolio_mcp.Market.Macro.{MacroSeriesDefinition, MacroObservationRevision}

abbrev noon : Moment
noon = record { instant = 12; is_aware = true }

abbrev uncovered : DividendEntitlementRevision
uncovered = record {
  dividend_action_id = "action";
  account_id = "account";
  basis = "pit_estimate";
  coverage_status = "source_gap";
  knowledge_at = noon;
  eligibility_date = none;
  eligible_quantity = none;
  rate_per_share = none;
  expected_gross = none;
  expected_tax = none;
  expected_net = none;
  currency = none;
  source_observation_id = none;
  position_evidence_id = none;
  corporate_action_revision_id = none;
  correction_target_revision_id = none;
  quality_status = "partial";
  provenance = none;
}

uncovered_accepted : validate_entitlement uncovered ≡ ok tt
unfolding validate_entitlement check some_blank some_naive mem_text str_eq strip
uncovered_accepted = refl

abbrev unmatched : DividendReceiptLinkRevision
unmatched = record {
  dividend_action_id = "action";
  relation_key = "relation";
  link_status = "unmatched";
  reason = "no receipt";
  rule_version = "1";
  knowledge_at = noon;
  dividend_entitlement_id = none;
  cash_flow_event_id = none;
  allocated_receipt_amount = none;
  currency = none;
  correction_target_revision_id = none;
  quality_status = "pass";
  provenance = none;
}

unmatched_accepted : validate_receipt_link unmatched ≡ ok tt
unfolding validate_receipt_link check some_blank some_naive mem_text str_eq strip
unmatched_accepted = refl

abbrev report : FilingRevision
report = record {
  source_id = "source.opendart";
  jurisdiction = "KR";
  source_filing_id = "20260105000001";
  issuer_id = "issuer";
  content_hash = "hash";
  form_type = "annual";
  source_url = "https://dart";
  raw_object_hash = "hash";
  source_available_at = noon;
  source_time_precision = "day";
  first_observed_at = noon;
  fetched_at = noon;
  knowledge_at = noon;
  parser_id = "parser";
  parser_version = "1";
  relation_type = "none";
  relation_quality = "not_applicable";
  target_source_filing_id = none;
  filing_title = none;
  fiscal_year = none;
  fiscal_period = none;
  period_start = none;
  period_end = none;
  statement_scope = none;
  quality_status = "pass";
  provenance = none;
}

report_accepted : validate_filing report ≡ ok tt
unfolding validate_filing check some_blank some_naive mem_text str_eq strip
report_accepted = refl

abbrev digest : String
digest = "0123456789abcdef0123456789abcdef0123456789abcdef0123456789abcdef"

abbrev base_rate : MacroSeriesDefinition
base_rate = record {
  series_contract_id = "series";
  version = "1";
  definition_hash = digest;
  source_id = "source.bok-ecos";
  provider_series_id = "722Y001";
  source_owner = "BOK";
  source_license_class = "open";
  region = "KR";
  concept = "base rate";
  native_frequency = "daily";
  native_unit = "percent";
  seasonal_adjustment = "none";
  vintage_capability = "observed-content";
  publication_cadence = "daily";
  expected_lag = "1d";
  history_start = "1999";
  rights_note = "attribution";
  attribution = "BOK";
  permitted_consumers = "profile" ∷ [];
  transform_policy = "none";
  activation_state = "inactive";
  valid_from = 0;
}

abbrev missing_rate : MacroObservationRevision
missing_rate = record {
  series_contract_id = "series";
  series_contract_version = "1";
  definition_hash = digest;
  observation_period = "2026-01-05";
  revision_kind = "observed_content";
  revision_key = "key";
  native_value = none;
  missing_reason = some "holiday";
  native_unit = "percent";
  native_frequency = "daily";
  seasonal_adjustment = "none";
  knowledge_at = noon;
  fetched_at = noon;
  request_id = "r1";
  partition_key = "p1";
  content_hash = digest;
  rights_status = "allowed";
  quality_status = "missing";
  source_realtime_start = none;
  source_realtime_end = none;
  source_available_at = none;
  source_time_precision = none;
  pipeline_run_id = none;
  provenance = none;
}
