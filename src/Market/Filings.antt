-- ===== src/Market/Filings.antt =====
-- modules/market/filings.py: the records of filings and their validators, but for that of artifacts,
-- which asks `PurePosixPath` for the parts of a path. The test of a digit is a parameter.
pub mod Sourced
use kis_portfolio_mcp.Common.{
  ℕ, String, Bool, true, false, not, ◌&&◌, ◌||◌, Option, none, some, List, [], ◌∷◌, mem_text,
  str_eq, Result, leb, ltb, ◌==◌, length, all,
}
use kis_portfolio_mcp.Common.Int.{ℤ}
use kis_portfolio_mcp.Alerts.Python.{Moment, Document}
use kis_portfolio_mcp.Alerts.Redaction.{codes}
use kis_portfolio_mcp.Market.Guards.{
  check, outside, some_blank, some_naive, is_none, absent, earlier,
}

-- `FILING_SOURCES`
abbrev pub filing_sources : List String
filing_sources = "source.opendart" ∷ "source.sec-edgar" ∷ []

-- `JURISDICTIONS`
abbrev pub filing_jurisdictions : List String
filing_jurisdictions = "KR" ∷ "US" ∷ []

-- `SOURCE_TIME_PRECISIONS`
abbrev pub source_time_precisions : List String
source_time_precisions = "day" ∷ "second" ∷ []

-- `RELATION_TYPES`
abbrev pub relation_types : List String
relation_types = "none" ∷ "amends" ∷ "corrects" ∷ "withdraws" ∷ []

-- `RELATION_QUALITIES`
abbrev pub relation_qualities : List String
relation_qualities = "not_applicable" ∷ "candidate" ∷ "unresolved" ∷ "verified" ∷ []

-- `ALIAS_QUALITIES`
abbrev pub alias_qualities : List String
alias_qualities = "verified" ∷ "ambiguous" ∷ "missing" ∷ "superseded" ∷ []

-- `QUALITY_STATUSES`
abbrev pub filing_quality_statuses : List String
filing_quality_statuses = "pass" ∷ "partial" ∷ "quarantined" ∷ "failed" ∷ []

-- `PERIOD_TYPES`
abbrev pub period_types : List String
period_types = "instant" ∷ "duration" ∷ []

-- `IssuerAliasRevision`
pub record IssuerAliasRevision : Type 0 where
  pub issuer_id : String
  pub source_id : String
  pub jurisdiction : String
  pub alias_type : String
  pub alias_value : String
  pub source_valid_from : Moment
  pub observed_at : Moment
  pub knowledge_at : Moment
  pub relation_quality : String
  pub market : Option String
  pub exchange_code : Option String
  pub source_valid_to : Option Moment
  pub provenance : Option Document

-- `FilingRevision`
pub record FilingRevision : Type 0 where
  pub source_id : String
  pub jurisdiction : String
  pub source_filing_id : String
  pub issuer_id : String
  pub content_hash : String
  pub form_type : String
  pub source_url : String
  pub raw_object_hash : String
  pub source_available_at : Moment
  pub source_time_precision : String
  pub first_observed_at : Moment
  pub fetched_at : Moment
  pub knowledge_at : Moment
  pub parser_id : String
  pub parser_version : String
  pub relation_type : String
  pub relation_quality : String
  pub target_source_filing_id : Option String
  pub filing_title : Option String
  pub fiscal_year : Option ℕ
  pub fiscal_period : Option String
  pub period_start : Option ℕ
  pub period_end : Option ℕ
  pub statement_scope : Option String
  pub quality_status : String
  pub provenance : Option Document

-- `FinancialFactRevision`
pub record FinancialFactRevision : Type 0 where
  pub taxonomy : String
  pub concept : String
  pub period_end : ℕ
  pub period_type : String
  pub unit : String
  pub statement_scope : String
  pub dimension_hash : String
  pub raw_lexical_value : String
  pub source_available_at : Moment
  pub knowledge_at : Moment
  pub period_start : Option ℕ
  pub typed_value : Option ℤ
  pub decimals_value : Option ℕ
  pub scale_value : Option ℕ
  pub quality_status : String
  pub provenance : Option Document

abbrev aware_list : Option Moment → List Moment → List Moment
aware_list none ms = ms
aware_list (some m) ms = m ∷ ms

abbrev ends_before : Option Moment → Moment → Bool
ends_before none start = false
ends_before (some m) start = leb m.instant start.instant

-- `len(value) != digits or not value.isdigit()`
abbrev pub not_digits : (ℕ → Bool) → ℕ → String → Bool
not_digits is_digit digits value =
    not (length (codes value) == digits) || not (all is_digit (codes value))

-- `validate_alias`
unfoldable pub validate_alias : (ℕ → Bool) → IssuerAliasRevision → Result String (Unit {0})
validate_alias is_digit v = check (
    (outside filing_sources v.source_id, "issuer alias requires an approved filing source")
    ∷ (outside filing_jurisdictions v.jurisdiction, "unsupported filing jurisdiction")
    ∷ (outside alias_qualities v.relation_quality, "unsupported issuer alias quality")
    ∷ (
      some_blank (v.issuer_id ∷ v.alias_type ∷ v.alias_value ∷ []),
      "issuer alias identity fields are required",
    )
    ∷ (
      some_naive (
          aware_list v.source_valid_to (v.source_valid_from ∷ v.observed_at ∷ v.knowledge_at ∷ [])),
      "filing timestamps must be timezone-aware",
    )
    ∷ (
      ends_before v.source_valid_to v.source_valid_from,
      "issuer alias validity interval must advance",
    )
    ∷ (earlier v.knowledge_at v.observed_at, "issuer alias knowledge_at cannot precede observation")
    ∷ (
      str_eq v.source_id "source.opendart"
          && str_eq v.alias_type "corp_code"
          && not_digits is_digit 8 v.alias_value,
      "OpenDART corp_code must be eight digits",
    )
    ∷ (
      str_eq v.source_id "source.sec-edgar"
          && str_eq v.alias_type "cik"
          && not_digits is_digit 10 v.alias_value,
      "SEC CIK must be zero-padded to ten digits",
    )
    ∷ [])

-- `validate_filing`
unfoldable pub validate_filing : FilingRevision → Result String (Unit {0})
validate_filing v = check (
    (outside filing_sources v.source_id, "filing requires an approved official source")
    ∷ (outside filing_jurisdictions v.jurisdiction, "unsupported filing jurisdiction")
    ∷ (
      outside source_time_precisions v.source_time_precision,
      "unsupported source timestamp precision",
    )
    ∷ (outside relation_types v.relation_type, "unsupported filing relation type")
    ∷ (outside relation_qualities v.relation_quality, "unsupported filing relation quality")
    ∷ (outside filing_quality_statuses v.quality_status, "unsupported filing quality status")
    ∷ (
      some_blank (
          v.source_filing_id ∷ v.issuer_id ∷ v.content_hash ∷ v.form_type ∷ v.source_url
          ∷ v.raw_object_hash ∷ v.parser_id ∷ v.parser_version ∷ []),
      "filing identity, object, parser and source fields are required",
    )
    ∷ (
      not (str_eq v.content_hash v.raw_object_hash),
      "filing content hash must match the governed raw object",
    )
    ∷ (
      str_eq v.relation_quality "verified" && absent v.target_source_filing_id,
      "verified filing relation requires an explicit target",
    )
    ∷ (
      str_eq v.relation_type "none" && not (absent v.target_source_filing_id),
      "unrelated filing cannot declare a correction target",
    )
    ∷ (
      some_naive (v.source_available_at ∷ v.first_observed_at ∷ v.fetched_at ∷ v.knowledge_at ∷ []),
      "filing timestamps must be timezone-aware",
    )
    ∷ (
      earlier v.knowledge_at v.first_observed_at || earlier v.fetched_at v.first_observed_at,
      "filing knowledge and fetch times cannot precede first observation",
    )
    ∷ [])

abbrev starts_after : Option ℕ → ℕ → Bool
starts_after none end = false
starts_after (some start) end = ltb end start

-- `validate_fact`
unfoldable pub validate_fact : FinancialFactRevision → Result String (Unit {0})
validate_fact v = check (
    (outside period_types v.period_type, "financial fact period_type must be instant or duration")
    ∷ (
      outside filing_quality_statuses v.quality_status,
      "unsupported financial fact quality status",
    )
    ∷ (
      some_blank (
          v.taxonomy ∷ v.concept ∷ v.unit ∷ v.statement_scope ∷ v.dimension_hash
          ∷ v.raw_lexical_value ∷ []),
      "financial fact source identity and lexical value are required",
    )
    ∷ (
      str_eq v.period_type "duration" && is_none v.period_start,
      "duration fact requires period_start",
    )
    ∷ (
      str_eq v.period_type "instant" && not (is_none v.period_start),
      "instant fact must not declare period_start",
    )
    ∷ (starts_after v.period_start v.period_end, "financial fact period must be ordered")
    ∷ (
      some_naive (v.source_available_at ∷ v.knowledge_at ∷ []),
      "filing timestamps must be timezone-aware",
    )
    ∷ [])
