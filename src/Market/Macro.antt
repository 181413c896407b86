-- ===== src/Market/Macro.antt =====
-- modules/market/macro.py: the series definitions, their observations and the two validators.
pub mod Contracted
use kis_portfolio_mcp.Common.{
  ℕ, String, Bool, true, false, not, ◌&&◌, ◌||◌, Option, none, some, List, [], ◌∷◌, ◌++◌, mem_text,
  str_eq, Result, ltb, ◌==◌, length, is_empty, if◌then◌else◌,
}
use kis_portfolio_mcp.Common.Int.{ℤ}
use kis_portfolio_mcp.Alerts.Python.{Moment, Document}
use kis_portfolio_mcp.Alerts.Redaction.{codes}
use kis_portfolio_mcp.Market.Guards.{check, outside, some_blank, is_none, earlier}

-- `MACRO_SOURCES`
abbrev pub macro_sources : List String
macro_sources = "source.bok-ecos" ∷ "source.fred-alfred" ∷ []

-- `REVISION_KINDS`
abbrev pub revision_kinds : List String
revision_kinds = "provider_vintage" ∷ "observed_content" ∷ []

-- `QUALITY_STATUSES`
abbrev pub macro_quality_statuses : List String
macro_quality_statuses = "pass" ∷ "partial" ∷ "missing" ∷ "stale" ∷ "rights_blocked" ∷ "failed" ∷ []

-- `RIGHTS_STATUSES`
abbrev pub rights_statuses : List String
rights_statuses = "allowed" ∷ "blocked" ∷ []

-- `MacroSeriesDefinition`
pub record MacroSeriesDefinition : Type 0 where
  pub series_contract_id : String
  pub version : String
  pub definition_hash : String
  pub source_id : String
  pub provider_series_id : String
  pub source_owner : String
  pub source_license_class : String
  pub region : String
  pub concept : String
  pub native_frequency : String
  pub native_unit : String
  pub seasonal_adjustment : String
  pub vintage_capability : String
  pub publication_cadence : String
  pub expected_lag : String
  pub history_start : String
  pub rights_note : String
  pub attribution : String
  pub permitted_consumers : List String
  pub transform_policy : String
  pub activation_state : String
  pub valid_from : ℕ

-- `MacroObservationRevision`
pub record MacroObservationRevision : Type 0 where
  pub series_contract_id : String
  pub series_contract_version : String
  pub definition_hash : String
  pub observation_period : String
  pub revision_kind : String
  pub revision_key : String
  pub native_value : Option ℤ
  pub missing_reason : Option String
  pub native_unit : String
  pub native_frequency : String
  pub seasonal_adjustment : String
  pub knowledge_at : Moment
  pub fetched_at : Moment
  pub request_id : String
  pub partition_key : String
  pub content_hash : String
  pub rights_status : String
  pub quality_status : String
  pub source_realtime_start : Option ℕ
  pub source_realtime_end : Option ℕ
  pub source_available_at : Option Moment
  pub source_time_precision : Option String
  pub pipeline_run_id : Option String
  pub provenance : Option Document

-- `len(value) != 64`
abbrev not_sha256 : String → Bool
not_sha256 value = not (length (codes value) == 64)

-- The guards of `validate_definition`
abbrev pub definition_guards : MacroSeriesDefinition → List (Bool × String)
definition_guards v =
    (outside macro_sources v.source_id, "macro definition requires an approved profile source")
    ∷ (
      outside ("provider-vintage" ∷ "observed-content" ∷ []) v.vintage_capability,
      "unsupported macro vintage capability",
    )
    ∷ (
      outside ("inactive" ∷ "production" ∷ []) v.activation_state,
      "unsupported macro activation state",
    )
    ∷ (
      some_blank (
          v.series_contract_id ∷ v.version ∷ v.definition_hash ∷ v.provider_series_id
          ∷ v.source_owner ∷ v.native_frequency ∷ v.native_unit ∷ v.attribution ∷ v.rights_note
          ∷ []),
      "macro definition identity, metadata and rights are required",
    )
    ∷ (not_sha256 v.definition_hash, "macro definition hash must be SHA-256")
    ∷ (is_empty v.permitted_consumers, "macro definition requires a bounded consumer allowlist")
    ∷ []

-- `validate_definition`
unfoldable pub validate_definition : MacroSeriesDefinition → Result String (Unit {0})
validate_definition v = check (definition_guards v)

-- The kind of revision that the capability of a definition asks for.
abbrev pub expected_kind : MacroSeriesDefinition → String
expected_kind d =
    if str_eq d.vintage_capability "provider-vintage"
    then "provider_vintage"
    else "observed_content"

abbrev pub naive_if_some : Option Moment → Bool
naive_if_some none = false
naive_if_some (some m) = not m.is_aware

abbrev pub backwards : Option ℕ → Option ℕ → Bool
backwards (some start) (some end) = ltb end start
backwards _ _ = false

-- The guards of `validate_observation` after those of its definition
abbrev pub observation_guards :
    MacroObservationRevision → MacroSeriesDefinition → List (Bool × String)
observation_guards v d =
    (
      not (str_eq v.series_contract_id d.series_contract_id),
      "macro observation series contract does not match its definition",
    )
    ∷ (
      not (str_eq v.series_contract_version d.version)
          || not (str_eq v.definition_hash d.definition_hash),
      "macro observation definition version or hash mismatch",
    )
    ∷ (outside revision_kinds v.revision_kind, "unsupported macro revision kind")
    ∷ (
      not (str_eq v.revision_kind (expected_kind d)),
      "macro revision kind does not match its source contract",
    )
    ∷ (
      not (str_eq v.native_unit d.native_unit),
      "macro observation native unit differs from the exact registry",
    )
    ∷ (
      not (str_eq v.native_frequency d.native_frequency),
      "macro observation frequency differs from the exact registry",
    )
    ∷ (
      not (str_eq v.seasonal_adjustment d.seasonal_adjustment),
      "macro observation seasonal adjustment differs from the exact registry",
    )
    ∷ (
      outside macro_quality_statuses v.quality_status || outside rights_statuses v.rights_status,
      "unsupported macro quality or rights state",
    )
    ∷ (
      some_blank (v.observation_period ∷ []) || some_blank (v.revision_key ∷ []),
      "macro observation period and revision key are required",
    )
    ∷ (
      (is_none v.native_value && is_none v.missing_reason)
          || (not (is_none v.native_value) && not (is_none v.missing_reason)),
      "macro observation requires exactly one native value or missing marker",
    )
    ∷ (
      str_eq v.rights_status "blocked" && not (str_eq v.quality_status "rights_blocked"),
      "blocked macro rights must fail closed as rights_blocked",
    )
    ∷ (
      str_eq v.quality_status "pass" && is_none v.native_value,
      "passing macro observation requires a native value",
    )
    ∷ (
      not v.knowledge_at.is_aware || not v.fetched_at.is_aware,
      "macro observation timestamps must be timezone-aware",
    )
    ∷ (naive_if_some v.source_available_at, "macro source availability must be timezone-aware")
    ∷ (earlier v.fetched_at v.knowledge_at, "macro knowledge_at cannot follow fetched_at")
    ∷ (
      str_eq v.revision_kind "provider_vintage"
          && (is_none v.source_realtime_start || is_none v.source_realtime_end),
      "provider-vintage observation requires its provider realtime interval",
    )
    ∷ (
      str_eq v.revision_kind "provider_vintage"
          && backwards v.source_realtime_start v.source_realtime_end,
      "macro provider realtime interval must be ordered",
    )
    ∷ (
      not (str_eq v.revision_kind "provider_vintage")
          && (not (is_none v.source_realtime_start) || not (is_none v.source_realtime_end)),
      "ECOS observed-content must not fabricate a provider realtime interval",
    )
    ∷ (not_sha256 v.content_hash, "macro observation content hash must be SHA-256")
    ∷ []

-- `validate_observation`
unfoldable pub validate_observation :
    MacroObservationRevision → MacroSeriesDefinition → Result String (Unit {0})
validate_observation v d = check (definition_guards d ++ observation_guards v d)
