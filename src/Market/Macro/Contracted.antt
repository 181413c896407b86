-- ===== src/Market/Macro/Contracted.antt =====
-- What an accepted macro observation keeps to.
use kis_portfolio_mcp.Common.{
  ℕ, refl, ◌≡◌, ◌≢◌, ◌⊎◌, Bool, true, false, not, Option, none, some, List, ok, ◌≤◌, strip, length,
  [], ◌∷◌,
}
use mathlib.Core.List.{Memᴰ}
use kis_portfolio_mcp.Alerts.Python.{Moment}
use kis_portfolio_mcp.Alerts.Redaction.{codes}
use kis_portfolio_mcp.Market.Guards.{is_none}
use kis_portfolio_mcp.Market.Macro.{
  MacroObservationRevision, MacroSeriesDefinition, validate_definition,
}

-- An optional time has a time zone.
abbrev pub IsZoned : Option Moment → Type 0
IsZoned none = Unit
IsZoned (some m) = m.is_aware ≡ true

-- An observation keeps to the contract of its series.
pub record IsContracted (v : MacroObservationRevision) (d : MacroSeriesDefinition) : Type 0 where
  pub defined : validate_definition d ≡ ok tt
  pub same_series : v.series_contract_id ≡ d.series_contract_id
  pub same_version : v.series_contract_version ≡ d.version
  pub same_hash : v.definition_hash ≡ d.definition_hash
  pub same_unit : v.native_unit ≡ d.native_unit
  pub same_frequency : v.native_frequency ≡ d.native_frequency
  pub same_adjustment : v.seasonal_adjustment ≡ d.seasonal_adjustment
  pub same_kind :
      ((d.vintage_capability ≡ "provider-vintage") × (v.revision_kind ≡ "provider_vintage"))
      ⊎ ((d.vintage_capability ≢ "provider-vintage") × (v.revision_kind ≡ "observed_content"))
  pub graded :
      Memᴰ v.quality_status
        ("pass" ∷ "partial" ∷ "missing" ∷ "stale" ∷ "rights_blocked" ∷ "failed" ∷ [])
  pub licensed : Memᴰ v.rights_status ("allowed" ∷ "blocked" ∷ [])
  pub period_named : strip v.observation_period ≢ ""
  pub key_named : strip v.revision_key ≢ ""
  pub one_value : is_none v.native_value ≡ not (is_none v.missing_reason)
  pub rights_kept : v.rights_status ≡ "blocked" → v.quality_status ≡ "rights_blocked"
  pub passing_valued : v.quality_status ≡ "pass" → is_none v.native_value ≡ false
  pub known_zoned : v.knowledge_at.is_aware ≡ true
  pub fetched_zoned : v.fetched_at.is_aware ≡ true
  pub available_zoned : IsZoned v.source_available_at
  pub in_time : v.knowledge_at.instant ≤ v.fetched_at.instant
  pub vintage_dated :
      v.revision_kind ≡ "provider_vintage"
      → (start : ℕ) × (end : ℕ) × (v.source_realtime_start ≡ some start)
        × (v.source_realtime_end ≡ some end)
        × (start ≤ end)
  pub content_undated :
      v.revision_kind ≢ "provider_vintage"
      → (v.source_realtime_start ≡ none) × (v.source_realtime_end ≡ none)
  pub hashed : length (codes v.content_hash) ≡ 64

present : {A : Type 0} (o : Option A) → is_none o ≡ false → (a : A) × (o ≡ some a)
present none h = cc
present (some a) h = (a, refl)
