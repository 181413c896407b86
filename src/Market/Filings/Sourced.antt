-- ===== src/Market/Filings/Sourced.antt =====
-- What an accepted filing rests on.
use kis_portfolio_mcp.Common.{◌≡◌, true, false, ok, ◌≤◌, arith, mem_text, str_eq, str_eq_iff}
use kis_portfolio_mcp.Market.Guards.{check-passes, absent}
use kis_portfolio_mcp.Market.Filings.{FilingRevision, validate_filing, filing_sources}

-- A filing that is accepted comes from an approved source, has the hash of its raw object, names a
-- target when its relation is verified and none when it has no relation, and is neither fetched nor
-- known before it was first observed.
pub validate_filing-sourced :
    (v : FilingRevision)
    → validate_filing v ≡ ok tt
    → (mem_text v.source_id filing_sources ≡ true)
      × (v.content_hash ≡ v.raw_object_hash)
      × (str_eq v.relation_quality "verified" ≡ true → absent v.target_source_filing_id ≡ false)
      × (str_eq v.relation_type "none" ≡ true → absent v.target_source_filing_id ≡ true)
      × (v.first_observed_at.instant ≤ v.knowledge_at.instant)
      × (v.first_observed_at.instant ≤ v.fetched_at.instant)
unfolding validate_filing
validate_filing-sourced v h =
    let (source, (_, (_, (_, (_, (_, (_, (hash, (verified, (unrelated, (_, (times, _)))))))))))) =
      check-passes _ h in
    (
      ground arith,
      (str_eq_iff v.content_hash v.raw_object_hash).0 (ground arith),
      (λ e. ground arith),
      (λ e. ground arith),
      ground arith,
      ground arith,
    )
