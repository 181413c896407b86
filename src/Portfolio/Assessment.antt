-- ===== src/Portfolio/Assessment.antt =====
-- `assess_reconstruction` of modules/portfolio/reconstruction.py: a replay is held against the
-- broker's position, and what is missing or ambiguous fails closed.
use kis_portfolio_mcp.Common.{
  String, Bool, true, false, not, none, some, List, [], ◌∷◌, ◌++◌, Result, ok, ◌>>=◌, ◌>>◌,
  raise_if, if◌then◌else◌, is_empty, stripped_set, ◌≡◌, ◌≢◌, ◌↔◌, ◌⊎◌, arith,
}
use kis_portfolio_mcp.Common.Int.{ℤ, pos, ◌-ℤ◌, ◌+ℤ◌, ◌≤ℤ◌, ltb_ℤ}
use kis_portfolio_mcp.Portfolio.Contract.{
  EvidenceProvenance, CorporateActionCoverage, pass, ReconstructionStatus, Refusal, Number, finite,
  decimal, current_quantity_negative, ReconstructionAssessment,
}

abbrev is_fail : CorporateActionCoverage → Bool
is_fail CorporateActionCoverage.fail = true
is_fail _ = false

abbrev is_not_assessed : CorporateActionCoverage → Bool
is_not_assessed CorporateActionCoverage.not_assessed = true
is_not_assessed _ = false

-- An assessment without provenance, which is never eligible.
abbrev blocked : ReconstructionStatus → ℤ → ℤ → List String → ReconstructionAssessment
blocked status current replayed blockers = record {
  status = status;
  current_quantity = current;
  replayed_quantity = replayed;
  inferred_opening_quantity = none;
  evidence_provenance = none;
  blockers = blockers;
  eligible_for_reconciled_projection = false;
}

-- The list `blockers` that the function builds first.
unfoldable pub exception_blockers : ℤ → CorporateActionCoverage → Bool → List String
exception_blockers residual coverage ambiguous =
    (if ambiguous then "ambiguous_event_order" ∷ [] else [])
    ++ ((if ltb_ℤ residual (pos 0) then "replay_exceeds_current_position" ∷ [] else [])
        ++ (if is_fail coverage then "corporate_action_coverage_failed" ∷ [] else []))

-- The part of `assess_reconstruction` after its checks, on the stripped gap reasons.
unfoldable pub classify :
    ℤ → ℤ → CorporateActionCoverage → List String → Bool → ReconstructionAssessment
unfolding exception_blockers ◌-ℤ◌
classify current replayed coverage gaps ambiguous =
    let residual = current -ℤ replayed in
    let blockers = exception_blockers residual coverage ambiguous in
    if not (is_empty blockers)
    then blocked ReconstructionStatus.reconciliation_exception current replayed blockers
    else if is_not_assessed coverage
    then blocked ReconstructionStatus.not_assessed current replayed
        ("corporate_action_coverage_not_assessed" ∷ [])
    else if not (is_empty gaps)
    then blocked ReconstructionStatus.provisional current replayed gaps
    else if ltb_ℤ (pos 0) residual
    then record {
      status = ReconstructionStatus.inferred_opening;
      current_quantity = current;
      replayed_quantity = replayed;
      inferred_opening_quantity = some residual;
      evidence_provenance = some EvidenceProvenance.inferred_opening;
      blockers = [];
      eligible_for_reconciled_projection = true;
    }
    else record {
      status = ReconstructionStatus.reconstructed;
      current_quantity = current;
      replayed_quantity = replayed;
      inferred_opening_quantity = none;
      evidence_provenance = some EvidenceProvenance.actual;
      blockers = [];
      eligible_for_reconciled_projection = true;
    }

unfoldable pub assess_reconstruction :
    Number
    → Number
    → CorporateActionCoverage
    → List String
    → Bool
    → Result Refusal ReconstructionAssessment
unfolding classify decimal
assess_reconstruction current_quantity replayed_quantity coverage source_gap_reasons ambiguous = do
  current ← decimal current_quantity
  replayed ← decimal replayed_quantity
  raise_if (ltb_ℤ current (pos 0)) current_quantity_negative
  ok (classify current replayed coverage (stripped_set source_gap_reasons) ambiguous)

-- What the source's contract asks of a replay before it may be projected.
pub record IsClean (current replayed : ℤ) (coverage : CorporateActionCoverage) (gaps : List String)
    (ambiguous : Bool) : Type 0 where
  pub ordered : ambiguous ≡ false
  pub covered : coverage ≡ pass
  pub no_gap : gaps ≡ []
  pub within : replayed ≤ℤ current

abbrev IsReady : ReconstructionAssessment → Type 0
IsReady a = a.eligible_for_reconciled_projection ≡ true

classify-ready :
    (current replayed : ℤ) (coverage : CorporateActionCoverage) (gaps : List String)
    (ambiguous : Bool)
    → IsReady (classify current replayed coverage gaps ambiguous)
    → IsClean current replayed coverage gaps ambiguous
unfolding classify
classify-ready current replayed coverage gaps ambiguous h = ground arith

classify_clean :
    (current replayed : ℤ) (coverage : CorporateActionCoverage) (gaps : List String)
    (ambiguous : Bool)
    → IsClean current replayed coverage gaps ambiguous
    → IsReady (classify current replayed coverage gaps ambiguous)
unfolding classify
classify_clean current replayed coverage gaps ambiguous h = ground arith

-- A finite, non-negative position is always assessed; the assessment is eligible for the reconciled
-- projection exactly when the event order is unambiguous, corporate-action coverage passes, no
-- source gap remains after blank reasons are dropped, and the replay does not exceed the position.
pub assess_reconstruction-eligible :
    (current replayed : ℤ) (coverage : CorporateActionCoverage) (reasons : List String)
    (ambiguous : Bool)
    → pos 0 ≤ℤ current
    → (a : ReconstructionAssessment) × (assess_reconstruction
          (finite current)
          (finite replayed)
          coverage
          reasons
          ambiguous
        ≡ ok a)
      × ((a.eligible_for_reconciled_projection ≡ true)
          ↔ IsClean current replayed coverage (stripped_set reasons) ambiguous)
unfolding assess_reconstruction
assess_reconstruction-eligible current replayed coverage reasons ambiguous h = (
  classify current replayed coverage (stripped_set reasons) ambiguous,
  ground arith,
  (
    classify-ready current replayed coverage (stripped_set reasons) ambiguous,
    classify_clean current replayed coverage (stripped_set reasons) ambiguous,
  ),
)

abbrev pub opening_of : ReconstructionAssessment → ℤ
opening_of a = elim a.inferred_opening_quantity [ none ↦ pos 0 | some q ↦ q ]

-- The two ways an assessment may end.
abbrev pub Accounts : ReconstructionAssessment → Type 0
Accounts a =
    ((a.eligible_for_reconciled_projection ≡ true)
      × (a.blockers ≡ [])
      × (a.replayed_quantity +ℤ opening_of a ≡ a.current_quantity))
    ⊎ ((a.eligible_for_reconciled_projection ≡ false)
        × (a.blockers ≢ [])
        × (a.inferred_opening_quantity ≡ none)
        × (a.evidence_provenance ≡ none))

classify-Accounts :
    (current replayed : ℤ) (coverage : CorporateActionCoverage) (gaps : List String)
    (ambiguous : Bool)
    → Accounts (classify current replayed coverage gaps ambiguous)
unfolding classify ◌+ℤ◌
classify-Accounts current replayed coverage gaps ambiguous = ground arith

-- Whatever is assessed: an eligible assessment has no blocker, and its replayed quantity with the
-- inferred opening (zero if there is none) is exactly the broker's quantity; one that is not
-- eligible names a blocker and carries neither an inferred quantity nor a provenance.
pub assess_reconstruction-Accounts :
    (current replayed : Number) (coverage : CorporateActionCoverage) (reasons : List String)
    (ambiguous : Bool) {a : ReconstructionAssessment}
    → assess_reconstruction current replayed coverage reasons ambiguous ≡ ok a
    → Accounts a
unfolding assess_reconstruction
assess_reconstruction-Accounts (finite c) (finite r) coverage reasons ambiguous {a} h =
    let same : classify c r coverage (stripped_set reasons) ambiguous ≡ a = ground arith in
    rw same at (classify-Accounts c r coverage (stripped_set reasons) ambiguous)
assess_reconstruction-Accounts (finite c) _ coverage reasons ambiguous h = cc
assess_reconstruction-Accounts _ replayed coverage reasons ambiguous h = cc
