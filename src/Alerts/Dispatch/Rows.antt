-- ===== src/Alerts/Dispatch/Rows.antt =====
-- The rows of the delivery claims and attempts, and the arguments and errors of their operations.
use kis_portfolio_mcp.Common.{ℕ, String, Bool, true, false, Option, List}
use kis_portfolio_mcp.Common.Dict.{Dict, text_key, pair_key}

pub data ClaimStatus : Type 0 where
  claimed retryable completed unknown permanent_failure : ClaimStatus

pub data DeliveryOutcome : Type 0 where
  sent retryable_failure permanently_failed outcome_unknown : DeliveryOutcome

-- `statuses[outcome]`
abbrev pub status_after : DeliveryOutcome → ClaimStatus
status_after sent = completed
status_after retryable_failure = retryable
status_after permanently_failed = permanent_failure
status_after outcome_unknown = unknown

abbrev pub is_claimed : ClaimStatus → Bool
is_claimed claimed = true
is_claimed _ = false

abbrev pub is_retryable : ClaimStatus → Bool
is_retryable retryable = true
is_retryable _ = false

-- A row of `control.alert_dispatch_claims`
pub record DispatchRow : Type 0 where
  pub candidate_id : String
  pub channel : String
  pub destination_ref : String
  pub claim_status : ClaimStatus
  pub claimant_id : String
  pub lease_token_digest : String
  pub lease_expires_at : ℕ
  pub attempt_count : ℕ
  pub last_error_code : Option String
  pub updated_at : ℕ

-- A row of `control.alert_delivery_attempts`
pub record AttemptRow : Type 0 where
  pub attempt_id : String
  pub dispatch_id : String
  pub attempt_no : ℕ
  pub outcome : DeliveryOutcome
  pub started_at : ℕ
  pub completed_at : ℕ
  pub response_ref_hash : Option String
  pub error_code : Option String

-- The claims, and the attempts with the newest first.
pub record Ledger : Type 0 where
  pub claims : Dict String DispatchRow
  pub attempts : List AttemptRow

pub data DispatchError : Type 0 where
  code_not_opaque lease_not_bounded not_eligible rule_not_valid unsupported_channel : DispatchError
  external_mode_not_active rule_not_active not_approved shadow_mode_not_active : DispatchError
  completion_before_start error_code_not_bounded claim_not_owned attempt_taken : DispatchError

-- `DispatchClaim`
pub record DispatchClaim : Type 0 where
  pub dispatch_id : String
  pub acquired : Bool
  pub status : ClaimStatus
  pub attempt_count : ℕ

-- The arguments of `claim_dispatch`
pub record ClaimRequest : Type 0 where
  pub candidate_id : String
  pub channel : String
  pub destination_ref : String
  pub claimant_id : String
  pub lease_token : String
  pub claimed_at : ℕ
  pub lease_seconds : ℕ

-- The arguments of `record_attempt`
pub record AttemptReport : Type 0 where
  pub dispatch_id : String
  pub lease_token : String
  pub outcome : DeliveryOutcome
  pub started_at : ℕ
  pub completed_at : ℕ
  pub response_ref : Option String
  pub error_code : Option String
