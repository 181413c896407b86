-- ===== src/Alerts/Dispatch.antt =====
-- The delivery claims of adapters/outbound/alert_warehouse.py: `claim_dispatch`, the expiry of claims in
-- `eligible_telegram_dispatches`, and `record_attempt`. Hashes and the latest decisions of the owner are
-- parameters.
pub mod Rows
pub mod Guards
pub mod Counts
pub mod Delivered
mod Tests
use kis_portfolio_mcp.Common.{
  ℕ, ◌+◌, String, Bool, true, false, not, ◌&&◌, ◌||◌, Option, none, some, List, [], ◌∷◌, Result, ok,
  err, ◌>>=◌, ◌>>◌, raise_if, str_eq, leb, ltb, ◌==◌, if◌then◌else◌, any, all, length, mem_text,
}
use kis_portfolio_mcp.Common.Dict.{Dict, get, put, text_key, pair_key}
use kis_portfolio_mcp.Alerts.Python.{Runtime}
use kis_portfolio_mcp.Alerts.Redaction.{codes, validate_opaque_code}
use kis_portfolio_mcp.Alerts.Rules.{AlertRuleVersion}
use kis_portfolio_mcp.Alerts.Transition.{AlertTransition}
use kis_portfolio_mcp.Alerts.Warehouse.{Tables, CandidateRow, RevisionRow}
use kis_portfolio_mcp.Alerts.Dispatch.Rows.{
  ClaimStatus, claimed, retryable, completed, unknown, permanent_failure, DeliveryOutcome, sent,
  retryable_failure, permanently_failed, outcome_unknown, status_after, is_claimed, is_retryable,
  DispatchRow, AttemptRow, Ledger, DispatchError, code_not_opaque, lease_not_bounded, not_eligible,
  rule_not_valid, unsupported_channel, external_mode_not_active, rule_not_active, not_approved,
  shadow_mode_not_active, completion_before_start, error_code_not_bounded, claim_not_owned,
  attempt_taken, DispatchClaim, ClaimRequest, AttemptReport,
}
use kis_portfolio_mcp.Alerts.Dispatch.Guards.{delivery_of, is_telegram, claimable, check_report}

-- An expired lease of the external channel: nobody knows whether its message was sent.
abbrev pub expired_row : ℕ → DispatchRow → DispatchRow
expired_row as_of r =
    if is_telegram r.channel && is_claimed r.claim_status && leb r.lease_expires_at as_of
    then record r {
      claim_status = unknown;
      last_error_code = some "CLAIM_EXPIRED_UNKNOWN";
      updated_at = as_of;
    }
    else r

unfoldable pub expired_rows : ℕ → Dict String DispatchRow → Dict String DispatchRow
expired_rows as_of [] = []
expired_rows as_of ((id, r) ∷ rows) = (id, expired_row as_of r) ∷ expired_rows as_of rows

-- The update that `eligible_telegram_dispatches` begins with.
unfoldable pub expire_claims : ℕ → Ledger → Ledger
expire_claims as_of l = record l { claims = expired_rows as_of l.claims }

module _ (digest : String → String) where
  abbrev pub hashed : Option String → Option String
  hashed none = none
  hashed (some s) = if str_eq s "" then none else some (digest s)

  -- The row of a new lease.
  abbrev pub leased : ClaimRequest → ℕ → DispatchRow
  leased q attempts = record {
    candidate_id = q.candidate_id;
    channel = q.channel;
    destination_ref = q.destination_ref;
    claim_status = claimed;
    claimant_id = q.claimant_id;
    lease_token_digest = digest q.lease_token;
    lease_expires_at = q.claimed_at + q.lease_seconds;
    attempt_count = attempts;
    last_error_code = none;
    updated_at = q.claimed_at;
  }

  -- The same dispatch, leased again: the `UPDATE` of `claim_dispatch`
  abbrev pub leased_again : ClaimRequest → DispatchRow → DispatchRow
  leased_again q r = record r {
    claim_status = claimed;
    claimant_id = q.claimant_id;
    lease_token_digest = digest q.lease_token;
    lease_expires_at = q.claimed_at + q.lease_seconds;
    last_error_code = none;
    updated_at = q.claimed_at;
  }

  -- `retryable`
  abbrev pub can_retry : ClaimRequest → DispatchRow → Bool
  can_retry q r =
      is_retryable r.claim_status
      || (not (is_telegram q.channel)
          && is_claimed r.claim_status
          && leb r.lease_expires_at q.claimed_at)

  -- The claim of a dispatch, for the row that is there.
  unfoldable pub lease_on :
      String → ClaimRequest → Option DispatchRow → Ledger → DispatchClaim × Ledger
  lease_on id q none l = (
    record { dispatch_id = id; acquired = true; status = claimed; attempt_count = 0 },
    record l { claims = put id (leased q 0) l.claims },
  )
  lease_on id q (some r) l =
      if can_retry q r
      then (
        record {
          dispatch_id = id;
          acquired = true;
          status = claimed;
          attempt_count = r.attempt_count;
        },
        record l { claims = put id (leased_again q r) l.claims },
      )
      else (
        record {
          dispatch_id = id;
          acquired = false;
          status = r.claim_status;
          attempt_count = r.attempt_count;
        },
        l,
      )

  abbrev pub leased_if :
      Result DispatchError (Unit {0})
      → DispatchClaim × Ledger
      → Ledger
      → Result DispatchError DispatchClaim × Ledger
  leased_if (err e) leased l = (err e, l)
  leased_if (ok u) (c, l') l = (ok c, l')

  -- The attempt and the status of its claim, in one transaction: a number that is taken undoes it.
  unfoldable pub commit_attempt :
      AttemptRow → DispatchRow → Ledger → Result DispatchError String × Ledger
  commit_attempt a r l =
      if any
        (λ (b : AttemptRow).
          str_eq b.attempt_id a.attempt_id
          || (str_eq b.dispatch_id a.dispatch_id && b.attempt_no == a.attempt_no))
        l.attempts
      then (err attempt_taken, l)
      else (
        ok a.attempt_id,
        record { claims = put a.dispatch_id r l.claims; attempts = a ∷ l.attempts },
      )

  -- `claim_dispatch`
  unfoldable pub claim_dispatch :
      Runtime
      → (String → String → String → String)
      → Dict (String × String) String
      → ClaimRequest
      → Tables
      → Ledger
      → Result DispatchError DispatchClaim × Ledger
  claim_dispatch py dispatch_hash decisions q w l =
      let id = dispatch_hash q.candidate_id q.channel q.destination_ref in
      leased_if (claimable py decisions q (delivery_of q.candidate_id w))
        (lease_on id q (get id l.claims) l) l

  -- The claim of a lease that is still out, for the report of an attempt.
  unfoldable pub attempt_on :
      (String → ℕ → String)
      → AttemptReport
      → Option DispatchRow
      → Ledger
      → Result DispatchError String × Ledger
  attempt_on attempt_hash a none l = (err claim_not_owned, l)
  attempt_on attempt_hash a (some r) l =
      if not (is_claimed r.claim_status) || not (str_eq r.lease_token_digest (digest a.lease_token))
      then (err claim_not_owned, l)
      else commit_attempt
          (record {
            attempt_id = attempt_hash a.dispatch_id (r.attempt_count + 1);
            dispatch_id = a.dispatch_id;
            attempt_no = r.attempt_count + 1;
            outcome = a.outcome;
            started_at = a.started_at;
            completed_at = a.completed_at;
            response_ref_hash = hashed a.response_ref;
            error_code = a.error_code;
          })
          (record r {
            claim_status = status_after a.outcome;
            attempt_count = r.attempt_count + 1;
            last_error_code = a.error_code;
            updated_at = a.completed_at;
          })
          l

  abbrev pub reported :
      Result DispatchError (Unit {0})
      → Result DispatchError String × Ledger
      → Ledger
      → Result DispatchError String × Ledger
  reported (err e) after l = (err e, l)
  reported (ok u) after l = after

  -- `record_attempt`
  unfoldable pub record_attempt :
      (String → ℕ → String) → AttemptReport → Ledger → Result DispatchError String × Ledger
  record_attempt attempt_hash a l =
      reported (check_report a) (attempt_on attempt_hash a (get a.dispatch_id l.claims) l) l
