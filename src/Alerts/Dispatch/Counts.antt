-- ===== src/Alerts/Dispatch/Counts.antt =====
-- What a claim counts, and that a claim, an expiry and a report keep the count.
use mathlib.Core.Path.{◌∙◌, sym, ap, subst}
use kis_portfolio_mcp.Common.{
  ℕ, ◌+◌, ◌≤◌, ◌≡◌, refl, String, Bool, true, false, not, ◌&&◌, ◌||◌, Option, none, some, List, [],
  ◌∷◌, Result, str_eq, str_eq_iff, leb, ◌==◌, if◌then◌else◌, if_cases, arith, any,
}
use kis_portfolio_mcp.Common.Dict.{Dict, get, put, get-put, text_key}
use kis_portfolio_mcp.Alerts.Dispatch.Rows.{
  ClaimStatus, claimed, retryable, completed, unknown, permanent_failure, DeliveryOutcome, sent,
  retryable_failure, permanently_failed, outcome_unknown, status_after, is_claimed, is_retryable,
  DispatchRow, AttemptRow, Ledger, DispatchError, DispatchClaim, ClaimRequest, AttemptReport,
}
use kis_portfolio_mcp.Alerts.Dispatch.Guards.{is_telegram}
use kis_portfolio_mcp.Alerts.Dispatch.{
  expired_row, expired_rows, leased, leased_again, can_retry, lease_on, commit_attempt, attempt_on,
}

abbrev is_sent : DeliveryOutcome → Bool
is_sent sent = true
is_sent _ = false

abbrev one_if : Bool → ℕ
one_if true = 1
one_if false = 0

-- The attempts of a dispatch, and those that were sent.
abbrev pub attempts_of : String → List AttemptRow → ℕ
attempts_of id [] = 0
attempts_of id (a ∷ as_) = one_if (str_eq a.dispatch_id id) + attempts_of id as_

abbrev pub sent_of : String → List AttemptRow → ℕ
sent_of id [] = 0
sent_of id (a ∷ as_) = one_if (str_eq a.dispatch_id id && is_sent a.outcome) + sent_of id as_

-- Each attempt of the dispatch has the next number.
abbrev pub Numbered : String → List AttemptRow → Type 0
Numbered id [] = Unit
Numbered id (a ∷ as_) =
    (str_eq a.dispatch_id id ≡ true → a.attempt_no ≡ attempts_of id as_ + 1) × Numbered id as_

abbrev is_completed : ClaimStatus → Bool
is_completed completed = true
is_completed _ = false

-- The claim counts the attempts, and is completed once a message was sent.
abbrev pub Counts : String → List AttemptRow → Option DispatchRow → Type 0
Counts id attempts none = attempts_of id attempts ≡ 0
Counts id attempts (some r) =
    (attempts_of id attempts ≡ r.attempt_count)
    × (sent_of id attempts ≤ one_if (is_completed r.claim_status))

abbrev pub IsDelivered : String → Ledger → Type 0
IsDelivered id l = Counts id l.attempts (get id l.claims) × Numbered id l.attempts

sent_le : (id : String) (attempts : List AttemptRow) → sent_of id attempts ≤ attempts_of id attempts
sent_le id [] = omega arith
sent_le id (a ∷ as_) = ground (arith, sent_le id as_)

pub sent_at_most_once :
    (id : String) (attempts : List AttemptRow) (o : Option DispatchRow)
    → Counts id attempts o
    → sent_of id attempts ≤ 1
sent_at_most_once id attempts none h = let l = sent_le id attempts in omega arith
sent_at_most_once id attempts (some r) (_, h) = ground arith

-- The row of another dispatch is put.
Counts-put :
    (id other : String) (row : DispatchRow) (attempts : List AttemptRow)
    (d : Dict String DispatchRow)
    → Counts id attempts (get id d)
    → (str_eq other id ≡ true → Counts id attempts (some row))
    → Counts id attempts (get id (put other row d))
Counts-put id other row attempts d h f =
    subst (λ o. Counts id attempts o) (sym (get-put other id row d))
      (if_cases (Counts id attempts) (str_eq other id) _ _ f (λ _. h))

-- A claim that can be taken or reported on is not completed.
open_status :
    (s : ClaimStatus) → (is_claimed s || is_retryable s) ≡ true → one_if (is_completed s) ≡ 0
open_status claimed h = refl
open_status retryable h = refl
open_status completed h = cc
open_status unknown h = refl
open_status permanent_failure h = refl

expired_row-Counts :
    (id : String) (as_of : ℕ) (attempts : List AttemptRow) (r : DispatchRow)
    → Counts id attempts (some r)
    → Counts id attempts (some (expired_row as_of r))
expired_row-Counts id as_of attempts r h =
    if_cases (λ (x : DispatchRow). Counts id attempts (some x))
      (is_telegram r.channel && is_claimed r.claim_status && leb r.lease_expires_at as_of) _ _
      (λ e.
        let none_sent = open_status r.claim_status (ground arith) in
        let bound = h.1 in (h.0, omega arith))
      (λ _. h)

pub expired_rows-Counts :
    (id : String) (as_of : ℕ) (attempts : List AttemptRow) (d : Dict String DispatchRow)
    → Counts id attempts (get id d)
    → Counts id attempts (get id (expired_rows as_of d))
unfolding expired_rows get
expired_rows-Counts id as_of attempts [] h = h
expired_rows-Counts id as_of attempts ((k, r) ∷ d) h =
    if_cases
      (λ o.
        Counts id attempts o
        → Counts id attempts
            (if str_eq k id then some (expired_row as_of r) else get id (expired_rows as_of d)))
      (str_eq k id) _ _ (λ e c. rw e (expired_row-Counts id as_of attempts r c))
      (λ e c. rw e (expired_rows-Counts id as_of attempts d c)) h

module _ (digest : String → String) where
  can_retry_open :
      (q : ClaimRequest) (r : DispatchRow)
      → can_retry digest q r ≡ true
      → one_if (is_completed r.claim_status) ≡ 0
  can_retry_open q r h = open_status r.claim_status (ground arith)

  pub leased_row-Counts :
      (id : String) (q : ClaimRequest) (o : Option DispatchRow) (l : Ledger)
      → get id l.claims ≡ o
      → (dispatch : String) → IsDelivered dispatch l
      → IsDelivered dispatch (lease_on digest id q o l).1
  unfolding lease_on
  leased_row-Counts id q none l e dispatch (c, n) = (
    Counts-put dispatch id (leased digest q 0) l.attempts l.claims c (λ same.
        let none_there : attempts_of dispatch l.attempts ≡ 0 =
          subst (λ o. Counts dispatch l.attempts o)
            (ap (λ k. get k l.claims) (sym ((str_eq_iff id dispatch).0 same)) ∙ e) c in
        let bound = sent_le dispatch l.attempts in (none_there, omega arith)),
    n,
  )
  leased_row-Counts id q (some r) l e dispatch (c, n) =
      if_cases (λ (x : DispatchClaim × Ledger). IsDelivered dispatch x.1) (can_retry digest q r) _ _
        (λ again. (
          Counts-put dispatch id (leased_again digest q r) l.attempts l.claims c (λ same.
              let (count, bound) : Counts dispatch l.attempts (some r) =
                subst (λ o. Counts dispatch l.attempts o)
                  (ap (λ k. get k l.claims) (sym ((str_eq_iff id dispatch).0 same)) ∙ e) c in
              let none_sent = can_retry_open q r again in (count, omega arith)),
          n,
        ))
        (λ _. (c, n))

  status_after-sent : (o : DeliveryOutcome) → is_completed (status_after o) ≡ is_sent o
  status_after-sent sent = refl
  status_after-sent retryable_failure = refl
  status_after-sent permanently_failed = refl
  status_after-sent outcome_unknown = refl

  -- An attempt of another dispatch does not count.
  other_attempt-Counts :
      (id : String) (a : AttemptRow) (attempts : List AttemptRow) (o : Option DispatchRow)
      → str_eq a.dispatch_id id ≡ false
      → Counts id attempts o
      → Counts id (a ∷ attempts) o
  other_attempt-Counts id a attempts none e c = rw e (omega arith)
  other_attempt-Counts id a attempts (some r) e (c, b) = (rw e (omega arith), rw e (omega arith))

  -- An attempt on an open claim.
  new_attempt-Counts :
      (id : String) (a : AttemptRow) (attempts : List AttemptRow) (r r' : DispatchRow)
      → str_eq a.dispatch_id id ≡ true
      → one_if (is_completed r.claim_status) ≡ 0
      → r'.claim_status ≡ status_after a.outcome
      → r'.attempt_count ≡ r.attempt_count + 1
      → Counts id attempts (some r)
      → Counts id (a ∷ attempts) (some r')
  new_attempt-Counts id a attempts r r' e none_sent status count (c, b) =
      let this : one_if (str_eq a.dispatch_id id) ≡ 1 = ap one_if e in
      let sent_now : one_if (str_eq a.dispatch_id id && is_sent a.outcome)
          ≡ one_if (is_completed r'.claim_status) =
        ap (λ x. one_if (x && is_sent a.outcome)) e
        ∙ sym
            (ap (λ x. one_if (is_completed x)) status ∙ ap one_if (status_after-sent a.outcome)) in
      (omega arith, omega arith)

  commit_attempt-IsDelivered :
      (id : String) (a : AttemptRow) (r r' : DispatchRow) (l : Ledger)
      → get a.dispatch_id l.claims ≡ some r
      → one_if (is_completed r.claim_status) ≡ 0
      → r'.claim_status ≡ status_after a.outcome
      → r'.attempt_count ≡ r.attempt_count + 1
      → a.attempt_no ≡ r.attempt_count + 1
      → IsDelivered id l
      → IsDelivered id (commit_attempt digest a r' l).1
  unfolding commit_attempt
  commit_attempt-IsDelivered id a r r' l there none_sent status count number (c, n) =
      let of_row : str_eq a.dispatch_id id ≡ true → Counts id l.attempts (some r) = λ same.
        subst (λ o. Counts id l.attempts o)
          (ap (λ k. get k l.claims) (sym ((str_eq_iff a.dispatch_id id).0 same)) ∙ there) c in
      if_cases (λ (x : Result DispatchError String × Ledger). IsDelivered id x.1)
        (any
          (λ (b : AttemptRow).
            str_eq b.attempt_id a.attempt_id
            || (str_eq b.dispatch_id a.dispatch_id && b.attempt_no == a.attempt_no))
          l.attempts)
        _ _ (λ _. (c, n))
        (λ _. (
          subst (λ o. Counts id (a ∷ l.attempts) o) (sym (get-put a.dispatch_id id r' l.claims))
              (if_cases (Counts id (a ∷ l.attempts)) (str_eq a.dispatch_id id) _ _
                (λ same.
                  new_attempt-Counts id a l.attempts r r' same none_sent status count (of_row same))
                (λ other. other_attempt-Counts id a l.attempts _ other c)),
          ((λ same. number ∙ sym (ap (λ k. k + 1) (of_row same).0)), n),
        ))

  pub attempt_on-IsDelivered :
      (attempt_hash : String → ℕ → String) (id : String) (a : AttemptReport)
      (o : Option DispatchRow) (l : Ledger)
      → get a.dispatch_id l.claims ≡ o
      → IsDelivered id l
      → IsDelivered id (attempt_on digest attempt_hash a o l).1
  unfolding attempt_on
  attempt_on-IsDelivered attempt_hash id a none l e h = h
  attempt_on-IsDelivered attempt_hash id a (some r) l e h =
      if_cases (λ (x : Result DispatchError String × Ledger). IsDelivered id x.1)
        (not (is_claimed r.claim_status)
          || not (str_eq r.lease_token_digest (digest a.lease_token)))
        _ _ (λ _. h)
        (λ owned.
          commit_attempt-IsDelivered id _ r _ l e (open_status r.claim_status (ground arith)) refl
            refl refl h)
