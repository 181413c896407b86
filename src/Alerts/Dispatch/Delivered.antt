-- ===== src/Alerts/Dispatch/Delivered.antt =====
-- A dispatch under any sequence of claims, expiries and reports.
use kis_portfolio_mcp.Common.{ℕ, ◌≤◌, refl, String, List, [], ◌∷◌, Result, ok, err}
use kis_portfolio_mcp.Common.Dict.{Dict, get, text_key}
use kis_portfolio_mcp.Alerts.Python.{Runtime}
use kis_portfolio_mcp.Alerts.Warehouse.{Tables}
use kis_portfolio_mcp.Alerts.Dispatch.Rows.{
  Ledger, DispatchError, DispatchClaim, ClaimRequest, AttemptReport,
}
use kis_portfolio_mcp.Alerts.Dispatch.Guards.{delivery_of, claimable, check_report}
use kis_portfolio_mcp.Alerts.Dispatch.{
  expire_claims, leased_if, claim_dispatch, reported, record_attempt,
}
use kis_portfolio_mcp.Alerts.Dispatch.Counts.{
  Numbered, Counts, IsDelivered, sent_of, sent_at_most_once, expired_rows-Counts, leased_row-Counts,
  attempt_on-IsDelivered,
}

-- A claim, an expiry or a report, by anyone at any time, on whatever candidates, rules and decisions.
pub data Op : Type 0 where
  claim_op : Dict (String × String) String → ClaimRequest → Tables → Op
  expire_op : ℕ → Op
  report_op : AttemptReport → Op

module _ (py : Runtime) (digest : String → String)
    (dispatch_hash : String → String → String → String) (attempt_hash : String → ℕ → String) where
  abbrev pub run_op : Op → Ledger → Ledger
  run_op (claim_op decisions q w) l = (claim_dispatch digest py dispatch_hash decisions q w l).1
  run_op (expire_op as_of) l = expire_claims as_of l
  run_op (report_op a) l = (record_attempt digest attempt_hash a l).1

  unfoldable pub run_ops : List Op → Ledger → Ledger
  run_ops [] l = l
  run_ops (op ∷ ops) l = run_ops ops (run_op op l)

  leased_if-IsDelivered :
      (id : String) (g : Result DispatchError (Unit {0})) (x : DispatchClaim × Ledger) (l : Ledger)
      → IsDelivered id l
      → IsDelivered id x.1
      → IsDelivered id (leased_if digest g x l).1
  leased_if-IsDelivered id (err e) x l h k = h
  leased_if-IsDelivered id (ok u) x l h k = k

  reported-IsDelivered :
      (id : String) (g : Result DispatchError (Unit {0})) (x : Result DispatchError String × Ledger)
      (l : Ledger)
      → IsDelivered id l
      → IsDelivered id x.1
      → IsDelivered id (reported digest g x l).1
  reported-IsDelivered id (err e) x l h k = h
  reported-IsDelivered id (ok u) x l h k = k

  run_op-IsDelivered :
      (id : String) (op : Op) (l : Ledger) → IsDelivered id l → IsDelivered id (run_op op l)
  unfolding claim_dispatch record_attempt expire_claims
  run_op-IsDelivered id (claim_op decisions q w) l h =
      let dispatch = dispatch_hash q.candidate_id q.channel q.destination_ref in
      leased_if-IsDelivered id (claimable py decisions q (delivery_of q.candidate_id w)) _ l h
        (leased_row-Counts digest dispatch q (get dispatch l.claims) l refl id h)
  run_op-IsDelivered id (expire_op as_of) l (c, n) =
      (expired_rows-Counts id as_of l.attempts l.claims c, n)
  run_op-IsDelivered id (report_op a) l h =
      reported-IsDelivered id (check_report a) _ l h
        (attempt_on-IsDelivered digest attempt_hash id a (get a.dispatch_id l.claims) l refl h)

  run_ops-IsDelivered :
      (id : String) (ops : List Op) (l : Ledger) → IsDelivered id l → IsDelivered id (run_ops ops l)
  unfolding run_ops
  run_ops-IsDelivered id [] l h = h
  run_ops-IsDelivered id (op ∷ ops) l h =
      run_ops-IsDelivered id ops (run_op op l) (run_op-IsDelivered id op l h)

  -- A message is sent at most once: whatever claims, expiries and reports are made, in any order, by
  -- anyone, a dispatch has one attempt at most that was sent, its attempts are numbered from one without
  -- a gap, and its claim, where there is one, counts them.
  pub run_ops_sent_once :
      (id : String) (ops : List Op)
      → let l = run_ops ops (record { claims = []; attempts = [] }) in
        (sent_of id l.attempts ≤ 1)
        × Numbered id l.attempts
        × Counts id l.attempts (get id l.claims)
  unfolding get
  run_ops_sent_once id ops =
      let start : Ledger = record { claims = []; attempts = [] } in
      let (c, n) = run_ops-IsDelivered id ops start (refl, tt) in (sent_at_most_once id _ _ c, n, c)
