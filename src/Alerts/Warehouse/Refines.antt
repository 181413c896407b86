-- ===== src/Alerts/Warehouse/Refines.antt =====
-- The stored history of an alert implements the state machine: what is read back after a candidate is
-- the state that the decision leaves.
use mathlib.Core.Path.{◌∙◌, ap, subst}
use kis_portfolio_mcp.Common.{
  ◌≡◌, refl, String, not, Option, none, some, List, Result, ok, err, str_eq, if◌then◌else◌,
  if_cases, any,
}
use kis_portfolio_mcp.Common.Dict.{Dict, get, pair_key, text_key}
use kis_portfolio_mcp.Alerts.Python.{Runtime, Document}
use kis_portfolio_mcp.Alerts.Rules.{AlertRuleVersion}
use kis_portfolio_mcp.Alerts.Candidates.{AlertCandidate}
use kis_portfolio_mcp.Alerts.Transition.{CurrentAlertState}
use kis_portfolio_mcp.Alerts.Warehouse.{
  Tables, WarehouseError, RevisionRow, Outcome, StateWrite, CandidateWrite, latest, state_of,
  current_state, is_kept, process_on, registered, write_on, register_on, register_rule,
  write_candidate, written, apply_candidate, CandidateRow, same_document, same_evaluation,
  candidate_document,
}
use kis_portfolio_mcp.Alerts.Warehouse.Process.{next_state, Moves, Moved, process-Moved}

module _ (py : Runtime) (json : Document → String) where
  -- What a refused or accepted write of the candidate leaves as it was.
  abbrev Keeps : Tables → Result WarehouseError CandidateWrite × Tables → Type 0
  Keeps w (r, w') = (w'.revisions ≡ w.revisions) × (w'.outcomes ≡ w.outcomes)

  write_on-Keeps :
      (c : AlertCandidate) (o : Option CandidateRow) (w v : Tables)
      → v.revisions ≡ w.revisions
      → v.outcomes ≡ w.outcomes
      → Keeps w (write_on py json c o v)
  write_on-Keeps c (some prior) w v a b =
      if_cases (Keeps w) (not (same_document prior (candidate_document py json c))) _ _
        (λ _. (a, b)) (λ _. (a, b))
  write_on-Keeps c none w v a b =
      if_cases (Keeps w)
        (any (λ (row : String × CandidateRow). same_evaluation row.1 (candidate_document py json c))
          v.candidates)
        _ _ (λ _. (a, b)) (λ _. (a, b))

  registered-Keeps :
      (c : AlertCandidate) (r : Result WarehouseError (Unit {0})) (w v : Tables)
      → v.revisions ≡ w.revisions
      → v.outcomes ≡ w.outcomes
      → Keeps w (registered py json c (r, v))
  registered-Keeps c (err e) w v a b = (a, b)
  registered-Keeps c (ok u) w v a b = write_on-Keeps c (get c.candidate_id v.candidates) w v a b

  register_on-Keeps :
      (c : AlertCandidate) (prior : Option AlertRuleVersion) (w : Tables)
      → Keeps w (registered py json c (register_on c.rule prior w))
  register_on-Keeps c none w =
      let (r, v) = register_on c.rule none w in registered-Keeps c r w v refl refl
  register_on-Keeps c (some prior) w =
      if_cases (λ (x : Result WarehouseError (Unit {0}) × Tables). Keeps w (registered py json c x))
        (not (str_eq prior.definition_hash c.rule.definition_hash)) _ _ (λ _. (refl, refl))
        (λ _. registered-Keeps c (ok tt) w w refl refl)

  pub write_candidate-Keeps :
      (c : AlertCandidate) (w : Tables) → Keeps w (write_candidate py json c w)
  unfolding write_candidate register_rule
  write_candidate-Keeps c w = register_on-Keeps c (get (c.rule.rule_id, c.rule.version) w.rules) w

  -- The same tables of states and outcomes, before the candidate is processed.
  Moved-same :
      (c : AlertCandidate) (n : Option CurrentAlertState) (w v : Tables)
      (x : Result WarehouseError StateWrite × Tables)
      → v.revisions ≡ w.revisions
      → Moved c n v x
      → Moved c n w x
  unfolding current_state
  Moved-same c n w v (err e, w') a m = tt
  Moved-same c n w v (ok x, w') a (now, others, kept) =
      (now, (λ other h. others other h ∙ ap (λ rs. state_of (latest other rs)) a), kept)

  -- The state of the candidate's alert after it is applied.
  abbrev pub applied_state : AlertCandidate → Tables → Option CurrentAlertState
  applied_state c w =
      let current = current_state c.alert_identity w in
      if is_kept (get c.candidate_id w.outcomes) then current else next_state py c current

  process_on-Moved :
      (c : AlertCandidate) (o : Option Outcome) (w : Tables)
      → get c.candidate_id w.outcomes ≡ o
      → Moved c
          (if is_kept o
            then current_state c.alert_identity w
            else next_state py c (current_state c.alert_identity w))
          w
          (process_on py json c o w)
  process_on-Moved c none w e = process-Moved py json c w
  process_on-Moved c (some o) w e = (refl, (λ other h. refl), ap (λ x. is_kept x) e)

  written-Moved :
      (c : AlertCandidate) (w : Tables) (x : Result WarehouseError CandidateWrite × Tables)
      → Keeps w x
      → Moved c (applied_state c w) w (written py json c x)
  unfolding current_state
  written-Moved c w (err e, v) k = tt
  written-Moved c w (ok r, v) (a, b) =
      let o = get c.candidate_id v.outcomes in
      let same : applied_state c v ≡ applied_state c w =
        ap
          (λ (y : List RevisionRow × Dict String Outcome).
            applied_state c (record v { revisions = y.0; outcomes = y.1 }))
          (λ i. (a i, b i)) in
      Moved-same c _ w v _ a
        (subst (λ n. Moved c n v (process_on py json c o v)) same (process_on-Moved c o v refl))

  -- Refinement: the tables implement the state machine. A candidate that is applied leaves its alert in
  -- the state that the decision gives from the one read before, or in that one, if the candidate is
  -- late, decides nothing or has its outcome already; it leaves every other alert as it was; and it
  -- has its outcome then.
  pub apply_candidate-Moves :
      (c : AlertCandidate) (w w' : Tables) (x : StateWrite)
      → apply_candidate py json c w ≡ (ok x, w')
      → Moves c (applied_state c w) w w'
  unfolding apply_candidate
  apply_candidate-Moves c w w' x h =
      subst (λ y. Moved c (applied_state c w) w y) h
        (written-Moved c w (write_candidate py json c w) (write_candidate-Keeps c w))
