-- ===== src/Alerts/Warehouse/Replay.antt =====
-- A candidate that is applied again changes nothing.
use mathlib.Core.Path.{◌∙◌, sym, ap, subst}
use kis_portfolio_mcp.Common.{
  ℕ, ◌-◌, ◌||◌, ◌≡◌, refl, String, true, false, not, Option, none, some, Result, ok, err, str_eq,
  str_eq_refl, ◌==◌, if_cases, arith, any,
}
use kis_portfolio_mcp.Common.Dict.{Dict, get, get-put_self, text_key, pair_key}
use kis_portfolio_mcp.Alerts.Python.{Runtime, Document}
use kis_portfolio_mcp.Alerts.Rules.{AlertError, AlertRuleVersion}
use kis_portfolio_mcp.Alerts.Candidates.{AlertCandidate}
use kis_portfolio_mcp.Alerts.Transition.{
  CurrentAlertState, AlertTransition, decide_alert_transition,
}
use kis_portfolio_mcp.Alerts.Warehouse.{
  Tables, WarehouseError, CandidateRow, RevisionRow, Outcome, StateWrite, CandidateWrite, is_kept,
  clashes, put_outcome, commit_revision, after_commit, write_transition, write_decision, process,
  process_on, registered, write_on, register_on, register_rule, write_candidate, written,
  apply_candidate, same_document, same_evaluation, candidate_document, revision_of, current_state,
  nothing_written, is_late,
}
use kis_portfolio_mcp.Alerts.Warehouse.Refines.{apply_candidate-Moves}

same_number : (n : ℕ) → (n == n) ≡ true
same_number n = ground arith

same_document_refl : (a : CandidateRow) → same_document a a ≡ true
unfolding same_document
same_document_refl a = simp (str_eq_refl, same_number)

module _ (py : Runtime) (json : Document → String) where
  -- The rule is on record with the same definition.
  abbrev KnowsRule : AlertCandidate → Dict (String × String) AlertRuleVersion → Type 0
  KnowsRule c rules =
      (rule : AlertRuleVersion) × (get (c.rule.rule_id, c.rule.version) rules ≡ some rule)
      × (str_eq rule.definition_hash c.rule.definition_hash ≡ true)

  -- The candidate is on record with the same document.
  abbrev KnowsCandidate : AlertCandidate → Dict String CandidateRow → Type 0
  KnowsCandidate c rows =
      (row : CandidateRow) × (get c.candidate_id rows ≡ some row)
      × (same_document row (candidate_document py json c) ≡ true)

  abbrev Written : AlertCandidate → Result WarehouseError CandidateWrite × Tables → Type 0
  Written c (err e, w) = Unit
  Written c (ok r, w) = KnowsRule c w.rules × KnowsCandidate c w.candidates

  write_on-Written :
      (c : AlertCandidate) (o : Option CandidateRow) (w : Tables)
      → get c.candidate_id w.candidates ≡ o
      → KnowsRule c w.rules
      → Written c (write_on py json c o w)
  write_on-Written c (some prior) w e k =
      if_cases (Written c) (not (same_document prior (candidate_document py json c))) _ _ (λ _. tt)
        (λ same. (k, (prior, e, ground arith)))
  write_on-Written c none w e k =
      if_cases (Written c)
        (any (λ (row : String × CandidateRow). same_evaluation row.1 (candidate_document py json c))
          w.candidates)
        _ _ (λ _. tt)
        (λ _. (
          k,
          (
            candidate_document py json c,
            get-put_self c.candidate_id _ w.candidates,
            same_document_refl _,
          ),
        ))

  register_on-Written :
      (c : AlertCandidate) (prior : Option AlertRuleVersion) (w : Tables)
      → get (c.rule.rule_id, c.rule.version) w.rules ≡ prior
      → Written c (registered py json c (register_on c.rule prior w))
  register_on-Written c none w e =
      let (r, v) = register_on c.rule none w in
      write_on-Written c (get c.candidate_id v.candidates) v refl
        (c.rule, get-put_self (c.rule.rule_id, c.rule.version) c.rule w.rules, str_eq_refl _)
  register_on-Written c (some prior) w e =
      if_cases
        (λ (x : Result WarehouseError (Unit {0}) × Tables). Written c (registered py json c x))
        (not (str_eq prior.definition_hash c.rule.definition_hash)) _ _ (λ _. tt)
        (λ same.
          write_on-Written c (get c.candidate_id w.candidates) w refl (prior, e, ground arith))

  write_candidate-Written :
      (c : AlertCandidate) (w : Tables) → Written c (write_candidate py json c w)
  unfolding write_candidate register_rule
  write_candidate-Written c w =
      register_on-Written c (get (c.rule.rule_id, c.rule.version) w.rules) w refl

  process_on_kept :
      (c : AlertCandidate) (o : Option Outcome) (w : Tables)
      → is_kept o ≡ true
      → process_on py json c o w ≡ (nothing_written, w)
  process_on_kept c none w h = cc
  process_on_kept c (some o) w h = refl

  -- The tables of rules and candidates are those of before.
  abbrev Leaves : Tables → Result WarehouseError StateWrite × Tables → Type 0
  Leaves w (r, v) = (v.rules ≡ w.rules) × (v.candidates ≡ w.candidates)

  after_commit-Leaves :
      (t : AlertTransition) (r : RevisionRow) (o : Outcome) (w : Tables)
      → Leaves w (after_commit t (commit_revision r o w))
  unfolding commit_revision put_outcome
  after_commit-Leaves t r o w =
      if_cases (λ x. Leaves w (after_commit t x))
        (any (clashes r) w.revisions || is_kept (get r.candidate_id w.outcomes)) _ _
        (λ _. (refl, refl)) (λ _. (refl, refl))

  write_decision-Leaves :
      (c : AlertCandidate) (current : Option CurrentAlertState)
      (d : Result AlertError (Option AlertTransition)) (w : Tables)
      → Leaves w (write_decision py json c current d w)
  unfolding write_decision write_transition put_outcome
  write_decision-Leaves c current (err e) w = (refl, refl)
  write_decision-Leaves c current (ok none) w = (refl, refl)
  write_decision-Leaves c current (ok (some t)) w =
      if_cases (Leaves w) (not (revision_of (current_state c.alert_identity w) == t.revision - 1)) _
        _ (λ _. (refl, refl)) (λ _. after_commit-Leaves t _ _ w)

  process_on-Leaves :
      (c : AlertCandidate) (o : Option Outcome) (w : Tables) → Leaves w (process_on py json c o w)
  unfolding process put_outcome
  process_on-Leaves c (some o) w = (refl, refl)
  process_on-Leaves c none w =
      let current = current_state c.alert_identity w in
      if_cases (Leaves w) (is_late c.evaluation.evaluation_at.instant current) _ _
        (λ _. (refl, refl))
        (λ _. write_decision-Leaves c current (decide_alert_transition py c current) w)

  -- A candidate that is on record with its outcome.
  abbrev OnRecord : AlertCandidate → Result WarehouseError StateWrite × Tables → Type 0
  OnRecord c (err e, w) = Unit
  OnRecord c (ok x, w) = KnowsRule c w.rules × KnowsCandidate c w.candidates

  written-OnRecord :
      (c : AlertCandidate) (x : Result WarehouseError CandidateWrite × Tables)
      → Written c x
      → OnRecord c (written py json c x)
  written-OnRecord c (err e, w) h = tt
  written-OnRecord c (ok r, w) (rule, row) =
      kept (process_on py json c (get c.candidate_id w.outcomes) w)
        (process_on-Leaves c (get c.candidate_id w.outcomes) w)
    where
      kept : (y : Result WarehouseError StateWrite × Tables) → Leaves w y → OnRecord c y
      kept (err e, v) l = tt
      kept (ok z, v) (rules, rows) = (
        subst (λ d. KnowsRule c d) (sym rules) rule,
        subst (λ d. KnowsCandidate c d) (sym rows) row,
      )

  -- A candidate on record is not written again.
  write_candidate_known :
      (c : AlertCandidate) (w : Tables)
      → KnowsRule c w.rules
      → KnowsCandidate c w.candidates
      → write_candidate py json c w
        ≡ (ok (record { candidate_id = c.candidate_id; inserted = false }), w)
  unfolding write_candidate register_rule
  write_candidate_known c w (rule, e, same) (row, f, document) = rw (e, same, f, document) refl

  -- Replay: a candidate that was applied without an error is applied again without one, and neither the
  -- tables nor the alert change: no second transition is reported, so none is delivered.
  pub apply_candidate_again :
      (c : AlertCandidate) (w w' : Tables) (x : StateWrite)
      → apply_candidate py json c w ≡ (ok x, w')
      → apply_candidate py json c w' ≡ (nothing_written, w')
  unfolding apply_candidate
  apply_candidate_again c w w' x h =
      let (_, _, kept) = apply_candidate-Moves py json c w w' x h in
      let (rule, row) : KnowsRule c w'.rules × KnowsCandidate c w'.candidates =
        subst (λ y. OnRecord c y) h
          (written-OnRecord c (write_candidate py json c w) (write_candidate-Written c w)) in
      ap (λ y. written py json c y) (write_candidate_known c w' rule row)
      ∙ process_on_kept c (get c.candidate_id w'.outcomes) w' kept
