-- ===== src/Alerts/Warehouse.antt =====
-- `AlertWarehouseRepository` of adapters/outbound/alert_warehouse.py, on its tables: rules,
-- candidates, state revisions and outcomes. A table is the list of its rows, its unique keys are tests
-- before an insert, and a statement is one step. The checks of single columns, which the values keep
-- that modules/monitoring/alerts.py accepts, are left out, and so are the times of recording.
pub mod Rows
pub mod Process
pub mod Refines
pub mod Replay
pub mod History
pub mod Races
pub mod Tests
use kis_portfolio_mcp.Common.{
  ℕ, ◌+◌, ◌-◌, String, Bool, true, false, not, ◌&&◌, ◌||◌, Option, none, some, List, [], ◌∷◌,
  Result, ok, err, str_eq, leb, ltb, ◌==◌, if◌then◌else◌, any,
}
use kis_portfolio_mcp.Common.Dict.{Dict, get, put, text_key, pair_key}
use kis_portfolio_mcp.Alerts.Python.{Runtime, Document, hash}
use kis_portfolio_mcp.Alerts.Rules.{AlertError, AlertRuleVersion}
use kis_portfolio_mcp.Alerts.Candidates.{AlertEvaluation, AlertCandidate}
use kis_portfolio_mcp.Alerts.Transition.{
  CurrentAlertState, AlertTransition, type_text, decide_alert_transition,
}
pub use kis_portfolio_mcp.Alerts.Warehouse.Rows.{
  CandidateRow, RevisionRow, OutcomeType, Outcome, Tables, WarehouseError, CandidateWrite,
  StateWrite, transitioned, no_change, suppressed_quality, out_of_order, rule_changed,
  candidate_changed, evaluation_key_taken, revision_changed, claim_lost, refused_candidate,
}

abbrev pub register_on :
    AlertRuleVersion → Option AlertRuleVersion → Tables → Result WarehouseError (Unit {0}) × Tables
register_on rule none w =
    (ok tt, record w { rules = put (rule.rule_id, rule.version) rule w.rules })
register_on rule (some prior) w =
    if not (str_eq prior.definition_hash rule.definition_hash)
    then (err rule_changed, w)
    else (ok tt, w)

-- `register_rule`
unfoldable pub register_rule : AlertRuleVersion → Tables → Result WarehouseError (Unit {0}) × Tables
register_rule rule w = register_on rule (get (rule.rule_id, rule.version) w.rules) w

-- `normalized == expected`
unfoldable pub same_document : CandidateRow → CandidateRow → Bool
same_document a b =
    str_eq a.alert_identity b.alert_identity
    && str_eq a.rule_id b.rule_id
    && str_eq a.rule_version b.rule_version
    && str_eq a.subject_type b.subject_type
    && str_eq a.subject_id b.subject_id
    && a.evaluation_date == b.evaluation_date
    && str_eq a.evaluation_slot b.evaluation_slot
    && str_eq a.session_key b.session_key
    && a.evaluation_at == b.evaluation_at
    && str_eq a.signal_state b.signal_state
    && str_eq a.severity b.severity
    && str_eq a.state_fingerprint b.state_fingerprint
    && str_eq a.quality_status b.quality_status
    && str_eq a.input_lineage_hash b.input_lineage_hash
    && str_eq a.public_context b.public_context
    && str_eq a.evaluation_run_id b.evaluation_run_id

-- The logical key of an evaluation, which is unique.
unfoldable pub same_evaluation : CandidateRow → CandidateRow → Bool
same_evaluation a b =
    str_eq a.rule_id b.rule_id
    && str_eq a.rule_version b.rule_version
    && str_eq a.subject_type b.subject_type
    && str_eq a.subject_id b.subject_id
    && str_eq a.session_key b.session_key
    && str_eq a.evaluation_slot b.evaluation_slot

-- The later of two revisions of an alert.
abbrev pub later_of : RevisionRow → Option RevisionRow → RevisionRow
later_of r none = r
later_of r (some q) = if ltb r.transition.revision q.transition.revision then q else r

-- The view `control.alert_states_current`, for one alert
unfoldable pub latest : String → List RevisionRow → Option RevisionRow
latest identity [] = none
latest identity (r ∷ rs) =
    let rest = latest identity rs in
    if str_eq r.alert_identity identity then some (later_of r rest) else rest

abbrev pub state_of : Option RevisionRow → Option CurrentAlertState
state_of none = none
state_of (some r) = some (record {
  revision = r.transition.revision;
  episode = r.transition.episode;
  current_state = r.transition.current_state;
  current_severity = r.transition.current_severity;
  state_fingerprint = r.state_fingerprint;
  knowledge_at = some r.knowledge_at;
})

-- `current_state`
unfoldable pub current_state : String → Tables → Option CurrentAlertState
current_state identity w = state_of (latest identity w.revisions)

abbrev pub revision_of : Option CurrentAlertState → ℕ
revision_of none = 0
revision_of (some s) = s.revision

-- `candidate.evaluation.evaluation_at <= current.knowledge_at`, where both are there
abbrev pub is_late : ℕ → Option CurrentAlertState → Bool
is_late at none = false
is_late at (some s) = elim s.knowledge_at [ none ↦ false | some known ↦ leb at known ]

-- A row breaks a unique key of the revisions.
abbrev pub clashes : RevisionRow → RevisionRow → Bool
clashes new old =
    str_eq old.state_revision_id new.state_revision_id
    || (str_eq old.alert_identity new.alert_identity
        && old.transition.revision == new.transition.revision)
    || str_eq old.candidate_id new.candidate_id

abbrev pub is_kept : Option Outcome → Bool
is_kept none = false
is_kept (some o) = true

-- `INSERT INTO control.alert_candidate_outcomes`
unfoldable pub put_outcome : String → Outcome → Tables → Tables
put_outcome candidate_id o w = record w { outcomes = put candidate_id o w.outcomes }

-- The transaction of a state revision and its outcome: both or, if a unique key is broken, none.
unfoldable pub commit_revision :
    RevisionRow → Outcome → Tables → Result WarehouseError (Unit {0}) × Tables
commit_revision r o w =
    if any (clashes r) w.revisions || is_kept (get r.candidate_id w.outcomes)
    then (err claim_lost, w)
    else (ok tt, put_outcome r.candidate_id o (record w { revisions = r ∷ w.revisions }))

-- The result of the transaction.
abbrev pub after_commit :
    AlertTransition
    → Result WarehouseError (Unit {0}) × Tables
    → Result WarehouseError StateWrite × Tables
after_commit t (err e, w) = (err e, w)
after_commit t (ok u, w) = (ok (record { transition = some t; inserted = true }), w)

abbrev pub nothing_written : Result WarehouseError StateWrite
nothing_written = ok (record { transition = none; inserted = false })

-- An outcome without a transition.
abbrev pub without_transition :
    AlertCandidate → OutcomeType → Option CurrentAlertState → Tables → Tables
without_transition c kind current w =
    put_outcome c.candidate_id
      (record {
        outcome_type = kind;
        state_revision_id = none;
        evaluated_against_revision = revision_of current;
        processed_at = c.evaluation.evaluation_at.instant;
      })
      w

-- What the id of a state revision is a hash of.
abbrev pub revision_parts : Runtime → AlertCandidate → AlertTransition → List String
revision_parts py c t =
    "alert-state-revision-v1"
    ∷ c.alert_identity
    ∷ py.show_number t.revision
    ∷ c.candidate_id
    ∷ type_text t.transition_type
    ∷ []

-- `revision_id`, which is `_hash` of its parts
abbrev pub revision_id : Runtime → AlertCandidate → AlertTransition → String
revision_id py c t = hash py (revision_parts py c t)

module _ (py : Runtime) (json : Document → String) where
  -- `_candidate_document`
  abbrev pub candidate_document : AlertCandidate → CandidateRow
  candidate_document c = record {
    alert_identity = c.alert_identity;
    rule_id = c.rule.rule_id;
    rule_version = c.rule.version;
    subject_type = c.evaluation.subject_type;
    subject_id = c.evaluation.subject_id;
    evaluation_date = c.evaluation.evaluation_date;
    evaluation_slot = c.evaluation.evaluation_slot;
    session_key = c.evaluation.session_key;
    evaluation_at = c.evaluation.evaluation_at.instant;
    signal_state = c.evaluation.signal_state;
    severity = c.evaluation.severity;
    state_fingerprint = c.state_fingerprint;
    quality_status = c.evaluation.quality_status;
    input_lineage_hash = c.evaluation.input_lineage_hash;
    public_context = json c.evaluation.public_context;
    evaluation_run_id = c.evaluation.evaluation_run_id;
  }

  abbrev pub write_on :
      AlertCandidate → Option CandidateRow → Tables → Result WarehouseError CandidateWrite × Tables
  write_on c (some prior) w =
      if not (same_document prior (candidate_document c))
      then (err candidate_changed, w)
      else (ok (record { candidate_id = c.candidate_id; inserted = false }), w)
  write_on c none w =
      if any (λ (row : String × CandidateRow). same_evaluation row.1 (candidate_document c))
        w.candidates
      then (err evaluation_key_taken, w)
      else (
        ok (record { candidate_id = c.candidate_id; inserted = true }),
        record w { candidates = put c.candidate_id (candidate_document c) w.candidates },
      )

  abbrev pub registered :
      AlertCandidate
      → Result WarehouseError (Unit {0}) × Tables
      → Result WarehouseError CandidateWrite × Tables
  registered c (err e, w) = (err e, w)
  registered c (ok u, w) = write_on c (get c.candidate_id w.candidates) w

  -- `write_candidate`
  unfoldable pub write_candidate :
      AlertCandidate → Tables → Result WarehouseError CandidateWrite × Tables
  write_candidate c w = registered c (register_rule c.rule w)

  -- The state revision of a transition, against the revision that is read again.
  unfoldable pub write_transition :
      AlertCandidate → AlertTransition → Tables → Result WarehouseError StateWrite × Tables
  write_transition c t w =
      if not (revision_of (current_state c.alert_identity w) == t.revision - 1)
      then (err revision_changed, w)
      else after_commit t (
          commit_revision
            (record {
              state_revision_id = revision_id py c t;
              alert_identity = c.alert_identity;
              transition = t;
              state_fingerprint = c.state_fingerprint;
              candidate_id = c.candidate_id;
              knowledge_at = c.evaluation.evaluation_at.instant;
            })
            (record {
              outcome_type = transitioned;
              state_revision_id = some (revision_id py c t);
              evaluated_against_revision = t.revision - 1;
              processed_at = c.evaluation.evaluation_at.instant;
            })
            w)

  -- What is written for a decision.
  unfoldable pub write_decision :
      AlertCandidate
      → Option CurrentAlertState
      → Result AlertError (Option AlertTransition)
      → Tables
      → Result WarehouseError StateWrite × Tables
  write_decision c current (err e) w = (err (refused_candidate e), w)
  write_decision c current (ok none) w = (
    nothing_written,
    without_transition c
        (if not (str_eq c.evaluation.quality_status "pass") then suppressed_quality else no_change)
        current w,
  )
  write_decision c current (ok (some t)) w = write_transition c t w

  -- A candidate that has no outcome yet.
  unfoldable pub process :
      AlertCandidate → Option CurrentAlertState → Tables → Result WarehouseError StateWrite × Tables
  process c current w =
      if is_late c.evaluation.evaluation_at.instant current
      then (nothing_written, without_transition c out_of_order current w)
      else write_decision c current (decide_alert_transition py c current) w

  abbrev pub process_on :
      AlertCandidate → Option Outcome → Tables → Result WarehouseError StateWrite × Tables
  process_on c (some o) w = (nothing_written, w)
  process_on c none w = process c (current_state c.alert_identity w) w

  abbrev pub written :
      AlertCandidate
      → Result WarehouseError CandidateWrite × Tables
      → Result WarehouseError StateWrite × Tables
  written c (err e, w) = (err e, w)
  written c (ok r, w) = process_on c (get c.candidate_id w.outcomes) w

  -- `apply_candidate`
  unfoldable pub apply_candidate :
      AlertCandidate → Tables → Result WarehouseError StateWrite × Tables
  apply_candidate c w = written c (write_candidate c w)
