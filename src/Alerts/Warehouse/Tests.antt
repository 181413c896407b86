-- ===== src/Alerts/Warehouse/Tests.antt =====
-- An alert that is watched and is raised to a warning, on the tables of the warehouse.
use kis_portfolio_mcp.Common.{
  zero, suc, ℕ, lacks, String, join, true, false, some, none, [], ◌∷◌, ok, ◌≡◌, refl, str_eq,
}
use kis_portfolio_mcp.Common.Dict.{get, put}
use kis_portfolio_mcp.Alerts.Python.{Document, hash}
use kis_portfolio_mcp.Alerts.Candidates.{AlertCandidate, severity_rank}
use kis_portfolio_mcp.Alerts.Transition.{entered, decide_alert_transition, rank, reaches, step}
use kis_portfolio_mcp.Alerts.Warehouse.{
  transitioned, Tables, RevisionRow, StateWrite, latest, current_state, register_rule,
  write_candidate, write_transition, write_decision, process, apply_candidate, commit_revision,
  put_outcome, revision_id, nothing_written, same_document, same_evaluation,
}
use kis_portfolio_mcp.Alerts.Warehouse.Process.{Moves}
use kis_portfolio_mcp.Alerts.Warehouse.Refines.{applied_state, apply_candidate-Moves}
use kis_portfolio_mcp.Alerts.Warehouse.History.{IsHistory, IsPlain, Undisturbed}
use kis_portfolio_mcp.Alerts.Warehouse.Races.{apply_candidate-Undisturbed}
use kis_portfolio_mcp.Alerts.Warehouse.Replay.{apply_candidate_again}
use kis_portfolio_mcp.Alerts.Tests.{py, candidate, raised}

abbrev context_text : Document → String
context_text d = "{}"

-- The revision that began to watch the alert.
abbrev watched : RevisionRow
watched = record {
  state_revision_id = "r1";
  alert_identity = "i";
  transition = record {
    transition_type = entered;
    revision = 1;
    episode = 1;
    prior_state = none;
    current_state = "active";
    prior_severity = none;
    current_severity = "watch";
    delivery_required = false;
    delivery_severity = "watch";
  };
  state_fingerprint = "g";
  candidate_id = "c0";
  knowledge_at = 8;
}

abbrev before : Tables
before = record { rules = []; candidates = []; revisions = watched ∷ []; outcomes = [] }

abbrev pub after : Tables
after = (apply_candidate py context_text (candidate "warning") before).1

abbrev escalation : StateWrite
escalation = record { transition = some raised; inserted = true }

applied : apply_candidate py context_text (candidate "warning") before ≡ (ok escalation, after)
unfolding apply_candidate write_candidate register_rule get put process write_decision
    write_transition commit_revision put_outcome current_state latest decide_alert_transition rank
    severity_rank str_eq step kis_portfolio_mcp.Alerts.Transition.is_unchanged same_document
    same_evaluation hash join
applied = refl

apply_candidate-Moves_example :
    Moves
      (candidate "warning")
      (applied_state py context_text (candidate "warning") before)
      before
      after
apply_candidate-Moves_example =
    apply_candidate-Moves py context_text (candidate "warning") before after escalation applied

apply_candidate_again_example :
    apply_candidate py context_text (candidate "warning") after ≡ (nothing_written, after)
apply_candidate_again_example =
    apply_candidate_again py context_text (candidate "warning") before after escalation applied

-- The candidate of the first revision.
abbrev first_candidate : AlertCandidate
first_candidate = record (candidate "watch") { candidate_id = "c0" }

abbrev history : Tables
history = record {
  rules = [];
  candidates = [];
  revisions =
      record watched {
        state_revision_id = revision_id py first_candidate watched.transition;
        candidate_id = "c0";
      }
      ∷ [];
  outcomes =
      (
        "c0",
        record {
          outcome_type = transitioned;
          state_revision_id = some (revision_id py first_candidate watched.transition);
          evaluated_against_revision = 0;
          processed_at = 8;
        },
      )
      ∷ [];
}

history-IsHistory : IsHistory py history
unfolding get str_eq lacks
history-IsHistory = ((refl, (first_candidate, watched.transition, (refl, refl), refl, refl)), tt)

candidate-IsPlain : IsPlain (candidate "warning")
unfolding lacks
candidate-IsPlain = (refl, refl)

numbers_plain : (n : ℕ) → lacks b'|' (py.show_number n) ≡ true
unfolding lacks
numbers_plain zero = refl
numbers_plain (suc zero) = refl
numbers_plain (suc (suc n)) = refl

apply_candidate-Undisturbed_example :
    Undisturbed py (apply_candidate py context_text (candidate "warning") history)
apply_candidate-Undisturbed_example =
    apply_candidate-Undisturbed py context_text (candidate "warning") history (λ x y e. e)
      numbers_plain candidate-IsPlain history-IsHistory
