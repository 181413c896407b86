-- ===== src/Alerts/Warehouse/Process.antt =====
-- A candidate without an outcome is processed: the alert moves as the state machine says.
use mathlib.Core.Path.{◌∙◌, sym, ap}
use kis_portfolio_mcp.Common.{
  ◌-◌, ◌≤◌, ◌≡◌, refl, String, true, false, not, ◌||◌, Option, none, some, List, ◌∷◌, Result, ok,
  err, str_eq, str_eq_refl, ◌==◌, if◌then◌else◌, if_cases, arith, any,
}
use kis_portfolio_mcp.Common.Dict.{get, put, pair_key, get-put_self, text_key}
use kis_portfolio_mcp.Alerts.Python.{Runtime, Document}
use kis_portfolio_mcp.Alerts.Rules.{AlertError}
use kis_portfolio_mcp.Alerts.Candidates.{AlertCandidate}
use kis_portfolio_mcp.Alerts.Transition.{
  CurrentAlertState, AlertTransition, decide_alert_transition,
}
use kis_portfolio_mcp.Alerts.Transition.Laws.{recorded}
use kis_portfolio_mcp.Alerts.Warehouse.{
  Tables, WarehouseError, RevisionRow, Outcome, OutcomeType, StateWrite, latest, later_of, state_of,
  current_state, revision_of, is_late, is_kept, clashes, put_outcome, commit_revision, after_commit,
  write_transition, without_transition, write_decision, process, out_of_order,
}

-- The machine: a late candidate, and one that decides nothing, leave the state.
abbrev pub decided :
    AlertCandidate
    → Option CurrentAlertState
    → Result AlertError (Option AlertTransition)
    → Option CurrentAlertState
decided c current (err e) = current
decided c current (ok none) = current
decided c current (ok (some t)) = some (recorded c t)

abbrev pub next_state :
    Runtime → AlertCandidate → Option CurrentAlertState → Option CurrentAlertState
next_state py c current =
    if is_late c.evaluation.evaluation_at.instant current
    then current
    else decided c current (decide_alert_transition py c current)

-- The alert of the candidate is at `next`, the other alerts are where they were, and the candidate has
-- its outcome.
abbrev pub Moves : AlertCandidate → Option CurrentAlertState → Tables → Tables → Type 0
Moves c next w w' =
    (current_state c.alert_identity w' ≡ next)
    × ((other : String)
        → str_eq c.alert_identity other ≡ false
        → current_state other w' ≡ current_state other w)
    × (is_kept (get c.candidate_id w'.outcomes) ≡ true)

abbrev pub Moved :
    AlertCandidate
    → Option CurrentAlertState
    → Tables
    → Result WarehouseError StateWrite × Tables
    → Type 0
Moved c next w (err e, w') = Unit
Moved c next w (ok x, w') = Moves c next w w'

put_outcome-kept :
    (id : String) (o : Outcome) (w : Tables) → is_kept (get id (put_outcome id o w).outcomes) ≡ true
unfolding put_outcome
put_outcome-kept id o w = ap (λ x. is_kept x) (get-put_self id o w.outcomes)

without_transition-Moves :
    (c : AlertCandidate) (kind : OutcomeType) (w : Tables)
    → Moves c
        (current_state c.alert_identity w)
        w
        (without_transition c kind (current_state c.alert_identity w) w)
unfolding put_outcome current_state
without_transition-Moves c kind w = (refl, (λ other h. refl), put_outcome-kept c.candidate_id _ w)

-- A revision that is not before the latest one is the latest.
latest-later :
    (r : RevisionRow) (o : Option RevisionRow)
    → revision_of (state_of o) ≤ r.transition.revision
    → later_of r o ≡ r
latest-later r none h = refl
latest-later r (some q) h = ground arith

latest-cons :
    (identity : String) (r : RevisionRow) (rs : List RevisionRow)
    → str_eq r.alert_identity identity ≡ true
    → revision_of (state_of (latest identity rs)) ≤ r.transition.revision
    → latest identity (r ∷ rs) ≡ some r
unfolding latest
latest-cons identity r rs same later = rw (same, latest-later r (latest identity rs) later) refl

latest-cons_other :
    (identity : String) (r : RevisionRow) (rs : List RevisionRow)
    → str_eq r.alert_identity identity ≡ false
    → latest identity (r ∷ rs) ≡ latest identity rs
unfolding latest
latest-cons_other identity r rs other = rw other refl

commit_revision-Moved :
    (c : AlertCandidate) (t : AlertTransition) (r : RevisionRow) (o : Outcome) (w : Tables)
    → r.alert_identity ≡ c.alert_identity
    → r.candidate_id ≡ c.candidate_id
    → state_of (some r) ≡ some (recorded c t)
    → revision_of (current_state c.alert_identity w) ≤ r.transition.revision
    → Moved c (some (recorded c t)) w (after_commit t (commit_revision r o w))
unfolding commit_revision put_outcome current_state
commit_revision-Moved c t r o w identity id same later =
    let ours : str_eq r.alert_identity c.alert_identity ≡ true =
      ap (λ x. str_eq x c.alert_identity) identity ∙ str_eq_refl c.alert_identity in
    if_cases (λ x. Moved c (some (recorded c t)) w (after_commit t x))
      (any (clashes r) w.revisions || is_kept (get r.candidate_id w.outcomes)) _ _ (λ _. tt)
      (λ _. (
        ap (λ x. state_of x) (latest-cons c.alert_identity r w.revisions ours later) ∙ same,
        (λ other h.
            ap (λ x. state_of x)
              (latest-cons_other other r w.revisions (ap (λ x. str_eq x other) identity ∙ h))),
        ap (λ k. is_kept (get k (put r.candidate_id o w.outcomes))) (sym id)
            ∙ put_outcome-kept r.candidate_id o w,
      ))

module _ (py : Runtime) (json : Document → String) where
  write_transition-Moved :
      (c : AlertCandidate) (t : AlertTransition) (w : Tables)
      → Moved c (some (recorded c t)) w (write_transition py json c t w)
  unfolding write_transition
  write_transition-Moved c t w =
      if_cases (Moved c (some (recorded c t)) w)
        (not (revision_of (current_state c.alert_identity w) == t.revision - 1)) _ _ (λ _. tt)
        (λ e. commit_revision-Moved c t _ _ w refl refl refl (ground arith))

  write_decision-Moved :
      (c : AlertCandidate) (d : Result AlertError (Option AlertTransition)) (w : Tables)
      → Moved c
          (decided c (current_state c.alert_identity w) d)
          w
          (write_decision py json c (current_state c.alert_identity w) d w)
  unfolding write_decision
  write_decision-Moved c (err e) w = tt
  write_decision-Moved c (ok none) w = without_transition-Moves c _ w
  write_decision-Moved c (ok (some t)) w = write_transition-Moved c t w

  pub process-Moved :
      (c : AlertCandidate) (w : Tables)
      → Moved c
          (next_state py c (current_state c.alert_identity w))
          w
          (process py json c (current_state c.alert_identity w) w)
  unfolding process
  process-Moved c w =
      let current = current_state c.alert_identity w in
      let at = c.evaluation.evaluation_at.instant in
      if_cases (λ n. Moved c n w (process py json c current w)) (is_late at current) _ _
        (λ e. rw e (without_transition-Moves c out_of_order w))
        (λ e. rw e (write_decision-Moved c (decide_alert_transition py c current) w))
