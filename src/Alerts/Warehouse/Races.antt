-- ===== src/Alerts/Warehouse/Races.antt =====
-- Candidates that are applied one after the other never meet the conflicts of concurrent writers.
use mathlib.Core.Path.{◌∙◌, ap, sym}
use kis_portfolio_mcp.Common.{
  ℕ, ◌+◌, ◌-◌, ◌≡◌, refl, String, not, Option, none, some, Result, ok, err, str_eq, ◌==◌, if_cases,
  lacks, split, List, ◌∷◌, true, arith, any,
}
use kis_portfolio_mcp.Common.Separators.{Lacks, split-join}
use kis_portfolio_mcp.Common.Dict.{get, text_key, pair_key}
use kis_portfolio_mcp.Alerts.Python.{Runtime, Document, hash}
use kis_portfolio_mcp.Alerts.Rules.{AlertError, AlertRuleVersion}
use kis_portfolio_mcp.Alerts.Candidates.{AlertCandidate}
use kis_portfolio_mcp.Alerts.Transition.{
  CurrentAlertState, AlertTransition, TransitionType, entered, reentered, recovered, escalated,
  deescalated, updated, initial_normal, type_text, decide_alert_transition,
}
use kis_portfolio_mcp.Alerts.Transition.Laws.{decide_revision, prior_revision}
use kis_portfolio_mcp.Alerts.Warehouse.{
  Tables, WarehouseError, Outcome, CandidateWrite, current_state, revision_of, is_late,
  write_transition, write_decision, process, process_on, written, write_candidate, apply_candidate,
  registered, register_on, register_rule, write_on, CandidateRow, same_document, same_evaluation,
  candidate_document, revision_id, revision_parts,
}
use kis_portfolio_mcp.Alerts.Warehouse.History.{
  IsHistory, IsPlain, Undisturbed, put_outcome-IsHistory, commit_revision-Undisturbed,
}

type_text-lacks : (k : TransitionType) → lacks b'|' (type_text k) ≡ true
unfolding lacks
type_text-lacks entered = refl
type_text-lacks reentered = refl
type_text-lacks recovered = refl
type_text-lacks escalated = refl
type_text-lacks deescalated = refl
type_text-lacks updated = refl
type_text-lacks initial_normal = refl

module _ (py : Runtime) (json : Document → String) where
  parts-Lacks :
      (c : AlertCandidate) (t : AlertTransition)
      → ((n : ℕ) → lacks b'|' (py.show_number n) ≡ true)
      → IsPlain c
      → Lacks (revision_parts py c t)
  unfolding lacks
  parts-Lacks c t numbers (identity, candidate) =
      (refl, (identity, (numbers t.revision, (candidate, (type_text-lacks t.transition_type, tt)))))

  -- The id of a revision tells its candidate, where SHA-256 does not collide.
  revision_id-candidate :
      (c d : AlertCandidate) (t u : AlertTransition)
      → ((x y : String) → py.sha256 x ≡ py.sha256 y → x ≡ y)
      → ((n : ℕ) → lacks b'|' (py.show_number n) ≡ true)
      → IsPlain c
      → IsPlain d
      → revision_id py d u ≡ revision_id py c t
      → d.candidate_id ≡ c.candidate_id
  unfolding hash
  revision_id-candidate c d t u injective numbers plain plain' e =
      let parts : revision_parts py d u ≡ revision_parts py c t =
        sym (split-join "alert-state-revision-v1" _ (parts-Lacks d u numbers plain'))
        ∙ ap (split b'|') (injective _ _ e)
        ∙ split-join "alert-state-revision-v1" _ (parts-Lacks c t numbers plain) in
      ap (λ (ps : List String). fourth ps) parts
    where
      fourth : List String → String
      fourth (a ∷ b ∷ c ∷ x ∷ ps) = x
      fourth _ = ""

  -- No other candidate gives an id of a revision that this one gives.
  abbrev NamesCandidate : AlertCandidate → Type 0
  NamesCandidate c =
      IsPlain c
      × ((t : AlertTransition) (d : AlertCandidate) (u : AlertTransition)
          → IsPlain d
          → revision_id py d u ≡ revision_id py c t
          → d.candidate_id ≡ c.candidate_id)

  write_transition-Undisturbed :
      (c : AlertCandidate) (t : AlertTransition) (w : Tables)
      → NamesCandidate c
      → get c.candidate_id w.outcomes ≡ none
      → t.revision ≡ revision_of (current_state c.alert_identity w) + 1
      → IsHistory py w
      → Undisturbed py (write_transition py json c t w)
  unfolding write_transition
  write_transition-Undisturbed c t w unique fresh next h =
      if_cases (Undisturbed py)
        (not (revision_of (current_state c.alert_identity w) == t.revision - 1)) _ _
        (λ e. absurd (guard (revision_of (current_state c.alert_identity w)) t.revision next e))
        (λ _.
          commit_revision-Undisturbed py c t _ _ w unique.0 (λ d u. unique.1 t d u) refl refl fresh
            (omega arith) h)
    where
      guard : (n m : ℕ) → m ≡ n + 1 → not (n == m - 1) ≡ true → ⊥
      guard n m e f = ground arith

  write_decision-Undisturbed :
      (c : AlertCandidate) (d : Result AlertError (Option AlertTransition)) (w : Tables)
      → NamesCandidate c
      → get c.candidate_id w.outcomes ≡ none
      → decide_alert_transition py c (current_state c.alert_identity w) ≡ d
      → IsHistory py w
      → Undisturbed py (write_decision py json c (current_state c.alert_identity w) d w)
  unfolding write_decision
  write_decision-Undisturbed c (err e) w unique fresh g h = h
  write_decision-Undisturbed c (ok none) w unique fresh g h =
      put_outcome-IsHistory py c.candidate_id _ w h
  write_decision-Undisturbed c (ok (some t)) w unique fresh g h =
      write_transition-Undisturbed c t w unique fresh
        (decide_revision py c (current_state c.alert_identity w) g
          ∙ ap (λ n. n + 1) (same_revision (current_state c.alert_identity w)))
        h
    where
      same_revision : (o : Option CurrentAlertState) → prior_revision o ≡ revision_of o
      same_revision none = refl
      same_revision (some s) = refl

  process_on-Undisturbed :
      (c : AlertCandidate) (o : Option Outcome) (w : Tables)
      → NamesCandidate c
      → get c.candidate_id w.outcomes ≡ o
      → IsHistory py w
      → Undisturbed py (process_on py json c o w)
  unfolding process
  process_on-Undisturbed c (some o) w unique e h = h
  process_on-Undisturbed c none w unique fresh h =
      let current = current_state c.alert_identity w in
      if_cases (Undisturbed py) (is_late c.evaluation.evaluation_at.instant current) _ _
        (λ _. put_outcome-IsHistory py c.candidate_id _ w h)
        (λ _.
          write_decision-Undisturbed c (decide_alert_transition py c current) w unique fresh refl h)

  -- A write of the candidate fails by its rule, by its document or by its key, and leaves the history.
  abbrev WrittenFirst : Result WarehouseError CandidateWrite × Tables → Type 0
  WrittenFirst (ok r, w) = IsHistory py w
  WrittenFirst (err e, w) = Undisturbed py (err e, w)

  written-Undisturbed :
      (c : AlertCandidate) (x : Result WarehouseError CandidateWrite × Tables)
      → NamesCandidate c
      → WrittenFirst x
      → Undisturbed py (written py json c x)
  written-Undisturbed c (err e, w) unique h = h
  written-Undisturbed c (ok r, w) unique h =
      process_on-Undisturbed c (get c.candidate_id w.outcomes) w unique refl h

  write_on-WrittenFirst :
      (c : AlertCandidate) (o : Option CandidateRow) (w : Tables)
      → IsHistory py w
      → WrittenFirst (write_on py json c o w)
  write_on-WrittenFirst c (some prior) w h =
      if_cases WrittenFirst (not (same_document prior (candidate_document py json c))) _ _ (λ _. h)
        (λ _. h)
  write_on-WrittenFirst c none w h =
      if_cases WrittenFirst
        (any (λ (row : String × CandidateRow). same_evaluation row.1 (candidate_document py json c))
          w.candidates)
        _ _ (λ _. h) (λ _. h)

  register_on-WrittenFirst :
      (c : AlertCandidate) (prior : Option AlertRuleVersion) (w : Tables)
      → IsHistory py w
      → WrittenFirst (registered py json c (register_on c.rule prior w))
  register_on-WrittenFirst c none w h =
      let (r, v) = register_on c.rule none w in
      write_on-WrittenFirst c (get c.candidate_id v.candidates) v h
  register_on-WrittenFirst c (some prior) w h =
      if_cases
        (λ (x : Result WarehouseError (Unit {0}) × Tables). WrittenFirst (registered py json c x))
        (not (str_eq prior.definition_hash c.rule.definition_hash)) _ _ (λ _. h)
        (λ _. write_on-WrittenFirst c (get c.candidate_id w.candidates) w h)

  -- In a history, where every revision belongs to a candidate with an outcome and its id is made from
  -- it, a candidate that is applied on its own never meets the two conflicts of concurrent writers, a
  -- changed revision or a broken unique key; and however it ends, it leaves a history. SHA-256 is taken
  -- to have no collision, a number to be shown without a `|`, and the ids of the candidate, which are
  -- hexadecimal digests, to hold none.
  pub apply_candidate-Undisturbed :
      (c : AlertCandidate) (w : Tables)
      → ((x y : String) → py.sha256 x ≡ py.sha256 y → x ≡ y)
      → ((n : ℕ) → lacks b'|' (py.show_number n) ≡ true)
      → IsPlain c
      → IsHistory py w
      → Undisturbed py (apply_candidate py json c w)
  unfolding apply_candidate write_candidate register_rule
  apply_candidate-Undisturbed c w injective numbers plain h =
      written-Undisturbed c (write_candidate py json c w)
        (plain, (λ t d u p. revision_id-candidate c d t u injective numbers plain p))
        (register_on-WrittenFirst c (get (c.rule.rule_id, c.rule.version) w.rules) w h)
