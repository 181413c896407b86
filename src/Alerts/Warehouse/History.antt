-- ===== src/Alerts/Warehouse/History.antt =====
-- The history of state revisions, and that one that is committed breaks no unique key of it.
use mathlib.Core.Path.{◌∙◌, sym, ap, subst}
use kis_portfolio_mcp.Common.{
  ℕ, ◌+◌, ◌≤◌, ◌≡◌, refl, String, true, false, ◌||◌, Option, none, some, List, [], ◌∷◌, All,
  All-map, lacks, Result, ok, err, str_eq, str_eq_iff, if_cases, arith, any,
}
use kis_portfolio_mcp.Common.Dict.{Dict, get, put, get-put, get-put_self, text_key, pair_key}
use kis_portfolio_mcp.Alerts.Python.{Runtime}
use kis_portfolio_mcp.Alerts.Candidates.{AlertCandidate}
use kis_portfolio_mcp.Alerts.Transition.{AlertTransition}
use kis_portfolio_mcp.Alerts.Warehouse.{
  revision_id, Tables, WarehouseError, rule_changed, candidate_changed, evaluation_key_taken,
  revision_changed, claim_lost, refused_candidate, RevisionRow, Outcome, StateWrite, latest,
  later_of, state_of, current_state, revision_of, is_kept, clashes, put_outcome, commit_revision,
  after_commit,
}

later_bounds :
    (r : RevisionRow) (o : Option RevisionRow)
    → (r.transition.revision ≤ (later_of r o).transition.revision)
      × (revision_of (state_of o) ≤ (later_of r o).transition.revision)
later_bounds r none = (omega arith, omega arith)
later_bounds r (some q) = (ground arith, ground arith)

-- A revision of the alert is not after the number.
abbrev AtMost : String → ℕ → RevisionRow → Type 0
AtMost identity n r = str_eq r.alert_identity identity ≡ true → r.transition.revision ≤ n

-- The revisions of an alert are not after its latest one.
latest-AtMost :
    (identity : String) (rs : List RevisionRow)
    → All (AtMost identity (revision_of (state_of (latest identity rs)))) rs
unfolding latest
latest-AtMost identity [] = tt
latest-AtMost identity (r ∷ rs) =
    let rest = latest-AtMost identity rs in
    let (own, others) = later_bounds r (latest identity rs) in
    if_cases (λ o. All (AtMost identity (revision_of (state_of o))) (r ∷ rs))
      (str_eq r.alert_identity identity) _ _
      (λ e. (
        (λ _. own),
        All-map (AtMost identity (revision_of (state_of (latest identity rs)))) _
            (λ x h m. let b = h m in omega arith) rs rest,
      ))
      (λ e. ((λ m. absurd (cc (e, m))), rest))

-- The identity and the id of a candidate hold no separator, as no hexadecimal digest does.
abbrev pub IsPlain : AlertCandidate → Type 0
IsPlain c = (lacks b'|' c.alert_identity ≡ true) × (lacks b'|' c.candidate_id ≡ true)

module _ (py : Runtime) where
  -- The candidate of a revision has its outcome, and the id of the revision is made from it.
  abbrev pub IsOwned : Dict String Outcome → RevisionRow → Type 0
  IsOwned outcomes r =
      (is_kept (get r.candidate_id outcomes) ≡ true)
      × ((c : AlertCandidate) × (t : AlertTransition) × IsPlain c
          × (r.state_revision_id ≡ revision_id py c t)
          × (r.candidate_id ≡ c.candidate_id))

  abbrev pub IsHistory : Tables → Type 0
  IsHistory w = All (IsOwned w.outcomes) w.revisions

  clashes_none :
      (new : RevisionRow) (c : AlertCandidate) (t : AlertTransition)
      (outcomes : Dict String Outcome) (bound : ℕ) (rs : List RevisionRow)
      → ((d : AlertCandidate) (u : AlertTransition)
          → IsPlain d
          → revision_id py d u ≡ revision_id py c t
          → d.candidate_id ≡ c.candidate_id)
      → new.state_revision_id ≡ revision_id py c t
      → new.candidate_id ≡ c.candidate_id
      → is_kept (get c.candidate_id outcomes) ≡ false
      → bound + 1 ≤ new.transition.revision
      → All (IsOwned outcomes) rs
      → All (AtMost new.alert_identity bound) rs
      → any (clashes new) rs ≡ false
  clashes_none new c t outcomes bound [] unique a b n l o h = refl
  clashes_none new c t outcomes bound (r ∷ rs) unique a b n l
        ((kept, (d, u, plain, made, named)), o) (below, h) =
      let rest = clashes_none new c t outcomes bound rs unique a b n l o h in
      let other : str_eq r.candidate_id new.candidate_id ≡ true → ⊥ = λ e. cc (
        n,
        kept,
        ap (λ k. is_kept (get k outcomes)) ((str_eq_iff r.candidate_id new.candidate_id).0 e ∙ b),
      ) in
      let other_id : str_eq r.state_revision_id new.state_revision_id ≡ true → ⊥ = λ e. other (
        (str_eq_iff r.candidate_id new.candidate_id).1 (
          named
          ∙ unique d u plain
              (sym made ∙ (str_eq_iff r.state_revision_id new.state_revision_id).0 e ∙ a)
          ∙ sym b)) in
      ground arith

  -- No conflict of concurrent writers, and a history again.
  abbrev pub Undisturbed : Result WarehouseError StateWrite × Tables → Type 0
  Undisturbed (ok x, w) = IsHistory w
  Undisturbed (err rule_changed, w) = IsHistory w
  Undisturbed (err candidate_changed, w) = IsHistory w
  Undisturbed (err evaluation_key_taken, w) = IsHistory w
  Undisturbed (err revision_changed, w) = ⊥
  Undisturbed (err claim_lost, w) = ⊥
  Undisturbed (err (refused_candidate e), w) = IsHistory w

  put_outcome-IsOwned :
      (id : String) (o : Outcome) (outcomes : Dict String Outcome) (r : RevisionRow)
      → IsOwned outcomes r
      → IsOwned (put id o outcomes) r
  put_outcome-IsOwned id o outcomes r (kept, names) = (
    subst (λ x. is_kept x ≡ true) (sym (get-put id r.candidate_id o outcomes))
        (if_cases (λ x. is_kept x ≡ true) (str_eq id r.candidate_id) _ _ (λ _. refl) (λ _. kept)),
    names,
  )

  pub put_outcome-IsHistory :
      (id : String) (o : Outcome) (w : Tables) → IsHistory w → IsHistory (put_outcome id o w)
  unfolding put_outcome
  put_outcome-IsHistory id o w h =
      All-map (IsOwned w.outcomes) (IsOwned (put id o w.outcomes))
        (put_outcome-IsOwned id o w.outcomes) w.revisions h

  pub commit_revision-Undisturbed :
      (c : AlertCandidate) (t : AlertTransition) (new : RevisionRow) (o : Outcome) (w : Tables)
      → IsPlain c
      → ((d : AlertCandidate) (u : AlertTransition)
          → IsPlain d
          → revision_id py d u ≡ revision_id py c t
          → d.candidate_id ≡ c.candidate_id)
      → new.state_revision_id ≡ revision_id py c t
      → new.candidate_id ≡ c.candidate_id
      → get c.candidate_id w.outcomes ≡ none
      → revision_of (current_state new.alert_identity w) + 1 ≤ new.transition.revision
      → IsHistory w
      → Undisturbed (after_commit t (commit_revision new o w))
  unfolding commit_revision put_outcome current_state
  commit_revision-Undisturbed c t new o w plain unique a b fresh l h =
      let free : any (clashes new) w.revisions ≡ false =
        clashes_none new c t w.outcomes
          (revision_of (state_of (latest new.alert_identity w.revisions))) w.revisions unique a b
          (ap (λ x. is_kept x) fresh) l h (latest-AtMost new.alert_identity w.revisions) in
      let unkept : is_kept (get new.candidate_id w.outcomes) ≡ false =
        ap (λ k. is_kept (get k w.outcomes)) b ∙ ap (λ x. is_kept x) fresh in
      if_cases (λ x. Undisturbed (after_commit t x))
        (any (clashes new) w.revisions || is_kept (get new.candidate_id w.outcomes)) _ _
        (λ e. absurd (cc (e, free, unkept)))
        (λ _. (
          (ap (λ x. is_kept x) (get-put_self new.candidate_id o w.outcomes), (c, t, plain, a, b)),
          All-map (IsOwned w.outcomes) (IsOwned (put new.candidate_id o w.outcomes))
              (put_outcome-IsOwned new.candidate_id o w.outcomes) w.revisions h,
        ))
