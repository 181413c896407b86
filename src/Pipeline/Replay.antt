-- ===== src/Pipeline/Replay.antt =====
-- A logical run that has succeeded is not run again.
use mathlib.Core.Path.{subst, sym, ap, ◌∙◌}
use kis_portfolio_mcp.Common.{
  ℕ, ◌≡◌, refl, String, Bool, true, Option, none, some, List, [], ◌∷◌, Result, ok, err, str_eq,
  str_eq_iff, if◌then◌else◌, if_cases, arith, ltb, ◌+◌,
}
use kis_portfolio_mcp.Common.Dict.{Dict, get, text_key, pair_key, get-put_self}
use kis_portfolio_mcp.Pipeline.Tables.{
  RunStatus, running, succeeded, failed, has_succeeded, PipelineRun, StageRun, StageResult, Tables,
  update_runs, find_run, mark_running, mark_succeeded, succeeded_calls,
}
use kis_portfolio_mcp.Pipeline.Runner.{
  StageContext, PipelineStage, PipelineDefinition, PipelineRunOutcome, RunError, Out, fail,
  record_evidence, settle, run_stage, run_stages, row_succeeded, register_definition, claim_on,
  claim_run, conclude, run_claimed, run, logical_key, calls_recorded, is_bound,
}

abbrev update_if : String → (PipelineRun → PipelineRun) → Option PipelineRun → Option PipelineRun
update_if run_id f none = none
update_if run_id f (some r) = if str_eq r.run_id run_id then some (f r) else some r

get-update_runs :
    (key run_id : String) (f : PipelineRun → PipelineRun) (rs : Dict String PipelineRun)
    → get key (update_runs run_id f rs) ≡ update_if run_id f (get key rs)
unfolding get update_runs
get-update_runs key run_id f [] = refl
get-update_runs key run_id f ((k, r) ∷ rs) =
    if_cases (λ d. get key d ≡ update_if run_id f (get key ((k, r) ∷ rs))) (str_eq r.run_id run_id)
      _ _
      (λ e.
        if_cases
          (λ o.
            (if str_eq k key then some (f r) else get key (update_runs run_id f rs))
            ≡ update_if run_id f o)
          (str_eq k key) _ _ (λ q. ground arith)
          (λ q. ground (arith, get-update_runs key run_id f rs)))
      (λ e.
        if_cases
          (λ o.
            (if str_eq k key then some r else get key (update_runs run_id f rs))
            ≡ update_if run_id f o)
          (str_eq k key) _ _ (λ q. ground arith)
          (λ q. ground (arith, get-update_runs key run_id f rs)))

-- The row that a run id finds after a run has succeeded has the calls of the run.
find_run-succeeded :
    (key run_id : String) (calls : ℕ) (rs : Dict String PipelineRun) (r : PipelineRun)
    → get key rs ≡ some r
    → r.run_id ≡ run_id
    → calls_recorded (find_run run_id (update_runs run_id (mark_succeeded calls) rs)) ≡ calls
unfolding get update_runs find_run
find_run-succeeded key run_id calls [] r h e = cc
find_run-succeeded key run_id calls ((k, x) ∷ rs) r h e =
    if_cases (λ d. calls_recorded (find_run run_id d) ≡ calls) (str_eq x.run_id run_id) _ _
      (λ q. ground arith)
      (λ q. ground (arith, find_run-succeeded key run_id calls rs r, str_eq_iff x.run_id run_id))

-- The run of a key is recorded as succeeded, under its run id and with its calls.
abbrev IsDone : String → String → ℕ → Dict String PipelineRun → Type 0
IsDone key run_id calls rs =
    (r : PipelineRun) × (get key rs ≡ some r)
    × (r.run_id ≡ run_id)
    × (r.status ≡ succeeded)
    × (calls_recorded (find_run run_id rs) ≡ calls)

-- The run of a key has been claimed.
abbrev IsClaimed : String → String → Dict String PipelineRun → Type 0
IsClaimed key run_id rs = (r : PipelineRun) × (get key rs ≡ some r) × (r.run_id ≡ run_id)

running-IsClaimed :
    (key run_id : String) (rs : Dict String PipelineRun)
    → IsClaimed key run_id rs
    → IsClaimed key run_id (update_runs run_id mark_running rs)
running-IsClaimed key run_id rs (r, g, e) = (
  mark_running r,
  get-update_runs key run_id mark_running rs
      ∙ ap (update_if run_id mark_running) g
      ∙ ground (arith, str_eq_iff r.run_id run_id),
  e,
)

succeeded-IsDone :
    (key run_id : String) (calls : ℕ) (rs : Dict String PipelineRun)
    → IsClaimed key run_id rs
    → IsDone key run_id calls (update_runs run_id (mark_succeeded calls) rs)
succeeded-IsDone key run_id calls rs (r, g, e) = (
  mark_succeeded calls r,
  get-update_runs key run_id (mark_succeeded calls) rs
      ∙ ap (update_if run_id (mark_succeeded calls)) g
      ∙ ground (arith, str_eq_iff r.run_id run_id),
  e,
  refl,
  find_run-succeeded key run_id calls rs r g e,
)

module _ {S : Type 0} where
  -- A run that succeeds has not touched the table of the runs.
  abbrev KeepsRuns : Dict String PipelineRun → Out S → Type 0
  KeepsRuns rs out = (calls : ℕ) → out.0 ≡ ok calls → out.2.runs ≡ rs

  settle-KeepsRuns :
      (run_id : String) (budget : ℕ) (stage : PipelineStage S) (calls : ℕ) (row : StageRun)
      (t : Tables) (rest : ℕ → S → Tables → Out S) (p : Result String StageResult × S)
      → ((c : ℕ) (s : S) (t' : Tables) → t'.runs ≡ t.runs → KeepsRuns t.runs (rest c s t'))
      → KeepsRuns t.runs (settle run_id budget stage calls row t rest p)
  unfolding settle fail record_evidence
  settle-KeepsRuns run_id budget stage calls row t rest (ok result, s) later =
      if_cases (KeepsRuns t.runs) (ltb budget (calls + result.source_calls)) _ _ (λ _ c e. cc)
        (λ _. later _ _ _ refl)
  settle-KeepsRuns run_id budget stage calls row t rest (err message, s) later = λ c e. cc

  run_stages-KeepsRuns :
      (context : StageContext) (budget order : ℕ) (stages : List (PipelineStage S)) (calls : ℕ)
      (s : S) (t : Tables)
      → KeepsRuns t.runs (run_stages context budget order stages calls s t)
  unfolding run_stages run_stage
  run_stages-KeepsRuns context budget order [] calls s t = λ c e. refl
  run_stages-KeepsRuns context budget order (stage ∷ stages) calls s t =
      let later : (c : ℕ) (s : S) (t' : Tables)
          → t'.runs ≡ t.runs
          → KeepsRuns t.runs (run_stages context budget (order + 1) stages c s t') =
        λ c s t' e.
          subst (λ rs. KeepsRuns rs (run_stages context budget (order + 1) stages c s t')) e
            (run_stages-KeepsRuns context budget (order + 1) stages c s t') in
      if_cases (KeepsRuns t.runs) (row_succeeded (get (context.run_id, stage.name) t.stage_runs)) _
        _ (λ _. later calls s t refl)
        (λ _.
          settle-KeepsRuns context.run_id budget stage calls _ _ _ (stage.handler context s) later)

  conclude-IsDone :
      (key run_id : String) (reused : Bool) (out : Out S) (outcome : PipelineRunOutcome) (s : S)
      (t : Tables)
      → conclude run_id reused out ≡ (ok outcome, s, t)
      → ((calls : ℕ) → out.0 ≡ ok calls → IsClaimed key run_id out.2.runs)
      → IsDone key outcome.run_id outcome.source_calls t.runs
  unfolding conclude
  conclude-IsDone key run_id reused (err x, u, v) outcome s t e claimed = cc
  conclude-IsDone key run_id reused (ok calls, u, v) outcome s t e claimed =
      subst
        (λ (x : Result RunError PipelineRunOutcome × S × Tables). elim x.0 [
          | err _ ↦ Unit
          | ok o ↦ IsDone key o.run_id o.source_calls x.2.runs
        ])
        e (succeeded-IsDone key run_id calls v.runs (claimed calls refl))

  run_claimed-IsDone :
      (key : String) (d : PipelineDefinition S) (logical_date slot partition_key : String)
      (s s' : S) (t' : Tables) (outcome : PipelineRunOutcome)
      (claimed : Result RunError (String × RunStatus × Bool) × Tables)
      → ((run_id : String) (status : RunStatus) (reused : Bool)
          → claimed.0 ≡ ok (run_id, status, reused)
          → (r : PipelineRun) × (get key claimed.1.runs ≡ some r)
            × (r.run_id ≡ run_id)
            × (r.status ≡ status))
      → run_claimed d logical_date slot partition_key s claimed ≡ (ok outcome, s', t')
      → IsDone key outcome.run_id outcome.source_calls t'.runs
  unfolding run_claimed
  run_claimed-IsDone key d logical_date slot partition_key s s' t' outcome (err x, t) found e = cc
  run_claimed-IsDone key d logical_date slot partition_key s s' t' outcome
        (ok (run_id, status, reused), t) found e =
      let (r, g, i, q) = found run_id status reused refl in
      let context : StageContext = record {
        run_id = run_id;
        logical_date = logical_date;
        slot = slot;
        partition_key = partition_key;
      } in
      let kept =
        run_stages-KeepsRuns context d.source_call_budget 0 d.stages
          (succeeded_calls run_id t.stage_runs) s
          (record t { runs = update_runs run_id mark_running t.runs }) in
      if_cases
        (λ x. x ≡ (ok outcome, s', t') → IsDone key outcome.run_id outcome.source_calls t'.runs)
        (has_succeeded status) _ _
        (λ done e.
          subst
            (λ (x : Result RunError PipelineRunOutcome × S × Tables). elim x.0 [
              | err _ ↦ Unit
              | ok o ↦ IsDone key o.run_id o.source_calls x.2.runs
            ])
            e (r, g, i, q ∙ is_succeeded status done, refl))
        (λ _ e. conclude-IsDone key run_id reused _ outcome s' t' e λ calls o.
          subst (IsClaimed key run_id) (sym (kept calls o))
            (running-IsClaimed key run_id t.runs (r, g, i)))
        e
    where
      is_succeeded : (status : RunStatus) → has_succeeded status ≡ true → status ≡ succeeded
      is_succeeded running h = cc
      is_succeeded succeeded h = refl
      is_succeeded failed h = cc

  claim_on_found :
      (d : PipelineDefinition S) (logical_date slot partition_key key run : String) (t : Tables)
      (o : Option PipelineRun) (run_id : String) (status : RunStatus) (reused : Bool)
      → get key t.runs ≡ o
      → (claim_on d logical_date slot partition_key key run t o).0 ≡ ok (run_id, status, reused)
      → (r : PipelineRun) × (get key (claim_on d logical_date slot partition_key key run t o).1.runs
          ≡ some r)
        × (r.run_id ≡ run_id)
        × (r.status ≡ status)
  claim_on_found d logical_date slot partition_key key run t (some r) run_id status reused g e =
      (r, g, ground arith, ground arith)
  claim_on_found d logical_date slot partition_key key run t none run_id status reused g e =
      if_cases
        (λ (x : Result RunError (String × RunStatus × Bool) × Tables).
          x.0 ≡ ok (run_id, status, reused)
          → (r : PipelineRun) × (get key x.1.runs ≡ some r)
            × (r.run_id ≡ run_id)
            × (r.status ≡ status))
        (is_bound (find_run run t.runs) key) _ _ (λ _ e. cc)
        (λ _ e. (_, get-put_self key _ t.runs, ground arith, ground arith)) e

  -- Once a run has succeeded, running the same logical run again, with whatever stages, state and
  -- requested id, only registers its definition: no stage runs, the state is not touched, and the
  -- outcome is the first run's, marked as reused.
  pub run_again :
      (sha256 : String → String) (d d' : PipelineDefinition S)
      (logical_date slot partition_key : String) (s s' s'' : S)
      (requested requested' : Option String) (new new' : String) (t t' : Tables)
      (outcome : PipelineRunOutcome)
      → run sha256 d logical_date slot partition_key s requested new t ≡ (ok outcome, s', t')
      → d'.pipeline_id ≡ d.pipeline_id
      → d'.version ≡ d.version
      → run sha256 d' logical_date slot partition_key s'' requested' new' t' ≡ (
        ok (record {
          run_id = outcome.run_id;
          status = succeeded;
          reused = true;
          source_calls = outcome.source_calls;
        }),
        s'',
        register_definition d' t',
      )
  unfolding run claim_run run_claimed register_definition
  run_again sha256 d d' logical_date slot partition_key s s' s'' requested requested' new new' t t'
        outcome e p v =
      let key = sha256 (logical_key d logical_date slot partition_key) in
      let t0 = register_definition d t in
      let (r, g, i, q, c) =
        run_claimed-IsDone key d logical_date slot partition_key s s' t' outcome
          (claim_run d logical_date slot partition_key key requested new t0)
          (λ run_id status reused h.
            claim_on_found d logical_date slot partition_key key _ t0 (get key t0.runs) run_id
              status reused refl h)
          e in
      rw (p, v, g, i, q, c) refl
