-- ===== src/Pipeline/Resume.antt =====
-- What a run does with its stages: it resumes, it stays within the budget, and it succeeds only when
-- every stage has.
use mathlib.Core.Path.{sym, ap, ◌∙◌}
use kis_portfolio_mcp.Common.{
  ℕ, ◌+◌, ◌≤◌, ◌≡◌, refl, String, true, false, Option, none, some, List, [], ◌∷◌, ◌++◌, All, Result,
  ok, err, if_cases, ltb, arith, length,
}
use kis_portfolio_mcp.Common.Dict.{Dict, get, put, get-put, get-put_self, text_key, pair_key}
use kis_portfolio_mcp.Pipeline.Tables.{has_succeeded, StageRun, StageResult, Tables, started}
use kis_portfolio_mcp.Pipeline.Runner.{
  StageContext, PipelineStage, RunError, Out, fail, record_evidence, settle, run_stage, run_stages,
  row_succeeded, attempt_of,
}

-- The tables say that the stage of the run has succeeded.
abbrev pub HasSucceeded : String × String → Tables → Type 0
HasSucceeded k t = row_succeeded (get k t.stage_runs) ≡ true

put_keeps :
    (j k : String × String) (v : StageRun) (d : Dict (String × String) StageRun)
    → row_succeeded (get j d) ≡ false
    → row_succeeded (get k d) ≡ true
    → row_succeeded (get k (put j v d)) ≡ true
put_keeps j k v d a b = rw (get-put j k v d) (
    if_cases (λ x. row_succeeded x ≡ true) (pair_key.same j k) _ _
      (λ e.
        absurd
          (clash (sym a ∙ ap (λ i. row_succeeded (get i d)) ((pair_key.same_iff j k).0 e) ∙ b)))
      (λ _. b))
  where
    clash : false ≡ true → ⊥
    clash e = cc

put_self :
    (k : String × String) (v : StageRun) (d : Dict (String × String) StageRun)
    → row_succeeded (get k (put k v d)) ≡ has_succeeded v.status
put_self k v d = ap row_succeeded (get-put_self k v d)

started_running :
    (order attempt : ℕ) (o : Option StageRun)
    → has_succeeded (started order attempt o).status ≡ false
started_running order attempt none = refl
started_running order attempt (some row) = refl

module _ {S : Type 0} where
  -- The tables that a run leaves.
  abbrev pub tables_of : Out S → Tables
  tables_of out = out.2

  settle_keeps :
      (k : String × String) (run_id : String) (budget : ℕ) (stage : PipelineStage S) (calls : ℕ)
      (row : StageRun) (t : Tables) (rest : ℕ → S → Tables → Out S)
      (p : Result String StageResult × S)
      → ((calls : ℕ) (s : S) (t : Tables)
          → HasSucceeded k t
          → HasSucceeded k (tables_of (rest calls s t)))
      → row_succeeded (get (run_id, stage.name) t.stage_runs) ≡ false
      → HasSucceeded k t
      → HasSucceeded k (tables_of (settle run_id budget stage calls row t rest p))
  unfolding settle fail record_evidence
  settle_keeps k run_id budget stage calls row t rest (ok result, s) later unfinished h =
      if_cases (λ x. HasSucceeded k (tables_of x)) (ltb budget (calls + result.source_calls)) _ _
        (λ _. put_keeps (run_id, stage.name) k _ t.stage_runs unfinished h)
        (λ _. later _ _ _ (put_keeps (run_id, stage.name) k _ t.stage_runs unfinished h))
  settle_keeps k run_id budget stage calls row t rest (err message, s) later unfinished h =
      put_keeps (run_id, stage.name) k _ t.stage_runs unfinished h

  run_stage_keeps :
      (k : String × String) (context : StageContext) (budget order : ℕ) (stage : PipelineStage S)
      (calls : ℕ) (s : S) (t : Tables) (rest : ℕ → S → Tables → Out S)
      → ((calls : ℕ) (s : S) (t : Tables)
          → HasSucceeded k t
          → HasSucceeded k (tables_of (rest calls s t)))
      → HasSucceeded k t
      → HasSucceeded k (tables_of (run_stage context budget order stage calls s t rest))
  unfolding run_stage
  run_stage_keeps k context budget order stage calls s t rest later h =
      let j : String × String = (context.run_id, stage.name) in
      let found = get j t.stage_runs in
      if_cases (λ x. HasSucceeded k (tables_of x)) (row_succeeded found) _ _
        (λ _. later calls s t h)
        (λ e.
          settle_keeps k context.run_id budget stage calls _ _ rest (stage.handler context s) later
            (put_self j _ t.stage_runs ∙ started_running order (attempt_of found + 1) found)
            (put_keeps j k _ t.stage_runs e h))

  -- A stage that has succeeded stays so, whatever stages run after it, also when one of them fails.
  run_stages_keeps :
      (k : String × String) (context : StageContext) (budget order : ℕ)
      (stages : List (PipelineStage S)) (calls : ℕ) (s : S) (t : Tables)
      → HasSucceeded k t
      → HasSucceeded k (tables_of (run_stages context budget order stages calls s t))
  unfolding run_stages
  run_stages_keeps k context budget order [] calls s t h = h
  run_stages_keeps k context budget order (stage ∷ stages) calls s t h =
      run_stage_keeps k context budget order stage calls s t
        (run_stages context budget (order + 1) stages)
        (λ c s t. run_stages_keeps k context budget (order + 1) stages c s t) h

  -- Resumption: stages that have succeeded are passed over without calling their handlers, whatever
  -- these are, and the rest runs from the same tables, state and count of source calls.
  pub run_stages_resume :
      (context : StageContext) (budget order : ℕ) (done stages : List (PipelineStage S)) (calls : ℕ)
      (s : S) (t : Tables)
      → All (λ (stage : PipelineStage S). HasSucceeded (context.run_id, stage.name) t) done
      → run_stages context budget order (done ++ stages) calls s t
        ≡ run_stages context budget (order + length done) stages calls s t
  unfolding run_stages run_stage
  run_stages_resume context budget order [] stages calls s t h =
      ap (λ n. run_stages context budget n stages calls s t) (omega arith)
  run_stages_resume context budget order (stage ∷ done) stages calls s t (h, hs) = rw h (
      run_stages_resume context budget (order + 1) done stages calls s t hs
      ∙ ap (λ n. run_stages context budget n stages calls s t) (omega arith))

  settle_cases :
      (Q : Out S → Type 0) (run_id : String) (budget : ℕ) (stage : PipelineStage S) (calls : ℕ)
      (row : StageRun) (t : Tables) (rest : ℕ → S → Tables → Out S)
      (p : Result String StageResult × S)
      → ((c : ℕ) (s : S) (t : Tables)
          → c ≤ budget
          → HasSucceeded (run_id, stage.name) t
          → Q (rest c s t))
      → ((e : RunError) (s : S) (t : Tables) → Q (err e, s, t))
      → Q (settle run_id budget stage calls row t rest p)
  unfolding settle fail record_evidence
  settle_cases Q run_id budget stage calls row t rest (ok result, s) later broken =
      if_cases Q (ltb budget (calls + result.source_calls)) _ _ (λ _. broken _ _ _)
        (λ e. later _ _ _ (ground arith) (put_self (run_id, stage.name) _ t.stage_runs))
  settle_cases Q run_id budget stage calls row t rest (err message, s) later broken = broken _ _ _

  run_stage_cases :
      (Q : Out S → Type 0) (context : StageContext) (budget order : ℕ) (stage : PipelineStage S)
      (calls : ℕ) (s : S) (t : Tables) (rest : ℕ → S → Tables → Out S)
      → calls ≤ budget
      → ((c : ℕ) (s : S) (t : Tables)
          → c ≤ budget
          → HasSucceeded (context.run_id, stage.name) t
          → Q (rest c s t))
      → ((e : RunError) (s : S) (t : Tables) → Q (err e, s, t))
      → Q (run_stage context budget order stage calls s t rest)
  unfolding run_stage
  run_stage_cases Q context budget order stage calls s t rest b later broken =
      if_cases Q (row_succeeded (get (context.run_id, stage.name) t.stage_runs)) _ _
        (λ e. later calls s t b e)
        (λ _.
          settle_cases Q context.run_id budget stage calls _ _ rest (stage.handler context s) later
            broken)

  -- A run that succeeds has stayed within its budget of source calls, and the tables say of every one
  -- of its stages that it has succeeded, when the calls counted before were within the budget.
  pub run_stages_success :
      (context : StageContext) (budget order : ℕ) (stages : List (PipelineStage S))
      (calls total : ℕ) (s : S) (t : Tables)
      → calls ≤ budget
      → (run_stages context budget order stages calls s t).0 ≡ ok total
      → (total ≤ budget)
        × All
            (λ (stage : PipelineStage S).
              HasSucceeded
                (context.run_id, stage.name)
                (run_stages context budget order stages calls s t).2)
            stages
  unfolding run_stages
  run_stages_success context budget order [] calls total s t b e = (ground arith, tt)
  run_stages_success context budget order (stage ∷ stages) calls total s t b e =
      run_stage_cases
        (λ out.
          out.0 ≡ ok total
          → (total ≤ budget)
            × All (λ (x : PipelineStage S). HasSucceeded (context.run_id, x.name) out.2)
                (stage ∷ stages))
        context budget order stage calls s t (run_stages context budget (order + 1) stages) b
        (λ c s t b h e.
          let (within, all) =
            run_stages_success context budget (order + 1) stages c total s t b e in
          (
            within,
            (
              run_stages_keeps (context.run_id, stage.name) context budget (order + 1) stages c s t
                  h,
              all,
            ),
          ))
        (λ x s t e. cc) e
