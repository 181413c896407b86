-- ===== src/Pipeline/Runner.antt =====
-- `PipelineRegistry` and `ManagedPipelineRunner` of platform/pipeline.py. A handler reads and changes the
-- state of its context, of a type `S`, and returns a result or raises, with a message. The hash of a
-- logical key and a fresh run id are parameters; the message on the budget is without its numbers.
use kis_portfolio_mcp.Common.{
  ℕ, ◌+◌, String, Bool, true, false, not, ◌||◌, Option, none, some, List, [], ◌∷◌, ◌++◌, map,
  Result, ok, err, str_eq, if◌then◌else◌, ltb, ◌==◌, truthy, length, is_empty, sorted_set, join,
}
use kis_portfolio_mcp.Common.Dict.{Dict, get, put, text_key, pair_key}
use kis_portfolio_mcp.Pipeline.Tables.{
  RunStatus, running, succeeded, has_succeeded, PipelineRun, StageRun, StageResult, Tables,
  update_runs, find_run, succeeded_calls, started, set_failed, set_result, mark_running,
  mark_failed, mark_succeeded,
}

-- `StageContext`, less the state
pub record StageContext : Type 0 where
  pub run_id : String
  pub logical_date : String
  pub slot : String
  pub partition_key : String

-- `PipelineStage`, its handler of type `StageHandler`
pub record PipelineStage (S : Type 0) : Type 0 where
  pub name : String
  pub handler : StageContext → S → Result String StageResult × S

-- `PipelineDefinition`
pub record PipelineDefinition (S : Type 0) : Type 0 where
  pub pipeline_id : String
  pub version : String
  pub stages : List (PipelineStage S)
  pub source_call_budget : ℕ

pub data RegistryError : Type 0 where
  already_registered stages_not_unique : RegistryError

-- What `run` raises: a run id of another logical run, or `PipelineExecutionError`.
pub data RunError : Type 0 where
  run_id_bound : RunError
  execution_error : (run_id stage_name message : String) → RunError

-- `PipelineRunOutcome`
pub record PipelineRunOutcome : Type 0 where
  pub run_id : String
  pub status : RunStatus
  pub reused : Bool
  pub source_calls : ℕ

abbrev pub attempt_of : Option StageRun → ℕ
attempt_of none = 0
attempt_of (some row) = row.attempt

abbrev pub row_succeeded : Option StageRun → Bool
row_succeeded none = false
row_succeeded (some row) = has_succeeded row.status

abbrev or_new : Option String → String → String
or_new none new = new
or_new (some requested) new = if truthy requested then requested else new

abbrev pub is_bound : Option (String × PipelineRun) → String → Bool
is_bound none key = false
is_bound (some (other, r)) key = not (str_eq other key)

abbrev pub calls_recorded : Option (String × PipelineRun) → ℕ
calls_recorded none = 0
calls_recorded (some (key, r)) = r.source_calls

-- The run is over: with its source calls, or with the error that it raises.
abbrev pub Out : Type 0 → Type 0
Out S = Result RunError ℕ × S × Tables

module _ {S : Type 0} where
  abbrev pub stage_names : List (PipelineStage S) → List String
  stage_names stages = map (λ (s : PipelineStage S). s.name) stages

  abbrev registered :
      PipelineDefinition S
      → Dict (String × String) (PipelineDefinition S)
      → Option (PipelineDefinition S)
      → Result RegistryError (Dict (String × String) (PipelineDefinition S))
  registered d ds (some present) = err already_registered
  registered d ds none =
      if is_empty d.stages || not (length (sorted_set (stage_names d.stages)) == length d.stages)
      then err stages_not_unique
      else ok (put (d.pipeline_id, d.version) d ds)

  -- `PipelineRegistry.register`
  unfoldable pub register :
      PipelineDefinition S
      → Dict (String × String) (PipelineDefinition S)
      → Result RegistryError (Dict (String × String) (PipelineDefinition S))
  register d ds = registered d ds (get (d.pipeline_id, d.version) ds)

  -- `register_definition`
  unfoldable pub register_definition : PipelineDefinition S → Tables → Tables
  register_definition d t = record t {
    definitions =
        put (d.pipeline_id, d.version) (stage_names d.stages, d.source_call_budget) t.definitions;
  }

  -- `logical_key`, before it is hashed
  abbrev pub logical_key : PipelineDefinition S → String → String → String → String
  logical_key d logical_date slot partition_key =
      join "|" (d.pipeline_id ∷ d.version ∷ logical_date ∷ slot ∷ partition_key ∷ [])

  -- A stage that fails, and with it the run.
  unfoldable pub fail : String → PipelineStage S → ℕ → String → StageRun → S → Tables → Out S
  fail run_id stage calls message row s t = (
    err (execution_error run_id stage.name message),
    s,
    record t {
      stage_runs = put (run_id, stage.name) (set_failed message row) t.stage_runs;
      runs = update_runs run_id (mark_failed calls message) t.runs;
    },
  )

  -- `_record_evidence`, whose statements and renderings of JSON are taken to succeed
  unfoldable pub record_evidence :
      String → PipelineStage S → StageResult → StageRun → Tables → Tables
  record_evidence run_id stage result row t = record t {
    stage_runs = put (run_id, stage.name) (set_result result row) t.stage_runs;
    quality_results = t.quality_results ++ map (λ q. (run_id, q)) result.quality;
    lineage_edges = t.lineage_edges ++ map (λ l. (run_id, l)) result.lineage;
  }

  -- The handler has returned or raised; `k` is the rest of the loop.
  unfoldable pub settle :
      String
      → ℕ
      → PipelineStage S
      → ℕ
      → StageRun
      → Tables
      → (ℕ → S → Tables → Out S)
      → Result String StageResult × S
      → Out S
  settle run_id budget stage calls row t k (ok result, s) =
      if ltb budget (calls + result.source_calls)
      then fail run_id stage calls "source call budget exceeded" row s t
      else k (calls + result.source_calls) s (record_evidence run_id stage result row t)
  settle run_id budget stage calls row t k (err message, s) =
      fail run_id stage calls message row s t

  -- The body of the loop for one stage.
  unfoldable pub run_stage :
      StageContext → ℕ → ℕ → PipelineStage S → ℕ → S → Tables → (ℕ → S → Tables → Out S) → Out S
  run_stage context budget order stage calls s t k =
      let found = get (context.run_id, stage.name) t.stage_runs in
      let row = started order (attempt_of found + 1) found in
      if row_succeeded found
      then k calls s t
      else settle context.run_id budget stage calls row
          (record t { stage_runs = put (context.run_id, stage.name) row t.stage_runs }) k
          (stage.handler context s)

  -- `for order, stage in enumerate(definition.stages)`
  unfoldable pub run_stages : StageContext → ℕ → ℕ → List (PipelineStage S) → ℕ → S → Tables → Out S
  run_stages context budget order [] calls s t = (ok calls, s, t)
  run_stages context budget order (stage ∷ stages) calls s t =
      run_stage context budget order stage calls s t (run_stages context budget (order + 1) stages)

  abbrev pub claim_on :
      PipelineDefinition S
      → String
      → String
      → String
      → String
      → String
      → Tables
      → Option PipelineRun
      → Result RunError (String × RunStatus × Bool) × Tables
  claim_on d logical_date slot partition_key key run_id t (some existing) =
      (ok (existing.run_id, existing.status, true), t)
  claim_on d logical_date slot partition_key key run_id t none =
      if is_bound (find_run run_id t.runs) key then (err run_id_bound, t) else (
        ok (run_id, running, false),
        record t {
          runs =
              put key
                (record {
                  run_id = run_id;
                  pipeline_id = d.pipeline_id;
                  pipeline_version = d.version;
                  logical_date = logical_date;
                  slot = slot;
                  partition_key = partition_key;
                  status = running;
                  source_calls = 0;
                  error_message = none;
                })
                t.runs;
        },
      )

  -- `_claim_run`
  unfoldable pub claim_run :
      PipelineDefinition S
      → String
      → String
      → String
      → String
      → Option String
      → String
      → Tables
      → Result RunError (String × RunStatus × Bool) × Tables
  claim_run d logical_date slot partition_key key requested new t =
      claim_on d logical_date slot partition_key key (or_new requested new) t (get key t.runs)

  -- The end of `run`: the run has succeeded, or the error goes on.
  unfoldable pub conclude : String → Bool → Out S → Result RunError PipelineRunOutcome × S × Tables
  conclude run_id reused (err e, s, t) = (err e, s, t)
  conclude run_id reused (ok calls, s, t) = (
    ok (record { run_id = run_id; status = succeeded; reused = reused; source_calls = calls }),
    s,
    record t { runs = update_runs run_id (mark_succeeded calls) t.runs },
  )

  -- The body of `run` once the run is claimed.
  unfoldable pub run_claimed :
      PipelineDefinition S
      → String
      → String
      → String
      → S
      → Result RunError (String × RunStatus × Bool) × Tables
      → Result RunError PipelineRunOutcome × S × Tables
  run_claimed d logical_date slot partition_key s (err e, t) = (err e, s, t)
  run_claimed d logical_date slot partition_key s (ok (run_id, status, reused), t) =
      if has_succeeded status
      then (
        ok (record {
          run_id = run_id;
          status = status;
          reused = true;
          source_calls = calls_recorded (find_run run_id t.runs);
        }),
        s,
        t,
      )
      else conclude run_id reused (
          run_stages
            (record {
              run_id = run_id;
              logical_date = logical_date;
              slot = slot;
              partition_key = partition_key;
            })
            d.source_call_budget 0 d.stages (succeeded_calls run_id t.stage_runs) s
            (record t { runs = update_runs run_id mark_running t.runs }))

  -- `run`
  unfoldable pub run :
      (String → String)
      → PipelineDefinition S
      → String
      → String
      → String
      → S
      → Option String
      → String
      → Tables
      → Result RunError PipelineRunOutcome × S × Tables
  run sha256 d logical_date slot partition_key s requested new t =
      run_claimed d logical_date slot partition_key s (
        claim_run d logical_date slot partition_key
          (sha256 (logical_key d logical_date slot partition_key)) requested new
          (register_definition d t))
