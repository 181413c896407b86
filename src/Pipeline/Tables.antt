-- ===== src/Pipeline/Tables.antt =====
-- The tables of the `control` schema that platform/pipeline.py uses, and its statements on them. A run
-- is kept under its idempotency key, a stage run under its run and name. Timestamps and the JSON
-- documents of evidence are left out: no statement reads them back.
use kis_portfolio_mcp.Common.{
  ℕ, ◌+◌, String, Bool, true, false, Option, none, some, List, [], ◌∷◌, str_eq, if◌then◌else◌, ◌&&◌,
}
use kis_portfolio_mcp.Common.Dict.{Dict, text_key, pair_key}

pub data RunStatus : Type 0 where
  running succeeded failed : RunStatus

abbrev pub has_succeeded : RunStatus → Bool
has_succeeded running = false
has_succeeded succeeded = true
has_succeeded failed = false

-- A row of `control.pipeline_runs`
pub record PipelineRun : Type 0 where
  pub run_id : String
  pub pipeline_id : String
  pub pipeline_version : String
  pub logical_date : String
  pub slot : String
  pub partition_key : String
  pub status : RunStatus
  pub source_calls : ℕ
  pub error_message : Option String

-- A row of `control.pipeline_stage_runs`
pub record StageRun : Type 0 where
  pub stage_order : ℕ
  pub status : RunStatus
  pub attempt : ℕ
  pub input_count : ℕ
  pub output_count : ℕ
  pub source_calls : ℕ
  pub error_message : Option String

-- `QualityEvidence`
pub record QualityEvidence : Type 0 where
  pub dataset_id : String
  pub rule_id : String
  pub status : String
  pub observed_value : Option String
  pub expected_value : Option String

-- `LineageEvidence`
pub record LineageEvidence : Type 0 where
  pub input_ref : String
  pub output_ref : String
  pub transform_id : String
  pub transform_version : String

-- `StageResult`
pub record StageResult : Type 0 where
  pub input_count : ℕ
  pub output_count : ℕ
  pub source_calls : ℕ
  pub quality : List QualityEvidence
  pub lineage : List LineageEvidence

pub record Tables : Type 0 where
  pub definitions : Dict (String × String) (List String × ℕ)
  pub runs : Dict String PipelineRun
  pub stage_runs : Dict (String × String) StageRun
  pub quality_results : List (String × QualityEvidence)
  pub lineage_edges : List (String × LineageEvidence)

-- `UPDATE control.pipeline_runs SET … WHERE run_id=?`
unfoldable pub update_runs :
    String → (PipelineRun → PipelineRun) → Dict String PipelineRun → Dict String PipelineRun
update_runs run_id f [] = []
update_runs run_id f ((key, r) ∷ rs) =
    let rest = update_runs run_id f rs in
    if str_eq r.run_id run_id then (key, f r) ∷ rest else (key, r) ∷ rest

-- `SELECT … FROM control.pipeline_runs WHERE run_id=?`, with the idempotency key of the row
unfoldable pub find_run : String → Dict String PipelineRun → Option (String × PipelineRun)
find_run run_id [] = none
find_run run_id ((key, r) ∷ rs) =
    let rest = find_run run_id rs in if str_eq r.run_id run_id then some (key, r) else rest

abbrev pub calls_of : String × String → StageRun → String → ℕ
calls_of (id, name) row run_id =
    if str_eq id run_id && has_succeeded row.status then row.source_calls else 0

-- `coalesce(sum(source_calls), 0) … WHERE run_id=? AND status='succeeded'`
unfoldable pub succeeded_calls : String → Dict (String × String) StageRun → ℕ
succeeded_calls run_id [] = 0
succeeded_calls run_id ((k, row) ∷ rows) = calls_of k row run_id + succeeded_calls run_id rows

abbrev pub started : ℕ → ℕ → Option StageRun → StageRun
started order attempt none = record {
  stage_order = order;
  status = running;
  attempt = attempt;
  input_count = 0;
  output_count = 0;
  source_calls = 0;
  error_message = none;
}
started order attempt (some row) = record row {
  status = running;
  attempt = attempt;
  error_message = none;
}

abbrev pub set_result : StageResult → StageRun → StageRun
set_result result row = record row {
  status = succeeded;
  input_count = result.input_count;
  output_count = result.output_count;
  source_calls = result.source_calls;
}

abbrev pub mark_running : PipelineRun → PipelineRun
mark_running r = record r { status = running; error_message = none }

abbrev pub mark_failed : ℕ → String → PipelineRun → PipelineRun
mark_failed calls message r = record r {
  status = failed;
  source_calls = calls;
  error_message = some message;
}

abbrev pub mark_succeeded : ℕ → PipelineRun → PipelineRun
mark_succeeded calls r = record r { status = succeeded; source_calls = calls }

abbrev pub set_failed : String → StageRun → StageRun
set_failed message row = record row { status = failed; error_message = some message }
