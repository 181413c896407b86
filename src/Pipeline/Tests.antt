-- ===== src/Pipeline/Tests.antt =====
-- A pipeline of two stages, on empty tables.
use kis_portfolio_mcp.Common.{
  ℕ, ◌+◌, ◌≤◌, ◌≡◌, refl, String, true, false, none, some, List, [], ◌∷◌, ◌++◌, All, Result, ok,
  err, arith, str_eq, join,
}
use kis_portfolio_mcp.Common.Dict.{get, put, text_key, pair_key}
use kis_portfolio_mcp.Pipeline.Tables.{
  Tables, StageResult, succeeded, update_runs, find_run, succeeded_calls,
}
use kis_portfolio_mcp.Pipeline.Runner.{
  StageContext, PipelineStage, PipelineDefinition, PipelineRunOutcome, RunError, run, claim_run,
  run_claimed, run_stages, run_stage, settle, fail, record_evidence, conclude, register_definition,
}
use kis_portfolio_mcp.Pipeline.Resume.{HasSucceeded, run_stages_resume, run_stages_success}
use kis_portfolio_mcp.Pipeline.Replay.{run_again}

abbrev two_calls : StageResult
two_calls = record {
  input_count = 1;
  output_count = 1;
  source_calls = 2;
  quality = [];
  lineage = [];
}

abbrev counting : String → PipelineStage ℕ
counting name = record { name = name; handler = λ context n. (ok two_calls, n + 1) }

abbrev failing : PipelineStage ℕ
failing = record { name = "publish"; handler = λ context n. (err "down", n + 1) }

abbrev pipeline : List (PipelineStage ℕ) → PipelineDefinition ℕ
pipeline stages = record {
  pipeline_id = "p";
  version = "1";
  stages = stages;
  source_call_budget = 5;
}

abbrev empty_tables : Tables
empty_tables = record {
  definitions = [];
  runs = [];
  stage_runs = [];
  quality_results = [];
  lineage_edges = [];
}

abbrev context : StageContext
context = record {
  run_id = "r1";
  logical_date = "2026-01-05";
  slot = "kr-1000";
  partition_key = "default";
}

abbrev both : List (PipelineStage ℕ)
both = counting "collect" ∷ counting "publish" ∷ []

abbrev hash : String → String
hash s = "key"

abbrev first_run : Result RunError PipelineRunOutcome × ℕ × Tables
unfolding run claim_run run_claimed run_stages run_stage settle fail record_evidence conclude
    register_definition get put str_eq join update_runs find_run succeeded_calls
first_run = run hash (pipeline both) "2026-01-05" "kr-1000" "default" 0 none "r1" empty_tables

abbrev done_tables : Tables
done_tables = first_run.2

abbrev first_outcome : PipelineRunOutcome
first_outcome = record { run_id = "r1"; status = succeeded; reused = false; source_calls = 4 }

ran :
    run hash (pipeline both) "2026-01-05" "kr-1000" "default" 0 none "r1" empty_tables
    ≡ (ok first_outcome, 2, done_tables)
unfolding run claim_run run_claimed run_stages run_stage settle fail record_evidence conclude
    register_definition get put str_eq join update_runs find_run succeeded_calls
ran = refl

run_again_example :
    run hash
      (pipeline (failing ∷ []))
      "2026-01-05"
      "kr-1000"
      "default"
      7
      (some "r2")
      "r3"
      done_tables
    ≡ (
      ok (record { run_id = "r1"; status = succeeded; reused = true; source_calls = 4 }),
      7,
      register_definition (pipeline (failing ∷ [])) done_tables,
    )
run_again_example =
    run_again hash (pipeline both) (pipeline (failing ∷ [])) "2026-01-05" "kr-1000" "default" 0 2 7
      none (some "r2") "r1" "r3" empty_tables done_tables first_outcome ran refl refl

collected : HasSucceeded ("r1", "collect") done_tables
unfolding run claim_run run_claimed run_stages run_stage settle fail record_evidence conclude
    register_definition get put str_eq join update_runs find_run succeeded_calls
collected = refl

run_stages_resume_example :
    run_stages context 5 0 ((counting "collect" ∷ []) ++ (failing ∷ [])) 2 0 done_tables
    ≡ run_stages context 5 1 (failing ∷ []) 2 0 done_tables
run_stages_resume_example =
    run_stages_resume context 5 0 (counting "collect" ∷ []) (failing ∷ []) 2 0 done_tables
      (collected, tt)

stages_ran : (run_stages context 5 0 both 0 0 empty_tables).0 ≡ ok 4
unfolding run_stages run_stage settle fail record_evidence get put str_eq update_runs
stages_ran = refl

run_stages_success_example :
    (4 ≤ 5)
    × All
        (λ (stage : PipelineStage ℕ).
          HasSucceeded ("r1", stage.name) (run_stages context 5 0 both 0 0 empty_tables).2)
        both
run_stages_success_example =
    run_stages_success context 5 0 both 0 4 0 empty_tables (omega arith) stages_ran
