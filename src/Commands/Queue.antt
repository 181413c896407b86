-- ===== src/Commands/Queue.antt =====
-- `InMemoryManagedPipelineCommands` of adapters/outbound/memory_commands.py: the fixed runs that are
-- queued, each once.
pub mod Once
use kis_portfolio_mcp.Common.{
  String, Bool, true, false, not, ◌&&◌, Option, none, some, List, [], ◌∷◌, ◌++◌, Result, ok, err,
  str_eq, if◌then◌else◌,
}
use kis_portfolio_mcp.Common.Dict.{Dict, get, put, text_key}
use kis_portfolio_mcp.Commands.Revisions.{WriteError, idempotency_conflict}

-- `ManagedRunCommand` of services/remote_commands.py
pub record ManagedRunCommand : Type 0 where
  pub run_id : String
  pub pipeline_id : String
  pub pipeline_version : String
  pub job_name : String
  pub logical_date : String
  pub slot : String
  pub actor_id : String
  pub client_id : String
  pub request_id : String
  pub idempotency_key : String

pub record RunQueue : Type 0 where
  pub commands : List ManagedRunCommand
  pub by_key : Dict String ManagedRunCommand

-- The comparison of two commands: all but the request, and the key that they share.
unfoldable pub same_run : ManagedRunCommand → ManagedRunCommand → Bool
same_run prior command =
    str_eq prior.run_id command.run_id
    && str_eq prior.pipeline_id command.pipeline_id
    && str_eq prior.pipeline_version command.pipeline_version
    && str_eq prior.job_name command.job_name
    && str_eq prior.logical_date command.logical_date
    && str_eq prior.slot command.slot
    && str_eq prior.actor_id command.actor_id
    && str_eq prior.client_id command.client_id

abbrev pub enqueue_on :
    ManagedRunCommand
    → RunQueue
    → Option ManagedRunCommand
    → Result WriteError (Unit {0}) × RunQueue
enqueue_on command q none = (
  ok tt,
  record q {
    by_key = put command.idempotency_key command q.by_key;
    commands = q.commands ++ (command ∷ []);
  },
)
enqueue_on command q (some prior) =
    if not (same_run prior command) then (err idempotency_conflict, q) else (ok tt, q)

-- `enqueue`
unfoldable pub enqueue : ManagedRunCommand → RunQueue → Result WriteError (Unit {0}) × RunQueue
enqueue command q = enqueue_on command q (get command.idempotency_key q.by_key)
