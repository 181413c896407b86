-- ===== src/Commands/Application/Execute.antt =====
-- `execute` of services/remote_commands.py: the three commands, their operations on the ports, and
-- the authorization that comes before each.
use kis_portfolio_mcp.Common.{
  true, false, ℕ, String, Bool, Option, none, some, List, [], ◌∷◌, Result, ok, err, str_eq,
  if◌then◌else◌, join,
}
use kis_portfolio_mcp.Commands.Revisions.{
  CommandActor, RevisionWrite, WriteError, other_exception, journal, thread, append, RevisionStore,
}
use kis_portfolio_mcp.Commands.Queue.{ManagedRunCommand, RunQueue, enqueue}
use kis_portfolio_mcp.Commands.Application.{
  CommandError, unknown_command_tool, Status, accepted, reused, CommandResponse, Ports, Services,
  Clock, Operation, authorize, response_id, execute_once, invalid_request,
}

-- `ManagedPipelineRequest`
pub record ManagedPipelineRequest : Type 0 where
  pub pipeline : String
  pub logical_date : String
  pub slot : String
  pub idempotency_key : String

-- `UpsertTradeJournalRequest`
pub record UpsertTradeJournalRequest : Type 0 where
  pub journal_id : String
  pub thread_id : Option String
  pub trade_event_id : Option String
  pub body : String
  pub authored_at : String
  pub expected_revision : ℕ
  pub idempotency_key : String

-- `ThreadMetadataChange`, `LotLinkChange` and `SellAllocationChange`
pub data ThreadChange : Type 0 where
  metadata : (title status : Option String) → ThreadChange
  lot_link : (lot_id linkage_quality : String) → ThreadChange
  sell_allocation :
      (allocation_id allocation_method : String) (lot_ids : List String) (reason : String)
      → ThreadChange

-- `ReviseTradeThreadRequest`
pub record ReviseTradeThreadRequest : Type 0 where
  pub thread_id : String
  pub change : ThreadChange
  pub authored_at : String
  pub expected_revision : ℕ
  pub idempotency_key : String

-- A validated request
pub data Request : Type 0 where
  run : ManagedPipelineRequest → Request
  upsert : UpsertTradeJournalRequest → Request
  revise : ReviseTradeThreadRequest → Request

abbrev pub managed_pipeline_id : String
managed_pipeline_id = "pipeline.owned-portfolio-core-v2"

abbrev pub managed_pipeline_version : String
managed_pipeline_version = "1.4.0"

abbrev pub collect_scope : String
collect_scope = "mcp:collect"

abbrev pub journal_write_scope : String
journal_write_scope = "mcp:journal.write"

-- `MANAGED_JOB_BY_SLOT`, on the slots that a request can have
abbrev pub managed_job_by_slot : String → String
managed_job_by_slot slot =
    if str_eq slot "kr-1000"
    then "kis-portfolio-owned-core-v2-1000"
    else (if str_eq slot "kr-1400"
        then "kis-portfolio-owned-core-v2-1430"
        else "kis-portfolio-owned-core-v2-1600")

abbrev pub canonical_slot : String → String
canonical_slot slot = if str_eq slot "kr-1430" then "kr-1400" else slot

-- The scope that a tool asks for; an unknown tool has none.
abbrev pub required_scope : String → Option String
required_scope tool =
    if str_eq tool "run-managed-pipeline"
    then some collect_scope
    else (if str_eq tool "upsert-trade-journal"
        then some journal_write_scope
        else (if str_eq tool "revise-trade-thread" then some journal_write_scope else none))

-- What a digest is taken of: a text or a dumped request.
pub data Part (D : Type 0) : Type 0 where
  text : String → Part D
  document : D → Part D

abbrev inserted_status : Bool → Status
inserted_status true = accepted
inserted_status false = reused

abbrev pub key_of_request : Request → String
key_of_request (run r) = r.idempotency_key
key_of_request (upsert r) = r.idempotency_key
key_of_request (revise r) = r.idempotency_key

module _ {Raw D : Type 0} (validate : String → Raw → Option Request) (dump : Request → D)
    (revision_dump : Request → D) (sha256 : String → String) (revision_print : D → String)
    (digest : List (Part D) → String) where
  -- `managed_pipeline_logical_run_id`
  unfoldable pub managed_pipeline_logical_run_id : String → String → String
  managed_pipeline_logical_run_id logical_date slot = sha256 (
      join "|" (
        managed_pipeline_id
        ∷ managed_pipeline_version
        ∷ logical_date
        ∷ canonical_slot slot
        ∷ "all-accounts"
        ∷ []))

  -- `CommandResponse(...)`: built under the request id of the actor, if that validates.
  abbrev built : CommandActor → (String → CommandResponse) → Result WriteError CommandResponse
  built actor response = elim (response_id actor.request_id) [
    | none ↦ err (other_exception "the response does not validate")
    | some request_id ↦ ok (response request_id)
  ]

  abbrev queued_response :
      CommandActor
      → String
      → String
      → Result WriteError (Unit {0}) × RunQueue
      → Ports D
      → Result WriteError CommandResponse × Ports D
  queued_response actor fingerprint run_id (err e, q) p = (err e, record p { queue = q })
  queued_response actor fingerprint run_id (ok _, q) p = (
    built actor (λ request_id. record {
      request_id = request_id;
      command_id = digest (text "command-v1" ∷ text "collect" ∷ text fingerprint ∷ []);
      status = accepted;
      run_id = some run_id;
      entity_id = none;
      revision = none;
    }),
    record p { queue = q },
  )

  -- `_run_pipeline`; `enqueue` of the modelled port returns no status, which reads as accepted
  unfoldable pub run_pipeline : ManagedPipelineRequest → CommandActor → Operation D
  run_pipeline r actor fingerprint p =
      let slot = canonical_slot r.slot in
      let run_id = managed_pipeline_logical_run_id r.logical_date slot in
      let command : ManagedRunCommand = record {
        run_id = run_id;
        pipeline_id = managed_pipeline_id;
        pipeline_version = managed_pipeline_version;
        job_name = managed_job_by_slot slot;
        logical_date = r.logical_date;
        slot = slot;
        actor_id = actor.actor_id;
        client_id = actor.client_id;
        request_id = actor.request_id;
        idempotency_key = r.idempotency_key;
      } in
      queued_response actor fingerprint run_id (enqueue command p.queue) p

  abbrev written_response :
      CommandActor
      → String
      → String
      → Ports D
      → Result WriteError RevisionWrite × RevisionStore D
      → Result WriteError CommandResponse × Ports D
  written_response actor name fingerprint p (err e, revisions) =
      (err e, record p { revisions = revisions })
  written_response actor name fingerprint p (ok write, revisions) = (
    built actor (λ request_id. record {
      request_id = request_id;
      command_id = digest (text "command-v1" ∷ text name ∷ text fingerprint ∷ []);
      status = inserted_status write.inserted;
      run_id = none;
      entity_id = some write.entity_id;
      revision = some write.revision;
    }),
    record p { revisions = revisions },
  )

  -- `_append_journal`
  unfoldable pub append_journal : UpsertTradeJournalRequest → CommandActor → Operation D
  append_journal r actor fingerprint p = written_response actor "journal" fingerprint p (
      append revision_print
        (record {
          kind = journal;
          identity = r.journal_id;
          expected = r.expected_revision;
          idempotency_key = r.idempotency_key;
          document = revision_dump (upsert r);
        })
        actor p.revisions)

  -- `_append_thread_revision`
  unfoldable pub append_thread_revision : ReviseTradeThreadRequest → CommandActor → Operation D
  append_thread_revision r actor fingerprint p = written_response actor "thread" fingerprint p (
      append revision_print
        (record {
          kind = thread;
          identity = r.thread_id;
          expected = r.expected_revision;
          idempotency_key = r.idempotency_key;
          document = revision_dump (revise r);
        })
        actor p.revisions)

  abbrev pub operation : Request → CommandActor → Operation D
  operation (run r) actor = run_pipeline r actor
  operation (upsert r) actor = append_journal r actor
  operation (revise r) actor = append_thread_revision r actor

  -- The key under which the response of a request is kept.
  abbrev pub state_key : String → CommandActor → Request → String
  state_key tool actor request = digest (
      text "remote-command"
      ∷ text actor.actor_id
      ∷ text actor.client_id
      ∷ text tool
      ∷ text (key_of_request request)
      ∷ [])

  abbrev pub fingerprint_of : String → Request → String
  fingerprint_of tool request = digest (text tool ∷ document (dump request) ∷ [])

  abbrev pub validated :
      String
      → CommandActor
      → Clock
      → Services D
      → Option Request
      → Result CommandError CommandResponse × Services D
  validated tool actor clock s none = (err invalid_request, s)
  validated tool actor clock s (some request) =
      execute_once (state_key tool actor request) (fingerprint_of tool request) actor clock
        (operation request actor) s

  abbrev pub authorized :
      String
      → Raw
      → CommandActor
      → Clock
      → Services D
      → Option CommandError
      → Result CommandError CommandResponse × Services D
  authorized tool raw actor clock s (some e) = (err e, s)
  authorized tool raw actor clock s none = validated tool actor clock s (validate tool raw)

  abbrev pub dispatch :
      String
      → Raw
      → CommandActor
      → Option String
      → Clock
      → Services D
      → Option String
      → Result CommandError CommandResponse × Services D
  dispatch tool raw actor expected_resource clock s none = (err unknown_command_tool, s)
  dispatch tool raw actor expected_resource clock s (some scope) =
      authorized tool raw actor clock s (authorize actor scope expected_resource)

  -- `execute`
  unfoldable pub execute :
      String
      → Raw
      → CommandActor
      → Option String
      → Clock
      → Services D
      → Result CommandError CommandResponse × Services D
  execute tool raw actor expected_resource clock s =
      dispatch tool raw actor expected_resource clock s (required_scope tool)
