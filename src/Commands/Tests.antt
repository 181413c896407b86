-- ===== src/Commands/Tests.antt =====
-- The commands at concrete stores, requests and clocks.
use kis_portfolio_mcp.Common.{
  str_eq_iff, if◌then◌else◌, ℕ, String, true, false, none, some, [], ◌∷◌, ok, err, ◌≡◌, ◌≢◌, ◌↔◌,
  refl, arith, str_eq, List, join,
}
use kis_portfolio_mcp.Common.Dict.{get, put, remove, text_key, pair_key}
use kis_portfolio_mcp.Commands.Store.{
  StateStore, ClaimResult, empty_store, claim, release, grant, get_value, put_value,
}
use kis_portfolio_mcp.Commands.Store.Fencing.{
  Op, claim_op, release_op, tokens, GrowFrom, tokens-GrowFrom, claim_exclusive, release_fenced,
  last_token,
}
use kis_portfolio_mcp.Commands.Revisions.{
  Kind, revisions, thread, CommandActor, RevisionWrite, RevisionStore, Append, journal, append,
  append_new, reuse, revision_conflict, other_exception, key_of,
}
use kis_portfolio_mcp.Commands.Revisions.Concurrency.{NumberedFrom, IsNumbered, append-IsNumbered}
use kis_portfolio_mcp.Commands.Revisions.Races.{append_lost_update}
use kis_portfolio_mcp.Commands.Queue.{ManagedRunCommand, RunQueue, enqueue}
use kis_portfolio_mcp.Commands.Queue.Once.{IsQueuedOnce, enqueue-IsQueuedOnce}
use kis_portfolio_mcp.Commands.Application.{
  CommandResponse, CommandError, accepted, reused_key, Services, Clock, execute_once, reused_as,
  response_id, finish, after_claim, after_read, idempotency_ttl, RunRequest, Operation,
}
use kis_portfolio_mcp.Commands.Application.Once.{execute_once_again, execute_once_frees}
use kis_portfolio_mcp.Commands.Application.Execute.{Request, Part, upsert, execute}
use mathlib.Core.Bool.{false≢true}
use mathlib.Core.List.Memᴰ.{cases_cons, not-nil}
use mathlib.Core.Path.{sym, ◌∙◌}
use kis_portfolio_mcp.Common.{str_eq_iff, inl, inr, str_eq}
use kis_portfolio_mcp.Commands.Application.Authorization.{IsAuthorized, execute_fail_closed}

abbrev claims_run : List Op
claims_run =
    claim_op "job" "a" 10 0
    ∷ claim_op "job" "b" 10 5
    ∷ release_op "job" "a" 1
    ∷ claim_op "job" "b" 10 6
    ∷ []

tokens_found : tokens "job" claims_run (empty_store {V = ℕ}) ≡ 1 ∷ 2 ∷ []
unfolding tokens claim release grant get put remove str_eq
tokens_found = refl

tokens-GrowFrom_example :
    GrowFrom
      (last_token "job" (empty_store {V = ℕ}))
      (tokens "job" claims_run (empty_store {V = ℕ}))
tokens-GrowFrom_example = tokens-GrowFrom "job" claims_run empty_store

abbrev first_claim : ClaimResult
first_claim = record { acquired = true; fencing_token = 1; expires_at = 10; owner_id = "a" }

abbrev claimed_store : StateStore ℕ
claimed_store = record {
  values = [];
  claims = ("job", first_claim) ∷ [];
  fencing = ("job", 1) ∷ [];
}

claimed_first : claim "job" "a" 10 0 (empty_store {V = ℕ}) ≡ (first_claim, claimed_store)
unfolding claim grant get put
claimed_first = refl

claim_exclusive_example :
    (d : ClaimResult) × (claim "job" "b" 10 7 claimed_store ≡ (d, claimed_store))
    × (d.acquired ≡ false)
    × (d.owner_id ≡ "a")
    × (d.fencing_token ≡ 1)
claim_exclusive_example =
    claim_exclusive "job" "a" "b" 10 0 10 7 empty_store claimed_store first_claim claimed_first refl
      (omega arith)

abbrev other_token : ℕ
other_token = 2

release_fenced_example :
    (((release "job" "a" other_token claimed_store).0 ≡ true) ↔ (other_token ≡ 1))
    × ((claim "job" "b" 10 7 (release "job" "a" 1 claimed_store).1).0.acquired ≡ true)
release_fenced_example =
    release_fenced "job" "a" "b" 10 0 other_token 10 7 empty_store claimed_store first_claim
      claimed_first refl

abbrev actor : CommandActor
actor = record {
  actor_id = "owner";
  client_id = "client";
  scopes = "mcp:journal.write" ∷ [];
  resource = some "https://mcp";
  request_id = "r1";
}

abbrev print : String → String
print s = s

abbrev note : String → String → Append String
note key body = record {
  kind = journal;
  identity = "j1";
  expected = 0;
  idempotency_key = key;
  document = body;
}

abbrev no_revisions : RevisionStore String
no_revisions = record { journals = []; threads = []; idempotency = [] }

nothing_numbered :
    (kind : Kind) (identity : String) → NumberedFrom print 0 (revisions kind identity no_revisions)
unfolding get
nothing_numbered journal identity = tt
nothing_numbered thread identity = tt

no_revisions-IsNumbered : IsNumbered print no_revisions
no_revisions-IsNumbered = record { numbered = nothing_numbered }

append-IsNumbered_example :
    IsNumbered print (append print (note "k1" "bought") actor no_revisions).1
append-IsNumbered_example =
    append-IsNumbered print (note "k1" "bought") actor no_revisions no_revisions-IsNumbered

abbrev written : RevisionWrite
written = record { entity_id = "j1"; revision = 1; inserted = true }

abbrev one_revision : RevisionStore String
unfolding append append_new reuse get put str_eq
one_revision = (append print (note "k1" "bought") actor no_revisions).1

appended : append print (note "k1" "bought") actor no_revisions ≡ (ok written, one_revision)
unfolding append append_new reuse get put str_eq
appended = refl

abbrev sold : String
sold = "sold"

notes_differ : sold ≢ "bought"
unfolding str_eq
notes_differ e = let same : str_eq "sold" "bought" ≡ true = (str_eq_iff "sold" "bought").1 e in cc

fresh_key : get (key_of (note "k2" "sold")) one_revision.idempotency ≡ none
unfolding append append_new reuse get put str_eq
fresh_key = refl

append_lost_update_example :
    (append print (note "k2" "sold") actor one_revision).0 ≡ err revision_conflict
append_lost_update_example =
    append_lost_update print (note "k1" "bought") (note "k2" "sold") actor actor no_revisions
      one_revision written appended refl refl refl refl fresh_key

abbrev managed : ManagedRunCommand
managed = record {
  run_id = "run";
  pipeline_id = "pipeline";
  pipeline_version = "1";
  job_name = "job";
  logical_date = "2026-01-05";
  slot = "kr-1000";
  actor_id = "owner";
  client_id = "client";
  request_id = "r1";
  idempotency_key = "k1";
}

abbrev no_runs : RunQueue
no_runs = record { commands = []; by_key = [] }

no_runs-IsQueuedOnce : IsQueuedOnce no_runs
unfolding get
no_runs-IsQueuedOnce = record { once = λ key. refl }

enqueue-IsQueuedOnce_example : IsQueuedOnce (enqueue managed no_runs).1
enqueue-IsQueuedOnce_example = enqueue-IsQueuedOnce managed no_runs no_runs-IsQueuedOnce

abbrev response : CommandResponse
response = record {
  request_id = "r1";
  command_id = "c1";
  status = accepted;
  run_id = none;
  entity_id = some "j1";
  revision = some 1;
}

abbrev services : Services String
services = record {
  state = empty_store;
  ports = record { queue = no_runs; revisions = no_revisions };
}

abbrev morning : Clock
morning = record { read = 1; claimed = 2; reread = 3; finished = 4 }

abbrev evening : Clock
evening = record { read = 1000; claimed = 1001; reread = 1002; finished = 1003 }

abbrev respond : Operation String
respond fingerprint ports = (ok response, ports)

abbrev after_morning : Services String
unfolding execute_once after_read after_claim finish get_value put_value claim release grant get put
    remove str_eq join
after_morning = (execute_once "key" "print" actor morning respond services).1

ran_once : execute_once "key" "print" actor morning respond services ≡ (ok response, after_morning)
unfolding execute_once after_read after_claim finish get_value put_value claim release grant get put
    remove str_eq join
ran_once = refl

execute_once_again_example : execute_once "key" "other" actor evening respond after_morning ≡ (
  (if str_eq "print" "other" then reused_as response (response_id "r1") else err reused_key),
  after_morning,
)
execute_once_again_example =
    execute_once_again "key" "print" "other" actor actor morning evening respond respond services
      after_morning response ran_once refl (omega arith)

first_read : get_value "run_requests" "key" 1 services.state ≡ (none, services.state)
unfolding get_value get
first_read = refl

abbrev granted : ClaimResult × StateStore RunRequest
unfolding claim grant get put join
granted = claim (join ":" ("remote-command" ∷ "key" ∷ [])) "r1" idempotency_ttl 2 services.state

granted_acquired : granted.0.acquired ≡ true
unfolding claim grant get put join
granted_acquired = refl

granted_claim :
    claim (join ":" ("remote-command" ∷ "key" ∷ [])) "r1" idempotency_ttl 2 services.state
    ≡ (granted.0, granted.1)
unfolding claim grant get put join
granted_claim = refl

-- An operation that raises an exception other than a conflict.
abbrev break_off : Operation String
break_off fingerprint p = (err (other_exception "disk full"), p)

execute_once_frees_example :
    get
      (join ":" ("remote-command" ∷ "key" ∷ []))
      (execute_once "key" "print" actor morning break_off services).1.state.claims
    ≡ none
execute_once_frees_example =
    execute_once_frees "key" "print" actor morning break_off services services.state granted.1
      granted.0 first_read granted_claim granted_acquired

abbrev journal_request : Request
journal_request = upsert (record {
  journal_id = "j1";
  thread_id = some "t1";
  trade_event_id = none;
  body = "bought";
  authored_at = "2026-01-05T09:00:00+09:00";
  expected_revision = 0;
  idempotency_key = "key-00001";
})

abbrev hashed : List (Part String) → String
hashed parts = "digest"

-- The journal's scope is not the scope of the pipeline.
actor_denied : ¬ (IsAuthorized "run-managed-pipeline" actor none)
unfolding str_eq
actor_denied (scope, asked, granted_scope, _, _, _, _) = elim asked [
  | inl (_, collects) ↦ elim (cases_cons granted_scope) [
    | inl same ↦ false≢true ((str_eq_iff "mcp:collect" "mcp:journal.write").1 (sym collects ∙ same))
    | inr other ↦ not-nil other
  ]
  | inr (inl tool, _) ↦
      false≢true ((str_eq_iff "run-managed-pipeline" "upsert-trade-journal").1 tool)
  | inr (inr tool, _) ↦
      false≢true ((str_eq_iff "run-managed-pipeline" "revise-trade-thread").1 tool)
]

execute_fail_closed_example :
    (e : CommandError) × (execute
        (λ tool raw. some raw)
        (λ r. "doc")
        (λ r. "doc")
        print
        print
        hashed
        "run-managed-pipeline"
        journal_request
        actor
        none
        morning
        services
      ≡ (err e, services))
execute_fail_closed_example =
    execute_fail_closed (λ tool raw. some raw) (λ r. "doc") (λ r. "doc") print print hashed
      "run-managed-pipeline" journal_request actor none morning services actor_denied
