-- ===== src/Commands/Application.antt =====
-- `RemoteCommandApplication` of services/remote_commands.py: authorize a command, run it once under
-- a claim of its idempotency key, and replay its response to every retry. The validation and the
-- dump of requests (pydantic) and the hash of JSON are parameters; a dump is of a type `D`. The
-- clock is read four times: at the first look, at the claim, at the second look and at the end.
pub mod Execute
pub mod Authorization
pub mod Once
use kis_portfolio_mcp.Common.{
  ℕ, ◌+◌, ◌≡◌, String, Bool, true, false, not, ◌&&◌, ◌||◌, Option, none, some, List, [], ◌∷◌, ◌++◌,
  Result, ok, err, ◌>>=◌, str_eq, if◌then◌else◌, mem_text, join, length, strip, leb,
}
use kis_portfolio_mcp.Alerts.Redaction.{codes}
use kis_portfolio_mcp.Commands.Store.{StateStore, ClaimResult, claim, release, get_value, put_value}
use kis_portfolio_mcp.Commands.Revisions.{
  CommandActor, RevisionWrite, WriteError, idempotency_conflict, revision_conflict, other_exception,
  RevisionStore,
}
use kis_portfolio_mcp.Commands.Queue.{RunQueue}

-- The code of `RemoteCommandError`, the validation of a request or a response that fails, or another exception of an
-- operation, which is passed on.
pub data CommandError : Type 0 where
  insufficient_scope invalid_actor invalid_resource unknown_command_tool command_in_progress :
      CommandError
  stale_revision reused_key invalid_request invalid_response : CommandError
  raised : String → CommandError

pub data Status : Type 0 where
  accepted reused : Status

-- `CommandResponse`
pub record CommandResponse : Type 0 where
  pub request_id : String
  pub command_id : String
  pub status : Status
  pub run_id : Option String
  pub entity_id : Option String
  pub revision : Option ℕ

-- `{"request_hash": fingerprint, "response": accepted}`
pub record RunRequest : Type 0 where
  pub request_hash : String
  pub response : CommandResponse

-- The ports of the operations.
pub record Ports (D : Type 0) : Type 0 where
  pub queue : RunQueue
  pub revisions : RevisionStore D

pub record Services (D : Type 0) : Type 0 where
  pub state : StateStore RunRequest
  pub ports : Ports D

pub record Clock : Type 0 where
  pub read : ℕ
  pub claimed : ℕ
  pub reread : ℕ
  pub finished : ℕ

-- An operation: it is given the fingerprint, and returns a response or raises a write error.
abbrev pub Operation : Type 0 → Type 0
Operation D = String → Ports D → Result WriteError CommandResponse × Ports D

-- `timedelta(days=7)`, in seconds
abbrev pub idempotency_ttl : ℕ
idempotency_ttl = 604800

abbrev pub error_code : WriteError → CommandError
error_code revision_conflict = stale_revision
error_code idempotency_conflict = reused_key
error_code (other_exception message) = raised message

abbrev differs : Option String → String → Bool
differs none expected = true
differs (some r) expected = not (str_eq r expected)

-- `expected_resource and self.resource != expected_resource`
abbrev pub wrong_resource : Option String → Option String → Bool
wrong_resource none resource = false
wrong_resource (some expected) resource = not (str_eq expected "") && differs resource expected

-- `CommandActor.authorize`
unfoldable pub authorize : CommandActor → String → Option String → Option CommandError
authorize actor required_scope expected_resource =
    if not (mem_text required_scope actor.scopes)
    then some insufficient_scope
    else (if str_eq actor.actor_id "" || str_eq actor.client_id "" || str_eq actor.request_id ""
        then some invalid_actor
        else (if wrong_resource expected_resource actor.resource
            then some invalid_resource
            else none))

-- The request id of a `CommandResponse`: stripped, of 1 to 128 characters.
unfoldable pub response_id : String → Option String
response_id request_id =
    let n = length (codes (strip request_id)) in
    if leb 1 n && leb n 128 then some (strip request_id) else none

-- The response that a replay returns, if it validates under the new request id.
abbrev pub reused_as : CommandResponse → Option String → Result CommandError CommandResponse
reused_as r none = err invalid_response
reused_as r (some request_id) = ok (record r { status = reused; request_id = request_id })

-- `_replay`; of what it validates only the request id is new
unfoldable pub replay : RunRequest → String → String → Result CommandError CommandResponse
replay existing fingerprint request_id =
    if not (str_eq existing.request_hash fingerprint)
    then err reused_key
    else reused_as existing.response (response_id request_id)

module _ {D : Type 0} where
  -- What `_execute_once` does once the operation has returned or raised: the response is stored,
  -- and in either case, whatever was raised, the claim is released.
  unfoldable pub finish :
      String
      → String
      → String
      → String
      → ℕ
      → ℕ
      → StateStore RunRequest
      → Result WriteError CommandResponse × Ports D
      → Result CommandError CommandResponse × Services D
  finish state_key fingerprint resource owner token now st (ok response, ports) = (
    ok response,
    record {
      state =
          (release resource owner token (
            put_value "run_requests" state_key
              (record { request_hash = fingerprint; response = response })
              (some (now + idempotency_ttl)) st)).1;
      ports = ports;
    },
  )
  finish state_key fingerprint resource owner token now st (err e, ports) =
      (err (error_code e), record { state = (release resource owner token st).1; ports = ports })

  -- A claim that was refused: the holder may have stored its response by now.
  abbrev pub second_look :
      String
      → CommandActor
      → Ports D
      → Option RunRequest × StateStore RunRequest
      → Result CommandError CommandResponse × Services D
  second_look fingerprint actor ports (some existing, st) =
      (replay existing fingerprint actor.request_id, record { state = st; ports = ports })
  second_look fingerprint actor ports (none, st) =
      (err command_in_progress, record { state = st; ports = ports })

  unfoldable pub after_claim :
      String
      → String
      → String
      → CommandActor
      → Clock
      → Operation D
      → Ports D
      → ClaimResult × StateStore RunRequest
      → Result CommandError CommandResponse × Services D
  after_claim state_key fingerprint resource actor clock operation ports (c, st) =
      if not c.acquired
      then second_look fingerprint actor ports (get_value "run_requests" state_key clock.reread st)
      else finish state_key fingerprint resource actor.request_id c.fencing_token clock.finished st
          (operation fingerprint ports)

  unfoldable pub after_read :
      String
      → String
      → String
      → CommandActor
      → Clock
      → Operation D
      → Ports D
      → Option RunRequest × StateStore RunRequest
      → Result CommandError CommandResponse × Services D
  after_read state_key fingerprint resource actor clock operation ports (some existing, st) =
      (replay existing fingerprint actor.request_id, record { state = st; ports = ports })
  after_read state_key fingerprint resource actor clock operation ports (none, st) =
      after_claim state_key fingerprint resource actor clock operation ports
        (claim resource actor.request_id idempotency_ttl clock.claimed st)

  -- `_execute_once`, with the key and the fingerprint of the request
  unfoldable pub execute_once :
      String
      → String
      → CommandActor
      → Clock
      → Operation D
      → Services D
      → Result CommandError CommandResponse × Services D
  execute_once state_key fingerprint actor clock operation s =
      after_read state_key fingerprint (join ":" ("remote-command" ∷ state_key ∷ [])) actor clock
        operation s.ports (get_value "run_requests" state_key clock.read s.state)
