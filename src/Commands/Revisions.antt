-- ===== src/Commands/Revisions.antt =====
-- `InMemoryJournalRevisionCommands` of adapters/outbound/memory_commands.py: append-only revisions
-- of the owner's journals and threads, with optimistic concurrency and idempotency keys. A dumped
-- request is of a type `D`; its fingerprint, a hash of its canonical JSON, is a parameter.
pub mod Concurrency
pub mod Races
use kis_portfolio_mcp.Common.{
  ℕ, ◌+◌, String, Bool, true, false, not, Option, none, some, List, [], ◌∷◌, ◌++◌, Result, ok, err,
  ◌==◌, str_eq, if◌then◌else◌, length,
}
use kis_portfolio_mcp.Common.Dict.{Dict, get, put, text_key, pair_key}

-- `CommandActor` of services/remote_commands.py
pub record CommandActor : Type 0 where
  pub actor_id : String
  pub client_id : String
  pub scopes : List String
  pub resource : Option String
  pub request_id : String

-- `RevisionWrite` of services/remote_commands.py
pub record RevisionWrite : Type 0 where
  pub entity_id : String
  pub revision : ℕ
  pub inserted : Bool

-- What a port or an operation raises: one of the two conflicts, or another exception.
pub data WriteError : Type 0 where
  idempotency_conflict revision_conflict : WriteError
  other_exception : String → WriteError

pub record RecordedRevision (D : Type 0) : Type 0 where
  pub entity_id : String
  pub revision : ℕ
  pub document : D
  pub actor_id : String
  pub client_id : String
  pub request_id : String
  pub idempotency_key : String

pub data Kind : Type 0 where
  journal thread : Kind

-- The two targets and the keys that have been used.
pub record RevisionStore (D : Type 0) : Type 0 where
  pub journals : Dict String (List (RecordedRevision D))
  pub threads : Dict String (List (RecordedRevision D))
  pub idempotency : Dict (String × String) (String × RevisionWrite)

-- A request as `_append` receives it.
pub record Append (D : Type 0) : Type 0 where
  pub kind : Kind
  pub identity : String
  pub expected : ℕ
  pub idempotency_key : String
  pub document : D

abbrev pub kind_name : Kind → String
kind_name journal = "journal"
kind_name thread = "thread"

module _ {D : Type 0} where
  abbrev pub target : Kind → RevisionStore D → Dict String (List (RecordedRevision D))
  target journal s = s.journals
  target thread s = s.threads

  abbrev pub with_target :
      Kind → Dict String (List (RecordedRevision D)) → RevisionStore D → RevisionStore D
  with_target journal t s = record s { journals = t }
  with_target thread t s = record s { threads = t }

  abbrev or_nil : Option (List (RecordedRevision D)) → List (RecordedRevision D)
  or_nil none = []
  or_nil (some l) = l

  -- `target.setdefault(identity, [])`: the revisions of an entity, none if it is new.
  abbrev pub revisions : Kind → String → RevisionStore D → List (RecordedRevision D)
  revisions kind identity s = or_nil (get identity (target kind s))

  abbrev pub recorded : Append D → CommandActor → RecordedRevision D
  recorded r actor = record {
    entity_id = r.identity;
    revision = r.expected + 1;
    document = r.document;
    actor_id = actor.actor_id;
    client_id = actor.client_id;
    request_id = actor.request_id;
    idempotency_key = r.idempotency_key;
  }

  abbrev pub key_of : Append D → String × String
  key_of r = (kind_name r.kind, r.idempotency_key)

  module _ (fingerprint : D → String) where
    -- A key that was used: its first result, if it stands for the same document.
    unfoldable pub reuse :
        Append D
        → String × RevisionWrite
        → RevisionStore D
        → Result WriteError RevisionWrite × RevisionStore D
    reuse r (print, old) s =
        if not (str_eq print (fingerprint r.document)) then (err idempotency_conflict, s) else (
          ok (record { entity_id = old.entity_id; revision = old.revision; inserted = false }),
          s,
        )

    -- A new key: the append itself. `setdefault` leaves an empty list behind also on a conflict.
    unfoldable pub append_new :
        Append D
        → CommandActor
        → RevisionStore D
        → Result WriteError RevisionWrite × RevisionStore D
    append_new r actor s =
        let present = revisions r.kind r.identity s in
        let written : RevisionWrite = record {
          entity_id = r.identity;
          revision = r.expected + 1;
          inserted = true;
        } in
        let touched = with_target r.kind (put r.identity present (target r.kind s)) s in
        let grown =
          with_target r.kind (put r.identity (present ++ (recorded r actor ∷ [])) (target r.kind s))
            s in
        if not (length present == r.expected) then (err revision_conflict, touched) else (
          ok written,
          record grown {
            idempotency = put (key_of r) (fingerprint r.document, written) s.idempotency;
          },
        )

    abbrev pub append_on :
        Append D
        → CommandActor
        → RevisionStore D
        → Option (String × RevisionWrite)
        → Result WriteError RevisionWrite × RevisionStore D
    append_on r actor s none = append_new r actor s
    append_on r actor s (some prior) = reuse r prior s

    -- `_append`, which `append_journal` and `append_thread_revision` call with their kind.
    unfoldable pub append :
        Append D
        → CommandActor
        → RevisionStore D
        → Result WriteError RevisionWrite × RevisionStore D
    append r actor s = append_on r actor s (get (key_of r) s.idempotency)
