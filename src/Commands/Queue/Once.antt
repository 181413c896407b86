-- ===== src/Commands/Queue/Once.antt =====
-- A key stands for one queued run, however often it is sent.
use mathlib.Core.Path.{subst}
use kis_portfolio_mcp.Common.{
  ◌≡◌, refl, String, Option, none, some, List, [], ◌∷◌, ◌++◌, arith, filter, str_eq, str_eq_iff,
  if◌then◌else◌,
}
use kis_portfolio_mcp.Common.Dict.{get, get-put, text_key}
use kis_portfolio_mcp.Commands.Queue.{ManagedRunCommand, RunQueue, enqueue, enqueue_on}

-- The queued commands of a key.
abbrev pub queued : String → List ManagedRunCommand → List ManagedRunCommand
queued key cs = filter (λ (c : ManagedRunCommand). str_eq c.idempotency_key key) cs

abbrev pub at_most_one : Option ManagedRunCommand → List ManagedRunCommand
at_most_one none = []
at_most_one (some c) = c ∷ []

-- The queue has the one command of each key that is on record, and no other.
pub record IsQueuedOnce (q : RunQueue) : Type 0 where
  pub once : (key : String) → queued key q.commands ≡ at_most_one (get key q.by_key)

queued-append :
    (key : String) (cs : List ManagedRunCommand) (c : ManagedRunCommand)
    → queued key (cs ++ (c ∷ []))
      ≡ queued key cs ++ (if str_eq c.idempotency_key key then c ∷ [] else [])
queued-append key [] c = ground arith
queued-append key (x ∷ xs) c = ground (arith, queued-append key xs c)

enqueue_on-IsQueuedOnce :
    (command : ManagedRunCommand) (q : RunQueue) (o : Option ManagedRunCommand)
    → get command.idempotency_key q.by_key ≡ o
    → IsQueuedOnce q
    → IsQueuedOnce (enqueue_on command q o).1
enqueue_on-IsQueuedOnce command q none e h = record {
  once = λ key. ground (
    arith,
    queued-append key q.commands command,
    h.once key,
    get-put command.idempotency_key key command q.by_key,
    str_eq_iff command.idempotency_key key,
  );
}
enqueue_on-IsQueuedOnce command q (some prior) e h = subst IsQueuedOnce (ground arith) h

-- Whatever is enqueued, the queue keeps exactly one command for each key that was accepted, the
-- first one, and none for any other key.
pub enqueue-IsQueuedOnce :
    (command : ManagedRunCommand) (q : RunQueue)
    → IsQueuedOnce q
    → IsQueuedOnce (enqueue command q).1
unfolding enqueue
enqueue-IsQueuedOnce command q h =
    enqueue_on-IsQueuedOnce command q (get command.idempotency_key q.by_key) refl h
