-- ===== src/Commands/Application/Once.antt =====
-- A command runs once.
use mathlib.Core.Path.{subst, ap, ◌∙◌}
use kis_portfolio_mcp.Common.{
  ℕ, ◌+◌, ◌<◌, ◌≡◌, ◌≢◌, String, true, not, Option, none, some, [], ◌∷◌, Result, ok, err, arith,
  str_eq, str_eq_iff, if◌then◌else◌, if_cases, join,
}
use kis_portfolio_mcp.Common.Dict.{get, get-put_self, get-remove_self, text_key, pair_key}
use kis_portfolio_mcp.Commands.Store.{
  StateStore, ClaimResult, claim, release, get_value, put_value, drop_expired,
}
use kis_portfolio_mcp.Commands.Store.Fencing.{claim_recorded}
use kis_portfolio_mcp.Commands.Revisions.{CommandActor, WriteError}
use kis_portfolio_mcp.Commands.Application.{
  CommandError, accepted, reused_key, reused, CommandResponse, RunRequest, Ports, Services, Clock,
  Operation, idempotency_ttl, replay, reused_as, response_id, finish, after_claim, after_read,
  execute_once, second_look,
}

-- The entry that the state has for a key, and when it expires.
abbrev pub Stored : String → RunRequest → ℕ → StateStore RunRequest → Type 0
Stored state_key entry expires st =
    get ("run_requests", state_key) st.values ≡ some (entry, some expires)

get_value_live :
    (key : String) (entry : RunRequest) (expires now : ℕ) (st : StateStore RunRequest)
    → Stored key entry expires st
    → now < expires
    → get_value "run_requests" key now st ≡ (some entry, st)
unfolding get_value
get_value_live key entry expires now st h l =
    ap (drop_expired ("run_requests", key) st now) h ∙ ground arith

release_values :
    (resource owner : String) (token : ℕ) (st : StateStore RunRequest)
    → (release resource owner token st).1.values ≡ st.values
unfolding release
release_values resource owner token st = ground arith

reused_as-reused :
    (entry : CommandResponse) (id : Option String) (r : CommandResponse)
    → reused_as entry id ≡ ok r
    → r.status ≡ reused
reused_as-reused entry none r h = cc
reused_as-reused entry (some id) r h = ground arith

replay-reused :
    (entry : RunRequest) (fingerprint request_id : String) (r : CommandResponse)
    → replay entry fingerprint request_id ≡ ok r
    → r.status ≡ reused
unfolding replay
replay-reused entry fingerprint request_id r h =
    if_cases (λ x. x ≡ ok r → r.status ≡ reused) (not (str_eq entry.request_hash fingerprint)) _ _
      (λ _ x. cc) (λ _ x. reused_as-reused entry.response (response_id request_id) r x) h

release_frees :
    (resource owner : String) (st : StateStore RunRequest) (c : ClaimResult)
    → get resource st.claims ≡ some c
    → c.owner_id ≡ owner
    → get resource (release resource owner c.fencing_token st).1.claims ≡ none
unfolding release
release_frees resource owner st c h o =
    ground (arith, get-remove_self resource st.claims, str_eq_iff c.owner_id owner)

not_accepted : (r : CommandResponse) → r.status ≡ reused → r.status ≢ accepted
not_accepted r a b = cc

module _ {D : Type 0} where
  -- While a response is stored for a key, a command with the key never runs its operation, whatever
  -- that is: the services stay as they are, and the outcome is the replay.
  pub execute_once-Stored :
      (state_key fingerprint : String) (actor : CommandActor) (clock : Clock)
      (operation : Operation D) (s : Services D) (entry : RunRequest) (expires : ℕ)
      → Stored state_key entry expires s.state
      → clock.read < expires
      → execute_once state_key fingerprint actor clock operation s
        ≡ (replay entry fingerprint actor.request_id, s)
  unfolding execute_once after_read
  execute_once-Stored state_key fingerprint actor clock operation s entry expires h l =
      ap
        (after_read state_key fingerprint (join ":" ("remote-command" ∷ state_key ∷ [])) actor clock
          operation s.ports)
        (get_value_live state_key entry expires clock.read s.state h l)

  -- What is stored once a command has returned.
  abbrev pub Keeps : String → String → ℕ → Result CommandError CommandResponse × Services D → Type 0
  Keeps state_key fingerprint expires (ok r, s) =
      Stored state_key (record { request_hash = fingerprint; response = r }) expires s.state
  Keeps state_key fingerprint expires (err e, s) = Unit

  finish-Keeps :
      (state_key fingerprint resource owner : String) (token now : ℕ) (st : StateStore RunRequest)
      (p : Result WriteError CommandResponse × Ports D)
      → Keeps state_key fingerprint
          (now + idempotency_ttl)
          (finish state_key fingerprint resource owner token now st p)
  unfolding finish put_value
  finish-Keeps state_key fingerprint resource owner token now st (ok r, ports) =
      ap (get ("run_requests", state_key)) (release_values resource owner token _)
      ∙ get-put_self ("run_requests", state_key)
          (record { request_hash = fingerprint; response = r }, some (now + idempotency_ttl))
          st.values
  finish-Keeps state_key fingerprint resource owner token now st (err e, ports) = tt

  second_look-reused :
      (fingerprint : String) (actor : CommandActor) (p : Ports D)
      (look : Option RunRequest × StateStore RunRequest) (r : CommandResponse) (s : Services D)
      → second_look fingerprint actor p look ≡ (ok r, s)
      → r.status ≡ reused
  second_look-reused fingerprint actor p (some e, st) r s h =
      replay-reused e fingerprint actor.request_id r
        (ap (λ (x : Result CommandError CommandResponse × Services D). x.0) h)
  second_look-reused fingerprint actor p (none, st) r s h = cc

  after_claim-Keeps :
      (state_key fingerprint resource : String) (actor : CommandActor) (clock : Clock)
      (operation : Operation D) (p : Ports D) (c : ClaimResult) (st : StateStore RunRequest)
      (r : CommandResponse) (s : Services D)
      → after_claim state_key fingerprint resource actor clock operation p (c, st) ≡ (ok r, s)
      → r.status ≡ accepted
      → Stored state_key
          (record { request_hash = fingerprint; response = r })
          (clock.finished + idempotency_ttl)
          s.state
  unfolding after_claim
  after_claim-Keeps state_key fingerprint resource actor clock operation p c st r s h a =
      if_cases
        (λ (x : Result CommandError CommandResponse × Services D).
          x ≡ (ok r, s)
          → Stored state_key (record { request_hash = fingerprint; response = r })
              (clock.finished + idempotency_ttl) s.state)
        (not c.acquired) _ _
        (λ _ e. absurd (not_accepted r (second_look-reused fingerprint actor p _ r s e) a))
        (λ _ e. subst (Keeps state_key fingerprint (clock.finished + idempotency_ttl)) e (
          finish-Keeps state_key fingerprint resource actor.request_id c.fencing_token
            clock.finished st (operation fingerprint p)))
        h

  -- An accepted response is one that the operation gave, and it is stored.
  accepted-Keeps :
      (state_key fingerprint resource : String) (actor : CommandActor) (clock : Clock)
      (operation : Operation D) (p : Ports D) (read : Option RunRequest × StateStore RunRequest)
      (r : CommandResponse) (s : Services D)
      → after_read state_key fingerprint resource actor clock operation p read ≡ (ok r, s)
      → r.status ≡ accepted
      → Stored state_key
          (record { request_hash = fingerprint; response = r })
          (clock.finished + idempotency_ttl)
          s.state
  unfolding after_read
  accepted-Keeps state_key fingerprint resource actor clock operation p (some e, st) r s h a =
      absurd (
        not_accepted r
          (replay-reused e fingerprint actor.request_id r
            (ap (λ (x : Result CommandError CommandResponse × Services D). x.0) h))
          a)
  accepted-Keeps state_key fingerprint resource actor clock operation p (none, st) r s h a =
      let (c, st') = claim resource actor.request_id idempotency_ttl clock.claimed st in
      after_claim-Keeps state_key fingerprint resource actor clock operation p c st' r s h a

  -- Once a command was accepted, every command with the same key that is read within the seven days
  -- that follow changes nothing, whatever its operation, its request and its actor's request id: with
  -- the same fingerprint it is answered with the same response, marked as reused and under its own
  -- request id, stripped, if that has 1 to 128 characters, and with any other fingerprint it is refused
  -- as a conflict.
  pub execute_once_again :
      (state_key fingerprint fingerprint' : String) (actor actor' : CommandActor)
      (clock clock' : Clock) (operation operation' : Operation D) (s s' : Services D)
      (r : CommandResponse)
      → execute_once state_key fingerprint actor clock operation s ≡ (ok r, s')
      → r.status ≡ accepted
      → clock'.read < clock.finished + idempotency_ttl
      → execute_once state_key fingerprint' actor' clock' operation' s' ≡ (
        (if str_eq fingerprint fingerprint'
            then reused_as r (response_id actor'.request_id)
            else err reused_key),
        s',
      )
  unfolding execute_once replay
  execute_once_again state_key fingerprint fingerprint' actor actor' clock clock' operation
        operation' s s' r h a l =
      execute_once-Stored state_key fingerprint' actor' clock' operation' s' _ _
        (accepted-Keeps state_key fingerprint _ actor clock operation s.ports _ r s' h a) l
      ∙ ground arith

  finish_frees :
      (state_key fingerprint resource owner : String) (now : ℕ) (st : StateStore RunRequest)
      (c : ClaimResult) (p : Result WriteError CommandResponse × Ports D)
      → get resource st.claims ≡ some c
      → c.owner_id ≡ owner
      → get resource
          (finish state_key fingerprint resource owner c.fencing_token now st p).1.state.claims
        ≡ none
  unfolding finish put_value
  finish_frees state_key fingerprint resource owner now st c (ok r, ports) h o =
      release_frees resource owner _ c h o
  finish_frees state_key fingerprint resource owner now st c (err e, ports) h o =
      release_frees resource owner st c h o

  -- No command keeps its claim: when it finds no stored response and acquires the claim, the claim is
  -- gone once it ends, whether its operation returned or raised.
  pub execute_once_frees :
      (state_key fingerprint : String) (actor : CommandActor) (clock : Clock)
      (operation : Operation D) (s : Services D) (st st' : StateStore RunRequest) (c : ClaimResult)
      → get_value "run_requests" state_key clock.read s.state ≡ (none, st)
      → claim
          (join ":" ("remote-command" ∷ state_key ∷ []))
          actor.request_id
          idempotency_ttl
          clock.claimed
          st
        ≡ (c, st')
      → c.acquired ≡ true
      → get
          (join ":" ("remote-command" ∷ state_key ∷ []))
          (execute_once state_key fingerprint actor clock operation s).1.state.claims
        ≡ none
  unfolding execute_once after_read after_claim
  execute_once_frees state_key fingerprint actor clock operation s st st' c look e a =
      let resource = join ":" ("remote-command" ∷ state_key ∷ []) in
      let (held, owner, _) =
        claim_recorded resource actor.request_id idempotency_ttl clock.claimed st st' c e a in
      let freed =
        finish_frees state_key fingerprint resource actor.request_id clock.finished st' c
          (operation fingerprint s.ports) held owner in
      rw (look, e, a) freed
