-- ===== src/Commands/Application/Authorization.antt =====
-- The commands fail closed.
use kis_portfolio_mcp.Common.{
  refl, ◌≡◌, ◌≢◌, arith, inl, inr, ◌⊎◌, Bool, true, false, mem_text, mem_text-Mem, str_eq,
  str_eq_iff, if_cases, String, Option, none, some, List, err,
}
use mathlib.Core.Path.{ap}
use mathlib.Core.List.{Memᴰ}
use kis_portfolio_mcp.Commands.Revisions.{CommandActor}
use kis_portfolio_mcp.Commands.Application.{
  CommandError, unknown_command_tool, Services, Clock, authorize, wrong_resource,
}
use kis_portfolio_mcp.Commands.Application.Execute.{
  Request, Part, required_scope, authorized, dispatch, execute,
}

-- The scope that each of the three tools asks for.
abbrev pub AsksFor : String → String → Type 0
AsksFor tool scope =
    ((tool ≡ "run-managed-pipeline") × (scope ≡ "mcp:collect"))
    ⊎ (((tool ≡ "upsert-trade-journal") ⊎ (tool ≡ "revise-trade-thread"))
        × (scope ≡ "mcp:journal.write"))

-- The resource is the expected one, where one is expected.
abbrev pub IsExpected : Option String → Option String → Type 0
IsExpected none resource = Unit
IsExpected (some expected) resource = (expected ≡ "") ⊎ (resource ≡ some expected)

-- A command is authorized: its tool is one of the three, the actor has the tool's scope and is named,
-- and the resource is the expected one.
abbrev pub IsAuthorized : String → CommandActor → Option String → Type 0
IsAuthorized tool actor expected_resource =
    (scope : String) × AsksFor tool scope
    × Memᴰ scope actor.scopes
    × (actor.actor_id ≢ "")
    × (actor.client_id ≢ "")
    × (actor.request_id ≢ "")
    × IsExpected expected_resource actor.resource

asked : (tool scope : String) → required_scope tool ≡ some scope → AsksFor tool scope
asked tool scope h =
    if_cases (λ o. o ≡ some scope → AsksFor tool scope) (str_eq tool "run-managed-pipeline") _ _
      (λ e x. inl ((str_eq_iff tool "run-managed-pipeline").0 e, cc))
      (λ _.
        if_cases (λ o. o ≡ some scope → AsksFor tool scope) (str_eq tool "upsert-trade-journal") _ _
          (λ e x. inr (inl ((str_eq_iff tool "upsert-trade-journal").0 e), cc))
          (λ _.
            if_cases (λ o. o ≡ some scope → AsksFor tool scope) (str_eq tool "revise-trade-thread")
              _ _ (λ e x. inr (inr ((str_eq_iff tool "revise-trade-thread").0 e), cc)) (λ _ x. cc)))
      h

wrong_resource-IsExpected :
    (expected resource : Option String)
    → wrong_resource expected resource ≡ false
    → IsExpected expected resource
wrong_resource-IsExpected none resource h = tt
wrong_resource-IsExpected (some e) none h = inl ((str_eq_iff e "").0 (ground arith))
wrong_resource-IsExpected (some e) (some r) h =
    if_cases (λ (_ : Bool). IsExpected (some e) (some r)) (str_eq e "") true false
      (λ blank. inl ((str_eq_iff e "").0 blank))
      (λ named. inr (ap some ((str_eq_iff r e).0 (ground arith))))

-- What `authorize` lets through.
authorize_sound :
    (actor : CommandActor) (scope : String) (expected_resource : Option String)
    → authorize actor scope expected_resource ≡ none
    → (mem_text scope actor.scopes ≡ true)
      × (actor.actor_id ≢ "")
      × (actor.client_id ≢ "")
      × (actor.request_id ≢ "")
      × (wrong_resource expected_resource actor.resource ≡ false)
unfolding authorize
authorize_sound actor scope expected_resource h = (
  ground arith,
  (λ e. ground (arith, str_eq_iff actor.actor_id "")),
  (λ e. ground (arith, str_eq_iff actor.client_id "")),
  (λ e. ground (arith, str_eq_iff actor.request_id "")),
  ground arith,
)

module _ {Raw D : Type 0} (validate : String → Raw → Option Request) (dump : Request → D)
    (revision_dump : Request → D) (sha256 : String → String) (revision_print : D → String)
    (digest : List (Part D) → String) where
  authorized_or_error :
      (tool : String) (raw : Raw) (actor : CommandActor) (clock : Clock) (s : Services D)
      (o : Option CommandError)
      → (o ≡ none)
        ⊎ ((e : CommandError) × (authorized validate dump revision_dump sha256 revision_print digest
                tool raw actor clock s o
              ≡ (err e, s)))
  authorized_or_error tool raw actor clock s none = inl refl
  authorized_or_error tool raw actor clock s (some e) = inr (e, refl)

  dispatched_or_error :
      (tool : String) (raw : Raw) (actor : CommandActor) (expected_resource : Option String)
      (clock : Clock) (s : Services D) (o : Option String)
      → ((scope : String) × (o ≡ some scope) × (authorize actor scope expected_resource ≡ none))
        ⊎ ((e : CommandError) × (dispatch validate dump revision_dump sha256 revision_print digest
                tool raw actor expected_resource clock s o
              ≡ (err e, s)))
  dispatched_or_error tool raw actor expected_resource clock s none =
      inr (unknown_command_tool, refl)
  dispatched_or_error tool raw actor expected_resource clock s (some scope) =
      elim (authorized_or_error tool raw actor clock s (authorize actor scope expected_resource)) [
        | inl e ↦ inl (scope, refl, e)
        | inr x ↦ inr x
      ]

  -- Fail closed: a command that is not authorized, since its tool is unknown, its actor lacks the
  -- tool's scope or has an empty name, or its resource is another than the expected one, raises an
  -- error and leaves the state, the queue and the revisions as they are.
  pub execute_fail_closed :
      (tool : String) (raw : Raw) (actor : CommandActor) (expected_resource : Option String)
      (clock : Clock) (s : Services D)
      → ¬ (IsAuthorized tool actor expected_resource)
      → (e : CommandError) × (execute validate dump revision_dump sha256 revision_print digest tool
            raw actor expected_resource clock s
          ≡ (err e, s))
  unfolding execute
  execute_fail_closed tool raw actor expected_resource clock s denied =
      elim (dispatched_or_error tool raw actor expected_resource clock s (required_scope tool)) [
        | inl (scope, asks, free) ↦
            let (scoped, named, client, request, resource) =
              authorize_sound actor scope expected_resource free in
            absurd (
              denied (
                scope,
                asked tool scope asks,
                mem_text-Mem scope actor.scopes scoped,
                named,
                client,
                request,
                wrong_resource-IsExpected expected_resource actor.resource resource,
              ))
        | inr x ↦ x
      ]
