-- ===== src/Resilience/Circuit/Laws.antt =====
-- What the circuit breaker promises.
use mathlib.Core.Path.{subst, ap, ◌∙◌}
use kis_portfolio_mcp.Common.{
  ℕ, ◌+◌, ◌≤◌, ◌<◌, ◌≡◌, ◌↔◌, refl, true, false, none, some, List, [], ◌∷◌, ◌++◌, ltb, leb,
  if◌then◌else◌, if_cases, Bool-cases, length, filter, arith, All, length-append, ◌⊎◌, inl, inr,
}
use kis_portfolio_mcp.Resilience.Circuit.{
  CircuitState, CircuitSettings, circuit_open, circuit_half_open, allow_circuit_request,
  record_circuit_failure, drop_old, CircuitEvent, allow, success, release_probe, failure, react,
}

-- The times are in order and none is after `now`.
abbrev pub Before : ℕ → List ℕ → Type 0
Before now [] = Unit
Before now (t ∷ ts) = (t ≤ now) × All (λ u. t ≤ u) ts × Before now ts

-- The failures of the window that ends now.
abbrev pub recent : ℕ → ℕ → List ℕ → List ℕ
recent window now ts = filter (λ t. leb now (t + window)) ts

recent-All :
    (window now t : ℕ) (ts : List ℕ)
    → now ≤ t + window
    → All (λ u. t ≤ u) ts
    → recent window now ts ≡ ts
recent-All window now t [] h a = refl
recent-All window now t (u ∷ us) h (a, rest) = ground (arith, recent-All window now t us h rest)

-- The loop over the deque keeps exactly the failures of the window.
drop_old-recent :
    (window now : ℕ) (ts : List ℕ) → Before now ts → drop_old window now ts ≡ recent window now ts
unfolding drop_old
drop_old-recent window now [] h = refl
drop_old-recent window now (t ∷ ts) (l, a, b) =
    if_cases (λ x. x ≡ recent window now (t ∷ ts)) (ltb (t + window) now) _ _
      (λ e. ground (arith, drop_old-recent window now ts b))
      (λ e. ground (arith, recent-All window now t ts))

-- With the failures in the order of their times, a failure opens the circuit exactly when it is that
-- of the half-open probe, or when it and the failures of the window before it reach the threshold;
-- then the circuit is open for the set time, and in every case no probe is left.
pub record_circuit_failure-opens :
    (settings : CircuitSettings) (now : ℕ) (state : CircuitState)
    → Before now state.failures
    → let (opened, state') = record_circuit_failure settings now state in
      ((opened ≡ true) ↔ (
        (state.half_open_probe_active ≡ true)
        ⊎ (settings.threshold ≤ length (recent settings.window now state.failures) + 1)))
      × (state'.open_until ≡ (if opened then now + settings.open_seconds else state.open_until))
      × (state'.half_open_probe_active ≡ false)
unfolding record_circuit_failure
record_circuit_failure-opens settings now state h =
    let counted : length (drop_old settings.window now state.failures ++ (now ∷ []))
        ≡ length (recent settings.window now state.failures) + 1 =
      length-append (drop_old settings.window now state.failures) (now ∷ [])
      ∙ ap (λ ts. length ts + 1) (drop_old-recent settings.window now state.failures h) in
    (
      (
        (λ e. elim (Bool-cases state.half_open_probe_active) [
          | inl p ↦ inl p
          | inr q ↦ inr (ground (arith, counted))
        ]),
        (λ x. elim x [ inl p ↦ ground arith | inr q ↦ ground (arith, counted) ]),
      ),
      ground arith,
      ground arith,
    )

Before-append : (now : ℕ) (ts : List ℕ) → Before now ts → Before now (ts ++ (now ∷ []))
Before-append now [] h = (omega arith, tt, tt)
Before-append now (t ∷ ts) (l, a, b) = (l, All-append t now ts l a, Before-append now ts b)
  where
    All-append :
        (t now : ℕ) (ts : List ℕ)
        → t ≤ now
        → All (λ u. t ≤ u) ts
        → All (λ u. t ≤ u) (ts ++ (now ∷ []))
    All-append t now [] l a = (l, tt)
    All-append t now (u ∷ us) l (a, b) = (a, All-append t now us l b)

drop_old-Before :
    (window now : ℕ) (ts : List ℕ) → Before now ts → Before now (drop_old window now ts)
unfolding drop_old
drop_old-Before window now [] h = tt
drop_old-Before window now (t ∷ ts) (l, a, b) =
    if_cases (Before now) (ltb (t + window) now) _ (t ∷ ts) (λ _. drop_old-Before window now ts b)
      (λ _. (l, a, b))

Before-later : (now later : ℕ) (ts : List ℕ) → now ≤ later → Before now ts → Before later ts
Before-later now later [] h b = tt
Before-later now later (t ∷ ts) h (l, a, b) = (omega arith, a, Before-later now later ts h b)

abbrev pub time_of : ℕ → CircuitEvent → ℕ
time_of last (allow now) = now
time_of last success = last
time_of last release_probe = last
time_of last (failure now) = now

-- Whatever happens to a circuit, the failures that it keeps stay in the order of their times, none
-- after the last event, when the clock does not go back.
pub react-Before :
    (settings : CircuitSettings) (last : ℕ) (event : CircuitEvent) (state : CircuitState)
    → last ≤ time_of last event
    → Before last state.failures
    → Before (time_of last event) (react settings event state).failures
unfolding react allow_circuit_request record_circuit_failure
react-Before settings last (allow now) state l h =
    subst (Before now) (ground arith) (Before-later last now state.failures l h)
react-Before settings last success state l h = tt
react-Before settings last release_probe state l h = h
react-Before settings last (failure now) state l h = subst (Before now) (ground arith) (
    Before-append now _ (
      drop_old-Before settings.window now state.failures
        (Before-later last now state.failures l h)))

-- While an opened circuit is open every request is refused, and none changes it; from then on one
-- request is let through as the probe, until that is settled every other one is refused, and a
-- failure meanwhile opens the circuit again.
pub opened_circuit :
    (settings : CircuitSettings) (state : CircuitState) (now early late later : ℕ)
    → 0 < settings.open_seconds
    → (record_circuit_failure settings now state).0 ≡ true
    → early < now + settings.open_seconds
    → now + settings.open_seconds ≤ late
    → now + settings.open_seconds ≤ later
    → let opened = (record_circuit_failure settings now state).1 in
      let probed = (allow_circuit_request late opened).1 in
      (allow_circuit_request early opened ≡ (some circuit_open, opened))
      × ((allow_circuit_request late opened).0 ≡ none)
      × (allow_circuit_request later probed ≡ (some circuit_half_open, probed))
      × ((record_circuit_failure settings later probed).0 ≡ true)
unfolding record_circuit_failure allow_circuit_request
opened_circuit settings state now early late later p h e l l' =
    (ground arith, ground arith, ground arith, ground arith)
