-- ===== src/Market/Guards.antt =====
-- Guards in order, `if test: raise ValueError(message)`, and the tests that the validators share.
use kis_portfolio_mcp.Common.{
  ◌≡◌, refl, String, Bool, true, false, not, ◌||◌, Option, none, some, List, [], ◌∷◌, All,
  if◌then◌else◌, mem_text, truthy, strip, ltb, Result, ok, err,
}
use kis_portfolio_mcp.Alerts.Python.{Moment}

-- The validation: the message of the first guard whose test holds.
unfoldable pub check : List (Bool × String) → Result String (Unit {0})
check [] = ok tt
check ((test, message) ∷ guards) = let rest = check guards in if test then err message else rest

-- A validation that returns has found no test to hold.
pub check-passes :
    (guards : List (Bool × String))
    → check guards ≡ ok tt
    → All (λ (g : Bool × String). g.0 ≡ false) guards
unfolding check
check-passes [] h = tt
check-passes ((true, message) ∷ guards) h = cc
check-passes ((false, message) ∷ guards) h = (refl, check-passes guards h)

-- Where no test holds, the validation returns.
pub check-ok :
    (guards : List (Bool × String))
    → All (λ (g : Bool × String). g.0 ≡ false) guards
    → check guards ≡ ok tt
unfolding check
check-ok [] h = refl
check-ok ((true, message) ∷ guards) h = cc
check-ok ((false, message) ∷ guards) h = check-ok guards h.1

-- `value not in allowed`
abbrev pub outside : List String → String → Bool
outside allowed value = not (mem_text value allowed)

-- `not all(value.strip() for value in values)`
unfoldable pub some_blank : List String → Bool
some_blank [] = false
some_blank (s ∷ ss) = not (truthy (strip s)) || some_blank ss

-- `any(value.tzinfo is None for value in values)`
unfoldable pub some_naive : List Moment → Bool
some_naive [] = false
some_naive (m ∷ ms) = not m.is_aware || some_naive ms

-- `value is None`
abbrev pub is_none {ℓ} : {A : Type ℓ} → Option A → Bool
is_none none = true
is_none (some a) = false

-- `not value`, of an optional text
abbrev pub absent : Option String → Bool
absent none = true
absent (some s) = not (truthy s)

-- `x < y`, of two aware times
abbrev pub earlier : Moment → Moment → Bool
earlier x y = ltb x.instant y.instant
