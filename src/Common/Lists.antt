-- ===== src/Common/Lists.antt =====
-- Lists measured by native numbers, predicates on lists, and sums: what Python's `len`, slices,
-- `all` and `sum` answer.
use Prim.Native.Nat.{ℕ, zero, suc, ◌+◌}
use mathlib.Core.Path.{◌≡◌, refl}
use mathlib.Core.Logic.{◌≢◌, ◌⊎◌, inl, inr}
use mathlib.Core.Bool.{Bool, true, false}
use mathlib.Core.List.{List, [], ◌∷◌, ◌++◌}
use native.Mathlib.Omega.{arith}
use kis_portfolio_mcp.Common.Tests.{if◌then◌else◌, if_cases}

module _ {ℓ} {A : Type ℓ} where
  abbrev pub length : List A → ℕ
  length [] = 0
  length (x ∷ xs) = suc (length xs)

  abbrev pub take : ℕ → List A → List A
  take zero xs = []
  take (suc n) [] = []
  take (suc n) (x ∷ xs) = x ∷ take n xs

  -- `[x for x in xs if keep(x)]`
  abbrev pub filter : (A → Bool) → List A → List A
  filter keep [] = []
  filter keep (x ∷ xs) = let rest = filter keep xs in if keep x then x ∷ rest else rest

  -- `any(test(x) for x in xs)`
  abbrev pub any : (A → Bool) → List A → Bool
  any test [] = false
  any test (x ∷ xs) = let rest = any test xs in if test x then true else rest

  -- `all(test(x) for x in xs)`
  abbrev pub all : (A → Bool) → List A → Bool
  all test [] = true
  all test (x ∷ xs) = let rest = all test xs in if test x then rest else false

  -- `not xs`
  abbrev pub is_empty : List A → Bool
  is_empty [] = true
  is_empty (x ∷ xs) = false

  pub is_empty-false : (xs : List A) → xs ≢ [] → is_empty xs ≡ false
  is_empty-false [] h = absurd (h refl)
  is_empty-false (x ∷ xs) h = refl

  -- To split on whether a list is empty.
  pub List-cases : (xs : List A) → (xs ≡ []) ⊎ ((xs ≢ []) × (is_empty xs ≡ false))
  List-cases [] = inl refl
  List-cases (x ∷ xs) = inr ((λ e. cc), refl)

  -- `sum(f(x) for x in xs)`
  abbrev pub total : (A → ℕ) → List A → ℕ
  total f [] = 0
  total f (x ∷ xs) = f x + total f xs

  -- A predicate on every item.
  abbrev pub All {κ} : (A → Type κ) → List A → Type κ
  All P [] = Unit
  All P (x ∷ xs) = P x × All P xs

  pub length-append : (xs ys : List A) → length (xs ++ ys) ≡ length xs + length ys
  length-append [] ys = omega arith
  length-append (x ∷ xs) ys = omega (arith, length-append xs ys)

module _ {ℓ} {A : Type ℓ} where
  pub All-map {κ μ} :
      (P : A → Type κ) (Q : A → Type μ)
      → ((x : A) → P x → Q x)
      → (xs : List A) → All P xs
      → All Q xs
  All-map P Q f [] h = tt
  All-map P Q f (x ∷ xs) h = (f x h.0, All-map P Q f xs h.1)

  -- What passes the test of a filter, passes it; and what held of the list holds of the rest.
  pub All-filter {κ} :
      (P : A → Type κ) (keep : A → Bool) (xs : List A)
      → All P xs
      → All (λ x. P x × (keep x ≡ true)) (filter keep xs)
  All-filter P keep [] h = tt
  All-filter P keep (x ∷ xs) h =
      if_cases (All (λ y. P y × (keep y ≡ true))) (keep x) (x ∷ filter keep xs) (filter keep xs)
        (λ e. ((h.0, e), All-filter P keep xs h.1)) (λ e. All-filter P keep xs h.1)
