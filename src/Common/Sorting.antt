-- ===== src/Common/Sorting.antt =====
-- Python's `sorted(items, key=...)`: a stable sort by insertion, over a test `le` of two items, and
-- what it keeps: sums, predicates on every item, and the order by a number that `le` respects.
use Prim.Native.Nat.{ℕ, ◌+◌, ◌≤◌}
use mathlib.Core.Path.{◌≡◌, refl}
use mathlib.Core.Bool.{Bool, true, false}
use mathlib.Core.List.{List, [], ◌∷◌, Perm}
use mathlib.Core.List.Perm
use native.Mathlib.Omega.{arith}
use kis_portfolio_mcp.Common.Tests.{if◌then◌else◌, if_cases}
use kis_portfolio_mcp.Common.Lists.{total, All}

module _ {ℓ} {A : Type ℓ} (le : A → A → Bool) where
  unfoldable pub insert : A → List A → List A
  insert x [] = x ∷ []
  insert x (y ∷ ys) = let rest = insert x ys in if le x y then x ∷ y ∷ ys else y ∷ rest

  unfoldable pub sort : List A → List A
  unfolding insert
  sort [] = []
  sort (x ∷ xs) = insert x (sort xs)

  total-insert : (f : A → ℕ) (x : A) (xs : List A) → total f (insert x xs) ≡ f x + total f xs
  unfolding insert
  total-insert f x [] = refl
  total-insert f x (y ∷ ys) = ground (arith, total-insert f x ys)

  -- Sorting keeps every sum.
  pub total-sort : (f : A → ℕ) (xs : List A) → total f (sort xs) ≡ total f xs
  unfolding sort
  total-sort f [] = refl
  total-sort f (x ∷ xs) = omega (arith, total-insert f x (sort xs), total-sort f xs)

  perm-insert : (x : A) (xs : List A) → Perm (insert x xs) (x ∷ xs)
  unfolding insert
  perm-insert x [] = Perm.refl (x ∷ [])
  perm-insert x (y ∷ ys) =
      if_cases (λ l. Perm l (x ∷ y ∷ ys)) (le x y) (x ∷ y ∷ ys) (y ∷ insert x ys)
        (λ e. Perm.refl (x ∷ y ∷ ys))
        (λ e. Perm.trans (Perm.cons y (perm-insert x ys)) (Perm.swap x y ys))

  -- The sorted list has the same items.
  pub perm-sort : (xs : List A) → Perm (sort xs) xs
  unfolding sort
  perm-sort [] = Perm.refl []
  perm-sort (x ∷ xs) = Perm.trans (perm-insert x (sort xs)) (Perm.cons x (perm-sort xs))

  module _ {κ} (P : A → Type κ) where
    All-insert : (x : A) (xs : List A) → P x → All P xs → All P (insert x xs)
    unfolding insert
    All-insert x [] p h = (p, tt)
    All-insert x (y ∷ ys) p h =
        if_cases (All P) (le x y) (x ∷ y ∷ ys) (y ∷ insert x ys) (λ e. (p, h))
          (λ e. (h.0, All-insert x ys p h.1))

    -- Sorting keeps what holds of every item.
    pub All-sort : (xs : List A) → All P xs → All P (sort xs)
    unfolding sort
    All-sort [] h = tt
    All-sort (x ∷ xs) h = All-insert x (sort xs) h.0 (All-sort xs h.1)

-- Each item's key is at most the next one's.
abbrev pub Ascending {ℓ} : {A : Type ℓ} → (A → ℕ) → List A → Type 0
Ascending key [] = Unit
Ascending key (x ∷ []) = Unit
Ascending key (x ∷ y ∷ ys) = (key x ≤ key y) × Ascending key (y ∷ ys)

module _ {ℓ} {A : Type ℓ} (le : A → A → Bool) (key : A → ℕ) where
  -- The test agrees with the key, both ways.
  pub record Respects : Type ℓ where
    pub below : (x y : A) → le x y ≡ true → key x ≤ key y
    pub above : (x y : A) → le x y ≡ false → key y ≤ key x

  module _ (agrees : Respects) where
    Ascending-insert : (x : A) (ys : List A) → Ascending key ys → Ascending key (insert le x ys)
    unfolding insert
    Ascending-insert x [] h = tt
    Ascending-insert x (y ∷ []) h = ground (arith, agrees.below x y, agrees.above x y)
    Ascending-insert x (y ∷ z ∷ zs) h = ground (
      arith,
      agrees.below x y,
      agrees.above x y,
      agrees.below x z,
      agrees.above x z,
      Ascending-insert x (z ∷ zs),
    )

    -- The sorted list goes up by the key.
    pub Ascending-sort : (xs : List A) → Ascending key (sort le xs)
    unfolding sort
    Ascending-sort [] = tt
    Ascending-sort (x ∷ xs) = Ascending-insert x (sort le xs) (Ascending-sort xs)
