-- ===== src/Common/Dict.antt =====
-- A Python dict in insertion order, over keys with a Boolean equality: `get`, `d[k] = v` and `del`.
use Prim.Native.String.{String}
use mathlib.Core.Path.{◌≡◌, refl}
use mathlib.Core.Logic.{◌↔◌, ◌≢◌}
use mathlib.Core.Bool.{Bool, true, ◌&&◌}
use mathlib.Core.Option.{Option, none, some}
use mathlib.Core.List.{List, [], ◌∷◌}
use native.Mathlib.Omega.{arith}
use kis_portfolio_mcp.Common.Tests.{if◌then◌else◌}
use kis_portfolio_mcp.Common.Text.{str_eq, str_eq_iff}

-- Keys that can be compared.
pub record Key (K : Type 0) : Type 0 where
  pub same : K → K → Bool
  pub same_iff : (a b : K) → (same a b ≡ true) ↔ (a ≡ b)

instance abbrev pub text_key : Key String
text_key = record { same = str_eq; same_iff = str_eq_iff }

pub pair_same_iff : (a b : String × String) → ((str_eq a.0 b.0 && str_eq a.1 b.1) ≡ true) ↔ (a ≡ b)
pair_same_iff (a, b) (c, d) = (
  λ h. ground (arith, str_eq_iff a c, str_eq_iff b d),
  λ e. ground (arith, str_eq_iff a c, str_eq_iff b d),
)

instance abbrev pub pair_key : Key (String × String)
pair_key = record { same = λ a b. str_eq a.0 b.0 && str_eq a.1 b.1; same_iff = pair_same_iff }

abbrev pub Dict {ℓ} : Type 0 → Type ℓ → Type ℓ
Dict K V = List (K × V)

pub same_refl : {K : Type 0} ⦃key : Key K⦄ (k : K) → key.same k k ≡ true
same_refl ⦃key⦄ k = (key.same_iff k k).1 refl

module _ {ℓ} {K : Type 0} {V : Type ℓ} ⦃key : Key K⦄ where
  unfoldable pub get : K → Dict K V → Option V
  get k [] = none
  get k ((j, v) ∷ d) = let rest = get k d in if key.same j k then some v else rest

  unfoldable pub put : K → V → Dict K V → Dict K V
  put k v [] = (k, v) ∷ []
  put k v ((j, w) ∷ d) = let rest = put k v d in if key.same j k then (j, v) ∷ d else (j, w) ∷ rest

  unfoldable pub remove : K → Dict K V → Dict K V
  remove k [] = []
  remove k ((j, w) ∷ d) = let rest = remove k d in if key.same j k then rest else (j, w) ∷ rest

  pub get-put :
      (k j : K) (v : V) (d : Dict K V)
      → get j (put k v d) ≡ (if key.same k j then some v else get j d)
  unfolding get put
  get-put k j v [] = refl
  get-put k j v ((i, w) ∷ d) =
      ground (arith, key.same_iff k j, key.same_iff i k, key.same_iff i j, get-put k j v d)

  pub get-remove :
      (k j : K) (d : Dict K V) → get j (remove k d) ≡ (if key.same k j then none else get j d)
  unfolding get remove
  get-remove k j [] = ground arith
  get-remove k j ((i, w) ∷ d) =
      ground (arith, key.same_iff k j, key.same_iff i k, key.same_iff i j, get-remove k j d)

  pub get-put_self : (k : K) (v : V) (d : Dict K V) → get k (put k v d) ≡ some v
  get-put_self k v d = simp (get-put, same_refl)

  pub get-put_other : (k j : K) (v : V) (d : Dict K V) → k ≢ j → get j (put k v d) ≡ get j d
  get-put_other k j v d n = ground (arith, get-put k j v d, key.same_iff k j)

  pub get-remove_other : (k j : K) (d : Dict K V) → k ≢ j → get j (remove k d) ≡ get j d
  get-remove_other k j d n = ground (arith, get-remove k j d, key.same_iff k j)

  pub get-remove_self : (k : K) (d : Dict K V) → get k (remove k d) ≡ none
  get-remove_self k d = simp (get-remove, same_refl)
