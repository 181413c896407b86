-- ===== src/Backfill/Plan/Tiles.antt =====
-- The shards of a window: the loop ends, and its shards are the window's days, each once.
use mathlib.Core.Path.{◌∙◌, ap}
use kis_portfolio_mcp.Common.{
  ℕ, ◌+◌, ◌-◌, ◌≤◌, ◌<◌, ◌≡◌, refl, zero, suc, List, [], ◌∷◌, leb, if_cases, arith,
}
use kis_portfolio_mcp.Coverage.{Interval}
use kis_portfolio_mcp.Backfill.Plan.{shard_end, shards_from, shards}

-- The intervals follow each other without a gap or an overlap, from the first day to the last, and
-- none is longer than the number of days.
abbrev pub Tiles : ℕ → ℕ → ℕ → List Interval → Type 0
Tiles first last days [] = first ≡ last + 1
Tiles first last days (x ∷ xs) =
    (x.lower ≡ first)
    × (first ≤ x.upper)
    × (x.upper ≤ last)
    × (x.upper + 1 ≤ first + days)
    × Tiles (x.upper + 1) last days xs

shards_from-Tiles :
    (fuel cursor end days : ℕ)
    → 1 ≤ days
    → cursor ≤ end + 1
    → end + 1 ≤ cursor + fuel
    → Tiles cursor end days (shards_from fuel cursor end days)
unfolding shards_from
shards_from-Tiles zero cursor end days d h f = omega arith
shards_from-Tiles (suc fuel) cursor end days d h f =
    if_cases (Tiles cursor end days) (leb cursor end) _ _
      (λ e. (
        refl,
        ground arith,
        ground arith,
        ground arith,
        shards_from-Tiles fuel (shard_end cursor end days + 1) end days d (ground arith)
            (ground arith),
      ))
      (λ e. ground arith)

shards_from-past : (fuel cursor end days : ℕ) → end < cursor → shards_from fuel cursor end days ≡ []
unfolding shards_from
shards_from-past zero cursor end days h = refl
shards_from-past (suc fuel) cursor end days h = ground arith

shards_from_enough :
    (fuel more cursor end days : ℕ)
    → 1 ≤ days
    → end + 1 ≤ cursor + fuel
    → shards_from (fuel + more) cursor end days ≡ shards_from fuel cursor end days
unfolding shards_from
shards_from_enough zero more cursor end days d f =
    shards_from-past (zero + more) cursor end days (omega arith)
shards_from_enough (suc fuel) more cursor end days d f =
    let count : suc fuel + more ≡ suc (fuel + more) = omega arith in
    ap (λ n. shards_from n cursor end days) count
    ∙ if_cases (λ l. l ≡ shards_from (suc fuel) cursor end days) (leb cursor end) _ _
        (λ e. ground (arith, shards_from_enough fuel more (shard_end cursor end days + 1) end days))
        (λ e. ground arith)

-- The loop ends by its own test: with shards of at least one day, the shards tile the window, and no
-- greater number of rounds gives others.
pub shards-Tiles :
    (start end days more : ℕ)
    → 1 ≤ days
    → start ≤ end
    → Tiles start end days (shards start end days)
      × (shards_from (end + 1 - start + more) start end days ≡ shards start end days)
unfolding shards
shards-Tiles start end days more d h = (
  shards_from-Tiles (end + 1 - start) start end days d (omega arith) (omega arith),
  shards_from_enough (end + 1 - start) more start end days d (omega arith),
)
