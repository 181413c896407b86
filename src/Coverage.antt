-- ===== src/Coverage.antt =====
-- The interval arithmetic of src/kis_portfolio/services/trade_coverage.py: `merge_intervals` and
-- `interval_gaps`. A date is the number of its day; an interval has both its ends.
pub mod Days
pub mod Gaps
mod Tests
use kis_portfolio_mcp.Common.{
  ℕ, ◌+◌, ◌-◌, Bool, true, false, not, ◌&&◌, ◌||◌, List, [], ◌∷◌, ◌++◌, leb, ltb, ◌==◌,
  if◌then◌else◌,
}
use kis_portfolio_mcp.Common.Sorting.{sort}

-- `Interval`
pub record Interval : Type 0 where
  pub lower : ℕ
  pub upper : ℕ

-- The order of tuples, which `sorted` uses.
abbrev pub interval_le : Interval → Interval → Bool
interval_le x y = ltb x.lower y.lower || (x.lower == y.lower && leb x.upper y.upper)

-- `max` of Python
abbrev pub later : ℕ → ℕ → ℕ
later a b = if leb a b then b else a

-- The loop of `merge_intervals`, with the last interval merged so far.
unfoldable pub merge_from : Interval → List Interval → List Interval
merge_from last [] = last ∷ []
merge_from last (x ∷ xs) =
    let joined = merge_from (record { lower = last.lower; upper = later x.upper last.upper }) xs in
    let apart = merge_from x xs in
    if leb x.lower last.upper || x.lower == last.upper + 1 then joined else last ∷ apart

abbrev pub merge_sorted : List Interval → List Interval
merge_sorted [] = []
merge_sorted (x ∷ xs) = merge_from x xs

-- `merge_intervals`
unfoldable pub merge_intervals : List Interval → List Interval
merge_intervals xs = merge_sorted (sort interval_le xs)

abbrev pub remainder : ℕ → ℕ → List Interval
remainder cursor end = if leb cursor end then record { lower = cursor; upper = end } ∷ [] else []

abbrev pub before : ℕ → ℕ → List Interval
before cursor lower =
    if ltb cursor lower then record { lower = cursor; upper = lower - 1 } ∷ [] else []

-- The loop of `interval_gaps`, from its cursor.
unfoldable pub gaps_from : ℕ → ℕ → List Interval → List Interval
gaps_from cursor end [] = remainder cursor end
gaps_from cursor end (x ∷ xs) =
    let skipped = gaps_from cursor end xs in
    let rest = gaps_from (later cursor (x.upper + 1)) end xs in
    if ltb x.upper cursor
    then skipped
    else (if ltb end x.lower
        then remainder cursor end
        else (if leb end x.upper then before cursor x.lower else before cursor x.lower ++ rest))

-- `interval_gaps`
abbrev pub interval_gaps : List Interval → ℕ → ℕ → List Interval
interval_gaps intervals start end = gaps_from start end intervals
