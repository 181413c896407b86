-- ===== src/Coverage/Days.antt =====
-- Which days intervals cover, before and after they are merged, and which days the gaps are.
use mathlib.Core.Path.{◌∙◌, ap}
use kis_portfolio_mcp.Common.{
  ℕ, ◌+◌, ◌≡◌, refl, Bool, false, ◌&&◌, ◌||◌, List, [], ◌∷◌, leb, ◌==◌, if_cases, arith,
}
use kis_portfolio_mcp.Common.Sorting.{sort, insert, Ascending, Ascending-sort, Respects}
use kis_portfolio_mcp.Coverage.{
  Interval, interval_le, later, merge_from, merge_sorted, merge_intervals,
}

abbrev pub holds : ℕ → Interval → Bool
holds day x = leb x.lower day && leb day x.upper

-- The day is in one of the intervals.
unfoldable pub covered : ℕ → List Interval → Bool
covered day [] = false
covered day (x ∷ xs) = holds day x || covered day xs

abbrev pub start_of : Interval → ℕ
start_of x = x.lower

pub interval_le-Respects : Respects interval_le start_of
interval_le-Respects = record { below = λ x y h. ground arith; above = λ x y h. ground arith }

covered-insert :
    (day : ℕ) (x : Interval) (xs : List Interval)
    → covered day (insert interval_le x xs) ≡ (holds day x || covered day xs)
unfolding covered insert
covered-insert day x [] = refl
covered-insert day x (y ∷ ys) = ground (arith, covered-insert day x ys)

covered-sort : (day : ℕ) (xs : List Interval) → covered day (sort interval_le xs) ≡ covered day xs
unfolding covered sort
covered-sort day [] = refl
covered-sort day (x ∷ xs) =
    covered-insert day x (sort interval_le xs) ∙ ap (λ b. holds day x || b) (covered-sort day xs)

covered-merge_from :
    (day : ℕ) (last : Interval) (xs : List Interval)
    → Ascending start_of (last ∷ xs)
    → covered day (merge_from last xs) ≡ covered day (last ∷ xs)
unfolding covered merge_from
covered-merge_from day last [] h = refl
covered-merge_from day last (x ∷ []) h = ground arith
covered-merge_from day last (x ∷ y ∷ ys) (a, (b, c)) =
    let joined : Interval = record { lower = last.lower; upper = later x.upper last.upper } in
    if_cases (λ l. covered day l ≡ covered day (last ∷ x ∷ y ∷ ys))
      (leb x.lower last.upper || x.lower == last.upper + 1) _ _
      (λ e. covered-merge_from day joined (y ∷ ys) (omega arith, c) ∙ ground arith)
      (λ e. ap (λ b. holds day last || b) (covered-merge_from day x (y ∷ ys) (b, c)))

-- Merging loses no day and adds none, whatever the order and the overlaps of the intervals.
pub merge_intervals-covered :
    (day : ℕ) (xs : List Interval) → covered day (merge_intervals xs) ≡ covered day xs
unfolding merge_intervals
merge_intervals-covered day xs =
    merged (sort interval_le xs) (Ascending-sort interval_le start_of interval_le-Respects xs)
    ∙ covered-sort day xs
  where
    merged :
        (l : List Interval) → Ascending start_of l → covered day (merge_sorted l) ≡ covered day l
    merged [] h = refl
    merged (x ∷ l) h = covered-merge_from day x l h
