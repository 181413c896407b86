-- ===== src/Coverage/Tests.antt =====
-- Three intervals out of order, two of which meet.
use kis_portfolio_mcp.Common.{ℕ, ◌≡◌, refl, not, ◌&&◌, List, [], ◌∷◌, leb}
use kis_portfolio_mcp.Common.Sorting.{sort, insert}
use kis_portfolio_mcp.Coverage.{Interval, merge_intervals, merge_from, interval_gaps, gaps_from}
use kis_portfolio_mcp.Coverage.Days.{covered, merge_intervals-covered}
use kis_portfolio_mcp.Coverage.Gaps.{interval_gaps-covered}

abbrev days : ℕ → ℕ → Interval
days a b = record { lower = a; upper = b }

abbrev three : List Interval
three = days 20 25 ∷ days 3 5 ∷ days 6 9 ∷ []

merged_three : merge_intervals three ≡ days 3 9 ∷ days 20 25 ∷ []
unfolding merge_intervals merge_from sort insert
merged_three = refl

gaps_of_three : interval_gaps (merge_intervals three) 1 30 ≡ days 1 2 ∷ days 10 19 ∷ days 26 30 ∷ []
unfolding merge_intervals merge_from sort insert gaps_from
gaps_of_three = refl

merge_intervals-covered_example : covered 6 (merge_intervals three) ≡ covered 6 three
merge_intervals-covered_example = merge_intervals-covered 6 three

interval_gaps-covered_example :
    covered 12 (interval_gaps (merge_intervals three) 1 30)
    ≡ (leb 1 12 && leb 12 30 && not (covered 12 three))
interval_gaps-covered_example = interval_gaps-covered 12 1 30 three
