-- ===== src/Coverage/Gaps.antt =====
-- What merging leaves, and the days that the gaps are.
use mathlib.Core.Path.{◌∙◌, ap}
use kis_portfolio_mcp.Common.{
  ℕ, ◌+◌, ◌≤◌, ◌<◌, ◌≡◌, refl, Bool, false, not, ◌&&◌, ◌||◌, List, [], ◌∷◌, ◌++◌, leb, ltb, ◌==◌,
  if_cases, arith,
}
use kis_portfolio_mcp.Common.Sorting.{sort, Ascending, Ascending-sort}
use kis_portfolio_mcp.Coverage.{
  Interval, interval_le, later, merge_from, merge_sorted, merge_intervals, remainder, before,
  gaps_from, interval_gaps,
}
use kis_portfolio_mcp.Coverage.Days.{
  covered, start_of, interval_le-Respects, merge_intervals-covered,
}

-- Each interval begins more than a day after the end of the one before it.
abbrev pub ApartFrom : ℕ → List Interval → Type 0
ApartFrom n [] = Unit
ApartFrom n (x ∷ xs) = (n < x.lower) × ApartFrom (x.upper + 1) xs

abbrev pub IsApart : List Interval → Type 0
IsApart [] = Unit
IsApart (x ∷ xs) = ApartFrom (x.upper + 1) xs

merge_from-ApartFrom :
    (n : ℕ) (last : Interval) (xs : List Interval)
    → n < last.lower
    → ApartFrom n (merge_from last xs)
unfolding merge_from
merge_from-ApartFrom n last [] h = (h, tt)
merge_from-ApartFrom n last (x ∷ xs) h =
    if_cases (ApartFrom n) (leb x.lower last.upper || x.lower == last.upper + 1) _ _
      (λ e.
        merge_from-ApartFrom n (record { lower = last.lower; upper = later x.upper last.upper }) xs
          h)
      (λ e. (h, merge_from-ApartFrom (last.upper + 1) x xs (ground arith)))

merge_from-IsApart : (last : Interval) (xs : List Interval) → IsApart (merge_from last xs)
unfolding merge_from
merge_from-IsApart last [] = tt
merge_from-IsApart last (x ∷ xs) =
    if_cases IsApart (leb x.lower last.upper || x.lower == last.upper + 1) _ _
      (λ e. merge_from-IsApart (record { lower = last.lower; upper = later x.upper last.upper }) xs)
      (λ e. merge_from-ApartFrom (last.upper + 1) x xs (ground arith))

-- Merging leaves no two intervals that overlap or meet: between one and the next there is at least a
-- day that neither has.
pub merge_intervals-IsApart : (xs : List Interval) → IsApart (merge_intervals xs)
unfolding merge_intervals
merge_intervals-IsApart xs = merged (sort interval_le xs)
  where
    merged : (l : List Interval) → IsApart (merge_sorted l)
    merged [] = tt
    merged (x ∷ l) = merge_from-IsApart x l

-- The intervals begin one after the other, none before `n`.
abbrev AscendingFrom : ℕ → List Interval → Type 0
AscendingFrom n [] = Unit
AscendingFrom n (x ∷ xs) = (n ≤ x.lower) × AscendingFrom x.lower xs

merge_from-AscendingFrom :
    (n : ℕ) (last : Interval) (xs : List Interval)
    → n ≤ last.lower
    → Ascending start_of (last ∷ xs)
    → AscendingFrom n (merge_from last xs)
unfolding merge_from
merge_from-AscendingFrom n last [] h a = (h, tt)
merge_from-AscendingFrom n last (x ∷ []) h a =
    if_cases (AscendingFrom n) (leb x.lower last.upper || x.lower == last.upper + 1) _ _
      (λ e. (h, tt)) (λ e. (h, (a.0, tt)))
merge_from-AscendingFrom n last (x ∷ y ∷ ys) h (a, (b, c)) =
    if_cases (AscendingFrom n) (leb x.lower last.upper || x.lower == last.upper + 1) _ _
      (λ e.
        merge_from-AscendingFrom n (record { lower = last.lower; upper = later x.upper last.upper })
          (y ∷ ys) h (omega arith, c))
      (λ e. (h, merge_from-AscendingFrom last.lower x (y ∷ ys) a (b, c)))

merge_intervals-AscendingFrom : (xs : List Interval) → AscendingFrom 0 (merge_intervals xs)
unfolding merge_intervals
merge_intervals-AscendingFrom xs =
    merged (sort interval_le xs) (Ascending-sort interval_le start_of interval_le-Respects xs)
  where
    merged : (l : List Interval) → Ascending start_of l → AscendingFrom 0 (merge_sorted l)
    merged [] h = tt
    merged (x ∷ l) h = merge_from-AscendingFrom 0 x l (omega arith) h

not_covered :
    (day n : ℕ) (xs : List Interval) → AscendingFrom n xs → day < n → covered day xs ≡ false
unfolding covered
not_covered day n [] h l = refl
not_covered day n (x ∷ xs) (a, b) l = ground (arith, not_covered day x.lower xs b)

covered-append :
    (day : ℕ) (xs ys : List Interval) → covered day (xs ++ ys) ≡ (covered day xs || covered day ys)
unfolding covered
covered-append day [] ys = refl
covered-append day (x ∷ xs) ys = ground (arith, covered-append day xs ys)

covered-before :
    (day cursor lower : ℕ) → covered day (before cursor lower) ≡ (leb cursor day && ltb day lower)
unfolding covered
covered-before day cursor lower = ground arith

covered-remainder :
    (day cursor end : ℕ) → covered day (remainder cursor end) ≡ (leb cursor day && leb day end)
unfolding covered
covered-remainder day cursor end = ground arith

-- The days from the cursor to the end that the intervals leave out.
abbrev left_out : ℕ → ℕ → ℕ → List Interval → Bool
left_out day cursor end xs = leb cursor day && leb day end && not (covered day xs)

gaps_from-covered :
    (day n cursor end : ℕ) (xs : List Interval)
    → AscendingFrom n xs
    → covered day (gaps_from cursor end xs) ≡ left_out day cursor end xs
unfolding gaps_from covered
gaps_from-covered day n cursor end [] h = ground arith
gaps_from-covered day n cursor end (x ∷ xs) (a, b) =
    let hidden = not_covered day x.lower xs b in
    if_cases (λ l. covered day l ≡ left_out day cursor end (x ∷ xs)) (ltb x.upper cursor) _ _
      (λ e. gaps_from-covered day x.lower cursor end xs b ∙ ground arith)
      λ e.
        if_cases (λ l. covered day l ≡ left_out day cursor end (x ∷ xs)) (ltb end x.lower) _ _
          (λ f. covered-remainder day cursor end ∙ ground (arith, hidden))
          λ f.
            if_cases (λ l. covered day l ≡ left_out day cursor end (x ∷ xs)) (leb end x.upper) _ _
              (λ g. covered-before day cursor x.lower ∙ ground (arith, hidden))
              (λ g.
                covered-append day (before cursor x.lower) _
                ∙ ground (
                  arith,
                  covered-before day cursor x.lower,
                  gaps_from-covered day x.lower (later cursor (x.upper + 1)) end xs b,
                  hidden,
                ))

-- The gaps are exact: a day is in a gap of the merged intervals exactly when it is from the start to
-- the end and none of the intervals, as they were before merging, has it.
pub interval_gaps-covered :
    (day start end : ℕ) (xs : List Interval)
    → covered day (interval_gaps (merge_intervals xs) start end)
      ≡ (leb start day && leb day end && not (covered day xs))
interval_gaps-covered day start end xs =
    gaps_from-covered day 0 start end (merge_intervals xs) (merge_intervals-AscendingFrom xs)
    ∙ ap (λ b. leb start day && leb day end && not b) (merge_intervals-covered day xs)
