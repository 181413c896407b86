-- ===== src/Backfill/Plan/Planned.antt =====
-- The order history that is planned for an account: every day of the window, once.
use mathlib.Core.Path.{◌∙◌, sym, subst}
use kis_portfolio_mcp.Common.{
  ℕ, ◌+◌, ◌-◌, ◌≤◌, ◌≡◌, refl, ◌&&◌, List, [], ◌∷◌, ◌++◌, leb, ltb, if◌then◌else◌, if_cases, arith,
  map, str_eq,
}
use kis_portfolio_mcp.Coverage.{Interval}
use kis_portfolio_mcp.Backfill.Scope.{BackfillAccountScope}
use kis_portfolio_mcp.Backfill.Plan.{
  min, max, shards, Calendar, BackfillPartition, Route, route_ranges, route_partitions,
  order_partitions, callable,
}
use kis_portfolio_mcp.Backfill.Plan.Tiles.{Tiles, shards-Tiles}

-- The partitions follow each other from the first day to the last, without a gap or an overlap, and
-- those that can be called have at most the number of days.
abbrev pub Follow : ℕ → ℕ → ℕ → List BackfillPartition → Type 0
Follow first last days [] = first ≡ last + 1
Follow first last days (p ∷ ps) =
    (p.start_date ≡ first)
    × (first ≤ p.end_date)
    × (p.end_date ≤ last)
    × (p.disposition ≡ callable → p.end_date + 1 ≤ first + days)
    × Follow (p.end_date + 1) last days ps

Follow-append :
    (first middle last days : ℕ) (ps qs : List BackfillPartition)
    → middle ≤ last
    → Follow first middle days ps
    → Follow (middle + 1) last days qs
    → Follow first last days (ps ++ qs)
Follow-append first middle last days [] qs m h k = subst (λ n. Follow n last days qs) (sym h) k
Follow-append first middle last days (p ∷ ps) qs m (a, b, c, d, e) k =
    (a, b, omega arith, d, Follow-append (p.end_date + 1) middle last days ps qs m e k)

Tiles-Follow :
    (first last days : ℕ) (xs : List Interval) (f : Interval → BackfillPartition)
    → ((x : Interval) → (f x).start_date ≡ x.lower)
    → ((x : Interval) → (f x).end_date ≡ x.upper)
    → Tiles first last days xs
    → Follow first last days (map f xs)
Tiles-Follow first last days [] f s e h = h
Tiles-Follow first last days (x ∷ xs) f s e (a, b, c, d, t) = (
  s x ∙ a,
  omega (arith, e x),
  omega (arith, e x),
  (λ _. omega (arith, e x)),
  subst (λ n. Follow (n + 1) last days (map f xs)) (sym (e x))
      (Tiles-Follow (x.upper + 1) last days xs f s e t),
)

module _ (calendar : Calendar) where
  route-Follow :
      (scope : BackfillAccountScope) (days : ℕ) (r : Route)
      → 1 ≤ days
      → r.first ≤ r.last
      → Follow r.first r.last days (route_partitions calendar scope days r)
  unfolding route_partitions
  route-Follow scope days r d h =
      if_cases (Follow r.first r.last days) (ltb r.last r.first) _ _ (λ e. ground arith)
        (λ _.
          if_cases (Follow r.first r.last days)
            (str_eq r.name "recent" && str_eq scope.product_code "29") _ _
            (λ _. (refl, h, omega arith, (λ e. cc), refl))
            (λ _.
              Tiles-Follow r.first r.last days (shards r.first r.last days) _ (λ x. refl)
                (λ x. refl) (shards-Tiles r.first r.last days 0 d h).0))

  one_route :
      (scope : BackfillAccountScope) (days : ℕ) (r : Route)
      → 1 ≤ days
      → r.first ≤ r.last
      → Follow r.first r.last days (order_partitions calendar scope days (r ∷ []))
  unfolding order_partitions
  one_route scope days r d h =
      Follow-append r.first r.last r.last days (route_partitions calendar scope days r) []
        (omega arith) (route-Follow scope days r d h) refl

  two_routes :
      (scope : BackfillAccountScope) (days : ℕ) (r q : Route)
      → 1 ≤ days
      → r.first ≤ r.last
      → q.first ≡ r.last + 1
      → q.first ≤ q.last
      → Follow r.first q.last days (order_partitions calendar scope days (r ∷ q ∷ []))
  unfolding order_partitions
  two_routes scope days r q d h e k =
      Follow-append r.first r.last q.last days (route_partitions calendar scope days r) _
        (omega arith) (route-Follow scope days r d h)
        (subst (λ n. Follow n q.last days (order_partitions calendar scope days (q ∷ []))) e
          (one_route scope days q d k))

  -- The order history that is planned for a domestic account accounts for every day of the window
  -- exactly once, by a partition to call or by a known gap, whichever side of the cutoff the window
  -- lies on; a partition to call has at most the set number of days.
  pub order_partitions-Follow :
      (scope : BackfillAccountScope) (days cutoff start end : ℕ)
      → 1 ≤ days
      → start ≤ end
      → Follow start end days (order_partitions calendar scope days (route_ranges cutoff start end))
  order_partitions-Follow scope days cutoff start end d h =
      let recent_route : Route = record { name = "recent"; first = max start cutoff; last = end } in
      let old_route : Route = record { name = "old"; first = start; last = min end (cutoff - 1) } in
      let P : List Route → Type 0 =
        λ l. Follow start end days (order_partitions calendar scope days l) in
      if_cases (λ l. P (l ++ (if leb cutoff end then recent_route ∷ [] else []))) (ltb start cutoff)
        _ _
        (λ old.
          if_cases (λ l. P (old_route ∷ l)) (leb cutoff end) _ _
            (λ recent.
              two_routes scope days old_route recent_route d (ground arith) (ground arith)
                (ground arith))
            (λ e.
              let last : min end (cutoff - 1) ≡ end = ground arith in
              subst
                (λ n. Follow start n days (order_partitions calendar scope days (old_route ∷ [])))
                last (one_route scope days old_route d (ground arith))))
        (λ not_old.
          if_cases P (leb cutoff end) _ _
            (λ recent.
              let first : max start cutoff ≡ start = ground arith in
              subst
                (λ n. Follow n end days (order_partitions calendar scope days (recent_route ∷ [])))
                first (one_route scope days recent_route d (ground arith)))
            (λ e. absurd (ground arith)))
