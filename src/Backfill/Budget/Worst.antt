-- ===== src/Backfill/Budget/Worst.antt =====
-- The worst case of a budgeted plan: a reservation for each partition that can be called.
use mathlib.Core.Path.{◌∙◌, sym, ap, subst}
use mathlib.Core.List.{Perm, Memᴰ}
use kis_portfolio_mcp.Common.{
  ℕ, leb, All-map, str_eq, str_eq_iff, if_cases, ◌&&◌, ◌+◌, ◌≤◌, ◌≡◌, refl, String, Bool, Option,
  none, some, List, [], ◌∷◌, map, ok, err, ok_injective, raise_if_ok, bind_ok, ltb, length, total,
  All, arith, is_empty, not,
}
use kis_portfolio_mcp.Common.Dict.{get, put, text_key}
use kis_portfolio_mcp.Common.Sorting.{sort, perm-sort, total-sort, All-sort}
use kis_portfolio_mcp.Backfill.Plan.{
  TradeCashBackfillPlan, BackfillPartition, callable_only, source_page_cap,
}
use kis_portfolio_mcp.Backfill.Budget.{
  too_many_partitions, ceiling_above_budget, BackfillBudgetPolicy, BudgetReservation, BudgetedPlan,
  page_budget_above_cap, missing_page_budget, reserve_all, budgeted, apply_call_budget,
  normalized_policy, by_partition, reserved_call_ceiling, page_limit_for, by_operation,
  unsupported_operation, duplicate_operation, page_limit_out_of_range, collect_limits,
  invalid_policy_id, invalid_policy_version, calls_not_positive, no_page_budget,
}

abbrev pub or_no_page : Option ℕ → ℕ
or_no_page none = 0
or_no_page (some limit) = limit

-- The pages of a partition in the worst case: the limit of its operation.
abbrev pub pages_of : BackfillBudgetPolicy → BackfillPartition → ℕ
pages_of policy p = or_no_page (get p.source_operation policy.page_limits)

-- The reservation of a partition, for all its pages.
abbrev pub reserved_for : BackfillBudgetPolicy → BackfillPartition → BudgetReservation
reserved_for policy p = record {
  partition_key = p.key;
  source_operation = p.source_operation;
  page_limit = pages_of policy p;
}

-- A limit that the policy asked for gives to the operation, of one page at least.
abbrev pub IsAsked : BackfillBudgetPolicy → String × ℕ → Type 0
IsAsked policy entry = Memᴰ entry policy.page_limits × (1 ≤ entry.1)

-- A partition's operation has a limit, which is one that was asked for and within the cap of its source.
abbrev pub IsWithinCap : BackfillBudgetPolicy → BackfillBudgetPolicy → BackfillPartition → Type 0
IsWithinCap asked policy p =
    (limit : ℕ) × (get p.source_operation policy.page_limits ≡ some limit)
    × IsAsked asked (p.source_operation, limit)
    × (limit ≤ p.source_page_cap)

some_injective : (a b : ℕ) → some a ≡ some b → a ≡ b
some_injective a b e = ap or_no_page e

put-All :
    (P : String × ℕ → Type 0) (k : String) (v : ℕ) (d : List (String × ℕ))
    → P (k, v)
    → All P d
    → All P (put k v d)
unfolding put
put-All P k v [] p h = (p, tt)
put-All P k v ((j, w) ∷ d) p h =
    if_cases (All P) (str_eq j k) ((j, v) ∷ d) ((j, w) ∷ put k v d)
      (λ e. (subst (λ x. P (x, v)) (sym ((str_eq_iff j k).0 e)) p, h.1))
      (λ _. (h.0, put-All P k v d p h.1))

get-All :
    (P : String × ℕ → Type 0) (k : String) (v : ℕ) (d : List (String × ℕ))
    → All P d
    → get k d ≡ some v
    → P (k, v)
unfolding get
get-All P k v [] h e = cc
get-All P k v ((j, w) ∷ d) h e =
    if_cases (λ o. o ≡ some v → P (k, v)) (str_eq j k) (some w) (get k d)
      (λ same x.
        subst (λ (y : String × ℕ). P y) (λ i. ((str_eq_iff j k).0 same i, some_injective w v x i))
          h.0)
      (λ _ x. get-All P k v d h.1 x) e

collect_limits-IsAsked :
    (asked : BackfillBudgetPolicy) (rest : List (String × ℕ)) (limits found : List (String × ℕ))
    → All (λ entry. Memᴰ entry asked.page_limits) rest
    → All (IsAsked asked) limits
    → collect_limits rest limits ≡ ok found
    → All (IsAsked asked) found
unfolding collect_limits
collect_limits-IsAsked asked [] limits found all h e =
    subst (All (IsAsked asked)) (ok_injective limits found e) h
collect_limits-IsAsked asked ((operation, limit) ∷ rest) limits found (here, all) h e =
    let (_, e1) = raise_if_ok _ unsupported_operation _ e in
    let (_, e2) = raise_if_ok _ duplicate_operation _ e1 in
    let (in_range, e3) =
      raise_if_ok (not (leb 1 limit && leb limit source_page_cap)) page_limit_out_of_range _ e2 in
    collect_limits-IsAsked asked rest (put operation limit limits) found all
      (put-All (IsAsked asked) operation limit limits (here, ground arith) h) e3

every_member : {A : Type 0} (xs : List A) → All (λ x. Memᴰ x xs) xs
every_member [] = tt
every_member (x ∷ xs) = (
  Memᴰ.head refl,
  All-map (λ y. Memᴰ y xs) (λ y. Memᴰ y (x ∷ xs)) (λ y m. Memᴰ.tail m) xs (every_member xs),
)

found_limit :
    (policy : BackfillBudgetPolicy) (operation : String) (limit : ℕ)
    → page_limit_for policy operation ≡ ok limit
    → get operation policy.page_limits ≡ some limit
found_limit policy operation limit h = go (get operation policy.page_limits) h
  where
    go :
        (o : Option ℕ)
        → elim o [ none ↦ err missing_page_budget | some n ↦ ok n ] ≡ ok limit
        → o ≡ some limit
    go none e = cc
    go (some n) e = ap some (ok_injective n limit e)

reserve_all-reserved :
    (asked policy : BackfillBudgetPolicy) (ps : List BackfillPartition)
    (rs : List BudgetReservation)
    → All (IsAsked asked) policy.page_limits
    → reserve_all policy ps ≡ ok rs
    → (rs ≡ map (reserved_for policy) ps) × All (IsWithinCap asked policy) ps
unfolding reserve_all
reserve_all-reserved asked policy [] rs limits h = (ground arith, tt)
reserve_all-reserved asked policy (p ∷ ps) rs limits h =
    let (limit, e, h1) = bind_ok (page_limit_for policy p.source_operation) _ h in
    let (below, h2) = raise_if_ok (ltb p.source_page_cap limit) page_budget_above_cap _ h1 in
    let (rest, e2, h3) = bind_ok (reserve_all policy ps) _ h2 in
    let (same, within) = reserve_all-reserved asked policy ps rest limits e2 in
    let there = found_limit policy p.source_operation limit e in
    (
      sym (ok_injective _ rs h3)
          ∙ ap
              (λ (n : ℕ).
                record {
                  partition_key = p.key;
                  source_operation = p.source_operation;
                  page_limit = n;
                }
                ∷ rest)
              (sym (ap or_no_page there))
          ∙ ap (λ (l : List BudgetReservation). reserved_for policy p ∷ l) same,
      (
        (
          limit,
          there,
          get-All (IsAsked asked) p.source_operation limit policy.page_limits limits there,
          ground arith,
        ),
        within,
      ),
    )

total-reserved :
    (policy : BackfillBudgetPolicy) (ps : List BackfillPartition)
    → reserved_call_ceiling (map (reserved_for policy) ps) ≡ total (pages_of policy) ps
total-reserved policy [] = refl
total-reserved policy (p ∷ ps) = ap (λ n. pages_of policy p + n) (total-reserved policy ps)

module _ (id_pattern version_pattern : String → Bool) where
  budgeted-ceiling :
      (plan : TradeCashBackfillPlan) (policy : BackfillBudgetPolicy)
      (ordered : List BudgetReservation) (b : BudgetedPlan)
      → budgeted id_pattern version_pattern plan policy ordered ≡ ok b
      → (reserved_call_ceiling ordered ≤ policy.max_physical_calls)
        × (b ≡ record { source_plan = plan; policy = policy; reservations = ordered })
  unfolding budgeted
  budgeted-ceiling plan policy ordered b h =
      let (few, h1) =
        raise_if_ok (ltb policy.max_physical_calls (length ordered)) too_many_partitions _ h in
      let (fits, h2) =
        raise_if_ok (ltb policy.max_physical_calls (reserved_call_ceiling ordered))
          ceiling_above_budget _ h1 in
      (ground arith, ground arith)

  normalized_policy-IsAsked :
      (policy accepted : BackfillBudgetPolicy)
      → normalized_policy id_pattern version_pattern policy ≡ ok accepted
      → (accepted.max_physical_calls ≡ policy.max_physical_calls)
        × All (IsAsked policy) accepted.page_limits
  unfolding normalized_policy
  normalized_policy-IsAsked p accepted h =
      let (_, h1) = raise_if_ok (not (id_pattern p.policy_id)) invalid_policy_id _ h in
      let (_, h2) =
        raise_if_ok (not (version_pattern p.policy_version)) invalid_policy_version _ h1 in
      let (_, h3) = raise_if_ok (ltb p.max_physical_calls 1) calls_not_positive _ h2 in
      let (limits, collected, h4) = bind_ok (collect_limits p.page_limits []) _ h3 in
      let (_, h5) = raise_if_ok (is_empty limits) no_page_budget _ h4 in
      let same : accepted ≡ record p { page_limits = sort by_operation limits } = ground arith in
      let asked =
        collect_limits-IsAsked p p.page_limits [] limits (every_member p.page_limits) tt
          collected in
      subst
        (λ (x : BackfillBudgetPolicy).
          (x.max_physical_calls ≡ p.max_physical_calls) × All (IsAsked p) x.page_limits)
        (sym same) (refl, All-sort by_operation (IsAsked p) limits asked)

  -- A plan that is given a budget reserves, in some order, exactly one call for each page that a
  -- partition of the plan which can be called has in the worst case: the reservations are those of these
  -- partitions for the limits of their operations, each limit is one that was asked for, of one page at
  -- least and within the cap of its source, and the sum of them all is within the global limit that was
  -- asked for.
  pub apply_call_budget-ceiling :
      (plan : TradeCashBackfillPlan) (policy : BackfillBudgetPolicy) (b : BudgetedPlan)
      → apply_call_budget id_pattern version_pattern plan policy ≡ ok b
      → Perm b.reservations (map (reserved_for b.policy) (callable_only plan.partitions))
        × All (IsWithinCap policy b.policy) (callable_only plan.partitions)
        × (total (pages_of b.policy) (callable_only plan.partitions) ≤ policy.max_physical_calls)
        × (b.source_plan ≡ plan)
  unfolding apply_call_budget
  apply_call_budget-ceiling plan policy b h =
      let (accepted, e, h1) = bind_ok (normalized_policy id_pattern version_pattern policy) _ h in
      let (rs, reserved, h2) =
        bind_ok (reserve_all accepted (callable_only plan.partitions)) _ h1 in
      let (fits, same) = budgeted-ceiling plan accepted (sort by_partition rs) b h2 in
      let (calls, limits) = normalized_policy-IsAsked policy accepted e in
      let (those, within) =
        reserve_all-reserved policy accepted (callable_only plan.partitions) rs limits reserved in
      let sum : reserved_call_ceiling (sort by_partition rs)
          ≡ total (pages_of accepted) (callable_only plan.partitions) =
        total-sort by_partition (λ (r : BudgetReservation). r.page_limit) rs
        ∙ ap reserved_call_ceiling those
        ∙ total-reserved accepted (callable_only plan.partitions) in
      subst
        (λ (x : BudgetedPlan).
          Perm x.reservations (map (reserved_for x.policy) (callable_only plan.partitions))
          × All (IsWithinCap policy x.policy) (callable_only plan.partitions)
          × (total (pages_of x.policy) (callable_only plan.partitions) ≤ policy.max_physical_calls)
          × (x.source_plan ≡ plan))
        (sym same)
        (
          subst (λ l. Perm (sort by_partition rs) l) those (perm-sort by_partition rs),
          within,
          omega arith,
          refl,
        )
