-- ===== src/Backfill/Budget.antt =====
-- `BackfillBudgetPolicy` and `apply_call_budget` of services/trade_cash_backfill.py. The patterns of the
-- policy's id and version are parameters, tests of their texts.
pub mod Worst
use kis_portfolio_mcp.Common.{
  ℕ, ◌≤◌, ◌≡◌, String, Bool, true, false, not, ◌&&◌, Option, none, some, List, [], ◌∷◌, Result, ok,
  err, ◌>>=◌, ◌>>◌, raise_if, raise_if_ok, bind_ok, leb, ltb, length, total, mem_text, text_le,
  is_empty, arith,
}
use kis_portfolio_mcp.Common.Dict.{Dict, get, put, text_key}
use kis_portfolio_mcp.Common.Sorting.{sort}
use kis_portfolio_mcp.Backfill.Plan.{
  TradeCashBackfillPlan, BackfillPartition, callable_only, source_page_cap, domestic_order_history,
  overseas_order_history, overseas_transaction_history,
}

pub data BudgetError : Type 0 where
  invalid_policy_id invalid_policy_version calls_not_positive unsupported_operation
        duplicate_operation :
      BudgetError
  page_limit_out_of_range no_page_budget missing_page_budget page_budget_above_cap : BudgetError
  too_many_partitions ceiling_above_budget : BudgetError
  not_callable already_used usage_exceeds_page_budget usage_exceeds_global_budget : BudgetError
  page_budget_exhausted global_budget_exhausted : BudgetError

-- `BackfillBudgetPolicy`; Python's test of the type `int` is the type here
pub record BackfillBudgetPolicy : Type 0 where
  pub policy_id : String
  pub policy_version : String
  pub max_physical_calls : ℕ
  pub page_limits : List (String × ℕ)

-- `BudgetReservation`
pub record BudgetReservation : Type 0 where
  pub partition_key : String
  pub source_operation : String
  pub page_limit : ℕ

-- `BudgetedTradeCashBackfillPlan`, without its hash
pub record BudgetedPlan : Type 0 where
  pub source_plan : TradeCashBackfillPlan
  pub policy : BackfillBudgetPolicy
  pub reservations : List BudgetReservation

abbrev pub callable_source_operations : List String
callable_source_operations =
    domestic_order_history ∷ overseas_order_history ∷ overseas_transaction_history ∷ []

abbrev is_present : Option ℕ → Bool
is_present none = false
is_present (some n) = true

-- The loop over the page limits.
unfoldable pub collect_limits :
    List (String × ℕ) → Dict String ℕ → Result BudgetError (Dict String ℕ)
collect_limits [] limits = ok limits
collect_limits ((operation, limit) ∷ rest) limits = do
  raise_if (not (mem_text operation callable_source_operations)) unsupported_operation
  raise_if (is_present (get operation limits)) duplicate_operation
  raise_if (not (leb 1 limit && leb limit source_page_cap)) page_limit_out_of_range
  collect_limits rest (put operation limit limits)

abbrev pub by_operation : String × ℕ → String × ℕ → Bool
by_operation a b = text_le a.0 b.0

abbrev pub by_partition : BudgetReservation → BudgetReservation → Bool
by_partition a b = text_le a.partition_key b.partition_key

abbrev found : Option ℕ → Result BudgetError ℕ
found none = err missing_page_budget
found (some limit) = ok limit

-- `page_limit_for`
abbrev pub page_limit_for : BackfillBudgetPolicy → String → Result BudgetError ℕ
page_limit_for policy operation = found (get operation policy.page_limits)

-- `reserved_call_ceiling`
abbrev pub reserved_call_ceiling : List BudgetReservation → ℕ
reserved_call_ceiling rs = total (λ (r : BudgetReservation). r.page_limit) rs

-- The loop over the partitions that can be called.
unfoldable pub reserve_all :
    BackfillBudgetPolicy → List BackfillPartition → Result BudgetError (List BudgetReservation)
reserve_all policy [] = ok []
reserve_all policy (p ∷ ps) = do
  limit ← page_limit_for policy p.source_operation
  raise_if (ltb p.source_page_cap limit) page_budget_above_cap
  rest ← reserve_all policy ps
  ok (
      record { partition_key = p.key; source_operation = p.source_operation; page_limit = limit }
      ∷ rest)

module _ (id_pattern version_pattern : String → Bool) where
  -- `BackfillBudgetPolicy.normalized`
  unfoldable pub normalized_policy : BackfillBudgetPolicy → Result BudgetError BackfillBudgetPolicy
  normalized_policy p = do
    raise_if (not (id_pattern p.policy_id)) invalid_policy_id
    raise_if (not (version_pattern p.policy_version)) invalid_policy_version
    raise_if (ltb p.max_physical_calls 1) calls_not_positive
    limits ← collect_limits p.page_limits []
    raise_if (is_empty limits) no_page_budget
    ok (record p { page_limits = sort by_operation limits })

  -- The plan over the reservations, if they fit.
  unfoldable pub budgeted :
      TradeCashBackfillPlan
      → BackfillBudgetPolicy
      → List BudgetReservation
      → Result BudgetError BudgetedPlan
  budgeted plan policy ordered = do
    raise_if (ltb policy.max_physical_calls (length ordered)) too_many_partitions
    raise_if (ltb policy.max_physical_calls (reserved_call_ceiling ordered)) ceiling_above_budget
    ok (record { source_plan = plan; policy = policy; reservations = ordered })

  -- `apply_call_budget`
  unfoldable pub apply_call_budget :
      TradeCashBackfillPlan → BackfillBudgetPolicy → Result BudgetError BudgetedPlan
  apply_call_budget plan policy = do
    accepted ← normalized_policy policy
    reservations ← reserve_all accepted (callable_only plan.partitions)
    budgeted plan accepted (sort by_partition reservations)
