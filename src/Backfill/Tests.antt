-- ===== src/Backfill/Tests.antt =====
-- A window of a hundred days across the cutoff, and a budget of six calls over two partitions.
use kis_portfolio_mcp.Common.{
  ℕ, ◌+◌, ◌-◌, ◌≤◌, ◌≡◌, refl, zero, suc, String, Bool, true, none, [], ◌∷◌, ok, arith, str_eq,
  mem_text, split, lacks, strip, lstrip, rstrip, is_space, stripped_set, insert_text,
}
use kis_portfolio_mcp.Common.Dict.{get, put, text_key}
use kis_portfolio_mcp.Common.Sorting.{sort, insert}
use kis_portfolio_mcp.Backfill.Scope.{
  BackfillAccountScope, CaseTables, label_pattern, class_pattern, checked_scope, normalized,
}
use kis_portfolio_mcp.Backfill.Plan.{
  Calendar, callable, BackfillPartition, TradeCashBackfillPlan, shards, shards_from, route_ranges,
  order_partitions, partition_key, domestic_order_history, plan_version,
}
use kis_portfolio_mcp.Backfill.Plan.Tiles.{Tiles, shards-Tiles}
use kis_portfolio_mcp.Backfill.Plan.Planned.{Follow, order_partitions-Follow}
use kis_portfolio_mcp.Backfill.Budget.{
  BackfillBudgetPolicy, BudgetedPlan, BudgetReservation, collect_limits, normalized_policy,
  reserve_all, budgeted, apply_call_budget,
}
use mathlib.Core.List.{Perm, map}
use kis_portfolio_mcp.Common.{All}
use kis_portfolio_mcp.Backfill.Budget.Worst.{reserved_for, IsWithinCap, apply_call_budget-ceiling}
use kis_portfolio_mcp.Backfill.Gate.{
  PhysicalCallReservation, Gate, limits_of, new_gate, reserve, reserve_within, reserve_each,
}
use kis_portfolio_mcp.Backfill.Gate.Bounds.{IsWithin, reserve-IsWithin, new_gate-live}
use kis_portfolio_mcp.Backfill.Keys.{split-partition_key}

-- A day as its number, which is enough to tell days apart here.
abbrev day_text : ℕ → String
day_text zero = "2026-01-01"
day_text (suc n) = "2026-01-02"

abbrev calendar : Calendar
calendar = record { isoformat = day_text; three_year_start = λ n. n - 1095 }

abbrev case : CaseTables
case = record { lower = λ s. s; upper = λ s. s }

abbrev account : BackfillAccountScope
account = record {
  label = "main";
  product_code = "01";
  account_type = "REAL";
  overseas_exchanges = [];
}

shards-Tiles_example :
    Tiles 100 199 30 (shards 100 199 30)
    × (shards_from (199 + 1 - 100 + 7) 100 199 30 ≡ shards 100 199 30)
shards-Tiles_example = shards-Tiles 100 199 30 7 (omega arith) (omega arith)

order_partitions-Follow_example :
    Follow 100 199 30 (order_partitions calendar account 30 (route_ranges 150 100 199))
order_partitions-Follow_example =
    order_partitions-Follow calendar account 30 150 100 199 (omega arith) (omega arith)

split-partition_key_example :
    split b'|' (partition_key calendar domestic_order_history account "recent" 0 1 none)
    ≡ plan_version ∷ domestic_order_history ∷ "main" ∷ "01" ∷ "REAL" ∷ "KRX" ∷ "recent"
      ∷ "2026-01-01" ∷ "2026-01-02" ∷ []
unfolding normalized checked_scope label_pattern class_pattern mem_text str_eq strip lstrip rstrip
    is_space stripped_set insert_text lacks
split-partition_key_example =
    split-partition_key calendar case account account domestic_order_history "recent" 0 1 none refl
      refl refl refl refl refl

abbrev piece : String → ℕ → ℕ → BackfillPartition
piece key first last = record {
  key = key;
  source_operation = domestic_order_history;
  source_route = "recent";
  account_label = "main";
  account_product_code = "01";
  account_type = "REAL";
  market = "KRX";
  exchange = none;
  start_date = first;
  end_date = last;
  output_dataset_ids = [];
  disposition = callable;
  gap_reason = none;
  source_page_cap = 10;
}

abbrev plan : TradeCashBackfillPlan
plan = record {
  plan_hash = "hash";
  start_date = 0;
  end_date = 59;
  as_of_date = 59;
  partition_days = 30;
  partitions = piece "a" 0 29 ∷ piece "b" 30 59 ∷ [];
}

abbrev policy : BackfillBudgetPolicy
policy = record {
  policy_id = "trial";
  policy_version = "1.0.0";
  max_physical_calls = 6;
  page_limits = (domestic_order_history, 3) ∷ [];
}

abbrev any_text : String → Bool
any_text s = true

abbrev reservation : String → BudgetReservation
reservation key = record {
  partition_key = key;
  source_operation = domestic_order_history;
  page_limit = 3;
}

abbrev within : BudgetedPlan
within = record {
  source_plan = plan;
  policy = policy;
  reservations = reservation "a" ∷ reservation "b" ∷ [];
}

apply_call_budget-ceiling_example :
    Perm within.reservations (map (reserved_for policy) plan.partitions)
    × All (IsWithinCap policy policy) plan.partitions
    × (6 ≤ 6)
    × (plan ≡ plan)
unfolding apply_call_budget normalized_policy collect_limits reserve_all budgeted get put sort
    insert mem_text str_eq
apply_call_budget-ceiling_example =
    apply_call_budget-ceiling any_text any_text plan policy within refl

abbrev gate : Gate
gate = record {
  global_limit = 6;
  limits = ("a", 3) ∷ ("b", 3) ∷ [];
  used = ("a", 2) ∷ ("b", 0) ∷ [];
  total_used = 2;
}

gate-IsWithin : IsWithin gate
gate-IsWithin = record {
  pages = (refl, omega arith, (refl, omega arith, tt));
  counted = refl;
  overall = omega arith;
}

reserve-IsWithin_example : IsWithin (reserve "a" gate).1
reserve-IsWithin_example = reserve-IsWithin "a" gate gate-IsWithin

new_gate-live_example :
    IsWithin (reserve_each ("a" ∷ "a" ∷ []) (new_gate within))
    × ((r : PhysicalCallReservation) × ((reserve "a"
            (reserve_each ("a" ∷ "a" ∷ []) (new_gate within))).0
          ≡ ok r)
        × (r.page_number ≡ 2 + 1))
unfolding new_gate limits_of reserve_each reserve reserve_within get put str_eq
new_gate-live_example =
    new_gate-live within ("a" ∷ "a" ∷ []) "a" 3 2 (omega arith) refl refl (omega arith)
