-- ===== src/Backfill/Gate.antt =====
-- `BackfillCallBudget` of services/trade_cash_backfill.py: the gate that each physical call passes. Its
-- methods run under the gate's lock, so each is one step.
pub mod Bounds
use kis_portfolio_mcp.Common.{
  ℕ, ◌+◌, String, Bool, true, false, not, ◌&&◌, ◌||◌, Option, none, some, List, [], ◌∷◌, Result, ok,
  err, ◌>>=◌, ◌>>◌, raise_if, leb, ltb, ◌==◌, if◌then◌else◌, total, any,
}
use kis_portfolio_mcp.Common.Dict.{Dict, get, put, text_key}
use kis_portfolio_mcp.Backfill.Budget.{
  BudgetError, not_callable, already_used, usage_exceeds_page_budget, usage_exceeds_global_budget,
  page_budget_exhausted, global_budget_exhausted, BudgetedPlan, BudgetReservation,
}

-- `PhysicalCallReservation`
pub record PhysicalCallReservation : Type 0 where
  pub partition_key : String
  pub page_number : ℕ
  pub global_call_number : ℕ
  pub partition_page_limit : ℕ
  pub global_call_limit : ℕ

pub record Gate : Type 0 where
  pub global_limit : ℕ
  pub limits : Dict String ℕ
  pub used : Dict String ℕ
  pub total_used : ℕ

-- `{item.partition_key: item.page_limit for item in reservations}`
unfoldable pub limits_of : List BudgetReservation → Dict String ℕ → Dict String ℕ
limits_of [] limits = limits
limits_of (r ∷ rs) limits = limits_of rs (put r.partition_key r.page_limit limits)

-- `{key: 0 for key in limits}`
abbrev pub none_used : Dict String ℕ → Dict String ℕ
none_used [] = []
none_used ((key, limit) ∷ limits) = (key, 0) ∷ none_used limits

-- `BackfillCallBudget.__init__`
unfoldable pub new_gate : BudgetedPlan → Gate
new_gate plan =
    let limits = limits_of plan.reservations [] in
    record {
      global_limit = plan.policy.max_physical_calls;
      limits = limits;
      used = none_used limits;
      total_used = 0;
    }

-- `sum(used.values())`
abbrev pub sum_of : Dict String ℕ → ℕ
sum_of d = total (λ (item : String × ℕ). item.1) d

abbrev found : Option ℕ → Result BudgetError ℕ
found none = err not_callable
found (some n) = ok n

-- `used_for` and `limit_for`
abbrev pub used_for : String → Gate → Result BudgetError ℕ
used_for key g = found (get key g.used)

abbrev pub limit_for : String → Gate → Result BudgetError ℕ
limit_for key g = found (get key g.limits)

-- The checks of `reserve` and its count, for the limit and the use of the partition.
unfoldable pub reserve_within :
    String → ℕ → ℕ → Gate → Result BudgetError PhysicalCallReservation × Gate
reserve_within key page_limit used g =
    if leb page_limit used
    then (err page_budget_exhausted, g)
    else (if leb g.global_limit g.total_used then (err global_budget_exhausted, g) else (
      ok (record {
        partition_key = key;
        page_number = used + 1;
        global_call_number = g.total_used + 1;
        partition_page_limit = page_limit;
        global_call_limit = g.global_limit;
      }),
      record g { used = put key (used + 1) g.used; total_used = g.total_used + 1 },
    ))

abbrev pub reserve_on :
    String → Option ℕ → Option ℕ → Gate → Result BudgetError PhysicalCallReservation × Gate
reserve_on key none used g = (err not_callable, g)
reserve_on key (some limit) none g = (err not_callable, g)
reserve_on key (some limit) (some used) g = reserve_within key limit used g

-- `reserve`
unfoldable pub reserve : String → Gate → Result BudgetError PhysicalCallReservation × Gate
reserve key g = reserve_on key (get key g.limits) (get key g.used) g

abbrev pub restored_one : String → ℕ → Option ℕ → Dict String ℕ → Result BudgetError (Dict String ℕ)
restored_one key used none restored = err not_callable
restored_one key used (some limit) restored =
    if ltb limit used then err usage_exceeds_page_budget else ok (put key used restored)

-- The loop of `restore`
unfoldable pub restore_all :
    Dict String ℕ → Dict String ℕ → Dict String ℕ → Result BudgetError (Dict String ℕ)
restore_all limits [] restored = ok restored
restore_all limits ((key, used) ∷ pages) restored = do
  next ← restored_one key used (get key limits) restored
  restore_all limits pages next

abbrev is_used : String × ℕ → Bool
is_used item = not (item.1 == 0)

-- The gate over the restored use, if it is within the global limit.
unfoldable pub restored_gate : Gate → Dict String ℕ → Result BudgetError Gate
restored_gate g restored =
    if ltb g.global_limit (sum_of restored)
    then err usage_exceeds_global_budget
    else ok (record g { used = restored; total_used = sum_of restored })

-- `restore`
unfoldable pub restore : Dict String ℕ → Gate → Result BudgetError Gate
restore pages g = do
  raise_if (not (g.total_used == 0) || any is_used g.used) already_used
  restored ← restore_all g.limits pages (none_used g.limits)
  restored_gate g restored

abbrev pub called :
    {W A : Type 0}
    → (W → A × W)
    → W
    → Result BudgetError PhysicalCallReservation × Gate
    → Result BudgetError (PhysicalCallReservation × A) × Gate × W
called call w (err e, g) = (err e, g, w)
called call w (ok r, g) = let (a, w') = call w in (ok (r, a), g, w')

-- `run_budgeted_physical_call`, over a world that the call changes: reserve first, then one call.
unfoldable pub run_budgeted_physical_call :
    {W A : Type 0}
    → String
    → (W → A × W)
    → Gate
    → W
    → Result BudgetError (PhysicalCallReservation × A) × Gate × W
run_budgeted_physical_call key call g w = called call w (reserve key g)

-- The gate after reservations of the partitions, one after the other, by whatever callers.
unfoldable pub reserve_each : List String → Gate → Gate
reserve_each [] g = g
reserve_each (key ∷ keys) g = reserve_each keys (reserve key g).1
