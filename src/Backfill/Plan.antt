-- ===== src/Backfill/Plan.antt =====
-- The partitions of a plan: `_shards`, `_partition`, `_domestic_partitions`, `_overseas_partitions` and
-- `plan_trade_cash_backfill` of services/trade_cash_backfill.py.
pub mod Tiles
pub mod Planned
use kis_portfolio_mcp.Common.{
  ℕ, ◌+◌, ◌-◌, zero, suc, String, Bool, true, false, not, ◌&&◌, ◌||◌, Option, none, some, List, [],
  ◌∷◌, ◌++◌, Result, ok, err, ◌>>=◌, ◌>>◌, raise_if, leb, ltb, ◌==◌, if◌then◌else◌, length, map,
  filter, str_eq, mem_text, sorted_set, text_le, is_empty, join,
}
use kis_portfolio_mcp.Common.Sorting.{sort}
use kis_portfolio_mcp.Coverage.{Interval}
use kis_portfolio_mcp.Backfill.Scope.{
  BackfillError, start_after_end, end_after_as_of, window_too_long, partition_days_out_of_range,
  labels_not_unique, no_account_scope, no_trade_history_scope, CaseTables, BackfillAccountScope,
  normalized_all,
}

-- What is asked of the calendar: the ISO text of a day, and the same day three years before, clamped.
pub record Calendar : Type 0 where
  pub isoformat : ℕ → String
  pub three_year_start : ℕ → ℕ

pub data Disposition : Type 0 where
  callable known_gap : Disposition

-- `BackfillPartition`
pub record BackfillPartition : Type 0 where
  pub key : String
  pub source_operation : String
  pub source_route : String
  pub account_label : String
  pub account_product_code : String
  pub account_type : String
  pub market : String
  pub exchange : Option String
  pub start_date : ℕ
  pub end_date : ℕ
  pub output_dataset_ids : List String
  pub disposition : Disposition
  pub gap_reason : Option String
  pub source_page_cap : ℕ

-- `TradeCashBackfillPlan`
pub record TradeCashBackfillPlan : Type 0 where
  pub plan_hash : String
  pub start_date : ℕ
  pub end_date : ℕ
  pub as_of_date : ℕ
  pub partition_days : ℕ
  pub partitions : List BackfillPartition

abbrev pub domestic_order_history : String
domestic_order_history = "domestic-order-history"

abbrev pub domestic_cash_history : String
domestic_cash_history = "domestic-cash-history"

abbrev pub overseas_order_history : String
overseas_order_history = "overseas-order-history"

abbrev pub overseas_transaction_history : String
overseas_transaction_history = "overseas-transaction-history"

abbrev pub trade_event : String
trade_event = "dataset.trade-event"

abbrev pub cash_event : String
cash_event = "dataset.cash-transaction-event"

abbrev pub plan_version : String
plan_version = "1.0.0"

abbrev pub source_page_cap : ℕ
source_page_cap = 10

abbrev pub min : ℕ → ℕ → ℕ
min a b = if leb a b then a else b

abbrev pub max : ℕ → ℕ → ℕ
max a b = if leb a b then b else a

-- The end of the shard that begins at the cursor.
abbrev pub shard_end : ℕ → ℕ → ℕ → ℕ
shard_end cursor end days = min end (cursor + days - 1)

-- The loop of `_shards`, on fuel.
unfoldable pub shards_from : ℕ → ℕ → ℕ → ℕ → List Interval
shards_from zero cursor end days = []
shards_from (suc fuel) cursor end days =
    let rest = shards_from fuel (shard_end cursor end days + 1) end days in
    if leb cursor end
    then record { lower = cursor; upper = shard_end cursor end days } ∷ rest
    else []

-- `_shards`: a round for each day is enough, since every round passes one day at least.
unfoldable pub shards : ℕ → ℕ → ℕ → List Interval
shards start end days = shards_from (end + 1 - start) start end days

abbrev pub or_krx : Option String → String
or_krx none = "KRX"
or_krx (some exchange) = if str_eq exchange "" then "KRX" else exchange

abbrev pub callable_only : List BackfillPartition → List BackfillPartition
callable_only ps =
    filter (λ (p : BackfillPartition). elim p.disposition [ callable ↦ true | known_gap ↦ false ])
      ps

-- The order of `sorted(partitions, key=lambda item: item.key)`
abbrev pub by_key : BackfillPartition → BackfillPartition → Bool
by_key p q = text_le p.key q.key

abbrev pub by_label : BackfillAccountScope → BackfillAccountScope → Bool
by_label p q = text_le p.label q.label

-- A route of the domestic history, with its days.
pub record Route : Type 0 where
  pub name : String
  pub first : ℕ
  pub last : ℕ

-- `route_ranges`, from the cutoff
abbrev pub route_ranges : ℕ → ℕ → ℕ → List Route
route_ranges cutoff start end =
    (if ltb start cutoff
      then record { name = "old"; first = start; last = min end (cutoff - 1) } ∷ []
      else [])
    ++ (if leb cutoff end
        then record { name = "recent"; first = max start cutoff; last = end } ∷ []
        else [])

module _ (calendar : Calendar) where
  -- `_partition_key`
  unfoldable pub partition_key :
      String → BackfillAccountScope → String → ℕ → ℕ → Option String → String
  partition_key operation scope route start end exchange = join "|" (
      plan_version
      ∷ operation
      ∷ scope.label
      ∷ scope.product_code
      ∷ scope.account_type
      ∷ or_krx exchange
      ∷ route
      ∷ calendar.isoformat start
      ∷ calendar.isoformat end
      ∷ [])

  -- `_partition`
  abbrev pub partition :
      BackfillAccountScope
      → String
      → String
      → String
      → Option String
      → List String
      → Disposition
      → Option String
      → Interval
      → BackfillPartition
  partition scope operation route market exchange outputs disposition reason days = record {
    key = partition_key operation scope route days.lower days.upper exchange;
    source_operation = operation;
    source_route = route;
    account_label = scope.label;
    account_product_code = scope.product_code;
    account_type = scope.account_type;
    market = market;
    exchange = exchange;
    start_date = days.lower;
    end_date = days.upper;
    output_dataset_ids = outputs;
    disposition = disposition;
    gap_reason = reason;
    source_page_cap = source_page_cap;
  }

  -- The partitions of one route of the domestic orders.
  unfoldable pub route_partitions : BackfillAccountScope → ℕ → Route → List BackfillPartition
  route_partitions scope days r =
      if ltb r.last r.first
      then []
      else (if str_eq r.name "recent" && str_eq scope.product_code "29"
          then partition scope domestic_order_history r.name "KRX" none (trade_event ∷ []) known_gap
              (some "irp_recent_history_endpoint_unavailable")
              (record { lower = r.first; upper = r.last })
            ∷ []
          else map
              (partition scope domestic_order_history r.name "KRX" none (trade_event ∷ []) callable
                none)
              (shards r.first r.last days))

  unfoldable pub order_partitions : BackfillAccountScope → ℕ → List Route → List BackfillPartition
  order_partitions scope days [] = []
  order_partitions scope days (r ∷ rs) =
      route_partitions scope days r ++ order_partitions scope days rs

  -- `_domestic_partitions`
  unfoldable pub domestic_partitions : BackfillAccountScope → ℕ → ℕ → ℕ → ℕ → List BackfillPartition
  domestic_partitions scope start end as_of days =
      order_partitions scope days (route_ranges (as_of - 90) start end)
      ++ (partition scope domestic_cash_history "unavailable" "KRX" none (cash_event ∷ []) known_gap
            (some "no_selected_domestic_cash_transaction_history_source")
            (record { lower = start; upper = end })
          ∷ [])

  -- The two partitions of one shard of an exchange.
  abbrev pub exchange_partitions :
      BackfillAccountScope → String → List Interval → List BackfillPartition
  exchange_partitions scope exchange [] = []
  exchange_partitions scope exchange (x ∷ xs) =
      let gap = str_eq scope.account_type "VIRTUAL" in
      partition scope overseas_order_history "order-aggregate" "US" (some exchange)
        (trade_event ∷ []) callable none x
      ∷ partition scope overseas_transaction_history "period-transaction" "US" (some exchange)
          (trade_event ∷ cash_event ∷ []) (if gap then known_gap else callable)
          (if gap then some "overseas_period_transaction_virtual_support_unverified" else none) x
      ∷ exchange_partitions scope exchange xs

  -- `_overseas_partitions`
  unfoldable pub overseas_partitions :
      BackfillAccountScope → List String → ℕ → ℕ → ℕ → List BackfillPartition
  overseas_partitions scope [] start end days = []
  overseas_partitions scope (e ∷ es) start end days =
      exchange_partitions scope e (shards start end days)
      ++ overseas_partitions scope es start end days

  -- The partitions of all accounts.
  unfoldable pub account_partitions :
      Bool → Bool → ℕ → ℕ → ℕ → ℕ → List BackfillAccountScope → List BackfillPartition
  account_partitions domestic overseas start end as_of days [] = []
  account_partitions domestic overseas start end as_of days (s ∷ ss) =
      (if domestic then domestic_partitions s start end as_of days else [])
      ++ (if overseas then overseas_partitions s s.overseas_exchanges start end days else [])
      ++ account_partitions domestic overseas start end as_of days ss

  module _ (case : CaseTables)
      (plan_digest : ℕ → ℕ → ℕ → ℕ → Bool → Bool → List BackfillPartition → String) where
    -- The plan of normalized accounts.
    unfoldable pub planned :
        List BackfillAccountScope
        → ℕ
        → ℕ
        → ℕ
        → ℕ
        → Bool
        → Bool
        → Result BackfillError TradeCashBackfillPlan
    planned scopes start end as_of days domestic overseas = do
      let labels = map (λ (s : BackfillAccountScope). s.label) scopes
      raise_if (not (length (sorted_set labels) == length labels)) labels_not_unique
      raise_if (is_empty scopes) no_account_scope
      raise_if (not domestic && not overseas) no_trade_history_scope
      let ordered =
          sort by_key
            (account_partitions domestic overseas start end as_of days (sort by_label scopes))
      ok (record {
        plan_hash = plan_digest start end as_of days domestic overseas ordered;
        start_date = start;
        end_date = end;
        as_of_date = as_of;
        partition_days = days;
        partitions = ordered;
      })

    abbrev pub or_three_years : Option ℕ → ℕ → ℕ
    or_three_years none end = calendar.three_year_start end
    or_three_years (some start) end = start

    -- `plan_trade_cash_backfill`
    unfoldable pub plan_trade_cash_backfill :
        List BackfillAccountScope
        → ℕ
        → ℕ
        → Option ℕ
        → ℕ
        → Bool
        → Bool
        → Result BackfillError TradeCashBackfillPlan
    plan_trade_cash_backfill scopes end as_of start_date days domestic overseas = do
      let start = or_three_years start_date end
      raise_if (ltb end start) start_after_end
      raise_if (ltb as_of end) end_after_as_of
      raise_if (ltb start (calendar.three_year_start end)) window_too_long
      raise_if (not (leb 1 days && leb days 90)) partition_days_out_of_range
      accounts ← normalized_all case scopes
      planned accounts start end as_of days domestic overseas
