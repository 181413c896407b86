-- ===== src/Portfolio/Allocation.antt =====
-- `plan_sell_allocation` of modules/portfolio/reconstruction.py: which open lots a sell takes.
-- `Greedy` has the lemmas on the loop, `Plan` the theorems on the plan.
pub mod Greedy
pub mod Plan
use kis_portfolio_mcp.Common.{
  ℕ, zero, suc, ◌+◌, ◌-◌, min, String, Bool, true, false, not, ◌&&◌, ◌||◌, Option, none, some, List,
  [], ◌∷◌, map, Result, ok, err, ◌>>=◌, ◌>>◌, raise_if, if◌then◌else◌, is_empty, filter, mem_text,
  str_eq, some_text, text_le, ltb, ◌==◌,
}
use kis_portfolio_mcp.Common.Sorting.{sort}
use kis_portfolio_mcp.Portfolio.Contract.{
  OpenLot, SellAllocationRequest, SellAllocationSlice, SellAllocationPlan, AllocationMethod,
  AllocationStatus, Refusal, lots_unavailable, thread_without_lot,
}

-- The lots of the sell's account, instrument and episode.
abbrev pub in_scope : SellAllocationRequest → OpenLot → Bool
in_scope r lot =
    str_eq lot.account_id r.account_id
    && str_eq lot.instrument_id r.instrument_id
    && str_eq lot.episode_id r.episode_id

unfoldable pub scoped : SellAllocationRequest → List OpenLot → List OpenLot
scoped r = filter (in_scope r)

-- `scoped_by_id.get(lot_id)`: the dict is built in order, so the last lot of an id stays.
unfoldable pub by_id : String → List OpenLot → Option OpenLot
by_id k [] = none
by_id k (lot ∷ lots) =
    let later = by_id k lots in
    elim later [ some found ↦ some found | none ↦ if str_eq lot.lot_id k then some lot else none ]

-- `tuple(scoped_by_id[lot_id] for lot_id in ids)`, on ids that are there.
unfoldable pub pick : List String → List OpenLot → List OpenLot
pick [] lots = []
pick (k ∷ ks) lots =
    let rest = pick ks lots in elim (by_id k lots) [ none ↦ rest | some lot ↦ lot ∷ rest ]

-- The explicit ids that no lot of the scope has.
abbrev pub is_missing : List OpenLot → String → Bool
is_missing lots k = elim (by_id k lots) [ none ↦ true | some lot ↦ false ]

abbrev pub on_thread : Option String → OpenLot → Bool
on_thread thread lot = elim thread [
  | none ↦ false
  | some t ↦ elim lot.thread_id [ none ↦ false | some u ↦ str_eq u t ]
]

-- The selection of the candidates and the method, explicit selectors first.
unfoldable pub candidates :
    SellAllocationRequest → List OpenLot → Result Refusal (List OpenLot × AllocationMethod)
unfolding scoped by_id pick
candidates r lots =
    let inside = scoped r lots in
    let missing = filter (is_missing inside) r.explicit_lot_ids in
    let threaded = filter (on_thread r.explicit_thread_id) inside in
    if not (is_empty r.explicit_lot_ids)
    then (if not (is_empty missing)
        then err (lots_unavailable missing)
        else ok (pick r.explicit_lot_ids inside, AllocationMethod.explicit_lot))
    else if some_text r.explicit_thread_id
    then (if is_empty threaded
        then err thread_without_lot
        else ok (threaded, AllocationMethod.explicit_thread_fifo))
    else ok (inside, AllocationMethod.inferred_fifo)

-- The order `(opened_at, lot_id)`.
abbrev pub fifo : OpenLot → OpenLot → Bool
fifo a b = ltb a.opened_at b.opened_at || (a.opened_at == b.opened_at && text_le a.lot_id b.lot_id)

-- The loop over the sorted candidates: the slices it appends, and what remains.
unfoldable pub allocate : ℕ → List OpenLot → List SellAllocationSlice × ℕ
allocate remaining [] = ([], remaining)
allocate remaining (lot ∷ lots) =
    let allocated = min lot.remaining_quantity remaining in
    let after = allocate (remaining - allocated) lots in
    let untouched = allocate remaining lots in
    if remaining == 0
    then ([], remaining)
    else if ltb 0 allocated
    then (record { lot_id = lot.lot_id; allocated_quantity = allocated } ∷ after.0, after.1)
    else untouched

abbrev pub is_inferred : AllocationMethod → Bool
is_inferred AllocationMethod.inferred_fifo = true
is_inferred _ = false

-- The plan over the chosen candidates.
unfoldable pub plan_over :
    SellAllocationRequest → List OpenLot → AllocationMethod → SellAllocationPlan
unfolding allocate
plan_over r chosen method =
    let (slices, remaining) = allocate r.quantity (sort fifo chosen) in
    let complete = remaining == 0 in
    record {
      method = method;
      status =
          if complete then AllocationStatus.complete else AllocationStatus.reconciliation_exception;
      slices = slices;
      requested_quantity = r.quantity;
      allocated_quantity = r.quantity - remaining;
      unallocated_quantity = remaining;
      review_required = is_inferred method || not complete;
      blockers = if complete then [] else "insufficient_open_lot_quantity" ∷ [];
    }

unfoldable pub plan_sell_allocation :
    SellAllocationRequest → List OpenLot → Result Refusal SellAllocationPlan
unfolding candidates plan_over
plan_sell_allocation r lots = do chosen ← candidates r lots; ok (plan_over r chosen.0 chosen.1)
