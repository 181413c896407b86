-- ===== src/Portfolio/Tests.antt =====
-- The contract at concrete positions and lots.
use kis_portfolio_mcp.Common.{
  String, Bool, true, false, Option, none, some, List, [], ◌∷◌, Result, ok, err, ◌≡◌, ◌≢◌, ◌↔◌, ◌⊎◌,
  refl, arith, All, is_ok, stripped_set, str_eq, filter,
}
use kis_portfolio_mcp.Common.Int.{pos, negsuc}
use kis_portfolio_mcp.Portfolio.Contract.{
  OpenLot, SellAllocationRequest, SellAllocationPlan, AllocationMethod, AllocationStatus, finite,
  pass, ReconstructionAssessment, inferred_fifo, complete, open_lot, sell_allocation_request,
  Refusal, lots_unavailable, ReconstructionStatus,
}
use kis_portfolio_mcp.Portfolio.Assessment.{
  assess_reconstruction, assess_reconstruction-eligible, assess_reconstruction-Accounts, Accounts,
  IsClean,
}
use kis_portfolio_mcp.Portfolio.Allocation.{plan_sell_allocation, candidates}
use kis_portfolio_mcp.Portfolio.Allocation.Greedy.{TakenFrom}
use kis_portfolio_mcp.Portfolio.Allocation.Plan.{
  Balances, TakesOldestFirst, Eligible, plan_sell_allocation-Eligible,
  plan_sell_allocation-Balances, plan_sell_allocation-TakesOldestFirst,
}

abbrev gapped : ReconstructionAssessment
gapped = record {
  status = ReconstructionStatus.inferred_opening;
  current_quantity = pos 10;
  replayed_quantity = pos 7;
  inferred_opening_quantity = some (pos 3);
  evidence_provenance =
      some kis_portfolio_mcp.Portfolio.Contract.EvidenceProvenance.inferred_opening;
  blockers = [];
  eligible_for_reconciled_projection = true;
}

assessed :
    assess_reconstruction (finite (pos 10)) (finite (pos 7)) pass (" " ∷ []) false ≡ ok gapped
unfolding str_eq assess_reconstruction stripped_set
assessed = refl

assess_reconstruction-Accounts_example : Accounts gapped
assess_reconstruction-Accounts_example =
    assess_reconstruction-Accounts (finite (pos 10)) (finite (pos 7)) pass (" " ∷ []) false assessed

assess_reconstruction-eligible_example :
    (a : ReconstructionAssessment) × (assess_reconstruction
        (finite (pos 3))
        (finite (negsuc 1))
        pass
        ("late page" ∷ [])
        false
      ≡ ok a)
    × ((a.eligible_for_reconciled_projection ≡ true)
        ↔ IsClean (pos 3) (negsuc 1) pass (stripped_set ("late page" ∷ [])) false)
assess_reconstruction-eligible_example =
    assess_reconstruction-eligible (pos 3) (negsuc 1) pass ("late page" ∷ []) false (omega arith)

abbrev lot : String → String → Bool → OpenLot
lot id episode early = record {
  lot_id = id;
  account_id = "isa";
  instrument_id = "KRX:005930";
  episode_id = episode;
  opened_at = elim early [ true ↦ 1 | false ↦ 2 ];
  remaining_quantity = 5;
  thread_id = none;
}

abbrev shelf : List OpenLot
shelf = lot "b" "e1" false ∷ lot "x" "e2" true ∷ lot "a" "e1" true ∷ []

abbrev sell : List String → SellAllocationRequest
sell ids = record {
  sell_trade_event_id = "t9";
  account_id = "isa";
  instrument_id = "KRX:005930";
  episode_id = "e1";
  quantity = 7;
  explicit_lot_ids = ids;
  explicit_thread_id = none;
}

abbrev planned : SellAllocationPlan
planned = record {
  method = inferred_fifo;
  status = complete;
  slices =
      record { lot_id = "a"; allocated_quantity = 5 }
      ∷ record { lot_id = "b"; allocated_quantity = 2 }
      ∷ [];
  requested_quantity = 7;
  allocated_quantity = 7;
  unallocated_quantity = 0;
  review_required = true;
  blockers = [];
}

plan_runs : plan_sell_allocation (sell []) shelf ≡ ok planned
unfolding str_eq plan_sell_allocation kis_portfolio_mcp.Common.Sorting.sort
plan_runs = refl

plan_sell_allocation-Eligible_example :
    All (TakenFrom (Eligible (sell []) shelf inferred_fifo)) planned.slices
plan_sell_allocation-Eligible_example = plan_sell_allocation-Eligible (sell []) shelf plan_runs

plan_sell_allocation-Balances_example :
    (chosen : List OpenLot) × (candidates (sell []) shelf ≡ ok (chosen, inferred_fifo))
    × Balances (sell []) chosen planned
plan_sell_allocation-Balances_example = plan_sell_allocation-Balances (sell []) shelf plan_runs

plan_sell_allocation-TakesOldestFirst_example :
    (chosen : List OpenLot) × (candidates (sell []) shelf ≡ ok (chosen, inferred_fifo))
    × TakesOldestFirst (sell []) chosen planned
plan_sell_allocation-TakesOldestFirst_example =
    plan_sell_allocation-TakesOldestFirst (sell []) shelf (omega arith) plan_runs

abbrev listed : SellAllocationRequest
listed = sell ("x" ∷ "a" ∷ [])
