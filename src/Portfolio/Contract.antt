-- ===== src/Portfolio/Contract.antt =====
-- The data of modules/portfolio/reconstruction.py and the checks of their constructors.
-- A finite `Decimal` is an integer that counts units of the last place of the ten-decimal quantity
-- contract. Sums and differences of such numbers are exact in the source while they have at most
-- 28 digits, the precision of Python's default context. A quantity that a constructor has admitted
-- is positive, and is stored as a natural number. Python's exceptions are values of `Refusal`.
use kis_portfolio_mcp.Common.{
  ℕ, String, Bool, true, false, not, ◌&&◌, ◌||◌, Option, List, Result, ok, err, ◌>>=◌, ◌>>◌,
  raise_if, truthy, some_text, mem_text, if◌then◌else◌, is_empty,
}
use mathlib.Core.List.{[], ◌∷◌}
use kis_portfolio_mcp.Common.Int.{ℤ, pos, pos_part, leb_ℤ}

pub data EvidenceProvenance : Type 0 where
  actual manual inferred_opening : EvidenceProvenance

pub data CorporateActionCoverage : Type 0 where
  pass not_assessed fail : CorporateActionCoverage

pub data ReconstructionStatus : Type 0 where
  reconstructed inferred_opening provisional not_assessed reconciliation_exception :
      ReconstructionStatus

pub data AllocationMethod : Type 0 where
  explicit_lot explicit_thread_fifo inferred_fifo : AllocationMethod

pub data AllocationStatus : Type 0 where
  complete reconciliation_exception : AllocationStatus

-- The `ValueError`s of the module; `AllocationContractError` is the last two.
pub data Refusal : Type 0 where
  must_be_a_decimal must_be_finite current_quantity_negative : Refusal
  lot_identity_required remaining_quantity_not_positive : Refusal
  sell_identity_required sell_quantity_not_positive : Refusal
  selectors_exclusive explicit_lots_not_unique : Refusal
  lots_unavailable : List String → Refusal
  thread_without_lot : Refusal

-- What a caller may pass for a `Decimal | int | str`.
pub data Number : Type 0 where
  finite : ℤ → Number
  infinite_or_nan : Number
  no_decimal : Number

-- `_decimal`
unfoldable pub decimal : Number → Result Refusal ℤ
decimal (finite z) = ok z
decimal infinite_or_nan = err must_be_finite
decimal no_decimal = err must_be_a_decimal

pub record OpenLot : Type 0 where
  pub lot_id : String
  pub account_id : String
  pub instrument_id : String
  pub episode_id : String
  pub opened_at : ℕ
  pub remaining_quantity : ℕ
  pub thread_id : Option String

-- `OpenLot.__post_init__`, on the arguments of the constructor.
unfoldable pub open_lot :
    String → String → String → String → ℕ → Number → Option String → Result Refusal OpenLot
unfolding decimal
open_lot lot account instrument episode opened remaining thread = do
  raise_if
      (not (truthy lot) || not (truthy account) || not (truthy instrument) || not (truthy episode))
      lot_identity_required
  quantity ← decimal remaining
  raise_if (leb_ℤ quantity (pos 0)) remaining_quantity_not_positive
  ok (record {
    lot_id = lot;
    account_id = account;
    instrument_id = instrument;
    episode_id = episode;
    opened_at = opened;
    remaining_quantity = pos_part quantity;
    thread_id = thread;
  })

pub record SellAllocationRequest : Type 0 where
  pub sell_trade_event_id : String
  pub account_id : String
  pub instrument_id : String
  pub episode_id : String
  pub quantity : ℕ
  pub explicit_lot_ids : List String
  pub explicit_thread_id : Option String

-- `len(set(ids)) != len(ids)`
unfoldable pub has_duplicates : List String → Bool
has_duplicates [] = false
has_duplicates (s ∷ ss) = let rest = has_duplicates ss in if mem_text s ss then true else rest

-- `SellAllocationRequest.__post_init__`
unfoldable pub sell_allocation_request :
    String
    → String
    → String
    → String
    → Number
    → List String
    → Option String
    → Result Refusal SellAllocationRequest
unfolding decimal has_duplicates
sell_allocation_request trade account instrument episode amount lot_ids thread = do
  raise_if
      (not (truthy trade)
        || not (truthy account)
        || not (truthy instrument)
        || not (truthy episode))
      sell_identity_required
  quantity ← decimal amount
  raise_if (leb_ℤ quantity (pos 0)) sell_quantity_not_positive
  raise_if (not (is_empty lot_ids) && some_text thread) selectors_exclusive
  raise_if (has_duplicates lot_ids) explicit_lots_not_unique
  ok (record {
    sell_trade_event_id = trade;
    account_id = account;
    instrument_id = instrument;
    episode_id = episode;
    quantity = pos_part quantity;
    explicit_lot_ids = lot_ids;
    explicit_thread_id = thread;
  })

pub record SellAllocationSlice : Type 0 where
  pub lot_id : String
  pub allocated_quantity : ℕ

pub record SellAllocationPlan : Type 0 where
  pub method : AllocationMethod
  pub status : AllocationStatus
  pub slices : List SellAllocationSlice
  pub requested_quantity : ℕ
  pub allocated_quantity : ℕ
  pub unallocated_quantity : ℕ
  pub review_required : Bool
  pub blockers : List String

pub record ReconstructionAssessment : Type 0 where
  pub status : ReconstructionStatus
  pub current_quantity : ℤ
  pub replayed_quantity : ℤ
  pub inferred_opening_quantity : Option ℤ
  pub evidence_provenance : Option EvidenceProvenance
  pub blockers : List String
  pub eligible_for_reconciled_projection : Bool
