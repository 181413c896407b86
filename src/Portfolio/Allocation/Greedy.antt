-- ===== src/Portfolio/Allocation/Greedy.antt =====
-- The loop of `plan_sell_allocation`: it takes from the first lots what they hold, up to the request.
use kis_portfolio_mcp.Common.{
  ℕ, zero, suc, ◌-◌, ◌≤◌, ◌<◌, min, ◌≡◌, refl, List, [], ◌∷◌, arith, total, take, All, ltb, ◌==◌,
  if◌then◌else◌, if_cases,
}
use kis_portfolio_mcp.Portfolio.Contract.{OpenLot, SellAllocationSlice}
use kis_portfolio_mcp.Portfolio.Allocation.{allocate}

abbrev pub remaining_total : List OpenLot → ℕ
remaining_total = total (λ lot. lot.remaining_quantity)

abbrev pub allocated_total : List SellAllocationSlice → ℕ
allocated_total = total (λ s. s.allocated_quantity)

-- What the slices take and what remains make up the request, and nothing remains that a lot holds.
pub allocate_totals :
    (q : ℕ) (lots : List OpenLot)
    → (allocated_total (allocate q lots).0 ≡ min q (remaining_total lots))
      × ((allocate q lots).1 ≡ q - remaining_total lots)
unfolding allocate
allocate_totals q [] = omega arith
allocate_totals q (lot ∷ lots) =
    ground (arith, allocate_totals (q - min lot.remaining_quantity q) lots, allocate_totals q lots)

-- Where every lot holds something, the first `n` slices take what the first `n` lots hold, up to
-- the request: no later lot is touched before the earlier ones are used up.
pub allocate-take :
    (n q : ℕ) (lots : List OpenLot)
    → All (λ lot. 0 < lot.remaining_quantity) lots
    → allocated_total (take n (allocate q lots).0) ≡ min q (remaining_total (take n lots))
unfolding allocate
allocate-take zero q lots h = omega arith
allocate-take (suc n) q [] h = omega arith
allocate-take (suc n) q (lot ∷ lots) h =
    ground (arith, allocate-take n (q - min lot.remaining_quantity q) lots h.1)

-- A slice takes a positive part of one of the lots that have the property.
abbrev pub TakenFrom {ℓ} : (OpenLot → Type ℓ) → SellAllocationSlice → Type ℓ
TakenFrom P s =
    (lot : OpenLot) × P lot
    × (s.lot_id ≡ lot.lot_id)
    × (0 < s.allocated_quantity)
    × (s.allocated_quantity ≤ lot.remaining_quantity)

pub allocate-TakenFrom {ℓ} :
    (P : OpenLot → Type ℓ) (q : ℕ) (lots : List OpenLot)
    → All P lots
    → All (TakenFrom P) (allocate q lots).0
unfolding allocate
allocate-TakenFrom P q [] h = tt
allocate-TakenFrom P q (lot ∷ lots) h =
    let taken = min lot.remaining_quantity q in
    let piece : SellAllocationSlice = record { lot_id = lot.lot_id; allocated_quantity = taken } in
    let after = allocate (q - taken) lots in
    if_cases (λ (r : List SellAllocationSlice × ℕ). All (TakenFrom P) r.0) (q == 0) ([], q)
      (if ltb 0 taken then (piece ∷ after.0, after.1) else allocate q lots) (λ _. tt)
      λ _.
        if_cases (λ (r : List SellAllocationSlice × ℕ). All (TakenFrom P) r.0) (ltb 0 taken)
          (piece ∷ after.0, after.1) (allocate q lots)
          (λ positive. (
            (lot, h.0, refl, ground arith, omega arith),
            allocate-TakenFrom P (q - taken) lots h.1,
          ))
          (λ _. allocate-TakenFrom P q lots h.1)
