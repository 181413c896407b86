-- ===== src/Portfolio/Allocation/Plan.antt =====
-- What `plan_sell_allocation` promises: conservation, scope, and first in, first out.
use mathlib.Core.List.{Memᴰ, Perm}
use mathlib.Core.Path.{subst, sym}
use kis_portfolio_mcp.Common.Int.{ℤ, pos}
use kis_portfolio_mcp.Common.{
  ℕ, ◌+◌, ◌≤◌, ◌<◌, min, ◌≡◌, ◌≢◌, ◌↔◌, ◌⊎◌, refl, Bool, true, false, not, List, [], ◌∷◌, Option,
  none, some, arith, take, All, All-filter, All-map, filter, String, inl, inr, Result, ok, err,
  is_empty, str_eq, some_text, mem_text, mem_text_here, mem_text_later, is_empty-false, List-cases,
  if◌then◌else◌, if_cases,
}
use kis_portfolio_mcp.Common.Sorting.{
  sort, total-sort, All-sort, perm-sort, Ascending, Respects, Ascending-sort,
}
use kis_portfolio_mcp.Portfolio.Contract.{
  OpenLot, SellAllocationRequest, SellAllocationPlan, AllocationMethod, complete, Refusal,
  lots_unavailable, open_lot, finite,
}
use kis_portfolio_mcp.Portfolio.Allocation.{
  in_scope, scoped, by_id, pick, candidates, fifo, plan_over, plan_sell_allocation, on_thread,
  is_missing,
}
use kis_portfolio_mcp.Portfolio.Allocation.Greedy.{
  remaining_total, allocated_total, allocate_totals, allocate-take, TakenFrom, allocate-TakenFrom,
}

-- A plan is the greedy plan over the candidates that its method selects.
plan-candidates :
    (r : SellAllocationRequest) (lots : List OpenLot) {p : SellAllocationPlan}
    → plan_sell_allocation r lots ≡ ok p
    → (chosen : List OpenLot) × (method : AllocationMethod) × (candidates r lots
        ≡ ok (chosen, method))
      × (plan_over r chosen method ≡ p)
unfolding plan_sell_allocation
plan-candidates r lots {p} h = go (candidates r lots) refl
  where
    go :
        (c : Result _ (List OpenLot × AllocationMethod))
        → candidates r lots ≡ c
        → (chosen : List OpenLot) × (method : AllocationMethod) × (candidates r lots
            ≡ ok (chosen, method))
          × (plan_over r chosen method ≡ p)
    go (ok (chosen, method)) e = (chosen, method, e, cc)
    go (err x) e = cc

-- The parts of a plan over given candidates.
abbrev pub Balances : SellAllocationRequest → List OpenLot → SellAllocationPlan → Type 0
Balances r chosen p =
    (allocated_total p.slices ≡ p.allocated_quantity)
    × (p.allocated_quantity ≡ min r.quantity (remaining_total chosen))
    × (p.allocated_quantity + p.unallocated_quantity ≡ p.requested_quantity)
    × (p.requested_quantity ≡ r.quantity)
    × ((p.status ≡ complete) ↔ (r.quantity ≤ remaining_total chosen))
    × ((p.blockers ≡ []) ↔ (p.status ≡ complete))

plan_over-Balances :
    (r : SellAllocationRequest) (chosen : List OpenLot) (method : AllocationMethod)
    → Balances r chosen (plan_over r chosen method)
unfolding plan_over
plan_over-Balances r chosen method = ground (
  arith,
  allocate_totals r.quantity (sort fifo chosen),
  total-sort fifo (λ lot. lot.remaining_quantity) chosen,
)

abbrev Found {ℓ} : (OpenLot → Type ℓ) → Option OpenLot → Type ℓ
Found P none = Unit
Found P (some lot) = P lot

-- A lot with the id `k`, of the property.
abbrev pub Named {ℓ} : (OpenLot → Type ℓ) → String → OpenLot → Type ℓ
Named P k lot = P lot × (str_eq lot.lot_id k ≡ true)

found_last {ℓ} :
    (Q : OpenLot → Type ℓ) (later : Option OpenLot) (b : Bool) (x : OpenLot)
    → Found Q later
    → (b ≡ true → Q x)
    → Found Q (elim later [ some found ↦ some found | none ↦ if b then some x else none ])
found_last Q (some y) b x h f = h
found_last Q none b x h f = if_cases (Found Q) b (some x) none f (λ _. tt)

by_id-Found {ℓ} :
    (P : OpenLot → Type ℓ) (k : String) (lots : List OpenLot)
    → All P lots
    → Found (Named P k) (by_id k lots)
unfolding by_id
by_id-Found P k [] h = tt
by_id-Found P k (x ∷ lots) h =
    found_last (Named P k) (by_id k lots) (str_eq x.lot_id k) x (by_id-Found P k lots h.1)
      (λ e. (h.0, e))

-- The explicit selector takes lots of the scope by the ids it was given, and no other.
abbrev pub IsListed {ℓ} : (OpenLot → Type ℓ) → List String → OpenLot → Type ℓ
IsListed P ks lot = P lot × (mem_text lot.lot_id ks ≡ true)

pick_step {ℓ} :
    (Q : OpenLot → Type ℓ) (o : Option OpenLot) (rest : List OpenLot)
    → Found Q o
    → All Q rest
    → All Q (elim o [ none ↦ rest | some lot ↦ lot ∷ rest ])
pick_step Q none rest h hs = hs
pick_step Q (some lot) rest h hs = (h, hs)

Found-weaken {ℓ κ} :
    (P : OpenLot → Type ℓ) (Q : OpenLot → Type κ) (o : Option OpenLot)
    → ((x : OpenLot) → P x → Q x)
    → Found P o
    → Found Q o
Found-weaken P Q none f h = tt
Found-weaken P Q (some x) f h = f x h

pick-All {ℓ} :
    (P : OpenLot → Type ℓ) (ks : List String) (lots : List OpenLot)
    → All P lots
    → All (IsListed P ks) (pick ks lots)
unfolding pick
pick-All P [] lots h = tt
pick-All P (k ∷ ks) lots h =
    pick_step (IsListed P (k ∷ ks)) (by_id k lots) (pick ks lots)
      (Found-weaken (Named P k) (IsListed P (k ∷ ks)) (by_id k lots)
        (λ x named. (named.0, mem_text_here x.lot_id k ks named.1)) (by_id-Found P k lots h))
      (All-map (IsListed P ks) (IsListed P (k ∷ ks))
        (λ x listed. (listed.0, mem_text_later x.lot_id k ks listed.1)) (pick ks lots)
        (pick-All P ks lots h))

-- What each method may draw on.
abbrev pub Selected : SellAllocationRequest → AllocationMethod → OpenLot → Type 0
Selected r AllocationMethod.explicit_lot lot = mem_text lot.lot_id r.explicit_lot_ids ≡ true
Selected r AllocationMethod.explicit_thread_fifo lot = on_thread r.explicit_thread_id lot ≡ true
Selected r AllocationMethod.inferred_fifo lot =
    (r.explicit_lot_ids ≡ []) × (some_text r.explicit_thread_id ≡ false)

-- An open lot of the request's account, instrument and episode that the method selects.
abbrev pub Eligible : SellAllocationRequest → List OpenLot → AllocationMethod → OpenLot → Type 0
Eligible r lots method lot = Memᴰ lot lots × (in_scope r lot ≡ true) × Selected r method lot

All-self : (lots : List OpenLot) → All (λ lot. Memᴰ lot lots) lots
All-self [] = tt
All-self (x ∷ lots) = (
  Memᴰ.head refl,
  All-map (λ lot. Memᴰ lot lots) (λ lot. Memᴰ lot (x ∷ lots)) (λ lot m. Memᴰ.tail m) lots
      (All-self lots),
)

scoped-All :
    (r : SellAllocationRequest) (lots : List OpenLot)
    → All (λ lot. Memᴰ lot lots × (in_scope r lot ≡ true)) (scoped r lots)
unfolding scoped
scoped-All r lots = All-filter (λ lot. Memᴰ lot lots) (in_scope r) lots (All-self lots)

module _ (r : SellAllocationRequest) (lots : List OpenLot) where
  abbrev Sound : Result Refusal (List OpenLot × AllocationMethod) → Type 0
  Sound (ok (chosen, method)) = All (Eligible r lots method) chosen
  Sound (err e) = Unit

  listed-Sound : Sound (ok (pick r.explicit_lot_ids (scoped r lots), AllocationMethod.explicit_lot))
  listed-Sound =
      All-map (IsListed (λ lot. Memᴰ lot lots × (in_scope r lot ≡ true)) r.explicit_lot_ids)
        (Eligible r lots AllocationMethod.explicit_lot) (λ x h. (h.0.0, h.0.1, h.1))
        (pick r.explicit_lot_ids (scoped r lots))
        (pick-All (λ lot. Memᴰ lot lots × (in_scope r lot ≡ true)) r.explicit_lot_ids
          (scoped r lots) (scoped-All r lots))

  threaded-Sound : Sound (
      ok (
        filter (on_thread r.explicit_thread_id) (scoped r lots),
        AllocationMethod.explicit_thread_fifo,
      ))
  threaded-Sound =
      All-map
        (λ x. (Memᴰ x lots × (in_scope r x ≡ true)) × (on_thread r.explicit_thread_id x ≡ true))
        (Eligible r lots AllocationMethod.explicit_thread_fifo) (λ x h. (h.0.0, h.0.1, h.1))
        (filter (on_thread r.explicit_thread_id) (scoped r lots))
        (All-filter (λ x. Memᴰ x lots × (in_scope r x ≡ true)) (on_thread r.explicit_thread_id)
          (scoped r lots) (scoped-All r lots))

  open-Sound :
      r.explicit_lot_ids ≡ []
      → some_text r.explicit_thread_id ≡ false
      → Sound (ok (scoped r lots, AllocationMethod.inferred_fifo))
  open-Sound no_lot no_thread =
      All-map (λ x. Memᴰ x lots × (in_scope r x ≡ true))
        (Eligible r lots AllocationMethod.inferred_fifo) (λ x h. (h.0, h.1, (no_lot, no_thread)))
        (scoped r lots) (scoped-All r lots)

  candidates-Sound : Sound (candidates r lots)
  unfolding candidates
  candidates-Sound =
      if_cases Sound (not (is_empty r.explicit_lot_ids)) _ _
        (λ _.
          if_cases Sound (not (is_empty (filter (is_missing (scoped r lots)) r.explicit_lot_ids))) _
            _ (λ _. tt) (λ _. listed-Sound))
        (λ no_lot.
          if_cases Sound (some_text r.explicit_thread_id) _ _
            (λ _.
              if_cases Sound (is_empty (filter (on_thread r.explicit_thread_id) (scoped r lots))) _
                _ (λ _. tt) (λ _. threaded-Sound))
            (λ no_thread. open-Sound (ground arith) no_thread))

plan_over-Eligible :
    (r : SellAllocationRequest) (lots chosen : List OpenLot) (method : AllocationMethod)
    → All (Eligible r lots method) chosen
    → let p = plan_over r chosen method in All (TakenFrom (Eligible r lots p.method)) p.slices
unfolding plan_over
plan_over-Eligible r lots chosen method h =
    allocate-TakenFrom (Eligible r lots method) r.quantity (sort fifo chosen)
      (All-sort fifo (Eligible r lots method) chosen h)

-- Every slice of a plan takes a positive part of what one open lot holds, a lot of the request's
-- account, instrument and episode that the plan's method selects: a listed lot id, the named
-- thread, or any lot where the request names neither.
pub plan_sell_allocation-Eligible :
    (r : SellAllocationRequest) (lots : List OpenLot) {p : SellAllocationPlan}
    → plan_sell_allocation r lots ≡ ok p
    → All (TakenFrom (Eligible r lots p.method)) p.slices
plan_sell_allocation-Eligible r lots h =
    let (chosen, method, e, same) = plan-candidates r lots h in
    subst (λ q. All (TakenFrom (Eligible r lots q.method)) q.slices) same
      (plan_over-Eligible r lots chosen method (subst (Sound r lots) e (candidates-Sound r lots)))

-- A plan conserves the request: its slices add up to the allocated quantity, which is the smaller
-- of the request and what the candidates hold; allocated and unallocated make up the request; it
-- is complete, and names no blocker, exactly when the candidates hold enough.
pub plan_sell_allocation-Balances :
    (r : SellAllocationRequest) (lots : List OpenLot) {p : SellAllocationPlan}
    → plan_sell_allocation r lots ≡ ok p
    → (chosen : List OpenLot) × (candidates r lots ≡ ok (chosen, p.method)) × Balances r chosen p
unfolding plan_over
plan_sell_allocation-Balances r lots {p} h =
    let (chosen, method, e, same) = plan-candidates r lots h in
    subst (λ q. (c : List OpenLot) × (candidates r lots ≡ ok (c, q.method)) × Balances r c q) same
      (chosen, e, plan_over-Balances r chosen method)

fifo_opened : Respects fifo (λ lot. lot.opened_at)
fifo_opened = record { below = λ x y h. ground arith; above = λ x y h. ground arith }

-- The slices follow the order of opening.
abbrev pub TakesOldestFirst : SellAllocationRequest → List OpenLot → SellAllocationPlan → Type 0
TakesOldestFirst r chosen p =
    (ordered : List OpenLot) × Perm ordered chosen
    × Ascending (λ lot. lot.opened_at) ordered
    × ((n : ℕ)
        → allocated_total (take n p.slices) ≡ min r.quantity (remaining_total (take n ordered)))

abbrev pub HoldsSome : OpenLot → Type 0
HoldsSome lot = 0 < lot.remaining_quantity

plan_over-TakesOldestFirst :
    (r : SellAllocationRequest) (chosen : List OpenLot) (method : AllocationMethod)
    → All HoldsSome chosen
    → TakesOldestFirst r chosen (plan_over r chosen method)
unfolding plan_over
plan_over-TakesOldestFirst r chosen method h = (
  sort fifo chosen,
  perm-sort fifo chosen,
  Ascending-sort fifo (λ lot. lot.opened_at) fifo_opened chosen,
  λ n. allocate-take n r.quantity (sort fifo chosen) (All-sort fifo HoldsSome chosen h),
)

All-Memᴰ {ℓ} :
    (P : OpenLot → Type ℓ) {lot : OpenLot} (lots : List OpenLot)
    → All P lots
    → Memᴰ lot lots
    → P lot
All-Memᴰ P lots h (Memᴰ.head {x = x} e) = subst P (sym e) h.0
All-Memᴰ P lots h (Memᴰ.tail {xs = xs} m) = All-Memᴰ P xs h.1 m

-- First in, first out: where every open lot holds something (as each constructed lot does), the
-- candidates that a plan draws on can be ordered by their time of opening so that the first `n`
-- slices take exactly what the first `n` lots hold, up to the request, for every `n`.
pub plan_sell_allocation-TakesOldestFirst :
    (r : SellAllocationRequest) (lots : List OpenLot) {p : SellAllocationPlan}
    → All HoldsSome lots
    → plan_sell_allocation r lots ≡ ok p
    → (chosen : List OpenLot) × (candidates r lots ≡ ok (chosen, p.method))
      × TakesOldestFirst r chosen p
unfolding plan_over
plan_sell_allocation-TakesOldestFirst r lots h planned =
    let (chosen, method, e, same) = plan-candidates r lots planned in
    let positive : All HoldsSome chosen =
      All-map (Eligible r lots method) HoldsSome
        (λ x eligible. All-Memᴰ HoldsSome lots h eligible.0) chosen
        (subst (Sound r lots) e (candidates-Sound r lots)) in
    subst
      (λ q. (c : List OpenLot) × (candidates r lots ≡ ok (c, q.method)) × TakesOldestFirst r c q)
      same (chosen, e, plan_over-TakesOldestFirst r chosen method positive)

-- The constructor admits a lot only with a positive quantity, and keeps the given one.
pub open_lot-HoldsSome :
    (lot account instrument episode : String) (opened : ℕ) (q : ℤ) (thread : Option String)
    {x : OpenLot}
    → open_lot lot account instrument episode opened (finite q) thread ≡ ok x
    → HoldsSome x × (pos x.remaining_quantity ≡ q)
unfolding open_lot
open_lot-HoldsSome lot account instrument episode opened q thread h = ground arith

-- A request with explicit lots is refused exactly when some listed id has no lot in its scope; the
-- refusal lists those ids. It never falls back to other lots.
pub plan_sell_allocation-explicit :
    (r : SellAllocationRequest) (lots : List OpenLot)
    → r.explicit_lot_ids ≢ []
    → let missing = filter (is_missing (scoped r lots)) r.explicit_lot_ids in
      ((missing ≢ []) × (plan_sell_allocation r lots ≡ err (lots_unavailable missing)))
      ⊎ ((missing ≡ [])
          × (p : SellAllocationPlan) × (plan_sell_allocation r lots ≡ ok p)
          × (p.method ≡ AllocationMethod.explicit_lot))
unfolding plan_sell_allocation
plan_sell_allocation-explicit r lots h =
    let missing = filter (is_missing (scoped r lots)) r.explicit_lot_ids in
    let given : is_empty r.explicit_lot_ids ≡ false = is_empty-false r.explicit_lot_ids h in
    elim (List-cases missing) [
      | inl all_there ↦ inr (
        all_there,
        plan_over r (pick r.explicit_lot_ids (scoped r lots)) AllocationMethod.explicit_lot,
        rw (given, all_there),
        refl,
      )
      | inr (absent, e) ↦ inl (absent, rw (given, e))
    ]
