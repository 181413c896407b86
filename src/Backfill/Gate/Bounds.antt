-- ===== src/Backfill/Gate/Bounds.antt =====
-- What the gate promises: its counts are those of the calls, within every limit, and a plan that was
-- given a budget is never stopped by the global limit.
use kis_portfolio_mcp.Common.{
  ℕ, ◌+◌, ◌≤◌, ◌<◌, ◌≡◌, refl, String, Option, none, some, List, [], ◌∷◌, Result, ok, bind_ok,
  raise_if_ok, ok_injective, leb, ltb, if_cases, arith, str_eq,
}
use mathlib.Core.Path.{sym, subst}
use kis_portfolio_mcp.Common.Dict.{Dict, get, put, text_key}
use kis_portfolio_mcp.Backfill.Budget.{
  BudgetError, already_used, BudgetedPlan, BudgetReservation, reserved_call_ceiling,
}
use kis_portfolio_mcp.Backfill.Gate.{
  PhysicalCallReservation, Gate, limits_of, none_used, new_gate, sum_of, reserve_within, reserve_on,
  reserve, restored_one, restore_all, restored_gate, restore, reserve_each,
}

-- The same partitions in the same order, each used within its limit.
abbrev pub Within : Dict String ℕ → Dict String ℕ → Type 0
Within [] [] = Unit
Within [] (l ∷ ls) = ⊥
Within (u ∷ us) [] = ⊥
Within ((k, u) ∷ us) ((j, l) ∷ ls) = (k ≡ j) × (u ≤ l) × Within us ls

-- The gate counts its calls, and they are within the limit of each partition and the global one.
pub record IsWithin (g : Gate) : Type 0 where
  pub pages : Within g.used g.limits
  pub counted : g.total_used ≡ sum_of g.used
  pub overall : g.total_used ≤ g.global_limit

none_used-Within : (limits : Dict String ℕ) → Within (none_used limits) limits
none_used-Within [] = tt
none_used-Within ((k, l) ∷ ls) = (refl, omega arith, none_used-Within ls)

sum_of-none_used : (limits : Dict String ℕ) → sum_of (none_used limits) ≡ 0
sum_of-none_used [] = refl
sum_of-none_used ((k, l) ∷ ls) = omega (arith, sum_of-none_used ls)

put-Within :
    (key : String) (n limit : ℕ) (us ls : Dict String ℕ)
    → get key ls ≡ some limit
    → n ≤ limit
    → Within us ls
    → Within (put key n us) ls
unfolding get put
put-Within key n limit [] [] g h w = cc
put-Within key n limit [] (l ∷ ls) g h w = absurd w
put-Within key n limit (u ∷ us) [] g h w = absurd w
put-Within key n limit ((k, u) ∷ us) ((j, l) ∷ ls) g h (e, a, w) =
    if_cases (λ d. Within d ((j, l) ∷ ls)) (str_eq k key) _ _ (λ same. (e, ground (arith, e), w))
      (λ other. (e, a, put-Within key n limit us ls (ground (arith, e)) h w))

sum_of-put :
    (key : String) (n u : ℕ) (us : Dict String ℕ)
    → get key us ≡ some u
    → sum_of (put key n us) + u ≡ sum_of us + n
unfolding get put
sum_of-put key n u [] g = cc
sum_of-put key n u ((k, v) ∷ us) g = ground (arith, sum_of-put key n u us)

-- A partition that has been used less than its limit leaves room below the sum of the limits.
room :
    (key : String) (u l : ℕ) (us ls : Dict String ℕ)
    → Within us ls
    → (sum_of us ≤ sum_of ls)
      × (get key us ≡ some u → get key ls ≡ some l → u < l → sum_of us < sum_of ls)
unfolding get
room key u l [] [] w = (omega arith, (λ a. cc))
room key u l [] (y ∷ ls) w = absurd w
room key u l (x ∷ us) [] w = absurd w
room key u l ((k, x) ∷ us) ((j, y) ∷ ls) (e, a, w) =
    let (le, lt) = room key u l us ls w in (omega arith, (λ p q h. ground (arith, e)))

sum_of-put_le : (key : String) (n : ℕ) (d : Dict String ℕ) → sum_of (put key n d) ≤ sum_of d + n
unfolding put
sum_of-put_le key n [] = omega arith
sum_of-put_le key n ((k, v) ∷ d) = ground (arith, sum_of-put_le key n d)

limits_of-ceiling :
    (rs : List BudgetReservation) (limits : Dict String ℕ)
    → sum_of (limits_of rs limits) ≤ sum_of limits + reserved_call_ceiling rs
unfolding limits_of
limits_of-ceiling [] limits = omega arith
limits_of-ceiling (r ∷ rs) limits = omega (
  arith,
  limits_of-ceiling rs (put r.partition_key r.page_limit limits),
  sum_of-put_le r.partition_key r.page_limit limits,
)

reserve_within-IsWithin :
    (key : String) (limit used : ℕ) (g : Gate)
    → get key g.limits ≡ some limit
    → get key g.used ≡ some used
    → IsWithin g
    → IsWithin (reserve_within key limit used g).1
unfolding reserve_within
reserve_within-IsWithin key limit used g a b h =
    let counted = h.counted in
    let sum = sum_of-put key (used + 1) used g.used b in
    if_cases (λ (x : Result BudgetError PhysicalCallReservation × Gate). IsWithin x.1)
      (leb limit used) _ _ (λ _. h)
      (λ e.
        if_cases (λ (x : Result BudgetError PhysicalCallReservation × Gate). IsWithin x.1)
          (leb g.global_limit g.total_used) _ _ (λ _. h)
          (λ f. record {
            pages = put-Within key (used + 1) limit g.used g.limits a (ground arith) h.pages;
            counted = omega arith;
            overall = ground arith;
          }))

reserve_on-IsWithin :
    (key : String) (limit used : Option ℕ) (g : Gate)
    → get key g.limits ≡ limit
    → get key g.used ≡ used
    → IsWithin g
    → IsWithin (reserve_on key limit used g).1
reserve_on-IsWithin key none used g a b h = h
reserve_on-IsWithin key (some limit) none g a b h = h
reserve_on-IsWithin key (some limit) (some used) g a b h =
    reserve_within-IsWithin key limit used g a b h

-- Every reservation, of whatever partition, keeps the calls within the page limit of each partition
-- and the global limit, with the counts that of the calls.
pub reserve-IsWithin : (key : String) (g : Gate) → IsWithin g → IsWithin (reserve key g).1
unfolding reserve
reserve-IsWithin key g h = reserve_on-IsWithin key (get key g.limits) (get key g.used) g refl refl h

reserve_on-settings :
    (key : String) (limit used : Option ℕ) (g : Gate)
    → ((reserve_on key limit used g).1.limits ≡ g.limits)
      × ((reserve_on key limit used g).1.global_limit ≡ g.global_limit)
unfolding reserve_within
reserve_on-settings key none used g = (refl, refl)
reserve_on-settings key (some limit) none g = (refl, refl)
reserve_on-settings key (some limit) (some used) g = (ground arith, ground arith)

-- The gate of a plan within its budget, and what it is after reservations.
abbrev Fits : Gate → Type 0
Fits g = IsWithin g × (sum_of g.limits ≤ g.global_limit)

reserve-Fits : (key : String) (g : Gate) → Fits g → Fits (reserve key g).1
unfolding reserve
reserve-Fits key g (w, f) =
    let (limits, overall) = reserve_on-settings key (get key g.limits) (get key g.used) g in
    (reserve-IsWithin key g w, rw (limits, overall) f)

reserve_each-Fits : (keys : List String) (g : Gate) → Fits g → Fits (reserve_each keys g)
unfolding reserve_each
reserve_each-Fits [] g h = h
reserve_each-Fits (key ∷ keys) g h = reserve_each-Fits keys (reserve key g).1 (reserve-Fits key g h)

new_gate-Fits :
    (plan : BudgetedPlan)
    → reserved_call_ceiling plan.reservations ≤ plan.policy.max_physical_calls
    → Fits (new_gate plan)
unfolding new_gate
new_gate-Fits plan h =
    let limits = limits_of plan.reservations [] in
    (
      record {
        pages = none_used-Within limits;
        counted = sym (sum_of-none_used limits);
        overall = omega arith;
      },
      omega (arith, limits_of-ceiling plan.reservations []),
    )

reserve_live :
    (key : String) (g : Gate) (limit used : ℕ)
    → Fits g
    → get key g.limits ≡ some limit
    → get key g.used ≡ some used
    → used < limit
    → (r : PhysicalCallReservation) × ((reserve key g).0 ≡ ok r) × (r.page_number ≡ used + 1)
unfolding reserve reserve_within
reserve_live key g limit used (w, f) a b h =
    let counted = w.counted in
    let below = (room key used limit g.used g.limits w.pages).1 b a h in
    (
      record {
        partition_key = key;
        page_number = used + 1;
        global_call_number = g.total_used + 1;
        partition_page_limit = limit;
        global_call_limit = g.global_limit;
      },
      rw (a, b) (ground arith),
      refl,
    )

-- A plan whose worst case fits its budget is never stopped by the global limit: after whatever
-- reservations, the calls made are within every limit, and a partition with a page left is granted it.
pub new_gate-live :
    (plan : BudgetedPlan) (keys : List String) (key : String) (limit used : ℕ)
    → reserved_call_ceiling plan.reservations ≤ plan.policy.max_physical_calls
    → get key (reserve_each keys (new_gate plan)).limits ≡ some limit
    → get key (reserve_each keys (new_gate plan)).used ≡ some used
    → used < limit
    → IsWithin (reserve_each keys (new_gate plan))
      × ((r : PhysicalCallReservation) × ((reserve key (reserve_each keys (new_gate plan))).0
            ≡ ok r)
          × (r.page_number ≡ used + 1))
new_gate-live plan keys key limit used h a b l =
    let fits = reserve_each-Fits keys (new_gate plan) (new_gate-Fits plan h) in
    (fits.0, reserve_live key (reserve_each keys (new_gate plan)) limit used fits a b l)

restored_one-Within :
    (key : String) (n : ℕ) (o : Option ℕ) (limits restored d : Dict String ℕ)
    → get key limits ≡ o
    → Within restored limits
    → restored_one key n o restored ≡ ok d
    → Within d limits
restored_one-Within key n none limits restored d g w e = cc
restored_one-Within key n (some limit) limits restored d g w e =
    if_cases (λ (x : Result BudgetError (Dict String ℕ)). x ≡ ok d → Within d limits) (ltb limit n)
      _ _ (λ f x. cc)
      (λ f x.
        subst (λ y. Within y limits) (ok_injective _ _ x)
          (put-Within key n limit restored limits g (ground arith) w))
      e

restore_all-Within :
    (limits pages restored d : Dict String ℕ)
    → Within restored limits
    → restore_all limits pages restored ≡ ok d
    → Within d limits
unfolding restore_all
restore_all-Within limits [] restored d w h = subst (λ x. Within x limits) (ok_injective _ _ h) w
restore_all-Within limits ((key, n) ∷ pages) restored d w h =
    let (next, e, h1) = bind_ok _ (restore_all limits pages) h in
    restore_all-Within limits pages next d
      (restored_one-Within key n (get key limits) limits restored next refl w e) h1

restored_gate-IsWithin :
    (g after : Gate) (d : Dict String ℕ)
    → Within d g.limits
    → restored_gate g d ≡ ok after
    → IsWithin after
unfolding restored_gate
restored_gate-IsWithin g after d w h =
    if_cases (λ (x : Result BudgetError Gate). x ≡ ok after → IsWithin after)
      (ltb g.global_limit (sum_of d)) _ _ (λ e x. cc)
      (λ e x.
        subst (λ (y : Gate). IsWithin y) (ok_injective _ _ x)
          (record { pages = w; counted = refl; overall = ground arith }))
      h

-- A restored gate counts the calls of the run before, within every limit.
pub restore-IsWithin :
    (pages : Dict String ℕ) (g after : Gate) → restore pages g ≡ ok after → IsWithin after
unfolding restore
restore-IsWithin pages g after h =
    let h1 = (raise_if_ok _ already_used _ h).1 in
    let (d, e, h2) = bind_ok _ (restored_gate g) h1 in
    restored_gate-IsWithin g after d
      (restore_all-Within g.limits pages (none_used g.limits) d (none_used-Within g.limits) e) h2
