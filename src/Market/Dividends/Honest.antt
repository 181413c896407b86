-- ===== src/Market/Dividends/Honest.antt =====
-- What an accepted dividend revision cannot claim without evidence.
use kis_portfolio_mcp.Common.{
  ◌≡◌, refl, Bool, true, false, not, ◌&&◌, ◌||◌, Option, none, some, ok, arith, mem_text, str_eq,
}
use kis_portfolio_mcp.Market.Guards.{check-passes, is_none, absent}
use kis_portfolio_mcp.Market.Dividends.{
  DividendEntitlementRevision, DividendReceiptLinkRevision, validate_entitlement,
  validate_receipt_link, uncovered_statuses, linked_statuses, unlinked_statuses, has_money,
}

-- An entitlement claims no more than its coverage supports.
pub record IsHonest (v : DividendEntitlementRevision) : Type 0 where
  pub invents_nothing :
      mem_text v.coverage_status uncovered_statuses ≡ true
      → (v.eligible_quantity ≡ none)
        × (v.rate_per_share ≡ none)
        × (v.expected_gross ≡ none)
        × (v.expected_tax ≡ none)
        × (v.expected_net ≡ none)
  pub confirmed_by :
      str_eq v.coverage_status "source_confirmed" ≡ true → absent v.source_observation_id ≡ false
  pub estimated_from :
      str_eq v.coverage_status "estimated" ≡ true → absent v.position_evidence_id ≡ false
  pub in_currency : has_money v ≡ true → absent v.currency ≡ false

is_none_lem : {A : Type 0} (o : Option A) → is_none o ≡ true → o ≡ none
is_none_lem none h = refl
is_none_lem (some a) h = cc

all_none :
    (q a b c d : Bool)
    → (not q || (not a || not b || not c || not d)) ≡ false
    → (q ≡ true) × (a ≡ true) × (b ≡ true) × (c ≡ true) × (d ≡ true)
all_none q a b c d h = (ground arith, ground arith, ground arith, ground arith, ground arith)

guarded : (a b : Bool) → (a && b) ≡ false → a ≡ true → b ≡ false
guarded a b h e = ground arith

-- An entitlement that is accepted claims no more than its coverage supports: one that is not covered
-- has no quantity and no amount, a confirmed or an estimated one names its evidence, and amounts come
-- with a currency.
pub validate_entitlement-IsHonest :
    (v : DividendEntitlementRevision) → validate_entitlement v ≡ ok tt → IsHonest v
unfolding validate_entitlement
validate_entitlement-IsHonest v h =
    let (_, (_, (_, (_, (invented, (confirmed, (estimated, (money, _)))))))) = check-passes _ h in
    record {
      invents_nothing = λ e.
          let (q, a, b, c, d) =
            all_none (is_none v.eligible_quantity) _ _ _ _ (guarded _ _ invented e) in
          (
            is_none_lem v.eligible_quantity q,
            is_none_lem v.rate_per_share a,
            is_none_lem v.expected_gross b,
            is_none_lem v.expected_tax c,
            is_none_lem v.expected_net d,
          );
      confirmed_by = guarded _ _ confirmed;
      estimated_from = guarded _ _ estimated;
      in_currency = guarded _ _ money;
    }

-- A receipt link that is accepted names a cash event when its status says that one is linked, and
-- names none when its status says that there is none.
pub validate_receipt_link-event :
    (v : DividendReceiptLinkRevision)
    → validate_receipt_link v ≡ ok tt
    → (mem_text v.link_status linked_statuses ≡ true → absent v.cash_flow_event_id ≡ false)
      × (mem_text v.link_status unlinked_statuses ≡ true → v.cash_flow_event_id ≡ none)
unfolding validate_receipt_link
validate_receipt_link-event v h =
    let (_, (_, (_, (linked, (unlinked, _))))) = check-passes _ h in
    (
      guarded _ _ linked,
      λ e.
          is_none_lem v.cash_flow_event_id
            (negated (is_none v.cash_flow_event_id) (guarded _ _ unlinked e)),
    )
  where
    negated : (b : Bool) → not b ≡ false → b ≡ true
    negated b h = ground arith
