-- ===== src/Auth/SingleUse/Begin.antt =====
-- A worker asks for the claim: it is refused while another one lasts, and a claim outlives the code.
use mathlib.Core.Path.{sym, ap, subst}
use kis_portfolio_mcp.Common.{
  ℕ, ◌+◌, ◌≤◌, ◌<◌, ◌≡◌, ◌⊎◌, inl, inr, String, Bool, true, false, Option, none, some, leb, arith,
  if_cases,
}
use kis_portfolio_mcp.Common.Dict.{get, pair_key, text_key}
use kis_portfolio_mcp.Commands.Store.{ClaimResult, claim, is_live}
use kis_portfolio_mcp.Commands.Store.Claims.{claim-Claimed}
use kis_portfolio_mcp.Auth.Repository.{Store, oauth_codes, id_key, code_claim, code_claim_seconds}
use kis_portfolio_mcp.Auth.Repository.Documents.{stored}
use kis_portfolio_mcp.Auth.SingleUse.{Workers, one_if, busy, begin_step, IsCode, Outlives, IsSingle}

le_or_gt : (a b : ℕ) → (a ≤ b) ⊎ (b < a)
le_or_gt a b =
    if_cases (λ (x : Bool). (a ≤ b) ⊎ (b < a)) (leb a b) true false (λ e. inl (ground arith))
      (λ e. inr (ground arith))

Outlives-is_live :
    (e now : ℕ) (o : Option ClaimResult) → Outlives e o → now < e → is_live o now ≡ true
Outlives-is_live e now none h l = absurd h
Outlives-is_live e now (some r) h l = ground arith

-- The workers once one more has asked for the claim.
abbrev asked : ℕ → ClaimResult × Store → Workers → Workers
asked later (r, s) w = record {
  now = w.now + later;
  store = s;
  pending = w.pending + one_if r.acquired;
  reading = w.reading;
  exchanged = w.exchanged;
}

refused-IsSingle :
    (c : String) (e later : ℕ) (w : Workers) (r : ClaimResult) (s : Store)
    → r.acquired ≡ false
    → s ≡ w.store
    → IsSingle c e w
    → IsSingle c e (asked later (r, s) w)
refused-IsSingle c e later w r s denied same h =
    let none_more : one_if r.acquired ≡ 0 = ap one_if denied in
    record {
      document =
          subst (λ (x : Store). IsCode c e (stored oauth_codes (id_key c) x)) (sym same) h.document;
      in_time = let t = h.in_time in omega arith;
      records = h.records;
      once = h.once;
      alone = elim h.alone [
        | inl late ↦ inl (omega arith)
        | inr (few, live) ↦ inr (
          omega arith,
          λ a.
              subst (λ (x : Store). Outlives e (get (code_claim c) x.claims)) (sym same)
                (live (omega arith)),
        )
      ];
    }

acquired-IsSingle :
    (c : String) (e later : ℕ) (w : Workers) (r : ClaimResult) (s : Store)
    → r.acquired ≡ true
    → is_live (get (code_claim c) w.store.claims) (w.now + later) ≡ false
    → s.values ≡ w.store.values
    → get (code_claim c) s.claims ≡ some r
    → r.expires_at ≡ w.now + later + code_claim_seconds
    → IsSingle c e w
    → IsSingle c e (asked later (r, s) w)
acquired-IsSingle c e later w r s given dead values record_of until h =
    let one_more : one_if r.acquired ≡ 1 = ap one_if given in
    let t = h.in_time in
    record {
      document = subst (λ x. IsCode c e (get (oauth_codes, id_key c) x)) (sym values) h.document;
      in_time = omega arith;
      records = h.records;
      once = h.once;
      alone = elim h.alone [
        | inl late ↦ inl (omega arith)
        | inr (few, live) ↦ elim (le_or_gt e (w.now + later)) [
          | inl late ↦ inl late
          | inr early ↦
              let nobody : busy w < 1 = elim (le_or_gt 1 (busy w)) [
                | inl some_one ↦ absurd (cc (dead, Outlives-is_live e _ _ (live some_one) early))
                | inr nobody ↦ nobody
              ] in
              inr (omega arith, λ a. subst (λ x. Outlives e x) (sym record_of) (omega arith))
        ]
      ];
    }

pub begin_step-IsSingle :
    (c : String) (e later : ℕ) (owner : String) (w : Workers)
    → IsSingle c e w
    → IsSingle c e (begin_step c later owner w)
begin_step-IsSingle c e later owner w h =
    let (r, s) = claim (code_claim c) owner code_claim_seconds (w.now + later) w.store in
    elim (claim-Claimed (code_claim c) owner code_claim_seconds (w.now + later) w.store) [
      | inl (denied, same) ↦ refused-IsSingle c e later w r s denied same h
      | inr (given, dead, values, record_of, until) ↦
          acquired-IsSingle c e later w r s given dead values record_of until h
    ]
