-- ===== src/Commands/Store/Claims.antt =====
-- What a claim does to the store: it is refused and changes nothing, or it is on record.
use mathlib.Core.Path.{◌∙◌, sym, ap}
use mathlib.Core.Bool.{false≢true}
use kis_portfolio_mcp.Common.{
  ℕ, ◌+◌, ◌≡◌, ◌⊎◌, inl, inr, refl, String, true, false, Option, none, some, if_cases,
}
use kis_portfolio_mcp.Common.Dict.{get, get-put_self, get-put_other, text_key}
use kis_portfolio_mcp.Commands.Store.{StateStore, ClaimResult, claim, grant, is_live, refused}

refused_not : (o : Option ClaimResult) → (refused o).acquired ≡ false
refused_not none = refl
refused_not (some r) = refl

module _ {V : Type 0} where
  -- A claim is refused and changes nothing, or it is on record until its time is over.
  abbrev pub Claimed : String → ℕ → ℕ → StateStore V → ClaimResult × StateStore V → Type 0
  Claimed resource ttl now s (r, s') =
      ((r.acquired ≡ false) × (s' ≡ s))
      ⊎ ((r.acquired ≡ true)
          × (is_live (get resource s.claims) now ≡ false)
          × (s'.values ≡ s.values)
          × (get resource s'.claims ≡ some r)
          × (r.expires_at ≡ now + ttl))

  pub claim-Claimed :
      (resource owner : String) (ttl now : ℕ) (s : StateStore V)
      → Claimed resource ttl now s (claim resource owner ttl now s)
  unfolding claim grant
  claim-Claimed resource owner ttl now s =
      if_cases (Claimed resource ttl now s) (is_live (get resource s.claims) now) _ _
        (λ e. inl (refused_not (get resource s.claims), refl))
        (λ e. inr (refl, e, refl, get-put_self resource _ s.claims, refl))

  -- A claim is refused while there is a live one.
  pub claim_live :
      (resource owner : String) (ttl now : ℕ) (s : StateStore V)
      → is_live (get resource s.claims) now ≡ true
      → (claim resource owner ttl now s).0.acquired ≡ false
  unfolding claim
  claim_live resource owner ttl now s h = rw h (refused_not (get resource s.claims))

  -- A claim leaves every live claim on record.
  pub claim_keeps :
      (k resource owner : String) (ttl now : ℕ) (s : StateStore V) (r : ClaimResult)
      → get k s.claims ≡ some r
      → is_live (some r) now ≡ true
      → get k (claim resource owner ttl now s).1.claims ≡ some r
  unfolding claim grant
  claim_keeps k resource owner ttl now s r h live =
      if_cases (λ (x : ClaimResult × StateStore V). get k x.1.claims ≡ some r)
        (is_live (get resource s.claims) now) _ _ (λ _. h)
        (λ dead.
          get-put_other resource k _ s.claims (λ same. false≢true (
            sym dead
            ∙ ap (λ x. is_live (get x s.claims) now) same
            ∙ ap (λ o. is_live o now) h
            ∙ live))
          ∙ h)
