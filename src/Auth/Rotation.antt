-- ===== src/Auth/Rotation.antt =====
-- The rotation of refresh tokens: what an exchange grants, and that it is the last one of the token.
pub mod Exchanges
use mathlib.Core.Path.{◌∙◌, sym, ap}
use kis_portfolio_mcp.Common.{
  ℕ, ◌+◌, ◌<◌, ◌≡◌, inl, inr, refl, String, Bool, true, false, not, Option, none, some, List,
  Result, ok, err, ok_injective, arith, if_cases, some_text,
}
use kis_portfolio_mcp.Common.Dict.{get, text_key}
use kis_portfolio_mcp.Commands.Store.{ClaimResult, get_value, put_value, claim, is_live}
use kis_portfolio_mcp.Commands.Store.Claims.{claim-Claimed, claim_live}
use kis_portfolio_mcp.Auth.Records.{
  TokenRecord, as_token, StoredToken, OauthToken, normalize_scopes, normalize_resource, or_text,
  subset,
}
use kis_portfolio_mcp.Auth.Repository.{
  Store, oauth_tokens, put_token, index_token, insert_oauth_token, revoke_found, revoke_oauth_token,
  refresh_claim, refresh_claim_seconds, consume_refresh_token, id_key, grant_key,
}
use kis_portfolio_mcp.Auth.Repository.Documents.{get_value-claims}
use kis_portfolio_mcp.Auth.Provider.{
  Provider, Drawn, TokenError, scope_exceeds_grant, refresh_token_already_used, issue_token_pair,
  exchange_refresh_token, requested_scopes,
}

index_token-claims :
    (grant_id : Option String) (id : String) (now : ℕ) (s : Store)
    → (index_token grant_id id now s).claims ≡ s.claims
unfolding put_value
index_token-claims none id now s = refl
index_token-claims (some g) id now s =
    if_cases (λ (x : Store). x.claims ≡ s.claims) (some_text (some g)) _ _
      (λ _. get_value-claims oauth_tokens (grant_key g) now s) (λ _. refl)

insert_oauth_token-claims :
    (r : TokenRecord) (now : ℕ) (s : Store) → (insert_oauth_token r now s).claims ≡ s.claims
unfolding insert_oauth_token put_token put_value
insert_oauth_token-claims r now s = index_token-claims r.grant_id r.id now (put_token r s)

revoke_found-claims :
    (o : Option TokenRecord) (now : ℕ) (s : Store) → (revoke_found o now s).1.claims ≡ s.claims
unfolding revoke_found put_token put_value
revoke_found-claims none now s = refl
revoke_found-claims (some r) now s = refl

pub revoke_oauth_token-claims :
    (id : String) (now : ℕ) (s : Store) → (revoke_oauth_token id now s).1.claims ≡ s.claims
unfolding revoke_oauth_token
revoke_oauth_token-claims id now s =
    let (document, s') = get_value oauth_tokens (id_key id) now s in
    revoke_found-claims (as_token document) now s' ∙ get_value-claims oauth_tokens (id_key id) now s

-- A token that is consumed is claimed; while it is claimed, it is not consumed.
pub consume_refresh_token-claims :
    (owner id : String) (now : ℕ) (s : Store)
    → (consume_refresh_token owner id now s).0 ≡ true
    → (r : ClaimResult) × (get (refresh_claim id) (consume_refresh_token owner id now s).1.claims
        ≡ some r)
      × (r.expires_at ≡ now + refresh_claim_seconds)
unfolding consume_refresh_token
consume_refresh_token-claims owner id now s h =
    let (c, s') = claim (refresh_claim id) owner refresh_claim_seconds now s in
    if_cases
      (λ (x : Bool × Store).
        x.0 ≡ true
        → (r : ClaimResult) × (get (refresh_claim id) x.1.claims ≡ some r)
          × (r.expires_at ≡ now + refresh_claim_seconds))
      c.acquired _ _
      (λ e d. elim (claim-Claimed (refresh_claim id) owner refresh_claim_seconds now s) [
        | inl (denied, same) ↦ cc
        | inr (given, dead, values, on_record, until) ↦ (
          c,
          ap (λ x. get (refresh_claim id) x) (revoke_oauth_token-claims id now s') ∙ on_record,
          until,
        )
      ])
      (λ e d. cc) h

consume_refresh_token_claimed :
    (owner id : String) (now : ℕ) (s : Store)
    → is_live (get (refresh_claim id) s.claims) now ≡ true
    → (consume_refresh_token owner id now s).0 ≡ false
unfolding consume_refresh_token
consume_refresh_token_claimed owner id now s h =
    rw (claim_live (refresh_claim id) owner refresh_claim_seconds now s h) refl

module _ (digest : String → String) where
  pub issue_token_pair-claims :
      (p : Provider) (d : Drawn) (user_id client_id : String) (grant_id : Option String)
      (scopes : List String) (resource rotated : Option String) (now : ℕ) (s : Store)
      → (issue_token_pair digest p d user_id client_id grant_id scopes resource rotated now
          s).1.claims
        ≡ s.claims
  unfolding issue_token_pair
  issue_token_pair-claims p d user_id client_id grant_id scopes resource rotated now s =
      insert_oauth_token-claims _ now _ ∙ insert_oauth_token-claims _ now s

  -- What an exchange that was let through shows: its scopes, its claim, and the store that it leaves.
  abbrev pub Rotated :
      Provider
      → Drawn
      → String
      → StoredToken
      → List String
      → Option String
      → ℕ
      → OauthToken
      → Store
      → Type 0
  Rotated p d client_id t scopes resource now pair s =
      (subset (requested_scopes scopes t) t.scopes ≡ true)
      × (pair.scope ≡ normalize_scopes (requested_scopes scopes t))
      × ((r : ClaimResult) × (get (refresh_claim t.id) s.claims ≡ some r)
          × (r.expires_at ≡ now + refresh_claim_seconds))
      × ((before : Store) × ((issue_token_pair digest p d t.user_id client_id t.grant_id
              (requested_scopes scopes t) (or_text (normalize_resource resource) t.resource)
              (some t.id) now before).1
            ≡ s))

  pub exchange_refresh_token-Rotated :
      (p : Provider) (d : Drawn) (client_id : String) (t : StoredToken) (scopes : List String)
      (resource : Option String) (now : ℕ) (s s' : Store) (pair : OauthToken)
      → exchange_refresh_token digest p d client_id t scopes resource now s ≡ (ok pair, s')
      → Rotated p d client_id t scopes resource now pair s'
  unfolding exchange_refresh_token issue_token_pair
  exchange_refresh_token-Rotated p d client_id t scopes resource now s s' pair h =
      let requested = requested_scopes scopes t in
      let (consumed, s1) = consume_refresh_token d.owner t.id now s in
      let P : Result TokenError OauthToken × Store → Type 0 =
        λ x. x ≡ (ok pair, s') → Rotated p d client_id t scopes resource now pair s' in
      if_cases P (not (subset requested t.scopes)) _ _ (λ _ x. cc)
        (λ within.
          if_cases P consumed _ _
            (λ done x.
              let (r, on_record, until) = consume_refresh_token-claims d.owner t.id now s done in
              let after =
                issue_token_pair digest p d t.user_id client_id t.grant_id requested
                  (or_text (normalize_resource resource) t.resource) (some t.id) now s1 in
              let kept : after.1.claims ≡ s1.claims =
                issue_token_pair-claims p d _ _ _ _ _ _ now s1 in
              let pair_same : after.0 ≡ pair =
                ok_injective after.0 pair
                  (ap (λ (y : Result TokenError OauthToken × Store). y.0) x) in
              let store_same : after.1 ≡ s' =
                ap (λ (y : Result TokenError OauthToken × Store). y.1) x in
              (
                ground arith,
                ap (λ (y : OauthToken). y.scope) (sym pair_same),
                (
                  r,
                  ap (λ (y : Store). get (refresh_claim t.id) y.claims) (sym store_same)
                      ∙ ap (λ y. get (refresh_claim t.id) y) kept
                      ∙ on_record,
                  until,
                ),
                (s1, store_same),
              ))
            (λ _ x. cc))
        h

  -- An exchange of a token that is claimed is refused.
  pub exchange_refresh_token_claimed :
      (p : Provider) (d : Drawn) (client_id : String) (t : StoredToken) (scopes : List String)
      (resource : Option String) (now : ℕ) (s : Store)
      → is_live (get (refresh_claim t.id) s.claims) now ≡ true
      → (e : TokenError) × ((exchange_refresh_token digest p d client_id t scopes resource now s).0
          ≡ err e)
  unfolding exchange_refresh_token
  exchange_refresh_token_claimed p d client_id t scopes resource now s h =
      let Refused : Result TokenError OauthToken × Store → Type 0 =
        λ x. (e : TokenError) × (x.0 ≡ err e) in
      let (consumed, s1) = consume_refresh_token d.owner t.id now s in
      if_cases Refused (not (subset (requested_scopes scopes t) t.scopes)) _ _
        (λ _. (scope_exceeds_grant, refl))
        (λ _.
          if_cases Refused consumed _ _
            (λ done. absurd (cc (done, consume_refresh_token_claimed d.owner t.id now s h)))
            (λ _. (refresh_token_already_used, refl)))
