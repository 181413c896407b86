-- ===== src/Auth/Rotation/Exchanges.antt =====
-- A refresh token is exchanged once, for tokens within its scopes.
use mathlib.Core.Path.{◌∙◌, sym, ap, subst}
use mathlib.Core.List.{Memᴰ}
use kis_portfolio_mcp.Common.{
  ℕ, ◌+◌, ◌<◌, ◌≡◌, ◌≢◌, refl, String, Bool, true, not, Option, none, some, List, [], ◌∷◌, All,
  Result, ok, err, arith, if_cases, mem_text-Mem,
}
use kis_portfolio_mcp.Common.Dict.{get, text_key}
use kis_portfolio_mcp.Commands.Store.{ClaimResult, claim, is_live}
use kis_portfolio_mcp.Commands.Store.Claims.{claim_keeps}
use kis_portfolio_mcp.Auth.Records.{
  TokenRecord, TokenType, access_token, refresh_token, token_document, StoredToken, OauthToken,
  normalize_scope, normalize_scopes, normalize_resource, or_text, subset,
}
use kis_portfolio_mcp.Auth.Repository.{
  Store, oauth_tokens, digest_key, refresh_claim, refresh_claim_seconds, consume_refresh_token,
  insert_oauth_token,
}
use kis_portfolio_mcp.Auth.Repository.Documents.{
  stored, insert_oauth_token-digest, insert_oauth_token-digest_other,
}
use kis_portfolio_mcp.Auth.Provider.{
  Provider, Drawn, TokenError, issue_token_pair, exchange_refresh_token, requested_scopes,
}
use kis_portfolio_mcp.Auth.Access.{refresh_record, access_record}
use kis_portfolio_mcp.Auth.Rotation.{
  revoke_oauth_token-claims, issue_token_pair-claims, exchange_refresh_token-Rotated,
  exchange_refresh_token_claimed,
}

-- A call of `exchange_refresh_token`.
pub record Attempt : Type 0 where
  pub provider : Provider
  pub drawn : Drawn
  pub client_id : String
  pub token : StoredToken
  pub scopes : List String
  pub resource : Option String
  pub at : ℕ

-- A record of a rotated token: it is of the token's user and grant and of the client, has the scopes that
-- were requested, and is not revoked.
pub record IsGranted (t : StoredToken) (client_id : String) (requested : List String)
    (r : TokenRecord) : Type 0 where
  pub of_user : r.user_id ≡ t.user_id
  pub of_client : r.client_id ≡ client_id
  pub of_grant : r.grant_id ≡ t.grant_id
  pub scoped : r.scope ≡ normalize_scope (normalize_scopes requested)
  pub unrevoked : r.revoked_at ≡ none

-- The store has, under the digest of a value, the record of a rotated token.
abbrev pub Holds :
    (String → String) → StoredToken → String → List String → TokenType → String → Store → Type 0
Holds digest t client_id requested type value s =
    (r : TokenRecord) × (stored oauth_tokens (digest_key (digest value)) s
      ≡ some (token_document r, r.expires_at))
    × (r.token_type ≡ type)
    × IsGranted t client_id requested r

IsGranted-issued :
    (t : StoredToken) (client_id : String) (requested : List String) (r : TokenRecord)
    → r.user_id ≡ t.user_id
    → r.client_id ≡ client_id
    → r.grant_id ≡ t.grant_id
    → r.scope ≡ normalize_scope (normalize_scopes requested)
    → r.revoked_at ≡ none
    → IsGranted t client_id requested r
IsGranted-issued t client_id requested r a b c d e = record {
  of_user = a;
  of_client = b;
  of_grant = c;
  scoped = d;
  unrevoked = e;
}

subset-All : (a b : List String) → subset a b ≡ true → All (λ x. Memᴰ x b) a
subset-All [] b h = tt
subset-All (x ∷ a) b h = (mem_text-Mem x b (ground arith), subset-All a b (ground arith))

consume_refresh_token-keeps :
    (k owner id : String) (now : ℕ) (s : Store) (r : ClaimResult)
    → get k s.claims ≡ some r
    → is_live (some r) now ≡ true
    → get k (consume_refresh_token owner id now s).1.claims ≡ some r
unfolding consume_refresh_token
consume_refresh_token-keeps k owner id now s r h live =
    let kept = claim_keeps k (refresh_claim id) owner refresh_claim_seconds now s r h live in
    let (c, s') = claim (refresh_claim id) owner refresh_claim_seconds now s in
    if_cases (λ (x : Bool × Store). get k x.1.claims ≡ some r) c.acquired _ _
      (λ _. ap (λ x. get k x) (revoke_oauth_token-claims id now s') ∙ kept) (λ _. kept)

module _ (digest : String → String) where
  -- The store after an attempt, and after a run of attempts, however they end.
  abbrev pub after : Attempt → Store → Store
  after a s =
      (exchange_refresh_token digest a.provider a.drawn a.client_id a.token a.scopes a.resource a.at
        s).1

  abbrev pub after_all : List Attempt → Store → Store
  after_all [] s = s
  after_all (a ∷ tries) s = after_all tries (after a s)

  after-keeps :
      (k : String) (a : Attempt) (s : Store) (r : ClaimResult)
      → get k s.claims ≡ some r
      → is_live (some r) a.at ≡ true
      → get k (after a s).claims ≡ some r
  unfolding exchange_refresh_token
  after-keeps k a s r h live =
      let requested = requested_scopes a.scopes a.token in
      let kept = consume_refresh_token-keeps k a.drawn.owner a.token.id a.at s r h live in
      let (consumed, s') = consume_refresh_token a.drawn.owner a.token.id a.at s in
      let P : Result TokenError OauthToken × Store → Type 0 = λ x. get k x.1.claims ≡ some r in
      if_cases P (not (subset requested a.token.scopes)) _ _ (λ _. h)
        (λ _.
          if_cases P consumed _ _
            (λ _.
              ap (λ x. get k x)
                (issue_token_pair-claims digest a.provider a.drawn a.token.user_id a.client_id
                  a.token.grant_id requested
                  (or_text (normalize_resource a.resource) a.token.resource) (some a.token.id) a.at
                  s')
              ∙ kept)
            (λ _. kept))

  after_all-keeps :
      (k : String) (tries : List Attempt) (s : Store) (r : ClaimResult)
      → get k s.claims ≡ some r
      → All (λ (a : Attempt). a.at < r.expires_at) tries
      → get k (after_all tries s).claims ≡ some r
  after_all-keeps k [] s r h early = h
  after_all-keeps k (a ∷ tries) s r h (soon, early) =
      after_all-keeps k tries (after a s) r (after-keeps k a s r h (ground arith)) early

  issue_token_pair-Holds :
      (p : Provider) (d : Drawn) (t : StoredToken) (client_id : String) (requested : List String)
      (resource rotated : Option String) (now : ℕ) (s : Store)
      → digest d.access_value ≢ digest d.refresh_value
      → let s' =
          (issue_token_pair digest p d t.user_id client_id t.grant_id requested resource rotated now
            s).1 in
        Holds digest t client_id requested access_token d.access_value s'
        × Holds digest t client_id requested refresh_token d.refresh_value s'
  unfolding issue_token_pair
  issue_token_pair-Holds p d t client_id requested resource rotated now s distinct =
      let refresh =
        refresh_record digest p d t.user_id client_id t.grant_id requested resource rotated now in
      let access = access_record digest p d t.user_id client_id t.grant_id requested resource now in
      let before = insert_oauth_token refresh now s in
      (
        (
          access,
          insert_oauth_token-digest access now before,
          refl,
          IsGranted-issued _ _ _ _ refl refl refl refl refl,
        ),
        (
          refresh,
          insert_oauth_token-digest_other access (digest d.refresh_value) now before distinct
              ∙ insert_oauth_token-digest refresh now s,
          refl,
          IsGranted-issued _ _ _ _ refl refl refl refl refl,
        ),
      )

  -- Rotation: an exchange that succeeds asks for no scope beyond those of the token, and gives a pair of
  -- the scopes that it asks for. The store that it leaves has both tokens of the pair under the digests
  -- of their values, where these differ: of the token's user and grant, of the client and of the scopes
  -- asked for, and not revoked. For thirty-one days, through every run of further exchanges of any
  -- tokens, the token that was exchanged is not exchanged again, by whomever.
  pub exchange_refresh_token_rotates :
      (p : Provider) (d : Drawn) (client_id : String) (t : StoredToken) (scopes : List String)
      (resource : Option String) (now : ℕ) (s s' : Store) (pair : OauthToken) (tries : List Attempt)
      (p' : Provider) (d' : Drawn) (other : String) (scopes' : List String)
      (resource' : Option String) (now' : ℕ)
      → digest d.access_value ≢ digest d.refresh_value
      → exchange_refresh_token digest p d client_id t scopes resource now s ≡ (ok pair, s')
      → All (λ (a : Attempt). a.at < now + refresh_claim_seconds) tries
      → now' < now + refresh_claim_seconds
      → All (λ x. Memᴰ x t.scopes) (requested_scopes scopes t)
        × (pair.scope ≡ normalize_scopes (requested_scopes scopes t))
        × Holds digest t client_id (requested_scopes scopes t) access_token d.access_value s'
        × Holds digest t client_id (requested_scopes scopes t) refresh_token d.refresh_value s'
        × ((e : TokenError) × ((exchange_refresh_token digest p' d' other t scopes' resource' now'
                (after_all tries s')).0
              ≡ err e))
  exchange_refresh_token_rotates p d client_id t scopes resource now s s' pair tries p' d' other
        scopes' resource' now' distinct h early soon =
      let (within, scope, (r, on_record, until), (before, left)) =
        exchange_refresh_token-Rotated digest p d client_id t scopes resource now s s' pair h in
      let requested = requested_scopes scopes t in
      let (access, refresh) =
        issue_token_pair-Holds p d t client_id requested
          (or_text (normalize_resource resource) t.resource) (some t.id) now before distinct in
      let kept =
        after_all-keeps (refresh_claim t.id) tries s' r on_record
          (subst (λ u. All (λ (a : Attempt). a.at < u) tries) (sym until) early) in
      let live : is_live (get (refresh_claim t.id) (after_all tries s').claims) now' ≡ true =
        ap (λ o. is_live o now') kept ∙ ground arith in
      (
        subset-All requested t.scopes within,
        scope,
        subst (Holds digest t client_id requested access_token d.access_value) left access,
        subst (Holds digest t client_id requested refresh_token d.refresh_value) left refresh,
        exchange_refresh_token_claimed digest p' d' other t scopes' resource' now'
            (after_all tries s') live,
      )
