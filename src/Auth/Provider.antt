-- ===== src/Auth/Provider.antt =====
-- `KisOAuthProvider` of adapters/auth/provider.py: codes and tokens, issued, exchanged, checked and
-- revoked. The keyed digest of a bearer value is a parameter, and what the source draws is an argument.
pub mod Checks
use kis_portfolio_mcp.Common.{
  ℕ, ◌+◌, String, Bool, true, false, not, ◌&&◌, ◌||◌, Option, none, some, List, Result, ok, err,
  leb, if◌then◌else◌, some_text, str_eq, is_empty,
}
use kis_portfolio_mcp.Commands.Store.{is_expired}
use kis_portfolio_mcp.Auth.Records.{
  CodeRecord, TokenType, access_token, refresh_token, TokenRecord, StoredAuthorizationCode,
  StoredToken, OauthToken, OauthTtlConfig, split_scope, normalize_scope, normalize_scopes,
  normalize_resource, or_text, subset,
}
use kis_portfolio_mcp.Auth.Repository.{
  Store, is_some, insert_authorization_code, get_authorization_code, consume_authorization_code,
  insert_oauth_token, get_oauth_token, revoke_oauth_token, consume_refresh_token,
  revoke_oauth_tokens_for_grant,
}
pub use kis_portfolio_mcp.Auth.Provider.Checks.{
  TokenError, Drawn, Provider, other_resource, other_client, stored_code, stored_token,
  code_already_used, scope_exceeds_grant, refresh_token_already_used,
}
unfoldable pub use kis_portfolio_mcp.Auth.Provider.Checks.{
  usable_code, usable_refresh, usable_access,
}

-- The pair, once the code or the refresh token is consumed.
abbrev pub granted : OauthToken × Store → Result TokenError OauthToken × Store
granted (t, s) = (ok t, s)

-- `scopes or refresh_token.scopes`
abbrev pub requested_scopes : List String → StoredToken → List String
requested_scopes scopes t = if is_empty scopes then t.scopes else scopes

-- The token alone, or all of its grant.
abbrev pub revoke_scope : Option String → String → ℕ → Store → Store
revoke_scope none id now s = (revoke_oauth_token id now s).1
revoke_scope (some grant_id) id now s =
    if some_text (some grant_id)
    then revoke_oauth_tokens_for_grant grant_id now s
    else (revoke_oauth_token id now s).1

-- `revoke_token`
unfoldable pub revoke_token : StoredToken → ℕ → Store → Store
revoke_token t now s = revoke_scope t.grant_id t.id now s

abbrev pub revoke_record : Option String → Option TokenRecord → ℕ → Store → Bool × Store
revoke_record client_id none now s = (false, s)
revoke_record client_id (some r) now s =
    if other_client client_id r.client_id
    then (false, s)
    else (true, revoke_scope r.grant_id r.id now s)

module _ (digest : String → String) where
  -- `issue_authorization_code`, with the record's draws
  unfoldable pub issue_authorization_code :
      Provider
      → String
      → String
      → String
      → String
      → Option String
      → String
      → String
      → Bool
      → String
      → Option String
      → Option String
      → Option String
      → ℕ
      → Store
      → String × Store
  issue_authorization_code p code id user_id client_id grant_id scope redirect_uri explicitly
        challenge resource state provider now s =
      (
        code,
        insert_authorization_code
            (record {
              id = id;
              user_id = user_id;
              client_id = client_id;
              grant_id = grant_id;
              code_digest = digest code;
              scope = normalize_scope scope;
              redirect_uri = redirect_uri;
              redirect_uri_provided_explicitly = explicitly;
              code_challenge = challenge;
              resource = normalize_resource resource;
              state = state;
              provider = provider;
              created_at = now;
              expires_at = now + p.ttl.authorization_code_ttl_seconds;
              consumed_at = none;
              revoked_at = none;
            })
            s,
      )

  -- `load_authorization_code`
  unfoldable pub load_authorization_code :
      String → String → ℕ → Store → Option StoredAuthorizationCode × Store
  load_authorization_code client_id code now s =
      let (found, s') = get_authorization_code (digest code) now s in
      (usable_code client_id code now found, s')

  -- A record that `_issue_token_pair` inserts.
  abbrev pub issued_record :
      String
      → String
      → String
      → Option String
      → TokenType
      → String
      → String
      → Option String
      → ℕ
      → ℕ
      → Option String
      → Option String
      → TokenRecord
  issued_record id user_id client_id grant_id token_type value scope resource now ttl parent
        replaced =
      record {
        id = id;
        user_id = user_id;
        client_id = client_id;
        grant_id = grant_id;
        token_type = token_type;
        token_digest = digest value;
        scope = normalize_scope scope;
        resource = resource;
        created_at = now;
        expires_at = some (now + ttl);
        revoked_at = none;
        parent_token_id = parent;
        replaces_token_id = replaced;
      }

  -- `_issue_token_pair`
  unfoldable pub issue_token_pair :
      Provider
      → Drawn
      → String
      → String
      → Option String
      → List String
      → Option String
      → Option String
      → ℕ
      → Store
      → OauthToken × Store
  issue_token_pair p d user_id client_id grant_id scopes resource rotated now s =
      let scope_text = normalize_scopes scopes in
      let refresh =
        issued_record d.refresh_id user_id client_id grant_id refresh_token d.refresh_value
          scope_text (normalize_resource resource) now p.ttl.refresh_token_ttl_seconds rotated
          rotated in
      let access =
        issued_record d.access_id user_id client_id grant_id access_token d.access_value scope_text
          (normalize_resource resource) now p.ttl.access_token_ttl_seconds (some d.refresh_id)
          none in
      (
        record {
          access_token = d.access_value;
          expires_in = p.ttl.access_token_ttl_seconds;
          scope = scope_text;
          refresh_token = d.refresh_value;
        },
        insert_oauth_token access now (insert_oauth_token refresh now s),
      )

  -- `exchange_authorization_code`
  unfoldable pub exchange_authorization_code :
      Provider
      → Drawn
      → String
      → StoredAuthorizationCode
      → Option String
      → ℕ
      → Store
      → Result TokenError OauthToken × Store
  exchange_authorization_code p d client_id c resource now s =
      let (consumed, s') = consume_authorization_code d.owner c.id now s in
      if consumed
      then granted (
          issue_token_pair p d c.user_id client_id c.grant_id c.scopes
            (or_text (normalize_resource resource) c.resource) none now s')
      else (err code_already_used, s')

  -- `load_refresh_token`
  unfoldable pub load_refresh_token : String → String → ℕ → Store → Option StoredToken × Store
  load_refresh_token client_id token now s =
      let (found, s') = get_oauth_token (digest token) (some refresh_token) now s in
      (usable_refresh client_id token now found, s')

  -- `exchange_refresh_token`, over a repository that has `consume_refresh_token`
  unfoldable pub exchange_refresh_token :
      Provider
      → Drawn
      → String
      → StoredToken
      → List String
      → Option String
      → ℕ
      → Store
      → Result TokenError OauthToken × Store
  exchange_refresh_token p d client_id t scopes resource now s =
      let requested = requested_scopes scopes t in
      let (consumed, s') = consume_refresh_token d.owner t.id now s in
      if not (subset requested t.scopes)
      then (err scope_exceeds_grant, s)
      else (if consumed
          then granted (
              issue_token_pair p d t.user_id client_id t.grant_id requested
                (or_text (normalize_resource resource) t.resource) (some t.id) now s')
          else (err refresh_token_already_used, s'))

  -- `load_access_token` and `verify_token`
  unfoldable pub load_access_token : Provider → String → ℕ → Store → Option StoredToken × Store
  load_access_token p token now s =
      let (found, s') = get_oauth_token (digest token) (some access_token) now s in
      (usable_access p token now found, s')

  -- `revoke_token_string`
  unfoldable pub revoke_token_string : String → Option String → ℕ → Store → Bool × Store
  revoke_token_string token client_id now s =
      let (found, s') = get_oauth_token (digest token) none now s in
      revoke_record client_id found now s'
