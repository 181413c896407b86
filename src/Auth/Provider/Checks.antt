-- ===== src/Auth/Provider/Checks.antt =====
-- The settings of the provider, and its checks of a code and of a token.
use kis_portfolio_mcp.Common.{
  ℕ, String, Bool, false, not, ◌&&◌, ◌||◌, Option, none, some, leb, if◌then◌else◌, str_eq,
}
use kis_portfolio_mcp.Commands.Store.{is_expired}
use kis_portfolio_mcp.Auth.Records.{
  CodeRecord, TokenRecord, StoredAuthorizationCode, StoredToken, OauthTtlConfig, split_scope,
  normalize_resource,
}
use kis_portfolio_mcp.Auth.Repository.{is_some}

pub data TokenError : Type 0 where
  code_already_used scope_exceeds_grant refresh_token_already_used : TokenError

-- What a request draws: the owner of a claim, two bearer values and the ids of their records.
pub record Drawn : Type 0 where
  pub owner : String
  pub access_value : String
  pub refresh_value : String
  pub access_id : String
  pub refresh_id : String

-- The fields of `KisOAuthProvider` that these operations read.
pub record Provider : Type 0 where
  pub resource_server_url : Option String
  pub ttl : OauthTtlConfig

-- `self.resource_server_url and record_resource != self.resource_server_url`
abbrev pub other_resource : Option String → Option String → Bool
other_resource none r = false
other_resource (some url) none = not (str_eq url "")
other_resource (some url) (some r) = not (str_eq url "") && not (str_eq r url)

-- `record["client_id"] != client_id`, where one is given
abbrev pub other_client : Option String → String → Bool
other_client none client_id = false
other_client (some given) client_id = not (str_eq client_id given)

abbrev pub stored_code : String → CodeRecord → StoredAuthorizationCode
stored_code code r = record {
  id = r.id;
  user_id = r.user_id;
  grant_id = r.grant_id;
  state = r.state;
  provider = r.provider;
  code = code;
  scopes = split_scope r.scope;
  expires_at = r.expires_at;
  client_id = r.client_id;
  code_challenge = r.code_challenge;
  redirect_uri = r.redirect_uri;
  redirect_uri_provided_explicitly = r.redirect_uri_provided_explicitly;
  resource = r.resource;
}

abbrev pub stored_token : String → TokenRecord → StoredToken
stored_token token r = record {
  id = r.id;
  user_id = r.user_id;
  grant_id = r.grant_id;
  token = token;
  client_id = r.client_id;
  scopes = split_scope r.scope;
  expires_at = r.expires_at;
  resource = r.resource;
}

-- The checks of `load_authorization_code` on the record.
unfoldable pub usable_code :
    String → String → ℕ → Option CodeRecord → Option StoredAuthorizationCode
usable_code client_id code now none = none
usable_code client_id code now (some r) =
    if not (str_eq r.client_id client_id)
      || is_some r.consumed_at
      || is_some r.revoked_at
      || leb r.expires_at now
    then none
    else some (stored_code code r)

-- The checks of `load_refresh_token` on the record.
unfoldable pub usable_refresh : String → String → ℕ → Option TokenRecord → Option StoredToken
usable_refresh client_id token now none = none
usable_refresh client_id token now (some r) =
    if not (str_eq r.client_id client_id) || is_some r.revoked_at || is_expired r.expires_at now
    then none
    else some (stored_token token r)

-- The checks of `load_access_token` on the record.
unfoldable pub usable_access : Provider → String → ℕ → Option TokenRecord → Option StoredToken
usable_access p token now none = none
usable_access p token now (some r) =
    if is_some r.revoked_at
      || is_expired r.expires_at now
      || other_resource p.resource_server_url (normalize_resource r.resource)
    then none
    else some (stored_token token r)
