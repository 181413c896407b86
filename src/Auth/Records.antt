-- ===== src/Auth/Records.antt =====
-- The OAuth documents of adapters/outbound/document_auth_repository.py, the tokens that
-- adapters/auth/provider.py hands out, and the texts of scopes and resources.
use Prim.Native.Char.{Char, code}
use kis_portfolio_mcp.Common.{
  ℕ, String, Bool, Option, none, some, List, [], ◌∷◌, ◌==◌, if◌then◌else◌, filter, truthy, is_space,
  onto_first, sorted_set, join, all, mem_text,
}

-- The record of `insert_authorization_code`
pub record CodeRecord : Type 0 where
  pub id : String
  pub user_id : String
  pub client_id : String
  pub grant_id : Option String
  pub code_digest : String
  pub scope : String
  pub redirect_uri : String
  pub redirect_uri_provided_explicitly : Bool
  pub code_challenge : String
  pub resource : Option String
  pub state : Option String
  pub provider : Option String
  pub created_at : ℕ
  pub expires_at : ℕ
  pub consumed_at : Option ℕ
  pub revoked_at : Option ℕ

pub data TokenType : Type 0 where
  access_token refresh_token : TokenType

-- The record of `insert_oauth_token`
pub record TokenRecord : Type 0 where
  pub id : String
  pub user_id : String
  pub client_id : String
  pub grant_id : Option String
  pub token_type : TokenType
  pub token_digest : String
  pub scope : String
  pub resource : Option String
  pub created_at : ℕ
  pub expires_at : Option ℕ
  pub revoked_at : Option ℕ
  pub parent_token_id : Option String
  pub replaces_token_id : Option String

-- A document of the store: a code, a token, or the token ids of a grant.
pub data AuthDocument : Type 0 where
  code_document : CodeRecord → AuthDocument
  token_document : TokenRecord → AuthDocument
  index_document : List String → AuthDocument

abbrev pub as_code : Option AuthDocument → Option CodeRecord
as_code none = none
as_code (some (code_document r)) = some r
as_code (some (token_document r)) = none
as_code (some (index_document ids)) = none

abbrev pub as_token : Option AuthDocument → Option TokenRecord
as_token none = none
as_token (some (code_document r)) = none
as_token (some (token_document r)) = some r
as_token (some (index_document ids)) = none

-- `self._get(...) or {"token_ids": []}`
abbrev pub as_index : Option AuthDocument → List String
as_index none = []
as_index (some (code_document r)) = []
as_index (some (token_document r)) = []
as_index (some (index_document ids)) = ids

-- `StoredAuthorizationCode`
pub record StoredAuthorizationCode : Type 0 where
  pub id : String
  pub user_id : String
  pub grant_id : Option String
  pub state : Option String
  pub provider : Option String
  pub code : String
  pub scopes : List String
  pub expires_at : ℕ
  pub client_id : String
  pub code_challenge : String
  pub redirect_uri : String
  pub redirect_uri_provided_explicitly : Bool
  pub resource : Option String

-- `StoredRefreshToken` and `StoredAccessToken`, which have the same fields
pub record StoredToken : Type 0 where
  pub id : String
  pub user_id : String
  pub grant_id : Option String
  pub token : String
  pub client_id : String
  pub scopes : List String
  pub expires_at : Option ℕ
  pub resource : Option String

-- `OAuthToken`, as `_issue_token_pair` fills it
pub record OauthToken : Type 0 where
  pub access_token : String
  pub expires_in : ℕ
  pub scope : String
  pub refresh_token : String

-- `OAuthTTLConfig`
pub record OauthTtlConfig : Type 0 where
  pub access_token_ttl_seconds : ℕ
  pub refresh_token_ttl_seconds : ℕ
  pub authorization_code_ttl_seconds : ℕ

-- The defaults of `OAuthTTLConfig`
abbrev pub default_ttl : OauthTtlConfig
default_ttl = record {
  access_token_ttl_seconds = 900;
  refresh_token_ttl_seconds = 2592000;
  authorization_code_ttl_seconds = 600;
}

-- The pieces between white space, the empty ones included.
unfoldable pub pieces : String → List String
unfolding is_space
pieces String.[] = String.[] ∷ []
pieces (String.◌∷◌ d s) =
    let rest = pieces s in if is_space (code d) then String.[] ∷ rest else onto_first d rest

-- `split_scope`
unfoldable pub split_scope : String → List String
split_scope scope = filter truthy (pieces scope)

-- `normalize_scope` of a list
unfoldable pub normalize_scopes : List String → String
normalize_scopes scopes = join " " (sorted_set (filter truthy scopes))

-- `normalize_scope` of a text
unfoldable pub normalize_scope : String → String
normalize_scope scope = normalize_scopes (split_scope scope)

-- `value.rstrip("/")`
unfoldable pub rstrip_slash : String → String
rstrip_slash String.[] = String.[]
rstrip_slash (String.◌∷◌ d s) = let rest = rstrip_slash s in slash_kept d rest
  where
    slash_kept : Char → String → String
    slash_kept e String.[] = if code e == b'/' then String.[] else String.◌∷◌ e String.[]
    slash_kept e (String.◌∷◌ f t) = String.◌∷◌ e (String.◌∷◌ f t)

-- `_normalize_resource`
unfoldable pub normalize_resource : Option String → Option String
normalize_resource none = none
normalize_resource (some r) = if truthy r then some (rstrip_slash r) else none

-- `a or b` on optional texts
abbrev pub or_text : Option String → Option String → Option String
or_text none b = b
or_text (some a) b = if truthy a then some a else b

-- `set(a).issubset(set(b))`
abbrev pub subset : List String → List String → Bool
subset a b = all (λ s. mem_text s b) a
