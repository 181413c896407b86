-- ===== src/Auth/Repository.antt =====
-- `DocumentAuthRepository` of adapters/outbound/document_auth_repository.py. What the source draws
-- (ids, owners of claims) and the reading of the clock are arguments; an operation reads the clock
-- once. Times are seconds.
pub mod Documents
use Prim.Native.String
use kis_portfolio_mcp.Common.{
  ℕ, String, Bool, true, false, not, ◌&&◌, ◌||◌, Option, none, some, List, [], ◌∷◌, ◌++◌,
  if◌then◌else◌, some_text, filter, str_eq,
}
use kis_portfolio_mcp.Commands.Store.{StateStore, ClaimResult, get_value, put_value, claim}
use kis_portfolio_mcp.Auth.Records.{
  CodeRecord, TokenType, access_token, refresh_token, TokenRecord, AuthDocument, code_document,
  token_document, index_document, as_code, as_token, as_index,
}

abbrev pub Store : Type 0
Store = StateStore AuthDocument

abbrev pub oauth_codes : String
oauth_codes = "oauth_codes"

abbrev pub oauth_tokens : String
oauth_tokens = "oauth_tokens"

unfoldable pub id_key : String → String
id_key id = String.◌++◌ "id:" id

unfoldable pub digest_key : String → String
digest_key digest = String.◌++◌ "digest:" digest

unfoldable pub grant_key : String → String
grant_key id = String.◌++◌ "grant:" id

abbrev pub is_some : {A : Type 0} → Option A → Bool
is_some none = false
is_some (some a) = true

-- A code under both of its keys; what stands under an `id:` key has that id.
unfoldable pub put_code : CodeRecord → Store → Store
put_code r s =
    put_value oauth_codes (digest_key r.code_digest) (code_document r) (some r.expires_at)
      (put_value oauth_codes (id_key r.id) (code_document r) (some r.expires_at) s)

-- A token under both of its keys; what stands under an `id:` key has that id.
unfoldable pub put_token : TokenRecord → Store → Store
put_token r s =
    put_value oauth_tokens (digest_key r.token_digest) (token_document r) r.expires_at
      (put_value oauth_tokens (id_key r.id) (token_document r) r.expires_at s)

-- `insert_authorization_code`, of the record that it builds
abbrev pub insert_authorization_code : CodeRecord → Store → Store
insert_authorization_code r s = put_code r s

-- `get_authorization_code`
unfoldable pub get_authorization_code : String → ℕ → Store → Option CodeRecord × Store
get_authorization_code digest now s =
    let (document, s') = get_value oauth_codes (digest_key digest) now s in (as_code document, s')

-- `not record or record.get("consumed_at") or record.get("revoked_at")`: the record, if it is open.
unfoldable pub open_code : Option CodeRecord → Option CodeRecord
open_code none = none
open_code (some r) = if is_some r.consumed_at || is_some r.revoked_at then none else some r

-- The record with the time that it is consumed at
abbrev pub consumed_record : ℕ → CodeRecord → CodeRecord
consumed_record now r = record r { consumed_at = some now; revoked_at = some now }

-- The code is marked as consumed, if it is open.
unfoldable pub mark_consumed : Option CodeRecord → ℕ → Store → Bool × Store
mark_consumed none now s = (false, s)
mark_consumed (some r) now s = (true, put_code (consumed_record now r) s)

-- What `consume_authorization_code` reads once it has the claim.
unfoldable pub read_code : String → ℕ → Store → Option CodeRecord × Store
read_code code_id now s =
    let (document, s') = get_value oauth_codes (id_key code_id) now s in
    (open_code (as_code document), s')

-- What `consume_authorization_code` does once it has the claim.
unfoldable pub consume_claimed : String → ℕ → Store → Bool × Store
consume_claimed code_id now s = let (r, s') = read_code code_id now s in mark_consumed r now s'

unfoldable pub code_claim : String → String
code_claim code_id = String.◌++◌ "oauth-code:" code_id

abbrev pub code_claim_seconds : ℕ
code_claim_seconds = 900

-- `consume_authorization_code`
unfoldable pub consume_authorization_code : String → String → ℕ → Store → Bool × Store
consume_authorization_code owner code_id now s =
    let (c, s') = claim (code_claim code_id) owner code_claim_seconds now s in
    if c.acquired then consume_claimed code_id now s' else (false, s')

-- `list(dict.fromkeys(ids))`: the first of each.
unfoldable pub from_keys : List String → List String
from_keys [] = []
from_keys (id ∷ ids) = let rest = from_keys ids in id ∷ filter (λ other. not (str_eq id other)) rest

-- The token ids of a grant, with one more.
abbrev pub index_token : Option String → String → ℕ → Store → Store
index_token none id now s = s
index_token (some grant_id) id now s =
    let (document, s') = get_value oauth_tokens (grant_key grant_id) now s in
    if some_text (some grant_id)
    then put_value oauth_tokens (grant_key grant_id)
        (index_document (from_keys (as_index document ++ (id ∷ [])))) none s'
    else s

-- `insert_oauth_token`, of the record that it builds
unfoldable pub insert_oauth_token : TokenRecord → ℕ → Store → Store
insert_oauth_token r now s = index_token r.grant_id r.id now (put_token r s)

-- `token_type` given and other than the record's
abbrev pub is_type : TokenType → TokenType → Bool
is_type access_token access_token = true
is_type access_token refresh_token = false
is_type refresh_token access_token = false
is_type refresh_token refresh_token = true

abbrev pub of_type : Option TokenType → Option TokenRecord → Option TokenRecord
of_type t none = none
of_type none (some r) = some r
of_type (some t) (some r) = if is_type r.token_type t then some r else none

-- `get_oauth_token`
unfoldable pub get_oauth_token : String → Option TokenType → ℕ → Store → Option TokenRecord × Store
get_oauth_token digest token_type now s =
    let (document, s') = get_value oauth_tokens (digest_key digest) now s in
    (of_type token_type (as_token document), s')

-- `revoked_at or _utcnow()`
abbrev pub or_now : Option ℕ → ℕ → Option ℕ
or_now none now = some now
or_now (some t) now = some t

unfoldable pub revoke_found : Option TokenRecord → ℕ → Store → Bool × Store
revoke_found none now s = (false, s)
revoke_found (some r) now s =
    (true, put_token (record r { revoked_at = or_now r.revoked_at now }) s)

-- `revoke_oauth_token`
unfoldable pub revoke_oauth_token : String → ℕ → Store → Bool × Store
revoke_oauth_token token_id now s =
    let (document, s') = get_value oauth_tokens (id_key token_id) now s in
    revoke_found (as_token document) now s'

unfoldable pub refresh_claim : String → String
refresh_claim token_id = String.◌++◌ "oauth-refresh:" token_id

abbrev pub refresh_claim_seconds : ℕ
refresh_claim_seconds = 2678400

-- `consume_refresh_token`
unfoldable pub consume_refresh_token : String → String → ℕ → Store → Bool × Store
consume_refresh_token owner token_id now s =
    let (c, s') = claim (refresh_claim token_id) owner refresh_claim_seconds now s in
    if c.acquired then revoke_oauth_token token_id now s' else (false, s')

unfoldable pub revoke_all : List String → ℕ → Store → Store
revoke_all [] now s = s
revoke_all (id ∷ ids) now s = revoke_all ids now (revoke_oauth_token id now s).1

-- `revoke_oauth_tokens_for_grant`
unfoldable pub revoke_oauth_tokens_for_grant : String → ℕ → Store → Store
revoke_oauth_tokens_for_grant grant_id now s =
    let (document, s') = get_value oauth_tokens (grant_key grant_id) now s in
    revoke_all (as_index document) now s'
