-- ===== src/Auth/Tests.antt =====
-- One code, one client and one pair of tokens.
use kis_portfolio_mcp.Common.{
  ◌≤◌, ◌≡◌, ◌≢◌, refl, str_eq_iff, String, true, false, none, some, List, [], ◌∷◌, err, arith,
  str_eq, mem_text, join, sorted_set, insert_text, is_space,
}
use kis_portfolio_mcp.Common.Dict.{get, put, remove, text_key, pair_key}
use kis_portfolio_mcp.Commands.Store.{empty_store, get_value, put_value, claim, grant}
use kis_portfolio_mcp.Auth.Records.{
  TokenRecord, CodeRecord, StoredToken, OauthToken, default_ttl, normalize_scopes, normalize_scope,
  split_scope, pieces, normalize_resource, rstrip_slash,
}
use kis_portfolio_mcp.Auth.Repository.{
  from_keys, grant_key, Store, oauth_codes, id_key, digest_key, put_code, put_token,
  insert_oauth_token, refresh_claim, code_claim, consume_refresh_token, read_code, open_code,
  revoke_oauth_token, revoke_found,
}
use kis_portfolio_mcp.Auth.Repository.Documents.{stored}
use kis_portfolio_mcp.Auth.Provider.{
  revoke_token, Provider, Drawn, TokenError, stored_token, issue_token_pair, load_access_token,
  load_refresh_token, exchange_refresh_token, requested_scopes,
}
use kis_portfolio_mcp.Auth.Access.{
  access_record, refresh_record, issue_token_pair-load_access_token,
}
use kis_portfolio_mcp.Auth.Revocation.{revoke_token_kills}
use kis_portfolio_mcp.Auth.Revocation.Effects.{IsKeyed}
use kis_portfolio_mcp.Auth.Revocation.Kills.{insert_oauth_token-IsKeyed}
use kis_portfolio_mcp.Auth.Rotation.Exchanges.{
  Attempt, Holds, after_all, exchange_refresh_token_rotates,
}
use mathlib.Core.List.{Memᴰ}
use kis_portfolio_mcp.Common.{All, str_eq}
use mathlib.Core.Bool.{false≢true}
use kis_portfolio_mcp.Auth.Records.{access_token, refresh_token}
use kis_portfolio_mcp.Auth.SingleUse.{
  Workers, begin_step, read_step, write_step, begins, reads, writes, begun, then_step, IsCode,
}
use kis_portfolio_mcp.Auth.SingleUse.Once.{Reachable-once}

abbrev digest : String → String
digest s = s

abbrev provider : Provider
provider = record { resource_server_url = some "https://kis"; ttl = default_ttl }

abbrev drawn : Drawn
drawn = record {
  owner = "worker";
  access_value = "access-1";
  refresh_value = "refresh-1";
  access_id = "a1";
  refresh_id = "r1";
}

abbrev empty : Store
empty = empty_store

abbrev scopes : List String
scopes = "read" ∷ "trade" ∷ []

access≢refresh : drawn.access_value ≢ drawn.refresh_value
unfolding str_eq
access≢refresh e =
    let same : false ≡ true = (str_eq_iff drawn.access_value drawn.refresh_value).1 e in cc

issue_token_pair-load_access_token_example :
    let after =
      (issue_token_pair digest provider drawn "user" "client" none scopes
        (some "https://kis/")
        none
        100
        empty).1 in
    ((load_access_token digest provider "access-1" 999 after).0
      ≡ some (
          stored_token "access-1" (
            access_record digest provider drawn "user" "client" none scopes
              (some "https://kis/")
              100)))
    × ((load_access_token digest provider "refresh-1" 999 after).0 ≡ none)
    × ((load_refresh_token digest "client" "access-1" 999 after).0 ≡ none)
unfolding normalize_resource rstrip_slash str_eq
issue_token_pair-load_access_token_example =
    issue_token_pair-load_access_token digest provider drawn "user" "client" "client" none scopes
      (some "https://kis/") none 100 999 empty access≢refresh refl

abbrev code : CodeRecord
code = record {
  id = "c1";
  user_id = "user";
  client_id = "client";
  grant_id = none;
  code_digest = "d1";
  scope = "read";
  redirect_uri = "https://client/back";
  redirect_uri_provided_explicitly = true;
  code_challenge = "challenge";
  resource = none;
  state = none;
  provider = none;
  created_at = 100;
  expires_at = 700;
  consumed_at = none;
  revoked_at = none;
}

abbrev issued : Workers
issued = record { now = 100; store = put_code code empty; pending = 0; reading = []; exchanged = 0 }

-- Two workers, the second of which asks while the first has the claim.
abbrev asked : Workers
asked = begin_step "c1" 1 "second" (begin_step "c1" 1 "first" issued)

abbrev both : Workers
both = write_step 5 code [] (read_step "c1" 5 0 asked)

issued-IsCode : IsCode "c1" 700 (stored oauth_codes (id_key "c1") (put_code code empty))
unfolding put_code put_value get put id_key digest_key str_eq
issued-IsCode = (refl, refl, refl)

Reachable-once_example : both.exchanged ≤ 1
unfolding claim grant get put str_eq put_code put_value code_claim read_code open_code get_value
    id_key digest_key
Reachable-once_example =
    Reachable-once "c1" 700 issued both issued-IsCode (omega arith) refl refl refl (
      then_step _ _
        (then_step _ _
          (then_step _ _ (then_step _ _ begun (begins issued 1 "first"))
            (begins (begin_step "c1" 1 "first" issued) 1 "second"))
          (reads asked 5 0 refl))
        (writes (read_step "c1" 5 0 asked) 5 [] [] code refl))

abbrev drawn_later : Drawn
drawn_later = record {
  owner = "other";
  access_value = "access-2";
  refresh_value = "refresh-2";
  access_id = "a2";
  refresh_id = "r2";
}

abbrev first_store : Store
first_store =
    (issue_token_pair digest provider drawn "user" "client" none scopes none none 100 empty).1

abbrev first_refresh : StoredToken
first_refresh =
    stored_token "refresh-1"
      (refresh_record digest provider drawn "user" "client" none scopes none none 100)

abbrev second_store : Store
second_store =
    (exchange_refresh_token digest provider drawn_later "client" first_refresh ("read" ∷ []) none
      200 first_store).1

abbrev second_pair : OauthToken
second_pair = record {
  access_token = "access-2";
  expires_in = 900;
  scope = "read";
  refresh_token = "refresh-2";
}

-- Another worker tries the same token.
abbrev retry : Attempt
retry = record {
  provider = provider;
  drawn = drawn;
  client_id = "client";
  token = first_refresh;
  scopes = [];
  resource = none;
  at = 250;
}

access≢refresh_later : drawn_later.access_value ≢ drawn_later.refresh_value
unfolding str_eq
access≢refresh_later e =
    false≢true ((str_eq_iff drawn_later.access_value drawn_later.refresh_value).1 e)

exchange_refresh_token_rotates_example :
    All (λ x. Memᴰ x first_refresh.scopes) (requested_scopes ("read" ∷ []) first_refresh)
    × (second_pair.scope ≡ normalize_scopes (requested_scopes ("read" ∷ []) first_refresh))
    × Holds digest first_refresh "client" ("read" ∷ []) access_token "access-2" second_store
    × Holds digest first_refresh "client" ("read" ∷ []) refresh_token "refresh-2" second_store
    × ((e : TokenError) × ((exchange_refresh_token digest provider drawn "client" first_refresh []
            none 300
            (after_all digest (retry ∷ []) second_store)).0
          ≡ err e))
unfolding exchange_refresh_token issue_token_pair consume_refresh_token revoke_oauth_token
    revoke_found insert_oauth_token put_token put_value get_value claim grant get put remove id_key
    digest_key refresh_claim mem_text str_eq normalize_scopes normalize_scope split_scope pieces
    sorted_set insert_text join is_space normalize_resource rstrip_slash
exchange_refresh_token_rotates_example =
    exchange_refresh_token_rotates digest provider drawn_later "client" first_refresh ("read" ∷ [])
      none 200 first_store second_store second_pair (retry ∷ []) provider drawn "client" [] none 300
      access≢refresh_later refl (omega arith, tt) (omega arith)

abbrev granted_store : Store
granted_store =
    (issue_token_pair digest provider drawn "user" "client" (some "g") scopes none none 100 empty).1

abbrev granted_record : TokenRecord
granted_record = access_record digest provider drawn "user" "client" (some "g") scopes none 100

granted_store-IsKeyed : IsKeyed granted_store
unfolding issue_token_pair get
granted_store-IsKeyed =
    insert_oauth_token-IsKeyed _ 100 _ (insert_oauth_token-IsKeyed _ 100 empty (λ i. tt))

revoke_token_kills_example :
    ((load_access_token digest provider "access-1" 130
        (revoke_token (stored_token "access-1" granted_record) 120 granted_store)).0
      ≡ none)
    × ((load_refresh_token digest "client" "access-1" 130
          (revoke_token (stored_token "access-1" granted_record) 120 granted_store)).0
        ≡ none)
unfolding issue_token_pair insert_oauth_token put_token put_value get_value get put remove id_key
    digest_key grant_key mem_text str_eq from_keys
revoke_token_kills_example =
    revoke_token_kills digest provider (stored_token "access-1" granted_record) "g"
      ("r1" ∷ "a1" ∷ []) granted_record (some 1000) "access-1" "client" 120 130 granted_store
      granted_store-IsKeyed refl refl refl refl (refl, refl) refl (omega arith)
