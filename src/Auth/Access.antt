-- ===== src/Auth/Access.antt =====
-- A pair of tokens that is issued, and what each of its values loads as later.
use mathlib.Core.Path.{◌∙◌, ap}
use mathlib.Core.Logic.{◌≢◌}
use kis_portfolio_mcp.Common.{
  ℕ, ◌+◌, ◌≡◌, refl, String, Bool, true, false, Option, none, some, List, leb, if◌then◌else◌,
  if_cases,
}
use kis_portfolio_mcp.Commands.Store.{is_expired}
use kis_portfolio_mcp.Auth.Records.{
  TokenType, access_token, refresh_token, TokenRecord, AuthDocument, token_document, as_token,
  normalize_resource, normalize_scopes,
}
use kis_portfolio_mcp.Auth.Repository.{
  Store, digest_key, oauth_tokens, of_type, is_type, insert_oauth_token, get_oauth_token,
}
use kis_portfolio_mcp.Auth.Repository.Documents.{
  stored, unexpired, get_value-unexpired, insert_oauth_token-digest,
  insert_oauth_token-digest_other,
}
use kis_portfolio_mcp.Auth.Provider.{
  Provider, Drawn, other_resource, stored_token, usable_access, usable_refresh, issued_record,
  issue_token_pair, load_access_token, load_refresh_token,
}

module _ (digest : String → String) where
  get_oauth_token-stored :
      (value : String) (t : Option TokenType) (now : ℕ) (s : Store) (r : TokenRecord) (x : Option ℕ)
      → stored oauth_tokens (digest_key (digest value)) s ≡ some (token_document r, x)
      → (get_oauth_token (digest value) t now s).0
        ≡ of_type t (if is_expired x now then none else some r)
  unfolding get_oauth_token
  get_oauth_token-stored value t now s r x e =
      ap (λ o. of_type t (as_token o))
        (get_value-unexpired oauth_tokens (digest_key (digest value)) now s
          ∙ ap (λ o. unexpired now o) e)
      ∙ if_cases
          (λ (o : Option AuthDocument).
            of_type t (as_token o) ≡ of_type t (if is_expired x now then none else some r))
          (is_expired x now) _ _ (λ f. rw f refl) (λ f. rw f refl)

  -- The records of an issued pair.
  abbrev pub refresh_record :
      Provider
      → Drawn
      → String
      → String
      → Option String
      → List String
      → Option String
      → Option String
      → ℕ
      → TokenRecord
  refresh_record p d user_id client_id grant_id scopes resource rotated now =
      issued_record digest d.refresh_id user_id client_id grant_id refresh_token d.refresh_value
        (normalize_scopes scopes) (normalize_resource resource) now p.ttl.refresh_token_ttl_seconds
        rotated rotated

  abbrev pub access_record :
      Provider
      → Drawn
      → String
      → String
      → Option String
      → List String
      → Option String
      → ℕ
      → TokenRecord
  access_record p d user_id client_id grant_id scopes resource now =
      issued_record digest d.access_id user_id client_id grant_id access_token d.access_value
        (normalize_scopes scopes) (normalize_resource resource) now p.ttl.access_token_ttl_seconds
        (some d.refresh_id) none

  -- An access token that is neither expired nor revoked is accepted by its resource.
  access_loaded :
      (p : Provider) (value : String) (t until : ℕ) (r : TokenRecord)
      → r.token_type ≡ access_token
      → r.revoked_at ≡ none
      → r.expires_at ≡ some until
      → other_resource p.resource_server_url (normalize_resource r.resource) ≡ false
      → usable_access p value t
          (of_type (some access_token) (if is_expired (some until) t then none else some r))
        ≡ (if leb until t then none else some (stored_token value r))
  unfolding usable_access
  access_loaded p value t until r type live until_then same =
      if_cases
        (λ (o : Option TokenRecord).
          usable_access p value t (of_type (some access_token) o)
          ≡ (if leb until t then none else some (stored_token value r)))
        (leb until t) _ _ (λ f. rw f refl) (λ f. rw (type, live, until_then, same, f) refl)

  -- A token of the other type is not found.
  of_type_other :
      (asked : TokenType) (b : Bool) (r : TokenRecord)
      → is_type r.token_type asked ≡ false
      → of_type (some asked) (if b then none else some r) ≡ none
  of_type_other asked true r h = refl
  of_type_other asked false r h = rw h refl

  -- Of a pair that is issued, the access token is accepted by the resource of its own until its time is
  -- over and by no time after, as a token of that user, client, grant and scope; the refresh token is
  -- never taken for an access token, nor the access token for a refresh token; where the two values have
  -- different digests.
  pub issue_token_pair-load_access_token :
      (p : Provider) (d : Drawn) (user_id client_id caller : String) (grant_id : Option String)
      (scopes : List String) (resource rotated : Option String) (now t : ℕ) (s : Store)
      → digest d.access_value ≢ digest d.refresh_value
      → other_resource p.resource_server_url (normalize_resource (normalize_resource resource))
        ≡ false
      → let after =
          (issue_token_pair digest p d user_id client_id grant_id scopes resource rotated now
            s).1 in
        ((load_access_token digest p d.access_value t after).0 ≡ (
          if leb (now + p.ttl.access_token_ttl_seconds) t
          then none
          else some (
              stored_token d.access_value
                (access_record p d user_id client_id grant_id scopes resource now))))
        × ((load_access_token digest p d.refresh_value t after).0 ≡ none)
        × ((load_refresh_token digest caller d.access_value t after).0 ≡ none)
  unfolding issue_token_pair load_access_token load_refresh_token usable_access usable_refresh
  issue_token_pair-load_access_token p d user_id client_id caller grant_id scopes resource rotated
        now t s distinct same =
      let refresh = refresh_record p d user_id client_id grant_id scopes resource rotated now in
      let access = access_record p d user_id client_id grant_id scopes resource now in
      let before = insert_oauth_token refresh now s in
      let after = insert_oauth_token access now before in
      let access_found = insert_oauth_token-digest access now before in
      let refresh_found =
        insert_oauth_token-digest_other access (digest d.refresh_value) now before distinct
        ∙ insert_oauth_token-digest refresh now s in
      (
        ap (λ o. usable_access p d.access_value t o)
              (get_oauth_token-stored d.access_value (some access_token) t after access _
                access_found)
            ∙ access_loaded p d.access_value t _ access refl refl refl same,
        ap (λ o. usable_access p d.refresh_value t o)
            (get_oauth_token-stored d.refresh_value (some access_token) t after refresh _
                refresh_found
              ∙ of_type_other access_token _ refresh refl),
        ap (λ o. usable_refresh caller d.access_value t o)
            (get_oauth_token-stored d.access_value (some refresh_token) t after access _
                access_found
              ∙ of_type_other refresh_token _ access refl),
      )
