-- ===== src/Auth/Revocation.antt =====
-- The revocation of a grant: every token that its index names is dead afterwards.
pub mod Effects
pub mod Kills
use mathlib.Core.Path.{◌∙◌, sym, ap, subst}
use mathlib.Core.Logic.{◌≢◌}
use kis_portfolio_mcp.Common.{
  ℕ, ◌≤◌, ◌≡◌, ◌⊎◌, inl, inr, refl, String, Bool, true, false, ◌||◌, not, Option, none, some, List,
  [], ◌∷◌, str_eq, str_eq_iff, mem_text, leb, some_text, arith, if◌then◌else◌, if_cases,
}
use kis_portfolio_mcp.Common.Dict.{
  get, put, remove, text_key, pair_key, get-put, get-put_other, get-put_self, get-remove_self,
  get-remove_other,
}
use kis_portfolio_mcp.Commands.Store.{get_value, put_value, drop_expired, is_expired}
use kis_portfolio_mcp.Auth.Records.{
  TokenType, access_token, refresh_token, TokenRecord, AuthDocument, code_document, token_document,
  index_document, as_token, as_index, StoredToken,
}
use kis_portfolio_mcp.Auth.Repository.{
  Store, oauth_tokens, id_key, digest_key, grant_key, is_some, of_type, is_type, or_now, put_token,
  revoke_found, revoke_oauth_token, revoke_all, revoke_oauth_tokens_for_grant, get_oauth_token,
}
use kis_portfolio_mcp.Auth.Repository.Documents.{
  Stored, entry, stored, unexpired, get_value-unexpired, id_key≢digest_key, digest_key≢id_key,
  id_key_injective, put_token-digest, put_token-digest_other,
}
use kis_portfolio_mcp.Auth.Provider.{
  Provider, usable_access, usable_refresh, load_access_token, load_refresh_token, revoke_token,
  revoke_scope,
}
use kis_portfolio_mcp.Auth.Revocation.Effects.{IsKeyed, IsStored, DeadOn, Dead}
use kis_portfolio_mcp.Auth.Revocation.Kills.{revoke_all_kills}

is_expired_later :
    (x : Option ℕ) (now t : ℕ) → now ≤ t → is_expired x now ≡ true → is_expired x t ≡ true
is_expired_later none now t l h = cc
is_expired_later (some u) now t l h = ground arith

of_type_revoked :
    {A : Type 0} (f : Option TokenRecord → Option A) (ty : Option TokenType) (r : TokenRecord)
    → f none ≡ none
    → f (some r) ≡ none
    → f (of_type ty (some r)) ≡ none
of_type_revoked f none r a b = b
of_type_revoked f (some ty) r a b =
    if_cases (λ o. f o ≡ none) (is_type r.token_type ty) _ _ (λ _. b) (λ _. a)

-- Whatever refuses a revoked record refuses a dead document.
dead_document_refused :
    {A : Type 0} (f : Option TokenRecord → Option A) (ty : Option TokenType) (now t : ℕ)
    (o : Stored)
    → f none ≡ none
    → ((r : TokenRecord) → is_some r.revoked_at ≡ true → f (some r) ≡ none)
    → now ≤ t
    → DeadOn now o
    → f (of_type ty (as_token (unexpired t o))) ≡ none
dead_document_refused f ty now t none a b l h = a
dead_document_refused f ty now t (some (code_document c, x)) a b l h =
    if_cases (λ o. f (of_type ty (as_token o)) ≡ none) (is_expired x t) _ _ (λ _. a) (λ _. a)
dead_document_refused f ty now t (some (index_document ids, x)) a b l h =
    if_cases (λ o. f (of_type ty (as_token o)) ≡ none) (is_expired x t) _ _ (λ _. a) (λ _. a)
dead_document_refused f ty now t (some (token_document r, x)) a b l h =
    if_cases (λ o. f (of_type ty (as_token o)) ≡ none) (is_expired x t) _ _ (λ _. a)
      (λ live. elim h [
        | inl gone ↦ of_type_revoked f ty r a (b r gone)
        | inr late ↦ absurd (cc (live, is_expired_later x now t l late))
      ])

usable_access_revoked :
    (p : Provider) (value : String) (t : ℕ) (r : TokenRecord)
    → is_some r.revoked_at ≡ true
    → usable_access p value t (some r) ≡ none
unfolding usable_access
usable_access_revoked p value t r h = rw h refl

usable_refresh_revoked :
    (client_id value : String) (t : ℕ) (r : TokenRecord)
    → is_some r.revoked_at ≡ true
    → usable_refresh client_id value t (some r) ≡ none
unfolding usable_refresh
usable_refresh_revoked client_id value t r h = ground arith

get_value_lasting :
    (n key : String) (now : ℕ) (v : AuthDocument) (s : Store)
    → stored n key s ≡ some (v, none)
    → get_value n key now s ≡ (some v, s)
unfolding get_value
get_value_lasting n key now v s e = ap (λ o. drop_expired (n, key) s now o) e

revoke_scope_grant :
    (grant_id id : String) (ids : List String) (now : ℕ) (s : Store)
    → some_text (some grant_id) ≡ true
    → stored oauth_tokens (grant_key grant_id) s ≡ some (index_document ids, none)
    → revoke_scope (some grant_id) id now s ≡ revoke_all ids now s
unfolding revoke_oauth_tokens_for_grant
revoke_scope_grant grant_id id ids now s nonempty index =
    let found =
      get_value_lasting oauth_tokens (grant_key grant_id) now (index_document ids) s index in
    if_cases (λ (y : Store). y ≡ revoke_all ids now s) (some_text (some grant_id)) _ _
      (λ _. ap (λ (y : Option AuthDocument × Store). revoke_all (as_index y.0) now y.1) found)
      (λ f. cc)

module _ (digest : String → String) where
  -- Revoking a token of a grant revokes the grant: whatever token the grant's index names, as it stands
  -- under its two keys, in a store where tokens stand under their own ids, no client or resource
  -- loads it as an access token or as a refresh token at any later time.
  pub revoke_token_kills :
      (p : Provider) (token : StoredToken) (grant_id : String) (ids : List String) (r : TokenRecord)
      (x : Option ℕ) (value client_id : String) (now t : ℕ) (s : Store)
      → IsKeyed s
      → token.grant_id ≡ some grant_id
      → some_text (some grant_id) ≡ true
      → stored oauth_tokens (grant_key grant_id) s ≡ some (index_document ids, none)
      → mem_text r.id ids ≡ true
      → IsStored r x s
      → digest value ≡ r.token_digest
      → now ≤ t
      → ((load_access_token digest p value t (revoke_token token now s)).0 ≡ none)
        × ((load_refresh_token digest client_id value t (revoke_token token now s)).0 ≡ none)
  unfolding revoke_token load_access_token load_refresh_token get_oauth_token usable_access
      usable_refresh
  revoke_token_kills p token grant_id ids r x value client_id now t s keyed g nonempty index m h v
        later =
      let after = revoke_token token now s in
      let whole : after ≡ revoke_all ids now s =
        ap (λ g'. revoke_scope g' token.id now s) g
        ∙ revoke_scope_grant grant_id token.id ids now s nonempty index in
      let dead : DeadOn now (stored oauth_tokens (digest_key (digest value)) after) =
        subst (λ (y : Store). Dead (digest value) now y) (sym whole)
          (subst (λ d. Dead d now (revoke_all ids now s)) (sym v)
            (revoke_all_kills ids r x now s keyed m h)) in
      let found = get_value-unexpired oauth_tokens (digest_key (digest value)) t after in
      (
        ap (λ o. usable_access p value t (of_type (some access_token) (as_token o))) found
            ∙ dead_document_refused (usable_access p value t) (some access_token) now t _ refl
                (usable_access_revoked p value t) later dead,
        ap (λ o. usable_refresh client_id value t (of_type (some refresh_token) (as_token o))) found
            ∙ dead_document_refused (usable_refresh client_id value t) (some refresh_token) now t _
                refl (usable_refresh_revoked client_id value t) later dead,
      )
