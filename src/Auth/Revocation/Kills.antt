-- ===== src/Auth/Revocation/Kills.antt =====
-- Revoking ids one after the other kills every token that stands under one of them.
use mathlib.Core.Path.{◌∙◌, sym, subst}
use mathlib.Core.Logic.{◌≢◌}
use kis_portfolio_mcp.Common.{
  ℕ, ◌≡◌, ◌⊎◌, inl, inr, refl, String, true, Option, none, some, List, [], ◌∷◌, str_eq, str_eq_iff,
  mem_text, some_text, if_cases,
}
use kis_portfolio_mcp.Common.Dict.{text_key, pair_key, get-put_other, get-remove_self}
use kis_portfolio_mcp.Commands.Store.{put_value}
use kis_portfolio_mcp.Auth.Records.{TokenRecord}
use kis_portfolio_mcp.Auth.Repository.{
  Store, oauth_tokens, id_key, grant_key, put_token, revoke_oauth_token, revoke_all, index_token,
  insert_oauth_token,
}
use kis_portfolio_mcp.Auth.Repository.Documents.{
  stored, id_key≢grant_key, get_value_other, put_token-digest_other,
}
use kis_portfolio_mcp.Auth.Revocation.Effects.{
  KeyedOn, IsKeyed, Dead, IsStored, removed, revoked, text_cases, removed-digest, removed-id_other,
  revoke_oauth_token-Revokes, revoke_oauth_token-Dead, revoke_oauth_token_kills, put_token-Dead,
  put_token-id_other, put_token-id, or_now-is_some,
}

-- A token that is stored under its keys, or dead.
abbrev Ends : TokenRecord → Option ℕ → ℕ → Store → Type 0
Ends r x now s = Dead r.token_digest now s ⊎ IsStored r x s

-- The revocation of another id kills a token or leaves it.
revoke_oauth_token-Ends :
    (i : String) (r : TokenRecord) (x : Option ℕ) (now : ℕ) (s : Store)
    → IsKeyed s
    → i ≢ r.id
    → IsStored r x s
    → Ends r x now (revoke_oauth_token i now s).1
revoke_oauth_token-Ends i r x now s keyed n (by_id, by_digest) =
    elim (revoke_oauth_token-Revokes i now s) [
      | inl (same, _) ↦ subst (λ (y : Store). Ends r x now y) (sym same) (inr (by_id, by_digest))
      | inr (inl (same, _)) ↦
          subst (λ (y : Store). Ends r x now y) (sym same)
            (inr
              (removed-id_other i r.id s n ∙ by_id, removed-digest i r.token_digest s ∙ by_digest))
      | inr (inr (r', x', e, same)) ↦
          let own : r'.id ≡ i = subst (λ o. KeyedOn i o) e (keyed i) in
          let other : r'.id ≢ r.id = λ p. n (sym own ∙ p) in
          subst (λ (y : Store). Ends r x now y) (sym same)
            (elim (text_cases r'.token_digest r.token_digest) [
              | inl p ↦ inl (
                  put_token-Dead (revoked now r') r.token_digest now s
                    (or_now-is_some r'.revoked_at now) (λ q. absurd (q p)))
              | inr q ↦ inr (
                put_token-id_other (revoked now r') r.id s other ∙ by_id,
                put_token-digest_other (revoked now r') r.token_digest s q ∙ by_digest,
              )
            ])
    ]

removed-IsKeyed : (i : String) (s : Store) → IsKeyed s → IsKeyed (removed i s)
removed-IsKeyed i s h j = elim (text_cases i j) [
  | inl e ↦
      subst (λ k. KeyedOn k (stored oauth_tokens (id_key k) (removed i s))) e
        (subst (λ o. KeyedOn i o) (sym (get-remove_self (oauth_tokens, id_key i) s.values)) tt)
  | inr n ↦ subst (λ o. KeyedOn j o) (sym (removed-id_other i j s n)) (h j)
]

pub put_token-IsKeyed : (r : TokenRecord) (s : Store) → IsKeyed s → IsKeyed (put_token r s)
put_token-IsKeyed r s h j = elim (text_cases r.id j) [
  | inl e ↦
      subst (λ k. KeyedOn k (stored oauth_tokens (id_key k) (put_token r s))) e
        (subst (λ o. KeyedOn r.id o) (sym (put_token-id r s)) refl)
  | inr n ↦ subst (λ o. KeyedOn j o) (sym (put_token-id_other r j s n)) (h j)
]

revoke_oauth_token-IsKeyed :
    (i : String) (now : ℕ) (s : Store) → IsKeyed s → IsKeyed (revoke_oauth_token i now s).1
revoke_oauth_token-IsKeyed i now s h = elim (revoke_oauth_token-Revokes i now s) [
  | inl (same, _) ↦ subst (λ (y : Store). IsKeyed y) (sym same) h
  | inr (inl (same, _)) ↦ subst (λ (y : Store). IsKeyed y) (sym same) (removed-IsKeyed i s h)
  | inr (inr (r, x, _, same)) ↦
      subst (λ (y : Store). IsKeyed y) (sym same) (put_token-IsKeyed (revoked now r) s h)
]

mem_text_tail :
    (a b : String) (ks : List String) → b ≢ a → mem_text a (b ∷ ks) ≡ true → mem_text a ks ≡ true
unfolding mem_text
mem_text_tail a b ks n h =
    if_cases (λ x. x ≡ true → mem_text a ks ≡ true) (str_eq a b) _ _
      (λ e _. absurd (n (sym ((str_eq_iff a b).0 e)))) (λ _ m. m) h

revoke_all-Dead :
    (ids : List String) (d : String) (now : ℕ) (s : Store)
    → Dead d now s
    → Dead d now (revoke_all ids now s)
unfolding revoke_all
revoke_all-Dead [] d now s h = h
revoke_all-Dead (i ∷ ids) d now s h =
    revoke_all-Dead ids d now (revoke_oauth_token i now s).1 (revoke_oauth_token-Dead i d now s h)

pub revoke_all_kills :
    (ids : List String) (r : TokenRecord) (x : Option ℕ) (now : ℕ) (s : Store)
    → IsKeyed s
    → mem_text r.id ids ≡ true
    → IsStored r x s
    → Dead r.token_digest now (revoke_all ids now s)
unfolding revoke_all mem_text
revoke_all_kills [] r x now s keyed m h = cc
revoke_all_kills (i ∷ ids) r x now s keyed m h =
    let next = (revoke_oauth_token i now s).1 in
    elim (text_cases i r.id) [
      | inl e ↦ revoke_all-Dead ids r.token_digest now next (
          subst (λ k. Dead r.token_digest now (revoke_oauth_token k now s).1) (sym e)
            (revoke_oauth_token_kills r x now s h))
      | inr n ↦
          let later : mem_text r.id ids ≡ true = mem_text_tail r.id i ids n m in
          elim (revoke_oauth_token-Ends i r x now s keyed n h) [
            | inl dead ↦ revoke_all-Dead ids r.token_digest now next dead
            | inr kept ↦
                revoke_all_kills ids r x now next (revoke_oauth_token-IsKeyed i now s keyed) later
                  kept
          ]
    ]

index_token-IsKeyed :
    (grant_id : Option String) (id : String) (now : ℕ) (s : Store)
    → IsKeyed s
    → IsKeyed (index_token grant_id id now s)
unfolding put_value
index_token-IsKeyed none id now s h = h
index_token-IsKeyed (some g) id now s h =
    if_cases (λ (x : Store). IsKeyed x) (some_text (some g)) _ _
      (λ _ j.
        subst (λ o. KeyedOn j o)
          (sym (
            get-put_other _ _ _ _ (id_key≢grant_key oauth_tokens j g)
            ∙ get_value_other oauth_tokens (id_key j) (grant_key g) now s
                (id_key≢grant_key oauth_tokens j g)))
          (h j))
      (λ _. h)

-- Inserting a token keeps every token under its own id.
pub insert_oauth_token-IsKeyed :
    (r : TokenRecord) (now : ℕ) (s : Store) → IsKeyed s → IsKeyed (insert_oauth_token r now s)
unfolding insert_oauth_token
insert_oauth_token-IsKeyed r now s h =
    index_token-IsKeyed r.grant_id r.id now (put_token r s) (put_token-IsKeyed r s h)
