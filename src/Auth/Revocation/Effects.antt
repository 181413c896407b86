-- ===== src/Auth/Revocation/Effects.antt =====
-- What a revocation does to the documents of tokens: to the revoked one and to the others.
use mathlib.Core.Path.{◌∙◌, sym, ap, subst}
use mathlib.Core.Logic.{◌≢◌}
use kis_portfolio_mcp.Common.{
  ℕ, ◌≡◌, ◌⊎◌, inl, inr, refl, String, Bool, true, false, Option, none, some, str_eq, str_eq_iff,
  if_cases,
}
use kis_portfolio_mcp.Common.Dict.{
  remove, text_key, pair_key, get-put_other, get-put_self, get-remove_other,
}
use kis_portfolio_mcp.Commands.Store.{get_value, put_value, drop_expired, is_expired}
use kis_portfolio_mcp.Auth.Records.{
  TokenRecord, AuthDocument, code_document, token_document, index_document, as_token,
}
use kis_portfolio_mcp.Auth.Repository.{
  Store, oauth_tokens, id_key, digest_key, is_some, or_now, put_token, revoke_found,
  revoke_oauth_token,
}
use kis_portfolio_mcp.Auth.Repository.Documents.{
  Stored, stored, id_key≢digest_key, digest_key≢id_key, id_key_injective, put_token-digest,
  put_token-digest_other,
}

pub text_cases : (a b : String) → (a ≡ b) ⊎ (a ≢ b)
text_cases a b =
    if_cases (λ (x : Bool). (a ≡ b) ⊎ (a ≢ b)) (str_eq a b) true false
      (λ e. inl ((str_eq_iff a b).0 e)) (λ e. inr (λ p. cc ((str_eq_iff a b).1 p, e)))

-- A token's document stands under its own id.
abbrev pub KeyedOn : String → Stored → Type 0
KeyedOn i none = Unit
KeyedOn i (some (code_document r, x)) = Unit
KeyedOn i (some (index_document ids, x)) = Unit
KeyedOn i (some (token_document r, x)) = r.id ≡ i

abbrev pub IsKeyed : Store → Type 0
IsKeyed s = (i : String) → KeyedOn i (stored oauth_tokens (id_key i) s)

-- What no longer loads as a token: a revoked or an expired one.
abbrev pub DeadOn : ℕ → Stored → Type 0
DeadOn now none = Unit
DeadOn now (some (code_document r, x)) = Unit
DeadOn now (some (index_document ids, x)) = Unit
DeadOn now (some (token_document r, x)) = (is_some r.revoked_at ≡ true) ⊎ (is_expired x now ≡ true)

abbrev pub Dead : String → ℕ → Store → Type 0
Dead d now s = DeadOn now (stored oauth_tokens (digest_key d) s)

-- A token is the same document under both of its keys.
abbrev pub IsStored : TokenRecord → Option ℕ → Store → Type 0
IsStored r x s =
    (stored oauth_tokens (id_key r.id) s ≡ some (token_document r, x))
    × (stored oauth_tokens (digest_key r.token_digest) s ≡ some (token_document r, x))

pub or_now-is_some : (o : Option ℕ) (now : ℕ) → is_some (or_now o now) ≡ true
or_now-is_some none now = refl
or_now-is_some (some t) now = refl

-- A revoked token that is put: its digest is dead, other digests and other ids are as they were.
pub put_token-Dead :
    (r : TokenRecord) (d : String) (now : ℕ) (s : Store)
    → is_some r.revoked_at ≡ true
    → (r.token_digest ≢ d → Dead d now s)
    → Dead d now (put_token r s)
put_token-Dead r d now s revoked h = elim (text_cases r.token_digest d) [
  | inl e ↦
      subst (λ k. Dead k now (put_token r s)) e
        (subst (λ o. DeadOn now o) (sym (put_token-digest r s)) (inl revoked))
  | inr n ↦ subst (λ o. DeadOn now o) (sym (put_token-digest_other r d s n)) (h n)
]

pub put_token-id_other :
    (r : TokenRecord) (i : String) (s : Store)
    → r.id ≢ i
    → stored oauth_tokens (id_key i) (put_token r s) ≡ stored oauth_tokens (id_key i) s
unfolding put_token put_value
put_token-id_other r i s n =
    get-put_other _ _ _ _ (id_key≢digest_key oauth_tokens i r.token_digest)
    ∙ get-put_other _ _ _ _ (λ e. n (id_key_injective r.id i (ap (λ (k : String × String). k.1) e)))

pub put_token-id :
    (r : TokenRecord) (s : Store)
    → stored oauth_tokens (id_key r.id) (put_token r s) ≡ some (token_document r, r.expires_at)
unfolding put_token put_value
put_token-id r s =
    get-put_other _ _ _ _ (id_key≢digest_key oauth_tokens r.id r.token_digest) ∙ get-put_self _ _ _

abbrev pub removed : String → Store → Store
removed i s = record s { values = remove (oauth_tokens, id_key i) s.values }

pub removed-digest :
    (i d : String) (s : Store)
    → stored oauth_tokens (digest_key d) (removed i s) ≡ stored oauth_tokens (digest_key d) s
removed-digest i d s = get-remove_other _ _ s.values (digest_key≢id_key oauth_tokens i d)

pub removed-id_other :
    (i j : String) (s : Store)
    → i ≢ j
    → stored oauth_tokens (id_key j) (removed i s) ≡ stored oauth_tokens (id_key j) s
removed-id_other i j s n =
    get-remove_other _ _ s.values
      (λ e. n (id_key_injective i j (ap (λ (k : String × String). k.1) e)))

-- The store after the revocation of an id under which `o` stands.
revoke_on : String → ℕ → Store → Stored → Store
revoke_on i now s o =
    let (document, s') = drop_expired (oauth_tokens, id_key i) s now o in
    (revoke_found (as_token document) now s').1

abbrev pub revoked : ℕ → TokenRecord → TokenRecord
revoked now r = record r { revoked_at = or_now r.revoked_at now }

abbrev pub IsToken : Stored → TokenRecord → Option ℕ → Type 0
IsToken o r x = o ≡ some (token_document r, x)

expiry_of : Stored → Option ℕ
expiry_of none = none
expiry_of (some (v, x)) = x

-- A revocation finds no token and changes nothing, removes an expired document, or puts a revoked token.
abbrev pub Revokes : String → ℕ → Store → Stored → Store → Type 0
Revokes i now s o s' =
    ((s' ≡ s) × ((r : TokenRecord) (x : Option ℕ) → IsToken o r x → ⊥))
    ⊎ ((s' ≡ removed i s)
        × ((r : TokenRecord) (x : Option ℕ) → IsToken o r x → is_expired x now ≡ true))
    ⊎ ((r : TokenRecord) × (x : Option ℕ) × IsToken o r x × (s' ≡ put_token (revoked now r) s))

revoke_on-Revokes :
    (i : String) (now : ℕ) (s : Store) (o : Stored) → Revokes i now s o (revoke_on i now s o)
unfolding revoke_on revoke_found expiry_of
revoke_on-Revokes i now s none = inl (refl, λ r x e. cc)
revoke_on-Revokes i now s (some (code_document c, y)) =
    if_cases
      (λ (z : Option AuthDocument × Store).
        Revokes i now s (some (code_document c, y)) (revoke_found (as_token z.0) now z.1).1)
      (is_expired y now) _ _ (λ _. inr (inl (refl, λ r x e. cc))) (λ _. inl (refl, λ r x e. cc))
revoke_on-Revokes i now s (some (index_document ids, y)) =
    if_cases
      (λ (z : Option AuthDocument × Store).
        Revokes i now s (some (index_document ids, y)) (revoke_found (as_token z.0) now z.1).1)
      (is_expired y now) _ _ (λ _. inr (inl (refl, λ r x e. cc))) (λ _. inl (refl, λ r x e. cc))
revoke_on-Revokes i now s (some (token_document t, y)) =
    if_cases
      (λ (z : Option AuthDocument × Store).
        Revokes i now s (some (token_document t, y)) (revoke_found (as_token z.0) now z.1).1)
      (is_expired y now) _ _
      (λ late. inr (inl (refl, λ r x e. ap (λ z. is_expired z now) (sym (ap expiry_of e)) ∙ late)))
      (λ _. inr (inr (t, y, refl, refl)))

pub revoke_oauth_token-Revokes :
    (i : String) (now : ℕ) (s : Store)
    → Revokes i now s (stored oauth_tokens (id_key i) s) (revoke_oauth_token i now s).1
unfolding revoke_oauth_token revoke_on get_value
revoke_oauth_token-Revokes i now s = revoke_on-Revokes i now s (stored oauth_tokens (id_key i) s)

-- A dead token stays dead.
pub revoke_oauth_token-Dead :
    (i d : String) (now : ℕ) (s : Store) → Dead d now s → Dead d now (revoke_oauth_token i now s).1
revoke_oauth_token-Dead i d now s h = elim (revoke_oauth_token-Revokes i now s) [
  | inl (same, _) ↦ subst (λ (y : Store). Dead d now y) (sym same) h
  | inr (inl (same, _)) ↦
      subst (λ (y : Store). Dead d now y) (sym same)
        (subst (λ o. DeadOn now o) (sym (removed-digest i d s)) h)
  | inr (inr (r, x, _, same)) ↦
      subst (λ (y : Store). Dead d now y) (sym same)
        (put_token-Dead (revoked now r) d now s (or_now-is_some r.revoked_at now) (λ _. h))
]

-- A token is dead once its own id is revoked.
pub revoke_oauth_token_kills :
    (r : TokenRecord) (x : Option ℕ) (now : ℕ) (s : Store)
    → IsStored r x s
    → Dead r.token_digest now (revoke_oauth_token r.id now s).1
revoke_oauth_token_kills r x now s (by_id, by_digest) =
    elim (revoke_oauth_token-Revokes r.id now s) [
      | inl (_, no_token) ↦ absurd (no_token r x by_id)
      | inr (inl (same, late)) ↦
          subst (λ (y : Store). Dead r.token_digest now y) (sym same)
            (subst (λ o. DeadOn now o) (sym (removed-digest r.id r.token_digest s ∙ by_digest))
              (inr (late r x by_id)))
      | inr (inr (r', x', e, same)) ↦
          let digest_same : r'.token_digest ≡ r.token_digest = cc in
          subst (λ (y : Store). Dead r.token_digest now y) (sym same)
            (put_token-Dead (revoked now r') r.token_digest now s (or_now-is_some r'.revoked_at now)
              (λ n. absurd (n digest_same)))
    ]
