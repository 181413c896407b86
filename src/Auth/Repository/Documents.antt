-- ===== src/Auth/Repository/Documents.antt =====
-- The keys of the OAuth documents are told apart by their prefixes, and a document that is put is the
-- one that is read until it expires.
use mathlib.Core.Path.{◌∙◌, sym, ap}
use mathlib.Core.Logic.{◌≢◌}
use Prim.Native.Char.{code}
use text.Mathlib.TextLemmas.{cons-append, append_cancel_left}
use kis_portfolio_mcp.Common.{
  ℕ, ◌≡◌, refl, String, Option, none, some, arith, if_cases, some_text, if◌then◌else◌,
}
use kis_portfolio_mcp.Common.Dict.{
  get, pair_key, text_key, get-put_self, get-put_other, get-remove_other,
}
use kis_portfolio_mcp.Commands.Store.{get_value, put_value, drop_expired, is_expired}
use kis_portfolio_mcp.Auth.Records.{
  CodeRecord, TokenRecord, AuthDocument, code_document, token_document,
}
use kis_portfolio_mcp.Auth.Repository.{
  Store, oauth_codes, oauth_tokens, id_key, digest_key, grant_key, put_code, put_token, index_token,
  insert_oauth_token,
}

abbrev first_code : String → ℕ
first_code String.[] = 0
first_code (String.◌∷◌ d s) = code d

id_key-first_code : (a : String) → first_code (id_key a) ≡ b'i'
unfolding id_key
id_key-first_code a = ap first_code (cons-append "i" "d:" a)

digest_key-first_code : (a : String) → first_code (digest_key a) ≡ b'd'
unfolding digest_key
digest_key-first_code a = ap first_code (cons-append "d" "igest:" a)

grant_key-first_code : (a : String) → first_code (grant_key a) ≡ b'g'
unfolding grant_key
grant_key-first_code a = ap first_code (cons-append "g" "rant:" a)

abbrev pub entry : String → String → String × String
entry namespace key = (namespace, key)

abbrev pub Stored : Type 0
Stored = Option (AuthDocument × Option ℕ)

-- The document under a key of a namespace, with its expiry.
abbrev pub stored : String → String → Store → Stored
stored namespace key s = get (namespace, key) s.values

pub id_key≢digest_key : (n a b : String) → entry n (digest_key b) ≢ entry n (id_key a)
id_key≢digest_key n a b e =
    let same : first_code (digest_key b) ≡ first_code (id_key a) =
      ap (λ (k : String × String). first_code k.1) e in
    ground (arith, same, id_key-first_code a, digest_key-first_code b)

pub id_key≢grant_key : (n a b : String) → entry n (grant_key b) ≢ entry n (id_key a)
id_key≢grant_key n a b e =
    let same : first_code (grant_key b) ≡ first_code (id_key a) =
      ap (λ (k : String × String). first_code k.1) e in
    ground (arith, same, id_key-first_code a, grant_key-first_code b)

pub digest_key≢id_key : (n a b : String) → entry n (id_key a) ≢ entry n (digest_key b)
digest_key≢id_key n a b e = id_key≢digest_key n a b (sym e)

pub digest_key≢grant_key : (n a b : String) → entry n (grant_key b) ≢ entry n (digest_key a)
digest_key≢grant_key n a b e =
    let same : first_code (grant_key b) ≡ first_code (digest_key a) =
      ap (λ (k : String × String). first_code k.1) e in
    ground (arith, same, digest_key-first_code a, grant_key-first_code b)

pub put_code-id :
    (r : CodeRecord) (s : Store)
    → stored oauth_codes (id_key r.id) (put_code r s) ≡ some (code_document r, some r.expires_at)
unfolding put_code put_value
put_code-id r s =
    get-put_other _ _ _ _ (id_key≢digest_key oauth_codes r.id r.code_digest) ∙ get-put_self _ _ _

pub put_code-claims : (r : CodeRecord) (s : Store) → (put_code r s).claims ≡ s.claims
unfolding put_code put_value
put_code-claims r s = refl

-- What a document of the store reads as at a time.
abbrev pub unexpired : ℕ → Stored → Option AuthDocument
unexpired now none = none
unexpired now (some (v, x)) = if is_expired x now then none else some v

drop_expired-unexpired :
    (k : String × String) (s : Store) (now : ℕ) (o : Stored)
    → (drop_expired k s now o).0 ≡ unexpired now o
drop_expired-unexpired k s now none = refl
drop_expired-unexpired k s now (some (v, x)) = ground arith

pub get_value-unexpired :
    (n key : String) (now : ℕ) (s : Store)
    → (get_value n key now s).0 ≡ unexpired now (stored n key s)
unfolding get_value
get_value-unexpired n key now s = drop_expired-unexpired (n, key) s now (stored n key s)

drop_expired_other :
    (k : String × String) (n key : String) (s : Store) (now : ℕ) (o : Stored)
    → ◌≢◌ {A = String × String} k (n, key)
    → stored n key (drop_expired k s now o).1 ≡ stored n key s
drop_expired_other k n key s now none h = refl
drop_expired_other k n key s now (some (v, x)) h =
    if_cases (λ (y : Option AuthDocument × Store). stored n key y.1 ≡ stored n key s)
      (is_expired x now) _ _ (λ e. get-remove_other k (n, key) s.values h) (λ e. refl)

pub get_value_other :
    (n key other : String) (now : ℕ) (s : Store)
    → entry n other ≢ entry n key
    → stored n key (get_value n other now s).1 ≡ stored n key s
unfolding get_value
get_value_other n key other now s h = drop_expired_other (n, other) n key s now (stored n other s) h

pub digest_key_injective : (a b : String) → digest_key a ≡ digest_key b → a ≡ b
unfolding digest_key
digest_key_injective a b e = append_cancel_left "digest:" a b e

pub id_key_injective : (a b : String) → id_key a ≡ id_key b → a ≡ b
unfolding id_key
id_key_injective a b e = append_cancel_left "id:" a b e

pub put_token-digest :
    (r : TokenRecord) (s : Store)
    → stored oauth_tokens (digest_key r.token_digest) (put_token r s)
      ≡ some (token_document r, r.expires_at)
unfolding put_token put_value
put_token-digest r s = get-put_self _ _ _

pub put_token-digest_other :
    (r : TokenRecord) (d : String) (s : Store)
    → r.token_digest ≢ d
    → stored oauth_tokens (digest_key d) (put_token r s) ≡ stored oauth_tokens (digest_key d) s
unfolding put_token put_value
put_token-digest_other r d s h =
    get-put_other _ _ _ _
      (λ e. h (digest_key_injective r.token_digest d (ap (λ (k : String × String). k.1) e)))
    ∙ get-put_other _ _ _ _ (digest_key≢id_key oauth_tokens r.id d)

index_token-digest :
    (grant_id : Option String) (id d : String) (now : ℕ) (s : Store)
    → stored oauth_tokens (digest_key d) (index_token grant_id id now s)
      ≡ stored oauth_tokens (digest_key d) s
unfolding put_value
index_token-digest none id d now s = refl
index_token-digest (some g) id d now s =
    if_cases
      (λ (x : Store). stored oauth_tokens (digest_key d) x ≡ stored oauth_tokens (digest_key d) s)
      (some_text (some g)) _ _
      (λ _.
        get-put_other _ _ _ _ (digest_key≢grant_key oauth_tokens d g)
        ∙ get_value_other oauth_tokens (digest_key d) (grant_key g) now s
            (digest_key≢grant_key oauth_tokens d g))
      (λ _. refl)

pub insert_oauth_token-digest :
    (r : TokenRecord) (now : ℕ) (s : Store)
    → stored oauth_tokens (digest_key r.token_digest) (insert_oauth_token r now s)
      ≡ some (token_document r, r.expires_at)
unfolding insert_oauth_token
insert_oauth_token-digest r now s =
    index_token-digest r.grant_id r.id r.token_digest now (put_token r s) ∙ put_token-digest r s

pub insert_oauth_token-digest_other :
    (r : TokenRecord) (d : String) (now : ℕ) (s : Store)
    → r.token_digest ≢ d
    → stored oauth_tokens (digest_key d) (insert_oauth_token r now s)
      ≡ stored oauth_tokens (digest_key d) s
unfolding insert_oauth_token
insert_oauth_token-digest_other r d now s h =
    index_token-digest r.grant_id r.id d now (put_token r s) ∙ put_token-digest_other r d s h

drop_expired-claims :
    (k : String × String) (s : Store) (now : ℕ) (o : Stored)
    → (drop_expired k s now o).1.claims ≡ s.claims
drop_expired-claims k s now none = refl
drop_expired-claims k s now (some (v, x)) =
    if_cases (λ (y : Option AuthDocument × Store). y.1.claims ≡ s.claims) (is_expired x now) _ _
      (λ e. refl) (λ e. refl)

pub get_value-claims :
    (n key : String) (now : ℕ) (s : Store) → (get_value n key now s).1.claims ≡ s.claims
unfolding get_value
get_value-claims n key now s = drop_expired-claims (n, key) s now (stored n key s)
