-- ===== src/Auth/SingleUse.antt =====
-- Workers that exchange one authorization code, in any interleaving: a worker claims the code, having
-- the claim it reads the document, and having found the code open it writes that it is consumed.
pub mod Begin
pub mod Consume
pub mod Once
use mathlib.Core.Path.{◌∙◌, sym, ap, subst}
use kis_portfolio_mcp.Common.{
  ℕ, ◌+◌, ◌≤◌, ◌<◌, ◌≡◌, ◌⊎◌, inl, inr, refl, zero, suc, String, Bool, true, false, ◌&&◌, ◌||◌,
  Option, none, some, List, [], ◌∷◌, ◌++◌, length, All, ltb, leb, arith, if◌then◌else◌, if_cases,
}
use kis_portfolio_mcp.Common.Dict.{
  Dict, get, put, remove, pair_key, text_key, get-put_self, get-put_other, get-remove_self,
}
use kis_portfolio_mcp.Commands.Store.{
  StateStore, ClaimResult, get_value, put_value, drop_expired, is_expired, claim, grant, is_live,
  refused,
}
use kis_portfolio_mcp.Auth.Records.{
  CodeRecord, AuthDocument, code_document, token_document, index_document, as_code,
}
use kis_portfolio_mcp.Auth.Repository.{
  Store, oauth_codes, id_key, put_code, is_some, mark_consumed, read_code, code_claim,
  code_claim_seconds,
}
use kis_portfolio_mcp.Auth.Repository.Documents.{
  Stored, stored, entry, put_code-id, put_code-claims,
}

-- The time, the store, the number of workers that have the claim and have not yet read, the records that
-- workers read as open and have not yet written, and the exchanges that were let through.
pub record Workers : Type 0 where
  pub now : ℕ
  pub store : Store
  pub pending : ℕ
  pub reading : List CodeRecord
  pub exchanged : ℕ

abbrev pub one_if : Bool → ℕ
one_if true = 1
one_if false = 0

-- A worker asks for the claim of the code.
abbrev pub begin_step : String → ℕ → String → Workers → Workers
begin_step c later owner w =
    let (r, s) = claim (code_claim c) owner code_claim_seconds (w.now + later) w.store in
    record {
      now = w.now + later;
      store = s;
      pending = w.pending + one_if r.acquired;
      reading = w.reading;
      exchanged = w.exchanged;
    }

abbrev pub with_read : Option CodeRecord → List CodeRecord → List CodeRecord
with_read none reading = reading
with_read (some r) reading = r ∷ reading

-- A worker that has the claim reads the code.
abbrev pub read_step : String → ℕ → ℕ → Workers → Workers
read_step c later left w =
    let (r, s) = read_code c (w.now + later) w.store in
    record {
      now = w.now + later;
      store = s;
      pending = left;
      reading = with_read r w.reading;
      exchanged = w.exchanged;
    }

-- A worker that found the code open writes that it is consumed, and goes on.
abbrev pub write_step : ℕ → CodeRecord → List CodeRecord → Workers → Workers
write_step later r others w =
    let (done, s) = mark_consumed (some r) (w.now + later) w.store in
    record {
      now = w.now + later;
      store = s;
      pending = w.pending;
      reading = others;
      exchanged = w.exchanged + one_if done;
    }

-- Steps of the workers on the code `c`, each after some time. A step of anyone else may change the
-- store, but not the claim and the document of the code.
pub data Step (c : String) : Workers → Workers → Type 0 where
  begins : (w : Workers) (later : ℕ) (owner : String) → Step c w (begin_step c later owner w)
  reads :
      (w : Workers) (later left : ℕ) → w.pending ≡ suc left → Step c w (read_step c later left w)
  writes :
      (w : Workers) (later : ℕ) (front back : List CodeRecord) (r : CodeRecord)
      → w.reading ≡ front ++ (r ∷ back)
      → Step c w (write_step later r (front ++ back) w)
  others :
      (w : Workers) (later : ℕ) (s : Store)
      → get (code_claim c) s.claims ≡ get (code_claim c) w.store.claims
      → stored oauth_codes (id_key c) s ≡ stored oauth_codes (id_key c) w.store
      → Step c w (record w { now = w.now + later; store = s })

pub data Reachable (c : String) (w : Workers) : Workers → Type 0 where
  begun : Reachable c w w
  then_step : (v u : Workers) → Reachable c w v → Step c v u → Reachable c w u

-- The document of the code, if it is there, is a record of it that expires at `e`.
abbrev pub IsCode : String → ℕ → Stored → Type 0
IsCode c e none = Unit
IsCode c e (some (code_document r, x)) = (r.id ≡ c) × (r.expires_at ≡ e) × (x ≡ some e)
IsCode c e (some (token_document r, x)) = ⊥
IsCode c e (some (index_document ids, x)) = ⊥

-- A record of the code, with its expiry
abbrev pub OfCode : String → ℕ → CodeRecord → Type 0
OfCode c e r = (r.id ≡ c) × (r.expires_at ≡ e)

-- The workers that are past the claim or through.
abbrev pub busy : Workers → ℕ
busy w = w.pending + (length w.reading + w.exchanged)

-- A claim holds until the code has expired.
abbrev pub Outlives : ℕ → Option ClaimResult → Type 0
Outlives e none = ⊥
Outlives e (some r) = e ≤ r.expires_at

-- Until the code expires, one exchange at most is under way or done, and its claim still holds.
pub record IsSingle (c : String) (e : ℕ) (w : Workers) : Type 0 where
  pub document : IsCode c e (stored oauth_codes (id_key c) w.store)
  pub in_time : e ≤ w.now + code_claim_seconds
  pub records : All (OfCode c e) w.reading
  pub once : length w.reading + w.exchanged ≤ 1
  pub alone :
      (e ≤ w.now) ⊎ ((busy w ≤ 1) × (1 ≤ busy w → Outlives e (get (code_claim c) w.store.claims)))
