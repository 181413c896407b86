-- ===== src/Commands/Store.antt =====
-- `InMemoryStateStore` of adapters/outbound/memory_state.py. A method runs under the object's lock,
-- so it is one step from a store to a store; a value is immutable here, which is what the source's
-- `deepcopy` is for. Times are instants, a duration is added to one.
pub mod Claims
pub mod Fencing
use kis_portfolio_mcp.Common.{
  ℕ, ◌+◌, String, Bool, true, false, not, ◌&&◌, ◌||◌, Option, none, some, List, [], ◌∷◌, leb, ltb,
  ◌==◌, str_eq, if◌then◌else◌,
}
use kis_portfolio_mcp.Common.Dict.{Dict, get, put, remove, text_key, pair_key}

-- `ClaimResult` of ports/state.py
pub record ClaimResult : Type 0 where
  pub acquired : Bool
  pub fencing_token : ℕ
  pub expires_at : ℕ
  pub owner_id : String

pub record StateStore (V : Type 0) : Type 0 where
  pub values : Dict (String × String) (V × Option ℕ)
  pub claims : Dict String ClaimResult
  pub fencing : Dict String ℕ

abbrev pub empty_store : {V : Type 0} → StateStore V
empty_store = record { values = []; claims = []; fencing = [] }

-- `expires_at is not None and expires_at <= current`
abbrev pub is_expired : Option ℕ → ℕ → Bool
is_expired none now = false
is_expired (some t) now = leb t now

-- `self._fencing.get(resource, 0)`
abbrev pub or_zero : Option ℕ → ℕ
or_zero none = 0
or_zero (some n) = n

abbrev pub is_live : Option ClaimResult → ℕ → Bool
is_live none now = false
is_live (some c) now = ltb now c.expires_at

abbrev pub refused : Option ClaimResult → ClaimResult
refused none = record { acquired = false; fencing_token = 0; expires_at = 0; owner_id = "" }
refused (some c) = record {
  acquired = false;
  fencing_token = c.fencing_token;
  expires_at = c.expires_at;
  owner_id = c.owner_id;
}

abbrev pub holds : Option ClaimResult → String → ℕ → Bool
holds none owner token = false
holds (some c) owner token = str_eq c.owner_id owner && c.fencing_token == token

module _ {V : Type 0} where
  -- `put`
  unfoldable pub put_value : String → String → V → Option ℕ → StateStore V → StateStore V
  put_value namespace key value expires s = record s {
    values = put (namespace, key) (value, expires) s.values;
  }

  abbrev pub drop_expired :
      String × String → StateStore V → ℕ → Option (V × Option ℕ) → Option V × StateStore V
  drop_expired k s now none = (none, s)
  drop_expired k s now (some (v, expires)) =
      if is_expired expires now
      then (none, record s { values = remove k s.values })
      else (some v, s)

  -- `get`: an expired entry is deleted.
  unfoldable pub get_value : String → String → ℕ → StateStore V → Option V × StateStore V
  get_value namespace key now s =
      drop_expired (namespace, key) s now (get (namespace, key) s.values)

  -- The claim that `claim` grants.
  unfoldable pub grant : String → String → ℕ → ℕ → StateStore V → ClaimResult × StateStore V
  grant resource owner ttl now s =
      let token = or_zero (get resource s.fencing) + 1 in
      let result : ClaimResult = record {
        acquired = true;
        fencing_token = token;
        expires_at = now + ttl;
        owner_id = owner;
      } in
      (
        result,
        record s { fencing = put resource token s.fencing; claims = put resource result s.claims },
      )

  -- `claim`
  unfoldable pub claim : String → String → ℕ → ℕ → StateStore V → ClaimResult × StateStore V
  unfolding grant
  claim resource owner ttl now s =
      let existing = get resource s.claims in
      if is_live existing now then (refused existing, s) else grant resource owner ttl now s

  -- `release`
  unfoldable pub release : String → String → ℕ → StateStore V → Bool × StateStore V
  release resource owner token s =
      if holds (get resource s.claims) owner token
      then (true, record s { claims = remove resource s.claims })
      else (false, s)
