-- ===== src/Resilience/Settings.antt =====
-- Policies, scopes and settings of clients/kis_resilience.py. The parser of numbers, `int` or
-- `float` in the small unit, is a parameter.
use kis_portfolio_mcp.Common.{
  if_cases, zero, suc, ℕ, ◌<◌, ◌≡◌, String, Option, none, some, [], ◌∷◌, Result, ok, err, str_eq,
  truthy, strip, if◌then◌else◌, Bool, arith, join,
}
use kis_portfolio_mcp.Common.Dict.{Dict, get, text_key}
use kis_portfolio_mcp.Common.Int.{ℤ, pos, negsuc}

pub data SettingError : Type 0 where
  not_a_number not_positive unknown_policy : SettingError

-- `KISRequestPolicy`, in milliseconds
pub record KisRequestPolicy : Type 0 where
  pub name : String
  pub max_attempts : ℕ
  pub attempt_timeout : ℕ
  pub total_timeout : ℕ
  pub queue_timeout : ℕ
  pub retry_base : ℕ
  pub retry_cap : ℕ

abbrev policy : String → ℕ → ℕ → ℕ → ℕ → ℕ → ℕ → KisRequestPolicy
policy name attempts attempt total queue base cap = record {
  name = name;
  max_attempts = attempts;
  attempt_timeout = attempt;
  total_timeout = total;
  queue_timeout = queue;
  retry_base = base;
  retry_cap = cap;
}

-- `REQUEST_POLICIES`
abbrev pub request_policies : Dict String KisRequestPolicy
request_policies =
    ("quote", policy "quote" 2 5000 8000 3000 250 1000)
    ∷ ("account", policy "account" 2 10000 15000 5000 500 2000)
    ∷ ("history", policy "history" 3 20000 60000 10000 500 4000)
    ∷ ("batch", policy "batch" 4 30000 120000 20000 1000 8000)
    ∷ ("default", policy "default" 2 10000 15000 5000 500 2000)
    ∷ []

-- The argument of `request_policy`: a policy, a name or nothing.
pub data PolicyChoice : Type 0 where
  chosen : KisRequestPolicy → PolicyChoice
  named : String → PolicyChoice
  unnamed : PolicyChoice

abbrev found : Option KisRequestPolicy → Result SettingError KisRequestPolicy
found none = err unknown_policy
found (some p) = ok p

-- `request_policy`; the empty name reads as the default one
unfoldable pub request_policy : PolicyChoice → Result SettingError KisRequestPolicy
request_policy (chosen p) = ok p
request_policy (named name) = found (get (if truthy name then name else "default") request_policies)
request_policy unnamed = found (get "default" request_policies)

abbrev positive : Option ℤ → Result SettingError ℕ
positive none = err not_a_number
positive (some (pos zero)) = err not_positive
positive (some (pos (suc n))) = ok (suc n)
positive (some (negsuc n)) = err not_positive

-- `positive_int_env` and `positive_float_env`, of the variable's text, "" when it is not set
unfoldable pub positive_env : (String → Option ℤ) → String → ℕ → Result SettingError ℕ
positive_env parse raw default =
    if truthy (strip raw) then positive (parse (strip raw)) else ok default

positive_lem : (o : Option ℤ) (n : ℕ) → positive o ≡ ok n → 0 < n
positive_lem none n h = cc
positive_lem (some (pos zero)) n h = cc
positive_lem (some (pos (suc m))) n h = ground arith
positive_lem (some (negsuc m)) n h = cc

-- A setting is positive when its default is, however the variable's text reads.
pub positive_env_positive :
    (parse : String → Option ℤ) (raw : String) (default n : ℕ)
    → 0 < default
    → positive_env parse raw default ≡ ok n
    → 0 < n
unfolding positive_env
positive_env_positive parse raw default n d h =
    if_cases (λ (r : Result SettingError ℕ). r ≡ ok n → 0 < n) (truthy (strip raw)) _ _
      (λ _ e. positive_lem (parse (strip raw)) n e) (λ _ e. ground arith) h

-- `environment_scope`, of whether the domain starts with the virtual one
abbrev pub environment_scope : Bool → String
environment_scope is_virtual = if is_virtual then "virtual" else "real"

-- `limiter_scope`
abbrev pub limiter_scope : Bool → String → String
limiter_scope is_virtual request_kind = join ":" (request_kind ∷ environment_scope is_virtual ∷ [])

-- The default of `min_interval_seconds`, in milliseconds
abbrev pub default_min_interval : Bool → String → ℕ
default_min_interval is_virtual request_kind =
    if str_eq request_kind "token" then 1000 else (if is_virtual then 1000 else 150)
