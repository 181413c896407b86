-- ===== src/Backfill/Scope.antt =====
-- `BackfillAccountScope` and its normalization, with the regular expressions as tests of code points.
use kis_portfolio_mcp.Common.{
  ℕ, String, Bool, false, not, ◌&&◌, ◌||◌, List, [], ◌∷◌, Result, ok, ◌>>=◌, ◌>>◌, raise_if, leb,
  ◌==◌, length, all, map, mem_text, stripped_set, strip, is_empty, filter,
}
use kis_portfolio_mcp.Alerts.Redaction.{codes}

pub data BackfillError : Type 0 where
  invalid_account_label invalid_product_code unsupported_account_type invalid_overseas_exchange :
      BackfillError
  start_after_end end_after_as_of window_too_long partition_days_out_of_range : BackfillError
  labels_not_unique no_account_scope no_trade_history_scope : BackfillError

-- Python's `str.lower` and `str.upper`, from the tables of Unicode
pub record CaseTables : Type 0 where
  pub lower : String → String
  pub upper : String → String

pub record BackfillAccountScope : Type 0 where
  pub label : String
  pub product_code : String
  pub account_type : String
  pub overseas_exchanges : List String

abbrev pub is_small : ℕ → Bool
is_small c = leb b'a' c && leb c b'z'

abbrev pub is_capital : ℕ → Bool
is_capital c = leb b'A' c && leb c b'Z'

abbrev pub is_decimal : ℕ → Bool
is_decimal c = leb b'0' c && leb c b'9'

abbrev pub label_char : ℕ → Bool
label_char c = is_small c || is_decimal c || c == b'_' || c == b'-'

-- `[a-z0-9][a-z0-9_-]*`
unfoldable pub label_pattern : List ℕ → Bool
label_pattern [] = false
label_pattern (c ∷ cs) = (is_small c || is_decimal c) && all label_char cs

abbrev pub code_char : ℕ → Bool
code_char c = is_capital c || is_small c || is_decimal c

abbrev pub exchange_char : ℕ → Bool
exchange_char c = is_capital c || is_decimal c

-- A class of characters from `low` to `high` times, as in `[A-Z0-9]{2,8}`
unfoldable pub class_pattern : (ℕ → Bool) → ℕ → ℕ → List ℕ → Bool
class_pattern test low high cs = leb low (length cs) && leb (length cs) high && all test cs

abbrev pub bad_exchange : String → Bool
bad_exchange s = not (class_pattern exchange_char 2 8 (codes s))

module _ (case : CaseTables) where
  -- The checks of `BackfillAccountScope.normalized`
  unfoldable pub checked_scope : BackfillAccountScope → Result BackfillError BackfillAccountScope
  checked_scope s = do
    raise_if (not (label_pattern (codes s.label))) invalid_account_label
    raise_if (not (class_pattern code_char 1 8 (codes s.product_code))) invalid_product_code
    raise_if (not (mem_text s.account_type ("REAL" ∷ "VIRTUAL" ∷ []))) unsupported_account_type
    raise_if (not (is_empty (filter bad_exchange s.overseas_exchanges))) invalid_overseas_exchange
    ok s

  -- `BackfillAccountScope.normalized`
  unfoldable pub normalized : BackfillAccountScope → Result BackfillError BackfillAccountScope
  normalized s = checked_scope (record {
    label = case.lower (strip s.label);
    product_code = strip s.product_code;
    account_type = case.upper (strip s.account_type);
    overseas_exchanges = stripped_set (map case.upper s.overseas_exchanges);
  })

  -- `[scope.normalized() for scope in scopes]`
  unfoldable pub normalized_all :
      List BackfillAccountScope → Result BackfillError (List BackfillAccountScope)
  normalized_all [] = ok []
  normalized_all (s ∷ ss) = do first ← normalized s; rest ← normalized_all ss; ok (first ∷ rest)
