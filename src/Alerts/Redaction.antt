-- ===== src/Alerts/Redaction.antt =====
-- The regular expressions of modules/monitoring/alerts.py, as searches over code points.
use Prim.Native.Char.{code}
use kis_portfolio_mcp.Common.{
  ℕ, ◌+◌, String, Bool, true, false, not, ◌&&◌, ◌||◌, List, [], ◌∷◌, leb, ◌==◌, if◌then◌else◌,
  Result, raise_if, length, all, Option, none, some,
}
use kis_portfolio_mcp.Alerts.Python.{Runtime}
use kis_portfolio_mcp.Alerts.Rules.{AlertError, code_not_opaque}

abbrev pub codes : String → List ℕ
codes String.[] = []
codes (String.◌∷◌ c s) = code c ∷ codes s

-- Case is ignored by folding to small letters. Of the letters outside ASCII, four fold to an ASCII
-- one: the dotted capital I, the dotless i, the long s and the Kelvin sign.
unfoldable pub fold : ℕ → ℕ
fold c =
    if leb b'A' c && leb c b'Z'
    then c + 32
    else if c == 0x130 || c == 0x131
    then b'i'
    else if c == 0x17f
    then b's'
    else if c == 0x212a
    then b'k'
    else c

-- The text after a prefix.
unfoldable pub after : List ℕ → List ℕ → Option (List ℕ)
unfolding fold
after [] s = some s
after (p ∷ ps) [] = none
after (p ∷ ps) (c ∷ s) = let rest = after ps s in if fold c == p then rest else none

abbrev found {ℓ} : {A : Type ℓ} → Option A → Bool
found none = false
found (some a) = true

-- A pattern without a gap, `abc`, and one with an optional character, `abc.?de`.
pub data Pattern : Type 0 where
  word : String → Pattern
  gapped : String → String → Pattern

-- `second`, or any character but a line feed and then `second`.
unfoldable pub gap_then : List ℕ → List ℕ → Bool
unfolding after
gap_then second [] = found (after second [])
gap_then second (c ∷ s) = found (after second (c ∷ s)) || (not (c == 10) && found (after second s))

unfoldable pub matches_here : Pattern → List ℕ → Bool
unfolding gap_then
matches_here (word w) s = found (after (codes w) s)
matches_here (gapped a b) s = elim (after (codes a) s) [
  | none ↦ false
  | some rest ↦ gap_then (codes b) rest
]

unfoldable pub any_here : List Pattern → List ℕ → Bool
unfolding matches_here
any_here [] s = false
any_here (p ∷ ps) s = let rest = any_here ps s in if matches_here p s then true else rest

-- `pattern.search(text)`
unfoldable pub search_text : List Pattern → List ℕ → Bool
unfolding any_here
search_text ps [] = any_here ps []
search_text ps (c ∷ s) = let rest = search_text ps s in if any_here ps (c ∷ s) then true else rest

-- `_SENSITIVE_KEY`
abbrev pub sensitive_key_patterns : List Pattern
sensitive_key_patterns =
    word "account"
    ∷ word "cano"
    ∷ word "token"
    ∷ word "secret"
    ∷ gapped "chat" "id"
    ∷ gapped "total" "asset"
    ∷ gapped "total" "value"
    ∷ []

-- `_SENSITIVE_TEXT`
abbrev pub sensitive_text_patterns : List Pattern
sensitive_text_patterns =
    gapped "account" "number" ∷ word "cano" ∷ word "token" ∷ word "secret" ∷ gapped "chat" "id" ∷ []

-- `_ACCOUNT_NUMBER`: a run of at least eight digits that no digit precedes or follows. `run` counts
-- the digits just read.
unfoldable pub long_run : (ℕ → Bool) → ℕ → List ℕ → Bool
long_run digit run [] = leb 8 run
long_run digit run (c ∷ s) =
    let longer = long_run digit (run + 1) s in
    let afresh = long_run digit 0 s in
    if digit c then longer else if leb 8 run then true else afresh

unfoldable pub account_number : (ℕ → Bool) → String → Bool
unfolding long_run
account_number digit s = long_run digit 0 (codes s)

abbrev is_small : ℕ → Bool
is_small c = leb b'a' c && leb c b'z'

-- `_SAFE_CODE`
abbrev pub is_code_char : ℕ → Bool
is_code_char c =
    is_small c || (leb b'0' c && leb c b'9') || c == b'_' || c == b'.' || c == b':' || c == b'-'

unfoldable pub safe_code : List ℕ → Bool
safe_code [] = false
safe_code (c ∷ s) = is_small c && all is_code_char s && leb 1 (length s) && leb (length s) 79

-- `validate_opaque_code`
unfoldable pub validate_opaque_code : Runtime → String → String → Result AlertError (Unit {0})
unfolding safe_code account_number
validate_opaque_code py value field =
    raise_if (not (safe_code (codes value)) || account_number py.is_digit value)
      (code_not_opaque field)
