-- ===== src/Alerts/Python.antt =====
-- What modules/monitoring/alerts.py takes from Python: mappings of objects, points in time, and the
-- renderings and hashes of the standard library, which stay parameters.
use kis_portfolio_mcp.Common.{
  ℕ, String, Bool, Option, none, some, List, [], ◌∷◌, str_eq, if◌then◌else◌, join,
}

-- A `datetime`: its instant, and whether it has a time zone.
pub record Moment : Type 0 where
  pub instant : ℕ
  pub is_aware : Bool

-- A value of a `Mapping[str, object]`: what the code tells apart, and for the rest its `str`.
pub data Value : Type 0 where
  text : String → Value
  moment : Moment → Value
  nothing : Value
  other : String → Value

abbrev pub Document : Type 0
Document = List (String × Value)

-- `document.get(key)`
unfoldable pub lookup : String → Document → Option Value
lookup k [] = none
lookup k ((j, v) ∷ d) = let rest = lookup k d in if str_eq j k then some v else rest

-- `{**document, key: value}`
unfoldable pub assign : String → Value → Document → Document
assign k v [] = (k, v) ∷ []
assign k v ((j, w) ∷ d) =
    let rest = assign k v d in if str_eq j k then (k, v) ∷ d else (j, w) ∷ rest

-- The renderings of the standard library: `json.dumps` of a mapping and of a value, `sha256` as a
-- hexadecimal text, `datetime.isoformat`, `str` of a point in time and of a number, and the class `\d` of `re`.
pub record Runtime : Type 0 where
  pub json : Document → String
  pub json_value : Value → String
  pub sha256 : String → String
  pub isoformat : Moment → String
  pub show_moment : Moment → String
  pub show_number : ℕ → String
  pub is_digit : ℕ → Bool

module _ (py : Runtime) where
  -- `str(value)`
  unfoldable pub str : Value → String
  str (text s) = s
  str (moment m) = py.show_moment m
  str nothing = "None"
  str (other s) = s

  -- `_hash(*parts)`
  unfoldable pub hash : List String → String
  hash parts = py.sha256 (join "|" parts)
