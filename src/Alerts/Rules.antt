-- ===== src/Alerts/Rules.antt =====
-- `AlertRuleVersion` of modules/monitoring/alerts.py, and the errors of the module.
use kis_portfolio_mcp.Common.{
  ◌≡◌, String, Bool, true, false, not, Option, none, some, List, [], ◌∷◌, Result, ok, err, ◌>>=◌,
  ◌>>◌, raise_if, bind_ok, mem_text, leb, arith,
}
use kis_portfolio_mcp.Alerts.Python.{
  Moment, Value, text, moment, nothing, other, Document, lookup, assign, Runtime, str,
}

pub data AlertError : Type 0 where
  missing_key : String → AlertError
  naive_time : String → AlertError
  validity_not_datetime rule_not_approved delivery_floor_unknown delivery_mode_unknown : AlertError
  validity_not_advancing slot_not_governed lineage_required signal_state_unknown : AlertError
  severity_unknown normal_severity_required active_severity_required : AlertError
  rule_not_yet_valid rule_expired sensitive_key sensitive_content initial_policy_unknown :
      AlertError
  unexpected_keys : List String → AlertError
  code_not_opaque : String → AlertError

pub record AlertRuleVersion : Type 0 where
  pub rule_id : String
  pub version : String
  pub status : String
  pub minimum_delivery_severity : String
  pub delivery_mode : String
  pub valid_from : Moment
  pub valid_to : Option Moment
  pub document : Document
  pub definition_hash : String

-- `_aware`
abbrev pub aware : Moment → String → Result AlertError (Unit {0})
aware m field = raise_if (not m.is_aware) (naive_time field)

abbrev pub aware_if_some : Option Moment → String → Result AlertError (Unit {0})
aware_if_some none field = ok tt
aware_if_some (some m) field = aware m field

-- `document[key]`
unfoldable pub item : String → Document → Result AlertError Value
unfolding lookup
item k d = elim (lookup k d) [ none ↦ err (missing_key k) | some v ↦ ok v ]

-- `document.get(key)`, where `None` stands for a missing key.
unfoldable pub get_item : String → Document → Value
unfolding lookup
get_item k d = elim (lookup k d) [ none ↦ nothing | some v ↦ v ]

-- The checks `isinstance(valid_from, datetime)` and, for `valid_to`, `None` or a `datetime`.
unfoldable pub datetime : Value → Result AlertError Moment
datetime (moment m) = ok m
datetime (text s) = err validity_not_datetime
datetime nothing = err validity_not_datetime
datetime (other s) = err validity_not_datetime

unfoldable pub optional_datetime : Value → Result AlertError (Option Moment)
optional_datetime nothing = ok none
optional_datetime (moment m) = ok (some m)
optional_datetime (text s) = err validity_not_datetime
optional_datetime (other s) = err validity_not_datetime

-- `valid_to is not None and valid_to <= valid_from`
abbrev pub ends_by : Option Moment → Moment → Bool
ends_by none from = false
ends_by (some to) from = leb to.instant from.instant

-- The values that `from_document` takes from its document.
pub record RuleFields : Type 0 where
  pub rule_id : String
  pub version : String
  pub status : String
  pub minimum : String
  pub mode : String
  pub valid_from : Moment
  pub valid_to : Option Moment

module _ (py : Runtime) where
  -- The document with the validity rendered, which the definition hash covers.
  unfoldable pub canonical : Document → Moment → Option Moment → Document
  unfolding assign
  canonical d from to =
      assign "valid_to" (elim to [ none ↦ nothing | some m ↦ text (py.isoformat m) ])
        (assign "valid_from" (text (py.isoformat from)) d)

  -- The checks of `from_document` on the values it has read, and the rule it returns.
  unfoldable pub checked : Document → RuleFields → Result AlertError AlertRuleVersion
  unfolding canonical
  checked d f = do
    aware f.valid_from "valid_from"
    aware_if_some f.valid_to "valid_to"
    raise_if (not (mem_text f.status ("approved" ∷ "active" ∷ []))) rule_not_approved
    raise_if (not (mem_text f.minimum ("watch" ∷ "warning" ∷ "critical" ∷ [])))
        delivery_floor_unknown
    raise_if (not (mem_text f.mode ("off" ∷ "shadow" ∷ "external" ∷ []))) delivery_mode_unknown
    raise_if (ends_by f.valid_to f.valid_from) validity_not_advancing
    ok (record {
      rule_id = f.rule_id;
      version = f.version;
      status = f.status;
      minimum_delivery_severity = f.minimum;
      delivery_mode = f.mode;
      valid_from = f.valid_from;
      valid_to = f.valid_to;
      document = d;
      definition_hash = py.sha256 (py.json (canonical d f.valid_from f.valid_to));
    })

  -- The values that `from_document` reads, in its order.
  unfoldable pub read_fields : Document → Result AlertError RuleFields
  unfolding item get_item datetime optional_datetime str
  read_fields d = do
    rule_id ← item "id" d
    version ← item "version" d
    status ← item "status" d
    minimum ← item "minimum_delivery_severity" d
    mode ← item "delivery_mode" d
    from_value ← item "valid_from" d
    valid_from ← datetime from_value
    valid_to ← optional_datetime (get_item "valid_to" d)
    ok (record {
      rule_id = str py rule_id;
      version = str py version;
      status = str py status;
      minimum = str py minimum;
      mode = str py mode;
      valid_from = valid_from;
      valid_to = valid_to;
    })

  -- `AlertRuleVersion.from_document`
  unfoldable pub from_document : Document → Result AlertError AlertRuleVersion
  unfolding read_fields checked
  from_document d = read_fields d >>= checked d

-- A rule that a document may make.
pub record IsGoverned (rule : AlertRuleVersion) : Type 0 where
  pub floor_known :
      mem_text rule.minimum_delivery_severity ("watch" ∷ "warning" ∷ "critical" ∷ []) ≡ true
  pub status_known : mem_text rule.status ("approved" ∷ "active" ∷ []) ≡ true
  pub mode_known : mem_text rule.delivery_mode ("off" ∷ "shadow" ∷ "external" ∷ []) ≡ true
  pub advances : ends_by rule.valid_to rule.valid_from ≡ false
  pub from_aware : rule.valid_from.is_aware ≡ true

module _ (py : Runtime) where
  checked-IsGoverned :
      (d : Document) (f : RuleFields) {rule : AlertRuleVersion}
      → checked py d f ≡ ok rule
      → IsGoverned rule
  unfolding checked
  checked-IsGoverned d f h = ground arith

  -- Every rule version that a document makes is governed: its status, delivery floor and mode are
  -- known words, its start has a time zone, and its end, if it has one, is later than its start.
  pub from_document-IsGoverned :
      (d : Document) {rule : AlertRuleVersion} → from_document py d ≡ ok rule → IsGoverned rule
  unfolding from_document
  from_document-IsGoverned d h =
      let (f, _, e) = bind_ok (read_fields py d) (checked py d) h in checked-IsGoverned d f e
