-- ===== src/Alerts/Candidates/Redacted.antt =====
-- A built candidate shows only what may be shown.
use kis_portfolio_mcp.Common.{
  ℕ, ◌+◌, ◌≤◌, ◌<◌, ◌≡◌, ◌≢◌, ◌⊎◌, inl, inr, refl, String, Bool, not, ◌&&◌, Option, none, some,
  truthy, strip, if_cases, str_eq_iff, mem_text-Mem, true, false, List, [], ◌∷◌, ◌++◌, map, ok,
  raise_if_ok, mem_text, str_eq, leb, arith, filter, is_empty, sorted_set, insert_text, All, all,
  length,
}
use mathlib.Core.List.{Memᴰ}
use mathlib.Core.Path.{sym, subst, ◌∙◌}
use mathlib.Core.Bool.{false≢true}
use kis_portfolio_mcp.Alerts.Python.{Moment, Value, Document, Runtime}
use kis_portfolio_mcp.Alerts.Rules.{AlertRuleVersion}
use kis_portfolio_mcp.Alerts.Redaction.{
  codes, long_run, account_number, search_text, sensitive_text_patterns,
}
use kis_portfolio_mcp.Alerts.Candidates.{
  AlertEvaluation, AlertCandidate, public_context_keys, is_unexpected, check_items,
  validate_public_context, build, identified, is_severity, severity_rank, allowed_slots, ended_by,
}

-- The search for account numbers finds every eight digits in a row.
long_run_more : (digit : ℕ → Bool) (run : ℕ) (s : List ℕ) → 8 ≤ run → long_run digit run s ≡ true
unfolding long_run
long_run_more digit run [] h = ground arith
long_run_more digit run (c ∷ s) h = ground (arith, long_run_more digit (run + 1) s)

long_run_digits :
    (digit : ℕ → Bool) (run : ℕ) (d rest : List ℕ)
    → all digit d ≡ true
    → 8 ≤ run + length d
    → long_run digit run (d ++ rest) ≡ true
unfolding long_run
long_run_digits digit run [] rest ds h = long_run_more digit run rest (omega arith)
long_run_digits digit run (c ∷ d) rest ds h = ground (arith, long_run_digits digit (run + 1) d rest)

long_run_later :
    (digit : ℕ → Bool) (run : ℕ) (before s : List ℕ)
    → ((n : ℕ) → long_run digit n s ≡ true)
    → long_run digit run (before ++ s) ≡ true
unfolding long_run
long_run_later digit run [] s h = h run
long_run_later digit run (c ∷ before) s h =
    ground (arith, long_run_later digit (run + 1) before s h, long_run_later digit 0 before s h)

-- A text holds eight digits in a row.
abbrev pub HoldsDigits : (ℕ → Bool) → String → Type 0
HoldsDigits digit s =
    (before : List ℕ) × (d : List ℕ) × (rest : List ℕ) × (codes s ≡ before ++ (d ++ rest))
    × (length d ≡ 8)
    × (all digit d ≡ true)

account_number_found :
    (digit : ℕ → Bool) (s : String) → HoldsDigits digit s → account_number digit s ≡ true
unfolding account_number
account_number_found digit s (before, d, rest, e, n, ds) = rw e (
    long_run_later digit 0 before (d ++ rest)
      (λ k. long_run_digits digit k d rest ds (omega arith)))

-- An item of the public context: an allowed key, and a rendering with no eight digits in a row.
abbrev pub IsPublic : Runtime → String × Value → Type 0
IsPublic py (k, v) =
    (mem_text k public_context_keys ≡ true)
    × (search_text sensitive_text_patterns (codes (py.json_value v)) ≡ false)
    × (¬ (HoldsDigits py.is_digit (py.json_value v)))

insert_text_ne_nil : (s : String) (ss : List String) → insert_text s ss ≢ []
unfolding insert_text
insert_text_ne_nil s [] = λ e. cc
insert_text_ne_nil s (t ∷ ss) = ground arith

sorted_set_empty : (ss : List String) → is_empty (sorted_set ss) ≡ true → ss ≡ []
unfolding sorted_set
sorted_set_empty [] h = refl
sorted_set_empty (s ∷ ss) h =
    absurd (go (insert_text s (sorted_set ss)) (insert_text_ne_nil s (sorted_set ss)) h)
  where
    go : (l : List String) → l ≢ [] → is_empty l ≡ true → ⊥
    go [] ne e = ne refl
    go (x ∷ xs) ne e = cc

module _ (py : Runtime) where
  items-IsPublic :
      (d : Document)
      → filter is_unexpected (map (λ item. item.0) d) ≡ []
      → check_items py d ≡ ok tt
      → All (IsPublic py) d
  unfolding check_items
  items-IsPublic [] e h = tt
  items-IsPublic ((k, v) ∷ d) e h =
      let rendered = py.json_value v in
      let facts : (mem_text k public_context_keys ≡ true)
          × (search_text sensitive_text_patterns (codes rendered) ≡ false)
          × (account_number py.is_digit rendered ≡ false)
          × (filter is_unexpected (map (λ item. item.0) d) ≡ [])
          × (check_items py d ≡ ok tt) =
        ground arith in
      (
        (
          facts.0,
          facts.1,
          λ digits. false≢true (sym facts.2 ∙ account_number_found py.is_digit rendered digits),
        ),
        items-IsPublic d facts.3 facts.4,
      )

  validate-IsPublic : (d : Document) → validate_public_context py d ≡ ok tt → All (IsPublic py) d
  unfolding validate_public_context
  validate-IsPublic d h =
      let (none_unexpected, items) = raise_if_ok _ _ (check_items py d) h in
      items-IsPublic d
        (sorted_set_empty (filter is_unexpected (map (λ item. item.0) d)) (ground arith)) items

  -- The state and the severity of an evaluation fit: a normal alert has the normal severity, an active
  -- one of the other three.
  abbrev pub SeverityFits : AlertEvaluation → Type 0
  SeverityFits e =
      ((e.signal_state ≡ "normal") × (e.severity ≡ "normal"))
      ⊎ ((e.signal_state ≡ "active")
          × ((e.severity ≡ "watch") ⊎ ((e.severity ≡ "warning") ⊎ (e.severity ≡ "critical"))))

  -- A time is before the end of a validity, if it has one.
  abbrev pub IsBefore : ℕ → Option Moment → Type 0
  IsBefore at none = Unit
  IsBefore at (some to) = at < to.instant

  -- What a successful build shows of its inputs.
  pub record IsAdmitted (rule : AlertRuleVersion) (e : AlertEvaluation) (c : AlertCandidate)
      : Type 0 where
    pub redacted : All (IsPublic py) c.evaluation.public_context
    pub of_evaluation : c.evaluation ≡ e
    pub of_rule : c.rule ≡ rule
    pub zoned : e.evaluation_at.is_aware ≡ true
    pub governed :
        Memᴰ e.evaluation_slot ("kr-1000" ∷ "kr-1400" ∷ "kr-1430" ∷ "kr-1600" ∷ "us-close" ∷ [])
    pub in_session : strip e.session_key ≢ ""
    pub of_lineage : strip e.input_lineage_hash ≢ ""
    pub fits : SeverityFits e
    pub begun : rule.valid_from.instant ≤ e.evaluation_at.instant
    pub not_ended : IsBefore e.evaluation_at.instant rule.valid_to

  severity_known :
      (s : String)
      → is_severity s ≡ true
      → (s ≡ "normal") ⊎ ((s ≡ "watch") ⊎ ((s ≡ "warning") ⊎ (s ≡ "critical")))
  unfolding severity_rank
  severity_known s h =
      let Known : Bool → Type 0 =
        λ _. (s ≡ "normal") ⊎ ((s ≡ "watch") ⊎ ((s ≡ "warning") ⊎ (s ≡ "critical"))) in
      if_cases Known (str_eq s "normal") true false (λ e. inl ((str_eq_iff s "normal").0 e))
        (λ a.
          if_cases Known (str_eq s "watch") true false (λ e. inr (inl ((str_eq_iff s "watch").0 e)))
            (λ b.
              if_cases Known (str_eq s "warning") true false
                (λ e. inr (inr (inl ((str_eq_iff s "warning").0 e))))
                (λ c.
                  if_cases Known (str_eq s "critical") true false
                    (λ e. inr (inr (inr ((str_eq_iff s "critical").0 e)))) (λ d. ground arith))))

  not_ended_of : (o : Option Moment) (at : Moment) → ended_by o at ≡ false → IsBefore at.instant o
  not_ended_of none at h = tt
  not_ended_of (some to) at h = ground arith

  not_blank : (s : String) → truthy (strip s) ≡ true → strip s ≢ ""
  not_blank s h e = ground (arith, (str_eq_iff (strip s) "").1 e)

  fits_of :
      (e : AlertEvaluation)
      → mem_text e.signal_state ("normal" ∷ "active" ∷ []) ≡ true
      → is_severity e.severity ≡ true
      → (str_eq e.signal_state "normal" && not (str_eq e.severity "normal")) ≡ false
      → (str_eq e.signal_state "active" && str_eq e.severity "normal") ≡ false
      → SeverityFits e
  unfolding mem_text
  fits_of e state known a b =
      if_cases (λ (_ : Bool). SeverityFits e) (str_eq e.signal_state "normal") true false
        (λ n. inl (
          (str_eq_iff e.signal_state "normal").0 n,
          (str_eq_iff e.severity "normal").0 (ground arith),
        ))
        (λ n.
          let active : str_eq e.signal_state "active" ≡ true = ground arith in
          let other : str_eq e.severity "normal" ≡ false = ground arith in
          inr (
            (str_eq_iff e.signal_state "active").0 active,
            elim (severity_known e.severity known) [
              | inl same ↦ absurd (false≢true (sym other ∙ (str_eq_iff e.severity "normal").1 same))
              | inr rest ↦ rest
            ],
          ))

  build_facts :
      (rule : AlertRuleVersion) (e : AlertEvaluation) {c : AlertCandidate}
      → build py rule e ≡ ok c
      → (validate_public_context py e.public_context ≡ ok tt)
        × (c ≡ identified py rule e)
        × (leb rule.valid_from.instant e.evaluation_at.instant ≡ true)
        × (mem_text e.signal_state ("normal" ∷ "active" ∷ []) ≡ true)
        × (e.evaluation_at.is_aware ≡ true)
        × (mem_text e.evaluation_slot allowed_slots ≡ true)
        × (truthy (strip e.session_key) ≡ true)
        × (truthy (strip e.input_lineage_hash) ≡ true)
        × (is_severity e.severity ≡ true)
        × ((str_eq e.signal_state "normal" && not (str_eq e.severity "normal")) ≡ false)
        × ((str_eq e.signal_state "active" && str_eq e.severity "normal") ≡ false)
        × (ended_by rule.valid_to e.evaluation_at ≡ false)
  unfolding build
  build_facts rule e h = ground arith

  -- A candidate is built only from an evaluation at an aware time inside its rule's validity, from its
  -- begin and before its end, in a governed slot, with a session and a lineage that are not blank and a
  -- severity that fits its state; it carries the evaluation and the rule, and its public context is
  -- redacted: every key is on the allow list, no rendered value matches the sensitive words, and none
  -- holds eight digits in a row.
  pub build-IsAdmitted :
      (rule : AlertRuleVersion) (e : AlertEvaluation) {c : AlertCandidate}
      → build py rule e ≡ ok c
      → IsAdmitted rule e c
  unfolding identified
  build-IsAdmitted rule e {c} h =
      let (valid, same, begun, state, zoned, slot, session, lineage, known, a, b, unended) =
        build_facts rule e h in
      subst (IsAdmitted rule e) (sym same) (record {
        redacted = validate-IsPublic e.public_context valid;
        of_evaluation = refl;
        of_rule = refl;
        zoned = zoned;
        governed = mem_text-Mem e.evaluation_slot allowed_slots slot;
        in_session = not_blank e.session_key session;
        of_lineage = not_blank e.input_lineage_hash lineage;
        fits = fits_of e state known a b;
        begun = ground arith;
        not_ended = not_ended_of rule.valid_to e.evaluation_at unended;
      })
