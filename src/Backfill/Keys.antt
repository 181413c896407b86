-- ===== src/Backfill/Keys.antt =====
-- The key of a partition of services/trade_cash_backfill.py, which coverage later splits by `|`.
use mathlib.Core.Path.{◌∙◌, sym, ap, subst}
use kis_portfolio_mcp.Common.{
  is_empty, filter, ℕ, ◌≡◌, refl, String, Bool, not, true, false, Option, ok, raise_if_ok,
  ok_injective, [], ◌∷◌, ◌==◌, if◌then◌else◌, if_cases, arith, lacks, split, all, mem_text,
}
use Prim.Native.Char.{code}
use kis_portfolio_mcp.Common.Separators.{Lacks, split-join, mem_text-lacks}
use kis_portfolio_mcp.Alerts.Redaction.{codes}
use kis_portfolio_mcp.Backfill.Scope.{
  checked_scope, bad_exchange, code_char, invalid_account_label, invalid_product_code,
  unsupported_account_type, invalid_overseas_exchange, class_pattern, BackfillAccountScope,
  CaseTables, label_pattern, label_char, normalized,
}
use kis_portfolio_mcp.Backfill.Plan.{Calendar, plan_version, or_krx, partition_key}

test_bar : (test : ℕ → Bool) (c : ℕ) → c ≡ b'|' → test b'|' ≡ false → test c ≡ true → ⊥
test_bar test c e n h = cc (sym n ∙ ap test (sym e) ∙ h)

all-lacks :
    (test : ℕ → Bool) (s : String)
    → test b'|' ≡ false
    → all test (codes s) ≡ true
    → lacks b'|' s ≡ true
unfolding lacks
all-lacks test String.[] n h = refl
all-lacks test (String.◌∷◌ d s) n h =
    if_cases (λ x. x ≡ true → (if code d == b'|' then false else lacks b'|' s) ≡ true)
      (test (code d)) _ _
      (λ e k.
        if_cases (λ x. x ≡ true) (code d == b'|') _ _
          (λ same.
            let bar : code d ≡ b'|' = ground arith in absurd (test_bar test (code d) bar n e))
          (λ other. all-lacks test s n k))
      (λ e k. cc) h

label-lacks : (s : String) → label_pattern (codes s) ≡ true → lacks b'|' s ≡ true
unfolding label_pattern lacks
label-lacks String.[] h = refl
label-lacks (String.◌∷◌ d s) h = ground (arith, all-lacks label_char s refl)

abbrev ScopeLacks : BackfillAccountScope → Type 0
ScopeLacks s = Lacks (s.label ∷ s.product_code ∷ s.account_type ∷ [])

class-lacks : (s : String) → class_pattern code_char 1 8 (codes s) ≡ true → lacks b'|' s ≡ true
unfolding class_pattern
class-lacks s h = all-lacks code_char s refl (ground arith)

-- An account that passed its checks: three of the nine parts lack the separator by them.
checked_scope-ScopeLacks :
    (case : CaseTables) (s scope : BackfillAccountScope)
    → checked_scope case s ≡ ok scope
    → ScopeLacks scope
unfolding checked_scope lacks
checked_scope-ScopeLacks case s scope h =
    let (a, h1) = raise_if_ok (not (label_pattern (codes s.label))) invalid_account_label _ h in
    let (b, h2) =
      raise_if_ok (not (class_pattern code_char 1 8 (codes s.product_code))) invalid_product_code _
        h1 in
    let (c, h3) =
      raise_if_ok (not (mem_text s.account_type ("REAL" ∷ "VIRTUAL" ∷ []))) unsupported_account_type
        _ h2 in
    let (_, h4) =
      raise_if_ok (not (is_empty (filter bad_exchange s.overseas_exchanges)))
        invalid_overseas_exchange (ok s) h3 in
    subst (λ x. ScopeLacks x) (ok_injective s scope h4)
      (
        label-lacks s.label (ground arith),
        (
          class-lacks s.product_code (ground arith),
          (
            mem_text-lacks s.account_type ("REAL" ∷ "VIRTUAL" ∷ []) (refl, (refl, tt))
                (ground arith),
            tt,
          ),
        ),
      )

-- The key of a partition of a normalized account, split by the separator, gives back its nine parts,
-- where the operation, the exchange, the route and the texts of the two days lack the separator.
pub split-partition_key :
    (calendar : Calendar) (case : CaseTables) (given scope : BackfillAccountScope)
    (operation route : String) (start end : ℕ) (exchange : Option String)
    → normalized case given ≡ ok scope
    → lacks b'|' operation ≡ true
    → lacks b'|' (or_krx exchange) ≡ true
    → lacks b'|' route ≡ true
    → lacks b'|' (calendar.isoformat start) ≡ true
    → lacks b'|' (calendar.isoformat end) ≡ true
    → split b'|' (partition_key calendar operation scope route start end exchange)
      ≡ plan_version
        ∷ operation
        ∷ scope.label
        ∷ scope.product_code
        ∷ scope.account_type
        ∷ or_krx exchange
        ∷ route
        ∷ calendar.isoformat start
        ∷ calendar.isoformat end
        ∷ []
unfolding normalized partition_key lacks
split-partition_key calendar case given scope operation route start end exchange h a b c d e =
    let (l, (p, (t, _))) = checked_scope-ScopeLacks case _ scope h in
    split-join plan_version _ (refl, (a, (l, (p, (t, (b, (c, (d, (e, tt)))))))))
