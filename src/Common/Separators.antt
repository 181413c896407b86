-- ===== src/Common/Separators.antt =====
-- Texts that are joined by `|` and split again.
use mathlib.Core.Path.{◌∙◌, ap}
use kis_portfolio_mcp.Common.{
  ℕ, ◌≡◌, refl, String, true, List, [], ◌∷◌, if_cases, arith, join, lacks, split, str_eq,
  str_eq_iff, mem_text,
}
use Prim.Native.String
use text.Mathlib.TextLemmas.{nil-append, cons-append}

-- A text without the separator, before the rest of a joined text.
split-append :
    (c : ℕ) (s rest : String) (parts : List String)
    → lacks c s ≡ true
    → split c rest ≡ String.[] ∷ parts
    → split c (String.◌++◌ s rest) ≡ s ∷ parts
unfolding lacks split
split-append c String.[] rest parts h e = ap (split c) (nil-append rest) ∙ e
split-append c (String.◌∷◌ d s) rest parts h e =
    ap (split c) (cons-append d s rest) ∙ ground (arith, split-append c s rest parts)

split_lacking : (c : ℕ) (s : String) → lacks c s ≡ true → split c s ≡ s ∷ []
unfolding lacks split
split_lacking c String.[] h = refl
split_lacking c (String.◌∷◌ d s) h = ground (arith, split_lacking c s)

split_bar : (rest : String) → split b'|' (String.◌++◌ "|" rest) ≡ "" ∷ split b'|' rest
unfolding split
split_bar rest =
    ap (split b'|') (cons-append "|" String.[] rest ∙ ap (λ r. String.◌∷◌ "|" r) (nil-append rest))

-- Every part lacks the separator.
abbrev pub Lacks : List String → Type 0
Lacks [] = Unit
Lacks (p ∷ ps) = (lacks b'|' p ≡ true) × Lacks ps

pub split-join :
    (p : String) (ps : List String) → Lacks (p ∷ ps) → split b'|' (join "|" (p ∷ ps)) ≡ p ∷ ps
unfolding join
split-join p [] (h, _) = split_lacking b'|' p h
split-join p (q ∷ ps) (h, w) =
    split-append b'|' p _ (q ∷ ps) h (split_bar _ ∙ ap (λ l. "" ∷ l) (split-join q ps w))

-- A text of a list whose texts lack the separator.
pub mem_text-lacks :
    (s : String) (ks : List String) → Lacks ks → mem_text s ks ≡ true → lacks b'|' s ≡ true
unfolding mem_text
mem_text-lacks s [] w h = cc
mem_text-lacks s (k ∷ ks) (l, w) h =
    if_cases (λ x. x ≡ true → lacks b'|' s ≡ true) (str_eq s k) _ _
      (λ e _. ap (lacks b'|') ((str_eq_iff s k).0 e) ∙ l) (λ _ x. mem_text-lacks s ks w x) h
