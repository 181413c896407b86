-- ===== src/Common/Text.antt =====
-- Python's `str`: equality, order, `strip`, truth, `sorted(set(...))`, joins and membership.
use mathlib.Core.List.{Memᴰ}
use Prim.Native.Nat.{ℕ}
use Prim.Native.Nat as Nat
use Prim.Native.Char.{Char, code}
use native.Mathlib.Omega.{arith}
use Prim.Native.String.{String, compare}
use Prim.Native.String
use mathlib.Core.Bool.{Bool, true, false, not, ◌&&◌, ◌||◌}
use mathlib.Core.Option.{Option, none, some}
use mathlib.Core.List.{List, [], ◌∷◌}
use kis_portfolio_mcp.Common.Tests.{if◌then◌else◌, if_cases, leb, ◌==◌}
use mathlib.Core.Path.{◌≡◌}
use mathlib.Core.Logic.{◌↔◌}
use text.Mathlib.Text.{◌==◌ as same_text}
use text.Mathlib.TextEquality.{eq_iff}

-- `a == b` on texts.
unfoldable pub str_eq : String → String → Bool
str_eq a b = same_text a b

pub str_eq_iff : (a b : String) → (str_eq a b ≡ true) ↔ (a ≡ b)
unfolding str_eq
str_eq_iff a b = eq_iff a b

pub str_eq_refl : (a : String) → str_eq a a ≡ true
str_eq_refl a = (str_eq_iff a a).1 (λ i. a)

-- `a <= b` on texts: the order of code points.
abbrev pub text_le : String → String → Bool
text_le a b = elim (compare a b) [ Nat.Ordering.gt ↦ false | _ ↦ true ]

-- The code points that `str.strip` takes for white space.
unfoldable pub is_space : ℕ → Bool
is_space c =
    (leb 9 c && leb c 13)
    || (leb 28 c && leb c 32)
    || c == 0x85
    || c == 0xa0
    || c == 0x1680
    || (leb 0x2000 c && leb c 0x200a)
    || c == 0x2028
    || c == 0x2029
    || c == 0x202f
    || c == 0x205f
    || c == 0x3000

unfoldable pub lstrip : String → String
unfolding is_space
lstrip String.[] = String.[]
lstrip (String.◌∷◌ c s) = let rest = lstrip s in if is_space (code c) then rest else String.◌∷◌ c s

unfoldable pub rstrip : String → String
unfolding is_space
rstrip String.[] = String.[]
rstrip (String.◌∷◌ c s) = let rest = rstrip s in cons_kept c rest
  where
    cons_kept : Char → String → String
    cons_kept d String.[] = if is_space (code d) then String.[] else String.◌∷◌ d String.[]
    cons_kept d (String.◌∷◌ e t) = String.◌∷◌ d (String.◌∷◌ e t)

-- `value.strip()`
unfoldable pub strip : String → String
unfolding lstrip rstrip
strip s = rstrip (lstrip s)

-- `bool(value)`
abbrev pub truthy : String → Bool
truthy s = not (str_eq s "")

-- `bool(value)` of an optional text: `None` and `""` are false.
abbrev pub some_text : Option String → Bool
some_text none = false
some_text (some s) = truthy s

-- `value in {...}`
unfoldable pub mem_text : String → List String → Bool
unfolding str_eq
mem_text s [] = false
mem_text s (t ∷ ts) = let rest = mem_text s ts in if str_eq s t then true else rest

-- A text that is found is a member.
pub mem_text-Mem : (s : String) (ss : List String) → mem_text s ss ≡ true → Memᴰ s ss
unfolding mem_text
mem_text-Mem s [] h = cc
mem_text-Mem s (t ∷ ts) h =
    if_cases (λ b. b ≡ true → Memᴰ s (t ∷ ts)) (str_eq s t) _ _
      (λ e _. Memᴰ.head ((str_eq_iff s t).0 e)) (λ _ x. Memᴰ.tail (mem_text-Mem s ts x)) h

pub mem_text_here :
    (a k : String) (ks : List String) → str_eq a k ≡ true → mem_text a (k ∷ ks) ≡ true
unfolding mem_text
mem_text_here a k ks e = rw e

pub mem_text_later :
    (a k : String) (ks : List String) → mem_text a ks ≡ true → mem_text a (k ∷ ks) ≡ true
unfolding mem_text
mem_text_later a k ks e = ground arith

-- One step of `sorted(set(...))`.
unfoldable pub insert_text : String → List String → List String
insert_text s [] = s ∷ []
insert_text s (t ∷ ts) =
    let rest = insert_text s ts in
    elim (compare s t) [
      | Nat.Ordering.lt ↦ s ∷ t ∷ ts
      | Nat.Ordering.eq ↦ t ∷ ts
      | Nat.Ordering.gt ↦ t ∷ rest
    ]

-- `tuple(sorted(set(values)))`
unfoldable pub sorted_set : List String → List String
unfolding insert_text
sorted_set [] = []
sorted_set (s ∷ ss) = insert_text s (sorted_set ss)

-- `sorted({value.strip() for value in values if value.strip()})`
unfoldable pub stripped_set : List String → List String
unfolding insert_text strip
stripped_set [] = []
stripped_set (s ∷ ss) =
    let rest = stripped_set ss in if truthy (strip s) then insert_text (strip s) rest else rest

-- `separator.join(parts)`
unfoldable pub join : String → List String → String
join separator [] = ""
join separator (s ∷ []) = s
join separator (s ∷ t ∷ ts) = String.◌++◌ s (String.◌++◌ separator (join separator (t ∷ ts)))

-- No code point of the text is the separator.
unfoldable pub lacks : ℕ → String → Bool
lacks c String.[] = true
lacks c (String.◌∷◌ d s) = let rest = lacks c s in if code d == c then false else rest

-- A character before the first of the parts.
abbrev pub onto_first : Char → List String → List String
onto_first d [] = String.◌∷◌ d String.[] ∷ []
onto_first d (p ∷ ps) = String.◌∷◌ d p ∷ ps

-- `value.split(separator)`, by one code point
unfoldable pub split : ℕ → String → List String
split c String.[] = String.[] ∷ []
split c (String.◌∷◌ d s) =
    let rest = split c s in if code d == c then String.[] ∷ rest else onto_first d rest
