-- ===== src/Auth/SingleUse/Consume.antt =====
-- A worker reads the code, which is gone once it has expired, and writes that it is consumed.
use mathlib.Core.Path.{◌∙◌, sym, ap, subst}
use kis_portfolio_mcp.Common.{
  ℕ, ◌+◌, ◌≤◌, ◌<◌, ◌≡◌, inl, inr, refl, suc, String, false, ◌||◌, Option, none, some, List, [],
  ◌∷◌, ◌++◌, length, All, arith, if_cases,
}
use kis_portfolio_mcp.Common.Dict.{get, pair_key, text_key, get-remove_self}
use kis_portfolio_mcp.Commands.Store.{get_value, drop_expired, is_expired}
use kis_portfolio_mcp.Auth.Records.{
  CodeRecord, AuthDocument, code_document, token_document, index_document, as_code,
}
use kis_portfolio_mcp.Auth.Repository.{
  Store, oauth_codes, id_key, put_code, is_some, open_code, mark_consumed, consumed_record,
  read_code, code_claim,
}
use kis_portfolio_mcp.Auth.Repository.Documents.{Stored, stored, put_code-id, put_code-claims}
use kis_portfolio_mcp.Auth.SingleUse.{
  Workers, with_read, write_step, busy, IsCode, OfCode, Outlives, IsSingle,
}

-- What reading does to the document and to the claims, and which record it finds.
abbrev pub IsRead : String → ℕ → ℕ → Store → Option CodeRecord × Store → Type 0
IsRead c e now s (none, s') = IsCode c e (stored oauth_codes (id_key c) s') × (s'.claims ≡ s.claims)
IsRead c e now s (some r, s') =
    IsCode c e (stored oauth_codes (id_key c) s')
    × (s'.claims ≡ s.claims)
    × OfCode c e r
    × (now < e)

read_on : String → ℕ → Store → Stored → Option CodeRecord × Store
read_on c now s o =
    let (document, s') = drop_expired (oauth_codes, id_key c) s now o in
    (open_code (as_code document), s')

open_code-IsRead :
    (c : String) (e now : ℕ) (r : CodeRecord) (s : Store)
    → OfCode c e r
    → now < e
    → IsCode c e (stored oauth_codes (id_key c) s)
    → IsRead c e now s (open_code (some r), s)
unfolding open_code
open_code-IsRead c e now r s of_code early h =
    if_cases (λ o. IsRead c e now s (o, s)) (is_some r.consumed_at || is_some r.revoked_at) _ _
      (λ _. (h, refl)) (λ _. (h, refl, of_code, early))

read_on-IsRead :
    (c : String) (e now : ℕ) (s : Store) (o : Stored)
    → stored oauth_codes (id_key c) s ≡ o
    → IsCode c e o
    → IsRead c e now s (read_on c now s o)
unfolding open_code read_on
read_on-IsRead c e now s none g h = (subst (λ x. IsCode c e x) (sym g) h, refl)
read_on-IsRead c e now s (some (token_document r, x)) g h = absurd h
read_on-IsRead c e now s (some (index_document ids, x)) g h = absurd h
read_on-IsRead c e now s (some (code_document r, x)) g (id, expires, until) =
    if_cases (λ (y : Option AuthDocument × Store). IsRead c e now s (open_code (as_code y.0), y.1))
      (is_expired x now) _ _
      (λ _. (
        subst (λ y. IsCode c e y) (sym (get-remove_self (oauth_codes, id_key c) s.values)) tt,
        refl,
      ))
      (λ live.
        let fresh : is_expired (some e) now ≡ false =
          ap (λ y. is_expired y now) (sym until) ∙ live in
        open_code-IsRead c e now r s (id, expires) (ground arith)
          (subst (λ y. IsCode c e y) (sym g) (id, expires, until)))

pub read_code-IsRead :
    (c : String) (e now : ℕ) (s : Store)
    → IsCode c e (stored oauth_codes (id_key c) s)
    → IsRead c e now s (read_code c now s)
unfolding read_code read_on get_value
read_code-IsRead c e now s h = read_on-IsRead c e now s _ refl h

pub read-IsSingle :
    (c : String) (e later left : ℕ) (w : Workers) (r : Option CodeRecord) (s : Store)
    → w.pending ≡ suc left
    → IsRead c e (w.now + later) w.store (r, s)
    → IsSingle c e w
    → IsSingle c e (record {
      now = w.now + later;
      store = s;
      pending = left;
      reading = with_read r w.reading;
      exchanged = w.exchanged;
    })
read-IsSingle c e later left w (some r) s one (document, claims, of_code, early) h =
    let t = h.in_time in
    let (few, live) : (busy w ≤ 1) × (1 ≤ busy w → Outlives e (get (code_claim c) w.store.claims)) =
      elim h.alone [ inl late ↦ absurd (omega arith) | inr both ↦ both ] in
    record {
      document = document;
      in_time = omega arith;
      records = (of_code, h.records);
      once = omega arith;
      alone = inr (
        omega arith,
        λ a. subst (λ d. Outlives e (get (code_claim c) d)) (sym claims) (live (omega arith)),
      );
    }
read-IsSingle c e later left w none s one (document, claims) h =
    let t = h.in_time in
    record {
      document = document;
      in_time = omega arith;
      records = h.records;
      once = h.once;
      alone = elim h.alone [
        | inl late ↦ inl (omega arith)
        | inr (few, live) ↦ inr (
          omega arith,
          λ a. subst (λ d. Outlives e (get (code_claim c) d)) (sym claims) (live (omega arith)),
        )
      ];
    }

-- One of the records, taken out.
All-taken :
    (c : String) (e : ℕ) (r : CodeRecord) (front back : List CodeRecord)
    → All (OfCode c e) (front ++ (r ∷ back))
    → OfCode c e r × All (OfCode c e) (front ++ back)
All-taken c e r [] back (h, t) = (h, t)
All-taken c e r (x ∷ front) back (h, t) = let (p, q) = All-taken c e r front back t in (p, (h, q))

length-taken :
    (r : CodeRecord) (front back : List CodeRecord)
    → length (front ++ (r ∷ back)) ≡ length (front ++ back) + 1
length-taken r [] back = omega arith
length-taken r (x ∷ front) back = omega (arith, length-taken r front back)

put_code-IsCode :
    (c : String) (e : ℕ) (r : CodeRecord) (s : Store)
    → OfCode c e r
    → IsCode c e (stored oauth_codes (id_key c) (put_code r s))
put_code-IsCode c e r s (id, expires) =
    subst (λ k. IsCode c e (stored oauth_codes (id_key k) (put_code r s))) id
      (subst (λ x. IsCode c e x) (sym (put_code-id r s)) (id, expires, ap (λ n. some n) expires))

pub write_step-IsSingle :
    (c : String) (e later : ℕ) (w : Workers) (front back : List CodeRecord) (r : CodeRecord)
    → w.reading ≡ front ++ (r ∷ back)
    → IsSingle c e w
    → IsSingle c e (write_step later r (front ++ back) w)
unfolding mark_consumed
write_step-IsSingle c e later w front back r e_reading h =
    let now = w.now + later in
    let (of_code, others) =
      All-taken c e r front back (subst (λ l. All (OfCode c e) l) e_reading h.records) in
    let count : length w.reading ≡ length (front ++ back) + 1 =
      ap (λ l. length l) e_reading ∙ length-taken r front back in
    let t = h.in_time in
    let once = h.once in
    let same = put_code-claims (consumed_record now r) w.store in
    record {
      document = put_code-IsCode c e (consumed_record now r) w.store of_code;
      in_time = omega arith;
      records = others;
      once = omega arith;
      alone = elim h.alone [
        | inl late ↦ inl (omega arith)
        | inr (few, live) ↦ inr (
          omega arith,
          λ a. subst (λ d. Outlives e (get (code_claim c) d)) (sym same) (live (omega arith)),
        )
      ];
    }
