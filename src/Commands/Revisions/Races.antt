-- ===== src/Commands/Revisions/Races.antt =====
-- Two writers that read the same revision of an entity: the second one is told.
use mathlib.Core.Path.{sym, ap, ◌∙◌}
use kis_portfolio_mcp.Common.{
  ◌+◌, ◌≡◌, ◌≢◌, refl, String, true, not, Option, none, some, List, [], ◌∷◌, ◌++◌, Result, ok, err,
  arith, str_eq_refl, if_cases, length, length-append, ◌==◌,
}
use kis_portfolio_mcp.Common.Dict.{get, put, pair_key, text_key}
use kis_portfolio_mcp.Commands.Revisions.{
  CommandActor, RevisionWrite, WriteError, revision_conflict, RecordedRevision, Kind, journal,
  thread, RevisionStore, Append, target, with_target, revisions, recorded, key_of, reuse,
  append_new, append, append_on,
}
use kis_portfolio_mcp.Commands.Revisions.Concurrency.{
  put-revisions, same_kind, idempotency-revisions,
}

module _ {D : Type 0} (fingerprint : D → String) where
  same_kind_refl : (k : Kind) → same_kind k k ≡ true
  same_kind_refl journal = refl
  same_kind_refl thread = refl

  put-revisions_self :
      (k : Kind) (i : String) (xs : List (RecordedRevision D)) (s : RevisionStore D)
      → revisions k i (with_target k (put i xs (target k s)) s) ≡ xs
  put-revisions_self k i xs s =
      ground (arith, put-revisions fingerprint k k i i xs s, same_kind_refl k, str_eq_refl i)

  append_new_refused :
      (r : Append D) (actor : CommandActor) (s : RevisionStore D)
      → length (revisions r.kind r.identity s) ≢ r.expected
      → (append_new fingerprint r actor s).0 ≡ err revision_conflict
  unfolding append_new
  append_new_refused r actor s h = ground arith

  append_new_counted :
      (r : Append D) (actor : CommandActor) (s s' : RevisionStore D) (w : RevisionWrite)
      → append_new fingerprint r actor s ≡ (ok w, s')
      → length (revisions r.kind r.identity s) ≡ r.expected
  unfolding append_new
  append_new_counted r actor s s' w h = ground arith

  append_new_grows :
      (r : Append D) (actor : CommandActor) (s : RevisionStore D)
      → length (revisions r.kind r.identity s) ≡ r.expected
      → length (revisions r.kind r.identity (append_new fingerprint r actor s).1) ≡ r.expected + 1
  unfolding append_new
  append_new_grows r actor s h =
      let present = revisions r.kind r.identity s in
      let grown = present ++ (recorded r actor ∷ []) in
      if_cases
        (λ (p : Result WriteError RevisionWrite × RevisionStore D).
          length (revisions r.kind r.identity p.1) ≡ r.expected + 1)
        (not (length present == r.expected)) _ _ (λ c. ground arith)
        λ c.
          ap length (
            idempotency-revisions fingerprint r.kind r.identity _ _
            ∙ put-revisions_self r.kind r.identity grown s)
          ∙ length-append present (recorded r actor ∷ [])
          ∙ ap (λ n. n + 1) h

  append_inserted :
      (r : Append D) (actor : CommandActor) (s s' : RevisionStore D) (w : RevisionWrite)
      (o : Option (String × RevisionWrite))
      → append_on fingerprint r actor s o ≡ (ok w, s')
      → w.inserted ≡ true
      → append_new fingerprint r actor s ≡ (ok w, s')
  unfolding reuse
  append_inserted r actor s s' w none e i = e
  append_inserted r actor s s' w (some prior) e i = ground arith

  append_fresh :
      (r : Append D) (actor : CommandActor) (s : RevisionStore D)
      → get (key_of r) s.idempotency ≡ none
      → append fingerprint r actor s ≡ append_new fingerprint r actor s
  unfolding append
  append_fresh r actor s e = ap (append_on fingerprint r actor s) e

  -- No lost update: after an append to an entity that was inserted, every append to the same entity
  -- with the same expected revision, under a key not used before, is refused as a conflict.
  pub append_lost_update :
      (r r' : Append D) (actor actor' : CommandActor) (s s' : RevisionStore D) (w : RevisionWrite)
      → append fingerprint r actor s ≡ (ok w, s')
      → w.inserted ≡ true
      → r'.kind ≡ r.kind
      → r'.identity ≡ r.identity
      → r'.expected ≡ r.expected
      → get (key_of r') s'.idempotency ≡ none
      → (append fingerprint r' actor' s').0 ≡ err revision_conflict
  unfolding append
  append_lost_update r r' actor actor' s s' w e i k n x fresh =
      let q = append_inserted r actor s s' w (get (key_of r) s.idempotency) e i in
      let grown = append_new_grows r actor s (append_new_counted r actor s s' w q) in
      let here : length (revisions r'.kind r'.identity s') ≡ r.expected + 1 =
        ap (λ k. length (revisions k r'.identity s')) k
        ∙ ap (λ n. length (revisions r.kind n s')) n
        ∙ ap
            (λ (p : Result WriteError RevisionWrite × RevisionStore D).
              length (revisions r.kind r.identity p.1))
            (sym q)
        ∙ grown in
      ap (λ (p : Result WriteError RevisionWrite × RevisionStore D). p.0)
        (append_fresh r' actor' s' fresh)
      ∙ append_new_refused r' actor' s' (λ z. omega arith)
