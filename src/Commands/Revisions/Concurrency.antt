-- ===== src/Commands/Revisions/Concurrency.antt =====
-- What the append-only revisions promise to writers that race or retry.
use mathlib.Core.Path.{subst, sym, ap, ◌∙◌}
use kis_portfolio_mcp.Common.{
  ℕ, ◌+◌, ◌≡◌, ◌≢◌, refl, String, Bool, true, false, not, Option, none, some, List, [], ◌∷◌, ◌++◌,
  Result, ok, err, arith, str_eq, str_eq_iff, if◌then◌else◌, if_cases, length, ◌==◌, Bool-cases,
  ◌&&◌, inl, inr, ◌⊎◌,
}
use kis_portfolio_mcp.Common.Dict.{Dict, get, put, get-put, get-put_self, text_key, pair_key}
use kis_portfolio_mcp.Commands.Revisions.{
  CommandActor, RevisionWrite, WriteError, idempotency_conflict, revision_conflict,
  RecordedRevision, Kind, journal, thread, RevisionStore, Append, target, with_target, revisions,
  recorded, key_of, reuse, append_new, append, append_on,
}

abbrev pub same_kind : Kind → Kind → Bool
same_kind journal journal = true
same_kind thread thread = true
same_kind _ _ = false

module _ {D : Type 0} (fingerprint : D → String) where
  -- Revisions are numbered from `n + 1` on, without a gap.
  abbrev pub NumberedFrom : ℕ → List (RecordedRevision D) → Type 0
  NumberedFrom n [] = Unit
  NumberedFrom n (x ∷ xs) = (x.revision ≡ n + 1) × NumberedFrom (n + 1) xs

  -- Every entity's revisions are numbered 1, 2, 3 and so on.
  pub record IsNumbered (s : RevisionStore D) : Type 0 where
    pub numbered : (kind : Kind) (identity : String) → NumberedFrom 0 (revisions kind identity s)

  NumberedFrom-append :
      (n : ℕ) (xs : List (RecordedRevision D)) (x : RecordedRevision D)
      → NumberedFrom n xs
      → x.revision ≡ n + length xs + 1
      → NumberedFrom n (xs ++ (x ∷ []))
  NumberedFrom-append n [] x h e = (omega arith, tt)
  NumberedFrom-append n (y ∷ xs) x h e = (h.0, NumberedFrom-append (n + 1) xs x h.1 (omega arith))

  pub put-revisions :
      (k kind : Kind) (i identity : String) (xs : List (RecordedRevision D)) (s : RevisionStore D)
      → revisions kind identity (with_target k (put i xs (target k s)) s)
        ≡ (if same_kind k kind && str_eq i identity then xs else revisions kind identity s)
  put-revisions journal journal i identity xs s = ground (arith, get-put i identity xs s.journals)
  put-revisions thread thread i identity xs s = ground (arith, get-put i identity xs s.threads)
  put-revisions journal thread i identity xs s = refl
  put-revisions thread journal i identity xs s = refl

  same_revisions :
      (k kind : Kind) (i identity : String) (s : RevisionStore D)
      → (same_kind k kind && str_eq i identity) ≡ true
      → revisions k i s ≡ revisions kind identity s
  same_revisions journal journal i identity s h =
      ap (λ n. revisions journal n s) ((str_eq_iff i identity).0 h)
  same_revisions thread thread i identity s h =
      ap (λ n. revisions thread n s) ((str_eq_iff i identity).0 h)
  same_revisions journal thread i identity s h = cc
  same_revisions thread journal i identity s h = cc

  pub idempotency-revisions :
      (kind : Kind) (identity : String) (keys : Dict (String × String) (String × RevisionWrite))
      (s : RevisionStore D)
      → revisions kind identity (record s { idempotency = keys }) ≡ revisions kind identity s
  idempotency-revisions journal identity keys s = refl
  idempotency-revisions thread identity keys s = refl

  -- What an append leaves of an entity's revisions: they stay, or one is added at their end.
  abbrev Extends :
      Append D → CommandActor → RevisionStore D → RevisionStore D → Kind → String → Type 0
  Extends r actor s s' kind identity =
      (revisions kind identity s' ≡ revisions kind identity s)
      ⊎ ((r.expected ≡ length (revisions kind identity s))
          × (revisions kind identity s' ≡ revisions kind identity s ++ (recorded r actor ∷ [])))

  append_new-Extends :
      (r : Append D) (actor : CommandActor) (s : RevisionStore D) (kind : Kind) (identity : String)
      → Extends r actor s (append_new fingerprint r actor s).1 kind identity
  unfolding append_new
  append_new-Extends r actor s kind identity =
      let present = revisions r.kind r.identity s in
      let same = same_kind r.kind kind && str_eq r.identity identity in
      let here = put-revisions r.kind kind r.identity identity in
      if_cases
        (λ (p : Result WriteError RevisionWrite × RevisionStore D).
          Extends r actor s p.1 kind identity)
        (not (length present == r.expected)) _ _
        (λ _. inl (
          here present s
          ∙ if_cases (λ x. x ≡ revisions kind identity s) same present (revisions kind identity s)
              (same_revisions r.kind kind r.identity identity s) (λ _. refl)))
        λ counted. elim (Bool-cases same) [
          | inl e ↦
              (let eq = same_revisions r.kind kind r.identity identity s e in
                inr (
                  ground (arith, ap length eq),
                  idempotency-revisions kind identity _ _
                      ∙ here (present ++ (recorded r actor ∷ [])) s
                      ∙ rw e (ap (λ x. x ++ (recorded r actor ∷ [])) eq),
                ))
          | inr e ↦ inl (
              idempotency-revisions kind identity _ _
              ∙ here (present ++ (recorded r actor ∷ [])) s
              ∙ rw e)
        ]

  reuse_keeps :
      (r : Append D) (prior : String × RevisionWrite) (s : RevisionStore D)
      → (reuse fingerprint r prior s).1 ≡ s
  unfolding reuse
  reuse_keeps r prior s = ground arith

  append-Extends :
      (r : Append D) (actor : CommandActor) (s : RevisionStore D) (kind : Kind) (identity : String)
      → Extends r actor s (append fingerprint r actor s).1 kind identity
  unfolding append
  append-Extends r actor s kind identity = go (get (key_of r) s.idempotency)
    where
      go :
          (o : Option (String × RevisionWrite))
          → Extends r actor s (append_on fingerprint r actor s o).1 kind identity
      go none = append_new-Extends r actor s kind identity
      go (some prior) = inl (ap (revisions kind identity) (reuse_keeps r prior s))

  -- Appending keeps every entity's revisions numbered without a gap, whatever the request.
  pub append-IsNumbered :
      (r : Append D) (actor : CommandActor) (s : RevisionStore D)
      → IsNumbered s
      → IsNumbered (append fingerprint r actor s).1
  append-IsNumbered r actor s h = record {
    numbered = λ kind identity. elim (append-Extends r actor s kind identity) [
      | inl e ↦ subst (NumberedFrom 0) (sym e) (h.numbered kind identity)
      | inr (n, e) ↦ subst (NumberedFrom 0) (sym e) (
          NumberedFrom-append 0 (revisions kind identity s) (recorded r actor)
            (h.numbered kind identity) (omega arith))
    ];
  }

  -- A key on record stands for the document of the request and for the write.
  abbrev StandsFor : Append D → RevisionWrite → Option (String × RevisionWrite) → Type 0
  StandsFor r w none = ⊥
  StandsFor r w (some (print, old)) =
      (print ≡ fingerprint r.document) × (old.entity_id ≡ w.entity_id) × (old.revision ≡ w.revision)

  append_new_key :
      (r : Append D) (actor : CommandActor) (s s' : RevisionStore D) (w : RevisionWrite)
      → append_new fingerprint r actor s ≡ (ok w, s')
      → s'.idempotency ≡ put (key_of r) (fingerprint r.document, w) s.idempotency
  unfolding append_new
  append_new_key r actor s s' w h = ground arith

  reuse_key :
      (r : Append D) (print : String) (old w : RevisionWrite) (s s' : RevisionStore D)
      → reuse fingerprint r (print, old) s ≡ (ok w, s')
      → (s' ≡ s)
        × (print ≡ fingerprint r.document)
        × (w ≡ record { entity_id = old.entity_id; revision = old.revision; inserted = false })
  unfolding reuse
  reuse_key r print old w s s' h =
      (ground arith, ground (arith, str_eq_iff print (fingerprint r.document)), ground arith)

  append-StandsFor :
      (r : Append D) (actor : CommandActor) (s s' : RevisionStore D) (w : RevisionWrite)
      → append fingerprint r actor s ≡ (ok w, s')
      → StandsFor r w (get (key_of r) s'.idempotency)
  unfolding append
  append-StandsFor r actor s s' w h = go (get (key_of r) s.idempotency) refl h
    where
      go :
          (o : Option (String × RevisionWrite))
          → get (key_of r) s.idempotency ≡ o
          → append_on fingerprint r actor s o ≡ (ok w, s')
          → StandsFor r w (get (key_of r) s'.idempotency)
      go none e q =
          subst (StandsFor r w)
            (sym (
              ap (get (key_of r)) (append_new_key r actor s s' w q)
              ∙ get-put_self (key_of r) (fingerprint r.document, w) s.idempotency))
            (refl, refl, refl)
      go (some (print, old)) e q =
          let (same, same_print, shown) = reuse_key r print old w s s' q in
          subst (StandsFor r w)
            (sym (ap (λ (x : RevisionStore D). get (key_of r) x.idempotency) same ∙ e))
            (
              same_print,
              ap (λ (x : RevisionWrite). x.entity_id) (sym shown),
              ap (λ (x : RevisionWrite). x.revision) (sym shown),
            )

  pub append_known :
      (r : Append D) (actor : CommandActor) (s : RevisionStore D) (print : String)
      (old : RevisionWrite)
      → get (key_of r) s.idempotency ≡ some (print, old)
      → append fingerprint r actor s ≡ reuse fingerprint r (print, old) s
  unfolding append
  append_known r actor s print old e = ap (append_on fingerprint r actor s) e

  -- A retry writes nothing: after a successful append, the same request again, by whatever actor,
  -- returns the same entity and revision as not inserted, and leaves the store as it was.
  pub append_retry :
      (r : Append D) (actor actor' : CommandActor) (s s' : RevisionStore D) (w : RevisionWrite)
      → append fingerprint r actor s ≡ (ok w, s')
      → append fingerprint r actor' s' ≡ (ok (record w { inserted = false }), s')
  unfolding reuse
  append_retry r actor actor' s s' w h =
      go (get (key_of r) s'.idempotency) refl (append-StandsFor r actor s s' w h)
    where
      go :
          (o : Option (String × RevisionWrite))
          → get (key_of r) s'.idempotency ≡ o
          → StandsFor r w o
          → append fingerprint r actor' s' ≡ (ok (record w { inserted = false }), s')
      go none e q = absurd q
      go (some (print, old)) e (p, i, n) =
          append_known r actor' s' print old e
          ∙ ground (arith, str_eq_iff print (fingerprint r.document))

  -- A key that was used for one document is refused for any other: the store stays as it is.
  pub append_key_reused :
      (r r' : Append D) (actor actor' : CommandActor) (s s' : RevisionStore D) (w : RevisionWrite)
      → append fingerprint r actor s ≡ (ok w, s')
      → key_of r' ≡ key_of r
      → fingerprint r'.document ≢ fingerprint r.document
      → append fingerprint r' actor' s' ≡ (err idempotency_conflict, s')
  unfolding reuse
  append_key_reused r r' actor actor' s s' w h k ne =
      go (get (key_of r) s'.idempotency) refl (append-StandsFor r actor s s' w h)
    where
      go :
          (o : Option (String × RevisionWrite))
          → get (key_of r) s'.idempotency ≡ o
          → StandsFor r w o
          → append fingerprint r' actor' s' ≡ (err idempotency_conflict, s')
      go none e q = absurd q
      go (some (print, old)) e (p, i, n) =
          append_known r' actor' s' print old (ap (λ x. get x s'.idempotency) k ∙ e)
          ∙ ground (arith, str_eq_iff print (fingerprint r'.document))

  append_new_refused :
      (r : Append D) (actor : CommandActor) (s : RevisionStore D)
      → length (revisions r.kind r.identity s) ≢ r.expected
      → (append_new fingerprint r actor s).0 ≡ err revision_conflict
  unfolding append_new
  append_new_refused r actor s h = ground arith
