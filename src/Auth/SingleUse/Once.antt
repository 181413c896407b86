-- ===== src/Auth/SingleUse/Once.antt =====
-- The code is exchanged at most once.
use mathlib.Core.Path.{sym, ap, subst}
use kis_portfolio_mcp.Common.{ℕ, ◌+◌, ◌≤◌, ◌≡◌, inl, inr, String, [], length, All, arith}
use kis_portfolio_mcp.Common.Dict.{get, pair_key, text_key}
use kis_portfolio_mcp.Auth.Repository.{
  Store, oauth_codes, id_key, read_code, code_claim, code_claim_seconds,
}
use kis_portfolio_mcp.Auth.Repository.Documents.{stored}
use kis_portfolio_mcp.Auth.SingleUse.{
  Workers, Step, begins, reads, writes, others, Reachable, begun, then_step, IsCode, OfCode,
  Outlives, IsSingle,
}
use kis_portfolio_mcp.Auth.SingleUse.Begin.{begin_step-IsSingle}
use kis_portfolio_mcp.Auth.SingleUse.Consume.{read_code-IsRead, read-IsSingle, write_step-IsSingle}

others-IsSingle :
    (c : String) (e : ℕ) (w : Workers) (later : ℕ) (s : Store)
    → get (code_claim c) s.claims ≡ get (code_claim c) w.store.claims
    → stored oauth_codes (id_key c) s ≡ stored oauth_codes (id_key c) w.store
    → IsSingle c e w
    → IsSingle c e (record w { now = w.now + later; store = s })
others-IsSingle c e w later s claims document h = record {
  document = subst (λ x. IsCode c e x) (sym document) h.document;
  in_time = let t = h.in_time in omega arith;
  records = h.records;
  once = h.once;
  alone = elim h.alone [
    | inl late ↦ inl (omega arith)
    | inr (few, live) ↦ inr (few, λ a. subst (λ x. Outlives e x) (sym claims) (live a))
  ];
}

Step-IsSingle : (c : String) (e : ℕ) (w u : Workers) → Step c w u → IsSingle c e w → IsSingle c e u
Step-IsSingle c e w u (begins _ later owner) h = begin_step-IsSingle c e later owner w h
Step-IsSingle c e w u (reads _ later left one) h =
    let (r, s) = read_code c (w.now + later) w.store in
    read-IsSingle c e later left w r s one (read_code-IsRead c e (w.now + later) w.store h.document)
      h
Step-IsSingle c e w u (writes _ later front back r e_reading) h =
    write_step-IsSingle c e later w front back r e_reading h
Step-IsSingle c e w u (others _ later s claims document) h =
    others-IsSingle c e w later s claims document h

-- Single use under concurrency: of the workers that exchange one code, one at most is let through,
-- however their claims, reads and writes interleave with each other and with steps of others that leave
-- the code's document and claim alone, where no worker had begun and the code expires within the fifteen
-- minutes that a claim lasts.
pub Reachable-once :
    (c : String) (e : ℕ) (w u : Workers)
    → IsCode c e (stored oauth_codes (id_key c) w.store)
    → e ≤ w.now + code_claim_seconds
    → w.pending ≡ 0
    → w.reading ≡ []
    → w.exchanged ≡ 0
    → Reachable c w u
    → u.exchanged ≤ 1
Reachable-once c e w u document t idle unread fresh path =
    let last = (reached u path).once in omega arith
  where
    none_read : length w.reading ≡ 0
    none_read = ap (λ l. length l) unread

    reached : (v : Workers) → Reachable c w v → IsSingle c e v
    reached v begun = record {
      document = document;
      in_time = t;
      records = subst (λ l. All (OfCode c e) l) (sym unread) tt;
      once = omega (arith, none_read);
      alone = inr (omega (arith, none_read), λ a. absurd (omega (arith, none_read)));
    }
    reached v (then_step x _ path step) = Step-IsSingle c e x v step (reached x path)
