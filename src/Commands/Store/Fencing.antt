-- ===== src/Commands/Store/Fencing.antt =====
-- What claims promise: one holder at a time, and fencing tokens that only grow.
use kis_portfolio_mcp.Common.{
  ℕ, ◌+◌, ◌<◌, ◌≡◌, ◌↔◌, refl, String, true, false, some, List, [], ◌∷◌, arith, str_eq, str_eq_iff,
  if◌then◌else◌, if_cases, ◌&&◌,
}
use mathlib.Core.Path.{subst}
use kis_portfolio_mcp.Common.Dict.{get, get-put, get-put_self, get-remove_self, text_key}
use kis_portfolio_mcp.Commands.Store.{StateStore, ClaimResult, claim, release, refused, or_zero}

-- An operation on the claims, by any owner at any time.
pub data Op : Type 0 where
  claim_op : String → String → ℕ → ℕ → Op
  release_op : String → String → ℕ → Op

-- The token that an operation acquires for a resource.
abbrev token_of : String → String → ClaimResult → List ℕ → List ℕ
token_of r resource c rest =
    if str_eq resource r && c.acquired then c.fencing_token ∷ rest else rest

-- Each token is greater than the one before it.
abbrev pub GrowFrom : ℕ → List ℕ → Type 0
GrowFrom n [] = Unit
GrowFrom n (t ∷ ts) = (n < t) × GrowFrom t ts

module _ {V : Type 0} where
  -- The last token handed out for a resource.
  abbrev pub last_token : String → StateStore V → ℕ
  last_token r s = or_zero (get r s.fencing)

  -- The tokens acquired for the resource `r` in a run of operations, in order.
  unfoldable pub tokens : String → List Op → StateStore V → List ℕ
  tokens r [] s = []
  tokens r (claim_op resource owner ttl now ∷ ops) s =
      let (c, s') = claim resource owner ttl now s in token_of r resource c (tokens r ops s')
  tokens r (release_op resource owner token ∷ ops) s =
      tokens r ops (release resource owner token s).1

  claim-tokens :
      (r resource owner : String) (ttl now : ℕ) (s : StateStore V)
      → let (c, s') = claim resource owner ttl now s in
        ((str_eq resource r && c.acquired) ≡ true
          → (c.fencing_token ≡ last_token r s + 1) × (last_token r s' ≡ c.fencing_token))
        × ((str_eq resource r && c.acquired) ≡ false → last_token r s' ≡ last_token r s)
  unfolding claim
  claim-tokens r resource owner ttl now s =
      let p = get-put resource r (last_token resource s + 1) s.fencing in
      ((λ a. ground (arith, p, str_eq_iff resource r)), (λ a. ground (arith, p)))

  release-last_token :
      (r resource owner : String) (token : ℕ) (s : StateStore V)
      → last_token r (release resource owner token s).1 ≡ last_token r s
  unfolding release
  release-last_token r resource owner token s = ground arith

  -- Fencing: whatever claims and releases are made, by whom and when, the tokens that are acquired
  -- for a resource grow strictly, beginning above the last one handed out.
  pub tokens-GrowFrom :
      (r : String) (ops : List Op) (s : StateStore V) → GrowFrom (last_token r s) (tokens r ops s)
  unfolding tokens
  tokens-GrowFrom r [] s = tt
  tokens-GrowFrom r (release_op resource owner token ∷ ops) s =
      rw (← release-last_token r resource owner token s)
        (tokens-GrowFrom r ops (release resource owner token s).1)
  tokens-GrowFrom r (claim_op resource owner ttl now ∷ ops) s =
      let (c, s') = claim resource owner ttl now s in
      let (taken, kept) = claim-tokens r resource owner ttl now s in
      let later : GrowFrom (last_token r s') (tokens r ops s') = tokens-GrowFrom r ops s' in
      if_cases (GrowFrom (last_token r s)) (str_eq resource r && c.acquired)
        (c.fencing_token ∷ tokens r ops s') (tokens r ops s')
        (λ e.
          (omega (arith, (taken e).0), subst (λ n. GrowFrom n (tokens r ops s')) (taken e).1 later))
        (λ e. subst (λ n. GrowFrom n (tokens r ops s')) (kept e) later)

  -- An acquired claim is the one on record, with the owner and the time that were asked for.
  pub claim_recorded :
      (resource owner : String) (ttl now : ℕ) (s s' : StateStore V) (c : ClaimResult)
      → claim resource owner ttl now s ≡ (c, s')
      → c.acquired ≡ true
      → (get resource s'.claims ≡ some c) × (c.owner_id ≡ owner) × (c.expires_at ≡ now + ttl)
  unfolding claim
  claim_recorded resource owner ttl now s s' c e a =
      ground (arith, get-put_self resource c s.claims)

  pub claim_live :
      (resource owner : String) (ttl now : ℕ) (s : StateStore V) (c : ClaimResult)
      → get resource s.claims ≡ some c
      → now < c.expires_at
      → claim resource owner ttl now s ≡ (refused (some c), s)
  unfolding claim
  claim_live resource owner ttl now s c e h = ground arith

  -- While an acquired claim is live, every other claim of the resource is refused: it is told the
  -- holder's name and token, and the store is left as it was.
  pub claim_exclusive :
      (resource first second : String) (ttl now ttl' later : ℕ) (s s' : StateStore V)
      (c : ClaimResult)
      → claim resource first ttl now s ≡ (c, s')
      → c.acquired ≡ true
      → later < now + ttl
      → (d : ClaimResult) × (claim resource second ttl' later s' ≡ (d, s'))
        × (d.acquired ≡ false)
        × (d.owner_id ≡ first)
        × (d.fencing_token ≡ c.fencing_token)
  claim_exclusive resource first second ttl now ttl' later s s' c e a h =
      let (held, owner, expires) = claim_recorded resource first ttl now s s' c e a in
      (
        refused (some c),
        claim_live resource second ttl' later s' c held (omega arith),
        refl,
        owner,
        refl,
      )

  pub release_held :
      (resource owner : String) (token : ℕ) (s : StateStore V) (c : ClaimResult)
      → get resource s.claims ≡ some c
      → c.owner_id ≡ owner
      → ((release resource owner token s).0 ≡ true) ↔ (token ≡ c.fencing_token)
  unfolding release
  release_held resource owner token s c e o = (
    λ h. ground (arith, str_eq_iff c.owner_id owner),
    λ h. ground (arith, str_eq_iff c.owner_id owner),
  )

  released_free :
      (resource owner other : String) (token ttl now : ℕ) (s : StateStore V)
      → (release resource owner token s).0 ≡ true
      → (claim resource other ttl now (release resource owner token s).1).0.acquired ≡ true
  unfolding claim release
  released_free resource owner other token ttl now s h =
      ground (arith, get-remove_self resource s.claims)

  -- The holder of a claim releases it exactly with the claim's own fencing token, never with that
  -- of another claim; and then anybody can claim the resource at once.
  pub release_fenced :
      (resource owner other : String) (ttl now token ttl' later : ℕ) (s s' : StateStore V)
      (c : ClaimResult)
      → claim resource owner ttl now s ≡ (c, s')
      → c.acquired ≡ true
      → (((release resource owner token s').0 ≡ true) ↔ (token ≡ c.fencing_token))
        × ((claim resource other ttl' later
              (release resource owner c.fencing_token s').1).0.acquired
            ≡ true)
  release_fenced resource owner other ttl now token ttl' later s s' c e a =
      let (held, o, _) = claim_recorded resource owner ttl now s s' c e a in
      (
        release_held resource owner token s' c held o,
        released_free resource owner other c.fencing_token ttl' later s'
            ((release_held resource owner c.fencing_token s' c held o).1 refl),
      )
