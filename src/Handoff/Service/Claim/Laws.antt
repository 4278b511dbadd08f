-- ===== src/Handoff/Service/Claim/Laws.antt =====
-- What a claim that succeeds has stored, and how many an owner has.
use mathlib.Core.Path.{subst}
use openkey.Common.{
  ℕ, ◌≤◌, ◌-◌, String, ◌≡◌, refl, sym, ap, ◌∙◌, true, not, ◌||◌, ◌⊎◌, inl, inr, Option, none, some,
  [], ◌∷◌, ◌++◌, ◌==◌, arith, eq_iff, eq_refl, if◌then◌else◌, find, count, leb, Bool-cases,
}
use openkey.Common.Results.{Result, Result-cases, ok, ◌>>=◌, >>=-eq-ok, reject_if, reject_if-eq-ok}
use openkey.Text.{◌<>◌}
use openkey.Json.{obj}
use openkey.Handoff.Types.{
  PreparedHandoffRecord, PreparedHandoffError, handoff_error, HandoffPlatform, handoff_claimed,
  handoff_replayed,
}
use openkey.Handoff.Store.{Table, collides, is_recent, is_pending, find_row, create_limited}
use openkey.Handoff.Store.Limit.{create_limited-cases}
use openkey.Handoff.Store.Create.{create_limited-limit}
use openkey.Handoff.Service.{active, digest_jwk}
use openkey.Handoff.Service.Claim.{
  Validated, Claimed, claim, grant_expiry, new_row, answer, same_claim,
}

find_row-collides :
    (record_ r : PreparedHandoffRecord) (t : Table)
    → find (collides record_) t ≡ some r
    → (r.ticket_hash == record_.ticket_hash) ≡ true
    → find_row record_.ticket_hash t ≡ some r
unfolding find_row
find_row-collides record_ r [] e k = cc
find_row-collides record_ r (q ∷ t) e k = ground (arith, find_row-collides record_ r t)

find_row-added :
    (record_ : PreparedHandoffRecord) (t : Table)
    → count (collides record_) t ≡ 0
    → find_row record_.ticket_hash (t ++ record_ ∷ []) ≡ some record_
unfolding find_row
find_row-added record_ [] e = ground (arith, eq_refl record_.ticket_hash)
find_row-added record_ (q ∷ t) e = ground (arith, find_row-added record_ t)

-- The row of a claim.
pub record IsClaimed (p : HandoffPlatform) (v : Validated) (user_id : String) (w : Table)
    (c : Claimed) (r : PreparedHandoffRecord) : Type 0 where
  pub found : find_row (p.sha256_hex v.delivery.handoff_id) w ≡ some r
  pub owner : r.owner_id ≡ user_id
  pub nonce : r.nonce_hash ≡ p.sha256_hex ("prepared-handoff-nonce\0" <> v.nonce)
  pub request : digest_jwk p (obj r.request) ≡ digest_jwk p (obj v.request)
  pub state : r.state ≡ v.delivery.state
  pub secret : r.cancel_secret_hash ≡ p.sha256_hex v.delivery.cancel_secret
  pub ticket : c.ticket ≡ v.delivery.handoff_id
  pub expiry : c.expires_at ≡ r.expires_at

module _ (p : HandoffPlatform) (now now' : ℕ) where
  answer-same :
      (handoff_id : String) (record_ r : PreparedHandoffRecord) (u : Table) (c : Claimed)
      → answer p now now' handoff_id record_ u (some r) ≡ ok c
      → (r.owner_id ≡ record_.owner_id)
        × (same_claim p r record_ ≡ true)
        × (c.ticket ≡ handoff_id)
        × (c.expires_at ≡ r.expires_at)
  unfolding answer
  answer-same handoff_id record_ r u c e =
      let (_, one, e1) =
        >>=-eq-ok
          (reject_if (not (r.owner_id == record_.owner_id)) (handoff_error handoff_claimed 403)) _
          e in
      let (_, two, e2) =
        >>=-eq-ok (reject_if (not (same_claim p r record_)) (handoff_error handoff_replayed 409)) _
          e1 in
      let (_, three, e3) =
        >>=-eq-ok
          (if not (is_pending r.status) || leb r.expires_at now
            then (active p now' handoff_id u >>= λ _. ok tt)
            else ok tt)
          _ e2 in
      let owner =
        reject_if-eq-ok (not (r.owner_id == record_.owner_id)) (handoff_error handoff_claimed 403)
          one in
      let same =
        reject_if-eq-ok (not (same_claim p r record_)) (handoff_error handoff_replayed 409) two in
      (ground (arith, eq_iff r.owner_id record_.owner_id), ground arith, ground arith, ground arith)

  answer-IsClaimed :
      (v : Validated) (user_id : String) (expires_at : ℕ) (t u w : Table)
      (stored : Option PreparedHandoffRecord) (c : Claimed)
      → create_limited (new_row p now v user_id expires_at) (now - 300_000) 5 t ≡ (w, stored)
      → answer p now now' v.delivery.handoff_id (new_row p now v user_id expires_at) u stored ≡ ok c
      → (r : PreparedHandoffRecord) × IsClaimed p v user_id w c r
  unfolding same_claim answer
  answer-IsClaimed v user_id expires_at t u w none c made e = absurd (ground arith)
  answer-IsClaimed v user_id expires_at t u w (some r) c made e =
      let record_ = new_row p now v user_id expires_at in
      let (owner, same, ticket, expiry) = answer-same v.delivery.handoff_id record_ r u c e in
      (
        r,
        record {
          found = elim (create_limited-cases record_ (now - 300_000) 5 t w (some r) made) [
            | inl (kept, hit) ↦
                subst (λ x. find_row record_.ticket_hash x ≡ some r) (sym kept)
                  (find_row-collides record_ r t (sym hit) (ground arith))
            | inr (added, hit, fresh, _) ↦
                subst (λ x. find_row record_.ticket_hash x ≡ some r) (sym added)
                  (find_row-added record_ t fresh ∙ sym hit)
          ];
          owner = owner;
          nonce = ground (arith, eq_iff r.nonce_hash record_.nonce_hash);
          request =
              ground (arith, eq_iff (digest_jwk p (obj r.request)) (digest_jwk p (obj v.request)));
          state = ground (arith, eq_iff r.state v.delivery.state);
          secret = ground (arith, eq_iff r.cancel_secret_hash record_.cancel_secret_hash);
          ticket = ticket;
          expiry = expiry;
        },
      )

-- A claim that succeeds leaves a row of its ticket, of the caller, with the hash of its nonce, its
-- state, the hash of its cancellation secret and a request of its digest, and answers the expiry of
-- that row.
pub claim_sound :
    (p : HandoffPlatform) (now now' : ℕ) (v : Validated) (user_id : String) (t u w : Table)
    (c : Claimed)
    → claim p now now' v user_id t u ≡ (w, ok c)
    → (r : PreparedHandoffRecord) × IsClaimed p v user_id w c r
unfolding claim
claim_sound p now now' v user_id t u w c e = elim (Bool-cases (user_id == "")) [
  | inl nobody ↦ absurd (ground arith)
  | inr somebody ↦ elim (Result-cases (grant_expiry p now v)) [
    | inr (x, stale) ↦ absurd (ground (arith, rw (somebody, stale, claim) at e))
    | inl (expires_at, fresh) ↦
        let made = create_limited (new_row p now v user_id expires_at) (now - 300_000) 5 t in
        let e' = rw (somebody, fresh, claim) at e in
        let same : made.0 ≡ w = ap (λ (x : Table × Result PreparedHandoffError Claimed). x.0) e' in
        subst (λ x. (r : PreparedHandoffRecord) × IsClaimed p v user_id x c r) same
          (answer-IsClaimed p now now' v user_id expires_at t u made.0 made.1 c refl
            (ap (λ (x : Table × Result PreparedHandoffError Claimed). x.1) e'))
  ]
]

-- A claim leaves the table as it was, or the caller with at most five handoffs that were requested
-- in the five minutes before.
pub claim_limit :
    (p : HandoffPlatform) (now now' : ℕ) (v : Validated) (user_id : String) (t u : Table)
    → ((claim p now now' v user_id t u).0 ≡ t)
      ⊎ (count (is_recent user_id (now - 300_000)) (claim p now now' v user_id t u).0 ≤ 5)
unfolding claim
claim_limit p now now' v user_id t u = elim (Bool-cases (user_id == "")) [
  | inl nobody ↦ inl (rw nobody refl)
  | inr somebody ↦ elim (Result-cases (grant_expiry p now v)) [
    | inr (x, stale) ↦ inl (rw (somebody, stale, claim) refl)
    | inl (expires_at, fresh) ↦
        rw (somebody, fresh, claim)
          (create_limited-limit (new_row p now v user_id expires_at) (now - 300_000) 5 t
            (create_limited (new_row p now v user_id expires_at) (now - 300_000) 5 t).0
            (create_limited (new_row p now v user_id expires_at) (now - 300_000) 5 t).1 refl)
  ]
]
