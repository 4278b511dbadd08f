-- ===== src/Handoff/Store/Laws.antt =====
-- What the operations of the store do to the row of a ticket, and what every row keeps.
use mathlib.Core.Option
use openkey.Common.{
  ℕ, String, ◌≡◌, refl, ◌∙◌, Bool, true, ◌⊎◌, inr, Option, none, some, [], ◌∷◌, ◌==◌, arith, eq_iff,
  if◌then◌else◌, find-Has, is_some,
}
use openkey.Handoff.Types.{pending, consumed, PreparedHandoffRecord}
use openkey.Handoff.Store.{
  Table, holds, find_row, update, can_bind, set_bound, can_reserve, set_consumed, can_cancel,
  set_cancelled,
}

pub holds-some : (o : Option String) (s : String) → holds o s ≡ true → o ≡ some s
holds-some none s h = cc
holds-some (some t) s h = ground (arith, eq_iff t s)

pub find_row-key :
    (hash : String) (t : Table) (r : PreparedHandoffRecord)
    → find_row hash t ≡ some r
    → r.ticket_hash ≡ hash
unfolding find_row
find_row-key hash t r e =
    ground (arith, (find-Has (λ q. q.ticket_hash == hash) t r e).0, eq_iff r.ticket_hash hash)

pub find_row-update :
    (hash other : String) (change : PreparedHandoffRecord → PreparedHandoffRecord) (t : Table)
    → ((r : PreparedHandoffRecord) → (change r).ticket_hash ≡ r.ticket_hash)
    → find_row other (update hash change t)
      ≡ (if other == hash then Option.map change (find_row other t) else find_row other t)
unfolding find_row update
find_row-update hash other change [] k = ground arith
find_row-update hash other change (r ∷ t) k = ground (
  arith,
  k r,
  eq_iff r.ticket_hash hash,
  eq_iff r.ticket_hash other,
  eq_iff other hash,
  find_row-update hash other change t k,
)

-- A request is bound to a context and a key together, and is signed only in one.
pub record IsWell (r : PreparedHandoffRecord) : Type 0 where
  pub bound_together : is_some r.context_token_hash ≡ is_some r.selected_key_id
  pub signed_in_context : (r.status ≡ consumed) → is_some r.context_token_hash ≡ true

-- What a row keeps for good: what was claimed, and from then on its context and its end.
pub record Evolves (r s : PreparedHandoffRecord) : Type 0 where
  pub same_ticket : r.ticket_hash ≡ s.ticket_hash
  pub same_secret : r.cancel_secret_hash ≡ s.cancel_secret_hash
  pub same_nonce : r.nonce_hash ≡ s.nonce_hash
  pub same_request : r.request ≡ s.request
  pub same_state : r.state ≡ s.state
  pub same_expiry : r.expires_at ≡ s.expires_at
  pub same_owner : r.owner_id ≡ s.owner_id
  pub stays_bound :
      (r.context_token_hash ≡ none)
      ⊎ ((s.context_token_hash ≡ r.context_token_hash) × (s.selected_key_id ≡ r.selected_key_id))
  pub stays_ended :
      (r.status ≡ pending)
      ⊎ ((s.status ≡ r.status)
          × (s.context_token_hash ≡ r.context_token_hash)
          × (s.selected_key_id ≡ r.selected_key_id))

pub Evolves-refl : (r : PreparedHandoffRecord) → Evolves r r
Evolves-refl r = record {
  same_ticket = refl;
  same_secret = refl;
  same_nonce = refl;
  same_request = refl;
  same_state = refl;
  same_expiry = refl;
  same_owner = refl;
  stays_bound = inr (refl, refl);
  stays_ended = inr (refl, refl, refl);
}

pub Evolves-trans : (r s u : PreparedHandoffRecord) → Evolves r s → Evolves s u → Evolves r u
Evolves-trans r s u a b = record {
  same_ticket = a.same_ticket ∙ b.same_ticket;
  same_secret = a.same_secret ∙ b.same_secret;
  same_nonce = a.same_nonce ∙ b.same_nonce;
  same_request = a.same_request ∙ b.same_request;
  same_state = a.same_state ∙ b.same_state;
  same_expiry = a.same_expiry ∙ b.same_expiry;
  same_owner = a.same_owner ∙ b.same_owner;
  stays_bound = ground (arith, a.stays_bound, b.stays_bound);
  stays_ended = ground (arith, a.stays_ended, b.stays_ended);
}

-- A guarded change that keeps the row's key, its form and what it has for good.
pub record Keeps (guard : PreparedHandoffRecord → Bool)
    (change : PreparedHandoffRecord → PreparedHandoffRecord) : Type 0 where
  pub key : (r : PreparedHandoffRecord) → (change r).ticket_hash ≡ r.ticket_hash
  pub owner : (r : PreparedHandoffRecord) → (change r).owner_id ≡ r.owner_id
  pub nonce : (r : PreparedHandoffRecord) → (change r).nonce_hash ≡ r.nonce_hash
  pub well : (r : PreparedHandoffRecord) → guard r ≡ true → IsWell r → IsWell (change r)
  pub evolves : (r : PreparedHandoffRecord) → guard r ≡ true → Evolves r (change r)

pub bind-Keeps :
    (user_id token_hash key_id : String) (now : ℕ)
    → Keeps (can_bind user_id now) (set_bound token_hash key_id)
bind-Keeps user_id token_hash key_id now = record {
  key = λ r. refl;
  owner = λ r. refl;
  nonce = λ r. refl;
  well = λ r h w. ground (arith, w);
  evolves = λ r h. ground arith;
}

pub reserve-Keeps :
    (user_id token_hash key_id : String) (now : ℕ)
    → Keeps (can_reserve user_id token_hash key_id now) set_consumed
reserve-Keeps user_id token_hash key_id now = record {
  key = λ r. refl;
  owner = λ r. refl;
  nonce = λ r. refl;
  well = λ r h w. ground (arith, w);
  evolves = λ r h. ground arith;
}

pub cancel-Keeps :
    (owner_id : Option String) (now : ℕ) → Keeps (can_cancel owner_id now) set_cancelled
cancel-Keeps owner_id now = record {
  key = λ r. refl;
  owner = λ r. refl;
  nonce = λ r. refl;
  well = λ r h w. ground (arith, w);
  evolves = λ r h. ground arith;
}
