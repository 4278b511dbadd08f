-- ===== src/Handoff/System/Binding.antt =====
-- What the binding of a context promises of every later history.
use mathlib.Core.Path.{subst}
use openkey.Common.{ℕ, String, ◌≡◌, sym, ap, ◌∙◌, true, not, ◌||◌, some, ◌==◌, arith, eq_iff}
use openkey.Common.Results.{ok, >>=-eq-ok, reject_if, reject_if-eq-ok}
use openkey.Json.{get, Fields}
use openkey.Device.Jwk.{is_text}
use openkey.Handoff.Types.{
  PreparedHandoffRecord, handoff_error, HandoffPlatform, handoff_claimed, binding_mismatch,
}
use openkey.Handoff.Store.{Table, holds, find_row}
use openkey.Handoff.Store.Laws.{Evolves, holds-some}
use openkey.Handoff.Service.{active}
use openkey.Handoff.Service.Context.{
  Kind, Binding, bind_context, assert_context, has_kind, text_or_empty,
}
use openkey.Handoff.Service.Context.Bound.{IsBound, bind_context_sound}
use openkey.Handoff.Service.Signing.Laws.{active-IsActive}
use openkey.Handoff.System.{Reach, Reach-Follows}

assert_context-bound :
    (p : HandoffPlatform) (now : ℕ) (ticket user_id token : String) (kind : Kind) (t : Table)
    (r : PreparedHandoffRecord)
    → assert_context p now ticket user_id token kind t ≡ ok r
    → (find_row (p.sha256_hex ticket) t ≡ some r)
      × (r.owner_id ≡ user_id)
      × (r.context_token_hash ≡ some (p.sha256_hex token))
unfolding assert_context
assert_context-bound p now ticket user_id token kind t r e =
    let (q, one, e1) = >>=-eq-ok (active p now ticket t) _ e in
    let (_, two, e2) =
      >>=-eq-ok (reject_if (not (q.owner_id == user_id)) (handoff_error handoff_claimed 403)) _
        e1 in
    let (_, three, e3) =
      >>=-eq-ok (reject_if (not (has_kind kind q.request)) (handoff_error binding_mismatch 403)) _
        e2 in
    let wrong = token == "" || not (holds q.context_token_hash (p.sha256_hex token)) in
    let (_, four, e4) = >>=-eq-ok (reject_if wrong (handoff_error binding_mismatch 403)) _ e3 in
    let same : q ≡ r = ground (arith, e4) in
    let owner =
      reject_if-eq-ok (not (q.owner_id == user_id)) (handoff_error handoff_claimed 403) two in
    let right = reject_if-eq-ok wrong (handoff_error binding_mismatch 403) four in
    let live = active-IsActive p now ticket t q one in
    (
      live.found ∙ ap some same,
      sym (ap (λ (x : PreparedHandoffRecord). x.owner_id) same)
          ∙ ground (arith, eq_iff q.owner_id user_id),
      sym (ap (λ (x : PreparedHandoffRecord). x.context_token_hash) same)
          ∙ holds-some q.context_token_hash (p.sha256_hex token) (ground (arith, right)),
    )

-- Once a context is bound by a binding whose write meets a table that follows the one it read,
-- whatever happens to the table, a context that is asserted for the ticket is asserted by that
-- caller, has the same digest, and its row keeps the key, the message and the host of the binding.
pub assert_context-bind_context :
    (p : HandoffPlatform) (now1 now2 now3 : ℕ) (ticket user_id user_id' token : String)
    (binding : Binding) (kind : Kind) (t u w v : Table) (r : PreparedHandoffRecord)
    → bind_context p now1 now2 ticket user_id binding t u ≡ (w, ok tt)
    → Reach t u
    → Reach w v
    → assert_context p now3 ticket user_id' token kind v ≡ ok r
    → (user_id' ≡ user_id)
      × (p.sha256_hex token ≡ p.sha256_hex (text_or_empty binding.authorization_context_token))
      × IsBound p ticket user_id binding v r
assert_context-bind_context p now1 now2 now3 ticket user_id user_id' token binding kind t u w v r e
      rest later asserted =
    let (q, bound) = bind_context_sound p now1 now2 ticket user_id binding t u w e rest in
    let (s, found, evolved) = Reach-Follows later (p.sha256_hex ticket) q bound.found in
    let (found', owner, context) =
      assert_context-bound p now3 ticket user_id' token kind v r asserted in
    let same : s ≡ r = cc (found, found') in
    let kept : Evolves q r = subst (λ x. Evolves q x) same evolved in
    let context' : r.context_token_hash
        ≡ some (p.sha256_hex (text_or_empty binding.authorization_context_token)) =
      ground (arith, kept.stays_bound, bound.context) in
    (
      sym owner ∙ sym kept.same_owner ∙ bound.owner,
      ground (arith, context, context'),
      record {
        found = found';
        owner = sym kept.same_owner ∙ bound.owner;
        context = context';
        key = ground (arith, kept.stays_bound, bound.context, bound.key);
        siwe =
            subst (λ (x : Fields). is_text binding.siwe (get "siwe" x) ≡ true) kept.same_request
              bound.siwe;
        host =
            subst (λ (x : Fields). is_text binding.host (get "host" x) ≡ true) kept.same_request
              bound.host;
      },
    )
