-- ===== src/Handoff/Service/Context/Bound.antt =====
-- What `bindContext` has checked, and the row that it leaves.
use mathlib.Core.Path.{subst}
use openkey.Common.{
  ℕ, String, ◌≡◌, refl, sym, ap, ap₂, ◌∙◌, Bool, true, not, ◌&&◌, ◌||◌, ◌⊎◌, inl, inr, none, some,
  ◌==◌, arith, eq_iff, is_some, Bool-cases, Option-cases,
}
use openkey.Common.Results.{Result, Result-cases, ok, >>=-eq-ok, reject_if, reject_if-eq-ok}
use openkey.Json.{get, Fields}
use openkey.Device.Jwk.{is_text}
use openkey.Handoff.Types.{
  PreparedHandoffRecord, PreparedHandoffError, handoff_error, HandoffPlatform, handoff_claimed,
  binding_mismatch,
}
use openkey.Handoff.Store
use openkey.Handoff.Store.{Table, holds, find_row, can_bind, set_bound}
use openkey.Handoff.Store.Laws.{bind-Keeps, find_row-key, holds-some}
use openkey.Handoff.Store.Follows.{change_if-found}
use openkey.Handoff.Service.{active}
use openkey.Handoff.Service.Context.{
  Binding, bind_context, check_binding, bind_row, same_digest, non_empty_text, text_or_empty,
}
use openkey.Handoff.Service.Signing.Laws.{IsActive, active-IsActive}
use openkey.Handoff.System.{Reach, Reach-Follows}

-- The row of a context that is bound.
pub record IsBound (p : HandoffPlatform) (ticket user_id : String) (binding : Binding) (w : Table)
    (r : PreparedHandoffRecord) : Type 0 where
  pub found : find_row (p.sha256_hex ticket) w ≡ some r
  pub owner : r.owner_id ≡ user_id
  pub context :
      r.context_token_hash ≡ some (p.sha256_hex (text_or_empty binding.authorization_context_token))
  pub key : r.selected_key_id ≡ some (text_or_empty binding.key_id)
  pub siwe : is_text binding.siwe (get "siwe" r.request) ≡ true
  pub host : is_text binding.host (get "host" r.request) ≡ true

module _ (p : HandoffPlatform) (now : ℕ) (ticket user_id : String) (binding : Binding) (t : Table)
    (r : PreparedHandoffRecord) where
  -- What `bindContext` has checked of the row that it read.
  record IsChecked : Type 0 where
    live : IsActive p now ticket t r
    owner : r.owner_id ≡ user_id
    siwe : is_text binding.siwe (get "siwe" r.request) ≡ true
    host : is_text binding.host (get "host" r.request) ≡ true
    same_context :
        (r.context_token_hash ≡ none)
        ⊎ ((r.context_token_hash
              ≡ some (p.sha256_hex (text_or_empty binding.authorization_context_token)))
            × (r.selected_key_id ≡ some (text_or_empty binding.key_id)))

check_binding-IsChecked :
    (p : HandoffPlatform) (now : ℕ) (ticket user_id : String) (binding : Binding) (t : Table)
    (r : PreparedHandoffRecord)
    → check_binding p now ticket user_id binding t ≡ ok r
    → IsChecked p now ticket user_id binding t r
unfolding check_binding
check_binding-IsChecked p now ticket user_id binding t r e =
    let (q, one, e1) = >>=-eq-ok (active p now ticket t) _ e in
    let (_, two, e2) =
      >>=-eq-ok (reject_if (not (q.owner_id == user_id)) (handoff_error handoff_claimed 403)) _
        e1 in
    let (_, three, e3) =
      >>=-eq-ok (reject_if (is_some (get "kind" q.request)) (handoff_error binding_mismatch 403)) _
        e2 in
    let wrong_text =
      not (non_empty_text binding.authorization_context_token)
      || not (non_empty_text binding.key_id)
      || not (is_text binding.siwe (get "siwe" q.request))
      || not (is_text binding.host (get "host" q.request)) in
    let (_, four, e4) =
      >>=-eq-ok (reject_if wrong_text (handoff_error binding_mismatch 403)) _ e3 in
    let (same_jwk, five, e5) = >>=-eq-ok (same_digest p binding.jwk (get "jwk" q.request)) _ e4 in
    let (_, six, e6) = >>=-eq-ok (reject_if _ (handoff_error binding_mismatch 403)) _ e5 in
    let other_context =
      is_some q.context_token_hash
      && (not (
            holds q.context_token_hash
              (p.sha256_hex (text_or_empty binding.authorization_context_token)))
          || not (holds q.selected_key_id (text_or_empty binding.key_id))) in
    let (_, seven, e7) =
      >>=-eq-ok (reject_if other_context (handoff_error binding_mismatch 403)) _ e6 in
    let same : q ≡ r = ground (arith, e7) in
    let owner =
      reject_if-eq-ok (not (q.owner_id == user_id)) (handoff_error handoff_claimed 403) two in
    let texts = reject_if-eq-ok wrong_text (handoff_error binding_mismatch 403) four in
    let context = reject_if-eq-ok other_context (handoff_error binding_mismatch 403) seven in
    let checked : IsChecked p now ticket user_id binding t q = record {
      live = active-IsActive p now ticket t q one;
      owner = ground (arith, eq_iff q.owner_id user_id);
      siwe = ground (arith, texts);
      host = ground (arith, texts);
      same_context = elim (Option-cases q.context_token_hash) [
        | inl unbound ↦ inl unbound
        | inr (c, bound) ↦ inr (
          holds-some q.context_token_hash
              (p.sha256_hex (text_or_empty binding.authorization_context_token))
              (ground (arith, context, bound)),
          holds-some q.selected_key_id (text_or_empty binding.key_id)
              (ground (arith, context, bound)),
        )
      ];
    } in
    subst (λ x. IsChecked p now ticket user_id binding t x) same checked

bind_row-ok :
    (p : HandoffPlatform) (now : ℕ) (user_id token key_id : String) (r : PreparedHandoffRecord)
    (u w : Table)
    → bind_row p now user_id token key_id r u ≡ (w, ok tt)
    → Store.bind r.ticket_hash user_id (p.sha256_hex token) key_id now u ≡ (w, true)
unfolding bind_row
bind_row-ok p now user_id token key_id r u w e =
    elim (Bool-cases (Store.bind r.ticket_hash user_id (p.sha256_hex token) key_id now u).1) [
      | inl done ↦
          let same : (Store.bind r.ticket_hash user_id (p.sha256_hex token) key_id now u).0 ≡ w =
            ap (λ (x : Table × Result PreparedHandoffError (Unit {0})). x.0) e in
          ap₂ (λ (x : Table) (y : Bool). (x, y)) same done
      | inr undone ↦ absurd (ground arith)
    ]

module _ (p : HandoffPlatform) (now1 now2 : ℕ) (ticket user_id : String) (binding : Binding)
    (t u w : Table) where
  -- A binding whose write meets a table that follows the one it read leaves the handoff, of the
  -- caller and of the same message and host, bound to the digest of the context and to the key.
  pub bind_context_sound :
      bind_context p now1 now2 ticket user_id binding t u ≡ (w, ok tt)
      → Reach t u
      → (r : PreparedHandoffRecord) × IsBound p ticket user_id binding w r
  unfolding bind_context Store.bind
  bind_context_sound e rest = elim (Result-cases (check_binding p now1 ticket user_id binding t)) [
    | inr (x, failed) ↦ absurd (ground (arith, rw (failed, bind_context) at e))
    | inl (r, passed) ↦
        let checked = check_binding-IsChecked p now1 ticket user_id binding t r passed in
        let (s, found, evolved) = Reach-Follows rest (p.sha256_hex ticket) r checked.live.found in
        let request_ = evolved.same_request in
        elim (Option-cases r.context_token_hash) [
          | inr (c, bound) ↦
              let e' = rw (passed, bound, bind_context) at e in
              let same : u ≡ w =
                ap (λ (x : Table × Result PreparedHandoffError (Unit {0})). x.0) e' in
              (
                s,
                record {
                  found = subst (λ x. find_row (p.sha256_hex ticket) x ≡ some s) same found;
                  owner = sym evolved.same_owner ∙ checked.owner;
                  context = ground (arith, evolved.stays_bound, checked.same_context);
                  key = ground (arith, evolved.stays_bound, checked.same_context);
                  siwe =
                      subst (λ (x : Fields). is_text binding.siwe (get "siwe" x) ≡ true) request_
                        checked.siwe;
                  host =
                      subst (λ (x : Fields). is_text binding.host (get "host" x) ≡ true) request_
                        checked.host;
                },
              )
          | inl unbound ↦
              let token = text_or_empty binding.authorization_context_token in
              let key_id = text_or_empty binding.key_id in
              let ran =
                bind_row-ok p now2 user_id token key_id r u w
                  (rw (passed, unbound, bind_context) at e) in
              let ticket_key = find_row-key (p.sha256_hex ticket) t r checked.live.found in
              let (q, found', passes, left) =
                change_if-found r.ticket_hash (can_bind user_id now2)
                  (set_bound (p.sha256_hex token) key_id)
                  (bind-Keeps user_id (p.sha256_hex token) key_id now2) u w ran in
              let same : s ≡ q = cc (found, subst (λ h. find_row h u ≡ some q) ticket_key found') in
              let request' = request_ ∙ ap (λ (x : PreparedHandoffRecord). x.request) same in
              (
                set_bound (p.sha256_hex token) key_id q,
                record {
                  found =
                      subst (λ h. find_row h w ≡ some (set_bound (p.sha256_hex token) key_id q))
                        ticket_key left;
                  owner = ground (arith, passes, eq_iff q.owner_id user_id);
                  context = refl;
                  key = refl;
                  siwe =
                      subst (λ (x : Fields). is_text binding.siwe (get "siwe" x) ≡ true) request'
                        checked.siwe;
                  host =
                      subst (λ (x : Fields). is_text binding.host (get "host" x) ≡ true) request'
                        checked.host;
                },
              )
        ]
  ]
