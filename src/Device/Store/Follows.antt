-- ===== src/Device/Store/Follows.antt =====
-- What one store keeps of another, through each operation of the store.
use mathlib.Core.Option
use mathlib.Core.Path.{subst}
use openkey.Common.{
  ℕ, String, ◌≡◌, refl, ap, ◌∙◌, ◌⊎◌, inl, inr, none, some, [], ◌∷◌, ◌==◌, arith, eq_iff,
  Bool-cases, Option-cases,
}
use openkey.Device.Types.{DeviceAuthorizationRecord, pending, approved, consumed}
use openkey.Device.Store
use openkey.Device.Store.{
  Store, find_by_id, find_by_user_code, modify, wipe, is_pending, is_approved, set_consumed,
}
use openkey.Device.Store.Laws.{
  find_by_id-create, find_by_id-modify, find_by_id-wipe, find_by_user_code-create_new,
  find_by_user_code-modify, find_by_user_code-wiped,
}

-- What a record keeps for good: what was started, and its end. While it is pending it was so before,
-- with the same deadline.
pub record Evolves (r s : DeviceAuthorizationRecord) : Type 0 where
  pub same_id : s.id ≡ r.id
  pub same_code : s.user_code ≡ r.user_code
  pub same_session : s.session_did ≡ r.session_did
  pub same_permissions : s.permissions ≡ r.permissions
  pub stays_consumed : r.status ≡ consumed → s.status ≡ consumed
  pub pending_before :
      s.status ≡ pending
      → (r.status ≡ pending) × (s.transaction_expires_at ≡ r.transaction_expires_at)

pub Evolves-refl : (r : DeviceAuthorizationRecord) → Evolves r r
Evolves-refl r = record {
  same_id = refl;
  same_code = refl;
  same_session = refl;
  same_permissions = refl;
  stays_consumed = λ e. e;
  pending_before = λ e. (e, refl);
}

Evolves-trans : (r s t : DeviceAuthorizationRecord) → Evolves r s → Evolves s t → Evolves r t
Evolves-trans r s t a b = record {
  same_id = b.same_id ∙ a.same_id;
  same_code = b.same_code ∙ a.same_code;
  same_session = b.same_session ∙ a.same_session;
  same_permissions = b.same_permissions ∙ a.same_permissions;
  stays_consumed = λ e. b.stays_consumed (a.stays_consumed e);
  pending_before = λ e.
      let (before, same) = b.pending_before e in
      let (first, same') = a.pending_before before in (first, same ∙ same');
}

-- Each look-up that found a record finds it again, as it evolved.
pub record Follows (t u : Store) : Type 0 where
  pub by_id :
      (id : String) (r : DeviceAuthorizationRecord)
      → find_by_id id t ≡ some r
      → (s : DeviceAuthorizationRecord) × (find_by_id id u ≡ some s) × Evolves r s
  pub by_code :
      (code : String) (r : DeviceAuthorizationRecord)
      → find_by_user_code code t ≡ some r
      → (s : DeviceAuthorizationRecord) × (find_by_user_code code u ≡ some s) × Evolves r s

pub Follows-refl : (t : Store) → Follows t t
Follows-refl t = record {
  by_id = λ id r e. (r, e, Evolves-refl r);
  by_code = λ code r e. (r, e, Evolves-refl r);
}

pub Follows-trans : (t u v : Store) → Follows t u → Follows u v → Follows t v
Follows-trans t u v a b = record {
  by_id = λ id r e.
      let (s, f, one) = a.by_id id r e in
      let (q, g, two) = b.by_id id s f in (q, g, Evolves-trans r s q one two);
  by_code = λ code r e.
      let (s, f, one) = a.by_code code r e in
      let (q, g, two) = b.by_code code s f in (q, g, Evolves-trans r s q one two);
}

wipe-Evolves : (now : ℕ) (r : DeviceAuthorizationRecord) → Evolves r (wipe now r)
wipe-Evolves now r = record {
  same_id = ground arith;
  same_code = ground arith;
  same_session = ground arith;
  same_permissions = ground arith;
  stays_consumed = λ e. ground arith;
  pending_before = λ e. (ground arith, ground arith);
}

pub wipe-Follows : (now : ℕ) (s : Store) → Follows s (Store.wipe_expired_results now s)
wipe-Follows now s = record {
  by_id = λ id r e.
      (wipe now r, find_by_id-wipe id now s ∙ ap (Option.map (wipe now)) e, wipe-Evolves now r);
  by_code = λ code r e. (wipe now r, find_by_user_code-wiped code now s r e, wipe-Evolves now r);
}

-- A record is created under a new id.
pub create-Follows :
    (q : DeviceAuthorizationRecord) (s : Store)
    → find_by_id q.id s ≡ none
    → Follows s (Store.create q s)
create-Follows q s new = record {
  by_id = λ id r e. elim (Bool-cases (q.id == id)) [
    | inl hit ↦ let same : q.id ≡ id = ground (arith, eq_iff q.id id) in absurd (cc (same, new, e))
    | inr miss ↦ (r, rw (find_by_id-create q id s, miss) e, Evolves-refl r)
  ];
  by_code = λ code r e. (r, find_by_user_code-create_new q r code s new e, Evolves-refl r);
}

-- The record of an id is changed.
pub modify-Follows :
    (id : String) (f : DeviceAuthorizationRecord → DeviceAuthorizationRecord) (s : Store)
    (q : DeviceAuthorizationRecord)
    → find_by_id id s ≡ some q
    → ((r : DeviceAuthorizationRecord) → (f r).id ≡ r.id)
    → ((r : DeviceAuthorizationRecord) → (f r).user_code ≡ r.user_code)
    → Evolves q (f q)
    → Follows s (modify id f s)
modify-Follows id f s q found ids codes evolves = record {
  by_id = λ other r e. elim (Bool-cases (id == other)) [
    | inl hit ↦
        let key : id ≡ other = ground (arith, eq_iff id other) in
        let same : q ≡ r = cc (key, found, e) in
        (
          f r,
          rw (find_by_id-modify id other f s ids, hit)
              (ap (Option.map f) (ap (λ i. find_by_id i s) key ∙ e)),
          subst (λ x. Evolves x (f x)) same evolves,
        )
    | inr miss ↦ (r, rw (find_by_id-modify id other f s ids, miss) e, Evolves-refl r)
  ];
  by_code = λ code r e. elim (find_by_user_code-modify id code f s r codes e) [
    | inl kept ↦ (r, kept, Evolves-refl r)
    | inr (moved, found') ↦
        let same : q ≡ r = cc (found, found') in
        (f r, moved, subst (λ x. Evolves x (f x)) same evolves)
  ];
}

pub modify_missing :
    (id : String) (f : DeviceAuthorizationRecord → DeviceAuthorizationRecord) (s : Store)
    → find_by_id id s ≡ none
    → modify id f s ≡ s
unfolding find_by_id modify
modify_missing id f [] e = refl
modify_missing id f (r ∷ s) e = ground (arith, modify_missing id f s)

pub update_poll-Follows : (id : String) (t : ℕ) (s : Store) → Follows s (Store.update_poll id t s)
unfolding Store.update_poll
update_poll-Follows id t s = elim (Option-cases (find_by_id id s)) [
  | inr (r, found) ↦
      modify-Follows id (λ q. record q { next_poll_at = t }) s r found (λ q. refl) (λ q. refl)
        (record {
          same_id = refl;
          same_code = refl;
          same_session = refl;
          same_permissions = refl;
          stays_consumed = λ e. e;
          pending_before = λ e. (e, refl);
        })
  | inl missing ↦
      rw (modify_missing id (λ q. record q { next_poll_at = t }) s missing) (Follows-refl s)
]

-- A record that is consumed, or none.
pub consume_approved_cases :
    (id : String) (now : ℕ) (s : Store)
    → ((Store.consume_approved id now s).0 ≡ s)
      ⊎ ((r : DeviceAuthorizationRecord) × (find_by_id id s ≡ some r)
          × (r.status ≡ approved)
          × ((Store.consume_approved id now s).0 ≡ modify id (set_consumed now) s))
unfolding Store.consume_approved
consume_approved_cases id now s = elim (Option-cases (find_by_id id s)) [
  | inl missing ↦ inl (ground arith)
  | inr (r, found) ↦ elim (Bool-cases (is_approved r.status)) [
    | inr other ↦ inl (ground arith)
    | inl is ↦ elim (Option-cases r.consumed_at) [
      | inl unspent ↦ inr (r, found, ground arith, ground arith)
      | inr (t, spent) ↦ inl (ground arith)
    ]
  ]
]
