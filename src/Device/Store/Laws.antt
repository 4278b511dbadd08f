-- ===== src/Device/Store/Laws.antt =====
-- What the store's operations do to a look-up by id.
use openkey.Common.{
  suc, ◌⊎◌, ◌≤◌, true, false, Bool, none, eq_refl, count, ℕ, String, ◌≡◌, refl, some, [], ◌∷◌, ◌==◌,
  arith, eq_iff, if◌then◌else◌, All, Bool-cases, inl, inr,
}
use mathlib.Core.Option
use mathlib.Core.Option.{some-injective}
use mathlib.Core.Path.{subst}
use openkey.Device.Types.{DeviceAuthorizationRecord}
use openkey.Device.Store.{
  Store, find_by_user_code, create, find_by_id, modify, wipe, wipe_expired_results,
}

pub find_by_id-id :
    (id : String) (s : Store) (r : DeviceAuthorizationRecord) → find_by_id id s ≡ some r → r.id ≡ id
unfolding find_by_id
find_by_id-id id [] r e = cc
find_by_id-id id (q ∷ s) r e = ground (arith, eq_iff q.id id, find_by_id-id id s r)

pub find_by_id-create :
    (r : DeviceAuthorizationRecord) (id : String) (s : Store)
    → find_by_id id (create r s) ≡ (if r.id == id then some r else find_by_id id s)
unfolding find_by_id create
find_by_id-create r id [] = refl
find_by_id-create r id (q ∷ s) =
    ground (arith, find_by_id-create r id s, eq_iff q.id r.id, eq_iff q.id id, eq_iff r.id id)

-- An update that keeps ids changes one look-up and no other.
pub find_by_id-modify :
    (id other : String) (f : DeviceAuthorizationRecord → DeviceAuthorizationRecord) (s : Store)
    → ((r : DeviceAuthorizationRecord) → (f r).id ≡ r.id)
    → find_by_id other (modify id f s)
      ≡ (if id == other then Option.map f (find_by_id id s) else find_by_id other s)
unfolding find_by_id modify
find_by_id-modify id other f [] k = ground arith
find_by_id-modify id other f (q ∷ s) k = ground (
  arith,
  find_by_id-modify id other f s k,
  k q,
  eq_iff q.id id,
  eq_iff q.id other,
  eq_iff (f q).id other,
  eq_iff id other,
)

pub find_by_id-wipe :
    (id : String) (now : ℕ) (s : Store)
    → find_by_id id (wipe_expired_results now s) ≡ Option.map (wipe now) (find_by_id id s)
unfolding find_by_id wipe_expired_results
find_by_id-wipe id now [] = refl
find_by_id-wipe id now (q ∷ s) = ground (arith, find_by_id-wipe id now s)

-- What holds of every record, through the operations.
module _ (P : DeviceAuthorizationRecord → Type 0) where
  pub All-find_by_id :
      (id : String) (s : Store) (r : DeviceAuthorizationRecord)
      → All P s
      → find_by_id id s ≡ some r
      → P r
  unfolding find_by_id
  All-find_by_id id [] r h e = cc
  All-find_by_id id (q ∷ s) r h e = elim (Bool-cases (q.id == id)) [
    | inl hit ↦ let same : q ≡ r = ground arith in subst P same h.0
    | inr miss ↦ All-find_by_id id s r h.1 (rw miss at e)
  ]

  pub All-create : (r : DeviceAuthorizationRecord) (s : Store) → P r → All P s → All P (create r s)
  unfolding create
  All-create r [] k h = (k, tt)
  All-create r (q ∷ s) k h = elim (Bool-cases (q.id == r.id)) [
    | inl hit ↦ rw hit (k, h.1)
    | inr miss ↦ rw miss (h.0, All-create r s k h.1)
  ]

  pub All-modify :
      (id : String) (f : DeviceAuthorizationRecord → DeviceAuthorizationRecord) (s : Store)
      (r : DeviceAuthorizationRecord)
      → find_by_id id s ≡ some r
      → P (f r)
      → All P s
      → All P (modify id f s)
  unfolding find_by_id modify
  All-modify id f [] r e k h = tt
  All-modify id f (q ∷ s) r e k h = elim (Bool-cases (q.id == id)) [
    | inl hit ↦ let same : r ≡ q = ground arith in rw hit (subst (λ x. P (f x)) same k, h.1)
    | inr miss ↦ rw miss (h.0, All-modify id f s r (rw miss at e) k h.1)
  ]

pub All-wipe :
    (P Q : DeviceAuthorizationRecord → Type 0) (now : ℕ) (s : Store)
    → ((r : DeviceAuthorizationRecord) → P r → Q (wipe now r))
    → All P s
    → All Q (wipe_expired_results now s)
unfolding wipe_expired_results
All-wipe P Q now [] k h = tt
All-wipe P Q now (r ∷ s) k h = (k r h.0, All-wipe P Q now s k h.1)

pub find_by_user_code-create :
    (r : DeviceAuthorizationRecord) (s : Store)
    → find_by_user_code r.user_code s ≡ none
    → find_by_user_code r.user_code (create r s) ≡ some r
unfolding find_by_user_code create
find_by_user_code-create r [] e = ground (arith, eq_refl r.user_code)
find_by_user_code-create r (q ∷ s) e =
    ground (arith, eq_refl r.user_code, find_by_user_code-create r s)

pub find_by_user_code-wipe :
    (code : String) (now : ℕ) (s : Store)
    → find_by_user_code code s ≡ none
    → find_by_user_code code (wipe_expired_results now s) ≡ none
unfolding find_by_user_code wipe_expired_results
find_by_user_code-wipe code now [] e = refl
find_by_user_code-wipe code now (q ∷ s) e = ground (arith, find_by_user_code-wipe code now s)

-- A count by fields that the operations keep.
module _ (test : DeviceAuthorizationRecord → Bool) where
  pub count-create :
      (r : DeviceAuthorizationRecord) (s : Store) → count test (create r s) ≤ suc (count test s)
  unfolding create
  count-create r [] = ground arith
  count-create r (q ∷ s) = ground (arith, count-create r s)

  pub count-create_outside :
      (r : DeviceAuthorizationRecord) (s : Store)
      → test r ≡ false
      → count test (create r s) ≤ count test s
  unfolding create
  count-create_outside r [] e = ground arith
  count-create_outside r (q ∷ s) e = ground (arith, count-create_outside r s e)

  pub count-wipe :
      (now : ℕ) (s : Store)
      → ((r : DeviceAuthorizationRecord) → test (wipe now r) ≡ test r)
      → count test (wipe_expired_results now s) ≡ count test s
  unfolding wipe_expired_results
  count-wipe now [] k = refl
  count-wipe now (q ∷ s) k = rw (k q, count-wipe now s k) refl

  pub count-modify :
      (id : String) (f : DeviceAuthorizationRecord → DeviceAuthorizationRecord) (s : Store)
      → ((r : DeviceAuthorizationRecord) → test (f r) ≡ test r)
      → count test (modify id f s) ≡ count test s
  unfolding modify
  count-modify id f [] k = refl
  count-modify id f (q ∷ s) k = ground (arith, k q, count-modify id f s k)

pub count_mono :
    (p q : DeviceAuthorizationRecord → Bool) (s : Store)
    → ((r : DeviceAuthorizationRecord) → p r ≡ true → q r ≡ true)
    → count p s ≤ count q s
count_mono p q [] k = omega arith
count_mono p q (r ∷ s) k = ground (arith, k r, count_mono p q s k)

-- A look-up by code finds the same record after a creation under a new id, and after an update that
-- keeps codes it finds that record or its update.
pub find_by_user_code-create_new :
    (r q : DeviceAuthorizationRecord) (code : String) (s : Store)
    → find_by_id r.id s ≡ none
    → find_by_user_code code s ≡ some q
    → find_by_user_code code (create r s) ≡ some q
unfolding find_by_user_code find_by_id create
find_by_user_code-create_new r q code [] new e = cc
find_by_user_code-create_new r q code (p ∷ s) new e =
    ground (arith, find_by_user_code-create_new r q code s)

pub find_by_user_code-modify :
    (id code : String) (f : DeviceAuthorizationRecord → DeviceAuthorizationRecord) (s : Store)
    (q : DeviceAuthorizationRecord)
    → ((r : DeviceAuthorizationRecord) → (f r).user_code ≡ r.user_code)
    → find_by_user_code code s ≡ some q
    → (find_by_user_code code (modify id f s) ≡ some q)
      ⊎ ((find_by_user_code code (modify id f s) ≡ some (f q)) × (find_by_id id s ≡ some q))
unfolding find_by_user_code find_by_id modify
find_by_user_code-modify id code f [] q k e = cc
find_by_user_code-modify id code f (r ∷ s) q k e =
    ground (arith, k r, find_by_user_code-modify id code f s q k)

pub find_by_user_code-wiped :
    (code : String) (now : ℕ) (s : Store) (q : DeviceAuthorizationRecord)
    → find_by_user_code code s ≡ some q
    → find_by_user_code code (wipe_expired_results now s) ≡ some (wipe now q)
unfolding find_by_user_code wipe_expired_results
find_by_user_code-wiped code now [] q e = cc
find_by_user_code-wiped code now (r ∷ s) q e = ground (arith, find_by_user_code-wiped code now s q)
