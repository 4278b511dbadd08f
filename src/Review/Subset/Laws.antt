-- ===== src/Review/Subset/Laws.antt =====
-- What a candidate that passes the check has of its baseline.
use mathlib.Core.Path.{subst}
use openkey.Common.{
  String, ◌≡◌, refl, Bool, true, false, not, ◌&&◌, ◌⊎◌, inl, inr, Option, none, some, List, [], ◌∷◌,
  ◌==◌, find, arith, eq_iff, is_empty, is_empty-append, Bool-cases, Option-cases, find-Has, any-Has,
  Has, here, there, All, and-eq-true_iff,
}
use openkey.Review.Model.{
  CapabilityAction, CapabilityGrant, CapabilityReviewModel, ImmutableSiweFields,
}
use openkey.Review.Multiset.{JsonText, canonical_multiset_equal}
use openkey.Review.Multiset.Laws.{occurrences, keys_of, canonical_multiset_equal_sound}
use openkey.Review.Restrict.{is_recap}
use openkey.Review.Subset.{
  push_if, removed_required, changed_fields, immutable_violations, last_with_key, ability_of,
  grant_id, still_present, required_actions, required_violations, action_violations,
  actions_violations, grant_violations, added_violations, assert_baseline_subset,
}

module _ {ℓ} {A : Type ℓ} (key : A → String) where
  pub last_with_key-Has :
      (k : String) (xs : List A) (x : A) → last_with_key key k xs ≡ some x → (key x ≡ k) × Has x xs
  unfolding last_with_key
  last_with_key-Has k [] x e = cc
  last_with_key-Has k (y ∷ xs) x e = elim (Option-cases (last_with_key key k xs)) [
    | inr (z, later) ↦
        let found = last_with_key-Has k xs x (ground arith) in (found.0, there found.1)
    | inl last ↦
        let hit : (key y ≡ k) × (y ≡ x) = ground (arith, eq_iff (key y) k) in
        (subst (λ z. key z ≡ k) hit.1 hit.0, subst (λ z. Has z (y ∷ xs)) hit.1 here)
  ]

-- Caveats with the same canonical texts, each as often.
abbrev pub SameCaveats : JsonText → CapabilityAction → CapabilityAction → Type 0
SameCaveats j a b =
    (k : String) → occurrences k (keys_of j a.caveats) ≡ occurrences k (keys_of j b.caveats)

-- The action stands in a grant of the baseline with the id, with the same caveats.
abbrev pub InBaseline : JsonText → List CapabilityGrant → String → CapabilityAction → Type 0
InBaseline j baseline id action =
    (g : CapabilityGrant) × (a : CapabilityAction) × Has g baseline
    × (g.id ≡ id)
    × Has a g.actions
    × (a.ability ≡ action.ability)
    × SameCaveats j a action

-- The action is not required, or it is still selected in the candidate's grant with the id.
abbrev pub StaysSelected : CapabilityReviewModel → String → CapabilityAction → Type 0
StaysSelected candidate id action =
    (action.required ≡ false)
    ⊎ ((g : CapabilityGrant) × (a : CapabilityAction) × Has g candidate.permissions
        × (g.id ≡ id)
        × Has a g.actions
        × (a.ability ≡ action.ability)
        × (a.selected ≡ true))

-- The fields that the check compares: all of the immutable ones but the key.
abbrev pub SameImmutable : Option ImmutableSiweFields → Option ImmutableSiweFields → Type 0
SameImmutable none c = Unit
SameImmutable (some b) none = ⊥
SameImmutable (some b) (some c) =
    (b.address ≡ c.address)
    × (b.chain_id ≡ c.chain_id)
    × (b.domain ≡ c.domain)
    × (b.issued_at ≡ c.issued_at)
    × (b.expiration_time ≡ c.expiration_time)
    × (b.space_id ≡ c.space_id)
    × (b.nonce ≡ c.nonce)

pub record IsPart (j : JsonText) (baseline candidate : CapabilityReviewModel) : Type 0 where
  pub immutable : SameImmutable baseline.immutable candidate.immutable
  pub nothing_added :
      All
        (λ (g : CapabilityGrant). All (λ a. InBaseline j baseline.permissions g.id a) g.actions)
        candidate.permissions
  pub required_kept :
      All
        (λ (g : CapabilityGrant). All (λ a. StaysSelected candidate g.id a) g.actions)
        baseline.permissions

changed_fields_none :
    (b c : ImmutableSiweFields)
    → is_empty (changed_fields b c) ≡ true
    → SameImmutable (some b) (some c)
unfolding changed_fields
changed_fields_none b c h = ground (
  arith,
  eq_iff b.address c.address,
  eq_iff b.domain c.domain,
  eq_iff b.issued_at c.issued_at,
  eq_iff b.expiration_time c.expiration_time,
  eq_iff b.space_id c.space_id,
  eq_iff b.nonce c.nonce,
)

immutable_violations_none :
    (b c : Option ImmutableSiweFields)
    → is_empty (immutable_violations b c) ≡ true
    → SameImmutable b c
unfolding immutable_violations
immutable_violations_none none c h = tt
immutable_violations_none (some b) none h = cc
immutable_violations_none (some b) (some c) h = changed_fields_none b c h

module _ (j : JsonText) where
  action_violations_none :
      (base : CapabilityGrant) (baseline : List CapabilityGrant) (action : CapabilityAction)
      → Has base baseline
      → is_empty (action_violations j base.actions action) ≡ true
      → InBaseline j baseline base.id action
  unfolding action_violations
  action_violations_none base baseline action m h =
      elim (Option-cases (last_with_key ability_of action.ability base.actions)) [
        | inl none_there ↦ absurd (cc (rw (none_there, action_violations) at h))
        | inr (a, found) ↦
            let at_key = last_with_key-Has ability_of action.ability base.actions a found in
            let same : canonical_multiset_equal j a.caveats action.caveats ≡ true = ground arith in
            (
              base,
              a,
              m,
              refl,
              at_key.1,
              at_key.0,
              λ k. canonical_multiset_equal_sound j a.caveats action.caveats k same,
            )
      ]

  actions_violations_none :
      (base : CapabilityGrant) (baseline : List CapabilityGrant) (actions : List CapabilityAction)
      → Has base baseline
      → is_empty (actions_violations j base.actions actions) ≡ true
      → All (λ a. InBaseline j baseline base.id a) actions
  unfolding actions_violations
  actions_violations_none base baseline [] m h = tt
  actions_violations_none base baseline (action ∷ actions) m h =
      let parts = (and-eq-true_iff _ _).0 (rw is_empty-append at h) in
      (
        action_violations_none base baseline action m parts.0,
        actions_violations_none base baseline actions m parts.1,
      )

  grant_violations_none :
      (baseline : List CapabilityGrant) (cand : CapabilityGrant)
      → is_empty (grant_violations j baseline cand) ≡ true
      → All (λ a. InBaseline j baseline cand.id a) cand.actions
  unfolding grant_violations
  grant_violations_none baseline cand h =
      elim (Option-cases (last_with_key grant_id cand.id baseline)) [
        | inl none_there ↦ absurd (cc (rw (none_there, grant_violations) at h))
        | inr (base, found) ↦
            let at_id = last_with_key-Has grant_id cand.id baseline base found in
            subst (λ id. All (λ a. InBaseline j baseline id a) cand.actions) at_id.0
              (actions_violations_none base baseline cand.actions at_id.1
                (rw (found, grant_violations) at h))
      ]

  added_violations_none :
      (baseline cands : List CapabilityGrant)
      → is_empty (added_violations j baseline cands) ≡ true
      → All (λ (g : CapabilityGrant). All (λ a. InBaseline j baseline g.id a) g.actions) cands
  unfolding added_violations
  added_violations_none baseline [] h = tt
  added_violations_none baseline (cand ∷ cands) h =
      let parts = (and-eq-true_iff _ _).0 (rw is_empty-append at h) in
      (grant_violations_none baseline cand parts.0, added_violations_none baseline cands parts.1)

still_present_found :
    (candidate : CapabilityReviewModel) (id : String) (action : CapabilityAction)
    → still_present candidate id action.ability ≡ true
    → StaysSelected candidate id action
unfolding still_present
still_present_found candidate id action h =
    elim (Option-cases (find (λ (p : CapabilityGrant). p.id == id) candidate.permissions)) [
      | inl gone ↦ absurd (cc (rw (gone, still_present) at h))
      | inr (g, found) ↦
          let at_id =
            find-Has (λ (p : CapabilityGrant). p.id == id) candidate.permissions g found in
          let (a, fits, m) =
            any-Has (λ (a : CapabilityAction). a.ability == action.ability && a.selected) g.actions
              (rw (found, still_present) at h) in
          let both = (and-eq-true_iff _ _).0 fits in
          inr (
            g,
            a,
            at_id.1,
            (eq_iff g.id id).0 at_id.0,
            m,
            (eq_iff a.ability action.ability).0 both.0,
            both.1,
          )
    ]

required_action-StaysSelected :
    (candidate : CapabilityReviewModel) (id : String) (action : CapabilityAction)
    → is_empty (
        push_if
          (action.required && not (still_present candidate id action.ability))
          removed_required)
      ≡ true
    → StaysSelected candidate id action
required_action-StaysSelected candidate id action h = elim (Bool-cases action.required) [
  | inr free ↦ inl free
  | inl needed ↦ still_present_found candidate id action (ground arith)
]

required_actions_none :
    (candidate : CapabilityReviewModel) (base : CapabilityGrant) (actions : List CapabilityAction)
    → is_empty (required_actions candidate base actions) ≡ true
    → All (λ a. StaysSelected candidate base.id a) actions
unfolding required_actions
required_actions_none candidate base [] h = tt
required_actions_none candidate base (action ∷ actions) h =
    let parts = (and-eq-true_iff _ _).0 (rw is_empty-append at h) in
    (
      required_action-StaysSelected candidate base.id action parts.0,
      required_actions_none candidate base actions parts.1,
    )

required_violations_none :
    (candidate : CapabilityReviewModel) (grants : List CapabilityGrant)
    → is_empty (required_violations candidate grants) ≡ true
    → All (λ (g : CapabilityGrant). All (λ a. StaysSelected candidate g.id a) g.actions) grants
unfolding required_violations
required_violations_none candidate [] h = tt
required_violations_none candidate (base ∷ grants) h =
    let parts = (and-eq-true_iff _ _).0 (rw is_empty-append at h) in
    (
      required_actions_none candidate base base.actions parts.0,
      required_violations_none candidate grants parts.1,
    )

-- What the check establishes, for the protocol whose requests can be edited and for the others.
abbrev pub IsAccepted : Bool → JsonText → CapabilityReviewModel → CapabilityReviewModel → Type 0
IsAccepted true j baseline candidate = IsPart j baseline candidate
IsAccepted false j baseline candidate = candidate.raw_message ≡ baseline.raw_message

-- A candidate that passes the check keeps the address, the chain id, the domain, the times, the space
-- id and the nonce of its baseline if that has them, has only actions of the baseline's grant with the
-- same id, with the same caveats, and keeps every required action selected; where the request cannot
-- be edited, it has the same bytes.
pub assert_baseline_subset_sound :
    (j : JsonText) (baseline candidate : CapabilityReviewModel)
    → (assert_baseline_subset j baseline candidate).ok ≡ true
    → IsAccepted (is_recap baseline.protocol) j baseline candidate
unfolding assert_baseline_subset
assert_baseline_subset_sound j baseline candidate h =
    elim (Bool-cases (is_recap baseline.protocol)) [
      | inr fixed ↦ rw fixed (ground (arith, eq_iff candidate.raw_message baseline.raw_message))
      | inl recap ↦
          let all_none = (and-eq-true_iff _ _).0 (rw (recap, is_empty-append) at h) in
          let rest = (and-eq-true_iff _ _).0 (rw is_empty-append at all_none.1) in
          rw recap (record {
            immutable = immutable_violations_none baseline.immutable candidate.immutable all_none.0;
            nothing_added =
                added_violations_none j baseline.permissions candidate.permissions rest.0;
            required_kept = required_violations_none candidate baseline.permissions rest.1;
          })
    ]
