-- ===== src/Review/Subset.antt =====
-- `assertBaselineSubset` of packages/capability-review/src/subset.ts. A violation is its code; the
-- message is left out.
pub mod Laws
pub mod Restricted
use openkey.Common.{
  String, Bool, true, false, not, ◌&&◌, Option, none, some, List, [], ◌∷◌, ◌++◌, ◌==◌, nat_eq,
  if◌then◌else◌, find, any, is_empty,
}
use openkey.Review.Model.{
  CapabilityAction, CapabilityGrant, CapabilityReviewModel, ImmutableSiweFields,
}
use openkey.Review.Multiset.{JsonText, canonical_multiset_equal}
use openkey.Review.Restrict.{is_recap}

pub data ViolationCode : Type 0 where
  added_service added_space added_path added_action : ViolationCode
  broadened_caveat removed_required changed_immutable_field : ViolationCode

pub record SubsetCheckResult : Type 0 where
  pub ok : Bool
  pub violations : List ViolationCode

-- `{ ok: violations.length === 0, violations }`
abbrev pub result_of : List ViolationCode → SubsetCheckResult
result_of violations = record { ok = is_empty violations; violations = violations }

-- `if (bad) violations.push({ code, … })`
abbrev pub push_if : Bool → ViolationCode → List ViolationCode
push_if bad code = if bad then code ∷ [] else []

-- The loop over `keys`. Equal whole numbers are those with equal texts.
unfoldable pub changed_fields : ImmutableSiweFields → ImmutableSiweFields → List ViolationCode
changed_fields b c =
    push_if (not (b.address == c.address)) changed_immutable_field
    ++ (push_if (not (nat_eq b.chain_id c.chain_id)) changed_immutable_field
        ++ (push_if (not (b.domain == c.domain)) changed_immutable_field
            ++ (push_if (not (b.issued_at == c.issued_at)) changed_immutable_field
                ++ (push_if (not (b.expiration_time == c.expiration_time)) changed_immutable_field
                    ++ (push_if (not (b.space_id == c.space_id)) changed_immutable_field
                        ++ push_if (not (b.nonce == c.nonce)) changed_immutable_field)))))

unfoldable pub immutable_violations :
    Option ImmutableSiweFields → Option ImmutableSiweFields → List ViolationCode
unfolding changed_fields
immutable_violations (some b) (some c) = changed_fields b c
immutable_violations (some b) none = changed_immutable_field ∷ []
immutable_violations none candidate = []

abbrev pub or_else {ℓ} : {A : Type ℓ} → Option A → Option A → Option A
or_else (some y) _ = some y
or_else none o = o

-- `new Map(items.map((x) => [key(x), x])).get(k)`: the last item of a key counts.
module _ {ℓ} {A : Type ℓ} (key : A → String) where
  unfoldable pub last_with_key : String → List A → Option A
  last_with_key k [] = none
  last_with_key k (x ∷ xs) = or_else (last_with_key k xs) (if key x == k then some x else none)

abbrev pub ability_of : CapabilityAction → String
ability_of a = a.ability

abbrev pub grant_id : CapabilityGrant → String
grant_id g = g.id

-- The last loop: `candidate.permissions.find(…)`, and an action of that ability that is selected.
unfoldable pub still_present : CapabilityReviewModel → String → String → Bool
still_present candidate id ability = elim (find (λ p. p.id == id) candidate.permissions) [
  | none ↦ false
  | some p ↦ any (λ a. a.ability == ability && a.selected) p.actions
]

required_actions :
    CapabilityReviewModel → CapabilityGrant → List CapabilityAction → List ViolationCode
required_actions candidate base [] = []
required_actions candidate base (action ∷ actions) =
    push_if (action.required && not (still_present candidate base.id action.ability))
      removed_required
    ++ required_actions candidate base actions

unfoldable pub required_violations :
    CapabilityReviewModel → List CapabilityGrant → List ViolationCode
unfolding required_actions
required_violations candidate [] = []
required_violations candidate (base ∷ grants) =
    required_actions candidate base base.actions ++ required_violations candidate grants

module _ (j : JsonText) where
  action_violations : List CapabilityAction → CapabilityAction → List ViolationCode
  action_violations base_actions action =
      elim (last_with_key ability_of action.ability base_actions) [
        | none ↦ added_action ∷ []
        | some base_action ↦
            push_if (not (canonical_multiset_equal j base_action.caveats action.caveats))
              broadened_caveat
      ]

  actions_violations : List CapabilityAction → List CapabilityAction → List ViolationCode
  actions_violations base_actions [] = []
  actions_violations base_actions (action ∷ actions) =
      action_violations base_actions action ++ actions_violations base_actions actions

  grant_violations : List CapabilityGrant → CapabilityGrant → List ViolationCode
  grant_violations baseline cand = elim (last_with_key grant_id cand.id baseline) [
    | none ↦ added_space ∷ []
    | some base ↦ actions_violations base.actions cand.actions
  ]

  unfoldable pub added_violations : List CapabilityGrant → List CapabilityGrant → List ViolationCode
  unfolding action_violations actions_violations grant_violations
  added_violations baseline [] = []
  added_violations baseline (cand ∷ cands) =
      grant_violations baseline cand ++ added_violations baseline cands

  unfoldable pub assert_baseline_subset :
      CapabilityReviewModel → CapabilityReviewModel → SubsetCheckResult
  assert_baseline_subset baseline candidate = result_of (
      if is_recap baseline.protocol
      then immutable_violations baseline.immutable candidate.immutable
        ++ (added_violations baseline.permissions candidate.permissions
            ++ required_violations candidate baseline.permissions)
      else push_if (not (candidate.raw_message == baseline.raw_message)) changed_immutable_field)
