-- ===== src/Device/Scope/Approved/Laws.antt =====
-- What the owner approves is a part of what was requested.
use openkey.Common.{
  ◌≡◌, refl, Bool, true, Option, some, List, [], ◌∷◌, ◌==◌, any, all, keep, All, All-weaken, Has,
  here, there, arith, Bool-cases, Option-cases, inl, inr, ◌⊎◌,
}
use openkey.Common.Results.{ok, ◌>>=◌}
use openkey.Text.{includes}
use openkey.Json.{Json, arr, item, items}
use openkey.Device.Types.{DevicePermission}
use openkey.Device.Platform.{Platform}
use openkey.Device.Scope.Approved.{
  Grant, permission_key, granted_actions, approve_entries, canonical_subset, finish,
  approved_permission_subset,
}

-- A permission grants no more than one of the listed ones: the same service, space and path, and
-- some of its actions.
pub record IsWithin (qs : List DevicePermission) (q : DevicePermission) : Type 0 where
  pub source : DevicePermission
  pub listed : Has source qs
  pub service : q.service ≡ source.service
  pub space : q.space ≡ source.space
  pub path : q.path ≡ source.path
  pub actions : All (λ a. Has a source.actions) q.actions

abbrev pub IsSubset : List DevicePermission → List DevicePermission → Type 0
IsSubset qs requested = All (IsWithin requested) qs

-- A request for decryption only has no capabilities entry; any other keeps an entry of that service.
abbrev pub KeepsCapabilities : List DevicePermission → List DevicePermission → Type 0
KeepsCapabilities qs requested =
    (all (λ q. q.service == "tinycloud.encryption") requested ≡ true)
    ⊎ (any (λ q. q.service == "tinycloud.capabilities") qs ≡ true)

keep-Has {ℓ} : {A : Type ℓ} (p : A → Bool) (xs : List A) → All (λ a. Has a xs) (keep p xs)
keep-Has p [] = tt
keep-Has p (x ∷ xs) =
    let rest =
      All-weaken (λ a. Has a xs) (λ a. Has a (x ∷ xs)) (keep p xs) (λ a h. there h)
        (keep-Has p xs) in
    elim (Bool-cases (p x)) [ inl hit ↦ rw hit (here, rest) | inr miss ↦ rw miss rest ]

IsWithin-cons :
    (r : DevicePermission) (qs : List DevicePermission) (q : DevicePermission)
    → IsWithin qs q
    → IsWithin (r ∷ qs) q
IsWithin-cons r qs q w = record {
  source = w.source;
  listed = there w.listed;
  service = w.service;
  space = w.space;
  path = w.path;
  actions = w.actions;
}

module _ (p : Platform) where
  canonical_subset-IsSubset :
      (granted : List Grant) (requested : List DevicePermission)
      → IsSubset (canonical_subset p granted requested) requested
  unfolding canonical_subset
  canonical_subset-IsSubset granted [] = tt
  canonical_subset-IsSubset granted (q ∷ qs) =
      let rest =
        All-weaken (IsWithin qs) (IsWithin (q ∷ qs)) (canonical_subset p granted qs)
          (IsWithin-cons q qs) (canonical_subset-IsSubset granted qs) in
      elim (Option-cases (granted_actions p granted (permission_key p q))) [
        | inl none_given ↦ rw (none_given, canonical_subset) rest
        | inr (actions, given) ↦
            rw (given, canonical_subset)
              (
                record {
                  source = q;
                  listed = here;
                  service = refl;
                  space = refl;
                  path = refl;
                  actions = keep-Has (includes actions) q.actions;
                },
                rest,
              )
      ]

  finish-IsSubset :
      (requested : List DevicePermission) (value : Json) (granted : List Grant)
      (qs : List DevicePermission)
      → finish p requested value granted ≡ ok qs
      → IsSubset qs requested × KeepsCapabilities qs requested
  unfolding finish ◌>>=◌
  finish-IsSubset requested value granted qs e =
      let same : canonical_subset p granted requested ≡ qs = ground arith in
      (rw (← same) (canonical_subset-IsSubset granted requested), ground arith)

  -- Whatever the owner's browser posts, the approved permissions are a part of the request.
  pub approved_permission_subset-IsSubset :
      (requested : List DevicePermission) (value : Option Json) (qs : List DevicePermission)
      → approved_permission_subset p requested value ≡ ok qs
      → IsSubset qs requested × KeepsCapabilities qs requested
  unfolding approved_permission_subset
  approved_permission_subset-IsSubset requested (some (arr (item v vs))) qs e =
      elim (Option-cases (approve_entries p requested [] (v ∷ items vs))) [
        | inl refused ↦ absurd (cc (rw (refused, approved_permission_subset) at e))
        | inr (granted, taken) ↦
            finish-IsSubset requested (arr (item v vs)) granted qs
              (rw (taken, approved_permission_subset) at e)
      ]
  approved_permission_subset-IsSubset requested _ qs e = cc
