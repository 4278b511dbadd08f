-- ===== src/Device/Scope/Approved/Sound.antt =====
-- What the owner approves is a part of what was requested, with an action in each of its entries.
use mathlib.Core.Path.{subst}
use openkey.Common.{
  String, ◌≡◌, true, false, Option, some, List, [], ◌∷◌, ◌++◌, ◌==◌, keep, All, arith, eq_iff,
  Bool-cases, Option-cases, inl, inr, is_empty,
}
use openkey.Common.Results.{ok, ◌>>=◌}
use openkey.Text.{includes}
use openkey.Json.{Json, Fields, str, arr, item, items, get}
use openkey.Device.Types.{DevicePermission}
use openkey.Device.Platform.{Platform}
use openkey.Device.Scope.Approved.{
  Grant, resource_key, permission_key, requested_by_resource, granted_actions, listed_actions,
  entry_actions, approve_entry, entry_fields, approve_entries, canonical_subset, finish,
  approved_permission_subset,
}
use openkey.Device.Scope.Approved.Laws.{
  IsSubset, KeepsCapabilities, approved_permission_subset-IsSubset,
}

-- The resources are distinct: each permission is the one that its resource leads to.
abbrev pub IsKeyed : Platform → List DevicePermission → List DevicePermission → Type 0
IsKeyed p requested = All (λ q. requested_by_resource p requested (permission_key p q) ≡ some q)

abbrev pub HasActions : DevicePermission → Type 0
HasActions q = is_empty q.actions ≡ false

-- Some action that the source lists.
record Begins (source actions : List String) : Type 0 where
  first : String
  granted : includes actions first ≡ true
  listed : includes source first ≡ true

-- A grant is of a requested resource, with an action that was requested of it.
record IsGrant (p : Platform) (requested : List DevicePermission) (resource : String)
    (actions : List String) : Type 0 where
  source : DevicePermission
  found : requested_by_resource p requested resource ≡ some source
  begins : Begins source.actions actions

keep-includes :
    (ys xs : List String) (a : String)
    → includes ys a ≡ true
    → includes xs a ≡ true
    → is_empty (keep (includes ys) xs) ≡ false
unfolding includes
keep-includes ys [] a h k = cc
keep-includes ys (x ∷ xs) a h k = ground (arith, eq_iff x a, eq_iff a x, keep-includes ys xs a h)

listed_actions-Begins :
    (p : Platform) (source : List String) (v : Json) (vs : List Json) (actions : List String)
    → listed_actions p source (v ∷ vs) ≡ some actions
    → Begins source actions
unfolding listed_actions includes
listed_actions-Begins p source (str a) vs actions e =
    elim (Option-cases (listed_actions p source vs)) [
      | inl bad ↦ absurd (cc (rw (bad, listed_actions) at e))
      | inr (more, good) ↦ elim (Bool-cases (includes source a)) [
        | inl listed ↦
            let same : some (a ∷ more) ≡ some actions = rw (good, listed, listed_actions) at e in
            record { first = a; granted = ground (arith, eq_iff a a); listed = listed }
        | inr other ↦ absurd (cc (rw (good, other, listed_actions) at e))
      ]
    ]
listed_actions-Begins p source _ vs actions e = cc

entry_actions-Begins :
    (p : Platform) (source : List String) (v : Option Json) (actions : List String)
    → entry_actions p source v ≡ some actions
    → Begins source actions
unfolding entry_actions
entry_actions-Begins p source (some (arr (item a more))) actions e =
    listed_actions-Begins p source a (items more) actions e
entry_actions-Begins p source _ actions e = cc

module _ (p : Platform) (requested : List DevicePermission) where
  Granted : List Grant → Type 0
  Granted = All (λ g. IsGrant p requested g.resource g.actions)

  approve_entry-IsGrant :
      (granted : List Grant) (entry : Fields) (g : Grant)
      → approve_entry p requested granted entry ≡ some g
      → IsGrant p requested g.resource g.actions
  unfolding approve_entry
  approve_entry-IsGrant granted entry g e =
      let resource = resource_key p (get "service" entry) (get "space" entry) (get "path" entry) in
      elim (Option-cases (requested_by_resource p requested resource)) [
        | inl bad ↦ absurd (cc (rw (bad, approve_entry) at e))
        | inr (source, found) ↦ elim (Option-cases (granted_actions p granted resource)) [
          | inr (old, bad) ↦ absurd (cc (rw (found, bad, approve_entry) at e))
          | inl fresh ↦ elim (Option-cases (entry_actions p source.actions (get "actions" entry))) [
            | inl bad ↦ absurd (cc (rw (found, fresh, bad, approve_entry) at e))
            | inr (actions, good) ↦
                let same : some (record { resource = resource; actions = actions }) ≡ some g =
                  rw (found, fresh, good, approve_entry) at e in
                some_grant resource actions g same (record {
                  source = source;
                  found = found;
                  begins = entry_actions-Begins p source.actions (get "actions" entry) actions good;
                })
          ]
        ]
      ]
    where
      some_grant :
          (resource : String) (actions : List String) (g : Grant)
          → some (record { resource = resource; actions = actions }) ≡ some g
          → IsGrant p requested resource actions
          → IsGrant p requested g.resource g.actions
      some_grant resource actions g e h =
          let same : Path Grant (record { resource = resource; actions = actions }) g = cc e in
          subst (λ (x : Grant). IsGrant p requested x.resource x.actions) same h

  Granted-append_one :
      (gs : List Grant) (g : Grant)
      → Granted gs
      → IsGrant p requested g.resource g.actions
      → Granted (gs ++ g ∷ [])
  unfolding Granted
  Granted-append_one [] g h k = (k, tt)
  Granted-append_one (q ∷ gs) g h k = (h.0, Granted-append_one gs g h.1 k)

  approve_entries-Granted :
      (granted : List Grant) (entries : List Json) (gs : List Grant)
      → Granted granted
      → approve_entries p requested granted entries ≡ some gs
      → Granted gs
  unfolding approve_entries
  approve_entries-Granted granted [] gs h e = let same : granted ≡ gs = cc e in subst Granted same h
  approve_entries-Granted granted (raw ∷ rest) gs h e =
      elim (Option-cases (approve_entry p requested granted (entry_fields p raw))) [
        | inl bad ↦ absurd (cc (rw (bad, approve_entries) at e))
        | inr (g, good) ↦
            approve_entries-Granted (granted ++ g ∷ []) rest gs
              (Granted-append_one granted g h
                (approve_entry-IsGrant granted (entry_fields p raw) g good))
              (rw (good, approve_entries) at e)
      ]

  granted_actions-IsGrant :
      (gs : List Grant) (k : String) (actions : List String)
      → Granted gs
      → granted_actions p gs k ≡ some actions
      → IsGrant p requested k actions
  unfolding granted_actions Granted
  granted_actions-IsGrant [] k actions h e = cc
  granted_actions-IsGrant (g ∷ gs) k actions h e = elim (Bool-cases (g.resource == k)) [
    | inr other ↦ granted_actions-IsGrant gs k actions h.1 (rw (other, granted_actions) at e)
    | inl hit ↦
        let key : g.resource ≡ k = ground (arith, eq_iff g.resource k) in
        let same : g.actions ≡ actions = cc (rw (hit, granted_actions) at e) in
        subst (λ x. IsGrant p requested k x) same
          (subst (λ x. IsGrant p requested x g.actions) key h.0)
  ]

  canonical_subset-HasActions :
      (granted : List Grant) (qs : List DevicePermission)
      → Granted granted
      → IsKeyed p requested qs
      → All HasActions (canonical_subset p granted qs)
  unfolding canonical_subset
  canonical_subset-HasActions granted [] h k = tt
  canonical_subset-HasActions granted (q ∷ qs) h k =
      let rest = canonical_subset-HasActions granted qs h k.1 in
      elim (Option-cases (granted_actions p granted (permission_key p q))) [
        | inl none_given ↦ rw (none_given, canonical_subset) rest
        | inr (actions, given) ↦
            let g = granted_actions-IsGrant granted (permission_key p q) actions h given in
            let same : g.source ≡ q = cc (g.found, k.0) in
            let listed : includes q.actions g.begins.first ≡ true =
              subst (λ (x : DevicePermission). includes x.actions g.begins.first ≡ true) same
                g.begins.listed in
            rw (given, canonical_subset)
              ((keep-includes actions q.actions g.begins.first g.begins.granted listed, rest))
      ]

  finish-subset :
      (value : Json) (granted : List Grant) (qs : List DevicePermission)
      → finish p requested value granted ≡ ok qs
      → canonical_subset p granted requested ≡ qs
  unfolding finish ◌>>=◌
  finish-subset value granted qs e = ground arith

-- Whatever the owner's browser posts for a request whose resources are distinct, the permissions that
-- are approved are a part of the request, each with one of its actions at least, and there is one of
-- the capabilities service among them unless the request asks for decryption only.
pub approved_permission_subset_sound :
    (p : Platform) (requested : List DevicePermission) (value : Option Json)
    (qs : List DevicePermission)
    → IsKeyed p requested requested
    → approved_permission_subset p requested value ≡ ok qs
    → IsSubset qs requested × All HasActions qs × KeepsCapabilities qs requested
unfolding approved_permission_subset Granted
approved_permission_subset_sound p requested (some (arr (item v vs))) qs keyed e =
    elim (Option-cases (approve_entries p requested [] (v ∷ items vs))) [
      | inl refused ↦ absurd (cc (rw (refused, approved_permission_subset) at e))
      | inr (granted, taken) ↦
          let (part, capabilities) =
            approved_permission_subset-IsSubset p requested (some (arr (item v vs))) qs e in
          let same =
            finish-subset p requested (arr (item v vs)) granted qs
              (rw (taken, approved_permission_subset) at e) in
          (
            part,
            subst (All HasActions) same (
                canonical_subset-HasActions p requested granted requested
                  (approve_entries-Granted p requested [] (v ∷ items vs) granted tt taken) keyed),
            capabilities,
          )
    ]
approved_permission_subset_sound p requested _ qs keyed e = cc
