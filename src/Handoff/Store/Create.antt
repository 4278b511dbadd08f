-- ===== src/Handoff/Store/Create.antt =====
-- What `createLimited` keeps.
use mathlib.Core.Path.{subst}
use openkey.Common.{
  ℕ, ◌≤◌, ◌≡◌, sym, Bool, true, ◌⊎◌, inl, inr, Option, some, [], ◌∷◌, ◌++◌, arith, eq_iff, All,
  find, count, count-append,
}
use openkey.Handoff.Types.{PreparedHandoffRecord}
use openkey.Handoff.Store.{Table, collides, is_recent, find_row, create_limited}
use openkey.Handoff.Store.Laws.{IsWell, Evolves-refl}
use openkey.Handoff.Store.Limit.{create_limited-cases}
use openkey.Handoff.Store.Follows.{IsTable, Follows, has_ticket, has_nonce}

count-weaken :
    (key test : PreparedHandoffRecord → Bool) (t : Table)
    → ((r : PreparedHandoffRecord) → test r ≡ true → key r ≡ true)
    → count test t ≤ count key t
count-weaken key test [] k = omega arith
count-weaken key test (r ∷ t) k = ground (arith, k r, count-weaken key test t k)

find-append :
    (test : PreparedHandoffRecord → Bool) (t : Table) (q r : PreparedHandoffRecord)
    → find test t ≡ some r
    → find test (t ++ q ∷ []) ≡ some r
find-append test [] q r e = cc
find-append test (s ∷ t) q r e = ground (arith, find-append test t q r)

All-append_one :
    (t : Table) (q : PreparedHandoffRecord) → All IsWell t → IsWell q → All IsWell (t ++ q ∷ [])
All-append_one [] q h w = (w, tt)
All-append_one (r ∷ t) q h w = (h.0, All-append_one t q h.1 w)

module _ (record_ : PreparedHandoffRecord) (since limit : ℕ) (t u : Table)
    (stored : Option PreparedHandoffRecord)
    (made : create_limited record_ since limit t ≡ (u, stored)) where
  pub create_limited-Follows : Follows t u
  unfolding find_row
  create_limited-Follows hash r e =
      elim (create_limited-cases record_ since limit t u stored made) [
        | inl (same, _) ↦ (r, rw same e, Evolves-refl r)
        | inr (added, _, _, _) ↦
            (r, rw added (find-append (has_ticket hash) t record_ r e), Evolves-refl r)
      ]

  pub create_limited-IsTable : IsWell record_ → IsTable t → IsTable u
  create_limited-IsTable w c = elim (create_limited-cases record_ since limit t u stored made) [
    | inl (same, _) ↦ subst IsTable (sym same) c
    | inr (added, _, fresh, _) ↦ subst IsTable (sym added) (record {
      tickets = λ h. ground (
        arith,
        c.tickets h,
        count-append (has_ticket h) t (record_ ∷ []),
        count-weaken (collides record_) (has_ticket record_.ticket_hash) t (λ q k. ground arith),
        eq_iff record_.ticket_hash h,
      );
      nonces = λ o n. ground (
        arith,
        c.nonces o n,
        count-append (has_nonce o n) t (record_ ∷ []),
        count-weaken (collides record_) (has_nonce record_.owner_id record_.nonce_hash) t
            (λ q k. ground arith),
        eq_iff record_.owner_id o,
        eq_iff record_.nonce_hash n,
      );
      well = All-append_one t record_ c.well w;
    })
  ]

  -- The rows of the owner in the window, after a row was added.
  pub create_limited-limit : (u ≡ t) ⊎ (count (is_recent record_.owner_id since) u ≤ limit)
  create_limited-limit = elim (create_limited-cases record_ since limit t u stored made) [
    | inl (same, _) ↦ inl same
    | inr (added, _, _, room) ↦
        let sum = count-append (is_recent record_.owner_id since) t (record_ ∷ []) in
        inr (rw added (ground arith))
  ]
