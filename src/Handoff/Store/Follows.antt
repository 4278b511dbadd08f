-- ===== src/Handoff/Store/Follows.antt =====
-- What one table keeps of another, through each operation of the store.
use mathlib.Core.Option
use mathlib.Core.Path.{subst}
use openkey.Common.{
  ◌≤◌, String, ◌≡◌, refl, sym, ap, ap₂, Bool, true, false, ◌&&◌, ◌⊎◌, inl, inr, some, [], ◌∷◌, ◌==◌,
  arith, eq_iff, eq_refl, All, All-Has, find-Has, count, Bool-cases, Option-cases,
}
use openkey.Handoff.Types.{PreparedHandoffRecord}
use openkey.Handoff.Store.{Table, find_row, update, change_if}
use openkey.Handoff.Store.Laws.{
  IsWell, Evolves, Evolves-refl, Evolves-trans, Keeps, find_row-update,
}

abbrev pub has_ticket : String → PreparedHandoffRecord → Bool
has_ticket hash r = r.ticket_hash == hash

abbrev pub has_nonce : String → String → PreparedHandoffRecord → Bool
has_nonce owner_id nonce_hash r = r.owner_id == owner_id && r.nonce_hash == nonce_hash

-- A ticket, and a nonce of one owner, stand in one row, and the rows are well formed.
pub record IsTable (t : Table) : Type 0 where
  pub tickets : (hash : String) → count (has_ticket hash) t ≤ 1
  pub nonces : (owner_id nonce_hash : String) → count (has_nonce owner_id nonce_hash) t ≤ 1
  pub well : All IsWell t

abbrev pub Follows : Table → Table → Type 0
Follows t u =
    (hash : String) (r : PreparedHandoffRecord)
    → find_row hash t ≡ some r
    → (s : PreparedHandoffRecord) × (find_row hash u ≡ some s) × Evolves r s

pub Follows-refl : (t : Table) → Follows t t
Follows-refl t hash r e = (r, e, Evolves-refl r)

pub Follows-trans : (t u v : Table) → Follows t u → Follows u v → Follows t v
Follows-trans t u v a b hash r e =
    let (s, f, one) = a hash r e in
    let (q, g, two) = b hash s f in (q, g, Evolves-trans r s q one two)

-- What a guarded change does.
module _ (hash : String) (guard : PreparedHandoffRecord → Bool)
    (change : PreparedHandoffRecord → PreparedHandoffRecord) where
  pub change_if-cases :
      (t u : Table) (done : Bool)
      → change_if hash guard change t ≡ (u, done)
      → ((u ≡ t) × (done ≡ false))
        ⊎ ((done ≡ true)
            × (u ≡ update hash change t)
            × ((r : PreparedHandoffRecord) × (find_row hash t ≡ some r) × (guard r ≡ true)))
  unfolding change_if
  change_if-cases t u done e = elim (Option-cases (find_row hash t)) [
    | inl missing ↦ inl (ground arith, ground arith)
    | inr (r, found) ↦ elim (Bool-cases (guard r)) [
      | inl passes ↦ inr (ground arith, ground arith, (r, found, passes))
      | inr fails ↦ inl (ground arith, ground arith)
    ]
  ]

  pub change_if-refused :
      (t : Table) (r : PreparedHandoffRecord)
      → find_row hash t ≡ some r
      → guard r ≡ false
      → change_if hash guard change t ≡ (t, false)
  unfolding change_if
  change_if-refused t r found fails = ground arith

  count-update :
      (test : PreparedHandoffRecord → Bool) (t : Table)
      → ((r : PreparedHandoffRecord) → test (change r) ≡ test r)
      → count test (update hash change t) ≡ count test t
  unfolding update
  count-update test [] k = refl
  count-update test (r ∷ t) k = ground (arith, k r, count-update test t k)

  -- Every row but the one found is the same.
  All-update :
      (t : Table) (r : PreparedHandoffRecord)
      → find_row hash t ≡ some r
      → IsWell (change r)
      → All IsWell t
      → All IsWell (update hash change t)
  unfolding update find_row
  All-update [] r e w h = tt
  All-update (q ∷ t) r e w h = elim (Bool-cases (q.ticket_hash == hash)) [
    | inl hit ↦
        let same : q ≡ r = ground arith in rw hit (subst (λ x. IsWell (change x)) (sym same) w, h.1)
    | inr miss ↦ rw miss (h.0, All-update t r (rw miss at e) w h.1)
  ]

  module _ (k : Keeps guard change) where
    pub change_if-found :
        (t u : Table)
        → change_if hash guard change t ≡ (u, true)
        → (r : PreparedHandoffRecord) × (find_row hash t ≡ some r)
          × (guard r ≡ true)
          × (find_row hash u ≡ some (change r))
    change_if-found t u e = elim (change_if-cases t u true e) [
      | inl (_, bad) ↦ absurd cc
      | inr (_, moved, (r, found, passes)) ↦ (
        r,
        found,
        passes,
        rw moved (
            rw (find_row-update hash hash change t k.key, eq_refl hash)
              (ap (Option.map change) found)),
      )
    ]

    pub change_if-Follows :
        (t u : Table) (done : Bool) → change_if hash guard change t ≡ (u, done) → Follows t u
    change_if-Follows t u done e other q found' = elim (change_if-cases t u done e) [
      | inl (same, _) ↦ (q, rw same found', Evolves-refl q)
      | inr (_, moved, (r, found, passes)) ↦ elim (Bool-cases (other == hash)) [
        | inl hit ↦
            let same_key : other ≡ hash = ground (arith, eq_iff other hash) in
            let same : q ≡ r = cc (same_key, found, found') in
            (
              change q,
              rw moved (
                  rw (find_row-update hash other change t k.key, hit)
                    (ap (Option.map change) found')),
              k.evolves q (subst (λ x. guard x ≡ true) (sym same) passes),
            )
        | inr miss ↦ (
          q,
          rw moved (rw (find_row-update hash other change t k.key, miss) found'),
          Evolves-refl q,
        )
      ]
    ]

    pub change_if-IsTable :
        (t u : Table) (done : Bool)
        → change_if hash guard change t ≡ (u, done)
        → IsTable t
        → IsTable u
    unfolding find_row
    change_if-IsTable t u done e c = elim (change_if-cases t u done e) [
      | inl (same, _) ↦ subst IsTable (sym same) c
      | inr (_, moved, (r, found, passes)) ↦ subst IsTable (sym moved) (record {
        tickets = λ h.
            rw (count-update (has_ticket h) t (λ q. ap (λ (x : String). x == h) (k.key q)))
              (c.tickets h);
        nonces = λ o n.
            rw
              (count-update (has_nonce o n) t
                (λ q. ap₂ (λ (x y : String). x == o && y == n) (k.owner q) (k.nonce q)))
              (c.nonces o n);
        well =
            All-update t r found
              (k.well r passes (All-Has IsWell t c.well (find-Has (has_ticket hash) t r found).1))
              c.well;
      })
    ]
