-- ===== src/Handoff/Store/Limit.antt =====
-- The loop of `createLimited`.
use openkey.Common.{
  ℕ, suc, ◌<◌, ◌+◌, ◌≡◌, refl, Bool, ◌⊎◌, inl, inr, Option, none, some, [], ◌∷◌, ◌++◌, arith, find,
  count, leb, Bool-cases,
}
use openkey.Handoff.Types.{PreparedHandoffRecord}
use openkey.Handoff.Store.{
  Table, collides, is_recent, Scanned, is_current, is_counted, scan, create_limited,
}

Scanned-cases :
    (m : Scanned)
    → ((r : PreparedHandoffRecord) × (m ≡ is_current r)) ⊎ ((n : ℕ) × (m ≡ is_counted n))
Scanned-cases (is_current r) = inl (r, refl)
Scanned-cases (is_counted n) = inr (n, refl)

find-none :
    (test : PreparedHandoffRecord → Bool) (t : Table) → count test t ≡ 0 → find test t ≡ none
find-none test [] e = refl
find-none test (r ∷ t) e = ground (arith, find-none test t)

module _ (record_ : PreparedHandoffRecord) (since : ℕ) where
  scan-counted :
      (n m : ℕ) (t : Table)
      → scan record_ since n t ≡ is_counted m
      → (count (collides record_) t ≡ 0) × (m ≡ n + count (is_recent record_.owner_id since) t)
  unfolding scan
  scan-counted n m [] e = (refl, ground arith)
  scan-counted n m (r ∷ t) e = elim (Bool-cases (collides record_ r)) [
    | inl hit ↦ absurd (ground arith)
    | inr miss ↦ elim (Bool-cases (is_recent record_.owner_id since r)) [
      | inl recent ↦
          let (none_hit, same) = scan-counted (suc n) m t (ground arith) in
          (ground arith, ground arith)
      | inr old ↦
          let (none_hit, same) = scan-counted n m t (ground arith) in (ground arith, ground arith)
    ]
  ]

  scan-current :
      (n : ℕ) (r : PreparedHandoffRecord) (t : Table)
      → scan record_ since n t ≡ is_current r
      → find (collides record_) t ≡ some r
  unfolding scan
  scan-current n r [] e = cc
  scan-current n r (q ∷ t) e = elim (Bool-cases (collides record_ q)) [
    | inl hit ↦ ground arith
    | inr miss ↦ elim (Bool-cases (is_recent record_.owner_id since q)) [
      | inl recent ↦ let found = scan-current (suc n) r t (ground arith) in ground arith
      | inr old ↦ let found = scan-current n r t (ground arith) in ground arith
    ]
  ]

  -- What it leaves: the table as it was, with the row that collides or none, or the row added, which
  -- collides with no other, within the limit.
  pub create_limited-cases :
      (limit : ℕ) (t u : Table) (stored : Option PreparedHandoffRecord)
      → create_limited record_ since limit t ≡ (u, stored)
      → ((u ≡ t) × (stored ≡ find (collides record_) t))
        ⊎ ((u ≡ t ++ record_ ∷ [])
            × (stored ≡ some record_)
            × (count (collides record_) t ≡ 0)
            × (count (is_recent record_.owner_id since) t < limit))
  unfolding create_limited
  create_limited-cases limit t u stored e = elim (Scanned-cases (scan record_ since 0 t)) [
    | inl (r, current) ↦ let found = scan-current 0 r t current in inl (ground arith, ground arith)
    | inr (n, counted) ↦
        let (none_hit, same) = scan-counted 0 n t counted in
        elim (Bool-cases (leb limit n)) [
          | inl full ↦
              let missing = find-none (collides record_) t none_hit in
              inl (ground arith, ground arith)
          | inr room ↦ inr (ground arith, ground arith, none_hit, ground arith)
        ]
  ]
