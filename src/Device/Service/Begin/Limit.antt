-- ===== src/Device/Service/Begin/Limit.antt =====
-- The limit on starts from one address, over every ten-minute window.
use openkey.Common.{
  ℕ, ◌+◌, ◌-◌, ◌≤◌, ◌<◌, String, ◌≡◌, Bool, true, ◌&&◌, Option, some, List, ◌==◌, leb, arith,
  eq_iff, Bool-cases, inl, inr, count,
}
use openkey.Common.Results.{Result}
use openkey.Device.Types.{
  DeviceAuthorizationRecord, DeviceAuthorizationError, start_limit, start_window_ms,
}
use openkey.Device.Platform.{Platform}
use openkey.Device.Store
use openkey.Device.Store.{Store, wipe}
use openkey.Device.Store.Laws.{count-create, count-create_outside, count-wipe, count_mono}
use openkey.Device.UserCode.{Draw}
use openkey.Device.Start.{StartInput}
use openkey.Device.Service.{Options}
use openkey.Device.Service.Begin.{StartResponse, ip_hash, new_record, start}
use openkey.Device.Service.Begin.Laws.{start_cases}

-- The record was requested by the address within the ten minutes from `from`.
abbrev pub in_window : String → ℕ → DeviceAuthorizationRecord → Bool
in_window hash from r =
    r.request_ip_hash == hash
    && leb from r.requested_at
    && leb r.requested_at (from + start_window_ms)

-- No address has more than five stored requests in any window of ten minutes.
abbrev pub IsLimited : Store → Type 0
IsLimited s = (hash : String) (from : ℕ) → count (in_window hash from) s ≤ start_limit

create-in_window :
    (r : DeviceAuthorizationRecord) (s : Store) (hash : String) (from : ℕ)
    → count (in_window hash from) s ≤ start_limit
    → Store.count_recent_by_ip_hash r.request_ip_hash (r.requested_at - start_window_ms) s
      < start_limit
    → count (in_window hash from) (Store.create r s) ≤ start_limit
unfolding Store.count_recent_by_ip_hash
create-in_window r s hash from limited room = elim (Bool-cases (in_window hash from r)) [
  | inl inside ↦ omega (arith, count-create (in_window hash from) r s, fewer inside)
  | inr outside ↦ omega (arith, count-create_outside (in_window hash from) r s outside)
]
  where
    recent : DeviceAuthorizationRecord → Bool
    recent q =
        q.request_ip_hash == r.request_ip_hash
        && leb (r.requested_at - start_window_ms) q.requested_at

    fewer : in_window hash from r ≡ true → count (in_window hash from) s ≤ count recent s
    fewer inside = count_mono (in_window hash from) recent s (λ q h. ground (
      arith,
      eq_iff q.request_ip_hash hash,
      eq_iff r.request_ip_hash hash,
      eq_iff q.request_ip_hash r.request_ip_hash,
    ))

wipe-in_window :
    (hash : String) (from now : ℕ) (s : Store)
    → count (in_window hash from) (Store.wipe_expired_results now s) ≡ count (in_window hash from) s
wipe-in_window hash from now s = count-wipe (in_window hash from) now s (λ r. ground arith)

wipe-count_recent :
    (hash : String) (since now : ℕ) (s : Store)
    → Store.count_recent_by_ip_hash hash since (Store.wipe_expired_results now s)
      ≡ Store.count_recent_by_ip_hash hash since s
unfolding Store.count_recent_by_ip_hash
wipe-count_recent hash since now s =
    count-wipe (λ r. r.request_ip_hash == hash && leb since r.requested_at) now s
      (λ r. ground arith)

-- A start keeps the limit if no other request changes the store while it runs, whatever the clock
-- says, and whether it succeeds or not.
pub start-IsLimited :
    (p : Platform) (o : Options) (now : ℕ) (input : Option StartInput) (ip id : String)
    (draws : List Draw) (s v' w' : Store) (response : Result DeviceAuthorizationError StartResponse)
    → IsLimited s
    → start p o now input ip id draws s s (Store.wipe_expired_results now s)
      ≡ some (v', w', response)
    → IsLimited v' × IsLimited w'
unfolding new_record
start-IsLimited p o now input ip id draws s v' w' response limited e =
    let swept : IsLimited (Store.wipe_expired_results now s) =
      λ hash from. rw (wipe-in_window hash from now s) (limited hash from) in
    elim (start_cases p o now ip id draws input s s (Store.wipe_expired_results now s) v' w'
      response e) [
        | inl (_, same, kept, _) ↦ (rw same limited, rw kept swept)
        | inr (r, h, same, stored, _) ↦ (
          rw same swept,
          λ hash from.
              rw (stored, h.whole)
                (create-in_window (new_record p o now h.input_ h.checked (ip_hash p o ip) id h.raw)
                  (Store.wipe_expired_results now s) hash from (swept hash from)
                  (rw (wipe-count_recent (ip_hash p o ip) (now - start_window_ms) now s)
                    h.within_limit)),
        )
      ]
