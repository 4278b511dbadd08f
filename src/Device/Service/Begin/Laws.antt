-- ===== src/Device/Service/Begin/Laws.antt =====
-- What `start` stores and returns, and the limit on starts from one address.
use openkey.Common.{
  ℕ, ◌-◌, ◌<◌, String, ◌≡◌, refl, true, Option, none, some, List, leb, arith, Option-cases,
  Bool-cases, inl, inr, ◌⊎◌, ap, ◌∙◌, Has,
}
use openkey.Common.Results.{Result, Result-cases, ok, err}
use openkey.Text.{all_chars}
use openkey.Device.Types.{
  DeviceAuthorizationRecord, DeviceAuthorizationError, start_limit, start_window_ms,
}
use openkey.Device.Platform.{Platform}
use openkey.Device.Store
use openkey.Device.Store.{Store, find_by_id, find_by_user_code}
use openkey.Device.UserCode.{Draw, fresh_user_code}
use openkey.Device.UserCode.Laws.{fresh_user_code_sound, is_code_char}
use openkey.Device.Start.{StartInput, Checked, check_start}
use openkey.Device.Service.{Options}
use openkey.Device.Service.Begin.{
  StartResponse, ip_hash, new_record, start_response, start_limited, start_read, start,
}

module _ (p : Platform) (o : Options) (now : ℕ) (ip id : String) (draws : List Draw) where
  -- The record of a start that is not refused: what was checked, and the fresh code.
  pub record IsAdmitted (input : Option StartInput) (t : Store) (r : DeviceAuthorizationRecord)
      : Type 0 where
    pub input_ : StartInput
    pub given : input ≡ some input_
    pub checked : Checked
    pub accepted : check_start p now (some input_) ≡ ok checked
    pub raw : String
    pub fresh : (d : Draw) × Has d draws × (find_by_user_code raw d.met ≡ none)
    pub code : all_chars is_code_char raw ≡ true
    pub within_limit :
        Store.count_recent_by_ip_hash (ip_hash p o ip) (now - start_window_ms) t < start_limit
    pub whole : r ≡ new_record p o now input_ checked (ip_hash p o ip) id raw

  start_limited-IsAdmitted :
      (input : StartInput) (c : Checked) (t : Store) (r : DeviceAuthorizationRecord)
      → check_start p now (some input) ≡ ok c
      → start_limited p o now input c (ip_hash p o ip) id draws t ≡ some (ok r)
      → IsAdmitted (some input) t r
  unfolding start_limited
  start_limited-IsAdmitted input c t r accepted e =
      elim (Bool-cases (
        leb start_limit
          (Store.count_recent_by_ip_hash (ip_hash p o ip) (now - start_window_ms) t))) [
            | inl limited ↦ absurd (ground arith)
            | inr free ↦ elim (Option-cases (fresh_user_code draws)) [
              | inl drawing ↦ absurd (ground (arith, rw (free, drawing, start_limited) at e))
              | inr (raw, drawn) ↦
                  let (unused, chars) = fresh_user_code_sound draws raw drawn in
                  let same = rw (free, drawn, start_limited) at e in
                  record {
                    input_ = input;
                    given = refl;
                    checked = c;
                    accepted = accepted;
                    raw = raw;
                    fresh = unused;
                    code = chars;
                    within_limit = ground arith;
                    whole = ground arith;
                  }
            ]
          ]

  pub start_read-IsAdmitted :
      (input : Option StartInput) (t : Store) (r : DeviceAuthorizationRecord)
      → start_read p o now input ip id draws t ≡ some (ok r)
      → IsAdmitted input t r
  unfolding start_read
  start_read-IsAdmitted none t r e = absurd (ground arith)
  start_read-IsAdmitted (some input) t r e = elim (Result-cases (check_start p now (some input))) [
    | inr (x, bad) ↦ absurd (ground (arith, rw (bad, start_read) at e))
    | inl (c, good) ↦ start_limited-IsAdmitted input c t r good (rw (good, start_read) at e)
  ]

  -- A start is refused and changes nothing, or sweeps one store and writes its record to another.
  pub start_cases :
      (input : Option StartInput) (t v w v' w' : Store)
      (response : Result DeviceAuthorizationError StartResponse)
      → start p o now input ip id draws t v w ≡ some (v', w', response)
      → ((x : DeviceAuthorizationError) × (v' ≡ v) × (w' ≡ w) × (response ≡ err x))
        ⊎ ((r : DeviceAuthorizationRecord) × IsAdmitted input t r
            × (v' ≡ Store.wipe_expired_results now v)
            × (w' ≡ Store.create r w)
            × (response ≡ start_response p o r.id r.user_code))
  unfolding start
  start_cases input t v w v' w' response e =
      elim (Option-cases (start_read p o now input ip id draws t)) [
        | inl drawing ↦ absurd (ground (arith, rw (drawing, start) at e))
        | inr (m, read) ↦ elim (Result-cases m) [
          | inr (x, refused) ↦
              let e' = rw (read, refused, start) at e in
              inl (x, ground arith, ground arith, ground arith)
          | inl (r, admitted) ↦
              let e' = rw (read, admitted, start) at e in
              inr (
                r,
                start_read-IsAdmitted input t r (read ∙ ap some admitted),
                ground arith,
                ground arith,
                ground arith,
              )
        ]
      ]
