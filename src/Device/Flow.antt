-- ===== src/Device/Flow.antt =====
-- The methods together: what one request stores is what the next one finds.
use openkey.Common.{
  ℕ, ◌+◌, ◌<◌, String, ◌≡◌, refl, sym, ap, ◌∙◌, false, none, some, List, leb, arith, inl, inr,
}
use openkey.Common.Results.{ok, ◌>>=◌}
use openkey.Device.Types.{DeviceAuthorizationRecord, pending, transaction_ttl_ms}
use openkey.Device.Platform.{Platform}
use openkey.Device.Store
use openkey.Device.Store.{Store, find_by_user_code}
use openkey.Device.System.{System, Reach}
use openkey.Device.System.Histories.{Reach-Follows}
use openkey.Device.Store.Laws.{find_by_user_code-create}
use openkey.Device.UserCode.{Draw, normalize_user_code, display_user_code}
use openkey.Device.UserCode.Laws.{KeepsCapitals, normalize-display_user_code}
use openkey.Device.Start.{StartInput}
use openkey.Device.Service.{Options}
use openkey.Device.Service.Begin.{StartResponse, start, ip_hash, new_record, start_response}
use openkey.Device.Service.Begin.Laws.{start_cases}
use openkey.Device.Service.Window.{DeviceView, view_of, lookup}

start_response_user_code :
    (p : Platform) (o : Options) (id raw : String) (response : StartResponse)
    → start_response p o id raw ≡ ok response
    → (response.user_code ≡ display_user_code p raw) × (response.transaction_id ≡ id)
unfolding start_response ◌>>=◌
start_response_user_code p o id raw response e = ground arith

shows_pending :
    (p : Platform) (later : ℕ) (code : String) (t : Store) (s : DeviceAuthorizationRecord)
    → find_by_user_code (normalize_user_code p code) t ≡ some s
    → s.status ≡ pending
    → later < s.transaction_expires_at
    → lookup p later code t ≡ some (view_of p s)
unfolding lookup
shows_pending p later code t s found waiting open_ =
    let live : leb s.transaction_expires_at later ≡ false = ground arith in
    rw (found, lookup) (rw (live, waiting) refl)

-- The user code that a start returns shows the request to its owner after any later history, before
-- it expires and as long as it is pending, if no record of the store that it was written to had that
-- code.
pub lookup-start :
    (p : Platform) (capitals : KeepsCapitals p) (o : Options) (now later : ℕ) (input : StartInput)
    (ip id : String) (draws : List Draw) (t v w v' : Store) (response : StartResponse)
    (q : DeviceAuthorizationRecord) (u x : System)
    → start p o now (some input) ip id draws t v w ≡ some (v', u.store, ok response)
    → find_by_user_code (normalize_user_code p response.user_code) w ≡ none
    → Reach p o u x
    → find_by_user_code (normalize_user_code p response.user_code) x.store ≡ some q
    → q.status ≡ pending
    → later < now + transaction_ttl_ms
    → (view : DeviceView) × (lookup p later response.user_code x.store ≡ some view)
      × (view.id ≡ response.transaction_id)
      × (view.session_did ≡ input.session_did)
      × (view.transaction_expires_at ≡ now + transaction_ttl_ms)
unfolding new_record lookup view_of
lookup-start p capitals o now later input ip id draws t v w v' response q u x e unused rest there
      waiting open_ =
    elim (start_cases p o now ip id draws (some input) t v w v' u.store (ok response) e) [
      | inl (_, _, _, refused) ↦ absurd (cc refused)
      | inr (n, h, _, stored, answered) ↦
          let made = new_record p o now h.input_ h.checked (ip_hash p o ip) id h.raw in
          let whole : n ≡ made = h.whole in
          let (shown, named) =
            start_response_user_code p o n.id n.user_code response (sym answered) in
          let typed : normalize_user_code p response.user_code ≡ h.raw =
            ap (normalize_user_code p) (
              shown ∙ ap (λ (r : DeviceAuthorizationRecord). display_user_code p r.user_code) whole)
            ∙ normalize-display_user_code p capitals h.raw h.code in
          let written : u.store ≡ Store.create made w = stored ∙ ap (λ r. Store.create r w) whole in
          let met : find_by_user_code h.raw u.store ≡ some made =
            ap (find_by_user_code h.raw) written
            ∙ find_by_user_code-create made w
                (ap (λ c. find_by_user_code c w) (sym typed) ∙ unused) in
          let (s, found, evolved) = (Reach-Follows p o rest).by_code h.raw made met in
          let same : s ≡ q = cc (found, typed, there) in
          let pending_ : s.status ≡ pending =
            ap (λ (r : DeviceAuthorizationRecord). r.status) same ∙ waiting in
          let (_, deadline) = evolved.pending_before pending_ in
          (
            view_of p s,
            shows_pending p later response.user_code x.store s
                (ap (λ c. find_by_user_code c x.store) typed ∙ found) pending_ (rw deadline open_),
            evolved.same_id ∙ sym (named ∙ ap (λ (r : DeviceAuthorizationRecord). r.id) whole),
            evolved.same_session ∙ sym (given (h.given)),
            deadline,
          )
    ]
  where
    given : {i j : StartInput} → some i ≡ some j → i.session_did ≡ j.session_did
    given e = cc e
