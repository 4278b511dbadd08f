-- ===== src/Handoff/Service.antt =====
-- `PreparedHandoffService` of apps/api/src/services/prepared-handoff.ts. A method takes the readings
-- of the clock that it makes and the tables that it meets at its awaits, in their order, and returns
-- the table that it leaves with its result.
pub mod Claim
pub mod Context
pub mod Signing
use openkey.Common.{
  ℕ, String, Bool, true, false, not, ◌&&◌, ◌||◌, Option, none, some, ◌==◌, leb, if◌then◌else◌,
  is_some, nat_eq, length,
}
use openkey.Common.Results.{Result, ok, err, ◌>>=◌, ◌>>◌, reject_if}
use openkey.Text.{◌<>◌, is_base64url_43}
use openkey.Json.{
  Json, null, bool, num, str, arr, obj, Items, nil, item, Fields, end, field, get, canonical,
}
use openkey.Device.Jwk.{is_text}
use openkey.Handoff.Types.{
  PreparedHandoffRecord, PreparedHandoffError, handoff_error, thrown, HandoffPlatform, Status,
  pending, cancelled, consumed, handoff_not_found, handoff_expired, handoff_cancelled,
  handoff_consumed,
}
use openkey.Handoff.Store.{Table, find_row}

-- `authorization` is a request without a `kind`.
abbrev pub is_owner_revocation : Fields → Bool
is_owner_revocation request = is_text "owner-revocation" (get "kind" request)

-- `fail` by the status of a row that is not expired.
unfoldable pub by_status :
    PreparedHandoffRecord → Status → Result PreparedHandoffError PreparedHandoffRecord
by_status r pending = ok r
by_status r cancelled = err (handoff_error handoff_cancelled 410)
by_status r consumed = err (handoff_error handoff_consumed 409)

module _ (p : HandoffPlatform) where
  -- `stableStringify` of a value whose keys are sorted.
  mutual
    print : Json → String
    print null = p.base.stringify null
    print (bool b) = p.base.stringify (bool b)
    print (num n) = p.base.stringify (num n)
    print (str s) = p.base.stringify (str s)
    print (arr xs) = "[" <> (print_items xs <> "]")
    print (obj fs) = "{" <> (print_fields fs <> "}")

    print_items : Items → String
    print_items nil = ""
    print_items (item v nil) = print v
    print_items (item v (item w vs)) = print v <> ("," <> print_items (item w vs))

    print_fields : Fields → String
    print_fields end = ""
    print_fields (field k v end) = p.base.stringify (str k) <> (":" <> print v)
    print_fields (field k v (field l w fs)) =
        p.base.stringify (str k) <> (":" <> (print v <> ("," <> print_fields (field l w fs))))

  unfoldable pub digest_jwk : Json → String
  unfolding print
  digest_jwk v = p.sha256_hex (print (canonical p.base.locale_le v))

  -- The digest of what may be `undefined`, which the hash refuses.
  unfoldable pub digest_of : Option Json → Result PreparedHandoffError String
  digest_of none = err thrown
  digest_of (some v) = ok (digest_jwk v)

  unfoldable pub is_opaque : String → Bool
  is_opaque value =
      let decoded = p.base.base64url_decode value in
      is_base64url_43 value
      && nat_eq (length decoded) 32
      && p.base.base64url_encode decoded == value

  -- What `active` answers for the row of the ticket.
  unfoldable pub active_row :
      ℕ → Option PreparedHandoffRecord → Result PreparedHandoffError PreparedHandoffRecord
  unfolding by_status
  active_row now none = err (handoff_error handoff_not_found 404)
  active_row now (some r) =
      if leb r.expires_at now then err (handoff_error handoff_expired 410) else by_status r r.status

  unfoldable pub active : ℕ → String → Table → Result PreparedHandoffError PreparedHandoffRecord
  active now ticket t =
      if is_opaque ticket
      then active_row now (find_row (p.sha256_hex ticket) t)
      else err (handoff_error handoff_not_found 404)
