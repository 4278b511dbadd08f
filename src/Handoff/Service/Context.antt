-- ===== src/Handoff/Service/Context.antt =====
-- `assertRequest`, `bindContext`, `bindOwnerRevocation` and `assertContext`.
pub mod Bound
use openkey.Common.{
  ℕ, String, Bool, true, false, not, ◌&&◌, ◌||◌, Option, none, some, ◌==◌, leb, ltb, if◌then◌else◌,
  is_some,
}
use openkey.Common.Results.{Result, ok, err, ◌>>=◌, ◌>>◌, reject_if}
use openkey.Json.{Json, null, str, Fields, get}
use openkey.Device.Jwk.{is_text}
use openkey.Handoff.Types.{
  PreparedHandoffRecord, PreparedHandoffError, handoff_error, HandoffPlatform, handoff_claimed,
  binding_mismatch, handoff_context_unavailable,
}
use openkey.Handoff.Store.{Table, holds, bind}
use openkey.Handoff.Service.{active, digest_of, is_owner_revocation}

pub data Kind : Type 0 where
  authorization owner_revocation : Kind

-- The caller's fields, `undefined` as `none`.
pub record SigningInput : Type 0 where
  pub key_id : Option Json
  pub siwe : String
  pub jwk : Option Json
  pub host : String
  pub presentation : Option Json
  pub reported_origin : Option Json

pub record Binding : Type 0 where
  pub key_id : Option Json
  pub siwe : String
  pub jwk : Option Json
  pub host : String
  pub authorization_context_token : Option Json

-- A non-empty text
non_empty_text : Option Json → Bool
non_empty_text (some (str s)) = not (s == "")
non_empty_text _ = false

-- `requestKeyId && keyId !== requestKeyId`, of a request whose key is a text if it has one
other_key : Option Json → String → Bool
other_key (some (str k)) key_id = not (k == "") && not (key_id == k)
other_key _ key_id = false

-- `value ?? null`
or_null : Option Json → Option Json
or_null none = some null
or_null (some v) = some v

-- The text of a value that is one.
abbrev pub text_or_empty : Option Json → String
text_or_empty (some (str s)) = s
text_or_empty _ = ""

-- The expected kind: a request without a `kind` is an authorization.
unfoldable pub has_kind : Kind → Fields → Bool
has_kind authorization request = elim (get "kind" request) [
  | none ↦ true
  | some v ↦ is_text "authorization" (some v)
]
has_kind owner_revocation request = is_owner_revocation request

module _ (p : HandoffPlatform) where
  same_digest : Option Json → Option Json → Result PreparedHandoffError Bool
  same_digest a b = do x ← digest_of p a; y ← digest_of p b; ok (x == y)

  unfoldable pub assert_request :
      ℕ → String → String → SigningInput → Table → Result PreparedHandoffError String
  unfolding non_empty_text same_digest or_null other_key
  assert_request now ticket user_id input t = do
    r ← active p now ticket t
    reject_if (not (r.owner_id == user_id)) (handoff_error handoff_claimed 403)
    reject_if (is_some (get "kind" r.request)) (handoff_error binding_mismatch 403)
    reject_if (is_some r.context_token_hash) (handoff_error handoff_context_unavailable 409)
    reject_if
        (not (non_empty_text input.key_id)
          || not (is_text input.siwe (get "siwe" r.request))
          || not (is_text input.host (get "host" r.request)))
        (handoff_error binding_mismatch 403)
    same_jwk ← same_digest input.jwk (get "jwk" r.request)
    reject_if (not same_jwk) (handoff_error binding_mismatch 403)
    same_presentation ←
        same_digest (or_null input.presentation) (or_null (get "presentation" r.request))
    reject_if
        (not same_presentation
          || is_some input.reported_origin
          || other_key (get "keyId" r.request) (text_or_empty input.key_id))
        (handoff_error binding_mismatch 403)
    ok r.ticket_hash

  -- The checks of `bindContext` before it writes: the row, and whether it must be bound.
  check_binding :
      ℕ → String → String → Binding → Table → Result PreparedHandoffError PreparedHandoffRecord
  unfolding non_empty_text same_digest other_key
  check_binding now ticket user_id binding t = do
    r ← active p now ticket t
    reject_if (not (r.owner_id == user_id)) (handoff_error handoff_claimed 403)
    reject_if (is_some (get "kind" r.request)) (handoff_error binding_mismatch 403)
    reject_if
        (not (non_empty_text binding.authorization_context_token)
          || not (non_empty_text binding.key_id)
          || not (is_text binding.siwe (get "siwe" r.request))
          || not (is_text binding.host (get "host" r.request)))
        (handoff_error binding_mismatch 403)
    same_jwk ← same_digest binding.jwk (get "jwk" r.request)
    reject_if (not same_jwk || other_key (get "keyId" r.request) (text_or_empty binding.key_id))
        (handoff_error binding_mismatch 403)
    reject_if
        (is_some r.context_token_hash
          && (not (
                holds r.context_token_hash
                  (p.sha256_hex (text_or_empty binding.authorization_context_token)))
              || not (holds r.selected_key_id (text_or_empty binding.key_id))))
        (handoff_error binding_mismatch 403)
    ok r

  -- The write of a context, refused where the store refuses it.
  bind_row :
      ℕ
      → String
      → String
      → String
      → PreparedHandoffRecord
      → Table
      → Table × Result PreparedHandoffError (Unit {0})
  bind_row now user_id token key_id r t =
      let (t', done) = bind r.ticket_hash user_id (p.sha256_hex token) key_id now t in
      (t', if done then ok tt else err (handoff_error handoff_context_unavailable 409))

  unfoldable pub bind_context :
      ℕ
      → ℕ
      → String
      → String
      → Binding
      → Table
      → Table
      → Table × Result PreparedHandoffError (Unit {0})
  unfolding check_binding bind_row
  bind_context now now' ticket user_id binding t u =
      elim (check_binding now ticket user_id binding t) [
        | err e ↦ (u, err e)
        | ok r ↦
            if is_some r.context_token_hash
            then (u, ok tt)
            else bind_row now' user_id (text_or_empty binding.authorization_context_token)
                (text_or_empty binding.key_id) r u
      ]

  unfoldable pub bind_owner_revocation :
      ℕ
      → ℕ
      → String
      → String
      → String
      → String
      → Table
      → Table
      → Table × Result PreparedHandoffError (Unit {0})
  unfolding bind_row
  bind_owner_revocation now now' ticket user_id key_id token t u = elim (active p now ticket t) [
    | err e ↦ (u, err e)
    | ok r ↦
        if not (r.owner_id == user_id) || not (is_owner_revocation r.request)
        then (u, err (handoff_error binding_mismatch 403))
        else (if is_some r.context_token_hash
            then (u, err (handoff_error handoff_context_unavailable 409))
            else bind_row now' user_id token key_id r u)
  ]

  unfoldable pub assert_context :
      ℕ
      → String
      → String
      → String
      → Kind
      → Table
      → Result PreparedHandoffError PreparedHandoffRecord
  unfolding has_kind
  assert_context now ticket user_id token kind t = do
    r ← active p now ticket t
    reject_if (not (r.owner_id == user_id)) (handoff_error handoff_claimed 403)
    reject_if (not (has_kind kind r.request)) (handoff_error binding_mismatch 403)
    reject_if (token == "" || not (holds r.context_token_hash (p.sha256_hex token)))
        (handoff_error binding_mismatch 403)
    ok r
