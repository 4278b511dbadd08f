-- ===== src/Device/Platform.antt =====
-- What device authorization takes from outside the repository: node:crypto, `Buffer`, `URL`, the
-- `siwe` package, `Date` texts, Unicode tables and JSON texts.
use openkey.Common.{ℕ, Bool, String, Option, List}
use openkey.Json.{Json}

pub record Url : Type 0 where
  pub origin : String
  pub hostname : String
  pub protocol : String

-- The fields that are read of a parsed `SiweMessage`; the time is undefined when absent.
pub record SiweMessage : Type 0 where
  pub uri : String
  pub expiration_time : Option String
  pub nonce : String
  pub address : String
  pub chain_id : ℕ

pub record Platform : Type 0 where
  pub sha256 : String → String
  pub base64url_decode : String → List ℕ
  pub base64url_encode : List ℕ → String
  -- `new URL(value)`, `none` where it throws
  pub parse_url : String → Option Url
  -- `new SiweMessage(message)`, `none` where it throws
  pub parse_siwe : String → Option SiweMessage
  pub prepare_message : SiweMessage → String
  -- `Date.parse`, `none` for NaN
  pub parse_date : String → Option ℕ
  pub to_iso_string : ℕ → String
  pub to_upper_case : String → String
  -- `\p{Cf}` or `\p{Default_Ignorable_Code_Point}`
  pub is_format_char : ℕ → Bool
  -- `\s`
  pub is_space_char : ℕ → Bool
  -- `JSON.stringify`
  pub stringify : Json → String
  -- `encodeURIComponent`
  pub encode_uri_component : String → String
  -- `a.localeCompare(b) <= 0`
  pub locale_le : String → String → Bool
  -- `String(value)` of an array, an object or a number
  pub show : Json → String
