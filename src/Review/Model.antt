-- ===== src/Review/Model.antt =====
-- `CapabilityReviewModel` of packages/capability-review/src/model.ts.
pub mod Trust
pub mod Requester
use openkey.Common.{ℕ, String, Bool, Option, List}
use openkey.Json.{Json}
use Trust.{MetadataTrust}
use Requester.{RequesterIdentity, ReasonProvenance, SignerInfo}

pub data PermissionSeverity : Type 0 where
  standard attention sensitive : PermissionSeverity

pub data CapabilityFamily : Type 0 where
  bootstrap_kv bootstrap_sql bootstrap_capabilities bootstrap_delegation : CapabilityFamily
  own_app_data cross_app_data public_data : CapabilityFamily
  secret_read secret_namespace_list secret_mutation : CapabilityFamily
  encryption_key encryption_decrypt app_keys : CapabilityFamily
  space_create space_read hooks duckdb_data database_admin file_data unknown : CapabilityFamily

pub record CapabilityAction : Type 0 where
  pub id : String
  pub ability : String
  pub verb : String
  pub required : Bool
  pub selected : Bool
  pub editable : Bool
  pub caveats : List Json

pub record AppScopedSecret : Type 0 where
  pub secret_name : String
  pub scope : Option String

pub record CapabilityGrant : Type 0 where
  pub id : String
  pub family : CapabilityFamily
  pub severity : PermissionSeverity
  pub service : String
  pub space : String
  pub path : String
  pub owner : Option String
  pub owned_by_self : Option Bool
  pub display_label : String
  pub metadata_label : Option String
  pub app_scoped_secret : Option AppScopedSecret
  pub app_scope_near_miss : Option Bool
  pub resource_service : Option String
  pub service_mismatch : Option Bool
  pub actions : List CapabilityAction

pub record ImmutableSiweFields : Type 0 where
  pub address : String
  pub chain_id : ℕ
  pub domain : String
  pub issued_at : String
  pub expiration_time : String
  pub space_id : String
  pub jwk : Json
  pub nonce : String

pub data WarningCode : Type 0 where
  unknown_service malformed_space no_recap duplicate_action : WarningCode
  unrecognized_recap_namespace unparseable_siwe : WarningCode

pub record ParseWarning : Type 0 where
  pub code : WarningCode
  pub message : String
  pub hint : Option String

pub data RequestProtocol : Type 0 where
  legacy_message siwe_plain tinycloud_siwe_recap malformed_recap : RequestProtocol

pub record CapabilityReviewModel : Type 0 where
  pub version : ℕ
  pub protocol : RequestProtocol
  pub raw_message : String
  pub requester : RequesterIdentity
  pub reason : ReasonProvenance
  pub signer : SignerInfo
  pub expiry : Option String
  pub immutable : Option ImmutableSiweFields
  pub metadata_trust : MetadataTrust
  pub permissions : List CapabilityGrant
  pub parse_warnings : List ParseWarning
