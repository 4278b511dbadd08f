-- ===== src/Review/Model/Requester.antt =====
-- `RequesterIdentity`, `ReasonProvenance` and `SignerInfo` of
-- packages/capability-review/src/model.ts.
use openkey.Common.{ℕ, String, Bool, Option}

pub data Provenance : Type 0 where
  verified origin_bound caller not_available : Provenance

pub record RequesterIdentity : Type 0 where
  pub display_name : String
  pub verified_origin : Option String
  pub app_id : Option String
  pub manifest_name : Option String
  pub manifest_name_provenance : Provenance
  pub manifest_id : Option String
  pub manifest_id_provenance : Provenance
  pub manifest_digest : Option String
  pub domain_warning : Bool
  pub origin_warning : Bool

pub data ReasonSource : Type 0 where
  from_manifest from_caller no_source : ReasonSource

pub record ReasonProvenance : Type 0 where
  pub text : String
  pub source : ReasonSource

pub data SignerProvenance : Type 0 where
  managed external : SignerProvenance

pub record SignerInfo : Type 0 where
  pub label : String
  pub address : String
  pub chain_id : ℕ
  pub provenance : SignerProvenance
