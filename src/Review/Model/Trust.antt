-- ===== src/Review/Model/Trust.antt =====
-- `MetadataTrust` of packages/capability-review/src/model.ts.
use openkey.Common.{String}

pub data MetadataTrustStatus : Type 0 where
  verified origin_bound unsigned stale wrong_key digest_mismatch : MetadataTrustStatus

pub record MetadataTrust : Type 0 where
  pub status : MetadataTrustStatus
  pub reason : String
