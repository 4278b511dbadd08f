-- ===== src/Review.antt =====
-- The consent review of packages/capability-review/src: its model, the restriction of a model to
-- the owner's selection, and the check that a candidate is a part of its baseline.
pub mod Model
pub mod Ids
pub mod Multiset
pub mod Subset
pub mod Restrict
pub mod Demo
