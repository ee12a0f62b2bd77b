-- ===== src/Merge.antt =====
-- internal/util/merge: bags of properties, which the applier merges.
pub mod Bag
