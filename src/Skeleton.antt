-- ===== src/Skeleton.antt =====
-- graphics/src/SkeletonNode.cc and graphics/src/Skeleton.cc: the tree of a skeleton's nodes.
pub mod Node
pub mod Walk
pub mod Writes
pub mod Whole
pub mod Handles
pub mod Transforms
mod Tests
