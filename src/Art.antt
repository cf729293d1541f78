-- ===== src/Art.antt =====
-- The adaptive radix tree: the version word of a node, its children, its prefix and its growth, and
-- the leaves.
pub mod Version
pub mod Node
pub mod Prefix
pub mod Grow
pub mod Leaf
pub mod Tree
