-- ===== src/BpTree.antt =====
-- src/bptree: the copy-on-write B+tree.
pub mod Meta
pub mod Mem
pub mod States
pub mod Leaf
pub mod Branch
pub mod Node
pub mod Shrink
pub mod Insert
pub mod Remove
pub mod Cursor
pub mod Split
pub mod Map
pub mod Iter
pub mod Chain
pub mod Tree
pub mod Tests
