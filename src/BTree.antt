-- ===== src/BTree.antt =====
-- lib/btree: the B+ tree over the pager, and the cursor that moves in it.
pub mod Cursor
pub mod Search
pub mod Move
pub mod Read
pub mod Split
pub mod Borrow
pub mod Merge
pub mod Edit
pub mod Tree
mod Examples
