-- ===== src/Pager.antt =====
-- lib/pager: the database file as numbered pages, and the managers that read and write them.
pub mod Page
mod Examples
pub mod Disk
pub mod FirstPage
pub mod FreeList
pub mod Overflow
pub mod Create
pub mod Leaf
pub mod Node
pub mod Seek
