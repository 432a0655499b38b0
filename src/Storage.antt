-- ===== src/Storage.antt =====
-- Where a page stands in its table's files: the arithmetic of lib/storage/storage_utils.h.
pub mod Offsets
pub mod Paths
pub mod Engine
pub mod Sample
mod Examples
use cpplite.Common.{ℕ, ◌*◌, ◌/◌, ◌%◌, ◌^◌}

unfoldable pub pgno_to_segid : ℕ → ℕ → ℕ
pgno_to_segid pgno pages_per_segment = pgno / pages_per_segment

unfoldable pub pgno_to_rel_pgno : ℕ → ℕ → ℕ
pgno_to_rel_pgno pgno pages_per_segment = pgno % pages_per_segment

unfoldable pub pgno_to_offset : ℕ → ℕ → ℕ
pgno_to_offset pgno page_size = pgno * page_size % 2 ^ 64

unfoldable pub pgno_to_file_offset : ℕ → ℕ → ℕ → ℕ
unfolding pgno_to_rel_pgno pgno_to_offset
pgno_to_file_offset pgno pages_per_segment page_size =
    pgno_to_offset (pgno_to_rel_pgno pgno pages_per_segment) page_size
