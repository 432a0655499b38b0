-- ===== src/Pager/Leaf/Insert.antt =====
-- `write_cell`, on every branch: it refuses a full page and a key that is there, and otherwise puts
-- the cell in its place, in memory and in the file.
use cpplite.Common.{
  ℕ, ◌+◌, ◌-◌, ◌≤◌, ◌≡◌, sym, ap, ◌∙◌, subst, arith, true, false, ◌||◌, ◌++◌, ltb, ◌==◌,
  if◌then◌else◌, length, drop, insert_at, map-insert_at, length-insert_at,
}
use cpplite.Common.Outcome.{done, thrown, duplicate_key}
use cpplite.Common.Sorted.{IsSorted, has, rank, search_keys_lem}
use cpplite.Common.Sorted.Edits.{insert_at-IsSorted, has-insert_at}
use cpplite.Pager.Page.{leaf, LeafCell, sizeof_leaf_cell}
use cpplite.Pager.Disk.{PagerState, update}
use cpplite.Pager.Leaf.Valid.{IsValid, OnDisk}
use cpplite.Pager.Leaf.{LeafPageManager, keys, header_of, with_cells, write_cell}

-- The manager with one cell more, at the rank of its key.
abbrev pub with_cell : LeafPageManager → LeafCell → LeafPageManager
with_cell m cell =
    with_cells m (insert_at (rank cell.key (keys m.cells)) cell m.cells) (m.num_cells + 1)
      (m.total_bytes_free - sizeof_leaf_cell)

pub with_cell-IsValid :
    (m : LeafPageManager) (cell : LeafCell)
    → IsValid m
    → sizeof_leaf_cell ≤ m.total_bytes_free
    → has cell.key (keys m.cells) ≡ false
    → IsValid (with_cell m cell)
with_cell-IsValid m cell v l e = record {
  count = omega (arith, v.count, length-insert_at {0} (rank cell.key (keys m.cells)) cell m.cells);
  sorted =
      subst IsSorted (sym (map-insert_at _ (rank cell.key (keys m.cells)) cell m.cells))
        (insert_at-IsSorted cell.key (keys m.cells) v.sorted e);
  room = omega (arith, v.room);
}

-- The cell is in the manager and in its page, and no other page is written.
abbrev pub CellWritten : LeafPageManager → LeafCell → PagerState → Type 0
CellWritten m cell s =
    let m' = with_cell m cell in
    (t : PagerState) × (write_cell m cell s ≡ done (true, m') t)
    × IsValid m'
    × OnDisk m' t
    × ((q : ℕ) → has q (keys m'.cells) ≡ (if cell.key == q then true else has q (keys m.cells)))
    × ((q : ℕ) → t.file q ≡ (if m.pgno == q then t.file q else s.file q))

-- On a well-formed manager whose page has no room for a cell, or that has the key, `write_cell`
-- changes nothing: without room it returns false, whatever the key, and with room it throws.
pub write_cell_refused :
    (m : LeafPageManager) (cell : LeafCell) (s : PagerState)
    → IsValid m
    → (ltb m.total_bytes_free sizeof_leaf_cell || has cell.key (keys m.cells)) ≡ true
    → write_cell m cell s ≡ (
        if ltb m.total_bytes_free sizeof_leaf_cell
        then done (false, m) s
        else thrown duplicate_key s)
unfolding write_cell
write_cell_refused m cell s v e =
    ground (arith, v.count, search_keys_lem cell.key (keys m.cells) v.sorted)

-- With room and a new key `write_cell` succeeds: the manager and its page are well formed, hold the
-- new key and the keys that they held, and no other page is written.
pub write_cell-IsValid :
    (m : LeafPageManager) (cell : LeafCell) (s : PagerState)
    → IsValid m
    → OnDisk m s
    → sizeof_leaf_cell ≤ m.total_bytes_free
    → has cell.key (keys m.cells) ≡ false
    → CellWritten m cell s
unfolding write_cell
write_cell-IsValid m cell s v o l e =
    let m' = with_cell m cell in
    let valid = with_cell-IsValid m cell v l e in
    let old = drop (length m'.cells) (m.cells ++ o.old_cells) in
    (
      record s {
        file =
            update (update s.file m.pgno (leaf (header_of m) (m'.cells ++ old))) m.pgno
              (leaf (header_of m') (m'.cells ++ old));
      },
      ground (
        arith,
        o.page,
        o.numbered,
        v.count,
        v.room,
        valid.room,
        search_keys_lem cell.key (keys m.cells) v.sorted,
      ),
      valid,
      record { old_cells = old; page = ground arith; numbered = o.numbered },
      λ q.
          ap (has q) (map-insert_at _ (rank cell.key (keys m.cells)) cell m.cells)
          ∙ has-insert_at q (rank cell.key (keys m.cells)) cell.key (keys m.cells),
      λ q. ground arith,
    )
