-- ===== src/Pager/Node/Insert.antt =====
-- `insert_node_cell`, on every branch: it refuses a full page and a key that is there, and otherwise puts
-- the cell in its place, in memory and in the file.
use cpplite.Common.{
  ℕ, ◌+◌, ◌-◌, ◌≤◌, ◌≡◌, sym, ap, ◌∙◌, subst, arith, true, false, ◌||◌, ◌++◌, ltb, ◌==◌,
  if◌then◌else◌, length, drop, insert_at, map-insert_at, length-insert_at,
}
use cpplite.Common.Outcome.{done, thrown, duplicate_key}
use cpplite.Common.Sorted.{IsSorted, has, rank, search_keys_lem}
use cpplite.Common.Sorted.Edits.{insert_at-IsSorted, has-insert_at}
use cpplite.Pager.Page.{node, null_page, sizeof_node_cell}
use cpplite.Pager.Disk.{PagerState, update}
use cpplite.Pager.Node.Valid.{IsValid, OnDisk}
use cpplite.Pager.Node.{NodePageManager, keys, header_of, with_cells, new_cell, insert_node_cell}

-- The manager with one cell more, with no child yet, at the rank of its key.
abbrev pub with_cell : NodePageManager → ℕ → NodePageManager
with_cell m key =
    with_cells m (insert_at (rank key (keys m.cells)) (new_cell key null_page) m.cells)
      (m.num_cells + 1) (m.total_bytes_free - sizeof_node_cell)

with_cell-IsValid :
    (m : NodePageManager) (key : ℕ)
    → IsValid m
    → sizeof_node_cell ≤ m.total_bytes_free
    → has key (keys m.cells) ≡ false
    → IsValid (with_cell m key)
with_cell-IsValid m key v l e =
    let i = rank key (keys m.cells) in
    record {
      count = omega (arith, v.count, length-insert_at {0} i (new_cell key null_page) m.cells);
      sorted =
          subst IsSorted (sym (map-insert_at _ i (new_cell key null_page) m.cells))
            (insert_at-IsSorted key (keys m.cells) v.sorted e);
      room = omega (arith, v.room);
    }

-- The key is in the manager and in its page, and no other page is written.
abbrev pub CellInserted : NodePageManager → ℕ → PagerState → Type 0
CellInserted m key s =
    let m' = with_cell m key in
    (t : PagerState) × (insert_node_cell m key s ≡ done (true, m') t)
    × IsValid m'
    × OnDisk m' t
    × ((q : ℕ) → has q (keys m'.cells) ≡ (if key == q then true else has q (keys m.cells)))
    × ((q : ℕ) → t.file q ≡ (if m.pgno == q then t.file q else s.file q))

-- On a well-formed manager whose page has no room for a cell, or that has the key,
-- `insert_node_cell` changes nothing: without room it returns false, whatever the key, and with
-- room it throws.
pub insert_node_cell_refused :
    (m : NodePageManager) (key : ℕ) (s : PagerState)
    → IsValid m
    → (ltb m.total_bytes_free sizeof_node_cell || has key (keys m.cells)) ≡ true
    → insert_node_cell m key s ≡ (
        if ltb m.total_bytes_free sizeof_node_cell
        then done (false, m) s
        else thrown duplicate_key s)
unfolding insert_node_cell
insert_node_cell_refused m key s v e =
    ground (arith, v.count, search_keys_lem key (keys m.cells) v.sorted)

-- With room and a new key `insert_node_cell` succeeds: the manager and its page are well formed, hold
-- the new key and the keys that they held, and no other page is written.
pub insert_node_cell-IsValid :
    (m : NodePageManager) (key : ℕ) (s : PagerState)
    → IsValid m
    → OnDisk m s
    → sizeof_node_cell ≤ m.total_bytes_free
    → has key (keys m.cells) ≡ false
    → CellInserted m key s
unfolding insert_node_cell
insert_node_cell-IsValid m key s v o l e =
    let m' = with_cell m key in
    let valid = with_cell-IsValid m key v l e in
    let old = drop (length m'.cells) (m.cells ++ o.old_cells) in
    let i = rank key (keys m.cells) in
    (
      record s {
        file =
            update (update s.file m.pgno (node (header_of m) (m'.cells ++ old))) m.pgno
              (node (header_of m') (m'.cells ++ old));
      },
      ground (
        arith,
        o.page,
        o.numbered,
        v.count,
        v.room,
        valid.room,
        search_keys_lem key (keys m.cells) v.sorted,
      ),
      valid,
      record { old_cells = old; page = ground arith; numbered = o.numbered },
      λ q.
          ap (has q) (map-insert_at _ i (new_cell key null_page) m.cells)
          ∙ has-insert_at q i key (keys m.cells),
      λ q. ground arith,
    )
