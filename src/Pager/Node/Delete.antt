-- ===== src/Pager/Node/Delete.antt =====
-- `delete_node_cell`, on every branch.
use cpplite.Common.{
  ℕ, ◌+◌, ◌-◌, ◌%◌, ◌^◌, ◌≡◌, sym, ap, ◌∙◌, subst, arith, true, false, ◌++◌, ◌==◌, if◌then◌else◌,
  length, drop, erase_at, map-erase_at, length-erase_at, length-map,
}
use cpplite.Common.Outcome.{done, thrown, key_not_found}
use cpplite.Common.Sorted.{IsSorted, has, rank, search_keys_lem, has-eq-rank}
use cpplite.Common.Sorted.Edits.{erase_at-IsSorted, has-erase_at}
use cpplite.Pager.Page.{node, NodeCell, sizeof_node_cell}
use cpplite.Pager.Disk.{PagerState, update}
use cpplite.Pager.Node.Valid.{IsValid, OnDisk, rank_lem}
use cpplite.Pager.Node.{NodePageManager, keys, header_of, with_cells, delete_node_cell}

-- The manager without the cell at the rank of a key.
abbrev pub without_key : NodePageManager → ℕ → NodePageManager
without_key m key =
    with_cells m (erase_at (rank key (keys m.cells)) m.cells) (m.num_cells - 1)
      (m.total_bytes_free + sizeof_node_cell)

without_key-IsValid :
    (m : NodePageManager) (key : ℕ)
    → IsValid m
    → has key (keys m.cells) ≡ true
    → IsValid (without_key m key)
without_key-IsValid m key v e =
    let at = (rank_lem key m.cells v.sorted e).0 in
    let len = length-erase_at {0} (rank key (keys m.cells)) m.cells at in
    record {
      count = omega (arith, v.count, len);
      sorted =
          subst IsSorted (sym (map-erase_at _ (rank key (keys m.cells)) m.cells))
            (erase_at-IsSorted (rank key (keys m.cells)) (keys m.cells) v.sorted);
      room = omega (arith, v.room, v.count, at);
    }

-- The key is gone from the manager and from its page, and no other page is written.
abbrev pub CellDeleted : NodePageManager → ℕ → PagerState → Type 0
CellDeleted m key s =
    let m' = without_key m key in
    (t : PagerState) × (delete_node_cell m key s ≡ done m' t)
    × IsValid m'
    × OnDisk m' t
    × ((q : ℕ) → has q (keys m'.cells) ≡ (if key == q then false else has q (keys m.cells)))
    × ((q : ℕ) → t.file q ≡ (if m.pgno == q then t.file q else s.file q))

-- On a well-formed manager `delete_node_cell` of a key that is not there throws, and nothing has changed.
pub delete_node_cell_refused :
    (m : NodePageManager) (key : ℕ) (s : PagerState)
    → IsValid m
    → has key (keys m.cells) ≡ false
    → delete_node_cell m key s ≡ thrown key_not_found s
unfolding delete_node_cell
delete_node_cell_refused m key s v e = ground (
  arith,
  v.count,
  search_keys_lem key (keys m.cells) v.sorted,
  has-eq-rank key (keys m.cells) v.sorted,
  length-map (λ (c : NodeCell). c.key) m.cells,
)

-- `delete_node_cell` of a key that is there succeeds: the manager and its page are well formed, hold the
-- keys that they held but for that one, and no other page is written.
pub delete_node_cell-IsValid :
    (m : NodePageManager) (key : ℕ) (s : PagerState)
    → IsValid m
    → OnDisk m s
    → has key (keys m.cells) ≡ true
    → CellDeleted m key s
unfolding delete_node_cell
delete_node_cell-IsValid m key s v o e =
    let m' = without_key m key in
    let valid = without_key-IsValid m key v e in
    let at = rank_lem key m.cells v.sorted e in
    let room : (m.total_bytes_free + sizeof_node_cell) % 2 ^ 16
        ≡ m.total_bytes_free + sizeof_node_cell =
      omega (arith, valid.room) in
    let old = drop (length m'.cells) (m.cells ++ o.old_cells) in
    (
      record s {
        file =
            update (update s.file m.pgno (node (header_of m) (m'.cells ++ old))) m.pgno
              (node (header_of m') (m'.cells ++ old));
      },
      ground (
        arith,
        o.page,
        o.numbered,
        v.count,
        room,
        at.0,
        at.1,
        search_keys_lem key (keys m.cells) v.sorted,
      ),
      valid,
      record { old_cells = old; page = ground arith; numbered = o.numbered },
      λ q.
          ap (has q) (map-erase_at _ (rank key (keys m.cells)) m.cells)
          ∙ has-erase_at q key (keys m.cells) v.sorted e,
      λ q. ground arith,
    )
