-- ===== src/Pager/Leaf/Delete.antt =====
-- `delete_cell`, on every branch.
use cpplite.Common.{
  ℕ, ◌+◌, ◌-◌, ◌%◌, ◌^◌, ◌<◌, ◌≡◌, sym, ap, ◌∙◌, subst, arith, true, false, List, ◌++◌, ◌==◌,
  if◌then◌else◌, length, drop, get_or, erase_at, map-erase_at, length-erase_at, length-map,
}
use cpplite.Common.Outcome.{done, thrown, key_not_found}
use cpplite.Common.Sorted.{IsSorted, has, rank, search_keys_lem, has-eq-rank}
use cpplite.Common.Sorted.Edits.{erase_at-IsSorted, has-erase_at}
use cpplite.Pager.Page.{leaf, LeafCell, sizeof_leaf_cell}
use cpplite.Pager.Disk.{PagerState, update}
use cpplite.Pager.Leaf.Valid.{IsValid, OnDisk}
use cpplite.Pager.Leaf.{LeafPageManager, keys, header_of, with_cells, delete_cell}

-- The manager without the cell at the rank of a key.
abbrev pub without_key : LeafPageManager → ℕ → LeafPageManager
without_key m key =
    with_cells m (erase_at (rank key (keys m.cells)) m.cells) (m.num_cells - 1)
      (m.total_bytes_free + sizeof_leaf_cell)

-- A key that is there stands at its rank.
pub rank_lem :
    (key : ℕ) (cells : List LeafCell)
    → IsSorted (keys cells)
    → has key (keys cells) ≡ true
    → (rank key (keys cells) < length cells) × (get_or (keys cells) (rank key (keys cells)) 0 ≡ key)
rank_lem key cells s e = (
  ground (arith, has-eq-rank key (keys cells) s, length-map (λ (c : LeafCell). c.key) cells),
  ground (arith, has-eq-rank key (keys cells) s),
)

without_key-IsValid :
    (m : LeafPageManager) (key : ℕ)
    → IsValid m
    → has key (keys m.cells) ≡ true
    → IsValid (without_key m key)
without_key-IsValid m key v e =
    let at = (rank_lem key m.cells v.sorted e).0 in
    let len = length-erase_at {0} (rank key (keys m.cells)) m.cells at in
    record {
      count = omega (arith, v.count, len);
      sorted =
          subst IsSorted (sym (map-erase_at _ (rank key (keys m.cells)) m.cells))
            (erase_at-IsSorted (rank key (keys m.cells)) (keys m.cells) v.sorted);
      room = omega (arith, v.room, v.count, at);
    }

-- The key is gone from the manager and from its page, and no other page is written.
abbrev pub CellDeleted : LeafPageManager → ℕ → PagerState → Type 0
CellDeleted m key s =
    let m' = without_key m key in
    (t : PagerState) × (delete_cell m key s ≡ done m' t)
    × IsValid m'
    × OnDisk m' t
    × ((q : ℕ) → has q (keys m'.cells) ≡ (if key == q then false else has q (keys m.cells)))
    × ((q : ℕ) → t.file q ≡ (if m.pgno == q then t.file q else s.file q))

-- On a well-formed manager `delete_cell` of a key that is not there changes nothing: it returns if the page holds no cell at
-- all, and throws otherwise.
pub delete_cell_refused :
    (m : LeafPageManager) (key : ℕ) (s : PagerState)
    → IsValid m
    → has key (keys m.cells) ≡ false
    → delete_cell m key s ≡ (if m.num_cells == 0 then done m s else thrown key_not_found s)
unfolding delete_cell
delete_cell_refused m key s v e = ground (
  arith,
  v.count,
  search_keys_lem key (keys m.cells) v.sorted,
  has-eq-rank key (keys m.cells) v.sorted,
  length-map (λ (c : LeafCell). c.key) m.cells,
)

-- `delete_cell` of a key that is there succeeds: the manager and its page are well formed, hold the
-- keys that they held but for that one, and no other page is written.
pub delete_cell-IsValid :
    (m : LeafPageManager) (key : ℕ) (s : PagerState)
    → IsValid m
    → OnDisk m s
    → has key (keys m.cells) ≡ true
    → CellDeleted m key s
unfolding delete_cell
delete_cell-IsValid m key s v o e =
    let m' = without_key m key in
    let valid = without_key-IsValid m key v e in
    let at = rank_lem key m.cells v.sorted e in
    let room : (m.total_bytes_free + sizeof_leaf_cell) % 2 ^ 16
        ≡ m.total_bytes_free + sizeof_leaf_cell =
      omega (arith, valid.room) in
    let old = drop (length m'.cells) (m.cells ++ o.old_cells) in
    (
      record s {
        file =
            update (update s.file m.pgno (leaf (header_of m) (m'.cells ++ old))) m.pgno
              (leaf (header_of m') (m'.cells ++ old));
      },
      ground (
        arith,
        o.page,
        o.numbered,
        v.count,
        room,
        at.0,
        at.1,
        search_keys_lem key (keys m.cells) v.sorted,
      ),
      valid,
      record { old_cells = old; page = ground arith; numbered = o.numbered },
      λ q.
          ap (has q) (map-erase_at _ (rank key (keys m.cells)) m.cells)
          ∙ has-erase_at q key (keys m.cells) v.sorted e,
      λ q. ground arith,
    )
