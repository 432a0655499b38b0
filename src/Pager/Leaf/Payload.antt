-- ===== src/Pager/Leaf/Payload.antt =====
-- `insert_cell`, and that `get_payload` returns what it has stored.
use cpplite.Common.{
  ℕ, zero, suc, ◌+◌, ◌^◌, ◌≤◌, ◌<◌, ◌≡◌, ◌≢◌, arith, true, false, some, List, [], ◌∷◌, ◌++◌, length,
  drop, insert_at, head_or,
}
use cpplite.Common.Outcome.{done}
use cpplite.Common.Sorted.{has, rank, search_keys_lem}
use cpplite.Pager.Page.{leaf, LeafCell, FirstHeader, sizeof_leaf_cell}
use cpplite.Pager.Disk.{PagerState, update}
use cpplite.Pager.FreeList.Chain.{FreeList, Avoids, FreeList-update, Avoids-drop}
use cpplite.Pager.FreeList.Stack.{with_head}
use cpplite.Pager.Overflow.{chunks_from, chunk_size}
use cpplite.Pager.Overflow.RoundTrip.{write_overflow_chain-Stored}
use cpplite.Pager.Leaf.Valid.{IsValid, OnDisk}
use cpplite.Pager.Leaf.Insert.{with_cell, with_cell-IsValid}
use cpplite.Pager.Leaf.{
  LeafPageManager, keys, header_of, new_cell, insert_cell, find_cell, get_payload,
}

find_cell-insert_at :
    (i : ℕ) (cell : LeafCell) (cells : List LeafCell)
    → has cell.key (keys cells) ≡ false
    → find_cell cell.key (insert_at i cell cells) ≡ some cell
unfolding find_cell has
find_cell-insert_at zero cell cells e = ground arith
find_cell-insert_at (suc i) cell [] e = ground arith
find_cell-insert_at (suc i) cell (c ∷ cs) e = ground (arith, find_cell-insert_at i cell cs)

-- The pager `t` after the page of `m` has been written twice, over older cells.
unfoldable pub rewritten :
    PagerState → LeafPageManager → LeafPageManager → List LeafCell → PagerState
rewritten t m m' old = record t {
  file =
      update (update t.file m.pgno (leaf (header_of m) (m'.cells ++ old))) m.pgno
        (leaf (header_of m') (m'.cells ++ old));
}

-- A leaf page in a well-formed pager, with room for a cell with a new key.
pub record CanInsert (m : LeafPageManager) (key : ℕ) (value : List ℕ) (s : PagerState)
    (h : FirstHeader) (ps : List ℕ) : Type 0 where
  pub valid : IsValid m
  pub page : OnDisk m s
  pub room : sizeof_leaf_cell ≤ m.total_bytes_free
  pub new_key : has key (keys m.cells) ≡ false
  pub free_list : FreeList s h ps
  pub total : s.total_num_pages ≡ s.file_pages
  pub in_file : m.pgno ≤ s.file_pages
  pub in_use : Avoids m.pgno ps
  pub short : length value + chunk_size ≤ 2 ^ 32

-- The number of chunks of a value.
abbrev pub chunk_count : List ℕ → ℕ
chunk_count value = length (chunks_from (length value) value 0)

-- The key is in the manager and in its page, with a chain from page `p` that holds its value; the
-- free list is well formed, and no page but the first, this one and the free ones is changed.
abbrev pub CellInserted : LeafPageManager → ℕ → List ℕ → PagerState → FirstHeader → List ℕ → Type 0
CellInserted m key value s h ps =
    (p : ℕ) × (u : PagerState) × (insert_cell m key value s
      ≡ done (true, with_cell m (new_cell key value p)) u)
    × IsValid (with_cell m (new_cell key value p))
    × OnDisk (with_cell m (new_cell key value p)) u
    × FreeList u (with_head h (head_or (drop (chunk_count value) ps) 0))
        (drop (chunk_count value) ps)
    × ((fuel : ℕ)
        → chunk_count value < fuel
        → get_payload fuel (with_cell m (new_cell key value p)) key u ≡ done (some value) u)
    × ((q : ℕ) → 1 < q → q ≤ s.file_pages → q ≢ m.pgno → Avoids q ps → u.file q ≡ s.file q)

module _ (m : LeafPageManager) (key : ℕ) (value : List ℕ) (s : PagerState) (h : FirstHeader)
    (ps : List ℕ) where
  -- `insert_cell` of a new key into a page with room succeeds, if the manager is well formed and on its
  -- page, which is in the file and not free; the pager's `total_num_pages_` is the number of pages of the
  -- file; the free list is well formed; and the value's length and `chunk_size` are at most 2 ^ 32
  -- together. The manager has one cell more, it and
  -- its page are well formed, and so is the free list; `get_payload` of the key then returns the
  -- value, given more fuel than it has chunks; and no page of the old file but the first, this one
  -- and the pages that were free is changed.
  pub insert_cell-get_payload : CanInsert m key value s h ps → CellInserted m key value s h ps
  unfolding insert_cell get_payload rewritten
  insert_cell-get_payload c =
      let v = c.valid in
      let o = c.page in
      let (p, t, run, st) =
        write_overflow_chain-Stored value s h ps c.short c.free_list c.total
          (omega (arith, c.in_file, o.numbered)) in
      let cell = new_cell key value p in
      let m' = with_cell m cell in
      let valid = with_cell-IsValid m cell v c.room c.new_key in
      let kept = st.kept m.pgno o.numbered c.in_file c.in_use in
      let old = drop (length m'.cells) (m.cells ++ o.old_cells) in
      let u = rewritten t m m' old in
      (
        p,
        u,
        ground (
          arith,
          run,
          kept,
          o.page,
          o.numbered,
          v.count,
          v.room,
          valid.room,
          search_keys_lem key (keys m.cells) v.sorted,
        ),
        valid,
        record { old_cells = old; page = ground arith; numbered = o.numbered },
        (let away = Avoids-drop m.pgno (chunk_count value) ps c.in_use in
            FreeList-update _ _ _ m.pgno _ o.numbered away
              (FreeList-update t _ _ m.pgno _ o.numbered away st.list)),
        λ fuel l. ground (
          arith,
          find_cell-insert_at (rank key (keys m.cells)) cell m.cells c.new_key,
          c.short,
          st.durable m.pgno fuel u c.in_file c.in_use (λ r ne. ground (arith, ne)) l,
        ),
        λ q a b ne av. ground (arith, ne, st.kept q a b av),
      )
