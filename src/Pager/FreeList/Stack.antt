-- ===== src/Pager/FreeList/Stack.antt =====
-- `insert_freelist`, `pop_freelist` and `create_page(PAGER_FREE_PAGE)` are push and pop of a stack.
use cpplite.Common.{
  ℕ, ◌+◌, ◌≤◌, ◌<◌, ◌≡◌, refl, subst, arith, List, [], ◌∷◌, ◌==◌, head_or, if◌then◌else◌,
}
use cpplite.Common.Outcome.{done}
use cpplite.Pager.Page.{first, free, FirstHeader}
use cpplite.Pager.Disk.{PagerState, update}
use cpplite.Pager.FreeList.Chain.{
  Avoids, FreeList, Chain-update, Chain-first, AtMost-weaken, Avoids-above,
}
use cpplite.Pager.FreeList.{insert_freelist, pop_freelist, create_free_page}

abbrev pub with_head : FirstHeader → ℕ → FirstHeader
with_head h p = record h { free_page_head = p }

-- The state after `pgno` has been pushed.
unfoldable pub pushed : PagerState → FirstHeader → ℕ → PagerState
pushed s h pgno = record s {
  file = update (update s.file 1 (first (with_head h pgno))) pgno (free h.free_page_head);
}

-- The state after the first of the list has been popped, where `next` is the second.
unfoldable pub popped : PagerState → FirstHeader → ℕ → PagerState
popped s h next = record s { file = update s.file 1 (first (with_head h next)) }

-- The state after a free page has been appended and pushed.
unfoldable pub appended : PagerState → FirstHeader → PagerState
appended s h = record {
  file =
      update (update s.file (s.file_pages + 1) (free h.free_page_head)) 1
        (first (with_head h (s.total_num_pages + 1)));
  file_pages = s.file_pages + 1;
  total_num_pages = s.total_num_pages + 1;
}

-- `pgno` is pushed on the list `ps`, and no page but it and the first one is written.
abbrev pub Pushes : PagerState → FirstHeader → List ℕ → ℕ → Type 0
Pushes s h ps pgno =
    (t : PagerState) × (insert_freelist pgno s ≡ done tt t)
    × FreeList t (with_head h pgno) (pgno ∷ ps)
    × ((q : ℕ) → 1 < q → t.file q ≡ (if q == pgno then t.file pgno else s.file q))

-- `p` is popped, `rest` is left, and no page but the first one is written.
abbrev pub Pops : PagerState → FirstHeader → ℕ → List ℕ → Type 0
Pops s h p rest =
    (t : PagerState) × (pop_freelist s ≡ done p t)
    × FreeList t (with_head h (head_or rest 0)) rest
    × ((q : ℕ) → 1 < q → t.file q ≡ s.file q)

-- A new page is pushed on the list `ps`.
abbrev pub Appends : PagerState → FirstHeader → List ℕ → Type 0
Appends s h ps =
    (t : PagerState) × (create_free_page s ≡ done (s.file_pages + 1) t)
    × FreeList t (with_head h (s.file_pages + 1)) ((s.file_pages + 1) ∷ ps)
    × (t.total_num_pages ≡ s.file_pages + 1)
    × (t.file_pages ≡ s.file_pages + 1)

module _ (s : PagerState) (h : FirstHeader) (ps : List ℕ) (f : FreeList s h ps) where
  -- `insert_freelist` of a page of the file that is not on the list and is not the first page
  -- succeeds, and the list has that page in front; no page but it and the first one is written.
  pub insert_freelist-FreeList :
      (pgno : ℕ) → 1 < pgno → pgno ≤ s.file_pages → Avoids pgno ps → Pushes s h ps pgno
  unfolding insert_freelist pushed
  insert_freelist-FreeList pgno lo hi a = (
    pushed s h pgno,
    ground (arith, f.header),
    record {
      header = ground arith;
      head = refl;
      chain = (
        lo,
        ground (arith, f.head),
        Chain-update _ pgno _ ps a (Chain-first s.file _ ps f.chain),
      );
      distinct = (a, f.distinct);
      in_file = (hi, f.in_file);
    },
    λ q l. ground arith,
  )

  -- `pop_freelist` of an empty list returns `NULL_PAGE` and changes nothing.
  pub pop_freelist_empty : ps ≡ [] → pop_freelist s ≡ done 0 s
  unfolding pop_freelist
  pop_freelist_empty e = ground (arith, f.header, f.head)

  -- `pop_freelist` of a list that is not empty returns the page in front and takes it off; no page
  -- but the first one is written.
  pub pop_freelist-FreeList : (p : ℕ) (rest : List ℕ) → ps ≡ p ∷ rest → Pops s h p rest
  unfolding pop_freelist popped
  pop_freelist-FreeList p rest e =
      let g : FreeList s h (p ∷ rest) = subst (FreeList s h) e f in
      (
        popped s h (head_or rest 0),
        ground (arith, g.header, g.head, g.chain.0, g.chain.1),
        record {
          header = ground arith;
          head = refl;
          chain = Chain-first s.file _ rest g.chain.2;
          distinct = g.distinct.1;
          in_file = g.in_file.1;
        },
        λ q l. ground arith,
      )

  -- The page that `create_page(PAGER_FREE_PAGE)` appends is the new front of the list, if the pager's
  -- count of pages is that of the file. The count of pages in the first page stays as it was.
  pub create_free_page-FreeList :
      s.total_num_pages ≡ s.file_pages → 0 < s.file_pages → Appends s h ps
  unfolding create_free_page appended
  create_free_page-FreeList e l =
      let n = s.file_pages + 1 in
      let fresh = Avoids-above s.file_pages n ps f.in_file (omega arith) in
      (
        appended s h,
        ground (arith, f.header),
        record {
          header = ground arith;
          head = refl;
          chain = (
            omega arith,
            ground (arith, f.head),
            Chain-first _ _ ps (Chain-update s.file n _ ps fresh f.chain),
          );
          distinct = (fresh, f.distinct);
          in_file = (omega arith, AtMost-weaken s.file_pages n ps (omega arith) f.in_file);
        },
        omega arith,
        refl,
      )
