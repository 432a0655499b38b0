-- ===== src/Pager/Create/Fresh.antt =====
-- A new page stands behind all others, and its manager is empty and well formed.
use cpplite.Common.{ℕ, ◌+◌, ◌-◌, ◌≤◌, ◌<◌, ◌≡◌, refl, arith, List, []}
use cpplite.Common.Outcome.{done}
use cpplite.Pager.Page.{
  Page, leaf, node, first, FirstHeader, null_page, page_size, sizeof_leaf_header,
  sizeof_node_header,
}
use cpplite.Pager.Disk.{PagerState, update}
use cpplite.Pager.FreeList.Chain.{
  FreeList, Chain-update, Chain-first, AtMost-weaken, Avoids-above, Avoids,
}
use cpplite.Pager.Leaf as Leaf
use cpplite.Pager.Leaf.Valid as LeafValid
use cpplite.Pager.Node as Node
use cpplite.Pager.Node.Valid as NodeValid
use cpplite.Pager.Create.{create_leaf_page, create_node_page, new_leaf_header, new_node_header}

abbrev pub empty_leaf : ℕ → Leaf.LeafPageManager
empty_leaf pgno = record {
  pgno = pgno;
  cells = [];
  num_cells = 0;
  total_bytes_free = page_size - sizeof_leaf_header;
  prev_page = null_page;
  next_page = null_page;
}

abbrev pub empty_node : ℕ → Node.NodePageManager
empty_node pgno = record {
  pgno = pgno;
  cells = [];
  num_cells = 0;
  total_bytes_free = page_size - sizeof_node_header;
  right_child = null_page;
}

unfoldable pub created : PagerState → FirstHeader → Page → PagerState
created s h page = record {
  file =
      update (update s.file (s.file_pages + 1) page) 1
        (first (record h { num_pages = s.total_num_pages + 1 }));
  file_pages = s.file_pages + 1;
  total_num_pages = s.total_num_pages + 1;
}

-- What a new page leaves of the pager `s`: the first page counts it, the free list is the same, and
-- no older page but the first one has changed.
pub record Grown (s t : PagerState) (h : FirstHeader) (ps : List ℕ) : Type 0 where
  pub list : FreeList t (record h { num_pages = s.file_pages + 1 }) ps
  pub total : t.total_num_pages ≡ t.file_pages
  pub grows : t.file_pages ≡ s.file_pages + 1
  pub in_use : Avoids (s.file_pages + 1) ps
  pub kept : (q : ℕ) → 1 < q → q ≤ s.file_pages → t.file q ≡ s.file q

-- An empty leaf stands on a new page.
abbrev pub LeafCreated : PagerState → FirstHeader → List ℕ → Type 0
LeafCreated s h ps =
    (t : PagerState) × (create_leaf_page s ≡ done (s.file_pages + 1) t)
    × Grown s t h ps
    × LeafValid.IsValid (empty_leaf (s.file_pages + 1))
    × LeafValid.OnDisk (empty_leaf (s.file_pages + 1)) t

-- An empty node stands on a new page.
abbrev pub NodeCreated : PagerState → FirstHeader → List ℕ → Type 0
NodeCreated s h ps =
    (t : PagerState) × (create_node_page s ≡ done (s.file_pages + 1) t)
    × Grown s t h ps
    × NodeValid.IsValid (empty_node (s.file_pages + 1))
    × NodeValid.OnDisk (empty_node (s.file_pages + 1)) t

module _ (s : PagerState) (h : FirstHeader) (ps : List ℕ) (f : FreeList s h ps)
    (e : s.total_num_pages ≡ s.file_pages) (l : 0 < s.file_pages) where
  created-Grown : (page : Page) → Grown s (created s h page) h ps
  unfolding created
  created-Grown page =
      let fresh = Avoids-above s.file_pages (s.file_pages + 1) ps f.in_file (omega arith) in
      record {
        list = record {
          header = ground (arith, e);
          head = f.head;
          chain = Chain-first _ _ ps (Chain-update s.file _ page ps fresh f.chain);
          distinct = f.distinct;
          in_file = AtMost-weaken s.file_pages _ ps (omega arith) f.in_file;
        };
        total = ground (arith, e);
        grows = refl;
        in_use = fresh;
        kept = λ q b c. ground arith;
      }

  -- `create_page(PAGER_LEAF_PAGE)` of a well-formed pager returns the number of a page behind all
  -- others, on which an empty leaf stands, and keeps the pager well formed.
  pub create_leaf_page-Grown : LeafCreated s h ps
  unfolding create_leaf_page created
  create_leaf_page-Grown = (
    created s h (leaf new_leaf_header []),
    ground (arith, f.header, e),
    created-Grown (leaf new_leaf_header []),
    record { count = refl; sorted = tt; room = refl },
    record { old_cells = []; page = ground arith; numbered = omega arith },
  )

  -- `create_page(PAGER_NODE_PAGE)` of a well-formed pager returns the number of a page behind all
  -- others, on which an empty node stands, and keeps the pager well formed.
  pub create_node_page-Grown : NodeCreated s h ps
  unfolding create_node_page created
  create_node_page-Grown = (
    created s h (node new_node_header []),
    ground (arith, f.header, e),
    created-Grown (node new_node_header []),
    record { count = refl; sorted = tt; room = refl },
    record { old_cells = []; page = ground arith; numbered = omega arith },
  )
