-- ===== src/Pager/Seek/Laws.antt =====
-- `seek_page` and `get_page_type` agree.
use cpplite.Common.{◌≡◌, arith}
use cpplite.Common.Outcome.{done}
use cpplite.Pager.Disk.{PagerState}
use cpplite.Pager.Node.{NodePageManager}
use cpplite.Pager.Node.Valid as NodeValid
use cpplite.Pager.Leaf.{LeafPageManager}
use cpplite.Pager.Leaf.Valid as LeafValid
use cpplite.Pager.Seek.{get_page_type, seek_page, node_manager, leaf_manager}
use cpplite.Pager.Page.{node_page, leaf_page}

module _ (s : PagerState) where
  -- On the page of a well-formed node manager `get_page_type` tells its type, and `seek_page` makes
  -- that manager.
  pub seek_page_node :
      (m : NodePageManager)
      → NodeValid.IsValid m
      → NodeValid.OnDisk m s
      → (get_page_type m.pgno s ≡ done node_page s) × (seek_page m.pgno s ≡ done (node_manager m) s)
  unfolding get_page_type seek_page
  seek_page_node m v o = (
    ground (arith, o.page, o.numbered),
    ground (arith, o.page, o.numbered, NodeValid.node_page_manager-OnDisk m s v o),
  )

  -- On the page of a well-formed leaf manager `get_page_type` tells its type, and `seek_page` makes
  -- that manager.
  pub seek_page_leaf :
      (m : LeafPageManager)
      → LeafValid.IsValid m
      → LeafValid.OnDisk m s
      → (get_page_type m.pgno s ≡ done leaf_page s) × (seek_page m.pgno s ≡ done (leaf_manager m) s)
  unfolding get_page_type seek_page
  seek_page_leaf m v o = (
    ground (arith, o.page, o.numbered),
    ground (arith, o.page, o.numbered, LeafValid.leaf_page_manager-OnDisk m s v o),
  )
