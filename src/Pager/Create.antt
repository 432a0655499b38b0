-- ===== src/Pager/Create.antt =====
-- `Pager::create_page` of lib/pager/pager.cpp for node and leaf pages.
pub mod Fresh
use cpplite.Common.{ℕ, ◌+◌, ◌-◌, []}
use cpplite.Common.Outcome.{done, thrown}
use cpplite.Pager.Page.{
  Page, leaf, node, page_size, null_page, sizeof_leaf_header, sizeof_node_header, LeafHeader,
  NodeHeader,
}
use cpplite.Pager.Disk.{PagerState, M, pure, get_state, ◌>>=◌, ◌>>◌, os_append, set_total_num_pages}
use cpplite.Pager.FirstPage.{set_num_pages}

append_page : Page → M ℕ
unfolding os_append set_total_num_pages set_num_pages
append_page page = do
  s ← get_state
  os_append page
  set_total_num_pages (s.total_num_pages + 1)
  set_num_pages (s.total_num_pages + 1)
  pure (s.total_num_pages + 1)

abbrev pub new_node_header : NodeHeader
new_node_header = record {
  num_cells = 0;
  total_bytes_free = page_size - sizeof_node_header;
  right_child = null_page;
}

abbrev pub new_leaf_header : LeafHeader
new_leaf_header = record {
  num_cells = 0;
  total_bytes_free = page_size - sizeof_leaf_header;
  next_page = null_page;
  prev_page = null_page;
}

-- `create_page(PAGER_NODE_PAGE)`
unfoldable pub create_node_page : M ℕ
unfolding append_page
create_node_page = append_page (node new_node_header [])

-- `create_page(PAGER_LEAF_PAGE)`
unfoldable pub create_leaf_page : M ℕ
unfolding append_page
create_leaf_page = append_page (leaf new_leaf_header [])
