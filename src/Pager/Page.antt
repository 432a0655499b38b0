-- ===== src/Pager/Page.antt =====
-- The page layouts of lib/pager: base_page.h, first_page.h, free_page.h, node_page.h, leaf_page.h
-- and overflow_page.h. A header that the source copies to and from a page by `memcpy` is a record,
-- so padding bytes are not modelled. Every page but `blank` holds the checksum that the source
-- writes; `blank` is a page of zeros, and its checksum is wrong.
use cpplite.Common.{ℕ, ◌-◌, ◌/◌, List}

abbrev pub page_size : ℕ
page_size = 4096

abbrev pub null_page : ℕ
null_page = 0

-- The sizes of the structs, as the x86-64 ABI lays them out.
abbrev pub sizeof_leaf_header : ℕ
sizeof_leaf_header = 40

abbrev pub sizeof_node_header : ℕ
sizeof_node_header = 32

abbrev pub sizeof_overflow_header : ℕ
sizeof_overflow_header = 24

abbrev pub sizeof_leaf_cell : ℕ
sizeof_leaf_cell = 16

abbrev pub sizeof_node_cell : ℕ
sizeof_node_cell = 16

abbrev pub leaf_max_cells : ℕ
leaf_max_cells = (page_size - sizeof_leaf_header) / sizeof_leaf_cell

abbrev pub node_max_cells : ℕ
node_max_cells = (page_size - sizeof_node_header) / sizeof_node_cell

pub data PageType : Type 0 where
  free_page first_page node_page leaf_page overflow_page : PageType

pub record FirstHeader : Type 0 where
  pub num_pages : ℕ
  pub free_page_head : ℕ
  pub next_oid : ℕ

pub record LeafCell : Type 0 where
  pub payload_size : ℕ
  pub key : ℕ
  pub record_page : ℕ

pub record LeafHeader : Type 0 where
  pub num_cells : ℕ
  pub total_bytes_free : ℕ
  pub next_page : ℕ
  pub prev_page : ℕ

pub record NodeCell : Type 0 where
  pub key : ℕ
  pub left_child : ℕ

pub record NodeHeader : Type 0 where
  pub num_cells : ℕ
  pub total_bytes_free : ℕ
  pub right_child : ℕ

-- Behind the header of a leaf or node page stands its array of cells, of which the header counts
-- those in use; behind that of an overflow page stands its content.
pub data Page : Type 0 where
  blank : Page
  first : FirstHeader → Page
  free : ℕ → Page
  node : NodeHeader → List NodeCell → Page
  leaf : LeafHeader → List LeafCell → Page
  overflow : ℕ → ℕ → List ℕ → Page

-- What the zeros behind the written part of a page read as.
abbrev pub zero_leaf_cell : LeafCell
zero_leaf_cell = record { payload_size = 0; key = 0; record_page = 0 }

abbrev pub zero_node_cell : NodeCell
zero_node_cell = record { key = 0; left_child = 0 }

-- The eight bytes behind the base header: what `PagerFreePageHeader` takes for `next_free_page`.
abbrev pub next_free_page : Page → ℕ
next_free_page blank = 0
next_free_page (first h) = h.num_pages
next_free_page (free next) = next
next_free_page (node h cells) = h.num_cells
next_free_page (leaf h cells) = h.num_cells
next_free_page (overflow next num_bytes content) = next
