-- ===== src/BTree/Cursor.antt =====
-- The state of a `BTreeCursor` (lib/btree/btree.h) with the pager that it points to, and what its
-- methods do with it: the pager's methods are lifted, the stack is a list with its top in front.
use cpplite.Common.{ℕ, Bool, true, false, ◌||◌, List, [], ◌/◌}
use cpplite.Common.Outcome.{Outcome, done, thrown, Error, assertion, bad_variant_access}
use cpplite.Pager.Page.{
  PageType, first_page, free_page, node_page, leaf_page, overflow_page, node_max_cells,
  leaf_max_cells,
}
use cpplite.Pager.Disk.{PagerState, M}
use cpplite.Pager.Disk as Disk
use cpplite.Pager.Seek.{PageManager, node_manager, leaf_manager, get_page_type}
use cpplite.Pager.Node.{NodePageManager}
use cpplite.Pager.Leaf.{LeafPageManager}

pub record BTreeConfig : Type 0 where
  pub node_max_cells : ℕ
  pub node_min_cells : ℕ
  pub leaf_max_cells : ℕ
  pub leaf_min_cells : ℕ

-- The configuration that the constructor takes when it is given none.
abbrev pub default_config : BTreeConfig
default_config = record {
  node_max_cells = node_max_cells;
  node_min_cells = node_max_cells / 2;
  leaf_max_cells = leaf_max_cells;
  leaf_min_cells = leaf_max_cells / 2;
}

-- A page and the index of a cell in it; in a node the index may be that of the right child.
abbrev pub CursorNode : Type 0
CursorNode = ℕ × ℕ

abbrev pub CursorStack : Type 0
CursorStack = List CursorNode

pub record BTreeCursor : Type 0 where
  pub cursor : CursorStack
  pub pager : PagerState
  pub root_pgno : ℕ
  pub config : BTreeConfig

abbrev pub T : Type 0 → Type 0
T A = BTreeCursor → Outcome BTreeCursor A

abbrev pub pure : {A : Type 0} → A → T A
pure a c = done a c

infixl 5 ◌>>=◌ ◌>>◌
abbrev pub ◌>>=◌ : {A B : Type 0} → T A → (A → T B) → T B
◌>>=◌ m f c = elim (m c) [ done a c' ↦ f a c' | thrown e c' ↦ thrown e c' ]

abbrev pub ◌>>◌ : {B : Type 0} → T (Unit {0}) → T B → T B
m >> k = m >>= λ _. k

abbrev pub throw : {A : Type 0} → Error → T A
throw e c = thrown e c

abbrev pub assert : Bool → T (Unit {0})
assert true c = done tt c
assert false c = thrown assertion c

abbrev pub get_cursor : T BTreeCursor
get_cursor c = done c c

-- A call of the pager or of a page manager.
abbrev pub lift : {A : Type 0} → M A → T A
lift m c = elim (m c.pager) [
  | done a s ↦ done a (record c { pager = s })
  | thrown e s ↦ thrown e (record c { pager = s })
]

-- `cursor_ = stack`
abbrev pub set_cursor : CursorStack → T (Unit {0})
set_cursor stack c = done tt (record c { cursor = stack })

-- `BTreeCursor::set_root_pgno`
abbrev pub set_root_pgno : ℕ → T (Unit {0})
set_root_pgno pgno c = done tt (record c { root_pgno = pgno })

abbrev pub is_node : PageType → Bool
is_node node_page = true
is_node first_page = false
is_node free_page = false
is_node leaf_page = false
is_node overflow_page = false

abbrev pub is_leaf : PageType → Bool
is_leaf leaf_page = true
is_leaf first_page = false
is_leaf free_page = false
is_leaf node_page = false
is_leaf overflow_page = false

-- `std::get` of the page manager that `seek_page` has made.
abbrev pub get_node : PageManager → M NodePageManager
get_node (node_manager m) = Disk.pure m
get_node m = Disk.throw bad_variant_access

abbrev pub get_leaf : PageManager → M LeafPageManager
get_leaf (leaf_manager m) = Disk.pure m
get_leaf m = Disk.throw bad_variant_access

-- The constructor: the root is to be a node or a leaf.
unfoldable pub new_cursor : ℕ → BTreeConfig → M BTreeCursor
new_cursor root_pgno config = Disk.◌>>=◌ (get_page_type root_pgno) λ root_type.
    Disk.◌>>=◌ (Disk.assert (is_node root_type || is_leaf root_type)) λ _.
      Disk.◌>>=◌ Disk.get_state
        λ s. Disk.pure (record { cursor = []; pager = s; root_pgno = root_pgno; config = config })
