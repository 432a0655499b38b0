-- ===== src/BTree/Edit/Insert.antt =====
-- `insert` into a leaf with room, in a tree that stands in the file.
use cpplite.Common.{
  ℕ, zero, suc, ◌^◌, ◌≤◌, ◌<◌, ◌≡◌, ◌≢◌, refl, sym, ap, ◌∙◌, arith, true, false, some, List, [],
  ◌∷◌, ◌==◌, if◌then◌else◌, length, length-map, get_or, insert_at, length-insert_at, drop, head_or,
  map-insert_at,
}
use cpplite.Common.Outcome.{done, thrown, duplicate_key}
use cpplite.Common.Sorted.{has, rank, rank-le-length}
use cpplite.Common.Sorted.Edits.{has-insert_at}
use cpplite.Pager.Page.{LeafCell, FirstHeader, zero_leaf_cell}
use cpplite.Pager.Disk.{PagerState}
use cpplite.Pager.FreeList.Chain.{FreeList, Avoids}
use cpplite.Pager.FreeList.Stack.{with_head}
use cpplite.Pager.Seek.Laws.{seek_page_leaf}
use cpplite.Pager.Leaf as Leaf
use cpplite.Pager.Leaf.{LeafPageManager, new_cell}
use cpplite.Pager.Leaf.Valid as LeafValid
use cpplite.Pager.Leaf.Insert.{with_cell}
use cpplite.Pager.Leaf.Payload.{CanInsert, chunk_count, insert_cell-get_payload}
use cpplite.BTree.Cursor.{BTreeCursor, CursorStack}
use cpplite.BTree.Read.{current_key, current_value}
use cpplite.BTree.Move.{move_to_key}
use cpplite.BTree.Edit.{insert}
use cpplite.BTree.Tree.{Tree, height, keys_of, leaf_for, path}
use cpplite.BTree.Tree.Order.{has-leaf_for}
use cpplite.BTree.Tree.Descent.{Holds, descend_tree, leaf_for-InFile, current_key_lem, key-get_or}
use cpplite.BTree.Tree.Pages.{Pages, Distinct, Pages-map}
use cpplite.BTree.Tree.Put.{put, page_of-put, put-InFile}
use cpplite.BTree.Tree.Put.Keys.{put-Ordered, put-has, Between-insert_at}

get_or-insert_at :
    {A : Type 0}
    → (i : ℕ) (a d : A) (xs : List A) → i ≤ length xs
    → get_or (insert_at i a xs) i d ≡ a
get_or-insert_at zero a d xs l = refl
get_or-insert_at (suc i) a d [] l = absurd (omega (arith, l))
get_or-insert_at (suc i) a d (x ∷ xs) l = get_or-insert_at i a d xs (omega (arith, l))

-- What the cursor reads of a leaf on its page.
current_value_lem :
    (rounds : ℕ) (m : LeafPageManager) (i : ℕ) (above : CursorStack) (value : List ℕ)
    (c : BTreeCursor)
    → LeafValid.IsValid m
    → LeafValid.OnDisk m c.pager
    → c.cursor ≡ (m.pgno, i) ∷ above
    → i < length m.cells
    → Leaf.get_payload rounds m (get_or m.cells i zero_leaf_cell).key c.pager
      ≡ done (some value) c.pager
    → current_value rounds c ≡ done value c
unfolding current_value
current_value_lem rounds m i above value c v o p l e =
    let (type, manager) = seek_page_leaf c.pager m v o in
    ground (arith, type, LeafValid.leaf_page_manager-OnDisk m c.pager v o, p, e)

-- A page of the tree: in the file, and not a free one.
abbrev pub InUse : PagerState → List ℕ → ℕ → Type 0
InUse s ps q = (1 < q) × (q ≤ s.file_pages) × Avoids q ps

-- A key that the tree does not have, and a leaf with room for it, in a file whose free list is well
-- formed and has no page of the tree.
pub record HasRoom (fuel key : ℕ) (value : List ℕ) (c : BTreeCursor) (t : Tree) (h : FirstHeader)
    (ps : List ℕ) : Type 0 where
  pub holds : Holds c t
  pub high : height t < fuel
  pub distinct : Distinct t
  pub in_use : Pages (InUse c.pager ps) t
  pub uint32 : key < 2 ^ 32
  pub new_key : has key (keys_of t) ≡ false
  pub few : (leaf_for key t).num_cells < c.config.leaf_max_cells
  pub can_insert : CanInsert (leaf_for key t) key value c.pager h ps

-- After `insert`: the tree has the key and those that it had, the cursor stands on the key, and reads
-- the value; the free list is well formed.
abbrev pub Inserted : ℕ → ℕ → List ℕ → BTreeCursor → Tree → FirstHeader → List ℕ → Type 0
Inserted fuel key value c t h ps =
    (c' : BTreeCursor) × (t' : Tree) × (insert fuel key value c ≡ done tt c')
    × Holds c' t'
    × ((q : ℕ) → has q (keys_of t') ≡ (if key == q then true else has q (keys_of t)))
    × (current_key c' ≡ done key c')
    × ((rounds : ℕ) → chunk_count value < rounds → current_value rounds c' ≡ done value c')
    × FreeList c'.pager (with_head h (head_or (drop (chunk_count value) ps) 0))
        (drop (chunk_count value) ps)

module _ (fuel key : ℕ) (value : List ℕ) (c : BTreeCursor) (t : Tree) (h : FirstHeader)
    (ps : List ℕ) (r : HasRoom fuel key value c t h ps) where
  abbrev old_leaf : LeafPageManager
  old_leaf = leaf_for key t

  abbrev place : ℕ
  place = rank key (Leaf.keys old_leaf.cells)

  abbrev new_leaf : ℕ → LeafPageManager
  new_leaf p = with_cell old_leaf (new_cell key value p)

  -- The cursor that `insert` leaves.
  abbrev cursor_after : PagerState → BTreeCursor
  cursor_after u = record c { cursor = (old_leaf.pgno, place) ∷ path key t []; pager = u }

  insert-run :
      (p : ℕ) (u : PagerState)
      → Leaf.insert_cell old_leaf key value c.pager ≡ done (true, new_leaf p) u
      → insert fuel key value c ≡ done tt (cursor_after u)
  unfolding insert move_to_key
  insert-run p u run =
      let (v, o) = leaf_for-InFile key t c.pager r.holds.in_file in
      let (type, manager) = seek_page_leaf c.pager old_leaf v o in
      ground (
        arith,
        r.holds.root,
        descend_tree fuel key t [] c.pager r.holds.in_file r.high,
        r.can_insert.new_key,
        type,
        LeafValid.leaf_page_manager-OnDisk old_leaf c.pager v o,
        v.count,
        r.few,
        run,
      )

  new_keys : (p : ℕ) → Leaf.keys (new_leaf p).cells ≡ insert_at place key (Leaf.keys old_leaf.cells)
  new_keys p = map-insert_at (λ (e : LeafCell). e.key) place (new_cell key value p) old_leaf.cells

  -- The tree with the new leaf stands in the file.
  Holds-put :
      (p : ℕ) (u : PagerState)
      → LeafValid.IsValid (new_leaf p)
      → LeafValid.OnDisk (new_leaf p) u
      → ((q : ℕ)
          → 1 < q
          → q ≤ c.pager.file_pages
          → q ≢ old_leaf.pgno
          → Avoids q ps
          → u.file q ≡ c.pager.file q)
      → Holds (cursor_after u) (put key (new_leaf p) t)
  Holds-put p u v o kept =
      let same =
        Pages-map (InUse c.pager ps) (λ q. q ≢ old_leaf.pgno → u.file q ≡ c.pager.file q) t
          (λ q a ne. kept q a.0 a.1 ne a.2) r.in_use in
      record {
        in_file = put-InFile key (new_leaf p) c.pager u v o t r.holds.in_file r.distinct same refl;
        root = page_of-put key (new_leaf p) t refl ∙ r.holds.root;
        ordered =
            put-Ordered key 0 (2 ^ 32) (new_leaf p) t r.holds.ordered (omega arith) r.uint32
              (λ lo hi l h b.
                rw (new_keys p)
                  (Between-insert_at lo hi key place (Leaf.keys old_leaf.cells) b l h));
      }

  -- The new cell stands where the cursor does.
  new_cell-at :
      (p : ℕ)
      → (place < length (new_leaf p).cells)
        × (get_or (new_leaf p).cells place zero_leaf_cell ≡ new_cell key value p)
  new_cell-at p =
      let le = rank-le-length key (Leaf.keys old_leaf.cells) in
      let len = length-map (λ (e : LeafCell). e.key) old_leaf.cells in
      (
        omega (arith, le, len, length-insert_at {0} place (new_cell key value p) old_leaf.cells),
        get_or-insert_at place (new_cell key value p) zero_leaf_cell old_leaf.cells
            (omega (arith, le, len)),
      )

-- `insert` of a new key below 2 ^ 32 into a tree that stands in the file succeeds under these conditions:
-- the key's leaf has fewer cells than `leaf_max_cells` and the bytes for one more; the value's length and
-- `chunk_size` are at most 2 ^ 32 together; the pager's `total_num_pages_` is the number of pages of the
-- file; the free list is well formed; each page of the tree is in the tree once, is a page of the file
-- behind the first, and is not free; the fuel is more than the height of the tree. The tree that then stands in the
-- file has that key and the keys that it had, in order; the cursor stands on the key; `current_value`
-- returns the value, given more fuel than it has chunks; and the free list is well formed.
pub insert-Inserted :
    (fuel key : ℕ) (value : List ℕ) (c : BTreeCursor) (t : Tree) (h : FirstHeader) (ps : List ℕ)
    → HasRoom fuel key value c t h ps
    → Inserted fuel key value c t h ps
insert-Inserted fuel key value c t h ps r =
    let m = leaf_for key t in
    let i = rank key (Leaf.keys m.cells) in
    let (p, u, run, v', o', free, payload, kept) =
      insert_cell-get_payload m key value c.pager h ps r.can_insert in
    let m' = with_cell m (new_cell key value p) in
    let c' = cursor_after fuel key value c t h ps r u in
    let (l, cell) = new_cell-at fuel key value c t h ps r p in
    (
      c',
      put key m' t,
      insert-run fuel key value c t h ps r p u run,
      Holds-put fuel key value c t h ps r p u v' o' kept,
      λ q. put-has q key m' t (
          ap (has q) (new_keys fuel key value c t h ps r p)
          ∙ has-insert_at q i key (Leaf.keys m.cells)),
      current_key_lem m' i (path key t []) c' v' o' refl l
          ∙ ap (λ k. done k c') (sym (key-get_or m'.cells i) ∙ ap (λ (e : LeafCell). e.key) cell),
      λ rounds n.
          current_value_lem rounds m' i (path key t []) value c' v' o' refl l
            (ground (arith, cell, payload rounds n)),
      free,
    )

-- `insert` of a key that is in the tree, which stands in the file, throws the error for a duplicate,
-- given more fuel than the tree is high; only the cursor has moved.
pub insert_duplicate :
    (fuel key : ℕ) (value : List ℕ) (c : BTreeCursor) (t : Tree)
    → Holds c t
    → height t < fuel
    → has key (keys_of t) ≡ true
    → (stack : CursorStack) × (insert fuel key value c
        ≡ thrown duplicate_key (record c { cursor = stack }))
unfolding insert move_to_key
insert_duplicate fuel key value c t h l e =
    let m = leaf_for key t in
    let there = has-leaf_for key 0 (2 ^ 32) t h.ordered ∙ e in
    (
      (m.pgno, rank key (Leaf.keys m.cells)) ∷ path key t [],
      ground (arith, h.root, descend_tree fuel key t [] c.pager h.in_file l, there),
    )
