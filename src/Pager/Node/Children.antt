-- ===== src/Pager/Node/Children.antt =====
-- `set_cell_left_child`, `update_cell_key` and `set_node_right_child`.
use cpplite.Common.{
  ℕ, ◌≡◌, sym, ap, ◌∙◌, subst, arith, true, false, inl, inr, Option, none, some, List, [], ◌∷◌,
  ◌++◌, ltb, ◌==◌, if◌then◌else◌, length, drop, set, set_or-append, map-set, set-get_or, length-set,
  Bool-cases,
}
use cpplite.Common.Outcome.{done, thrown, key_not_found}
use cpplite.Common.Sorted.{IsSorted, has, rank, search_keys_lem, has-Above, Above-IsSorted}
use cpplite.Common.Sorted.Edits.{Fits, set-IsSorted}
use cpplite.Pager.Page.{node, NodeCell, zero_node_cell}
use cpplite.Pager.Disk.{PagerState, update}
use cpplite.Pager.Node.Valid.{IsValid, OnDisk, rank_lem}
use cpplite.Pager.Node.{
  NodePageManager, keys, header_of, new_cell, child_at, set_cell_left_child, update_cell_key,
}

-- The child that hangs on a key.
unfoldable pub child_of : ℕ → List NodeCell → Option ℕ
child_of q [] = none
child_of q (c ∷ cs) = if c.key == q then some c.left_child else child_of q cs

child_of-set :
    (q key child : ℕ) (cells : List NodeCell)
    → IsSorted (keys cells)
    → has key (keys cells) ≡ true
    → child_of q (set cells (rank key (keys cells)) (new_cell key child))
      ≡ (if key == q then some child else child_of q cells)
unfolding child_of rank has
child_of-set q key child [] s e = cc
child_of-set q key child (c ∷ cs) s e = elim (Bool-cases (ltb c.key key)) [
  | inl lt ↦ ground (arith, child_of-set q key child cs (Above-IsSorted c.key (keys cs) s))
  | inr ge ↦ ground (arith, has-Above key c.key (keys cs) s)
]

-- The manager with another child on a key.
abbrev pub with_child : NodePageManager → ℕ → ℕ → NodePageManager
with_child m key child = record m {
  cells = set m.cells (rank key (keys m.cells)) (new_cell key child);
}

keys-set :
    (key child : ℕ) (cells : List NodeCell)
    → IsSorted (keys cells)
    → has key (keys cells) ≡ true
    → keys (set cells (rank key (keys cells)) (new_cell key child)) ≡ keys cells
keys-set key child cells s e =
    let i = rank key (keys cells) in
    map-set (λ (c : NodeCell). c.key) cells i (new_cell key child)
    ∙ ap (set (keys cells) i) (sym (rank_lem key cells s e).1)
    ∙ set-get_or (keys cells) i 0

with_child-IsValid :
    (m : NodePageManager) (key child : ℕ)
    → IsValid m
    → has key (keys m.cells) ≡ true
    → IsValid (with_child m key child)
with_child-IsValid m key child v e = record {
  count = v.count ∙ sym (length-set m.cells (rank key (keys m.cells)) (new_cell key child));
  sorted = subst IsSorted (sym (keys-set key child m.cells v.sorted e)) v.sorted;
  room = v.room;
}

-- The child hangs on the key, in memory and in the file, and all else is as it was.
abbrev pub ChildSet : NodePageManager → ℕ → ℕ → PagerState → Type 0
ChildSet m key child s =
    let m' = with_child m key child in
    (t : PagerState) × (set_cell_left_child m key child s ≡ done m' t)
    × IsValid m'
    × OnDisk m' t
    × (keys m'.cells ≡ keys m.cells)
    × ((q : ℕ) → child_of q m'.cells ≡ (if key == q then some child else child_of q m.cells))
    × ((q : ℕ) → t.file q ≡ (if m.pgno == q then t.file q else s.file q))

-- On a well-formed manager `set_cell_left_child` of a key that is not there throws, and nothing has changed.
pub set_cell_left_child_refused :
    (m : NodePageManager) (key child : ℕ) (s : PagerState)
    → IsValid m
    → has key (keys m.cells) ≡ false
    → set_cell_left_child m key child s ≡ thrown key_not_found s
unfolding set_cell_left_child
set_cell_left_child_refused m key child s v e =
    ground (arith, v.count, search_keys_lem key (keys m.cells) v.sorted)

-- `set_cell_left_child` of a key that is there hangs the child on it, in memory and in the file, and
-- leaves the keys, the other children and the other pages as they were.
pub set_cell_left_child-IsValid :
    (m : NodePageManager) (key child : ℕ) (s : PagerState)
    → IsValid m
    → OnDisk m s
    → has key (keys m.cells) ≡ true
    → ChildSet m key child s
unfolding set_cell_left_child
set_cell_left_child-IsValid m key child s v o e =
    let m' = with_child m key child in
    let i = rank key (keys m.cells) in
    let at = rank_lem key m.cells v.sorted e in
    (
      record s { file = update s.file m.pgno (node (header_of m) (m'.cells ++ o.old_cells)) },
      ground (
        arith,
        o.page,
        o.numbered,
        v.count,
        at.1,
        search_keys_lem key (keys m.cells) v.sorted,
        set_or-append i zero_node_cell (new_cell key child) m.cells o.old_cells at.0,
      ),
      with_child-IsValid m key child v e,
      record { old_cells = o.old_cells; page = ground arith; numbered = o.numbered },
      keys-set key child m.cells v.sorted e,
      λ q. child_of-set q key child m.cells v.sorted e,
      λ q. ground arith,
    )

abbrev pub with_key : NodePageManager → ℕ → ℕ → NodePageManager
with_key m old_key new_key =
    let i = rank old_key (keys m.cells) in
    record m { cells = set m.cells i (new_cell new_key (child_at m.cells i)) }

-- The key is another, in memory and in the file, and no other page is written.
abbrev pub KeyUpdated : NodePageManager → ℕ → ℕ → PagerState → Type 0
KeyUpdated m old_key new_key s =
    let m' = with_key m old_key new_key in
    (t : PagerState) × (update_cell_key m old_key new_key s ≡ done m' t)
    × IsValid m'
    × OnDisk m' t
    × ((q : ℕ) → t.file q ≡ (if m.pgno == q then t.file q else s.file q))

-- `update_cell_key` of a key that is there, to one that lies between the same neighbours, puts the new
-- key in its place with the same child, keeps the manager and its page well formed, and writes no
-- other page.
pub update_cell_key-IsValid :
    (m : NodePageManager) (old_key new_key : ℕ) (s : PagerState)
    → IsValid m
    → OnDisk m s
    → has old_key (keys m.cells) ≡ true
    → Fits old_key new_key (keys m.cells)
    → KeyUpdated m old_key new_key s
unfolding update_cell_key
update_cell_key-IsValid m old_key new_key s v o e f =
    let m' = with_key m old_key new_key in
    let i = rank old_key (keys m.cells) in
    let cell = new_cell new_key (child_at m.cells i) in
    let rest = drop (length m'.cells) (m.cells ++ o.old_cells) in
    (
      record s { file = update s.file m.pgno (node (header_of m) (m'.cells ++ rest)) },
      ground (arith, o.page, o.numbered, v.count, search_keys_lem old_key (keys m.cells) v.sorted),
      record {
        count = v.count ∙ sym (length-set m.cells i cell);
        sorted =
            subst IsSorted (sym (map-set (λ (c : NodeCell). c.key) m.cells i cell))
              (set-IsSorted old_key new_key (keys m.cells) v.sorted f e);
        room = v.room;
      },
      record { old_cells = rest; page = ground arith; numbered = o.numbered },
      λ q. ground arith,
    )
