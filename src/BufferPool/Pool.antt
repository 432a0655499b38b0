-- ===== src/BufferPool/Pool.antt =====
-- lib/pager/bufferpool/bufferpool.cpp: the methods of the pool.
use cpplite.Common.{
  ℕ, ◌+◌, Bool, true, false, Option, none, some, [], ◌∷◌, ◌++◌, ltb, ◌==◌, if◌then◌else◌, length,
  take_or,
}
use cpplite.Common.Outcome.{Outcome, done, thrown, assertion}
use cpplite.Encoding.{Bytes}
use cpplite.Evictor.{evict, record_access, set_evictable, remove}
use cpplite.FileCache.{find, erase}
use cpplite.Pager.Page.{page_size}
use cpplite.Storage.Engine.Pages as Pages
use cpplite.Vfs.{VirtualFs}
use cpplite.BufferPool.{
  PageKey, FrameTable, reset, set_entry, BufferPoolManager, set_frame, lock_pool, unlock_pool,
}
use cpplite.BufferPool.Guard.{
  GuardKind, reading, writing, PageGuard, no_guard, make_guard, write_back, latch_frame,
  unlatch_frame,
}

module _ {v : VirtualFs} where
  unfoldable pub size : BufferPoolManager v → Outcome (BufferPoolManager v) ℕ
  size p =
      if (length p.free_list + length p.frame_table) == p.num_frames
      then done (length p.frame_table) p
      else thrown assertion p

  -- The frame takes the first PAGE_SIZE bytes of the page; no caller has an empty free list. From a buffer
  -- of fewer bytes, which an engine with smaller pages reads, the source copies what lies behind its end:
  -- zeros stand for that.
  unfoldable pub fill_frame :
      PageKey → Bytes → BufferPoolManager v → Outcome (BufferPoolManager v) ℕ
  unfolding reset set_entry
  fill_frame pgkey read_buffer p = elim p.free_list [
    | [] ↦ thrown assertion p
    | id ∷ free_list ↦
        if ltb id p.num_frames
        then (let frame = reset (p.frames id) in
            let p' =
              set_frame id (record frame { bytes = take_or page_size 0 read_buffer })
                (record p { free_list = free_list }) in
            done id (record p' {
              frame_table = set_entry pgkey id p'.frame_table;
              evictor = set_evictable (record_access p'.evictor id) id false;
            }))
        else thrown assertion (record p { free_list = free_list })
  ]

  unfoldable pub insert_frame : PageKey → BufferPoolManager v → Outcome (BufferPoolManager v) ℕ
  unfolding fill_frame
  insert_frame pgkey p = elim (Pages.read_page pgkey [] p.storage_engine) [
    | thrown r e ↦ thrown r (record p { storage_engine = e })
    | done read_buffer e ↦ fill_frame pgkey read_buffer (record p { storage_engine = e })
  ]

  unfoldable pub ensure_free_frame : BufferPoolManager v → Bool × BufferPoolManager v
  ensure_free_frame p = elim p.free_list [
    | id ∷ free_list ↦ (true, p)
    | [] ↦
        let (evicted, evictor) = evict p.evictor in
        elim evicted [
          | none ↦ (false, record p { evictor = evictor })
          | some victim ↦
              (true, record p { evictor = evictor; free_list = p.free_list ++ (victim ∷ []) })
        ]
  ]

  -- The page is allocated and takes a frame.
  unfoldable pub allocate_frame :
      ℕ → BufferPoolManager v → Outcome (BufferPoolManager v) (Option PageKey)
  unfolding insert_frame
  allocate_frame tbl_id p = elim (Pages.allocate_page tbl_id p.storage_engine) [
    | thrown r e ↦ thrown r (record p { storage_engine = e })
    | done pgkey e ↦ elim (insert_frame pgkey (record p { storage_engine = e })) [
      | thrown r p' ↦ thrown r p'
      | done id p' ↦ done (some pgkey) (unlock_pool p')
    ]
  ]

  -- The assertion that there is room.
  abbrev pub has_room : BufferPoolManager v → Outcome (BufferPoolManager v) (Unit {0})
  has_room p =
      if ltb 0 (length p.free_list)
      then elim (size p) [
        | thrown r p' ↦ thrown r p'
        | done n p' ↦ if ltb n p'.num_frames then done tt p' else thrown assertion p'
      ]
      else thrown assertion p

  unfoldable pub new_page : ℕ → BufferPoolManager v → Outcome (BufferPoolManager v) (Option PageKey)
  unfolding ensure_free_frame size allocate_frame
  new_page tbl_id p = elim (lock_pool p) [
    | thrown r p' ↦ thrown r p'
    | done _ p' ↦
        let (has_frame, p'') = ensure_free_frame p' in
        if has_frame
        then elim (has_room p'') [
          | thrown r p3 ↦ thrown r p3
          | done _ p3 ↦ allocate_frame tbl_id p3
        ]
        else done none (unlock_pool p'')
  ]

  -- The frame of a page, which is read from the disk if it is in no frame; none if no frame can be had.
  unfoldable pub frame_of : PageKey → BufferPoolManager v → Outcome (BufferPoolManager v) (Option ℕ)
  unfolding ensure_free_frame insert_frame
  frame_of pgkey p = elim (find pgkey p.frame_table) [
    | some id ↦
        done (some id) (record p { evictor = set_evictable (record_access p.evictor id) id false })
    | none ↦
        let (has_frame, p') = ensure_free_frame p in
        if has_frame
        then elim (insert_frame pgkey p') [
          | thrown r p'' ↦ thrown r p''
          | done id p'' ↦ done (some id) p''
        ]
        else done none p'
  ]

  -- `read_page` and `write_page`: the guard is made under the latch of the pool.
  unfoldable pub get_page :
      GuardKind → PageKey → BufferPoolManager v → Outcome (BufferPoolManager v) PageGuard
  unfolding frame_of make_guard
  get_page kind pgkey p = elim (lock_pool p) [
    | thrown r p' ↦ thrown r p'
    | done _ p' ↦ elim (frame_of pgkey p') [
      | thrown r p'' ↦ thrown r p''
      | done none p'' ↦ done (no_guard kind) (unlock_pool p'')
      | done (some id) p'' ↦
          if ltb id p''.num_frames
          then elim (make_guard kind pgkey id p'') [
            | thrown r p3 ↦ thrown r p3
            | done guard p3 ↦ done guard (unlock_pool p3)
          ]
          else thrown assertion p''
    ]
  ]

  unfoldable pub read_page : PageKey → BufferPoolManager v → Outcome (BufferPoolManager v) PageGuard
  unfolding get_page
  read_page pgkey p = get_page reading pgkey p

  unfoldable pub write_page :
      PageKey → BufferPoolManager v → Outcome (BufferPoolManager v) PageGuard
  unfolding get_page
  write_page pgkey p = get_page writing pgkey p

  -- The frame that the table has for a page, under the latch of the pool; `missing` if there is none.
  abbrev pub with_frame :
      {A : Type 0}
      → PageKey
      → A
      → (ℕ → BufferPoolManager v → Outcome (BufferPoolManager v) A)
      → BufferPoolManager v
      → Outcome (BufferPoolManager v) A
  with_frame pgkey missing body p = elim (lock_pool p) [
    | thrown r p' ↦ thrown r p'
    | done _ p' ↦ elim (find pgkey p'.frame_table) [
      | none ↦ done missing (unlock_pool p')
      | some id ↦ if ltb id p'.num_frames then body id p' else thrown assertion p'
    ]
  ]

  unfoldable pub evict_page : PageKey → BufferPoolManager v → Outcome (BufferPoolManager v) Bool
  unfolding reset
  evict_page pgkey p =
      with_frame pgkey true
        (λ id p'.
          if ltb 0 (p'.frames id).pins
          then done false (unlock_pool p')
          else done true (
              unlock_pool (record (set_frame id (reset (p'.frames id)) p') {
                frame_table = erase pgkey p'.frame_table;
                free_list = p'.free_list ++ (id ∷ []);
                evictor = remove p'.evictor id;
              })))
        p

  -- A frame is written to the disk under the latch of a writer.
  unfoldable pub flush_frame :
      PageKey → ℕ → BufferPoolManager v → Outcome (BufferPoolManager v) (Unit {0})
  unfolding write_back
  flush_frame pgkey id p = elim (latch_frame writing id p) [
    | thrown r p' ↦ thrown r p'
    | done _ p' ↦ elim (write_back pgkey id p') [
      | thrown r p'' ↦ thrown r p''
      | done _ p'' ↦ done tt (unlatch_frame writing id p'')
    ]
  ]

  unfoldable pub flush_page : PageKey → BufferPoolManager v → Outcome (BufferPoolManager v) Bool
  unfolding flush_frame
  flush_page pgkey p =
      with_frame pgkey false
        (λ id p'. elim (flush_frame pgkey id p') [
          | thrown r p'' ↦ thrown r p''
          | done _ p'' ↦ done true (unlock_pool p'')
        ])
        p

  unfoldable pub flush_frames :
      FrameTable → BufferPoolManager v → Outcome (BufferPoolManager v) (Unit {0})
  unfolding flush_frame
  flush_frames [] p = done tt p
  flush_frames ((pgkey, id) ∷ entries) p =
      if ltb id p.num_frames
      then elim (flush_frame pgkey id p) [
        | thrown r p' ↦ thrown r p'
        | done _ p' ↦ flush_frames entries p'
      ]
      else thrown assertion p

  unfoldable pub flush_all_pages : BufferPoolManager v → Outcome (BufferPoolManager v) (Unit {0})
  unfolding flush_frames
  flush_all_pages p = elim (lock_pool p) [
    | thrown r p' ↦ thrown r p'
    | done _ p' ↦ elim (flush_frames p'.frame_table p') [
      | thrown r p'' ↦ thrown r p''
      | done _ p'' ↦ done tt (unlock_pool p'')
    ]
  ]

  unfoldable pub get_pin_count :
      PageKey → BufferPoolManager v → Outcome (BufferPoolManager v) (Option ℕ)
  get_pin_count pgkey p =
      with_frame pgkey none (λ id p'. done (some (p'.frames id).pins) (unlock_pool p')) p
