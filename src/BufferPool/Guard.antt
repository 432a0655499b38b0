-- ===== src/BufferPool/Guard.antt =====
-- lib/pager/bufferpool/pageguard.cpp: the guards of a page. The two classes differ in the latch that
-- they hold, and in `flush`.
use cpplite.Common.{ℕ, Bool, true, false, not, Option, none, some, ◌==◌, if◌then◌else◌}
use cpplite.Common.Outcome.{Outcome, done, thrown, waiting}
use cpplite.Encoding.{Bytes}
use cpplite.Evictor.{record_access, set_evictable}
use cpplite.Storage.Engine.Pages as Pages
use cpplite.Vfs.{VirtualFs}
use cpplite.BufferPool.{
  PageKey, Latch, incr_pins, decr_pins, lock_read, lock_write, unlock_read, unlock_write,
  BufferPoolManager, set_frame, lock_pool, unlock_pool,
}

pub data GuardKind : Type 0 where
  reading writing : GuardKind

-- `ReadPageGuard` and `WritePageGuard`
pub record PageGuard : Type 0 where
  pub kind : GuardKind
  pub pgkey : PageKey
  pub frame : ℕ
  pub is_valid : Bool

-- The guard that the default constructor makes.
abbrev pub no_guard : GuardKind → PageGuard
no_guard kind = record { kind = kind; pgkey = (0, 0); frame = 0; is_valid = false }

abbrev pub lock_for : GuardKind → Latch → Option Latch
lock_for reading latch = lock_read latch
lock_for writing latch = lock_write latch

abbrev pub unlock_for : GuardKind → Latch → Latch
unlock_for reading latch = unlock_read latch
unlock_for writing latch = unlock_write latch

-- A guard moved to another: the new one, and what is left of the old one.
abbrev pub move : PageGuard → PageGuard × PageGuard
move that = (that, record that { is_valid = false })

module _ {v : VirtualFs} where
  -- The constructor: the frame is pinned before the thread waits for its latch.
  unfoldable pub make_guard :
      GuardKind → PageKey → ℕ → BufferPoolManager v → Outcome (BufferPoolManager v) PageGuard
  unfolding lock_read lock_write incr_pins
  make_guard kind pgkey id p =
      let pinned = incr_pins (p.frames id) in
      let p' = record (set_frame id pinned p) { evictor = record_access p.evictor id } in
      elim (lock_for kind pinned.rwlatch) [
        | none ↦ thrown waiting p'
        | some latch ↦
            done (record { kind = kind; pgkey = pgkey; frame = id; is_valid = true })
              (set_frame id (record pinned { rwlatch = latch }) p')
      ]

  -- `get_data`, and `get_data_mut` with what the caller does to the bytes
  unfoldable pub get_data : PageGuard → BufferPoolManager v → Bytes
  get_data guard p = (p.frames guard.frame).bytes

  unfoldable pub is_dirty : PageGuard → BufferPoolManager v → Bool
  is_dirty guard p = (p.frames guard.frame).dirty

  unfoldable pub change_data :
      (Bytes → Bytes) → PageGuard → BufferPoolManager v → BufferPoolManager v
  change_data change guard p =
      let frame = p.frames guard.frame in
      set_frame guard.frame (record frame { dirty = true; bytes = change frame.bytes }) p

  -- The frame's bytes are written to the disk.
  unfoldable pub write_back :
      PageKey → ℕ → BufferPoolManager v → Outcome (BufferPoolManager v) (Unit {0})
  write_back pgkey id p =
      let frame = p.frames id in
      elim (Pages.write_page pgkey frame.bytes p.storage_engine) [
        | thrown r e ↦ thrown r (record p { storage_engine = e })
        | done buffer e ↦
            done tt
              (set_frame id (record frame { dirty = false }) (record p { storage_engine = e }))
      ]

  -- The latch of a frame for a thread that waits for it if it must.
  abbrev pub latch_frame :
      GuardKind → ℕ → BufferPoolManager v → Outcome (BufferPoolManager v) (Unit {0})
  latch_frame kind id p = elim (lock_for kind (p.frames id).rwlatch) [
    | none ↦ thrown waiting p
    | some latch ↦ done tt (set_frame id (record (p.frames id) { rwlatch = latch }) p)
  ]

  abbrev pub unlatch_frame : GuardKind → ℕ → BufferPoolManager v → BufferPoolManager v
  unlatch_frame kind id p =
      set_frame id (record (p.frames id) { rwlatch = unlock_for kind (p.frames id).rwlatch }) p

  -- A reader gives its latch up for that of a writer while it writes.
  unfoldable pub flush_reading :
      PageGuard → BufferPoolManager v → Outcome (BufferPoolManager v) (Unit {0})
  unfolding lock_read lock_write unlock_read unlock_write write_back
  flush_reading guard p =
      elim (latch_frame writing guard.frame (unlatch_frame reading guard.frame p)) [
        | thrown r p' ↦ thrown r p'
        | done _ p' ↦ elim (write_back guard.pgkey guard.frame p') [
          | thrown r p'' ↦ thrown r p''
          | done _ p'' ↦ latch_frame reading guard.frame (unlatch_frame writing guard.frame p'')
        ]
      ]

  unfoldable pub flush : PageGuard → BufferPoolManager v → Outcome (BufferPoolManager v) (Unit {0})
  unfolding flush_reading write_back
  flush guard p = elim guard.kind [
    | reading ↦ flush_reading guard p
    | writing ↦ write_back guard.pgkey guard.frame p
  ]

  -- The pin is given up under the latch of the pool, and then the frame's latch.
  unfoldable pub drop : PageGuard → BufferPoolManager v → Outcome (BufferPoolManager v) PageGuard
  unfolding decr_pins unlock_read unlock_write
  drop guard p = if not guard.is_valid then done guard p else elim (lock_pool p) [
    | thrown r p' ↦ thrown r p'
    | done _ p' ↦
        let prev_num_pins = (p'.frames guard.frame).pins in
        let unpinned = set_frame guard.frame (decr_pins (p'.frames guard.frame)) p' in
        let released = record unpinned {
          evictor =
              if prev_num_pins == 1
              then set_evictable unpinned.evictor guard.frame true
              else unpinned.evictor;
        } in
        done (record guard { is_valid = false })
          (unlatch_frame guard.kind guard.frame (unlock_pool released))
  ]

  -- The destructor.
  abbrev pub destroy : PageGuard → BufferPoolManager v → Outcome (BufferPoolManager v) PageGuard
  destroy guard p = if guard.is_valid then drop guard p else done guard p

  -- `operator=` of two guards
  abbrev pub assign :
      PageGuard
      → PageGuard
      → BufferPoolManager v
      → Outcome (BufferPoolManager v) (PageGuard × PageGuard)
  assign guard that p = elim (destroy guard p) [
    | thrown r p' ↦ thrown r p'
    | done _ p' ↦ done (move that) p'
  ]
