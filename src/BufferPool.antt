-- ===== src/BufferPool.antt =====
-- lib/pager/bufferpool: the frames, their latches and the pool over the storage engine. A thread that
-- waits for a latch ends with the error `waiting`, in the state in which it waits: the latches that it
-- holds are held there.
pub mod Guard
pub mod Pool
pub mod Pinned
pub mod Evictable
pub mod Waits
pub mod Evicted
pub mod Flushed
mod Examples
use cpplite.Common.{
  ℕ, zero, suc, ◌+◌, ◌-◌, ◌%◌, ◌^◌, Bool, true, false, ◌&&◌, ◌||◌, not, Option, none, some, List,
  [], ◌∷◌, ◌++◌, ltb, ◌==◌, if◌then◌else◌, length, replicate, take_or,
}
use cpplite.Common.Outcome.{Outcome, done, thrown, waiting}
use cpplite.Encoding.{Bytes}
use cpplite.Evictor.{LrukEvictor, init}
use cpplite.Pager.Page.{page_size}
use cpplite.Vfs.{VirtualFs}
use cpplite.Storage.Engine.{StorageEngine}

-- `EVICTOR_K`
abbrev pub evictor_k : ℕ
evictor_k = 2

abbrev pub PageKey : Type 0
PageKey = ℕ × ℕ

-- A `std::shared_mutex`: readers, or a writer.
pub data Latch : Type 0 where
  readers : ℕ → Latch
  writer : Latch

pub record FrameHeader : Type 0 where
  pub rwlatch : Latch
  pub dirty : Bool
  pub bytes : Bytes
  pub pins : ℕ

abbrev pub new_frame : FrameHeader
new_frame = record { rwlatch = readers 0; dirty = false; bytes = replicate page_size 0; pins = 0 }

unfoldable pub reset : FrameHeader → FrameHeader
reset frame = record frame { dirty = false; pins = 0; bytes = replicate page_size 0 }

unfoldable pub incr_pins : FrameHeader → FrameHeader
incr_pins frame = record frame { pins = (frame.pins + 1) % 2 ^ 64 }

unfoldable pub decr_pins : FrameHeader → FrameHeader
decr_pins frame = record frame { pins = (frame.pins + (2 ^ 64 - 1)) % 2 ^ 64 }

-- `none` if the thread has to wait.
unfoldable pub lock_read : Latch → Option Latch
lock_read (readers n) = some (readers (suc n))
lock_read writer = none

unfoldable pub lock_write : Latch → Option Latch
lock_write (readers zero) = some writer
lock_write (readers (suc n)) = none
lock_write writer = none

unfoldable pub unlock_read : Latch → Latch
unlock_read (readers n) = readers (n - 1)
unlock_read writer = writer

unfoldable pub unlock_write : Latch → Latch
unlock_write latch = readers 0

-- `frame_table_`, a map in the order of its keys
abbrev pub FrameTable : Type 0
FrameTable = List (PageKey × ℕ)

unfoldable pub is_below : PageKey → PageKey → Bool
is_below a b = ltb a.0 b.0 || ((a.0 == b.0) && ltb a.1 b.1)

unfoldable pub set_entry : PageKey → ℕ → FrameTable → FrameTable
set_entry pgkey frame [] = (pgkey, frame) ∷ []
set_entry pgkey frame ((other, f) ∷ entries) =
    let rest = set_entry pgkey frame entries in
    if (pgkey.0 == other.0) && (pgkey.1 == other.1)
    then (pgkey, frame) ∷ entries
    else if is_below pgkey other
    then (pgkey, frame) ∷ (other, f) ∷ entries
    else (other, f) ∷ rest

-- `bpm_latch` says whether a thread holds the latch of the pool.
pub record BufferPoolManager (v : VirtualFs) : Type 0 where
  pub num_frames : ℕ
  pub bpm_latch : Bool
  pub frames : ℕ → FrameHeader
  pub frame_table : FrameTable
  pub free_list : List ℕ
  pub storage_engine : StorageEngine v
  pub evictor : LrukEvictor

-- `0`, `1`, … below a number, as the constructor fills the free list
unfoldable pub frame_ids : ℕ → List ℕ
frame_ids zero = []
frame_ids (suc n) = frame_ids n ++ (n ∷ [])

unfoldable pub new_pool : (v : VirtualFs) → ℕ → StorageEngine v → BufferPoolManager v
new_pool v num_frames storage_engine = record {
  num_frames = num_frames;
  bpm_latch = false;
  frames = λ id. new_frame;
  frame_table = [];
  free_list = frame_ids num_frames;
  storage_engine = storage_engine;
  evictor = init evictor_k;
}

module _ {v : VirtualFs} where
  abbrev pub set_frame : ℕ → FrameHeader → BufferPoolManager v → BufferPoolManager v
  set_frame id frame p = record p {
    frames = λ other. if other == id then frame else p.frames other;
  }

  abbrev pub lock_pool : BufferPoolManager v → Outcome (BufferPoolManager v) (Unit {0})
  lock_pool p = if p.bpm_latch then thrown waiting p else done tt (record p { bpm_latch = true })

  abbrev pub unlock_pool : BufferPoolManager v → BufferPoolManager v
  unlock_pool p = record p { bpm_latch = false }
