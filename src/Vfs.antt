-- ===== src/Vfs.antt =====
-- The virtual file system of lib/vfs/vfs.h: a record of operations, on a state of the files that the
-- program shares with the operating system. A path is the list of its characters' codes. An operation
-- that changes nothing returns only its result.
pub mod Laws
pub mod Local
pub mod Memory
pub mod Patch
mod Examples
use Prim.Native.Nat.{bit_or}
use cpplite.Common.{
  ℕ, zero, suc, ◌+◌, ◌-◌, Bool, Option, List, [], ◌∷◌, ◌++◌, length, take_or, drop, replicate,
}
use cpplite.Common.Outcome.{Outcome, Result}
use cpplite.Encoding.{Bytes}

-- `O_RDWR` and `O_CREAT` of <fcntl.h>
abbrev pub o_rdwr : ℕ
o_rdwr = 2

abbrev pub o_creat : ℕ
o_creat = 64

abbrev pub rdwr_creat : ℕ
rdwr_creat = bit_or o_rdwr o_creat

-- `VFS`, and `VirtualFile` with its file as first argument. `read` and `write` take the buffer and
-- return what it holds afterwards; a null pointer is `none`. `close` returns the file as it leaves it.
pub record VirtualFs : Type 1 where
  pub Fs : Type 0
  pub File : Type 0
  pub read : File → Bytes → ℕ → ℕ → Fs → Result Bytes
  pub write : File → Option Bytes → ℕ → ℕ → Fs → Outcome Fs Bytes
  pub sync : File → Fs → Outcome Fs (Unit {0})
  pub close : File → Fs → Outcome Fs File
  pub open_file : Bytes → ℕ → Fs → Outcome Fs File
  pub exists : Bytes → Fs → Bool
  pub is_dir : Bytes → Fs → Bool
  pub filesize : Bytes → Fs → Result ℕ
  pub ls : Bytes → Fs → Result (List Bytes)
  pub mkdir : Bytes → Fs → Outcome Fs (Unit {0})
  pub rmdir : Bytes → Fs → Outcome Fs (Unit {0})
  pub unlink : Bytes → Fs → Outcome Fs (Unit {0})

-- `if (buffer.size() < len) buffer.resize(len)`
abbrev pub grow : ℕ → Bytes → Bytes
grow len buffer = buffer ++ replicate (len - length buffer) 0

-- Bytes laid over others from an offset on; what lies between is zero.
abbrev pub patch : ℕ → Bytes → Bytes → Bytes
patch offset bytes under = take_or offset 0 under ++ (bytes ++ drop (offset + length bytes) under)
