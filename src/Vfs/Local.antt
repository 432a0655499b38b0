-- ===== src/Vfs/Local.antt =====
-- lib/vfs/localfs.cpp: the virtual file system on the calls of the operating system, which are a
-- parameter. A call's -1 is `none` or `false`.
pub mod Implements
use Prim.Native.Nat.{bit_or}
use cpplite.Common.{
  ℕ, zero, ◌-◌, Bool, true, false, Option, none, some, List, [], ◌∷◌, ◌++◌, map, take, length, ◌==◌,
  if◌then◌else◌, replicate,
}
use cpplite.Common.Outcome.{Outcome, done, thrown, Result, ok, err, io_failed}
use cpplite.Encoding.{Bytes}
use cpplite.Vfs.{VirtualFs, o_creat, grow, patch}

-- A descriptor; `none` is -1.
abbrev pub Fd : Type 0
Fd = Option ℕ

-- <unistd.h>, <fcntl.h>, <sys/stat.h> and std::filesystem
pub record Posix : Type 1 where
  pub Os : Type 0
  pub pread : Fd → ℕ → ℕ → Os → Option Bytes
  pub pwrite : Fd → Bytes → ℕ → Os → Option ℕ × Os
  pub fsync : Fd → Os → Bool × Os
  pub close_fd : Fd → Os → Bool × Os
  pub open_fd : Bytes → ℕ → Os → Fd × Os
  pub exists : Bytes → Os → Bool
  pub is_directory : Bytes → Os → Bool
  pub file_size : Bytes → Os → Result ℕ
  pub directory_iterator : Bytes → Os → Result (List Bytes)
  pub relative : Bytes → Bytes → Bytes
  pub mkdir : Bytes → Os → Bool × Os
  pub rmdir : Bytes → Os → Bool × Os
  pub unlink : Bytes → Os → Bool × Os

pub record LocalFile : Type 0 where
  pub fd : Fd

-- `basedir_ + "/" + filename`
abbrev pub full : Bytes → Bytes → Bytes
full basedir filename = basedir ++ (b'/' ∷ filename)

module _ (p : Posix) where
  abbrev pub checked : Bool × p.Os → Outcome p.Os (Unit {0})
  checked (done_well, s) = if done_well then done tt s else thrown io_failed s

  unfoldable pub read : LocalFile → Bytes → ℕ → ℕ → p.Os → Result Bytes
  read file buffer len offset s = elim (p.pread file.fd len offset s) [
    | none ↦ err io_failed
    | some bytes_read ↦ ok (patch 0 bytes_read (grow len buffer))
  ]

  abbrev pub write_buffer : LocalFile → Bytes → ℕ → ℕ → p.Os → Outcome p.Os Bytes
  write_buffer file buffer len offset s =
      let (bytes_written, s') = p.pwrite file.fd (take len buffer) offset s in
      elim bytes_written [
        | none ↦ thrown io_failed s'
        | some n ↦ if n == len then done buffer s' else thrown io_failed s'
      ]

  -- The null buffer is one of zeros.
  unfoldable pub write : LocalFile → Option Bytes → ℕ → ℕ → p.Os → Outcome p.Os Bytes
  write file none len offset s = write_buffer file (replicate len 0) len offset s
  write file (some buffer) len offset s = write_buffer file (grow len buffer) len offset s

  unfoldable pub sync : LocalFile → p.Os → Outcome p.Os (Unit {0})
  sync file s = checked (p.fsync file.fd s)

  unfoldable pub close : LocalFile → p.Os → Outcome p.Os LocalFile
  close file s = elim file.fd [
    | none ↦ done file s
    | some n ↦ done (record { fd = none }) (p.close_fd (some n) s).1
  ]

  module _ (basedir : Bytes) where
    unfoldable pub open_file : Bytes → ℕ → p.Os → Outcome p.Os LocalFile
    open_file filename flags s =
        let (fd, s') = p.open_fd (full basedir filename) (bit_or flags o_creat) s in
        elim fd [ none ↦ thrown io_failed s' | some n ↦ done (record { fd = some n }) s' ]

    unfoldable pub ls : Bytes → p.Os → Result (List Bytes)
    ls dir s = elim (p.directory_iterator (full basedir dir) s) [
      | err e ↦ err e
      | ok entries ↦ ok (map (λ entry. p.relative entry basedir) entries)
    ]

    unfoldable pub filesize : Bytes → p.Os → Result ℕ
    filesize path s =
        if p.is_directory (full basedir path) s
        then err io_failed
        else p.file_size (full basedir path) s

    unfoldable pub is_dir : Bytes → p.Os → Bool
    is_dir path s = p.is_directory (full basedir path) s

    unfoldable pub exists : Bytes → p.Os → Bool
    exists path s = p.exists (full basedir path) s

    unfoldable pub mkdir : Bytes → p.Os → Outcome p.Os (Unit {0})
    mkdir dir s = checked (p.mkdir (full basedir dir) s)

    unfoldable pub unlink : Bytes → p.Os → Outcome p.Os (Unit {0})
    unlink path s = checked (p.unlink (full basedir path) s)

    unfoldable pub rmdir : Bytes → p.Os → Outcome p.Os (Unit {0})
    rmdir dir s = checked (p.rmdir (full basedir dir) s)

    -- `LocalFS`
    abbrev pub local_fs : VirtualFs
    local_fs = record {
      Fs = p.Os;
      File = LocalFile;
      read = read;
      write = write;
      sync = sync;
      close = close;
      open_file = open_file;
      exists = exists;
      is_dir = is_dir;
      filesize = filesize;
      ls = ls;
      mkdir = mkdir;
      rmdir = rmdir;
      unlink = unlink;
    }
