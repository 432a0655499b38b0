-- ===== src/Vfs/Examples.antt =====
-- The local file system on an operating system in memory.
use cpplite.Common.{◌≡◌, refl, none, some, [], ◌∷◌}
use cpplite.Common.Outcome.{done, thrown, Result, ok, err}
use cpplite.Encoding.{Bytes}
use cpplite.Binder.{is_same}
use cpplite.Vfs.{o_rdwr}
use cpplite.Vfs.Laws.{Works}
use cpplite.Vfs.Local.{read, write, open_file, local_fs}
use cpplite.Vfs.Local.Implements.{local_view, local_fs-Works}
use cpplite.Vfs.Memory.{memory, memory_view, memory-Documented, empty_disk}

local_fs-Works_example :
    Works (local_fs memory (b'/' ∷ b'd' ∷ [])) (local_view memory memory_view (b'/' ∷ b'd' ∷ []))
local_fs-Works_example = local_fs-Works memory memory_view memory-Documented (b'/' ∷ b'd' ∷ [])

-- A file of "ab", written over a null buffer of four bytes, and the five bytes read of it.
run : Result Bytes
run = elim (open_file memory (b'd' ∷ []) (b'f' ∷ []) o_rdwr empty_disk) [
  | thrown e s ↦ err e
  | done f s ↦ elim (write memory f none 4 0 s) [
    | thrown e s ↦ err e
    | done b s ↦ elim (write memory f (some (b'a' ∷ b'b' ∷ [])) 2 1 s) [
      | thrown e s ↦ err e
      | done b s ↦ read memory f [] 5 0 s
    ]
  ]
]

run_value : run ≡ ok (0 ∷ b'a' ∷ b'b' ∷ 0 ∷ 0 ∷ [])
unfolding run open_file write read is_same
run_value = refl
