-- ===== src/Lib.antt =====
-- A model of the storage layer of cpplite: how pages of the database file are read, written and
-- chained, how values are encoded, how a B+ tree keeps keys and values in those pages, and how
-- the buffer pool chooses the frame to give up.
--
-- Parts, and the files that model them:
--
--   Common: what the modules share; Common/Sorted.antt is the binary search over a page's cells,
--     which lib/pager/leaf_page/leaf_page_manager.cpp and
--     lib/pager/node_page/node_page_manager.cpp each write out.
--   Encoding: lib/encoding.cpp. A buffer is a list of bytes, an offset a number; a read past the
--     end is an error.
--   Record: lib/record and lib/catalog/schema.h. A row is a list of values, a string the list of
--     its bytes; Record/Bitmap.antt is about the null bitmap and Record/Values.antt about the
--     loops over the columns.
--   BTree: lib/btree. BTree/Cursor is the state of a cursor, with the pager that it points to;
--     BTree/Search, BTree/Move and BTree/Read are btree.cpp but for its two edits, which are
--     BTree/Edit; BTree/Split, BTree/Borrow and BTree/Merge are utils.cpp. The stack of the
--     cursor is a list with its top in front. BTree/Tree and its children are the tree that a
--     cursor's pages make: what it is for one to stand in the file, and the order of its keys;
--     the moves are compared with it.
--   Catalog: lib/catalog/catalog.cpp. Catalog.antt is `serialize_table` and `deserialize_table`,
--     Catalog/Manager.antt the manager; its maps are association lists, and its pager is that of
--     the schema's cursor.
--   Executor: lib/executor/ddl.cpp.
--   Ast: lib/ast/ast.cpp, over the contexts of the generated parser, of which a record holds
--     what is asked.
--   Binder: lib/binder, with the statements of lib/ast/ast.h.
--   FileCache: lib/storage/filecache.cpp. A file is a parameter, of which the cache calls
--     `close`; a node has an address, and the list of the addresses stands for the chain of
--     pointers.
--   Vfs: lib/vfs/vfs.h and lib/vfs/localfs.cpp. The interface is a record of operations,
--     Vfs/Laws.antt what a client may rely on, and Vfs/Local the implementation, whose operating
--     system is a parameter; Vfs/Memory.antt is one in memory, for the tests.
--   Storage: lib/storage/storage_utils.h (the page arithmetic and Storage/Paths, the names of
--     the files) and lib/storage/storage.cpp. Storage/Engine.antt is the state of the engine and
--     the opening of segments, Storage/Engine/Pages its operations on pages,
--     Storage/Engine/Tables those on tables, the shutdown and the start. `table_metadata_` is an
--     association list in the order of its keys; the calls of `close` that the file cache makes
--     are made by `cache_file`.
--   Pager/Page, Pager/Disk: the page headers, the state of `Pager` and its file. A page is a sum
--     over its type in place of 4096 bytes: a leaf or a node holds its header and the cells of
--     its cell area, an overflow page the number of the next page and its content. `PagerState`
--     has the file, the count of its pages and `total_num_pages_`; a method is a function of
--     that state to a result or an error with the state that it leaves.
--   Pager/FirstPage, Pager/FreeList, Pager/Create, Pager/Seek: lib/pager/first_page,
--     lib/pager/free_page and the methods of lib/pager/pager.cpp by their names. The overloads
--     of `create_page` are `create_free_page`, `create_node_page`, `create_leaf_page` and
--     `write_overflow_chain`. `seek_page` returns what the source stores in `page_manager_`.
--   Pager/Overflow: lib/pager/overflow_page and `_write_overflow_chain`.
--   Pager/Leaf, Pager/Node: lib/pager/leaf_page and lib/pager/node_page. A manager's fields are
--     a record, and a method that changes them returns the new record.
--   BufferPool: lib/pager/bufferpool/bufferpool.cpp, frameheader.cpp and pageguard.cpp.
--     BufferPool.antt is the state, with the latches of the frames and the pool,
--     BufferPool/Guard the two classes of guards, of which a guard's kind tells which it is, and
--     BufferPool/Pool the methods of the pool. A thread that has to wait for a latch ends with
--     the error `waiting`.
--   Evictor: lib/pager/bufferpool/lruk.cpp and evictor.h. The two ordered sets are ascending
--     lists of pairs, the hash map a function.
--
-- The leaf pages call the pager for overflow pages, the pager takes those from the free list or
-- appends them, and every method works on the same file. The buffer pool keeps pages in frames,
-- asks the evictor for one to give up, and reads and writes them by the storage engine. The
-- storage engine keeps the pages of a table in files that it opens on the virtual file system
-- and keeps in the file cache. The catalog keeps its tables in a B+ tree by a cursor, and the
-- executor calls the catalog. The B+ tree's cursor calls the pager and the managers of leaf and
-- node pages; the splits take new pages from the pager, and the merges give pages back to the
-- free list.
--
-- Numbers are natural numbers. Where the source's width matters it is written out:
-- `payload_size` and the offset of the chunk loop are taken modulo 2 ^ 32 and the evictor's
-- clock modulo 2 ^ 64. `next_oid_` is taken modulo 2 ^ 32, and an offset in a segment, as the
-- last index of an empty leaf, modulo 2 ^ 64; other page numbers and page counts, which are
-- `uint64_t`, are not wrapped.
--
-- Loops that are not structural have fuel. The binary searches take one more than the number of
-- keys, and one that has not ended in these rounds has an answer of its own (`unfinished`, or no
-- value); the chunk loop the payload's length, since each round takes a byte at least;
-- `read_chain`, the reading of a chain of overflow pages, an argument, for which more than the
-- number of chunks is enough. `to_string` has a unit for each of 20 digits, which 64 bits do not
-- exceed. `drop_table` has the depth of its recursion, for which one more than the number of
-- tables is enough, since each call takes a table away, and the loading of the tables has its
-- rounds, one for each table. The descents of the cursor have the fuel as an argument too: more
-- than the height of the tree is enough.
--
-- The operating system is a parameter with laws from its manual pages
-- (Vfs/Local/Implements.antt). They compare paths as strings, so that a system on which two
-- strings name one file lies outside them.
--
-- The buffer pool's frames have PAGE_SIZE bytes. Where the pages of the engine are smaller, the
-- source reads past the end of a buffer when it fills a frame; zeros stand for those bytes.
--
-- The model is of a build with assertions: an `assert` that fails ends the operation with the
-- error `assertion` and the state at that point, where the program stops.
--
-- Not modelled: the bytes of a page, in whose place the fields stand; failures of the operating
-- system under the pager, other than a seek to page 0, whose offset is negative; `assert` of a
-- pointer. In the buffer pool, what a thread does once it need not wait any more is not
-- modelled. An error that the cursor throws as a pointer is thrown as the error itself; the
-- destructor and the getters of the cursor are left out; the parser is generated code.
pub mod Common
pub mod Encoding
pub mod Record
pub mod Ast
pub mod Binder
pub mod Vfs
pub mod Storage
pub mod FileCache
pub mod Pager
pub mod Evictor
pub mod BufferPool
pub mod BTree
pub mod Catalog
pub mod Executor
