-- ===== src/FileCache.antt =====
-- lib/storage/filecache.cpp. A file is what the virtual file system has opened: a parameter. A node has
-- an address; the chain of `next` pointers from `head_` to `tail_` is the list of the addresses, and a
-- node that is deleted keeps its address there if the source leaves it linked.
pub mod Chain
pub mod Order
pub mod Put
mod Examples
use cpplite.Common.{
  ℕ, zero, suc, ◌+◌, ◌-◌, Bool, true, false, ◌&&◌, Option, none, some, List, [], ◌∷◌, ◌==◌,
  if◌then◌else◌,
}
use cpplite.Common.Outcome.{Outcome, done, thrown, assertion}

-- `MAX_CACHE_SIZE`
abbrev pub max_cache_size : ℕ
max_cache_size = 10

-- A table and a segment.
abbrev pub FileKey : Type 0
FileKey = ℕ × ℕ

abbrev pub is_key : FileKey → FileKey → Bool
is_key key other = (key.0 == other.0) && (key.1 == other.1)

pub record FileNode (F : Type 0) : Type 0 where
  pub key : FileKey
  pub file : F

module _ {A : Type 0} where
  unfoldable pub find : FileKey → List (FileKey × A) → Option A
  find key [] = none
  find key ((other, a) ∷ entries) = if is_key other key then some a else find key entries

  unfoldable pub erase : FileKey → List (FileKey × A) → List (FileKey × A)
  erase key [] = []
  erase key ((other, a) ∷ entries) =
      if is_key other key then erase key entries else (other, a) ∷ erase key entries

-- `filecache_[key] = node`
abbrev pub store : {A : Type 0} → FileKey → A → List (FileKey × A) → List (FileKey × A)
store key a entries = (key, a) ∷ erase key entries

unfoldable pub unlink : ℕ → List ℕ → List ℕ
unlink node [] = []
unlink node (a ∷ chain) = if a == node then unlink node chain else a ∷ unlink node chain

unfoldable pub tail : List ℕ → Option ℕ
tail [] = none
tail (a ∷ chain) = elim (tail chain) [ none ↦ some a | some b ↦ some b ]

-- `closed` is what `close` has been called of, the latest first.
pub record FileCache (F : Type 0) : Type 0 where
  pub filecache : List (FileKey × ℕ)
  pub chain : List ℕ
  pub node_at : ℕ → FileNode F
  pub next_address : ℕ
  pub size : ℕ
  pub max_size : ℕ
  pub closed : List F

module _ {F : Type 0} where
  abbrev pub insert_node : ℕ → FileCache F → FileCache F
  insert_node node c = record c { chain = node ∷ c.chain }

  unfoldable pub delete_node : FileKey → FileCache F → FileCache F
  delete_node key c = elim (find key c.filecache) [
    | none ↦ c
    | some node ↦ record c { chain = unlink node c.chain; filecache = erase key c.filecache }
  ]

  unfoldable pub exists : FileKey → FileCache F → Bool
  exists key c = elim (find key c.filecache) [ none ↦ false | some node ↦ true ]

  unfoldable pub get : FileKey → FileCache F → Option F × FileCache F
  unfolding delete_node
  get key c = elim (find key c.filecache) [
    | none ↦ (none, c)
    | some node ↦
        let c' = insert_node node (delete_node key c) in
        (some (c.node_at node).file, record c' { filecache = store key node c'.filecache })
  ]

  -- The new node of `put`.
  abbrev pub add : FileKey → F → FileCache F → FileCache F
  add key file c =
      let node = c.next_address in
      let c' = insert_node node (record c {
        node_at = λ a. if a == node then record { key = key; file = file } else c.node_at a;
        next_address = node + 1;
      }) in
      record c' { size = c.size + 1; filecache = store key node c'.filecache }

  -- The node at the tail goes.
  unfoldable pub evict_tail : FileCache F → Outcome (FileCache F) (Unit {0})
  unfolding delete_node
  evict_tail c = elim (tail c.chain) [
    | none ↦ thrown assertion c
    | some lru_node ↦
        let c' =
          delete_node (c.node_at lru_node).key
            (record c { closed = (c.node_at lru_node).file ∷ c.closed }) in
        done tt (record c' { size = c'.size - 1 })
  ]

  unfoldable pub put : FileKey → F → FileCache F → Outcome (FileCache F) (Unit {0})
  unfolding delete_node evict_tail
  put key file c =
      let put_new : Outcome (FileCache F) (Unit {0}) =
        if c.size == c.max_size
        then (elim (evict_tail c) [
          | done a c' ↦ done tt (add key file c')
          | thrown e c' ↦ thrown e c'
        ])
        else done tt (add key file c) in
      elim (find key c.filecache) [
        | none ↦ put_new
        | some node ↦ done tt (insert_node node (delete_node key c))
      ]

-- The cache that the constructor makes; no node stands at an address yet, where the file is a default.
abbrev pub new_cache : {F : Type 0} → F → FileCache F
new_cache none_file = record {
  filecache = [];
  chain = [];
  node_at = λ a. record { key = (0, 0); file = none_file };
  next_address = 0;
  size = 0;
  max_size = max_cache_size;
  closed = [];
}
