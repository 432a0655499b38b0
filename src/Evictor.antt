-- ===== src/Evictor.antt =====
-- The replacement policy of the buffer pool: lib/pager/bufferpool/evictor.h and lruk.cpp. The hash
-- map is a function. The count of evictable frames is at most the number of frames, a `uint32_t`,
-- so that it does not wrap round.
pub mod Set
pub mod Invariant
pub mod Access
pub mod Policy
mod Examples
use cpplite.Common.{
  ℕ, zero, suc, ◌+◌, ◌-◌, ◌%◌, ◌^◌, Bool, true, false, ◌&&◌, not, Option, none, some, List, [], ◌∷◌,
  ◌++◌, ltb, ◌==◌, if◌then◌else◌, length, drop, head_or,
}
use Set.{set_insert, set_erase}

pub record LrukNode : Type 0 where
  pub history : List ℕ
  pub is_evictable : Bool

-- A `std::set` of pairs is the ascending list of its elements.
pub record LrukEvictor : Type 0 where
  pub k : ℕ
  pub current_timestamp : ℕ
  pub evictable_size : ℕ
  pub node_store : ℕ → Option LrukNode
  pub less_than_k_set : List (ℕ × ℕ)
  pub k_set : List (ℕ × ℕ)

unfoldable pub init : ℕ → LrukEvictor
init k = record {
  k = k;
  current_timestamp = 0;
  evictable_size = 0;
  node_store = λ _. none;
  less_than_k_set = [];
  k_set = [];
}

abbrev pub store : (ℕ → Option LrukNode) → ℕ → Option LrukNode → ℕ → Option LrukNode
store nodes f node g = if f == g then node else nodes g

abbrev pub front : List ℕ → ℕ
front history = head_or history 0

-- `begin()` of an empty set would be read only if `evictable_size_` were wrong.
evict_first : LrukEvictor → List (ℕ × ℕ) → List (ℕ × ℕ) → Option ℕ × LrukEvictor
evict_first e [] [] = (none, e)
evict_first e [] ((ts, victim) ∷ rest) = (
  some victim,
  record e {
    k_set = rest;
    node_store = store e.node_store victim none;
    evictable_size = e.evictable_size - 1;
  },
)
evict_first e ((ts, victim) ∷ rest) k_set = (
  some victim,
  record e {
    less_than_k_set = rest;
    node_store = store e.node_store victim none;
    evictable_size = e.evictable_size - 1;
  },
)

unfoldable pub evict : LrukEvictor → Option ℕ × LrukEvictor
unfolding evict_first
evict e = if e.evictable_size == 0 then (none, e) else evict_first e e.less_than_k_set e.k_set

-- `history_.push_back(ts)`, and `pop_front()` if that makes it too long.
abbrev pub push_history : ℕ → List ℕ → ℕ → List ℕ
push_history k history ts =
    let longer = history ++ (ts ∷ []) in if ltb k (length longer) then drop 1 longer else longer

-- The node that `emplace` finds or makes.
abbrev pub node_or_new : Option LrukNode → LrukNode
node_or_new none = record { history = []; is_evictable = false }
node_or_new (some node) = node

touch_node : LrukEvictor → ℕ → LrukNode → LrukEvictor
touch_node e f node =
    let history = push_history e.k node.history e.current_timestamp in
    let was_less_than_k = ltb (length node.history) e.k in
    let is_less_than_k = ltb (length history) e.k in
    let old_front = front node.history in
    let to_k_set = node.is_evictable && (was_less_than_k && not is_less_than_k) in
    let in_k_set = node.is_evictable && not was_less_than_k in
    record e {
      current_timestamp = (e.current_timestamp + 1) % 2 ^ 64;
      node_store = store e.node_store f (some (record node { history = history }));
      less_than_k_set =
          if to_k_set then set_erase (old_front, f) e.less_than_k_set else e.less_than_k_set;
      k_set =
          if to_k_set
          then set_insert (front history, f) e.k_set
          else (if in_k_set
              then set_insert (front history, f) (set_erase (old_front, f) e.k_set)
              else e.k_set);
    }

unfoldable pub record_access : LrukEvictor → ℕ → LrukEvictor
unfolding touch_node
record_access e f = touch_node e f (node_or_new (e.node_store f))

-- The key of a node's entry goes to the one set or to the other.
change_set : (ℕ × ℕ → List (ℕ × ℕ) → List (ℕ × ℕ)) → LrukEvictor → ℕ → LrukNode → LrukEvictor
change_set change e f node =
    let is_less_than_k = ltb (length node.history) e.k in
    let key : ℕ × ℕ = (front node.history, f) in
    record e {
      less_than_k_set = if is_less_than_k then change key e.less_than_k_set else e.less_than_k_set;
      k_set = if is_less_than_k then e.k_set else change key e.k_set;
    }

set_node_evictable : LrukEvictor → ℕ → Bool → Option LrukNode → LrukEvictor
unfolding change_set
set_node_evictable e f evictable none = e
set_node_evictable e f true (some node) =
    if node.is_evictable then e else record (change_set set_insert e f node) {
      evictable_size = e.evictable_size + 1;
      node_store = store e.node_store f (some (record node { is_evictable = true }));
    }
set_node_evictable e f false (some node) =
    if node.is_evictable
    then record (change_set set_erase e f node) {
      evictable_size = e.evictable_size - 1;
      node_store = store e.node_store f (some (record node { is_evictable = false }));
    }
    else e

unfoldable pub set_evictable : LrukEvictor → ℕ → Bool → LrukEvictor
unfolding set_node_evictable
set_evictable e f evictable = set_node_evictable e f evictable (e.node_store f)

remove_node : LrukEvictor → ℕ → Option LrukNode → LrukEvictor
unfolding change_set
remove_node e f none = e
remove_node e f (some node) =
    if node.is_evictable
    then record (change_set set_erase e f node) {
      evictable_size = e.evictable_size - 1;
      node_store = store e.node_store f none;
    }
    else record e { node_store = store e.node_store f none }

unfoldable pub remove : LrukEvictor → ℕ → LrukEvictor
unfolding remove_node
remove e f = remove_node e f (e.node_store f)
