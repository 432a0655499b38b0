-- ===== src/Evictor/Invariant.antt =====
-- The two sets hold an entry for each evictable frame and no other, and every operation keeps that.
use cpplite.Common.{
  ℕ, ◌+◌, ◌≤◌, ◌<◌, ◌≡◌, refl, arith, Bool, true, false, Option, none, some, ltb, ◌==◌,
  if◌then◌else◌, length,
}
use cpplite.Evictor.Set.{
  in_set, IsOrdered, in_set-insert, in_set-erase, set_insert-IsOrdered, set_erase-IsOrdered,
  length-insert, length-erase,
}
use cpplite.Evictor.{
  LrukNode, LrukEvictor, init, front, set_node_evictable, set_evictable, remove_node, remove,
}

-- Whether a node has an entry of time `t` in the set of frames with fewer than `k` accesses.
abbrev pub in_less : ℕ → Option LrukNode → ℕ → Bool
in_less k none t = false
in_less k (some n) t =
    if n.is_evictable
    then (if ltb (length n.history) k then front n.history == t else false)
    else false

-- The same of the other set.
abbrev pub in_full : ℕ → Option LrukNode → ℕ → Bool
in_full k none t = false
in_full k (some n) t =
    if n.is_evictable
    then (if ltb (length n.history) k then false else front n.history == t)
    else false

abbrev pub IsHistory : ℕ → Option LrukNode → Type 0
IsHistory k none = Unit {0}
IsHistory k (some n) = (0 < length n.history) × (length n.history ≤ k)

pub record IsValid (e : LrukEvictor) : Type 0 where
  pub positive : 0 < e.k
  pub histories : (f : ℕ) → IsHistory e.k (e.node_store f)
  pub less_ordered : IsOrdered e.less_than_k_set
  pub k_ordered : IsOrdered e.k_set
  pub less_entries : (t f : ℕ) → in_set (t, f) e.less_than_k_set ≡ in_less e.k (e.node_store f) t
  pub k_entries : (t f : ℕ) → in_set (t, f) e.k_set ≡ in_full e.k (e.node_store f) t
  pub size : e.evictable_size ≡ length e.less_than_k_set + length e.k_set

abbrev pub marked : Bool → Option LrukNode → Option LrukNode
marked b none = none
marked b (some n) = some (record n { is_evictable = b })

-- What `remove` does of an evictor.
abbrev pub Removed : LrukEvictor → ℕ → Type 0
Removed e f =
    IsValid (remove e f)
    × ((g : ℕ) → (remove e f).node_store g ≡ (if f == g then none else e.node_store g))

-- What `set_evictable` does of an evictor.
abbrev pub Marked : LrukEvictor → ℕ → Bool → Type 0
Marked e f b =
    IsValid (set_evictable e f b)
    × ((g : ℕ)
        → (set_evictable e f b).node_store g
          ≡ (if f == g then marked b (e.node_store g) else e.node_store g))

-- A new evictor is valid.
pub init-IsValid : (k : ℕ) → 0 < k → IsValid (init k)
unfolding init in_set
init-IsValid k h = record {
  positive = h;
  histories = λ f. tt;
  less_ordered = tt;
  k_ordered = tt;
  less_entries = λ t f. refl;
  k_entries = λ t f. refl;
  size = refl;
}

module _ (e : LrukEvictor) (f : ℕ) (v : IsValid e) where
  pub less_at :
      (t : ℕ) (o : Option LrukNode)
      → e.node_store f ≡ o
      → in_set (t, f) e.less_than_k_set ≡ in_less e.k o t
  less_at t o p = rw (← p) (v.less_entries t f)

  pub full_at :
      (t : ℕ) (o : Option LrukNode) → e.node_store f ≡ o → in_set (t, f) e.k_set ≡ in_full e.k o t
  full_at t o p = rw (← p) (v.k_entries t f)

  pub IsHistory-at : (o : Option LrukNode) → e.node_store f ≡ o → IsHistory e.k o
  IsHistory-at o p = rw (← p) (v.histories f)

  remove_node-IsValid : (o : Option LrukNode) → e.node_store f ≡ o → IsValid (remove_node e f o)
  unfolding remove_node
  remove_node-IsValid none p = v
  remove_node-IsValid (some n) p =
      let key : ℕ × ℕ = (front n.history, f) in
      record {
        positive = ground (arith, v.positive);
        histories = λ g. ground (arith, v.histories g);
        less_ordered = ground (arith, v.less_ordered, set_erase-IsOrdered key e.less_than_k_set);
        k_ordered = ground (arith, v.k_ordered, set_erase-IsOrdered key e.k_set);
        less_entries = λ t g. ground (
          arith,
          v.less_entries t g,
          less_at t (some n) p,
          in_set-erase (t, g) key e.less_than_k_set v.less_ordered,
        );
        k_entries = λ t g. ground (
          arith,
          v.k_entries t g,
          full_at t (some n) p,
          in_set-erase (t, g) key e.k_set v.k_ordered,
        );
        size = ground (
          arith,
          v.size,
          less_at (front n.history) (some n) p,
          full_at (front n.history) (some n) p,
          length-erase key e.less_than_k_set v.less_ordered,
          length-erase key e.k_set v.k_ordered,
        );
      }

  remove_node-forgets :
      (o : Option LrukNode) (g : ℕ)
      → e.node_store f ≡ o
      → (remove_node e f o).node_store g ≡ (if f == g then none else e.node_store g)
  unfolding remove_node
  remove_node-forgets none g p = ground arith
  remove_node-forgets (some n) g p = ground arith

  -- On a valid evictor `remove` forgets the frame and no other, and the evictor stays valid.
  pub remove-IsValid : Removed e f
  unfolding remove
  remove-IsValid =
      (remove_node-IsValid (e.node_store f) refl, λ g. remove_node-forgets (e.node_store f) g refl)

  set_node_evictable-IsValid :
      (b : Bool) (o : Option LrukNode) → e.node_store f ≡ o → IsValid (set_node_evictable e f b o)
  unfolding set_node_evictable
  set_node_evictable-IsValid b none p = v
  set_node_evictable-IsValid true (some n) p =
      let key : ℕ × ℕ = (front n.history, f) in
      record {
        positive = ground (arith, v.positive);
        histories = λ g. ground (arith, v.histories g, IsHistory-at (some n) p);
        less_ordered = ground (arith, v.less_ordered, set_insert-IsOrdered key e.less_than_k_set);
        k_ordered = ground (arith, v.k_ordered, set_insert-IsOrdered key e.k_set);
        less_entries = λ t g. ground (
          arith,
          v.less_entries t g,
          less_at t (some n) p,
          in_set-insert (t, g) key e.less_than_k_set,
        );
        k_entries = λ t g.
            ground (arith, v.k_entries t g, full_at t (some n) p, in_set-insert (t, g) key e.k_set);
        size = ground (
          arith,
          v.size,
          less_at (front n.history) (some n) p,
          full_at (front n.history) (some n) p,
          length-insert key e.less_than_k_set v.less_ordered,
          length-insert key e.k_set v.k_ordered,
        );
      }
  set_node_evictable-IsValid false (some n) p =
      let key : ℕ × ℕ = (front n.history, f) in
      record {
        positive = ground (arith, v.positive);
        histories = λ g. ground (arith, v.histories g, IsHistory-at (some n) p);
        less_ordered = ground (arith, v.less_ordered, set_erase-IsOrdered key e.less_than_k_set);
        k_ordered = ground (arith, v.k_ordered, set_erase-IsOrdered key e.k_set);
        less_entries = λ t g. ground (
          arith,
          v.less_entries t g,
          less_at t (some n) p,
          in_set-erase (t, g) key e.less_than_k_set v.less_ordered,
        );
        k_entries = λ t g. ground (
          arith,
          v.k_entries t g,
          full_at t (some n) p,
          in_set-erase (t, g) key e.k_set v.k_ordered,
        );
        size = ground (
          arith,
          v.size,
          less_at (front n.history) (some n) p,
          full_at (front n.history) (some n) p,
          length-erase key e.less_than_k_set v.less_ordered,
          length-erase key e.k_set v.k_ordered,
        );
      }

  set_node_evictable-marks :
      (b : Bool) (o : Option LrukNode) (g : ℕ)
      → e.node_store f ≡ o
      → (set_node_evictable e f b o).node_store g
        ≡ (if f == g then marked b (e.node_store g) else e.node_store g)
  unfolding set_node_evictable
  set_node_evictable-marks b none g p = ground arith
  set_node_evictable-marks true (some n) g p = ground arith
  set_node_evictable-marks false (some n) g p = ground arith

  -- On a valid evictor `set_evictable` marks the frame's node, if it has one, and leaves its history
  -- and the other frames as they were; the evictor stays valid.
  pub set_evictable-IsValid : (b : Bool) → Marked e f b
  unfolding set_evictable
  set_evictable-IsValid b = (
    set_node_evictable-IsValid b (e.node_store f) refl,
    λ g. set_node_evictable-marks b (e.node_store f) g refl,
  )
