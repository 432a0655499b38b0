-- ===== src/Evictor/Access.antt =====
-- `record_access` keeps the invariant.
use cpplite.Common.{
  ℕ, ◌-◌, ◌≤◌, ◌≡◌, refl, arith, inl, inr, Bool, Option, none, some, List, [], ◌∷◌, ◌++◌, ltb, ◌==◌,
  if◌then◌else◌, length, drop, length-append, Bool-cases,
}
use cpplite.Evictor.Set.{
  set_erase, in_set-insert, in_set-erase, set_insert-IsOrdered, set_erase-IsOrdered, length-insert,
  length-erase,
}
use cpplite.Evictor.Invariant.{IsValid, less_at, full_at, IsHistory-at}
use cpplite.Evictor.{
  LrukNode, LrukEvictor, front, push_history, node_or_new, touch_node, record_access,
}

abbrev pub last_times : ℕ → List ℕ → List ℕ
last_times k times = drop (length times - k) times

abbrev pub touched : ℕ → ℕ → LrukNode → LrukNode
touched k now n = record n { history = last_times k (n.history ++ (now ∷ [])) }

-- What `record_access` does of an evictor.
abbrev pub Accessed : LrukEvictor → ℕ → Type 0
Accessed e f =
    IsValid (record_access e f)
    × ((g : ℕ)
        → (record_access e f).node_store g ≡ (
            if f == g
            then some (touched e.k e.current_timestamp (node_or_new (e.node_store f)))
            else e.node_store g))

module _ (e : LrukEvictor) (f : ℕ) (v : IsValid e) where
  touch_new-IsValid : e.node_store f ≡ none → IsValid (touch_node e f (node_or_new none))
  unfolding touch_node
  touch_new-IsValid p = record {
    positive = v.positive;
    histories = λ g. ground (arith, v.histories g, v.positive);
    less_ordered = ground (arith, v.less_ordered);
    k_ordered = ground (arith, v.k_ordered);
    less_entries = λ t g. ground (arith, v.less_entries t g, less_at e f v t none p);
    k_entries = λ t g. ground (arith, v.k_entries t g, full_at e f v t none p);
    size = ground (arith, v.size);
  }

  touch_old-IsValid :
      (x : ℕ) (xs : List ℕ) (b : Bool)
      → let n : LrukNode = record { history = x ∷ xs; is_evictable = b } in
        e.node_store f ≡ some n → IsValid (touch_node e f n)
  unfolding touch_node
  touch_old-IsValid x xs b p =
      let n : LrukNode = record { history = x ∷ xs; is_evictable = b } in
      let history = push_history e.k (x ∷ xs) e.current_timestamp in
      let old_key : ℕ × ℕ = (x, f) in
      let new_key : ℕ × ℕ = (front history, f) in
      let longer = length-append xs (e.current_timestamp ∷ []) in
      record {
        positive = v.positive;
        histories = λ g. ground (arith, v.histories g, IsHistory-at e f v (some n) p, longer);
        less_ordered =
            ground (arith, v.less_ordered, set_erase-IsOrdered old_key e.less_than_k_set);
        k_ordered = ground (
          arith,
          v.k_ordered,
          set_insert-IsOrdered new_key e.k_set,
          set_insert-IsOrdered new_key (set_erase old_key e.k_set),
          set_erase-IsOrdered old_key e.k_set,
        );
        less_entries = λ t g. ground (
          arith,
          v.less_entries t g,
          less_at e f v t (some n) p,
          longer,
          IsHistory-at e f v (some n) p,
          in_set-erase (t, g) old_key e.less_than_k_set v.less_ordered,
        );
        k_entries = λ t g. ground (
          arith,
          v.k_entries t g,
          full_at e f v t (some n) p,
          longer,
          IsHistory-at e f v (some n) p,
          in_set-insert (t, g) new_key e.k_set,
          in_set-insert (t, g) new_key (set_erase old_key e.k_set),
          in_set-erase (t, g) old_key e.k_set v.k_ordered,
        );
        size = ground (
          arith,
          v.size,
          longer,
          IsHistory-at e f v (some n) p,
          less_at e f v x (some n) p,
          full_at e f v x (some n) p,
          full_at e f v (front history) (some n) p,
          length-erase old_key e.less_than_k_set v.less_ordered,
          length-erase old_key e.k_set v.k_ordered,
          length-insert new_key e.k_set v.k_ordered,
          in_set-erase new_key old_key e.k_set v.k_ordered,
          length-insert new_key (set_erase old_key e.k_set)
              (set_erase-IsOrdered old_key e.k_set v.k_ordered),
        );
      }

  touch_node-IsValid :
      (o : Option LrukNode) → e.node_store f ≡ o → IsValid (touch_node e f (node_or_new o))
  touch_node-IsValid none p = touch_new-IsValid p
  touch_node-IsValid (some n) p = go n.history n.is_evictable p
    where
      go :
          (history : List ℕ) (b : Bool)
          → let n : LrukNode = record { history = history; is_evictable = b } in
            e.node_store f ≡ some n → IsValid (touch_node e f n)
      go [] b p = absurd (omega (arith, (IsHistory-at e f v _ p).0))
      go (x ∷ xs) b p = touch_old-IsValid x xs b p

  push-last :
      (history : List ℕ) (now : ℕ)
      → length history ≤ e.k
      → push_history e.k history now ≡ last_times e.k (history ++ (now ∷ []))
  push-last history now h = elim (Bool-cases (ltb e.k (length (history ++ (now ∷ []))))) [
    | inl p ↦ ground (arith, length-append history (now ∷ []), p)
    | inr p ↦ ground (arith, length-append history (now ∷ []), p)
  ]

  touch_node-touches :
      (o : Option LrukNode) (g : ℕ)
      → e.node_store f ≡ o
      → (touch_node e f (node_or_new o)).node_store g ≡ (
          if f == g then some (touched e.k e.current_timestamp (node_or_new o)) else e.node_store g)
  unfolding touch_node
  touch_node-touches none g p = ground (arith, push-last [] e.current_timestamp)
  touch_node-touches (some n) g p =
      ground (arith, push-last n.history e.current_timestamp, IsHistory-at e f v (some n) p)

  -- On a valid evictor `record_access` gives the frame a node, made if there was none and not
  -- evictable then, with the last `k` of its times and the time of now; it changes no other frame's
  -- node, and the evictor stays valid.
  pub record_access-IsValid : Accessed e f
  unfolding record_access
  record_access-IsValid =
      (touch_node-IsValid (e.node_store f) refl, λ g. touch_node-touches (e.node_store f) g refl)
