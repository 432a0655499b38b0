-- ===== src/FileCache/Put.antt =====
-- `put`, of a key that is in the cache and of a new one.
use cpplite.Common.{
  ℕ, ◌-◌, ◌<◌, ◌≡◌, refl, sym, ap, ◌∙◌, arith, Bool, true, false, none, some, inl, inr, Bool-cases,
  List, [], ◌∷◌, ◌++◌, ◌==◌, if◌then◌else◌, length,
}
use mathlib.Core.List.{append-nil}
use cpplite.Common.Outcome.{done}
use cpplite.Common.Sorted.{has}
use cpplite.Pager.FreeList.Chain.{Avoids}
use cpplite.FileCache.{
  FileKey, is_key, FileNode, find, erase, store, unlink, tail, FileCache, insert_node, delete_node,
  exists, get, add, evict_tail, put,
}
use cpplite.FileCache.Chain.{
  unlink-tail, find-erase, find-store, has-unlink, is_key_refl, is_key_eq, Option-cases,
  length-unlink, Distinct-unlink, has-tail, tail-Filled,
}
use cpplite.FileCache.Order.{IsValid}

module _ {F : Type 0} where
  find-exists :
      (key : FileKey) (c : FileCache F)
      → exists key c ≡ true
      → (node : ℕ) × (find key c.filecache ≡ some node)
  unfolding exists
  find-exists key c e = elim (Option-cases (find key c.filecache)) [
    | inl p ↦ absurd (ground (arith, p, e))
    | inr p ↦ p
  ]

  -- The key is not in the map, and the others are there as they were; no file is closed, and the new one is in no node.
  abbrev pub PutsPresent : FileKey → F → FileCache F → Type 0
  PutsPresent key file c =
      (c' : FileCache F) × (put key file c ≡ done tt c')
      × (exists key c' ≡ false)
      × ((other : FileKey) → exists other c' ≡ (if is_key key other then false else exists other c))
      × (c'.closed ≡ c.closed)
      × ((a : ℕ) → c'.node_at a ≡ c.node_at a)

  -- `put` of a key that is in the cache succeeds, and the key is then not in the map; the other keys
  -- are there as they were, no file is closed, and the new file is in no node.
  pub put_present :
      (key : FileKey) (file : F) (c : FileCache F) → exists key c ≡ true → PutsPresent key file c
  unfolding put exists delete_node
  put_present key file c e =
      let (node, p) = find-exists key c e in
      (
        insert_node node (delete_node key c),
        ground (arith, p),
        ground (arith, p, find-erase key key c.filecache, is_key_refl key),
        λ other. ground (arith, p, find-erase key other c.filecache),
        ground (arith, p),
        λ a. ground (arith, p),
      )

-- The cache without the node at the tail, whose file is closed.
abbrev pub without_tail : {F : Type 0} → FileCache F → ℕ → FileCache F
without_tail c l = record c {
  chain = unlink l c.chain;
  filecache = erase (c.node_at l).key c.filecache;
  closed = (c.node_at l).file ∷ c.closed;
  size = c.size - 1;
}

evict_tail-run :
    {F : Type 0}
    → (c : FileCache F) (l : ℕ) → IsValid c
    → tail c.chain ≡ some l
    → evict_tail c ≡ done tt (without_tail c l)
unfolding evict_tail delete_node
evict_tail-run c l v e = ground (arith, e, v.mapped l (has-tail l c.chain e))

pub without_tail-IsValid :
    {F : Type 0}
    → (c : FileCache F) (l : ℕ) → IsValid c
    → has l c.chain ≡ true
    → IsValid (without_tail c l)
unfolding has
without_tail-IsValid c l v there =
    let key = (c.node_at l).key in
    record {
      linked = λ k a e. elim (Bool-cases (is_key key k)) [
        | inl i ↦ absurd (ground (arith, e, find-erase key k c.filecache, i))
        | inr i ↦
            let (in_chain, named) =
              v.linked k a (ground (arith, e, find-erase key k c.filecache, i)) in
            let apart : (l == a) ≡ false = elim (Bool-cases (l == a)) [
              | inl p ↦
                  let q : l ≡ a = ground (arith, p) in
                  let same : key ≡ k = ap (λ x. (c.node_at x).key) q ∙ named in
                  absurd (ground (arith, i, is_key_refl k, ap (λ x. is_key x k) same))
              | inr p ↦ p
            ] in
            (ground (arith, in_chain, apart, has-unlink a l c.chain), named)
      ];
      mapped = λ a e. elim (Bool-cases (is_key key (c.node_at a).key)) [
        | inl i ↦
            let same = ap (λ k. find k c.filecache) (is_key_eq key (c.node_at a).key i) in
            absurd (ground (arith, e, has-unlink a l c.chain, same, v.mapped l there, v.mapped a))
        | inr i ↦
            find-erase key (c.node_at a).key c.filecache
            ∙ rw i (v.mapped a (ground (arith, e, has-unlink a l c.chain)))
      ];
      fresh = λ a e. v.fresh a (ground (arith, e, has-unlink a l c.chain));
      once = Distinct-unlink l c.chain v.once;
      count = omega (arith, v.count, length-unlink l c.chain v.once there);
      bound = omega (arith, v.bound);
    }

Avoids-fresh : (n : ℕ) (chain : List ℕ) → ((a : ℕ) → has a chain ≡ true → a < n) → Avoids n chain
unfolding has
Avoids-fresh n [] f = tt
Avoids-fresh n (x ∷ chain) f = (
  (let l : x < n = f x (ground arith) in omega (arith, l)),
  Avoids-fresh n chain (λ a e. f a (ground (arith, e))),
)

-- The nodes after one is made at a new address.
pub node_at-new : {B : Type 0} → (a n : ℕ) (x y : B) → n ≡ a → (if a == n then x else y) ≡ x
node_at-new a n x y e = ground (arith, e)

pub node_at-old : {B : Type 0} → (a n : ℕ) (x y : B) → a < n → (if a == n then x else y) ≡ y
node_at-old a n x y l = ground (arith, l)

pub add-IsValid :
    {F : Type 0}
    → (key : FileKey) (file : F) (c : FileCache F) → IsValid c
    → find key c.filecache ≡ none
    → c.size < c.max_size
    → IsValid (add key file c)
unfolding has
add-IsValid {F = F} key file c v absent room =
    let node = c.next_address in
    let new : FileNode F = record { key = key; file = file } in
    let old_key = λ (a : ℕ) (l : a < node).
      ap (λ (x : FileNode F). x.key) (node_at-old a node new (c.node_at a) l) in
    let new_key = λ (a : ℕ) (q : node ≡ a).
      ap (λ (x : FileNode F). x.key) (node_at-new a node new (c.node_at a) q) in
    record {
      linked = λ k a e. elim (Bool-cases (is_key key k)) [
        | inl i ↦
            let q : node ≡ a = ground (arith, e, i, find-store key k node c.filecache) in
            let named = is_key_eq key k i in (ground (arith, q), new_key a q ∙ named)
        | inr i ↦
            let (in_chain, named) =
              v.linked k a (ground (arith, e, i, find-store key k node c.filecache)) in
            (ground (arith, in_chain), old_key a (v.fresh a in_chain) ∙ named)
      ];
      mapped = λ a e. elim (Bool-cases (node == a)) [
        | inl i ↦
            let q : node ≡ a = ground (arith, i) in
            ap (λ k. find k (store key node c.filecache)) (new_key a q)
            ∙ find-store key key node c.filecache
            ∙ rw (is_key_refl key) (ap some q)
        | inr i ↦
            let in_chain : has a c.chain ≡ true = ground (arith, e, i) in
            let there = v.mapped a in_chain in
            ap (λ k. find k (store key node c.filecache)) (old_key a (v.fresh a in_chain))
            ∙ find-store key (c.node_at a).key node c.filecache
            ∙ elim (Bool-cases (is_key key (c.node_at a).key)) [
              | inl j ↦
                  let same = ap (λ k. find k c.filecache) (is_key_eq key (c.node_at a).key j) in
                  absurd (ground (arith, absent, same, there))
              | inr j ↦ rw j there
            ]
      ];
      fresh = λ a e. ground (arith, e, v.fresh a);
      once = (Avoids-fresh node c.chain v.fresh, v.once);
      count = omega (arith, v.count);
      bound = omega (arith, room);
    }

-- The cache before the new node is made: if it is full, without the node at the tail, whose file is
-- closed.
abbrev pub MakesRoom : {F : Type 0} → FileCache F → FileCache F → Type 0
MakesRoom c room =
    if c.size == c.max_size
    then ((l : ℕ) × (tail c.chain ≡ some l) × (room ≡ without_tail c l))
    else (room ≡ c)

-- The chain is the new node, and behind it the nodes that were there, in their order and with their
-- keys and files, but for the last one if the cache was full.
abbrev pub InFront : {F : Type 0} → FileKey → F → FileCache F → FileCache F → Type 0
InFront key file c c' =
    (kept : List ℕ) × (gone : List ℕ) × (c.chain ≡ kept ++ gone)
    × (length gone ≡ (if c.size == c.max_size then 1 else 0))
    × (c'.chain ≡ c.next_address ∷ kept)
    × ((c'.node_at c.next_address).key ≡ key)
    × ((c'.node_at c.next_address).file ≡ file)
    × ((a : ℕ) → a < c.next_address → c'.node_at a ≡ c.node_at a)
    × (c'.max_size ≡ c.max_size)

-- `put` of a new key.
abbrev pub PutsNew : {F : Type 0} → FileKey → F → FileCache F → Type 0
PutsNew {F = F} key file c =
    (room : FileCache F) × MakesRoom c room
    × (put key file c ≡ done tt (add key file room))
    × IsValid (add key file room)
    × ((get key (add key file room)).0 ≡ some file)
    × InFront key file c (add key file room)

without_tail-MakesRoom :
    {F : Type 0}
    → (c : FileCache F) (l : ℕ) → (c.size == c.max_size) ≡ true
    → tail c.chain ≡ some l
    → MakesRoom c (without_tail c l)
without_tail-MakesRoom c l full last = rw full (l, last, refl)

new_at : {A : Type 0} → (b : Bool) (x y : A) → b ≡ true → (if b then x else y) ≡ x
new_at b x y e = rw e refl

add-InFront :
    {F : Type 0}
    → (key : FileKey) (file : F) (c room : FileCache F) (gone : List ℕ)
    → c.chain ≡ room.chain ++ gone
    → length gone ≡ (if c.size == c.max_size then 1 else 0)
    → room.next_address ≡ c.next_address
    → room.node_at ≡ c.node_at
    → room.max_size ≡ c.max_size
    → InFront key file c (add key file room)
add-InFront {F = F} key file c room gone split count next nodes most =
    let new : FileNode F = record { key = key; file = file } in
    let here : (add key file room).node_at c.next_address ≡ new =
      node_at-new c.next_address room.next_address new (room.node_at c.next_address) next in
    (
      room.chain,
      gone,
      split,
      count,
      ap (λ n. n ∷ room.chain) next,
      ap (λ (x : FileNode F). x.key) here,
      ap (λ (x : FileNode F). x.file) here,
      λ a l.
          node_at-old a room.next_address new (room.node_at a) (omega (arith, l, next))
          ∙ ap (λ f. f a) nodes,
      most,
    )

put_room :
    {F : Type 0}
    → (key : FileKey) (file : F) (c room : FileCache F) → IsValid room
    → find key room.filecache ≡ none
    → room.size < room.max_size
    → MakesRoom c room
    → put key file c ≡ done tt (add key file room)
    → InFront key file c (add key file room)
    → PutsNew key file c
unfolding get delete_node
put_room key file c room v absent less makes run front =
    let valid = add-IsValid key file room v absent less in
    let found : find key (add key file room).filecache ≡ some room.next_address =
      find-store key key room.next_address room.filecache
      ∙ new_at (is_key key key) (some room.next_address) (find key room.filecache)
          (is_key_refl key) in
    (room, makes, run, valid, ground (arith, found), front)

-- `put` of a new key into a well-formed cache that may hold a file succeeds, and leaves the cache well
-- formed, with no more files than it may hold: a node of its own with the key and the file stands in front
-- of the chain, and behind it the nodes that were there, in their order and as they were, but for the
-- last one if the cache was full, whose file is closed and whose key is out of the map. `get` of the key
-- then returns the file.
pub put-PutsNew :
    {F : Type 0}
    → (key : FileKey) (file : F) (c : FileCache F) → IsValid c
    → find key c.filecache ≡ none
    → 0 < c.max_size
    → PutsNew key file c
unfolding put
put-PutsNew key file c v absent some_room = elim (Bool-cases (c.size == c.max_size)) [
  | inl full ↦
      let (l, last) = tail-Filled c.chain (ground (arith, full, v.count, some_room)) in
      let there = has-tail l c.chain last in
      let room = without_tail c l in
      let filled : 0 < c.size = ground (arith, full, some_room) in
      let run = evict_tail-run c l v last in
      put_room key file c room (without_tail-IsValid c l v there)
        (ground (arith, find-erase (c.node_at l).key key c.filecache, absent))
        (omega (arith, v.bound, filled)) (without_tail-MakesRoom c l full last)
        (ground (arith, absent, full, run))
        (add-InFront key file c room (l ∷ []) (unlink-tail l c.chain v.once last) (rw full refl)
          refl refl refl)
  | inr free ↦
      put_room key file c c v absent (ground (arith, free, v.bound)) (rw free refl)
        (ground (arith, absent, free))
        (add-InFront key file c c [] (sym (append-nil c.chain)) (rw free refl) refl refl refl)
]
