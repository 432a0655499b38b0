-- ===== src/FileCache/Order.antt =====
-- What holds of the file cache between two calls: the map and the chain agree; and `get`, which keeps it
-- so.
use cpplite.Common.{
  ℕ, ◌≤◌, ◌<◌, ◌≡◌, refl, sym, ap, ◌∙◌, arith, true, some, inl, inr, Bool-cases, ◌∷◌, length,
}
use cpplite.Common.Sorted.{has}
use cpplite.Pager.FreeList.Chain.{Distinct}
use cpplite.FileCache.{
  new_cache, FileKey, is_key, find, erase, store, unlink, FileCache, delete_node, get,
}
use cpplite.FileCache.Chain.{
  find-erase, find-store, has-unlink, is_key_eq, length-unlink, Distinct-unlink, Avoids-unlinked,
}

module _ {F : Type 0} where
  -- The map has an address exactly if the chain has it, under the key of its node; an address stands
  -- in the chain once, and the size is the length of the chain.
  pub record IsValid (c : FileCache F) : Type 0 where
    pub linked :
        (key : FileKey) (a : ℕ)
        → find key c.filecache ≡ some a
        → (has a c.chain ≡ true) × ((c.node_at a).key ≡ key)
    pub mapped : (a : ℕ) → has a c.chain ≡ true → find (c.node_at a).key c.filecache ≡ some a
    pub fresh : (a : ℕ) → has a c.chain ≡ true → a < c.next_address
    pub once : Distinct c.chain
    pub count : c.size ≡ length c.chain
    pub bound : c.size ≤ c.max_size

pub new_cache-IsValid : {F : Type 0} → (file : F) → IsValid (new_cache file)
unfolding find has
new_cache-IsValid file = record {
  linked = λ k a e. absurd (ground (arith, e));
  mapped = λ a e. absurd (ground (arith, e));
  fresh = λ a e. absurd (ground (arith, e));
  once = tt;
  count = refl;
  bound = omega arith;
}

-- The file of the node that the map has for a key, and the cache with that node in front.
abbrev pub Gets : {F : Type 0} → FileKey → FileCache F → ℕ → Type 0
Gets key c node =
    (c' : _) × (get key c ≡ (some (c.node_at node).file, c'))
    × IsValid c'
    × (c'.chain ≡ node ∷ unlink node c.chain)
    × ((other : FileKey) → find other c'.filecache ≡ find other c.filecache)
    × (c'.node_at ≡ c.node_at)
    × (c'.max_size ≡ c.max_size)
    × (c'.closed ≡ c.closed)

-- `get` of a key that is in a well-formed cache returns the file of its node, puts the node to the front
-- of the chain with the others in their order, and changes nothing else.
pub get-Gets :
    {F : Type 0}
    → (key : FileKey) (c : FileCache F) (node : ℕ) → IsValid c
    → find key c.filecache ≡ some node
    → Gets key c node
unfolding get delete_node has
get-Gets key c node v p =
    let c' = record c {
      chain = node ∷ unlink node c.chain;
      filecache = store key node (erase key c.filecache);
    } in
    let (there, named) = v.linked key node p in
    let same : (other : FileKey) → find other c'.filecache ≡ find other c.filecache = λ other.
      elim (Bool-cases (is_key key other)) [
        | inl e ↦
            let q = is_key_eq key other e in
            find-store key other node (erase key c.filecache)
            ∙ rw e (sym p ∙ ap (λ k. find k c.filecache) q)
        | inr e ↦
            find-store key other node (erase key c.filecache)
            ∙ rw e (find-erase key other c.filecache ∙ rw e refl)
      ] in
    let chain : (a : ℕ) → has a c'.chain ≡ has a c.chain =
      λ a. ground (arith, has-unlink a node c.chain, there) in
    (
      c',
      ground (arith, p),
      record {
        linked = λ k a e. ground (arith, v.linked k a (sym (same k) ∙ e), chain a, p);
        mapped = λ a e. ground (arith, v.mapped a (sym (chain a) ∙ e), same (c.node_at a).key, p);
        fresh = λ a e. v.fresh a (sym (chain a) ∙ e);
        once = (Avoids-unlinked node c.chain, Distinct-unlink node c.chain v.once);
        count = omega (arith, v.count, length-unlink node c.chain v.once there);
        bound = v.bound;
      },
      refl,
      same,
      refl,
      refl,
      refl,
    )
