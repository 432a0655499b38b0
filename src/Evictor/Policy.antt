-- ===== src/Evictor/Policy.antt =====
-- Which frame `evict` gives up.
use cpplite.Common.{
  ℕ, ◌+◌, ◌-◌, ◌≤◌, ◌<◌, ◌≡◌, refl, subst, arith, ◌⊎◌, inl, inr, Bool, true, false, Option, none,
  some, List, [], ◌∷◌, ltb, leb, ◌==◌, if◌then◌else◌, length, Bool-cases,
}
use cpplite.Evictor.Set.{in_set, IsOrdered, AbovePair, tail-IsOrdered, in_set_above}
use cpplite.Evictor.Invariant.{IsValid, in_less, in_full}
use cpplite.Evictor.{LrukNode, LrukEvictor, front, store, evict, evict_first}

-- An evictable frame with fewer than `k` accesses goes before one with `k`, and of two of a kind the
-- one whose oldest kept access is older.
abbrev pub goes_before : ℕ → LrukNode → LrukNode → Bool
goes_before k m n =
    if ltb (length m.history) k
    then (if ltb (length n.history) k then leb (front m.history) (front n.history) else true)
    else (if ltb (length n.history) k then false else leb (front m.history) (front n.history))

-- No evictable node has to go before this one.
abbrev pub FirstToGo : LrukEvictor → LrukNode → Option LrukNode → Type 0
FirstToGo e m none = Unit {0}
FirstToGo e m (some n) = (if n.is_evictable then goes_before e.k m n else true) ≡ true

-- The victim was evictable and first to go, is forgotten, and no other frame is.
pub record Evicts (e e' : LrukEvictor) (victim : ℕ) : Type 0 where
  pub node : LrukNode
  pub stored : e.node_store victim ≡ some node
  pub evictable : node.is_evictable ≡ true
  pub first_to_go : (g : ℕ) → FirstToGo e node (e.node_store g)
  pub forgotten : (g : ℕ) → e'.node_store g ≡ (if victim == g then none else e.node_store g)
  pub valid : IsValid e'
  pub fewer : e'.evictable_size + 1 ≡ e.evictable_size

in_less_lem :
    (k : ℕ) (o : Option LrukNode) (ts : ℕ)
    → in_less k o ts ≡ true
    → (n : LrukNode) × (o ≡ some n)
      × (n.is_evictable ≡ true)
      × (ltb (length n.history) k ≡ true)
      × (front n.history ≡ ts)
in_less_lem k none ts h = cc
in_less_lem k (some n) ts h = (n, refl, ground arith, ground arith, ground arith)

in_full_lem :
    (k : ℕ) (o : Option LrukNode) (ts : ℕ)
    → in_full k o ts ≡ true
    → (n : LrukNode) × (o ≡ some n)
      × (n.is_evictable ≡ true)
      × (ltb (length n.history) k ≡ false)
      × (front n.history ≡ ts)
in_full_lem k none ts h = cc
in_full_lem k (some n) ts h = (n, refl, ground arith, ground arith, ground arith)

-- The first of an ordered set is the least.
first_le :
    (t ts g victim : ℕ) (rest : List (ℕ × ℕ))
    → AbovePair (ts, victim) rest
    → in_set (t, g) ((ts, victim) ∷ rest) ≡ true
    → ts ≤ t
unfolding in_set
first_le t ts g victim rest s h = ground (arith, in_set_above (ts, victim) (t, g) rest s)

FirstToGo-less :
    (e : LrukEvictor) (m : LrukNode) (ts victim g : ℕ) (rest : List (ℕ × ℕ)) (o : Option LrukNode)
    → AbovePair (ts, victim) rest
    → ltb (length m.history) e.k ≡ true
    → front m.history ≡ ts
    → ((t : ℕ) → in_set (t, g) ((ts, victim) ∷ rest) ≡ in_less e.k o t)
    → FirstToGo e m o
FirstToGo-less e m ts victim g rest none s l h entries = tt
FirstToGo-less e m ts victim g rest (some n) s l h entries =
    ground (arith, entries (front n.history), first_le (front n.history) ts g victim rest s)

FirstToGo-full :
    (e : LrukEvictor) (m : LrukNode) (ts victim g : ℕ) (rest : List (ℕ × ℕ)) (o : Option LrukNode)
    → AbovePair (ts, victim) rest
    → ltb (length m.history) e.k ≡ false
    → front m.history ≡ ts
    → ((t : ℕ) → false ≡ in_less e.k o t)
    → ((t : ℕ) → in_set (t, g) ((ts, victim) ∷ rest) ≡ in_full e.k o t)
    → FirstToGo e m o
FirstToGo-full e m ts victim g rest none s l h none_less entries = tt
FirstToGo-full e m ts victim g rest (some n) s l h none_less entries = ground (
  arith,
  entries (front n.history),
  none_less (front n.history),
  first_le (front n.history) ts g victim rest s,
)

module _ (e : LrukEvictor) (v : IsValid e) where
  evict_less :
      (ts victim : ℕ) (rest : List (ℕ × ℕ))
      → e.less_than_k_set ≡ (ts, victim) ∷ rest
      → let e' : LrukEvictor = record e {
        less_than_k_set = rest;
        node_store = store e.node_store victim none;
        evictable_size = e.evictable_size - 1;
      } in
        Evicts e e' victim
  unfolding in_set
  evict_less ts victim rest p =
      let s : AbovePair (ts, victim) rest = subst IsOrdered p v.less_ordered in
      let entries = λ (g t : ℕ).
        subst (λ l. in_set (t, g) l ≡ in_less e.k (e.node_store g) t) p (v.less_entries t g) in
      let (n, at, ev, l, fr) =
        in_less_lem e.k (e.node_store victim) ts (ground (arith, entries victim ts)) in
      record {
        node = n;
        stored = at;
        evictable = ev;
        first_to_go = λ g. FirstToGo-less e n ts victim g rest (e.node_store g) s l fr (entries g);
        forgotten = λ g. refl;
        valid = record {
          positive = v.positive;
          histories = λ g. ground (arith, v.histories g);
          less_ordered = tail-IsOrdered (ts, victim) rest s;
          k_ordered = v.k_ordered;
          less_entries = λ t g.
              ground (arith, entries g t, at, ev, l, fr, in_set_above (ts, victim) (t, g) rest s);
          k_entries = λ t g. ground (arith, v.k_entries t g, at, ev, l, fr);
          size = ground (arith, v.size, p);
        };
        fewer = ground (arith, v.size, p);
      }

  evict_full :
      (ts victim : ℕ) (rest : List (ℕ × ℕ))
      → e.less_than_k_set ≡ []
      → e.k_set ≡ (ts, victim) ∷ rest
      → let e' : LrukEvictor = record e {
        k_set = rest;
        node_store = store e.node_store victim none;
        evictable_size = e.evictable_size - 1;
      } in
        Evicts e e' victim
  unfolding in_set
  evict_full ts victim rest no_less p =
      let s : AbovePair (ts, victim) rest = subst IsOrdered p v.k_ordered in
      let entries = λ (g t : ℕ).
        subst (λ l. in_set (t, g) l ≡ in_full e.k (e.node_store g) t) p (v.k_entries t g) in
      let none_less = λ (g t : ℕ).
        subst (λ l. in_set (t, g) l ≡ in_less e.k (e.node_store g) t) no_less
          (v.less_entries t g) in
      let (n, at, ev, l, fr) =
        in_full_lem e.k (e.node_store victim) ts (ground (arith, entries victim ts)) in
      record {
        node = n;
        stored = at;
        evictable = ev;
        first_to_go = λ g.
            FirstToGo-full e n ts victim g rest (e.node_store g) s l fr (none_less g) (entries g);
        forgotten = λ g. refl;
        valid = record {
          positive = v.positive;
          histories = λ g. ground (arith, v.histories g);
          less_ordered = v.less_ordered;
          k_ordered = tail-IsOrdered (ts, victim) rest s;
          less_entries = λ t g. ground (arith, v.less_entries t g, at, ev, l, fr);
          k_entries = λ t g.
              ground (arith, entries g t, at, ev, l, fr, in_set_above (ts, victim) (t, g) rest s);
          size = ground (arith, v.size, p, no_less);
        };
        fewer = ground (arith, v.size, p, no_less);
      }

  evict_first-Evicts :
      (less full : List (ℕ × ℕ))
      → e.less_than_k_set ≡ less
      → e.k_set ≡ full
      → 0 < length less + length full
      → (victim : ℕ) × (e' : LrukEvictor) × (evict_first e less full ≡ (some victim, e'))
        × Evicts e e' victim
  unfolding evict_first
  evict_first-Evicts [] [] p q h = absurd (omega arith)
  evict_first-Evicts [] ((ts, victim) ∷ rest) p q h =
      (victim, _, refl, evict_full ts victim rest p q)
  evict_first-Evicts ((ts, victim) ∷ rest) full p q h =
      (victim, _, refl, evict_less ts victim rest p)

-- What `evict` does of an evictor.
abbrev pub Chooses : LrukEvictor → Type 0
Chooses e =
    ((e.evictable_size ≡ 0) × (evict e ≡ (none, e)))
    ⊎ ((victim : ℕ) × (e' : LrukEvictor) × (evict e ≡ (some victim, e')) × Evicts e e' victim)

-- Of a valid evictor with no evictable frame, `evict` returns nothing and changes nothing. With one,
-- it returns an evictable frame such that no evictable frame has to go before it: frames with fewer
-- than `k` accesses go first, and of two of a kind the one whose oldest kept access is older. It
-- forgets that frame and no other, and the evictor is valid with one evictable frame fewer.
pub evict-Chooses : (e : LrukEvictor) → IsValid e → Chooses e
unfolding evict
evict-Chooses e v = elim (Bool-cases (e.evictable_size == 0)) [
  | inl p ↦ inl (ground (arith, p), ground (arith, p))
  | inr p ↦ inr (
      ground (
        arith,
        p,
        evict_first-Evicts e v e.less_than_k_set e.k_set refl refl (ground (arith, v.size, p)),
      ))
]
