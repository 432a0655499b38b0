-- ===== src/Pager/Overflow/Alloc.antt =====
-- The pages that `alloc_pages` hands out: the free list's, first to last, then new ones.
use cpplite.Common.{
  ℕ, zero, suc, ◌+◌, ◌≤◌, ◌<◌, ◌≡◌, refl, sym, subst, arith, List, [], ◌∷◌, length, head_or, drop,
}
use cpplite.Common.Outcome.{done}
use cpplite.Pager.Page.{FirstHeader, first, blank}
use cpplite.Pager.Disk.{PagerState, update}
use cpplite.Pager.FreeList.Chain.{Avoids, Distinct, AtMost, FreeList, Chain-first, Avoids-drop}
use cpplite.Pager.FreeList.Stack.{with_head}
use cpplite.Pager.Overflow.Write.{AboveFirst}
use cpplite.Pager.Overflow.{alloc_pages}

abbrev pub Disjoint : List ℕ → List ℕ → Type 0
Disjoint [] qs = Unit {0}
Disjoint (r ∷ rs) qs = Avoids r qs × Disjoint rs qs

-- `n` pages `qs` have been taken off the list `ps` of the pager `s`, which is now `t`.
pub record Allocated (s t : PagerState) (h : FirstHeader) (ps : List ℕ) (n : ℕ) (qs : List ℕ)
    : Type 0 where
  pub count : length qs ≡ n
  pub distinct : Distinct qs
  pub above : AboveFirst qs
  pub in_file : AtMost t.file_pages qs
  pub avoids : (q : ℕ) → q ≤ s.file_pages → Avoids q ps → Avoids q qs
  pub kept : (q : ℕ) → 1 < q → q ≤ s.file_pages → t.file q ≡ s.file q
  pub list : FreeList t (with_head h (head_or (drop n ps) 0)) (drop n ps)
  pub disjoint : Disjoint (drop n ps) qs
  pub total : t.total_num_pages ≡ t.file_pages
  pub grows : s.file_pages ≤ t.file_pages

unfoldable pub taken : PagerState → FirstHeader → ℕ → PagerState
taken s h next = record s { file = update s.file 1 (first (with_head h next)) }

unfoldable pub extended : PagerState → PagerState
extended s = record {
  file = update s.file (s.file_pages + 1) blank;
  file_pages = s.file_pages + 1;
  total_num_pages = s.total_num_pages + 1;
}

Disjoint-cons : (p : ℕ) (rs qs : List ℕ) → Avoids p rs → Disjoint rs qs → Disjoint rs (p ∷ qs)
Disjoint-cons p [] qs a d = tt
Disjoint-cons p (r ∷ rs) qs a d = ((λ e. a.0 (sym e), d.0), Disjoint-cons p rs qs a.1 d.1)

drop-nil : (n : ℕ) → drop {A = ℕ} n [] ≡ []
drop-nil zero = refl
drop-nil (suc n) = refl

taken-FreeList :
    (s : PagerState) (h : FirstHeader) (p : ℕ) (ps : List ℕ)
    → FreeList s h (p ∷ ps)
    → FreeList (taken s h (head_or ps 0)) (with_head h (head_or ps 0)) ps
unfolding taken
taken-FreeList s h p ps f = record {
  header = ground arith;
  head = refl;
  chain = Chain-first s.file _ ps f.chain.2;
  distinct = f.distinct.1;
  in_file = f.in_file.1;
}

extended-FreeList :
    (s : PagerState) (h : FirstHeader)
    → 0 < s.file_pages
    → FreeList s h []
    → FreeList (extended s) h []
unfolding extended
extended-FreeList s h l f = record {
  header = ground (arith, f.header);
  head = f.head;
  chain = tt;
  distinct = tt;
  in_file = tt;
}

FreeList-head :
    (s : PagerState) (h : FirstHeader) (ps : List ℕ)
    → FreeList s h ps
    → FreeList s (with_head h (head_or ps 0)) ps
FreeList-head s h ps f = record {
  header = ground (arith, f.header, f.head);
  head = refl;
  chain = f.chain;
  distinct = f.distinct;
  in_file = f.in_file;
}

Disjoint-none : (ps : List ℕ) → Disjoint ps []
Disjoint-none [] = tt
Disjoint-none (p ∷ ps) = (tt, Disjoint-none ps)

pub Allocated-none :
    (s : PagerState) (h : FirstHeader) (ps : List ℕ)
    → FreeList s h ps
    → s.total_num_pages ≡ s.file_pages
    → Allocated s s h ps 0 []
Allocated-none s h ps f e = record {
  count = refl;
  distinct = tt;
  above = tt;
  in_file = tt;
  avoids = λ q b a. tt;
  kept = λ q b a. refl;
  list = FreeList-head s h ps f;
  disjoint = Disjoint-none ps;
  total = e;
  grows = omega arith;
}

Allocated-append :
    (s t : PagerState) (h : FirstHeader) (n : ℕ) (qs : List ℕ)
    → 0 < s.file_pages
    → Allocated (extended s) t h [] n qs
    → Allocated s t h [] (suc n) ((s.file_pages + 1) ∷ qs)
unfolding extended
Allocated-append s t h n qs l a = record {
  count = omega (arith, a.count);
  distinct = (a.avoids (s.file_pages + 1) (omega arith) tt, a.distinct);
  above = (omega arith, a.above);
  in_file = (a.grows, a.in_file);
  avoids = λ q b c. (omega arith, a.avoids q (omega arith) tt);
  kept = λ q b c. ground (arith, a.kept q b (omega arith));
  list = subst (λ rs. FreeList t (with_head h (head_or rs 0)) rs) (drop-nil n) a.list;
  disjoint = tt;
  total = a.total;
  grows = omega (arith, a.grows);
}

Allocated-reuse :
    (s t : PagerState) (h : FirstHeader) (n p : ℕ) (ps qs : List ℕ)
    → FreeList s h (p ∷ ps)
    → Allocated (taken s h (head_or ps 0)) t (with_head h (head_or ps 0)) ps n qs
    → Allocated s t h (p ∷ ps) (suc n) (p ∷ qs)
unfolding taken
Allocated-reuse s t h n p ps qs f a = record {
  count = omega (arith, a.count);
  distinct = (a.avoids p f.in_file.0 f.distinct.0, a.distinct);
  above = (f.chain.0, a.above);
  in_file = (omega (arith, f.in_file.0, a.grows), a.in_file);
  avoids = λ q b c. (c.0, a.avoids q b c.1);
  kept = λ q b c. ground (arith, a.kept q b c);
  list = a.list;
  disjoint = Disjoint-cons p (drop n ps) qs (Avoids-drop p n ps f.distinct.0) a.disjoint;
  total = a.total;
  grows = a.grows;
}

-- `alloc_pages` always succeeds on a well-formed pager.
pub alloc_pages-Allocated :
    (n : ℕ) (s : PagerState) (h : FirstHeader) (ps : List ℕ)
    → FreeList s h ps
    → s.total_num_pages ≡ s.file_pages
    → 0 < s.file_pages
    → (qs : List ℕ) × (t : PagerState) × (alloc_pages n (head_or ps 0) s ≡ done qs t)
      × Allocated s t h ps n qs
unfolding alloc_pages extended taken
alloc_pages-Allocated zero s h ps f e l = ([], s, refl, Allocated-none s h ps f e)
alloc_pages-Allocated (suc n) s h [] f e l =
    let (qs, t, run, a) =
      alloc_pages-Allocated n (extended s) h [] (extended-FreeList s h l f) (omega arith)
        (omega arith) in
    ((s.file_pages + 1) ∷ qs, t, ground (arith, run), Allocated-append s t h n qs l a)
alloc_pages-Allocated (suc n) s h (p ∷ ps) f e l =
    let next = head_or ps 0 in
    let (qs, t, run, a) =
      alloc_pages-Allocated n (taken s h next) (with_head h next) ps (taken-FreeList s h p ps f) e
        l in
    (
      p ∷ qs,
      t,
      ground (arith, run, f.header, f.chain.0, f.chain.1),
      Allocated-reuse s t h n p ps qs f a,
    )
