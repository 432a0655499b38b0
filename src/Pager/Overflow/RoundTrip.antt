-- ===== src/Pager/Overflow/RoundTrip.antt =====
-- A payload that has been written to a chain of overflow pages is read back from it.
use cpplite.Common.{
  ℕ, ◌+◌, ◌^◌, ◌≤◌, ◌<◌, ◌≡◌, ◌≢◌, refl, subst, ◌∙◌, arith, List, [], ◌∷◌, length, head_or, drop,
}
use cpplite.Common.Outcome.{done}
use cpplite.Pager.Page.{FirstHeader}
use cpplite.Pager.Disk.{PagerState}
use cpplite.Pager.FreeList.Chain.{Avoids, FreeList, Chain}
use cpplite.Pager.FreeList.Stack.{with_head}
use cpplite.Pager.Overflow.Chunks.{concat, concat-chunks_from}
use cpplite.Pager.Overflow.Write.{
  AboveFirst, written, write_chunks-written, written_frame, Holds-written, Holds-agree,
  read_chain-Holds,
}
use cpplite.Pager.Overflow.Alloc.{Allocated, Disjoint, Allocated-none, alloc_pages-Allocated}
use cpplite.Pager.Overflow.{
  chunks_from, chunk_size, write_overflow_pages, write_overflow_chain, read_chain,
}

-- `n` chunks with the content `payload` stand in a chain from page `p` of the pager `t`. Of the pages
-- that the pager `s` had, only the first one and the `n` first of the free list have changed.
pub record Stored (s t : PagerState) (h : FirstHeader) (ps : List ℕ) (n p : ℕ) (payload : List ℕ)
    : Type 0 where
  pub readable : (fuel : ℕ) → n < fuel → read_chain fuel p t ≡ done payload t
  -- also after a write to a page `q` that was there and not free
  pub durable :
      (q fuel : ℕ) (u : PagerState)
      → q ≤ s.file_pages
      → Avoids q ps
      → ((r : ℕ) → r ≢ q → u.file r ≡ t.file r)
      → n < fuel
      → read_chain fuel p u ≡ done payload u
  pub list : FreeList t (with_head h (head_or (drop n ps) 0)) (drop n ps)
  pub total : t.total_num_pages ≡ t.file_pages
  pub grows : s.file_pages ≤ t.file_pages
  pub kept : (q : ℕ) → 1 < q → q ≤ s.file_pages → Avoids q ps → t.file q ≡ s.file q

Chain-written :
    (ps rs : List ℕ) (cs : List (List ℕ)) (s : PagerState)
    → Disjoint rs ps
    → Chain s.file rs
    → Chain (written ps cs s.file) rs
Chain-written ps [] cs s d c = tt
Chain-written ps (r ∷ rs) cs s d c =
    (c.0, written_frame ps cs s.file r d.0 ∙ c.1, Chain-written ps rs cs s d.1 c.2)

Avoids-first : (ps : List ℕ) → AboveFirst ps → Avoids 1 ps
Avoids-first [] a = tt
Avoids-first (p ∷ ps) a = (omega arith, Avoids-first ps a.1)

FreeList-written :
    (s : PagerState) (h : FirstHeader) (ps rs : List ℕ) (cs : List (List ℕ))
    → AboveFirst ps
    → Disjoint rs ps
    → FreeList s h rs
    → FreeList (record s { file = written ps cs s.file }) h rs
FreeList-written s h ps rs cs a d f = record {
  header = written_frame ps cs s.file 1 (Avoids-first ps a) ∙ f.header;
  head = f.head;
  chain = Chain-written ps rs cs s d f.chain;
  distinct = f.distinct;
  in_file = f.in_file;
}

Stored-written :
    (s t : PagerState) (h : FirstHeader) (ps qs : List ℕ) (cs : List (List ℕ))
    → Allocated s t h ps (length cs) qs
    → Stored s
        (record t { file = written qs cs t.file })
        h
        ps
        (length cs)
        (head_or qs 0)
        (concat cs)
Stored-written s t h ps qs cs a = record {
  readable = λ fuel l.
      read_chain-Holds fuel qs cs (record t { file = written qs cs t.file }) a.above
        (Holds-written qs cs t.file a.distinct a.count) (omega (arith, a.count));
  durable = λ q fuel u b av same l.
      read_chain-Holds fuel qs cs u a.above
        (Holds-agree q _ u.file qs cs (a.avoids q b av) same
          (Holds-written qs cs t.file a.distinct a.count))
        (omega (arith, a.count));
  list = FreeList-written t _ qs (drop (length cs) ps) cs a.above a.disjoint a.list;
  total = a.total;
  grows = a.grows;
  kept = λ q b c av. written_frame qs cs t.file q (a.avoids q c av) ∙ a.kept q b c;
}

Stored-none :
    (s : PagerState) (h : FirstHeader) (ps : List ℕ)
    → FreeList s h ps
    → s.total_num_pages ≡ s.file_pages
    → Stored s s h ps 0 0 []
Stored-none s h ps f e = record {
  readable = λ fuel l. read_chain-Holds fuel [] [] s tt tt l;
  durable = λ q fuel u b av same l. read_chain-Holds fuel [] [] u tt tt l;
  list = (Allocated-none s h ps f e).list;
  total = e;
  grows = omega arith;
  kept = λ q b c av. refl;
}

write_overflow_pages-Stored :
    (cs : List (List ℕ)) (s : PagerState) (h : FirstHeader) (ps : List ℕ)
    → FreeList s h ps
    → s.total_num_pages ≡ s.file_pages
    → 0 < s.file_pages
    → (p : ℕ) × (t : PagerState) × (write_overflow_pages cs s ≡ done p t)
      × Stored s t h ps (length cs) p (concat cs)
unfolding write_overflow_pages
write_overflow_pages-Stored [] s h ps f e l = (0, s, refl, Stored-none s h ps f e)
write_overflow_pages-Stored (c ∷ cs) s h ps f e l =
    let (qs, t, run, a) = alloc_pages-Allocated (length (c ∷ cs)) s h ps f e l in
    (
      head_or qs 0,
      record t { file = written qs (c ∷ cs) t.file },
      ground (arith, run, f.header, f.head, write_chunks-written qs (c ∷ cs) t a.above),
      Stored-written s t h ps qs (c ∷ cs) a,
    )

-- The payload is written to a chain from page `p`.
abbrev pub Writes : List ℕ → PagerState → FirstHeader → List ℕ → Type 0
Writes payload s h ps =
    (p : ℕ) × (t : PagerState) × (write_overflow_chain payload s ≡ done p t)
    × Stored s t h ps (length (chunks_from (length payload) payload 0)) p payload

-- On a pager with a well-formed free list and a right count of pages, a payload short enough that
-- the `uint32_t` offset cannot wrap round is written with success, and read back byte for byte by
-- any walk of the chain with more fuel than there are chunks. The free list loses its first pages,
-- one for each chunk while it lasts, and no other page that was there is changed.
pub write_overflow_chain-Stored :
    (payload : List ℕ) (s : PagerState) (h : FirstHeader) (ps : List ℕ)
    → length payload + chunk_size ≤ 2 ^ 32
    → FreeList s h ps
    → s.total_num_pages ≡ s.file_pages
    → 0 < s.file_pages
    → Writes payload s h ps
unfolding write_overflow_chain
write_overflow_chain-Stored payload s h ps b f e l =
    let cs = chunks_from (length payload) payload 0 in
    let (p, t, run, st) = write_overflow_pages-Stored cs s h ps f e l in
    (
      p,
      t,
      run,
      subst (Stored s t h ps (length cs) p)
          (concat-chunks_from (length payload) payload 0 b (omega arith) (omega arith)) st,
    )
