-- ===== src/Pager/FreeList/Chain.antt =====
-- The pages that hang on a free list, first to last.
use cpplite.Common.{ℕ, ◌≤◌, ◌<◌, ◌≡◌, ◌≢◌, arith, List, [], ◌∷◌, head_or, zero, suc, drop}
use cpplite.Pager.Page.{Page, first, free, FirstHeader}
use cpplite.Pager.Disk.{PagerState, update}

-- Each page is no first page, and names the next.
abbrev pub Chain : (ℕ → Page) → List ℕ → Type 0
Chain file [] = Unit {0}
Chain file (p ∷ ps) = (1 < p) × (file p ≡ free (head_or ps 0)) × Chain file ps

abbrev pub Avoids : ℕ → List ℕ → Type 0
Avoids q [] = Unit {0}
Avoids q (p ∷ ps) = (p ≢ q) × Avoids q ps

abbrev pub Distinct : List ℕ → Type 0
Distinct [] = Unit {0}
Distinct (p ∷ ps) = Avoids p ps × Distinct ps

abbrev pub AtMost : ℕ → List ℕ → Type 0
AtMost n [] = Unit {0}
AtMost n (p ∷ ps) = (p ≤ n) × AtMost n ps

-- The free list of a pager, as a stack of distinct pages.
pub record FreeList (s : PagerState) (h : FirstHeader) (ps : List ℕ) : Type 0 where
  pub header : s.file 1 ≡ first h
  pub head : h.free_page_head ≡ head_or ps 0
  pub chain : Chain s.file ps
  pub distinct : Distinct ps
  pub in_file : AtMost s.file_pages ps

pub Chain-update :
    (file : ℕ → Page) (q : ℕ) (page : Page) (ps : List ℕ)
    → Avoids q ps
    → Chain file ps
    → Chain (update file q page) ps
Chain-update file q page [] a c = tt
Chain-update file q page (p ∷ ps) a c =
    (c.0, ground (arith, a.0, c.1), Chain-update file q page ps a.1 c.2)

-- A write to the first page leaves the chain alone.
pub Chain-first :
    (file : ℕ → Page) (page : Page) (ps : List ℕ) → Chain file ps → Chain (update file 1 page) ps
Chain-first file page [] c = tt
Chain-first file page (p ∷ ps) c = (c.0, ground arith, Chain-first file page ps c.2)

pub AtMost-weaken : (m n : ℕ) (ps : List ℕ) → m ≤ n → AtMost m ps → AtMost n ps
AtMost-weaken m n [] h a = tt
AtMost-weaken m n (p ∷ ps) h a = (omega arith, AtMost-weaken m n ps h a.1)

pub Avoids-above : (n q : ℕ) (ps : List ℕ) → AtMost n ps → n < q → Avoids q ps
Avoids-above n q [] a h = tt
Avoids-above n q (p ∷ ps) a h = (omega arith, Avoids-above n q ps a.1 h)

-- A write to a page that is neither the first nor free leaves the list alone.
pub FreeList-update :
    (s : PagerState) (h : FirstHeader) (ps : List ℕ) (q : ℕ) (page : Page)
    → 1 < q
    → Avoids q ps
    → FreeList s h ps
    → FreeList (record s { file = update s.file q page }) h ps
FreeList-update s h ps q page l a f = record {
  header = ground (arith, f.header);
  head = f.head;
  chain = Chain-update s.file q page ps a f.chain;
  distinct = f.distinct;
  in_file = f.in_file;
}

pub Avoids-drop : (q n : ℕ) (ps : List ℕ) → Avoids q ps → Avoids q (drop n ps)
Avoids-drop q zero ps a = a
Avoids-drop q (suc n) [] a = tt
Avoids-drop q (suc n) (p ∷ ps) a = Avoids-drop q n ps a.1
