-- ===== src/Pager/Overflow/Write.antt =====
-- What `write_chunks` leaves on the pages, and that `read_chain` reads it back.
use cpplite.Common.{
  ℕ, zero, suc, ◌<◌, ◌≡◌, ◌≢◌, refl, ◌∙◌, arith, List, [], ◌∷◌, length, head_or, take_or-append,
}
use mathlib.Core.List.{append-nil}
use cpplite.Common.Outcome.{done}
use cpplite.Pager.Page.{Page, overflow}
use cpplite.Pager.Disk.{PagerState, update}
use cpplite.Pager.FreeList.Chain.{Avoids, Distinct}
use cpplite.Pager.Overflow.Chunks.{concat}
use cpplite.Pager.Overflow.{write_chunks, read_chain}

-- Every page number is above that of the first page.
abbrev pub AboveFirst : List ℕ → Type 0
AboveFirst [] = Unit {0}
AboveFirst (p ∷ ps) = (1 < p) × AboveFirst ps

-- The pages hold the chunks, and each names the next.
abbrev pub Holds : (ℕ → Page) → List ℕ → List (List ℕ) → Type 0
Holds file [] [] = Unit {0}
Holds file [] (c ∷ cs) = ⊥
Holds file (p ∷ ps) [] = ⊥
Holds file (p ∷ ps) (c ∷ cs) = (file p ≡ overflow (head_or ps 0) (length c) c) × Holds file ps cs

unfoldable pub written : List ℕ → List (List ℕ) → (ℕ → Page) → ℕ → Page
written [] cs file = file
written (p ∷ ps) [] file = file
written (p ∷ ps) (c ∷ cs) file =
    written ps cs (update file p (overflow (head_or ps 0) (length c) c))

pub write_chunks-written :
    (ps : List ℕ) (cs : List (List ℕ)) (s : PagerState)
    → AboveFirst ps
    → write_chunks ps cs s ≡ done tt (record s { file = written ps cs s.file })
unfolding write_chunks written
write_chunks-written [] cs s a = refl
write_chunks-written (p ∷ ps) [] s a = refl
write_chunks-written (p ∷ ps) (c ∷ cs) s a =
    let t : PagerState = record s {
      file = update s.file p (overflow (head_or ps 0) (length c) c);
    } in
    ground (arith, write_chunks-written ps cs t a.1)

pub written_frame :
    (ps : List ℕ) (cs : List (List ℕ)) (file : ℕ → Page) (q : ℕ)
    → Avoids q ps
    → written ps cs file q ≡ file q
unfolding written
written_frame [] cs file q a = refl
written_frame (p ∷ ps) [] file q a = refl
written_frame (p ∷ ps) (c ∷ cs) file q a =
    let page = overflow (head_or ps 0) (length c) c in
    ground (arith, a.0, written_frame ps cs (update file p page) q a.1)

pub Holds-written :
    (ps : List ℕ) (cs : List (List ℕ)) (file : ℕ → Page)
    → Distinct ps
    → length ps ≡ length cs
    → Holds (written ps cs file) ps cs
unfolding written
Holds-written [] [] file d l = tt
Holds-written [] (c ∷ cs) file d l = absurd (omega arith)
Holds-written (p ∷ ps) [] file d l = absurd (omega arith)
Holds-written (p ∷ ps) (c ∷ cs) file d l =
    let page = overflow (head_or ps 0) (length c) c in
    (
      ground (arith, written_frame ps cs (update file p page) p d.0),
      Holds-written ps cs (update file p page) d.1 (omega arith),
    )

pub read_chain-Holds :
    (fuel : ℕ) (ps : List ℕ) (cs : List (List ℕ)) (s : PagerState)
    → AboveFirst ps
    → Holds s.file ps cs
    → length ps < fuel
    → read_chain fuel (head_or ps 0) s ≡ done (concat cs) s
unfolding read_chain
read_chain-Holds zero ps cs s a h l = absurd (omega arith)
read_chain-Holds (suc fuel) [] [] s a h l = refl
read_chain-Holds (suc fuel) [] (c ∷ cs) s a h l = absurd h
read_chain-Holds (suc fuel) (p ∷ ps) [] s a h l = absurd h
read_chain-Holds (suc fuel) (p ∷ ps) (c ∷ cs) s a h l =
    ground (arith, h.0, take_or-append 0 c [], append-nil c, read_chain-Holds fuel ps cs s a.1 h.1)

-- A write to a page that is not in the chain leaves the chain alone.
pub Holds-agree :
    (q : ℕ) (file file' : ℕ → Page) (ps : List ℕ) (cs : List (List ℕ))
    → Avoids q ps
    → ((r : ℕ) → r ≢ q → file' r ≡ file r)
    → Holds file ps cs
    → Holds file' ps cs
Holds-agree q file file' [] [] a e h = tt
Holds-agree q file file' [] (c ∷ cs) a e h = h
Holds-agree q file file' (p ∷ ps) [] a e h = h
Holds-agree q file file' (p ∷ ps) (c ∷ cs) a e h =
    (e p a.0 ∙ h.0, Holds-agree q file file' ps cs a.1 e h.1)
