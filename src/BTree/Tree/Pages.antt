-- ===== src/BTree/Tree/Pages.antt =====
-- The pages of a tree: what holds of each, and a tree whose pages another file has too.
use cpplite.Common.{ℕ, ◌≡◌, ◌≢◌, ◌∙◌, inl, inr, Bool-cases, ltb}
use cpplite.Pager.Disk.{PagerState}
use cpplite.BTree.Tree.{
  Tree, tip, branch, Kids, last, before, InFile, KidsInFile, leaf_for, kids_leaf_for,
}

unfoldable mutual
  pub Pages : (ℕ → Type 0) → Tree → Type 0
  Pages P (tip m) = P m.pgno
  Pages P (branch m ks) = P m.pgno × KidsPages P ks

  pub KidsPages : (ℕ → Type 0) → Kids → Type 0
  KidsPages P (last t) = Pages P t
  KidsPages P (before t k ks) = Pages P t × KidsPages P ks

-- No page stands twice.
unfoldable mutual
  pub Distinct : Tree → Type 0
  Distinct (tip m) = Unit {0}
  Distinct (branch m ks) = KidsPages (λ q. q ≢ m.pgno) ks × KidsDistinct ks

  pub KidsDistinct : Kids → Type 0
  KidsDistinct (last t) = Distinct t
  KidsDistinct (before t k ks) =
      Distinct t × KidsDistinct ks × Pages (λ q. KidsPages (λ r. r ≢ q) ks) t

mutual
  unfolding Pages

  pub Pages-map : (P Q : ℕ → Type 0) (t : Tree) → ((q : ℕ) → P q → Q q) → Pages P t → Pages Q t
  Pages-map P Q (tip m) f a = f m.pgno a
  Pages-map P Q (branch m ks) f a = (f m.pgno a.0, KidsPages-map P Q ks f a.1)

  pub KidsPages-map :
      (P Q : ℕ → Type 0) (ks : Kids) → ((q : ℕ) → P q → Q q) → KidsPages P ks → KidsPages Q ks
  KidsPages-map P Q (last t) f a = Pages-map P Q t f a
  KidsPages-map P Q (before t k ks) f a = (Pages-map P Q t f a.0, KidsPages-map P Q ks f a.1)

mutual
  unfolding Pages

  pub Pages-both : (P Q : ℕ → Type 0) (t : Tree) → Pages P t → Pages Q t → Pages (λ q. P q × Q q) t
  Pages-both P Q (tip m) a b = (a, b)
  Pages-both P Q (branch m ks) a b = ((a.0, b.0), KidsPages-both P Q ks a.1 b.1)

  pub KidsPages-both :
      (P Q : ℕ → Type 0) (ks : Kids)
      → KidsPages P ks
      → KidsPages Q ks
      → KidsPages (λ q. P q × Q q) ks
  KidsPages-both P Q (last t) a b = Pages-both P Q t a b
  KidsPages-both P Q (before t k ks) a b = (Pages-both P Q t a.0 b.0, KidsPages-both P Q ks a.1 b.1)

mutual
  unfolding Pages leaf_for

  -- What holds of each page holds of the leaf that a descent comes to.
  pub leaf_for-Pages : (P : ℕ → Type 0) (key : ℕ) (t : Tree) → Pages P t → P (leaf_for key t).pgno
  leaf_for-Pages P key (tip m) a = a
  leaf_for-Pages P key (branch m ks) a = kids_leaf_for-Pages P key ks a.1

  pub kids_leaf_for-Pages :
      (P : ℕ → Type 0) (key : ℕ) (ks : Kids) → KidsPages P ks → P (kids_leaf_for key ks).pgno
  kids_leaf_for-Pages P key (last t) a = leaf_for-Pages P key t a
  kids_leaf_for-Pages P key (before t k ks) a = elim (Bool-cases (ltb key k)) [
    | inl e ↦ rw e (leaf_for-Pages P key t a.0)
    | inr e ↦ rw e (kids_leaf_for-Pages P key ks a.1)
  ]

mutual
  unfolding Pages InFile

  -- A tree stands in each file that has its pages.
  pub InFile-Pages :
      (s u : PagerState) (t : Tree) → Pages (λ q. u.file q ≡ s.file q) t → InFile s t → InFile u t
  InFile-Pages s u (tip m) same f =
      (f.0, record { old_cells = f.1.old_cells; page = same ∙ f.1.page; numbered = f.1.numbered })
  InFile-Pages s u (branch m ks) same f = (
    (
      f.0.0,
      record { old_cells = f.0.1.old_cells; page = same.0 ∙ f.0.1.page; numbered = f.0.1.numbered },
      f.0.2,
      f.0.3,
      f.0.4,
    ),
    KidsInFile-Pages s u ks same.1 f.1,
  )

  pub KidsInFile-Pages :
      (s u : PagerState) (ks : Kids)
      → KidsPages (λ q. u.file q ≡ s.file q) ks
      → KidsInFile s ks
      → KidsInFile u ks
  KidsInFile-Pages s u (last t) same f = InFile-Pages s u t same f
  KidsInFile-Pages s u (before t k ks) same f =
      (InFile-Pages s u t same.0 f.0, KidsInFile-Pages s u ks same.1 f.1)

mutual
  unfolding Pages

  pub Pages-all : (P : ℕ → Type 0) (t : Tree) → ((q : ℕ) → P q) → Pages P t
  Pages-all P (tip m) f = f m.pgno
  Pages-all P (branch m ks) f = (f m.pgno, KidsPages-all P ks f)

  KidsPages-all : (P : ℕ → Type 0) (ks : Kids) → ((q : ℕ) → P q) → KidsPages P ks
  KidsPages-all P (last t) f = Pages-all P t f
  KidsPages-all P (before t k ks) f = (Pages-all P t f, KidsPages-all P ks f)
