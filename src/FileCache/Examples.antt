-- ===== src/FileCache/Examples.antt =====
-- A cache of one file, which is its number here, that holds no more.
use cpplite.Common.{ℕ, refl, arith, []}
use cpplite.Common.Sorted.{has}
use cpplite.FileCache.{FileCache, find, erase, exists, add}
use cpplite.FileCache.Order.{IsValid, Gets, get-Gets}
use cpplite.FileCache.Put.{PutsNew, put-PutsNew, PutsPresent, put_present, add-IsValid}

abbrev no_files : FileCache ℕ
no_files = record {
  filecache = [];
  chain = [];
  node_at = λ a. record { key = (0, 0); file = 0 };
  next_address = 0;
  size = 0;
  max_size = 1;
  closed = [];
}

no_files-IsValid : IsValid no_files
unfolding find has
no_files-IsValid = record {
  linked = λ k a e. absurd (ground (arith, e));
  mapped = λ a e. absurd (ground (arith, e));
  fresh = λ a e. absurd (ground (arith, e));
  once = tt;
  count = refl;
  bound = omega arith;
}

abbrev one_file : FileCache ℕ
one_file = add (1, 0) 10 no_files

one_file-IsValid : IsValid one_file
unfolding find
one_file-IsValid = add-IsValid (1, 0) 10 no_files no_files-IsValid refl (omega arith)

get-Gets_example : Gets (1, 0) one_file 0
unfolding find erase
get-Gets_example = get-Gets (1, 0) one_file 0 one_file-IsValid refl

put-PutsNew_example : PutsNew (2, 0) 20 one_file
unfolding find erase
put-PutsNew_example = put-PutsNew (2, 0) 20 one_file one_file-IsValid refl (omega arith)

put_present_example : PutsPresent (1, 0) 20 one_file
unfolding find erase exists
put_present_example = put_present (1, 0) 20 one_file refl
