-- ===== src/Common/Examples.antt =====
-- A search in three sorted keys.
use cpplite.Common.{ℕ, ◌≡◌, List, [], ◌∷◌, arith}
use cpplite.Common.Sorted.{search_keys, scan_keys, search_keys_lem}

abbrev three_keys : List ℕ
three_keys = 2 ∷ 5 ∷ 9 ∷ []

search_keys_lem_example : search_keys 5 three_keys ≡ scan_keys 5 three_keys
search_keys_lem_example = search_keys_lem 5 three_keys (omega arith)
