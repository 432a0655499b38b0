-- ===== src/Binder/Names.antt =====
-- `==` of two strings.
use cpplite.Common.{◌≡◌, refl, arith, true, [], ◌∷◌}
use cpplite.Encoding.{Bytes}
use cpplite.Binder.{is_same}

pub is_same_refl : (name : Bytes) → is_same name name ≡ true
unfolding is_same
is_same_refl [] = refl
is_same_refl (x ∷ xs) = ground (arith, is_same_refl xs)

pub is_same_eq : (a b : Bytes) → is_same a b ≡ true → a ≡ b
unfolding is_same
is_same_eq [] [] e = refl
is_same_eq [] (y ∷ ys) e = absurd (ground (arith, e))
is_same_eq (x ∷ xs) [] e = absurd (ground (arith, e))
is_same_eq (x ∷ xs) (y ∷ ys) e =
    let head : x ≡ y = ground (arith, e) in
    let tail : xs ≡ ys = is_same_eq xs ys (ground (arith, e)) in cc (head, tail)
