-- ===== src/Text/Order.antt =====
-- `operator<` is a strict total order.
use google_cloud_final.Base.{◌≡◌, refl, true, false, [], ◌∷◌, arith}
use google_cloud_final.Text.{Bytes, equal, less}

pub less_irrefl : (a : Bytes) → less a a ≡ false
unfolding less
less_irrefl [] = refl
less_irrefl (x ∷ xs) = ground (arith, less_irrefl xs)

pub less_trans : (a b c : Bytes) → less a b ≡ true → less b c ≡ true → less a c ≡ true
unfolding less
less_trans [] [] c h k = cc
less_trans [] (y ∷ ys) [] h k = cc
less_trans [] (y ∷ ys) (z ∷ zs) h k = refl
less_trans (x ∷ xs) [] c h k = cc
less_trans (x ∷ xs) (y ∷ ys) [] h k = cc
less_trans (x ∷ xs) (y ∷ ys) (z ∷ zs) h k = ground (arith, less_trans xs ys zs)

pub less_total : (a b : Bytes) → equal a b ≡ false → less b a ≡ false → less a b ≡ true
unfolding less equal
less_total [] [] h k = cc
less_total [] (y ∷ ys) h k = refl
less_total (x ∷ xs) [] h k = cc
less_total (x ∷ xs) (y ∷ ys) h k = ground (arith, less_total xs ys)
