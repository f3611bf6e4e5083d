-- ===== src/Frontend/Names/Tests.antt =====
-- The first name, and the last one.
use supallm.Common.{ℕ, zero, suc, some, ◌≡◌, refl, ◌<◌, arith}
use supallm.Common.Chars.{codes}
use supallm.Frontend.Names.{Draw, random_name}

abbrev pred : ℕ → ℕ
pred zero = zero
pred (suc n) = n

pred-lt : (n : ℕ) → 0 < n → pred n < n
pred-lt zero h = h
pred-lt (suc n) h = omega arith

abbrev lowest : Draw
lowest = record { floor_of_random = λ n. 0; floor_of_random-lt = λ n h. h }

abbrev highest : Draw
highest = record { floor_of_random = pred; floor_of_random-lt = pred-lt }

first_name : random_name lowest lowest ≡ some (codes "Admiring Agnesi")
unfolding random_name codes
first_name = refl

last_name : random_name highest highest ≡ some (codes "Zen Zhukovsky")
unfolding random_name codes
last_name = refl
