-- ===== src/Server/Lists.antt =====
-- The lists of the pool and the map of the server, by what they hold.
use ats_fastcgi.Common.{
  ℕ, ◌+◌, ◌≤◌, ◌≡◌, List, [], ◌∷◌, ◌++◌, none, some, length, ◌==◌, if◌then◌else◌, arith,
}
use ats_fastcgi.Pool.{remove}
use ats_fastcgi.Server.{find, erase, assign}

-- How often a connection stands in a list.
unfoldable pub count : ℕ → List ℕ → ℕ
count c [] = 0
count c (x ∷ xs) = (if x == c then 1 else 0) + count c xs

pub count-append :
    (c d : ℕ) (xs : List ℕ) → count c (xs ++ (d ∷ [])) ≡ count c xs + (if d == c then 1 else 0)
unfolding count
count-append c d [] = ground arith
count-append c d (x ∷ xs) = ground (arith, count-append c d xs)

pub count-remove :
    (c d : ℕ) (xs : List ℕ) → count c (remove d xs) ≡ (if d == c then 0 else count c xs)
unfolding count remove
count-remove c d [] = ground arith
count-remove c d (x ∷ xs) = ground (arith, count-remove c d xs)

pub length-remove : (d : ℕ) (xs : List ℕ) → length (remove d xs) ≤ length xs
unfolding remove
length-remove d [] = omega arith
length-remove d (x ∷ xs) = ground (arith, length-remove d xs)

pub find-erase :
    (j k : ℕ) (l : List (ℕ × ℕ × ℕ)) → find j (erase k l) ≡ (if k == j then none else find j l)
unfolding find erase
find-erase j k [] = ground arith
find-erase j k ((m, i, c) ∷ l) = ground (arith, find-erase j k l)

pub find-assign :
    (j k i c : ℕ) (l : List (ℕ × ℕ × ℕ))
    → find j (assign k i c l) ≡ (if k == j then some (i, c) else find j l)
unfolding find assign
find-assign j k i c l = ground (arith, find-erase j k l)
