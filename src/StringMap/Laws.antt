-- ===== src/StringMap/Laws.antt =====
-- Lookup after an assignment, and the order of the keys.
use ats_fastcgi.Common.{
  Bool-cases, ◌≡◌, inl, inr, refl, true, false, [], ◌∷◌, Option, none, some, Bytes, if◌then◌else◌,
  equal, equal_iff, arith,
}
use ats_fastcgi.StringMap.{StringMap, less, find, assign, insert}

pub find-assign :
    (k j v : Bytes) (m : StringMap)
    → find j (assign k v m) ≡ (if equal k j then some v else find j m)
unfolding find assign
find-assign k j v [] = refl
find-assign k j v ((i, w) ∷ m) =
    ground (arith, equal_iff k j, equal_iff i k, equal_iff i j, find-assign k j v m)

pub find-insert :
    (k j v : Bytes) (m : StringMap)
    → find j (insert k v m)
      ≡ elim (find j m) [ some w ↦ some w | none ↦ if equal k j then some v else none ]
unfolding insert
find-insert k j v m = ground (arith, find-assign k j v m, equal_iff k j)

-- The keys rise strictly from one that is above `k`, if there is one.
abbrev pub Above : Option Bytes → Bytes → Type 0
Above none k = Unit {0}
Above (some b) k = less b k ≡ true

abbrev pub IsSortedFrom : Option Bytes → StringMap → Type 0
IsSortedFrom bound [] = Unit {0}
IsSortedFrom bound ((k, v) ∷ m) = Above bound k × IsSortedFrom (some k) m

less-total : (a b : Bytes) → equal a b ≡ false → less b a ≡ false → less a b ≡ true
unfolding less equal
less-total [] [] e h = cc
less-total [] (y ∷ b) e h = refl
less-total (x ∷ a) [] e h = cc
less-total (x ∷ a) (y ∷ b) e h = ground (arith, less-total a b)

-- An assignment keeps the keys in order.
pub assign-IsSortedFrom :
    (bound : Option Bytes) (k v : Bytes) (m : StringMap)
    → Above bound k
    → IsSortedFrom bound m
    → IsSortedFrom bound (assign k v m)
unfolding assign
assign-IsSortedFrom bound k v [] a s = (a, tt)
assign-IsSortedFrom bound k v ((j, w) ∷ m) a s = elim (Bool-cases (equal j k)) [
  | inl same ↦ rw same (a, rw ((equal_iff j k).0 same) at s.1)
  | inr other ↦ elim (Bool-cases (less k j)) [
    | inl before ↦ rw (other, before) (a, (before, s.1))
    | inr behind ↦
        rw (other, behind)
          (s.0, assign-IsSortedFrom (some j) k v m (less-total j k other behind) s.1)
  ]
]

-- The keys of a map stand in order, each once.
abbrev pub IsSorted : StringMap → Type 0
IsSorted = IsSortedFrom none

pub assign-IsSorted : (k v : Bytes) (m : StringMap) → IsSorted m → IsSorted (assign k v m)
assign-IsSorted k v m s = assign-IsSortedFrom none k v m tt s
