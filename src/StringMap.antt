-- ===== src/StringMap.antt =====
-- `std::map<std::string, std::string>`, as the plugin uses it for request headers and parameters:
-- the pairs in the order of the iterator. A key compares by its bytes.
pub mod Laws
use ats_fastcgi.Common.{
  ℕ, Bool, true, false, List, [], ◌∷◌, Option, none, some, Bytes, ltb, if◌then◌else◌, equal,
}

abbrev pub StringMap : Type 0
StringMap = List (Bytes × Bytes)

-- `operator<` on strings
unfoldable pub less : Bytes → Bytes → Bool
less [] [] = false
less [] (y ∷ ys) = true
less (x ∷ xs) [] = false
less (x ∷ xs) (y ∷ ys) = if ltb x y then true else if ltb y x then false else less xs ys

unfoldable pub find : Bytes → StringMap → Option Bytes
find k [] = none
find k ((j, v) ∷ m) = if equal j k then some v else find k m

-- `m[k] = v`
unfoldable pub assign : Bytes → Bytes → StringMap → StringMap
assign k v [] = (k, v) ∷ []
assign k v ((j, w) ∷ m) =
    if equal j k
    then (k, v) ∷ m
    else if less k j
    then (k, v) ∷ (j, w) ∷ m
    else (j, w) ∷ assign k v m

-- `m.insert(std::pair(k, v))`, which keeps an old value
unfoldable pub insert : Bytes → Bytes → StringMap → StringMap
unfolding find assign
insert k v m = elim (find k m) [ some w ↦ m | none ↦ assign k v m ]

-- `m[k]`, read: a key that is not there gets an empty value
unfoldable pub index : Bytes → StringMap → Bytes × StringMap
unfolding find assign
index k m = elim (find k m) [ some v ↦ (v, m) | none ↦ ([], assign k [] m) ]
