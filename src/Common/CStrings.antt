-- ===== src/Common/CStrings.antt =====
-- What the plugin uses of <cstring>, <cctype> and <cstdlib>, on C strings without their NUL, in the
-- "C" locale.
use Prim.Native.Nat.{ℕ, zero, suc, ◌+◌, ◌-◌, ◌*◌}
use mathlib.Core.Bool.{Bool, true, false, ◌&&◌, ◌||◌}
use mathlib.Core.List.{[], ◌∷◌}
use mathlib.Core.Option.{Option, none, some}
use ats_fastcgi.Common.Tests.{leb, ◌==◌, if◌then◌else◌}
use ats_fastcgi.Common.Lists.{Bytes}
use ats_fastcgi.Common.Ints.{ℤ, clamped}

-- The characters of a C string: the bytes before the first NUL.
unfoldable pub c_string : Bytes → Bytes
c_string [] = []
c_string (b ∷ bs) = if b == 0 then [] else b ∷ c_string bs

-- `isspace`
abbrev pub is_space : ℕ → Bool
is_space c = c == 32 || leb 9 c && leb c 13

-- `while (isspace(*s)) ++s;`
unfoldable pub skip_space : Bytes → Bytes
skip_space [] = []
skip_space (c ∷ cs) = if is_space c then skip_space cs else c ∷ cs

-- The characters of the delimiters `" \t"`
abbrev pub is_blank : ℕ → Bool
is_blank c = c == 32 || c == 9

unfoldable pub skip_blank : Bytes → Bytes
skip_blank [] = []
skip_blank (c ∷ cs) = if is_blank c then skip_blank cs else c ∷ cs

-- The characters up to the first blank, and those after it.
unfoldable pub cut_blank : Bytes → Bytes × Bytes
cut_blank [] = ([], [])
cut_blank (c ∷ cs) =
    let (tok, rest) = cut_blank cs in if is_blank c then ([], cs) else (c ∷ tok, rest)

token : Bytes → Option Bytes × Bytes
unfolding cut_blank
token [] = (none, [])
token (c ∷ cs) = let (tok, rest) = cut_blank (c ∷ cs) in (some tok, rest)

-- `strtok_r(s, " \t", &ln)`: the token, if there is one, and what `ln` points to; with a null `s` the
-- text is what `ln` pointed to.
unfoldable pub strtok_r : Bytes → Option Bytes × Bytes
unfolding skip_blank token
strtok_r s = token (skip_blank s)

-- `!strncmp(a, b, n)`
unfoldable pub strncmp_eq : ℕ → Bytes → Bytes → Bool
strncmp_eq zero a b = true
strncmp_eq (suc n) [] [] = true
strncmp_eq (suc n) (x ∷ a) (y ∷ b) = x == y && strncmp_eq n a b
strncmp_eq (suc n) _ _ = false

-- The characters without the white space at their end.
unfoldable pub trim_end : Bytes → Bytes
trim_end [] = []
trim_end (c ∷ cs) =
    let rest = trim_end cs in
    elim rest [ [] ↦ if is_space c then [] else c ∷ [] | d ∷ ds ↦ c ∷ d ∷ ds ]

-- The value of the decimal digits that the text starts with, after those of value `n`.
unfoldable pub digits : ℕ → Bytes → ℕ
digits n [] = n
digits n (c ∷ cs) = elim (leb 48 c && leb c 57) [ true ↦ digits (n * 10 + (c - 48)) cs | false ↦ n ]

-- A sign, and the digits after it.
signed : ℕ → Bytes → ℤ
unfolding digits clamped
signed bits [] = clamped bits false 0
signed bits (c ∷ cs) =
    if c == 45
    then clamped bits true (digits 0 cs)
    else if c == 43
    then clamped bits false (digits 0 cs)
    else clamped bits false (digits 0 (c ∷ cs))

-- `strtoll(s, nullptr, 10)`
unfoldable pub strtoll : Bytes → ℤ
unfolding skip_space signed
strtoll s = signed 63 (skip_space s)

-- `stringstream(s) >> n`, for an `int` that is 0 before
unfoldable pub read_int : Bytes → ℤ
unfolding skip_space signed
read_int s = signed 31 (skip_space s)
