-- ===== src/Common/Words.antt =====
-- Words and white space in C strings: what the string functions make of texts that are put together.
use Prim.Native.Nat.{ℕ}
use mathlib.Core.Path.{◌≡◌, refl}
use mathlib.Core.Logic.{◌≢◌}
use mathlib.Core.Bool.{Bool, true, false, ◌&&◌, not}
use mathlib.Core.List.{[], ◌∷◌, ◌++◌}
use mathlib.Core.Option.{some, none}
use native.Mathlib.Omega.{arith}
use ats_fastcgi.Common.Tests.{◌==◌}
use ats_fastcgi.Common.Lists.{Bytes, length}
use ats_fastcgi.Common.CStrings.{
  c_string, is_space, is_blank, skip_space, skip_blank, cut_blank, strtok_r, strncmp_eq, trim_end,
}

-- Every character passes a test.
abbrev pub all : (ℕ → Bool) → Bytes → Bool
all p [] = true
all p (c ∷ cs) = p c && all p cs

abbrev pub is_set : ℕ → Bool
is_set c = not (c == 0)

-- A character of a word between blanks.
abbrev pub is_word_char : ℕ → Bool
is_word_char c = is_set c && not (is_blank c)

pub all-append :
    (p : ℕ → Bool) (a b : Bytes) → all p a ≡ true → all p b ≡ true → all p (a ++ b) ≡ true
all-append p [] b h k = k
all-append p (c ∷ a) b h k = ground (arith, all-append p a b)

pub all_mono :
    (p q : ℕ → Bool)
    → ((c : ℕ) → p c ≡ true → q c ≡ true)
    → (a : Bytes) → all p a ≡ true
    → all q a ≡ true
all_mono p q f [] h = refl
all_mono p q f (c ∷ a) h = ground (arith, f c, all_mono p q f a)

pub c_string-all : (a : Bytes) → all is_set a ≡ true → c_string a ≡ a
unfolding c_string
c_string-all [] h = refl
c_string-all (c ∷ a) h = ground (arith, c_string-all a)

pub skip_space-append : (a b : Bytes) → all is_space a ≡ true → skip_space (a ++ b) ≡ skip_space b
unfolding skip_space
skip_space-append [] b h = refl
skip_space-append (c ∷ a) b h = ground (arith, skip_space-append a b)

skip_blank-append : (a b : Bytes) → all is_blank a ≡ true → skip_blank (a ++ b) ≡ skip_blank b
unfolding skip_blank
skip_blank-append [] b h = refl
skip_blank-append (c ∷ a) b h = ground (arith, skip_blank-append a b)

cut_blank-append :
    (a : Bytes) (b : ℕ) (rest : Bytes)
    → all is_word_char a ≡ true
    → is_blank b ≡ true
    → cut_blank (a ++ (b ∷ rest)) ≡ (a, rest)
unfolding cut_blank
cut_blank-append [] b rest h k = ground arith
cut_blank-append (c ∷ a) b rest h k = ground (arith, cut_blank-append a b rest)

skip_blank-word : (c : ℕ) (a : Bytes) → is_blank c ≡ false → skip_blank (c ∷ a) ≡ c ∷ a
unfolding skip_blank
skip_blank-word c a h = rw h refl

-- The next word, behind blanks and before a blank.
pub strtok_r-word :
    (blanks word : Bytes) (b : ℕ) (rest : Bytes)
    → all is_blank blanks ≡ true
    → all is_word_char word ≡ true
    → word ≢ []
    → is_blank b ≡ true
    → strtok_r (blanks ++ (word ++ (b ∷ rest))) ≡ (some word, rest)
unfolding strtok_r
strtok_r-word blanks [] b rest h k n e = absurd (n refl)
strtok_r-word blanks (c ∷ word) b rest h k n e = rw (
  skip_blank-append blanks ((c ∷ word) ++ (b ∷ rest)) h,
  skip_blank-word c (word ++ (b ∷ rest)) (ground arith),
  cut_blank-append (c ∷ word) b rest k e,
)

cut_blank-word : (a : Bytes) → all is_word_char a ≡ true → cut_blank a ≡ (a, [])
unfolding cut_blank
cut_blank-word [] h = refl
cut_blank-word (c ∷ a) h = ground (arith, cut_blank-word a)

-- The last word.
pub strtok_r-last :
    (blanks word : Bytes)
    → all is_blank blanks ≡ true
    → all is_word_char word ≡ true
    → word ≢ []
    → strtok_r (blanks ++ word) ≡ (some word, [])
unfolding strtok_r
strtok_r-last blanks [] h k n = absurd (n refl)
strtok_r-last blanks (c ∷ word) h k n = rw (
  skip_blank-append blanks (c ∷ word) h,
  skip_blank-word c word (ground arith),
  cut_blank-word (c ∷ word) k,
)

-- No word among blanks.
pub strtok_r-blank : (blanks : Bytes) → all is_blank blanks ≡ true → strtok_r blanks ≡ (none, [])
unfolding strtok_r skip_blank
strtok_r-blank [] h = refl
strtok_r-blank (c ∷ blanks) h = ground (arith, strtok_r-blank blanks)

pub strncmp_eq-append : (a b : Bytes) → strncmp_eq (length a) (a ++ b) a ≡ true
unfolding strncmp_eq
strncmp_eq-append [] b = refl
strncmp_eq-append (c ∷ a) b = ground (arith, strncmp_eq-append a b)

trim_end-space : (a : Bytes) → all is_space a ≡ true → trim_end a ≡ []
unfolding trim_end
trim_end-space [] h = refl
trim_end-space (c ∷ a) h = ground (arith, trim_end-space a)

pub trim_end-append : (a b : Bytes) → all is_space b ≡ true → trim_end (a ++ b) ≡ trim_end a
unfolding trim_end
trim_end-append [] b h = trim_end-space b h
trim_end-append (c ∷ a) b h = rw (trim_end-append a b h) refl
