-- ===== src/Config/Layout.antt =====
-- How a setting is written as a line of a configuration file.
use ats_fastcgi.Common.{
  ℕ, ◌≡◌, ◌≢◌, refl, ap, Bool, true, false, not, some, [], ◌∷◌, ◌++◌, Bytes, codes, all, all-append,
  all_mono, is_set, is_word_char, is_space, is_blank, skip_space-append, trim_end-append,
  skip_space, trim_end, arith,
}
use ats_fastcgi.Config.Keys.{DataType, type_int, type_string, str_to_datatype}
use ats_fastcgi.Config.Line.{value_of}

-- The white space of a line: before the first word, between the words, and after the value.
pub record Layout : Type 0 where
  pub lead : Bytes
  pub after_keyword : Bytes
  pub after_name : Bytes
  pub after_type : Bytes
  pub trail : Bytes

abbrev pub IsGap : Bytes → Type 0
IsGap [] = ⊥
IsGap (b ∷ bs) = (is_blank b ≡ true) × (all is_blank bs ≡ true)

-- Blanks between the words; any white space, such as the end of the line, around them.
pub record IsLayout (l : Layout) : Type 0 where
  pub lead_space : all is_space l.lead ≡ true
  pub keyword_gap : IsGap l.after_keyword
  pub name_gap : IsGap l.after_name
  pub type_gap : IsGap l.after_type
  pub trail_space : all is_space l.trail ≡ true

abbrev pub IsWord : Bytes → Type 0
IsWord w = (all is_word_char w ≡ true) × (w ≢ [])

abbrev pub starts_value : Bytes → Bool
starts_value [] = false
starts_value (c ∷ cs) = not (is_space c)

-- A value: some characters, none of them NUL, the first and the last no white space.
pub record IsValue (v : Bytes) : Type 0 where
  pub begins : starts_value v ≡ true
  pub ends : trim_end v ≡ v
  pub no_nul : all is_set v ≡ true

abbrev pub type_text : DataType → Bytes
type_text type_int = codes "INT"
type_text type_string = codes "STRING"

-- The words and the value with the white space between them.
abbrev pub render : Bytes → Bytes → DataType → Bytes → Layout → Bytes
render keyword name type_ v l =
    l.lead
    ++ (keyword
        ++ (l.after_keyword
            ++ (name ++ (l.after_name ++ (type_text type_ ++ (l.after_type ++ (v ++ l.trail)))))))

pub space-set : (c : ℕ) → is_space c ≡ true → is_set c ≡ true
space-set c h = ground arith

pub blank-space : (c : ℕ) → is_blank c ≡ true → is_space c ≡ true
blank-space c h = ground arith

pub word-set : (c : ℕ) → is_word_char c ≡ true → is_set c ≡ true
word-set c h = ground arith

gap-space : (g : Bytes) → IsGap g → all is_space g ≡ true
gap-space [] h = absurd h
gap-space (b ∷ bs) h =
    ground (arith, blank-space b h.0, all_mono is_blank is_space blank-space bs h.1)

pub gap-set : (g : Bytes) → IsGap g → all is_set g ≡ true
gap-set g h = all_mono is_space is_set space-set g (gap-space g h)

pub type_text-IsWord : (t : DataType) → IsWord (type_text t)
type_text-IsWord type_int = (refl, λ e. cc)
type_text-IsWord type_string = (refl, λ e. cc)

pub str_to_datatype-type_text : (t : DataType) → str_to_datatype (some (type_text t)) ≡ some t
unfolding str_to_datatype
str_to_datatype-type_text type_int = refl
str_to_datatype-type_text type_string = refl

-- The value, behind blanks and before white space.
pub value_of_lem :
    (blanks v trail : Bytes)
    → all is_space blanks ≡ true
    → IsValue v
    → all is_space trail ≡ true
    → value_of (blanks ++ (v ++ trail)) ≡ some v
unfolding value_of
value_of_lem blanks [] trail h k t = absurd (let b = k.begins in cc)
value_of_lem blanks (c ∷ cs) trail h k t =
    let no_space : is_space c ≡ false = let b = k.begins in ground arith in
    rw (skip_space-append blanks ((c ∷ cs) ++ trail) h, no_space, trim_end-append (c ∷ cs) trail t)
      (ap some k.ends)

pub skip_space-text : (w : Bytes) → starts_value w ≡ true → skip_space w ≡ w
unfolding skip_space
skip_space-text [] h = cc
skip_space-text (c ∷ w) h = ground arith

pub starts_value-append : (w rest : Bytes) → starts_value w ≡ true → starts_value (w ++ rest) ≡ true
starts_value-append [] rest h = cc
starts_value-append (c ∷ w) rest h = h

pub word-is_set : (w : Bytes) → IsWord w → all is_set w ≡ true
word-is_set w h = all_mono is_word_char is_set word-set w h.0

pub tail-set :
    (t : DataType) (g v trail : Bytes)
    → IsGap g
    → IsValue v
    → all is_space trail ≡ true
    → all is_set (type_text t ++ (g ++ (v ++ trail))) ≡ true
tail-set t g v trail n value h =
    all-append is_set (type_text t) _ (word-is_set (type_text t) (type_text-IsWord t)) (
      all-append is_set g _ (gap-set g n)
        (all-append is_set v trail value.no_nul (all_mono is_space is_set space-set trail h)))
