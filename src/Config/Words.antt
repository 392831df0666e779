-- ===== src/Config/Words.antt =====
-- The loop bodies on a line, word by word, for any keyword and keys.
use ats_fastcgi.Common.{
  ℕ, ◌≡◌, ◌≢◌, refl, ap, ◌∙◌, sym, true, Option, none, some, [], ◌∷◌, ◌++◌, Bytes, length, Outcome,
  ok, fault, ◌>>=◌, all, all-append, all_mono, is_set, is_word_char, is_space, is_blank,
  c_string-all, skip_space-append, strtok_r-word, strtok_r-last, strtok_r-blank, strncmp_eq-append,
  append-nil, skip_space, strtok_r, strncmp_eq, arith,
}
use ats_fastcgi.Config.Keys.{DataType, type_int, type_string, str_to_datatype}
use ats_fastcgi.Config.Line.{
  refused, bad_type, refused, setting, value_of, parse_line, take_type, check_type, take_name,
  take_value, first_word,
}
use ats_fastcgi.Config.Layout.{
  Layout, IsLayout, IsGap, IsWord, IsValue, starts_value, type_text, render, blank-space,
  type_text-IsWord, str_to_datatype-type_text, value_of_lem, skip_space-text, starts_value-append,
  tail-set, word-is_set, word-set, gap-set, space-set,
}

check_type-same :
    {K : Type 0} (k : K) (t : DataType) (ln v : Bytes)
    → value_of ln ≡ some v
    → check_type k t (some t) ln ≡ setting k v
unfolding check_type take_value
check_type-same k type_int ln v e = rw e refl
check_type-same k type_string ln v e = rw e refl

-- The type and the value.
take_type-render :
    {K : Type 0} (type_of : K → DataType) (k : K) (g1 g2 v trail : Bytes)
    → all is_blank g1 ≡ true
    → IsGap g2
    → IsValue v
    → all is_space trail ≡ true
    → take_type type_of (some k) (g1 ++ (type_text (type_of k) ++ (g2 ++ (v ++ trail))))
      ≡ setting k v
unfolding take_type
take_type-render type_of k g1 [] v trail h n value t = absurd n
take_type-render type_of k g1 (b ∷ g2) v trail h n value t =
    let w = type_text-IsWord (type_of k) in
    let rest = g2 ++ (v ++ trail) in
    ap (λ r. check_type k (type_of k) (str_to_datatype r.0) r.1)
      (strtok_r-word g1 (type_text (type_of k)) b rest h w.0 w.1 n.0)
    ∙ ap (λ d. check_type k (type_of k) d rest) (str_to_datatype-type_text (type_of k))
    ∙ check_type-same k (type_of k) rest v
        (value_of_lem g2 v trail (all_mono is_blank is_space blank-space g2 n.1) value t)

module _ {K : Type 0} (keyword : Bytes) (find : Option Bytes → Outcome (Option K))
    (type_of : K → DataType) where
  first_word-keyword :
      (c : ℕ) (cs tail ln : Bytes)
      → keyword ≡ c ∷ cs
      → c ≢ b'#'
      → first_word keyword find type_of (some (keyword ++ tail)) ln
        ≡ take_name keyword find type_of ln
  unfolding first_word
  first_word-keyword c cs tail ln e other =
      let same : strncmp_eq (length keyword) (c ∷ (cs ++ tail)) keyword ≡ true =
        ap (λ w. strncmp_eq (length keyword) (w ++ tail) keyword) (sym e)
        ∙ strncmp_eq-append keyword tail in
      ap (λ w. first_word keyword find type_of (some (w ++ tail)) ln) e ∙ ground (arith, same)

  take_name-word :
      (k : K) (name g1 g2 tail : Bytes) (b : ℕ)
      → find (some name) ≡ ok (some k)
      → IsWord name
      → all is_blank g1 ≡ true
      → is_blank b ≡ true
      → take_name keyword find type_of (g1 ++ (name ++ (b ∷ (g2 ++ tail))))
        ≡ ok (take_type type_of (some k) (g2 ++ tail))
  unfolding take_name
  take_name-word k name g1 g2 tail b e w h n =
      ap (λ r. find r.0 >>= λ k. ok (take_type type_of k r.1))
        (strtok_r-word g1 name b (g2 ++ tail) h w.0 w.1 n)
      ∙ ap (λ o. o >>= λ k. ok (take_type type_of k (g2 ++ tail))) e

  -- The first word, behind white space, where no NUL is in the line.
  parse_line-first :
      (lead text : Bytes)
      → all is_space lead ≡ true
      → all is_set text ≡ true
      → starts_value text ≡ true
      → parse_line keyword find type_of (lead ++ text)
        ≡ first_word keyword find type_of (strtok_r text).0 (strtok_r text).1
  unfolding parse_line
  parse_line-first lead text h set begins =
      ap
        (λ s.
          first_word keyword find type_of (strtok_r (skip_space s)).0 (strtok_r (skip_space s)).1)
        (c_string-all (lead ++ text)
          (all-append is_set lead text (all_mono is_space is_set space-set lead h) set))
      ∙ ap (λ s. first_word keyword find type_of (strtok_r s).0 (strtok_r s).1)
          (skip_space-append lead text h ∙ skip_space-text text begins)

  -- The keyword and a key's name: what the line does is settled by what follows them.
  parse_line-words :
      (c : ℕ) (cs name lead g1 g2 tail : Bytes) (b d : ℕ) (k : K)
      → keyword ≡ c ∷ cs
      → c ≢ b'#'
      → starts_value keyword ≡ true
      → find (some name) ≡ ok (some k)
      → IsWord keyword
      → IsWord name
      → all is_space lead ≡ true
      → IsGap (b ∷ g1)
      → IsGap (d ∷ g2)
      → all is_set tail ≡ true
      → parse_line keyword find type_of
          (lead ++ (keyword ++ ((b ∷ g1) ++ (name ++ ((d ∷ g2) ++ tail)))))
        ≡ ok (take_type type_of (some k) (g2 ++ tail))
  parse_line-words c cs name lead g1 g2 tail b d k ke other begins e kw nw h n1 n2 set =
      let rest = g1 ++ (name ++ ((d ∷ g2) ++ tail)) in
      parse_line-first lead (keyword ++ (b ∷ rest)) h
        (all-append is_set keyword (b ∷ rest) (word-is_set keyword kw) (
          all-append is_set (b ∷ g1) _ (gap-set (b ∷ g1) n1) (
            all-append is_set name _ (word-is_set name nw)
              (all-append is_set (d ∷ g2) tail (gap-set (d ∷ g2) n2) set))))
        (starts_value-append keyword (b ∷ rest) begins)
      ∙ ap (λ r. first_word keyword find type_of r.0 r.1)
          (strtok_r-word [] keyword b rest refl kw.0 kw.1 n1.0
            ∙ ap (λ w. (some w, rest)) (sym (append-nil keyword)))
      ∙ first_word-keyword c cs [] rest ke other
      ∙ take_name-word k name g1 g2 tail d e nw n1.1 n2.0

  gaps-render :
      (c : ℕ) (cs name lead g1 g2 g3 v trail : Bytes) (k : K)
      → keyword ≡ c ∷ cs
      → c ≢ b'#'
      → starts_value keyword ≡ true
      → find (some name) ≡ ok (some k)
      → IsWord keyword
      → IsWord name
      → all is_space lead ≡ true
      → IsGap g1
      → IsGap g2
      → IsGap g3
      → IsValue v
      → all is_space trail ≡ true
      → parse_line keyword find type_of (
          lead
          ++ (keyword ++ (g1 ++ (name ++ (g2 ++ (type_text (type_of k) ++ (g3 ++ (v ++ trail))))))))
        ≡ ok (setting k v)
  gaps-render c cs name lead [] g2 g3 v trail k ke o p e kw nw h n1 n2 n3 value t = absurd n1
  gaps-render c cs name lead (b ∷ g1) [] g3 v trail k ke o p e kw nw h n1 n2 n3 value t = absurd n2
  gaps-render c cs name lead (b ∷ g1) (d ∷ g2) g3 v trail k ke o p e kw nw h n1 n2 n3 value t =
      parse_line-words c cs name lead g1 g2 (type_text (type_of k) ++ (g3 ++ (v ++ trail))) b d k ke
        o p e kw nw h n1 n2 (tail-set (type_of k) g3 v trail n3 value t)
      ∙ ap ok (take_type-render type_of k g2 g3 v trail n2.1 n3 value t)

  -- A whole line, whose keyword is a word that begins with no `#` and no white space.
  pub parse_line-render :
      (c : ℕ) (cs name v : Bytes) (k : K) (l : Layout)
      → keyword ≡ c ∷ cs
      → c ≢ b'#'
      → starts_value keyword ≡ true
      → find (some name) ≡ ok (some k)
      → IsWord keyword
      → IsWord name
      → IsValue v
      → IsLayout l
      → parse_line keyword find type_of (render keyword name (type_of k) v l) ≡ ok (setting k v)
  parse_line-render c cs name v k l ke other begins e kw nw value lay =
      gaps-render c cs name l.lead l.after_keyword l.after_name l.after_type v l.trail k ke other
        begins e kw nw lay.lead_space lay.keyword_gap lay.name_gap lay.type_gap value
        lay.trail_space

  -- A line whose last word is where the type should be, and is none.
  pub parse_line-untyped :
      (c : ℕ) (cs name lead g1 g2 word : Bytes) (b d : ℕ) (k : K)
      → keyword ≡ c ∷ cs
      → c ≢ b'#'
      → starts_value keyword ≡ true
      → find (some name) ≡ ok (some k)
      → IsWord keyword
      → IsWord name
      → all is_space lead ≡ true
      → IsGap (b ∷ g1)
      → IsGap (d ∷ g2)
      → IsWord word
      → str_to_datatype (some word) ≡ none
      → parse_line keyword find type_of
          (lead ++ (keyword ++ ((b ∷ g1) ++ (name ++ ((d ∷ g2) ++ word)))))
        ≡ ok (refused bad_type)
  unfolding take_type
  parse_line-untyped c cs name lead g1 g2 word b d k ke other begins e kw nw h n1 n2 w u =
      parse_line-words c cs name lead g1 g2 word b d k ke other begins e kw nw h n1 n2
        (word-is_set word w)
      ∙ ap (λ r. ok (check_type k (type_of k) (str_to_datatype r.0) r.1))
          (strtok_r-last g2 word n2.1 w.0 w.1)
      ∙ ap (λ t. ok (check_type k (type_of k) t [])) u
      ∙ unfold check_type in refl

  take_name-blank :
      (blanks : Bytes)
      → all is_blank blanks ≡ true
      → find none ≡ fault
      → take_name keyword find type_of blanks ≡ fault
  unfolding take_name
  take_name-blank blanks h e =
      ap (λ r. find r.0 >>= λ k. ok (take_type type_of k r.1)) (strtok_r-blank blanks h)
      ∙ ap (λ o. o >>= λ k. ok (take_type type_of k [])) e

  first_word-alone :
      (c : ℕ) (cs tail blanks : Bytes)
      → keyword ≡ c ∷ cs
      → c ≢ b'#'
      → all is_word_char (keyword ++ tail) ≡ true
      → all is_blank blanks ≡ true
      → find none ≡ fault
      → (λ (r : Option Bytes × Bytes). first_word keyword find type_of r.0 r.1)
          (strtok_r ((keyword ++ tail) ++ blanks))
        ≡ fault
  first_word-alone c cs tail [] ke other w h e =
      ap (λ r. first_word keyword find type_of r.0 r.1)
        (ap strtok_r (append-nil (keyword ++ tail))
          ∙ strtok_r-last [] (keyword ++ tail) refl w
              (λ n. let m : (c ∷ cs) ++ tail ≡ [] = ap (λ x. x ++ tail) (sym ke) ∙ n in cc))
      ∙ first_word-keyword c cs tail [] ke other
      ∙ take_name-blank [] refl e
  first_word-alone c cs tail (b ∷ blanks) ke other w h e =
      let gap : IsGap (b ∷ blanks) = ground arith in
      ap (λ r. first_word keyword find type_of r.0 r.1)
        (strtok_r-word [] (keyword ++ tail) b blanks refl w
          (λ n. let m : (c ∷ cs) ++ tail ≡ [] = ap (λ x. x ++ tail) (sym ke) ∙ n in cc) gap.0)
      ∙ first_word-keyword c cs tail blanks ke other
      ∙ take_name-blank blanks gap.1 e

  -- A line of one word that begins with the keyword.
  pub parse_line-no_name :
      (c : ℕ) (cs lead tail blanks : Bytes)
      → keyword ≡ c ∷ cs
      → c ≢ b'#'
      → starts_value keyword ≡ true
      → all is_space lead ≡ true
      → all is_word_char (keyword ++ tail) ≡ true
      → all is_blank blanks ≡ true
      → find none ≡ fault
      → parse_line keyword find type_of (lead ++ ((keyword ++ tail) ++ blanks)) ≡ fault
  parse_line-no_name c cs lead tail blanks ke other begins s w h e =
      parse_line-first lead ((keyword ++ tail) ++ blanks) s
        (all-append is_set (keyword ++ tail) blanks
          (all_mono is_word_char is_set word-set (keyword ++ tail) w)
          (all_mono is_space is_set space-set blanks
            (all_mono is_blank is_space blank-space blanks h)))
        (starts_value-append (keyword ++ tail) blanks (starts_value-append keyword tail begins))
      ∙ first_word-alone c cs tail blanks ke other w h e
