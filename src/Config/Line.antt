-- ===== src/Config/Line.antt =====
-- src/fcgi_config.cc: the loop bodies of `initConfig` and `initFcgiParam`, which are the same but for
-- the word that a line starts with and the keys.
use ats_fastcgi.Common.{
  ◌==◌, Bool, true, false, not, Option, none, some, [], ◌∷◌, Bytes, codes, c_string, skip_space,
  strtok_r, strncmp_eq, trim_end, length, if◌then◌else◌, Outcome, ok, ◌>>=◌,
}
use ats_fastcgi.Config.Keys.{
  DataType, type_int, type_string, ConfigKey, ParamKey, str_to_datatype, config_type, param_type,
  fcgi_http_txn_config_find, fcgi_param_config_find,
}

-- What `TSError` reports about a line.
pub data LineError : Type 0 where
  non_config_line no_name_given bad_type type_mismatch no_value : LineError

-- A line is passed over, refused, or sets a key.
pub data Line (K : Type 0) : Type 0 where
  skipped : Line K
  refused : LineError → Line K
  setting : K → Bytes → Line K

same_type : DataType → DataType → Bool
same_type type_int type_int = true
same_type type_string type_string = true
same_type _ _ = false

trimmed : Bytes → Option Bytes
unfolding trim_end
trimmed [] = none
trimmed (c ∷ cs) = some (trim_end (c ∷ cs))

-- The value: what is left of the line without the white space around it, or the null pointer.
unfoldable pub value_of : Bytes → Option Bytes
unfolding skip_space trimmed
value_of ln = trimmed (skip_space ln)

with_value : {K : Type 0} → K → Option Bytes → Line K
with_value k none = refused no_value
with_value k (some v) = setting k v

unfoldable pub take_value : {K : Type 0} → K → Bytes → Line K
unfolding value_of with_value
take_value k ln = with_value k (value_of ln)

unfoldable pub check_type : {K : Type 0} → K → DataType → Option DataType → Bytes → Line K
unfolding same_type take_value
check_type k expected none ln = refused bad_type
check_type k expected (some type_) ln =
    if same_type type_ expected then take_value k ln else refused type_mismatch

-- The rest of a line, after the name.
unfoldable pub take_type : {K : Type 0} → (K → DataType) → Option K → Bytes → Line K
unfolding check_type strtok_r str_to_datatype
take_type type_of none ln = refused no_name_given
take_type type_of (some k) ln =
    let (tok, rest) = strtok_r ln in check_type k (type_of k) (str_to_datatype tok) rest

module _ {K : Type 0} (keyword : Bytes) (find : Option Bytes → Outcome (Option K))
    (type_of : K → DataType) where
  unfoldable pub take_name : Bytes → Outcome (Line K)
  unfolding take_type strtok_r
  take_name ln = let (tok, rest) = strtok_r ln in find tok >>= λ k. ok (take_type type_of k rest)

  -- The rest of a line, by its first word.
  unfoldable pub first_word : Option Bytes → Bytes → Outcome (Line K)
  unfolding take_name strncmp_eq
  first_word none ln = ok skipped
  first_word (some []) ln = ok skipped
  first_word (some (c ∷ tok)) ln =
      if c == b'#'
      then ok skipped
      else if not (strncmp_eq (length keyword) (c ∷ tok) keyword)
      then ok (refused non_config_line)
      else take_name ln

  unfoldable pub parse_line : Bytes → Outcome (Line K)
  unfolding first_word c_string skip_space strtok_r
  parse_line buf = let (tok, ln) = strtok_r (skip_space (c_string buf)) in first_word tok ln

-- The loop body of `initConfig`, up to the `switch`
unfoldable pub config_line : Bytes → Outcome (Line ConfigKey)
unfolding parse_line fcgi_http_txn_config_find config_type
config_line = parse_line (codes "CONFIG") fcgi_http_txn_config_find config_type

-- The loop body of `initFcgiParam`, up to the `switch`
unfoldable pub param_line : Bytes → Outcome (Line ParamKey)
unfolding parse_line fcgi_param_config_find
param_line = parse_line (codes "fastcgi_param") fcgi_param_config_find param_type
