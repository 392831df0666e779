-- ===== src/Request/NameValue.antt =====
-- `serializeNameValue` against the reader of the FastCGI specification.
use ats_fastcgi.Common.{
  ℕ, zero, suc, ◌+◌, ◌*◌, ◌-◌, ◌/◌, ◌<◌, ◌≡◌, refl, ◌∙◌, [], ◌∷◌, ◌++◌, Bytes, length, take, drop,
  Option, none, some, arith, ◌==◌, ltb, leb, le→leb, if◌then◌else◌, append_assoc, length-append,
  ◌%◌, ◌^◌, Bool-cases, Bool, true, false, ◌&&◌, inl, inr, take_left, drop_left, bit_or, ==_iff,
}
use ats_fastcgi.Protocol.{byte_0, byte_1, byte_2, byte_3}
use ats_fastcgi.StringMap.{StringMap}
use ats_fastcgi.Request.{length_bytes, name_value_bytes}
use ats_fastcgi.Request.Bounds.{params_bytes}

-- A length of the specification: one byte below 128, or four with the top bit set.
abbrev pub read_length : Bytes → Option (ℕ × Bytes)
read_length [] = none
read_length (b3 ∷ bs) = if ltb b3 128 then some (b3, bs) else four b3 bs
  where
    four : ℕ → Bytes → Option (ℕ × Bytes)
    four b3 (b2 ∷ b1 ∷ b0 ∷ bs) = some ((b3 - 128) * 2 ^ 24 + b2 * 2 ^ 16 + b1 * 2 ^ 8 + b0, bs)
    four b3 _ = none

-- `BYTE_3` sets the top bit of a byte that has it clear: seen by trying every such byte.
abbrev adds_top_bit : ℕ → Bool
adds_top_bit byte = bit_or byte 0x80 % 2 ^ 8 == byte + 128

adds_top_bit_to : ℕ → Bool
adds_top_bit_to zero = true
adds_top_bit_to (suc bound) = adds_top_bit_to bound && adds_top_bit bound

adds_top_bit_seven : adds_top_bit_to 128 ≡ true
unfolding adds_top_bit_to
adds_top_bit_seven = refl

adds_top_bit_lem :
    (bound byte : ℕ) → byte < bound → adds_top_bit_to bound ≡ true → adds_top_bit byte ≡ true
unfolding adds_top_bit_to
adds_top_bit_lem (suc bound) byte small tried = ground (arith, adds_top_bit_lem bound byte)
adds_top_bit_lem zero byte small tried = absurd (omega arith)

-- Below 2^31 the top bit is free.
byte_3_lem : (n : ℕ) → n < 2 ^ 31 → byte_3 n ≡ n / 2 ^ 24 + 128
byte_3_lem n h = (==_iff _ _).0 (adds_top_bit_lem 128 (n / 2 ^ 24) (omega arith) adds_top_bit_seven)

pub read_length-length_bytes :
    (n : ℕ) (rest : Bytes) → n < 2 ^ 31 → read_length (length_bytes n ++ rest) ≡ some (n, rest)
unfolding length_bytes
read_length-length_bytes n rest h = elim (Bool-cases (ltb n 128)) [
  | inl short ↦ let low : n % 2 ^ 8 ≡ n = ground arith in rw short (rw (low, short))
  | inr long ↦
      let top = byte_3_lem n h in
      let four : ltb (byte_3 n) 128 ≡ false = ground (arith, top) in
      let sum : (byte_3 n - 128) * 2 ^ 24 + byte_2 n * 2 ^ 16 + byte_1 n * 2 ^ 8 + byte_0 n ≡ n =
        omega (arith, top) in
      rw long (rw (four, sum))
]

infixl 5 ◌>>=◌
abbrev ◌>>=◌ : {A B : Type 0} → Option A → (A → Option B) → Option B
none >>= f = none
some a >>= f = f a

-- A name and a value, and what follows them.
unfoldable pub read_pair : Bytes → Option ((Bytes × Bytes) × Bytes)
read_pair bs = do
  (nl, bs1) ← read_length bs
  (vl, bs2) ← read_length bs1
  if leb (nl + vl) (length bs2)
      then some ((take nl bs2, take vl (drop nl bs2)), drop vl (drop nl bs2))
      else none

-- The parameters of a whole stream; the fuel bounds their number.
unfoldable pub read_params : ℕ → Bytes → Option StringMap
read_params fuel [] = some []
read_params zero (b ∷ bs) = none
read_params (suc fuel) (b ∷ bs) = do
  (kv, rest) ← read_pair (b ∷ bs)
  kvs ← read_params fuel rest
  some (kv ∷ kvs)

-- A pair that `serializeNameValue` can write: both lengths are below 2^31.
abbrev pub IsPair : Bytes × Bytes → Type 0
IsPair (name, value) = (length name < 2 ^ 31) × (length value < 2 ^ 31)

abbrev pub ArePairs : StringMap → Type 0
ArePairs [] = Unit {0}
ArePairs (kv ∷ kvs) = IsPair kv × ArePairs kvs

pub read_pair-name_value_bytes :
    (name value rest : Bytes)
    → IsPair (name, value)
    → read_pair (name_value_bytes (name, value) ++ rest) ≡ some ((name, value), rest)
unfolding name_value_bytes read_pair
read_pair-name_value_bytes name value rest h =
    let nl : length name % 2 ^ 32 ≡ length name = omega arith in
    let vl : length value % 2 ^ 32 ≡ length value = omega arith in
    let room : leb (length name + length value) (length (name ++ (value ++ rest))) ≡ true =
      le→leb _ _ (omega (arith, length-append name (value ++ rest), length-append value rest)) in
    rw (
      nl,
      vl,
      append_assoc (length_bytes (length name)) (length_bytes (length value) ++ (name ++ value))
          rest,
      read_length-length_bytes (length name) _ h.0,
      append_assoc (length_bytes (length value)) (name ++ value) rest,
      read_length-length_bytes (length value) _ h.1,
      append_assoc name value rest,
      room,
      take_left name (value ++ rest) _ refl,
      drop_left name (value ++ rest) _ refl,
      take_left value rest _ refl,
      drop_left value rest _ refl,
    )

length_bytes-pos : (n : ℕ) → 0 < length (length_bytes n)
unfolding length_bytes
length_bytes-pos n = ground arith

name_value_bytes-pos : (kv : Bytes × Bytes) → 0 < length (name_value_bytes kv)
unfolding name_value_bytes
name_value_bytes-pos (name, value) = omega (
  arith,
  length_bytes-pos (length name % 2 ^ 32),
  length-append (length_bytes (length name % 2 ^ 32))
      (length_bytes (length value % 2 ^ 32) ++ (name ++ value)),
)

-- A reader step on a stream that is not empty.
read_params_step :
    (fuel : ℕ) (bs rest : Bytes) (kv : Bytes × Bytes)
    → 0 < length bs
    → read_pair bs ≡ some (kv, rest)
    → read_params (suc fuel) bs ≡ (read_params fuel rest >>= λ kvs. some (kv ∷ kvs))
unfolding read_params
read_params_step fuel [] rest kv h e = elim h [ ]
read_params_step fuel (b ∷ bs) rest kv h e = rw e

-- The bytes that `createBeginRequest` sends for the parameters are read back, pair by pair, as the
-- request headers in the map's order, if each name and each value is shorter than 2^31 bytes; the
-- reader needs no more rounds than there are pairs.
pub read_params-params_bytes :
    (kvs : StringMap) → ArePairs kvs → read_params (length kvs) (params_bytes kvs) ≡ some kvs
unfolding read_params
read_params-params_bytes [] h = refl
read_params-params_bytes ((name, value) ∷ kvs) h =
    read_params_step (length kvs) _ (params_bytes kvs) (name, value)
      (omega (
        arith,
        name_value_bytes-pos (name, value),
        length-append (name_value_bytes (name, value)) (params_bytes kvs),
      ))
      (read_pair-name_value_bytes name value (params_bytes kvs) h.0)
    ∙ rw (read_params-params_bytes kvs h.1)
