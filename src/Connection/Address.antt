-- ===== src/Connection/Address.antt =====
-- src/server_connection.cc: the address that `createConnection` reads from the configuration.
use ats_fastcgi.Common.{
  ℕ, ◌+◌, ◌-◌, ◌*◌, ◌/◌, ◌%◌, ◌^◌, ◌<◌, bit_or, ◌≡◌, refl, ap, ◌∙◌, true, false, Option, none, some,
  [], ◌∷◌, Bytes, Outcome, ok, fault, ◌>>=◌, skip_space, digits, after_digits, starts_digit,
  decimal_before, digits-decimal_before, after_digits-decimal_before, decimal_before-starts_digit,
  bit_or_lem, ltb, ◌==◌, if◌then◌else◌, arith,
}
use ats_fastcgi.Config.Settings.{FcgiPluginConfig}
use ats_fastcgi.Config.Access.{get_server_ip, get_server_port}

-- The conversion `%hu`, and the text after it. One that fails leaves its variable without a value, which
-- is then used; a number that is no `unsigned short` is undefined too.
scan_unsigned : Bytes → Outcome (ℕ × Bytes)
unfolding digits after_digits
scan_unsigned text =
    if starts_digit text
    then (let n = digits 0 text in if ltb n (2 ^ 16) then ok (n, after_digits text) else fault)
    else fault

-- The sign that may stand before it
scan_signed : Bytes → Outcome (ℕ × Bytes)
unfolding scan_unsigned
scan_signed [] = fault
scan_signed (c ∷ cs) =
    if c == b'+'
    then scan_unsigned cs
    else if c == b'-'
    then (scan_unsigned cs >>= λ r. ok ((2 ^ 16 - r.0) % 2 ^ 16, r.1))
    else scan_unsigned (c ∷ cs)

unfoldable pub scan_hu : Bytes → Outcome (ℕ × Bytes)
unfolding skip_space scan_signed
scan_hu text = scan_signed (skip_space text)

-- A point of the format
unfoldable pub scan_point : Bytes → Outcome Bytes
scan_point [] = fault
scan_point (c ∷ cs) = if c == b'.' then ok cs else fault

-- `sscanf(arr, "%hu.%hu.%hu.%hu", &a, &b, &c, &d)`
unfoldable pub scan_ip : Bytes → Outcome (ℕ × ℕ × ℕ × ℕ)
unfolding scan_hu scan_point
scan_ip arr = do
  (a, s1) ← scan_hu arr
  s2 ← scan_point s1
  (b, s3) ← scan_hu s2
  s4 ← scan_point s3
  (c, s5) ← scan_hu s4
  s6 ← scan_point s5
  (d, s7) ← scan_hu s6
  ok (a, b, c, d)

-- `new_ip`, as an unsigned number of 32 bits
unfoldable pub new_ip : ℕ × ℕ × ℕ × ℕ → ℕ
new_ip (a, b, c, d) =
    bit_or (bit_or (bit_or (a * 2 ^ 24 % 2 ^ 32) (b * 2 ^ 16)) (c * 2 ^ 8)) d % 2 ^ 32

-- What `htonl` and `htons` store
unfoldable pub htonl : ℕ → Bytes
htonl n = n / 2 ^ 24 % 256 ∷ n / 2 ^ 16 % 256 ∷ n / 2 ^ 8 % 256 ∷ n % 256 ∷ []

unfoldable pub htons : ℕ → Bytes
htons n = n / 2 ^ 8 % 256 ∷ n % 256 ∷ []

-- The members of `sockaddr_in` that are set, but for the family, as the bytes in memory.
pub record Address : Type 0 where
  pub sin_addr : Bytes
  pub sin_port : Bytes

-- The null pointer goes to `sscanf`.
unfoldable pub address_of : Option Bytes → Option Bytes → Outcome Address
unfolding scan_ip scan_hu new_ip htonl htons
address_of (some arr) (some port) = do
  ip ← scan_ip arr
  (p, rest) ← scan_hu port
  ok (record { sin_addr = htonl (new_ip ip); sin_port = htons p })
address_of none port = fault
address_of (some arr) none = fault

-- `createConnection`, up to `TSNetConnect`
unfoldable pub server_address : FcgiPluginConfig → Outcome Address
unfolding address_of
server_address config = address_of (get_server_ip config) (get_server_port config)

scan_signed-digits :
    (text : Bytes)
    → starts_digit text ≡ true
    → digits 0 text < 2 ^ 16
    → scan_signed text ≡ ok (digits 0 text, after_digits text)
unfolding scan_signed scan_unsigned
scan_signed-digits [] h k = absurd (cc)
scan_signed-digits (c ∷ cs) h k = ground arith

skip_space-digits : (text : Bytes) → starts_digit text ≡ true → skip_space text ≡ text
unfolding skip_space
skip_space-digits [] h = absurd (cc)
skip_space-digits (c ∷ cs) h = ground arith

-- A number is read back, before a text that does not go on with a digit.
scan_hu-decimal :
    (n : ℕ) (text : Bytes)
    → n < 2 ^ 16
    → starts_digit text ≡ false
    → scan_hu (decimal_before n text) ≡ ok (n, text)
unfolding scan_hu digits after_digits
scan_hu-decimal n text h k =
    let front = decimal_before-starts_digit n text in
    let value : digits 0 (decimal_before n text) ≡ n =
      digits-decimal_before n text ∙ stop text n k in
    let rest = after_digits-decimal_before n text ∙ stays text k in
    let shown = decimal_before n text in
    ap scan_signed (skip_space-digits shown front)
    ∙ scan_signed-digits shown front (omega (arith, value))
    ∙ rw (value, rest) refl
  where
    stop : (t : Bytes) (m : ℕ) → starts_digit t ≡ false → digits m t ≡ m
    stop [] m k = refl
    stop (c ∷ t) m k = ground arith

    stays : (t : Bytes) → starts_digit t ≡ false → after_digits t ≡ t
    stays [] k = refl
    stays (c ∷ t) k = ground arith

new_ip-htonl :
    (a b c d : ℕ)
    → a < 256
    → b < 256
    → c < 256
    → d < 256
    → htonl (new_ip (a, b, c, d)) ≡ a ∷ b ∷ c ∷ d ∷ []
unfolding htonl new_ip
new_ip-htonl a b c d ha hb hc hd =
    let ab : bit_or (a * 2 ^ 24 % 2 ^ 32) (b * 2 ^ 16) ≡ (a * 256 + b) * 2 ^ 16 =
      ap (λ x. bit_or x (b * 2 ^ 16)) (omega arith)
      ∙ bit_or_lem 24 a (b * 2 ^ 16) (omega arith)
      ∙ omega arith in
    let abc : bit_or ((a * 256 + b) * 2 ^ 16) (c * 2 ^ 8) ≡ ((a * 256 + b) * 256 + c) * 2 ^ 8 =
      bit_or_lem 16 (a * 256 + b) (c * 2 ^ 8) (omega arith) ∙ omega arith in
    let whole = ((a * 256 + b) * 256 + c) * 2 ^ 8 + d in
    let value : new_ip (a, b, c, d) ≡ whole % 2 ^ 32 =
      ap (λ x. bit_or (bit_or x (c * 2 ^ 8)) d % 2 ^ 32) ab
      ∙ ap (λ x. bit_or x d % 2 ^ 32) abc
      ∙ ap (λ x. x % 2 ^ 32) (bit_or_lem 8 ((a * 256 + b) * 256 + c) d (omega arith)) in
    rw value (ground arith)

-- The dotted text of four bytes and the text of a port are read as this address, in network byte order.
pub address_of-decimal :
    (a b c d p : ℕ)
    → a < 256
    → b < 256
    → c < 256
    → d < 256
    → p < 2 ^ 16
    → address_of
        (some (
          decimal_before a
            (b'.' ∷ decimal_before b (b'.' ∷ decimal_before c (b'.' ∷ decimal_before d [])))))
        (some (decimal_before p []))
      ≡ ok (record { sin_addr = a ∷ b ∷ c ∷ d ∷ []; sin_port = p / 256 ∷ p % 256 ∷ [] })
unfolding address_of scan_ip scan_point htons
address_of-decimal a b c d p ha hb hc hd hp =
    rw
      (
        scan_hu-decimal a
            (b'.' ∷ decimal_before b (b'.' ∷ decimal_before c (b'.' ∷ decimal_before d [])))
            (omega arith) refl,
        scan_hu-decimal b (b'.' ∷ decimal_before c (b'.' ∷ decimal_before d [])) (omega arith) refl,
        scan_hu-decimal c (b'.' ∷ decimal_before d []) (omega arith) refl,
        scan_hu-decimal d [] (omega arith) refl,
        scan_hu-decimal p [] hp refl,
        new_ip-htonl a b c d ha hb hc hd,
      )
      (ground arith)
