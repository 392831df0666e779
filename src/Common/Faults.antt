-- ===== src/Common/Faults.antt =====
-- Results of code that reads and writes memory through pointers: `fault` is an access outside the
-- object, or a pointer moved outside it, which C++ leaves undefined.
use Prim.Native.Nat.{ℕ, ◌+◌, ◌≤◌, ◌<◌}
use mathlib.Core.Path.{◌≡◌, refl, ap, ◌∙◌}
use mathlib.Core.Logic.{◌≢◌}
use mathlib.Core.List.{◌++◌, append_assoc}
use native.Mathlib.Omega.{arith}
use ats_fastcgi.Common.Tests.{leb, if◌then◌else◌, le→leb, lt→leb}
use ats_fastcgi.Common.Lists.{Bytes, length, take, drop, length-append, length-drop, take_left}

pub data Outcome {ℓ} (A : Type ℓ) : Type ℓ where
  ok : A → Outcome A
  fault : Outcome A

infixl 5 ◌>>=◌
abbrev pub ◌>>=◌ {ℓ κ} :
    {Found : Type ℓ} {Made : Type κ} (m : Outcome Found) (next : Found → Outcome Made)
    → Outcome Made
fault >>= next = fault
ok found >>= next = next found

-- A sequence that ends well did so through its first part.
pub >>=-eq-ok {ℓ κ} :
    {Found : Type ℓ} {Made : Type κ} (m : Outcome Found) (next : Found → Outcome Made) {last : Made}
    → (m >>= next) ≡ ok last
    → (found : Found) × (m ≡ ok found) × (next found ≡ ok last)
>>=-eq-ok fault next run = cc
>>=-eq-ok (ok found) next run = (found, refl, run)

-- No fault, and a result of which `P` holds.
abbrev pub Safe {ℓ} : {A : Type ℓ} → (A → Type 0) → Outcome A → Type 0
Safe P (ok a) = P a
Safe P fault = ⊥

pub Safe->>= {ℓ κ} :
    {A : Type ℓ} {B : Type κ} (P : A → Type 0) (Q : B → Type 0) (m : Outcome A) (f : A → Outcome B)
    → Safe P m
    → ((a : A) → P a → Safe Q (f a))
    → Safe Q (m >>= f)
Safe->>= P Q (ok a) f p q = q a p
Safe->>= P Q fault f p q = absurd p

pub Safe-any {ℓ} : {A : Type ℓ} (m : Outcome A) → m ≢ fault → Safe (λ a. Unit {0}) m
Safe-any (ok a) h = tt
Safe-any fault h = absurd (h refl)

-- A result of which `P` holds, if there is no fault.
abbrev pub OnOk {ℓ} : {A : Type ℓ} → (A → Type 0) → Outcome A → Type 0
OnOk P (ok a) = P a
OnOk P fault = Unit {0}

pub Safe-OnOk {ℓ} :
    {A : Type ℓ} (P Q : A → Type 0) (m : Outcome A) → Safe P m → OnOk Q m → Safe (λ a. P a × Q a) m
Safe-OnOk P Q (ok a) p q = (p, q)
Safe-OnOk P Q fault p q = p

pub Safe-mono {ℓ} :
    {A : Type ℓ} (P Q : A → Type 0) (m : Outcome A) → Safe P m → ((a : A) → P a → Q a) → Safe Q m
Safe-mono P Q (ok a) p f = f a p
Safe-mono P Q fault p f = p

-- What a sequence without a fault gives.
pub Safe-result {ℓ} :
    {A : Type ℓ} (P : A → Type 0) (m : Outcome A) → Safe P m → (a : A) × (m ≡ ok a) × P a
Safe-result P (ok a) p = (a, refl, p)
Safe-result P fault p = absurd p

pub OnOk-Safe {ℓ} : {A : Type ℓ} (P : A → Type 0) (m : Outcome A) → Safe P m → OnOk P m
OnOk-Safe P (ok a) p = p
OnOk-Safe P fault p = tt

pub OnOk-any {ℓ} : {A : Type ℓ} (m : Outcome A) → OnOk (λ a. Unit {0}) m
OnOk-any (ok a) = tt
OnOk-any fault = tt

pub OnOk->>= {ℓ κ} :
    {A : Type ℓ} {B : Type κ} (P : A → Type 0) (Q : B → Type 0) (m : Outcome A) (f : A → Outcome B)
    → OnOk P m
    → ((a : A) → P a → OnOk Q (f a))
    → OnOk Q (m >>= f)
OnOk->>= P Q (ok a) f p q = q a p
OnOk->>= P Q fault f p q = tt

pub >>=-cong {ℓ κ} :
    {A : Type ℓ} {B : Type κ} (m : Outcome A) (f g : A → Outcome B)
    → ((a : A) → f a ≡ g a)
    → (m >>= f) ≡ (m >>= g)
>>=-cong (ok a) f g h = h a
>>=-cong fault f g h = refl

-- `p += n` on a pointer into a buffer, as the bytes from `p` to the end of the buffer.
unfoldable pub advance : Bytes → ℕ → Outcome Bytes
advance bs n = if leb n (length bs) then ok (drop n bs) else fault

-- `memcpy(block + offset, src, n)` for the `n` bytes of `src`.
unfoldable pub memcpy : Bytes → ℕ → Bytes → Outcome Bytes
memcpy block offset src =
    if leb (offset + length src) (length block)
    then ok (take offset block ++ (src ++ drop (offset + length src) block))
    else fault

pub advance_lem : (bs : Bytes) (n : ℕ) → n ≤ length bs → advance bs n ≡ ok (drop n bs)
unfolding advance
advance_lem bs n h = rw (le→leb _ _ h)

pub memcpy_lem :
    (block : Bytes) (offset : ℕ) (src : Bytes)
    → offset + length src ≤ length block
    → memcpy block offset src ≡ ok (take offset block ++ (src ++ drop (offset + length src) block))
unfolding memcpy
memcpy_lem block offset src h = rw (le→leb _ _ h)

-- A copy behind the bytes already in place: the block keeps its size, and now starts with both.
pub memcpy_extends :
    (block front src : Bytes)
    → take (length front) block ≡ front
    → length front + length src ≤ length block
    → (block' : Bytes) × (memcpy block (length front) src ≡ ok block')
      × (length block' ≡ length block)
      × (take (length (front ++ src)) block' ≡ front ++ src)
memcpy_extends block front src e h = (front ++ (src ++ back), copied, sizes, starts)
  where
    back : Bytes
    back = drop (length front + length src) block

    copied : memcpy block (length front) src ≡ ok (front ++ (src ++ back))
    copied = memcpy_lem block (length front) src h ∙ ap (λ t. ok (t ++ (src ++ back))) e

    sizes : length (front ++ (src ++ back)) ≡ length block
    sizes = omega (
      arith,
      length-append front (src ++ back),
      length-append src back,
      length-drop (length front + length src) block,
    )

    starts : take (length (front ++ src)) (front ++ (src ++ back)) ≡ front ++ src
    starts = rw (← append_assoc front src back) (take_left (front ++ src) back _ refl)

pub ok-injective {ℓ} : {A : Type ℓ} {a b : A} → ok a ≡ ok b → a ≡ b
ok-injective e = cc

pub memcpy_overrun :
    (block : Bytes) (offset : ℕ) (src : Bytes)
    → length block < offset + length src
    → memcpy block offset src ≡ fault
unfolding memcpy
memcpy_overrun block offset src h = rw (lt→leb _ _ h)

pub advance_overrun : (bs : Bytes) (n : ℕ) → length bs < n → advance bs n ≡ fault
unfolding advance
advance_overrun bs n h = rw (lt→leb _ _ h)
